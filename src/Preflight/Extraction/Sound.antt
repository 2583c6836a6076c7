-- ===== src/Preflight/Extraction/Sound.antt =====
-- pkg/preflight/report_parser.go: the map of results that extractBatchResults makes.
use kcover.Shared.{
  ◌≡◌, Bool, List, String, [], all, arith, contains, false, insert, insert_missing, keys, ltb, ok,
  true, ℕ, ◌&&◌, ◌++◌, ◌==◌, ◌||◌, ◌∷◌, text_eq, nat_eq, >>=-eq-ok, Option, eq_refl, none, some,
  ◌>>=◌, Distinct, fail_if-eq-ok, not, insert-Distinct, subst,
}
use kcover.Preflight.Types.{BatchResult}
use kcover.Preflight.Json.{Fields, Runtime, Value, get_field, Items}
use kcover.Preflight.Extraction.{
  batch_identity, extract_batch_result, raw_batch_idx, run_identity, extract_item, extract_items,
  store_if,
}
use kcover.Preflight.Parser.{
  batch_self_ip, identity_with, pair_field, self_ip_in_pair, skipped_batch_identity, text_or_empty,
  batch_failed,
}

-- A result of a batch below the count, whose own address is one of its pair.
abbrev pub is_sound : ℕ → BatchResult → Bool
is_sound batch_count r =
    ltb r.batch_idx batch_count && (r.pair_first == r.self_ip || r.pair_second == r.self_ip)

-- An entry of the map of results: stored at its own index.
abbrev pub is_stored : ℕ → ℕ × BatchResult → Bool
is_stored batch_count (idx, r) = r.batch_idx == idx && is_sound batch_count r

-- The entries are stored at their own indexes, which are distinct and below the count.
unfoldable pub IsStored : ℕ → List (ℕ × BatchResult) → Type 0
IsStored n m = (all (is_stored n) m ≡ true) × Distinct (keys m)

all-append :
    {A : Type 0} (p : A → Bool) (xs : List A) (a : A)
    → all p xs ≡ true
    → p a ≡ true
    → all p (xs ++ (a ∷ [])) ≡ true
all-append p [] a h k = ground arith
all-append p (x ∷ xs) a h k = ground (arith, all-append p xs a)

store-keeps :
    (n : ℕ) (r : BatchResult) (m : List (ℕ × BatchResult))
    → all (is_stored n) m ≡ true
    → is_sound n r ≡ true
    → contains (keys m) r.batch_idx ≡ false
    → all (is_stored n) (insert r.batch_idx r m) ≡ true
store-keeps n r m h k new =
    rw (insert_missing r.batch_idx r m new)
      (all-append (is_stored n) m (r.batch_idx, r) h (ground arith))

module _ (rt : Runtime) where
  open rt use {Float}

  self_ip-own :
      (raw : Option (Value Float)) (ip : String) (pair : String × String) (s : String)
      → self_ip_in_pair rt raw ip pair ≡ ok s
      → ((pair.0 == s) || (pair.1 == s)) ≡ true
  self_ip-own none ip (first, second) s h = ground (arith, eq_refl ip)
  self_ip-own (some raw) ip (first, second) s h = ground (arith, eq_refl s)

  with_pair-own :
      (batch : Fields Float) (ip : String) (pair : String × String)
      (id : (String × String) × String)
      → (batch_self_ip rt batch ip pair >>= λ s. ok (pair, s)) ≡ ok id
      → ((id.0.0 == id.1) || (id.0.1 == id.1)) ≡ true
  unfolding batch_self_ip
  with_pair-own batch ip pair id h =
      let (s, e, f) =
        >>=-eq-ok (self_ip_in_pair rt (get_field "self_ip" batch) ip pair) (λ s. ok (pair, s)) h in
      ground (arith, self_ip-own (get_field "self_ip" batch) ip pair s e)

  skipped-own :
      (o : Option (String × String)) (batch : Fields Float) (ip : String)
      (id : (String × String) × String)
      → identity_with rt o batch ip ≡ ok id
      → ((id.0.0 == id.1) || (id.0.1 == id.1)) ≡ true
  skipped-own (some pair) batch ip id h = with_pair-own batch ip pair id h
  skipped-own none batch ip id h =
      ground (arith, eq_refl (text_or_empty rt (get_field "self_ip" batch)))

  run-own :
      (o : Option (String × String)) (batch : Fields Float) (ip : String)
      (id : (String × String) × String)
      → run_identity rt o batch ip ≡ ok id
      → ((id.0.0 == id.1) || (id.0.1 == id.1)) ≡ true
  run-own (some pair) batch ip id h = with_pair-own batch ip pair id h
  run-own none batch ip id h = cc

  identity-own :
      (batch : Fields Float) (ip : String) (id : (String × String) × String)
      → batch_identity rt batch ip ≡ ok id
      → ((id.0.0 == id.1) || (id.0.1 == id.1)) ≡ true
  unfolding batch_identity skipped_batch_identity
  identity-own batch ip id h =
      let o = pair_field rt (get_field "pair" batch) in
      ground (arith, skipped-own o batch ip id, run-own o batch ip id)

  result_sound :
      (item : Value Float) (ip : String) (n : ℕ) (threshold : Float) (r : BatchResult)
      → extract_batch_result rt item ip n threshold ≡ ok r
      → is_sound n r ≡ true
  unfolding extract_batch_result raw_batch_idx
  result_sound (Value.obj batch) ip n threshold r h =
      let (idx, e, h1) = >>=-eq-ok (raw_batch_idx rt batch) _ h in
      let (below, h2) = fail_if-eq-ok (not (ltb idx n)) _ h1 in
      let (id, f, h3) = >>=-eq-ok (batch_identity rt batch ip) _ h2 in
      let (bad, g, h4) = >>=-eq-ok (batch_failed rt batch threshold) _ h3 in
      ground (arith, identity-own batch ip id f)
  result_sound Value.null ip n threshold r h = cc
  result_sound (Value.bool b) ip n threshold r h = cc
  result_sound (Value.num x) ip n threshold r h = cc
  result_sound (Value.str s) ip n threshold r h = cc
  result_sound (Value.arr x) ip n threshold r h = cc

  store_sound :
      (below : Bool) (item : Value Float) (ip : String) (n : ℕ) (threshold : Float)
      (m next : List (ℕ × BatchResult))
      → store_if rt below item ip n threshold m ≡ ok next
      → IsStored n m
      → IsStored n next
  unfolding IsStored
  store_sound false item ip n threshold m next h s =
      let same : m ≡ next = cc in subst (IsStored n) same s
  store_sound true item ip n threshold m next h s =
      let (r, e, h1) = >>=-eq-ok (extract_batch_result rt item ip n threshold) _ h in
      let (new, h2) = fail_if-eq-ok (contains (keys m) r.batch_idx) _ h1 in
      let sound = result_sound item ip n threshold r e in
      let same : insert r.batch_idx r m ≡ next = cc in
      subst (IsStored n) same (store-keeps n r m s.0 sound new, insert-Distinct r.batch_idx r m s.1)

  item-keeps :
      (item : Value Float) (ip : String) (n : ℕ) (threshold : Float)
      (m next : List (ℕ × BatchResult))
      → extract_item rt item ip n threshold m ≡ ok next
      → IsStored n m
      → IsStored n next
  unfolding extract_item raw_batch_idx IsStored
  item-keeps (Value.obj batch) ip n threshold m next h s =
      let (idx, e, h1) = >>=-eq-ok (raw_batch_idx rt batch) _ h in
      store_sound (ltb idx n) (Value.obj batch) ip n threshold m next h1 s
  item-keeps Value.null ip n threshold m next h s = cc
  item-keeps (Value.bool b) ip n threshold m next h s = cc
  item-keeps (Value.num x) ip n threshold m next h s = cc
  item-keeps (Value.str t) ip n threshold m next h s = cc
  item-keeps (Value.arr x) ip n threshold m next h s = cc

  pub items-keep :
      (items : Items Float) (ip : String) (n : ℕ) (threshold : Float)
      (m last : List (ℕ × BatchResult))
      → extract_items rt items ip n threshold m ≡ ok last
      → IsStored n m
      → IsStored n last
  unfolding extract_items
  items-keep Items.nil ip n threshold m last h s =
      let same : m ≡ last = cc in subst (IsStored n) same s
  items-keep (Items.cons item rest) ip n threshold m last h s =
      let (next, e, h1) = >>=-eq-ok (extract_item rt item ip n threshold m) _ h in
      items-keep rest ip n threshold next last h1 (item-keeps item ip n threshold m next e s)
