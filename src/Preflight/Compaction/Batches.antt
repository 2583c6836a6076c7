-- ===== src/Preflight/Compaction/Batches.antt =====
-- pkg/preflight: the batches of a compacted report in the functions of report_parser.go.
use kcover.Shared.{
  Bool-cases, List, Option, String, [], arith, contains, eq_iff, if◌then◌else◌, inl, inr, none,
  refl, some, ◌==◌, ◌∷◌, ◌≡◌, text_eq, Bool, false, true, ℕ, >>=-eq-ok, >>=-ext, ltb, ok, subst,
  trim_space, trim_space-trim_space, first_some, first_some_of_none, first_some_twice,
}
use kcover.Preflight.Json.{Fields, Value, get_field, Runtime, Items}
use kcover.Preflight.Compaction.{
  copy_if_present, copy_keys, put_field, put_if, compact_batch, compacted_keys, compact_items,
  compact_bus_bw_threshold,
}
use kcover.Preflight.Types.{BatchResult}
use kcover.Preflight.Parser.{
  batch_failed, batch_self_ip, identity_with, pair_field, skipped_batch_identity,
}
use kcover.Preflight.Extraction.{
  batch_identity, extract_batch_result, extract_item, raw_batch_idx, run_identity, store_if,
  extract_items, threshold_of, threshold_text,
}
use kcover.Events.Delivery.{count}

get_field-put :
    {F : Type 0} (k : String) (v : Value F) (fs : Fields F) (j : String)
    → get_field j (put_field k v fs) ≡ (if k == j then some v else get_field j fs)
unfolding get_field put_field
get_field-put k v Fields.end j = refl
get_field-put k v (Fields.field i w rest) j =
    ground (arith, eq_iff k j, eq_iff i k, eq_iff i j, get_field-put k v rest j)

get_field-put_if :
    {F : Type 0} (k : String) (o : Option (Value F)) (fs : Fields F) (j : String)
    → get_field j (put_if k o fs)
      ≡ (if k == j then first_some o (get_field j fs) else get_field j fs)
get_field-put_if k none fs j = elim (Bool-cases (k == j)) [
  | inl same ↦ rw same refl
  | inr differs ↦ rw differs refl
]
get_field-put_if k (some v) fs j = get_field-put k v fs j

get_field-copy_keys :
    {F : Type 0} (ks : List String) (dst src : Fields F) (j : String)
    → get_field j (copy_keys ks dst src)
      ≡ (if contains ks j then first_some (get_field j src) (get_field j dst) else get_field j dst)
unfolding copy_if_present
get_field-copy_keys [] dst src j = refl
get_field-copy_keys (k ∷ ks) dst src j = ground (
  arith,
  get_field-put_if k (get_field k src) dst j,
  get_field-copy_keys ks (put_if k (get_field k src) dst) src j,
  first_some_twice (get_field j src) (get_field j dst),
  eq_iff k j,
)

-- The keys that are copied have the value that they had.
kept :
    {F : Type 0} (batch : Fields F) (k : String)
    → contains compacted_keys k ≡ true
    → get_field k (compact_batch batch) ≡ get_field k batch
unfolding compact_batch get_field
kept batch k h =
    rw (get_field-copy_keys compacted_keys Fields.end batch k, h)
      (first_some_of_none (get_field k batch))

module _ (rt : Runtime) where
  open rt use {Float}

  raw_batch_idx-compact :
      (b : Fields Float) → raw_batch_idx rt (compact_batch b) ≡ raw_batch_idx rt b
  unfolding raw_batch_idx
  raw_batch_idx-compact b = rw (kept b "batch_idx" refl) refl

  batch_self_ip-compact :
      (b : Fields Float) (ip : String) (pair : String × String)
      → batch_self_ip rt (compact_batch b) ip pair ≡ batch_self_ip rt b ip pair
  unfolding batch_self_ip
  batch_self_ip-compact b ip pair = rw (kept b "self_ip" refl) refl

  identity_with-compact :
      (o : Option (String × String)) (b : Fields Float) (ip : String)
      → identity_with rt o (compact_batch b) ip ≡ identity_with rt o b ip
  identity_with-compact none b ip = rw (kept b "self_ip" refl) refl
  identity_with-compact (some pair) b ip = rw (batch_self_ip-compact b ip pair) refl

  run_identity-compact :
      (o : Option (String × String)) (b : Fields Float) (ip : String)
      → run_identity rt o (compact_batch b) ip ≡ run_identity rt o b ip
  run_identity-compact none b ip = refl
  run_identity-compact (some pair) b ip = rw (batch_self_ip-compact b ip pair) refl

  batch_identity-compact :
      (b : Fields Float) (ip : String)
      → batch_identity rt (compact_batch b) ip ≡ batch_identity rt b ip
  unfolding batch_identity skipped_batch_identity
  batch_identity-compact b ip =
      rw (kept b "status" refl, kept b "pair" refl)
        (rw
          (
            identity_with-compact (pair_field rt (get_field "pair" b)) b ip,
            run_identity-compact (pair_field rt (get_field "pair" b)) b ip,
          )
          refl)

  batch_failed-compact :
      (b : Fields Float) (threshold : Float)
      → batch_failed rt (compact_batch b) threshold ≡ batch_failed rt b threshold
  unfolding batch_failed
  batch_failed-compact b threshold =
      rw
        (
          kept b "status" refl,
          kept b "allreduce_ms" refl,
          kept b "allreduce_shape" refl,
          kept b "dtype_bytes" refl,
          kept b "world_size" refl,
        )
        refl

  extract_batch_result-compact :
      (b : Fields Float) (ip : String) (count : ℕ) (threshold : Float)
      → extract_batch_result rt (Value.obj (compact_batch b)) ip count threshold
        ≡ extract_batch_result rt (Value.obj b) ip count threshold
  unfolding extract_batch_result
  extract_batch_result-compact b ip count threshold =
      rw (raw_batch_idx-compact b, batch_identity-compact b ip, batch_failed-compact b threshold)
        refl

  store_if-compact :
      (c : Bool) (b : Fields Float) (ip : String) (count : ℕ) (threshold : Float)
      (m : List (ℕ × BatchResult))
      → store_if rt c (Value.obj (compact_batch b)) ip count threshold m
        ≡ store_if rt c (Value.obj b) ip count threshold m
  store_if-compact false b ip count threshold m = refl
  store_if-compact true b ip count threshold m =
      rw (extract_batch_result-compact b ip count threshold) refl

  extract_item-compact :
      (b : Fields Float) (ip : String) (count : ℕ) (threshold : Float) (m : List (ℕ × BatchResult))
      → extract_item rt (Value.obj (compact_batch b)) ip count threshold m
        ≡ extract_item rt (Value.obj b) ip count threshold m
  unfolding extract_item
  extract_item-compact b ip count threshold m = rw (raw_batch_idx-compact b) (
      >>=-ext (raw_batch_idx rt b) _ _
        (λ idx. store_if-compact (ltb idx count) b ip count threshold m))

  -- Where the batches can be compacted, the loop of extractBatchResults ends as on the whole ones.
  pub extract_items-compact :
      (items small : Items Float) (ip : String) (count : ℕ) (threshold : Float)
      (m : List (ℕ × BatchResult))
      → compact_items items ≡ ok small
      → extract_items rt small ip count threshold m ≡ extract_items rt items ip count threshold m
  unfolding extract_items compact_items
  extract_items-compact Items.nil small ip count threshold m h =
      let same : Items.nil ≡ small = cc in
      subst (λ x. extract_items rt x ip count threshold m ≡ ok m) same refl
  extract_items-compact (Items.cons (Value.obj b) rest) small ip count threshold m h =
      let (others, ho, hs) = >>=-eq-ok (compact_items rest) _ h in
      let same : Items.cons (Value.obj (compact_batch b)) others ≡ small = cc in
      subst
        (λ x.
          extract_items rt x ip count threshold m
          ≡ extract_items rt (Items.cons (Value.obj b) rest) ip count threshold m)
        same
        (rw (extract_item-compact b ip count threshold m) (
          >>=-ext (extract_item rt (Value.obj b) ip count threshold m) _ _
            (λ next. extract_items-compact rest others ip count threshold next ho)))
  extract_items-compact (Items.cons Value.null rest) small ip count threshold m h = absurd (cc)
  extract_items-compact (Items.cons (Value.bool b) rest) small ip count threshold m h = absurd (cc)
  extract_items-compact (Items.cons (Value.num b) rest) small ip count threshold m h = absurd (cc)
  extract_items-compact (Items.cons (Value.str b) rest) small ip count threshold m h = absurd (cc)
  extract_items-compact (Items.cons (Value.arr b) rest) small ip count threshold m h = absurd (cc)

  abbrev pub threshold_value : Option String → Option (Value Float)
  threshold_value none = none
  threshold_value (some text) = some (Value.str text)

  pub threshold_of-compact :
      (o : Option (Value Float)) (t : Option String)
      → compact_bus_bw_threshold o ≡ ok t
      → threshold_of rt (threshold_value t) ≡ threshold_of rt o
  unfolding compact_bus_bw_threshold
  threshold_of-compact none t h =
      let same : none ≡ t = cc in
      subst (λ x. threshold_of rt (threshold_value x) ≡ threshold_of rt none) same refl
  threshold_of-compact (some (Value.str text)) t h = elim (Bool-cases (trim_space text == "")) [
    | inl gone ↦
        let same : none ≡ t = ground arith in
        subst (λ x. threshold_of rt (threshold_value x) ≡ threshold_text rt (trim_space text)) same
          (rw gone refl)
    | inr there ↦
        let same : some (trim_space text) ≡ t = ground arith in
        subst (λ x. threshold_of rt (threshold_value x) ≡ threshold_text rt (trim_space text)) same
          (rw (trim_space-trim_space text) refl)
  ]
  threshold_of-compact (some Value.null) t h = absurd (cc)
  threshold_of-compact (some (Value.bool b)) t h = absurd (cc)
  threshold_of-compact (some (Value.num b)) t h = absurd (cc)
  threshold_of-compact (some (Value.arr b)) t h = absurd (cc)
  threshold_of-compact (some (Value.obj b)) t h = absurd (cc)
