-- ===== src/Shared/Assoc.antt =====
-- Maps as association lists. Go leaves the order of a `range` over a map open: the order of the
-- list stands for the order of one run, and the theorems hold for every list.
use Prim.Native.Nat.{suc, ◌≤◌}
use mathlib.Core.Path.{◌≡◌, refl}
use mathlib.Core.Logic.{inl, inr}
use mathlib.Core.Bool.{true, false, ◌||◌, ◌&&◌, not}
use mathlib.Core.Option.{Option, none, some}
use mathlib.Core.List.{List, [], ◌∷◌, ◌++◌, map}
use native.Mathlib.Omega.{arith}
use kcover.Shared.Tests.{Eq, eq_of_==, ◌==◌, if◌then◌else◌, Bool-cases}
use kcover.Shared.Lists.{contains, Distinct, length}

abbrev pub or_default {ℓ} : {V : Type ℓ} → V → Option V → V
or_default d none = d
or_default d (some v) = v

module _ {ℓ κ} {K : Type ℓ} {V : Type κ} where
  abbrev pub keys : List (K × V) → List K
  keys = map (λ p. p.0)

  abbrev pub values : List (K × V) → List V
  values = map (λ p. p.1)

module _ {ℓ κ} {K : Type ℓ} {V : Type κ} ⦃e : Eq K⦄ where
  unfoldable pub lookup : K → List (K × V) → Option V
  lookup k [] = none
  lookup k ((j, v) ∷ m) = if j == k then some v else lookup k m

  unfoldable pub insert : K → V → List (K × V) → List (K × V)
  insert k v [] = (k, v) ∷ []
  insert k v ((j, w) ∷ m) = if j == k then (j, v) ∷ m else (j, w) ∷ insert k v m

  unfoldable pub delete : K → List (K × V) → List (K × V)
  delete k [] = []
  delete k ((j, v) ∷ m) = let rest = delete k m in if j == k then rest else (j, v) ∷ rest

  pub lookup-insert :
      (k : K) (v : V) (m : List (K × V)) (j : K)
      → lookup j (insert k v m) ≡ (if k == j then some v else lookup j m)
  unfolding lookup insert
  lookup-insert k v [] j = refl
  lookup-insert k v ((i, w) ∷ m) j =
      ground (arith, e.beq_iff k j, e.beq_iff i k, e.beq_iff i j, lookup-insert k v m j)

  pub lookup-delete :
      (k : K) (m : List (K × V)) (j : K)
      → lookup j (delete k m) ≡ (if k == j then none else lookup j m)
  unfolding lookup delete
  lookup-delete k [] j = ground arith
  lookup-delete k ((i, w) ∷ m) j =
      ground (arith, e.beq_iff k j, e.beq_iff i k, e.beq_iff i j, lookup-delete k m j)

  pub contains-keys-insert :
      (k : K) (v : V) (m : List (K × V)) (j : K)
      → contains (keys (insert k v m)) j ≡ (k == j || contains (keys m) j)
  unfolding insert
  contains-keys-insert k v [] j = refl
  contains-keys-insert k v ((i, w) ∷ m) j =
      ground (arith, e.beq_iff k j, e.beq_iff i k, e.beq_iff i j, contains-keys-insert k v m j)

  pub contains-keys-delete :
      (k : K) (m : List (K × V)) (j : K)
      → contains (keys (delete k m)) j ≡ (not (k == j) && contains (keys m) j)
  unfolding delete
  contains-keys-delete k [] j = ground arith
  contains-keys-delete k ((i, w) ∷ m) j =
      ground (arith, e.beq_iff k j, e.beq_iff i k, e.beq_iff i j, contains-keys-delete k m j)

  pub insert-Distinct :
      (k : K) (v : V) (m : List (K × V)) → Distinct (keys m) → Distinct (keys (insert k v m))
  unfolding insert
  insert-Distinct k v [] d = (refl, tt)
  insert-Distinct k v ((i, w) ∷ m) d = elim (Bool-cases (i == k)) [
    | inl same ↦ rw same d
    | inr other ↦ rw other (
      ground (arith, contains-keys-insert k v m i, e.beq_iff i k, e.beq_iff k i),
      insert-Distinct k v m d.1,
    )
  ]

  pub delete-Distinct :
      (k : K) (m : List (K × V)) → Distinct (keys m) → Distinct (keys (delete k m))
  unfolding delete
  delete-Distinct k [] d = tt
  delete-Distinct k ((i, w) ∷ m) d =
      ground (arith, delete-Distinct k m d.1, contains-keys-delete k m i)

  pub contains-keys-lookup :
      (m : List (K × V)) (k : K)
      → contains (keys m) k ≡ elim (lookup k m) [ none ↦ false | some v ↦ true ]
  unfolding lookup
  contains-keys-lookup [] k = refl
  contains-keys-lookup ((i, w) ∷ m) k = ground (arith, contains-keys-lookup m k)

  pub length-insert :
      (k : K) (v : V) (m : List (K × V))
      → length (insert k v m) ≡ (if contains (keys m) k then length m else suc (length m))
  unfolding insert
  length-insert k v [] = refl
  length-insert k v ((i, w) ∷ m) = ground (arith, length-insert k v m)

  pub length-delete-le : (k : K) (m : List (K × V)) → length (delete k m) ≤ length m
  unfolding delete
  length-delete-le k [] = omega arith
  length-delete-le k ((i, w) ∷ m) = ground (arith, length-delete-le k m)

  pub length-delete-lt :
      (k : K) (m : List (K × V)) → contains (keys m) k ≡ true → suc (length (delete k m)) ≤ length m
  unfolding delete
  length-delete-lt k [] h = absurd (ground arith)
  length-delete-lt k ((i, w) ∷ m) h = ground (arith, length-delete-lt k m, length-delete-le k m)

  pub insert_missing :
      (k : K) (v : V) (m : List (K × V))
      → contains (keys m) k ≡ false
      → insert k v m ≡ m ++ ((k, v) ∷ [])
  unfolding insert
  insert_missing k v [] h = refl
  insert_missing k v ((i, w) ∷ m) h = ground (arith, insert_missing k v m)

  pub keys-append : (m n : List (K × V)) → keys (m ++ n) ≡ keys m ++ keys n
  keys-append [] n = refl
  keys-append ((i, w) ∷ m) n = ground (arith, keys-append m n)

  length-delete_missing :
      (k : K) (m : List (K × V)) → contains (keys m) k ≡ false → length (delete k m) ≡ length m
  unfolding delete
  length-delete_missing k [] h = refl
  length-delete_missing k ((i, w) ∷ m) h = ground (arith, length-delete_missing k m)

  pub length-delete :
      (m : List (K × V)) (k : K)
      → Distinct (keys m)
      → contains (keys m) k ≡ true
      → suc (length (delete k m)) ≡ length m
  unfolding delete
  length-delete [] k d h = absurd (cc)
  length-delete ((i, w) ∷ m) k d h =
      ground (arith, length-delete m k d.1, length-delete_missing k m, eq_of_== i k)
