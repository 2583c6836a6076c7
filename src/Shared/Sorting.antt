-- ===== src/Shared/Sorting.antt =====
-- `sort.Strings` and `sort.Slice` as insertion sort: sorted, with the same members, and one result
-- for all orders of a set.
use Prim.Native.Nat.{suc}
use mathlib.Core.Path.{◌≡◌, refl, sym, ◌∙◌}
use mathlib.Core.Logic.{inl, inr}
use mathlib.Core.Bool.{true, false, ◌||◌, Bool, ◌&&◌}
use mathlib.Core.List.{List, [], ◌∷◌}
use native.Mathlib.Omega.{arith}
use kcover.Shared.Tests.{Eq, ◌==◌, ==_refl, eq_of_==, if◌then◌else◌, Bool-cases}
use kcover.Shared.Lists.{contains, Distinct, all, length}
use kcover.Shared.Order.{Order}

module _ {ℓ} {A : Type ℓ} ⦃o : Order A⦄ where
  place : A → List A → List A
  place a [] = a ∷ []
  place a (x ∷ xs) = if o.le a x then a ∷ x ∷ xs else x ∷ place a xs

  unfoldable pub sort : List A → List A
  unfolding place
  sort [] = []
  sort (x ∷ xs) = place x (sort xs)

  -- Every element is at most all that follow it.
  abbrev pub IsSorted : List A → Type 0
  IsSorted [] = Unit
  IsSorted (x ∷ xs) = (all (o.le x) xs ≡ true) × IsSorted xs

  le_refl_lem : (a : A) → o.le a a ≡ true
  le_refl_lem a = ground (arith, o.total a a)

  all_trans :
      (a x : A) (xs : List A) → o.le a x ≡ true → all (o.le x) xs ≡ true → all (o.le a) xs ≡ true
  all_trans a x [] h k = refl
  all_trans a x (y ∷ ys) h k = ground (arith, o.trans a x y, all_trans a x ys)

  all-place' :
      (b a : A) (xs : List A)
      → o.le b a ≡ true
      → all (o.le b) xs ≡ true
      → all (o.le b) (place a xs) ≡ true
  unfolding place
  all-place' b a [] h k = ground arith
  all-place' b a (x ∷ xs) h k = ground (arith, all-place' b a xs)

  place-IsSorted : (a : A) (xs : List A) → IsSorted xs → IsSorted (place a xs)
  unfolding place
  place-IsSorted a [] s = (refl, tt)
  place-IsSorted a (x ∷ xs) s = elim (Bool-cases (o.le a x)) [
    | inl below ↦ rw below (ground (arith, all_trans a x xs), s)
    | inr above ↦ rw above (all-place' x a xs (o.total a x above) s.0, place-IsSorted a xs s.1)
  ]

  pub sort-IsSorted : (xs : List A) → IsSorted (sort xs)
  unfolding sort
  sort-IsSorted [] = tt
  sort-IsSorted (x ∷ xs) = place-IsSorted x (sort xs) (sort-IsSorted xs)

  all-place : (p : A → Bool) (a : A) (xs : List A) → all p (place a xs) ≡ (p a && all p xs)
  unfolding place
  all-place p a [] = refl
  all-place p a (x ∷ xs) = ground (arith, all-place p a xs)

  pub all-sort : (p : A → Bool) (xs : List A) → all p (sort xs) ≡ all p xs
  unfolding sort
  all-sort p [] = refl
  all-sort p (x ∷ xs) = ground (arith, all-place p x (sort xs), all-sort p xs)

  length-place : (a : A) (xs : List A) → length (place a xs) ≡ suc (length xs)
  unfolding place
  length-place a [] = refl
  length-place a (x ∷ xs) = ground (arith, length-place a xs)

  pub length-sort : (xs : List A) → length (sort xs) ≡ length xs
  unfolding sort
  length-sort [] = refl
  length-sort (x ∷ xs) = omega (arith, length-place x (sort xs), length-sort xs)

module _ {ℓ} {A : Type ℓ} ⦃e : Eq A⦄ ⦃o : Order A⦄ where
  contains-place :
      (a : A) (xs : List A) (b : A) → contains (place a xs) b ≡ (a == b || contains xs b)
  unfolding place
  contains-place a [] b = refl
  contains-place a (x ∷ xs) b = ground (arith, contains-place a xs b)

  pub contains-sort : (xs : List A) (b : A) → contains (sort xs) b ≡ contains xs b
  unfolding sort
  contains-sort [] b = refl
  contains-sort (x ∷ xs) b = ground (arith, contains-place x (sort xs) b, contains-sort xs b)

  place-Distinct :
      (a : A) (xs : List A) → contains xs a ≡ false → Distinct xs → Distinct (place a xs)
  unfolding place
  place-Distinct a [] h d = (refl, tt)
  place-Distinct a (x ∷ xs) h d = elim (Bool-cases (o.le a x)) [
    | inl below ↦ rw below (h, d)
    | inr above ↦ rw above (
      ground (arith, contains-place a xs x, e.beq_iff a x, e.beq_iff x a),
      place-Distinct a xs (ground arith) d.1,
    )
  ]

  pub sort-Distinct : (xs : List A) → Distinct xs → Distinct (sort xs)
  unfolding sort
  sort-Distinct [] d = tt
  sort-Distinct (x ∷ xs) d =
      place-Distinct x (sort xs) (ground (arith, contains-sort xs x)) (sort-Distinct xs d.1)

  le_of_all :
      (a : A) (xs : List A) (b : A)
      → all (o.le a) xs ≡ true
      → contains xs b ≡ true
      → o.le a b ≡ true
  le_of_all a [] b h m = absurd (cc)
  le_of_all a (x ∷ xs) b h m = ground (arith, le_of_all a xs b, e.beq_iff x b)

  same_heads :
      (x y : A) (xs ys : List A)
      → all (o.le x) xs ≡ true
      → all (o.le y) ys ≡ true
      → contains (y ∷ ys) x ≡ true
      → contains (x ∷ xs) y ≡ true
      → x ≡ y
  same_heads x y xs ys s t f g =
      ground
        (arith, e.beq_iff x y, e.beq_iff y x, le_of_all x xs y, le_of_all y ys x, o.antisym x y)

  same_tails :
      (x y : A) (xs ys : List A)
      → x ≡ y
      → contains xs x ≡ false
      → contains ys y ≡ false
      → (a : A) → contains (x ∷ xs) a ≡ contains (y ∷ ys) a
      → contains xs a ≡ contains ys a
  same_tails x y xs ys h d f a same = elim (Bool-cases (x == a)) [
    | inl here ↦ ground (arith, eq_of_== x a here)
    | inr there ↦ ground arith
  ]

  -- Two sorted lists without repetition that hold the same elements are one list.
  pub IsSorted-ext :
      (xs ys : List A)
      → IsSorted xs
      → IsSorted ys
      → Distinct xs
      → Distinct ys
      → ((a : A) → contains xs a ≡ contains ys a)
      → xs ≡ ys
  IsSorted-ext [] [] s t d f same = refl
  IsSorted-ext [] (y ∷ ys) s t d f same = absurd (ground (arith, same y, ==_refl y))
  IsSorted-ext (x ∷ xs) [] s t d f same = absurd (ground (arith, same x, ==_refl x))
  IsSorted-ext (x ∷ xs) (y ∷ ys) s t d f same =
      let heads : x ≡ y =
        same_heads x y xs ys s.0 t.0 (ground (arith, same x, ==_refl x))
          (ground (arith, same y, ==_refl y)) in
      let tails : xs ≡ ys =
        IsSorted-ext xs ys s.1 t.1 d.1 f.1 (λ a. same_tails x y xs ys heads d.0 f.0 a (same a)) in
      λ i. heads i ∷ tails i

  -- Sorting forgets the order in which a set was listed.
  pub sort_ext :
      (xs ys : List A)
      → Distinct xs
      → Distinct ys
      → ((a : A) → contains xs a ≡ contains ys a)
      → sort xs ≡ sort ys
  sort_ext xs ys d f same =
      IsSorted-ext (sort xs) (sort ys) (sort-IsSorted xs) (sort-IsSorted ys) (sort-Distinct xs d)
        (sort-Distinct ys f) (λ a. contains-sort xs a ∙ same a ∙ sym (contains-sort ys a))
