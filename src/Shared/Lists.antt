-- ===== src/Shared/Lists.antt =====
-- Lists measured by native numbers, Boolean membership, and sets as lists without repetition.
use Prim.Native.Nat.{zero, ℕ, suc, ◌+◌, ◌≤◌, ◌<◌}
use mathlib.Core.Path.{◌≡◌, refl}
use mathlib.Core.Logic.{inl, inr}
use mathlib.Core.Bool.{Bool, true, false, ◌&&◌, ◌||◌, not}
use mathlib.Core.List.{List, [], ◌∷◌, ◌++◌, map}
use native.Mathlib.Omega.{arith}
use kcover.Shared.Tests.{Eq, ◌==◌, if◌then◌else◌, Bool-cases, ==_refl, ltb, nat_eq}

module _ {ℓ} {A : Type ℓ} where
  abbrev pub length : List A → ℕ
  length [] = 0
  length (x ∷ xs) = suc (length xs)

  abbrev pub is_empty : List A → Bool
  is_empty [] = true
  is_empty (x ∷ xs) = false

  abbrev pub any : (A → Bool) → List A → Bool
  any p [] = false
  any p (x ∷ xs) = p x || any p xs

  abbrev pub all : (A → Bool) → List A → Bool
  all p [] = true
  all p (x ∷ xs) = p x && all p xs

  abbrev pub keep : (A → Bool) → List A → List A
  keep p [] = []
  keep p (x ∷ xs) = let rest = keep p xs in if p x then x ∷ rest else rest

  abbrev pub All {κ} : (A → Type κ) → List A → Type κ
  All P [] = Unit
  All P (x ∷ xs) = P x × All P xs

  pub length-keep-le : (p : A → Bool) (xs : List A) → length (keep p xs) ≤ length xs
  length-keep-le p [] = omega arith
  length-keep-le p (x ∷ xs) = ground (arith, length-keep-le p xs)

  pub any_mono :
      (p q : A → Bool) (xs : List A)
      → ((a : A) → p a ≡ true → q a ≡ true)
      → any p xs ≡ true
      → any q xs ≡ true
  any_mono p q [] h m = m
  any_mono p q (x ∷ xs) h m = ground (arith, h x, any_mono p q xs h)

  pub length-append : (xs ys : List A) → length (xs ++ ys) ≡ length xs + length ys
  length-append [] ys = omega arith
  length-append (x ∷ xs) ys = omega (arith, length-append xs ys)

  pub any-append : (p : A → Bool) (xs ys : List A) → any p (xs ++ ys) ≡ (any p xs || any p ys)
  any-append p [] ys = refl
  any-append p (x ∷ xs) ys = ground (arith, any-append p xs ys)

-- Sets as lists: membership is a test, and `add` keeps one copy.
module _ {ℓ} {A : Type ℓ} ⦃e : Eq A⦄ where
  abbrev pub contains : List A → A → Bool
  contains [] a = false
  contains (x ∷ xs) a = x == a || contains xs a

  unfoldable pub add : A → List A → List A
  add a xs = if contains xs a then xs else xs ++ (a ∷ [])

  abbrev pub Distinct : List A → Type 0
  Distinct [] = Unit
  Distinct (x ∷ xs) = (contains xs x ≡ false) × Distinct xs

  pub contains-append :
      (xs ys : List A) (a : A) → contains (xs ++ ys) a ≡ (contains xs a || contains ys a)
  contains-append [] ys a = refl
  contains-append (x ∷ xs) ys a = ground (arith, contains-append xs ys a)

  pub contains-add :
      (a : A) (xs : List A) (b : A) → contains (add a xs) b ≡ (a == b || contains xs b)
  unfolding add
  contains-add a xs b = ground (arith, e.beq_iff a b, contains-append xs (a ∷ []) b)

  pub contains-keep :
      (p : A → Bool) (xs : List A) (a : A) → contains (keep p xs) a ≡ (p a && contains xs a)
  contains-keep p [] a = ground arith
  contains-keep p (x ∷ xs) a = ground (arith, contains-keep p xs a, e.beq_iff x a)

  Distinct-snoc :
      (xs : List A) (a : A) → Distinct xs → contains xs a ≡ false → Distinct (xs ++ (a ∷ []))
  Distinct-snoc [] a d h = (refl, tt)
  Distinct-snoc (x ∷ xs) a d h = (
    ground (arith, contains-append xs (a ∷ []) x, e.beq_iff a x, e.beq_iff x a),
    Distinct-snoc xs a d.1 (ground arith),
  )

  pub add-Distinct : (a : A) (xs : List A) → Distinct xs → Distinct (add a xs)
  unfolding add
  add-Distinct a xs d = elim (Bool-cases (contains xs a)) [
    | inl old ↦ rw old d
    | inr new ↦ rw new (Distinct-snoc xs a d new)
  ]

  pub keep-Distinct : (p : A → Bool) (xs : List A) → Distinct xs → Distinct (keep p xs)
  keep-Distinct p [] d = tt
  keep-Distinct p (x ∷ xs) d = ground (arith, keep-Distinct p xs d.1, contains-keep p xs x)

  pub not_contains_of_Distinct :
      (xs : List A) (y : A) (ys : List A) → Distinct (xs ++ (y ∷ ys)) → contains xs y ≡ false
  not_contains_of_Distinct [] y ys d = refl
  not_contains_of_Distinct (x ∷ xs) y ys d = ground (
    arith,
    not_contains_of_Distinct xs y ys d.1,
    contains-append xs (y ∷ ys) x,
    e.beq_iff x y,
    e.beq_iff y x,
  )

  pub all-contains :
      (p : A → Bool) (xs : List A) (a : A) → all p xs ≡ true → contains xs a ≡ true → p a ≡ true
  all-contains p [] a h m = absurd (cc)
  all-contains p (x ∷ xs) a h m = ground (arith, all-contains p xs a, e.beq_iff x a)

  pub all_of_contains :
      (p : A → Bool) (xs : List A) → ((a : A) → contains xs a ≡ true → p a ≡ true) → all p xs ≡ true
  all_of_contains p [] h = refl
  all_of_contains p (x ∷ xs) h =
      ground (arith, h x, ==_refl x, all_of_contains p xs (λ a m. h a (ground arith)))

  length-keep_ne :
      (a : A) (xs : List A)
      → contains xs a ≡ false
      → length (keep (λ x. not (x == a)) xs) ≡ length xs
  length-keep_ne a [] h = refl
  length-keep_ne a (x ∷ xs) h = ground (arith, length-keep_ne a xs)

  pub length-le-keep_ne :
      (a : A) (xs : List A) → Distinct xs → length xs ≤ suc (length (keep (λ x. not (x == a)) xs))
  length-le-keep_ne a [] d = omega arith
  length-le-keep_ne a (x ∷ xs) d =
      ground (arith, length-le-keep_ne a xs d.1, length-keep_ne a xs, e.beq_iff x a)

  pub length-keep_ne-lt :
      (a : A) (xs : List A)
      → contains xs a ≡ true
      → suc (length (keep (λ x. not (x == a)) xs)) ≤ length xs
  length-keep_ne-lt a [] h = absurd (cc)
  length-keep_ne-lt a (x ∷ xs) h = elim (Bool-cases (x == a)) [
    | inl here ↦ rw here (omega (arith, length-keep-le (λ x. not (x == a)) xs))
    | inr there ↦ rw there (omega (arith, length-keep_ne-lt a xs (ground arith)))
  ]

module _ {ℓ κ} {A : Type ℓ} {B : Type κ} ⦃d : Eq A⦄ ⦃e : Eq B⦄ where
  pub contains-map_of_contains :
      (f : A → B) (xs : List A) (a : A) → contains xs a ≡ true → contains (map f xs) (f a) ≡ true
  contains-map_of_contains f [] a m = absurd (cc)
  contains-map_of_contains f (x ∷ xs) a m =
      ground (arith, contains-map_of_contains f xs a, d.beq_iff x a, ==_refl (f a))

  pub contains_of_contains-map :
      (f : A → B) (xs : List A) (b : B)
      → contains (map f xs) b ≡ true
      → (a : A) × (contains xs a ≡ true) × (f a ≡ b)
  contains_of_contains-map f [] b m = absurd (cc)
  contains_of_contains-map f (x ∷ xs) b m = elim (Bool-cases (f x == b)) [
    | inl here ↦ (x, ground (arith, ==_refl x), (e.beq_iff (f x) b).0 here)
    | inr there ↦
        let (a, at, eq) = contains_of_contains-map f xs b (ground arith) in (a, ground arith, eq)
  ]

not_below_zero : (x : ℕ) (xs : List ℕ) → all (λ y. ltb y 0) (x ∷ xs) ≡ true → ⊥
not_below_zero x xs h = ground arith

-- Numbers below `n` without repetition are at most `n` many, and `n` many of them are all.
pub length-le_of_below :
    (n : ℕ) (xs : List ℕ) → Distinct xs → all (λ x. ltb x n) xs ≡ true → length xs ≤ n
length-le_of_below zero [] d h = omega arith
length-le_of_below zero (x ∷ xs) d h = absurd (not_below_zero x xs h)
length-le_of_below (suc n) xs d h =
    let others = keep (λ x. not (x == n)) xs in
    let below : all (λ x. ltb x n) others ≡ true =
      all_of_contains (λ x. ltb x n) others
        (λ a m. ground (
          arith,
          contains-keep (λ x. not (x == n)) xs a,
          all-contains (λ x. ltb x (suc n)) xs a h,
        )) in
    omega (
      arith,
      length-le-keep_ne n xs d,
      length-le_of_below n others (keep-Distinct (λ x. not (x == n)) xs d) below,
    )

pub contains_of_full :
    (n : ℕ) (xs : List ℕ)
    → Distinct xs
    → all (λ x. ltb x n) xs ≡ true
    → n ≤ length xs
    → (a : ℕ) → a < n
    → contains xs a ≡ true
contains_of_full n xs d h full a below = elim (Bool-cases (contains xs a)) [
  | inl there ↦ there
  | inr missing ↦ absurd (omega (arith, length-le_of_below n (a ∷ xs) (missing, d) (ground arith)))
]

-- A list that holds every number below `n` is at least that long.
pub le-length_of_contains :
    (n : ℕ) (xs : List ℕ) → ((a : ℕ) → a < n → contains xs a ≡ true) → n ≤ length xs
le-length_of_contains zero xs h = omega arith
le-length_of_contains (suc n) xs h =
    let others = keep (λ x. not (x == n)) xs in
    omega (
      arith,
      length-keep_ne-lt n xs (h n (omega arith)),
      le-length_of_contains n others
          (λ a below. ground (arith, contains-keep (λ x. not (x == n)) xs a, h a (omega arith))),
    )
