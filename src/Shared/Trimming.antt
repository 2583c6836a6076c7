-- ===== src/Shared/Trimming.antt =====
-- What the functions on texts keep: lengths, the characters, and the ends.
use Prim.Native.Nat.{ℕ, ◌+◌, ◌≤◌, zero, suc}
use Prim.Native.Char.{code}
use Prim.Native.String.{String}
use mathlib.Core.Path.{◌≡◌, refl, ap}
use mathlib.Core.Logic.{inl, inr}
use mathlib.Core.Bool.{Bool, true, false, ◌&&◌, not}
use native.Mathlib.Omega.{arith}
use text.Mathlib.TextEquality.{eq_iff}
use kcover.Shared.Tests.{◌==◌, text_eq, Bool-cases}
use kcover.Shared.Texts.{
  ◌+++◌, all_codes, first_code_is, last_code_is, text_is_empty, text_length, text_take, trim_left,
  trim_right, trim_space, trim_with, is_space,
}

pub text_length-append : (s t : String) → text_length (s +++ t) ≡ text_length s + text_length t
text_length-append String.[] t = omega arith
text_length-append (String.◌∷◌ c s) t = ground (arith, text_length-append s t)

pub all_codes-append :
    (p : ℕ → Bool) (s t : String) → all_codes p (s +++ t) ≡ (all_codes p s && all_codes p t)
all_codes-append p String.[] t = refl
all_codes-append p (String.◌∷◌ c s) t = ground (arith, all_codes-append p s t)

pub first_code_is-append :
    (p : ℕ → Bool) (s t : String) → first_code_is p s ≡ true → first_code_is p (s +++ t) ≡ true
first_code_is-append p String.[] t h = absurd (ground arith)
first_code_is-append p (String.◌∷◌ c s) t h = h

pub last_code_is-append :
    (p : ℕ → Bool) (s t : String) → last_code_is p t ≡ true → last_code_is p (s +++ t) ≡ true
last_code_is-append p String.[] t h = h
last_code_is-append p (String.◌∷◌ c String.[]) String.[] h = absurd (ground arith)
last_code_is-append p (String.◌∷◌ c String.[]) (String.◌∷◌ d t) h = h
last_code_is-append p (String.◌∷◌ c (String.◌∷◌ d s)) t h =
    last_code_is-append p (String.◌∷◌ d s) t h

pub last_code_of_all :
    (p : ℕ → Bool) (s : String)
    → text_is_empty s ≡ false
    → all_codes p s ≡ true
    → last_code_is p s ≡ true
last_code_of_all p String.[] ne h = absurd (ground arith)
last_code_of_all p (String.◌∷◌ c String.[]) ne h = ground arith
last_code_of_all p (String.◌∷◌ c (String.◌∷◌ d s)) ne h =
    last_code_of_all p (String.◌∷◌ d s) refl (ground arith)

pub text_length-take : (n : ℕ) (s : String) → text_length (text_take n s) ≤ n
unfolding text_take
text_length-take zero s = omega arith
text_length-take (suc n) String.[] = omega arith
text_length-take (suc n) (String.◌∷◌ c s) = ground (arith, text_length-take n s)

pub all_codes-take :
    (p : ℕ → Bool) (n : ℕ) (s : String) → all_codes p s ≡ true → all_codes p (text_take n s) ≡ true
unfolding text_take
all_codes-take p zero s h = refl
all_codes-take p (suc n) String.[] h = refl
all_codes-take p (suc n) (String.◌∷◌ c s) h = ground (arith, all_codes-take p n s)

pub first_code_is-take :
    (p : ℕ → Bool) (n : ℕ) (s : String)
    → first_code_is p s ≡ true
    → first_code_is p (text_take (suc n) s) ≡ true
unfolding text_take
first_code_is-take p n String.[] h = absurd (ground arith)
first_code_is-take p n (String.◌∷◌ c s) h = h

all_codes-trim_left :
    (p q : ℕ → Bool) (s : String) → all_codes p s ≡ true → all_codes p (trim_left q s) ≡ true
unfolding trim_left
all_codes-trim_left p q String.[] h = refl
all_codes-trim_left p q (String.◌∷◌ c s) h = ground (arith, all_codes-trim_left p q s)

pub all_codes-trim_right :
    (p q : ℕ → Bool) (s : String) → all_codes p s ≡ true → all_codes p (trim_right q s) ≡ true
unfolding trim_right
all_codes-trim_right p q String.[] h = refl
all_codes-trim_right p q (String.◌∷◌ c s) h = ground (arith, all_codes-trim_right p q s)

pub all_codes-trim_with :
    (p q : ℕ → Bool) (s : String) → all_codes p s ≡ true → all_codes p (trim_with q s) ≡ true
unfolding trim_with
all_codes-trim_with p q s h = all_codes-trim_right p q (trim_left q s) (all_codes-trim_left p q s h)

pub text_length-trim_right :
    (q : ℕ → Bool) (s : String) → text_length (trim_right q s) ≤ text_length s
unfolding trim_right
text_length-trim_right q String.[] = omega arith
text_length-trim_right q (String.◌∷◌ c s) = ground (arith, text_length-trim_right q s)

-- A first character outside the cut set stays.
pub first_code_is-trim_right :
    (p q : ℕ → Bool) (s : String)
    → first_code_is p s ≡ true
    → first_code_is (λ c. not (q c)) s ≡ true
    → first_code_is p (trim_right q s) ≡ true
unfolding trim_right
first_code_is-trim_right p q String.[] h n = absurd (ground arith)
first_code_is-trim_right p q (String.◌∷◌ c s) h n = ground arith

trim_left_first :
    (q : ℕ → Bool) (s : String)
    → text_is_empty (trim_left q s) ≡ false
    → first_code_is (λ c. not (q c)) (trim_left q s) ≡ true
unfolding trim_left
trim_left_first q String.[] h = absurd (ground arith)
trim_left_first q (String.◌∷◌ c s) h = elim (Bool-cases (q (code c))) [
  | inl cut ↦ rw cut (trim_left_first q s (ground arith))
  | inr kept ↦ ground arith
]

trim_right_of_empty :
    (q : ℕ → Bool) (s : String) → text_is_empty (trim_right q s) ≡ false → text_is_empty s ≡ false
unfolding trim_right
trim_right_of_empty q String.[] h = h
trim_right_of_empty q (String.◌∷◌ c s) h = refl

-- A trimmed text that is not empty begins outside the cut set.
pub trim_with_first :
    (q : ℕ → Bool) (s : String)
    → text_is_empty (trim_with q s) ≡ false
    → first_code_is (λ c. not (q c)) (trim_with q s) ≡ true
unfolding trim_with
trim_with_first q s h =
    let begins = trim_left_first q s (trim_right_of_empty q (trim_left q s) h) in
    first_code_is-trim_right (λ c. not (q c)) q (trim_left q s) begins begins

trim_right-trim_right : (q : ℕ → Bool) (s : String) → trim_right q (trim_right q s) ≡ trim_right q s
unfolding trim_right
trim_right-trim_right q String.[] = refl
trim_right-trim_right q (String.◌∷◌ c s) =
    elim (Bool-cases (text_is_empty (trim_right q s) && q (code c))) [
      | inl cut ↦ rw cut refl
      | inr kept ↦ rw kept (rw (trim_right-trim_right q s) (rw kept refl))
    ]

trim_left_of_first :
    (q : ℕ → Bool) (s : String) → first_code_is (λ c. not (q c)) s ≡ true → trim_left q s ≡ s
unfolding trim_left
trim_left_of_first q String.[] h = refl
trim_left_of_first q (String.◌∷◌ c s) h = ground arith

eq_empty : (s : String) → text_is_empty s ≡ true → s ≡ ""
eq_empty String.[] h = refl
eq_empty (String.◌∷◌ c s) h = absurd (ground arith)

pub beq_empty : (s : String) → text_is_empty s ≡ false → (s == "") ≡ false
beq_empty s h = elim (Bool-cases (s == "")) [
  | inl gone ↦
      let same : text_is_empty s ≡ true = ap text_is_empty ((eq_iff s "").0 gone) in absurd (cc)
  | inr there ↦ there
]

pub trim_with-trim_with : (q : ℕ → Bool) (s : String) → trim_with q (trim_with q s) ≡ trim_with q s
unfolding trim_with trim_left trim_right
trim_with-trim_with q s = elim (Bool-cases (text_is_empty (trim_with q s))) [
  | inl none_left ↦ rw (eq_empty (trim_right q (trim_left q s)) none_left) refl
  | inr some_left ↦
      rw (trim_left_of_first q (trim_right q (trim_left q s)) (trim_with_first q s some_left))
        (trim_right-trim_right q (trim_left q s))
]

pub trim_space-trim_space : (s : String) → trim_space (trim_space s) ≡ trim_space s
unfolding trim_space
trim_space-trim_space s = trim_with-trim_with is_space s
