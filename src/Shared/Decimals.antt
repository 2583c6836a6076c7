-- ===== src/Shared/Decimals.antt =====
-- Decimal texts, printed and read.
use Prim.Native.Nat.{ℕ, zero, suc, ◌+◌, ◌*◌, ◌/◌, ◌%◌, ◌<◌, ◌^◌, ◌-◌}
use Prim.Native.Char.{code}
use Prim.Native.String.{String}
use mathlib.Core.Path.{◌≡◌, refl, ◌∙◌, ap}
use mathlib.Core.Logic.{inl, inr}
use mathlib.Core.Bool.{true}
use mathlib.Core.Option.{some}
use native.Mathlib.Omega.{arith}
use kcover.Shared.Tests.{Bool-cases, ltb}
use kcover.Shared.Texts.{◌+++◌}
use kcover.Shared.Numerals.{decimal, decimal_with, digit_text, read_digits}

read_digits-append :
    (acc m : ℕ) (s t : String)
    → read_digits acc s ≡ some m
    → read_digits acc (s +++ t) ≡ read_digits m t
unfolding read_digits
read_digits-append acc m String.[] t h = ap (λ k. read_digits k t) (let same : acc ≡ m = cc in same)
read_digits-append acc m (String.◌∷◌ c s) t h =
    ground (arith, read_digits-append (acc * 10 + (code c - b'0')) m s t)

read_digits-digit_text : (acc d : ℕ) → d < 10 → read_digits acc (digit_text d) ≡ some (acc * 10 + d)
unfolding read_digits
read_digits-digit_text acc zero h = refl
read_digits-digit_text acc (suc zero) h = refl
read_digits-digit_text acc (suc (suc zero)) h = refl
read_digits-digit_text acc (suc (suc (suc zero))) h = refl
read_digits-digit_text acc (suc (suc (suc (suc zero)))) h = refl
read_digits-digit_text acc (suc (suc (suc (suc (suc zero))))) h = refl
read_digits-digit_text acc (suc (suc (suc (suc (suc (suc zero)))))) h = refl
read_digits-digit_text acc (suc (suc (suc (suc (suc (suc (suc zero))))))) h = refl
read_digits-digit_text acc (suc (suc (suc (suc (suc (suc (suc (suc zero)))))))) h = refl
read_digits-digit_text acc (suc (suc (suc (suc (suc (suc (suc (suc (suc zero))))))))) h = refl
read_digits-digit_text acc (suc (suc (suc (suc (suc (suc (suc (suc (suc (suc d)))))))))) h =
    absurd (omega arith)

-- 10 ^ fuel
abbrev ten_power : ℕ → ℕ
ten_power zero = 1
ten_power (suc fuel) = 10 * ten_power fuel

one_digit : (n : ℕ) → n < 10 * 1 → ltb n 10 ≡ true
one_digit n h = ground arith

zero_times : (n : ℕ) → 0 * 10 + n ≡ n
zero_times n = omega arith

last_digit : (n : ℕ) → n / 10 * 10 + n % 10 ≡ n
last_digit n = omega arith

read_digits-decimal_with :
    (fuel n : ℕ) → n < ten_power (suc fuel) → read_digits 0 (decimal_with (suc fuel) n) ≡ some n
unfolding decimal_with
read_digits-decimal_with zero n small =
    rw (one_digit n small)
      (read_digits-digit_text 0 n (omega (arith, small)) ∙ ap some (zero_times n))
read_digits-decimal_with (suc fuel) n small = elim (Bool-cases (ltb n 10)) [
  | inl one ↦ rw one (read_digits-digit_text 0 n (ground arith) ∙ ap some (zero_times n))
  | inr more ↦
      let before : read_digits 0 (decimal_with (suc fuel) (n / 10)) ≡ some (n / 10) =
        read_digits-decimal_with fuel (n / 10) (omega (arith, small)) in
      rw more (
        read_digits-append 0 (n / 10) (decimal_with (suc fuel) (n / 10)) (digit_text (n % 10))
          before
        ∙ read_digits-digit_text (n / 10) (n % 10) (omega arith)
        ∙ ap some (last_digit n))
]

-- A number of 64 bits is printed whole.
pub read_digits-decimal : (n : ℕ) → n < 10 ^ 20 → read_digits 0 (decimal n) ≡ some n
unfolding decimal
read_digits-decimal n h = read_digits-decimal_with 19 n h
