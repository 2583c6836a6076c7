-- ===== src/Shared/Ints.antt =====
-- Go's `int` where a value may be negative.
use Prim.Native.Nat.{ℕ, zero, suc, ◌%◌, ◌^◌, ◌*◌, ◌-◌}
use mathlib.Core.Bool.{Bool, true, false}
use kcover.Shared.Tests.{leb, ltb, nat_beq, if◌then◌else◌}

-- `negsuc n` is -(n + 1).
pub data ℤ : Type 0 where
  pos : ℕ → ℤ
  negsuc : ℕ → ℤ

abbrev pub is_neg : ℤ → Bool
is_neg (pos n) = false
is_neg (negsuc n) = true

-- The value of a number that is not negative, and 0 for a negative one.
abbrev pub to_nat : ℤ → ℕ
to_nat (pos n) = n
to_nat (negsuc n) = 0

-- `v <= 0`
abbrev pub is_not_pos : ℤ → Bool
is_not_pos (pos n) = leb n 0
is_not_pos (negsuc n) = true

abbrev pub int_beq : ℤ → ℤ → Bool
int_beq (pos a) (pos b) = nat_beq a b
int_beq (negsuc a) (negsuc b) = nat_beq a b
int_beq (pos a) (negsuc b) = false
int_beq (negsuc a) (pos b) = false

-- `a < b`
abbrev pub int_lt : ℤ → ℤ → Bool
int_lt (pos a) (pos b) = ltb a b
int_lt (negsuc a) (negsuc b) = ltb b a
int_lt (pos a) (negsuc b) = false
int_lt (negsuc a) (pos b) = true

-- `v - 1`
abbrev pub pred_int : ℤ → ℤ
pred_int (pos zero) = negsuc 0
pred_int (pos (suc n)) = pos n
pred_int (negsuc n) = negsuc (suc n)

-- A number as a 64-bit pattern, and the signed value of a pattern.
word64 : ℤ → ℕ
word64 (pos n) = n % 2 ^ 64
word64 (negsuc n) = 2 ^ 64 - 1 - n % 2 ^ 64

signed64 : ℕ → ℤ
signed64 w = if ltb w (2 ^ 63) then pos w else negsuc (2 ^ 64 - 1 - w)

-- Go's `a * b` on 64-bit integers.
unfoldable pub mul64 : ℤ → ℤ → ℤ
unfolding signed64 word64
mul64 a b = signed64 (word64 a * word64 b % 2 ^ 64)
