-- ===== src/Shared/Numerals.antt =====
-- Numbers as decimal texts: what fmt prints with `%d`, and strconv.Atoi.
use Prim.Native.Nat.{ℕ, zero, suc, ◌+◌, ◌-◌, ◌*◌, ◌/◌, ◌%◌, ◌^◌}
use Prim.Native.Char.{code}
use Prim.Native.String.{String}
use mathlib.Core.Bool.{Bool, true, false, ◌&&◌}
use mathlib.Core.Option.{Option, some, none}
use kcover.Shared.Tests.{ltb, leb, nat_beq, if◌then◌else◌}
use kcover.Shared.Texts.{◌+++◌, text_is_empty}
use kcover.Shared.Ints.{ℤ, pos, negsuc}

abbrev pub digit_text : ℕ → String
digit_text n =
    if nat_beq n 0
    then "0"
    else if nat_beq n 1
    then "1"
    else if nat_beq n 2
    then "2"
    else if nat_beq n 3
    then "3"
    else if nat_beq n 4
    then "4"
    else if nat_beq n 5
    then "5"
    else if nat_beq n 6
    then "6"
    else if nat_beq n 7
    then "7"
    else if nat_beq n 8
    then "8"
    else "9"

-- `%d` of a number below 10 ^ fuel, for a fuel that is positive.
unfoldable pub decimal_with : ℕ → ℕ → String
decimal_with zero n = ""
decimal_with (suc fuel) n =
    let rest = decimal_with fuel (n / 10) in
    if ltb n 10 then digit_text n else rest +++ digit_text (n % 10)

-- A number of 64 bits has at most 20 digits.
unfoldable pub decimal : ℕ → String
unfolding decimal_with
decimal n = decimal_with 20 n

-- A text of digits as a number, going on from the number read so far.
unfoldable pub read_digits : ℕ → String → Option ℕ
read_digits n String.[] = some n
read_digits n (String.◌∷◌ c s) =
    let rest = read_digits (n * 10 + (code c - b'0')) s in
    if leb b'0' (code c) && leb (code c) b'9' then rest else none

abbrev pub is_digit : ℕ → Bool
is_digit c = leb b'0' c && leb c b'9'

-- A number with its sign where it is an int of 64 bits.
abbrev pub in_range : Bool → Option ℕ → Option ℤ
in_range minus none = none
in_range false (some n) = if ltb n (2 ^ 63) then some (pos n) else none
in_range true (some zero) = some (pos zero)
in_range true (some (suc n)) = if ltb n (2 ^ 63) then some (negsuc n) else none

unfoldable pub atoi_digits : Bool → String → Option ℤ
unfolding read_digits
atoi_digits minus s = if text_is_empty s then none else in_range minus (read_digits 0 s)

-- strconv.Atoi; `none` for its errors.
unfoldable pub atoi : String → Option ℤ
unfolding atoi_digits
atoi String.[] = none
atoi (String.◌∷◌ c s) =
    if nat_beq (code c) b'-'
    then atoi_digits true s
    else if nat_beq (code c) b'+'
    then atoi_digits false s
    else atoi_digits false (String.◌∷◌ c s)

-- `%d` of an int.
abbrev pub int_text : ℤ → String
int_text (pos n) = decimal n
int_text (negsuc n) = "-" +++ decimal (suc n)
