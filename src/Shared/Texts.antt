-- ===== src/Shared/Texts.antt =====
-- Texts as the code points that they hold, with the functions of package strings that the program
-- calls.
use Prim.Native.Nat.{ℕ, ◌-◌, zero, suc}
use Prim.Native.Char.{Char, code}
use Prim.Native.String.{String}
use mathlib.Core.Bool.{Bool, true, false, ◌&&◌, ◌||◌}
use mathlib.Core.List.{List, [], ◌∷◌}
use kcover.Shared.Tests.{nat_beq, leb, if◌then◌else◌}

abbrev pub codes : String → List ℕ
codes String.[] = []
codes (String.◌∷◌ c s) = code c ∷ codes s

abbrev pub text_is_empty : String → Bool
text_is_empty String.[] = true
text_is_empty (String.◌∷◌ c s) = false

infixr 40 ◌+++◌
abbrev pub ◌+++◌ : String → String → String
String.[] +++ t = t
String.◌∷◌ c s +++ t = String.◌∷◌ c (s +++ t)

-- Counted in code points; the texts that the program measures are ASCII.
abbrev pub text_length : String → ℕ
text_length String.[] = 0
text_length (String.◌∷◌ c s) = suc (text_length s)

abbrev pub all_codes : (ℕ → Bool) → String → Bool
all_codes p String.[] = true
all_codes p (String.◌∷◌ c s) = p (code c) && all_codes p s

-- Whether a text is not empty and its first character, or its last one, has a property.
abbrev pub first_code_is : (ℕ → Bool) → String → Bool
first_code_is p String.[] = false
first_code_is p (String.◌∷◌ c s) = p (code c)

abbrev pub last_code_is : (ℕ → Bool) → String → Bool
last_code_is p String.[] = false
last_code_is p (String.◌∷◌ c s) = if text_is_empty s then p (code c) else last_code_is p s

unfoldable pub text_take : ℕ → String → String
text_take zero s = String.[]
text_take (suc n) String.[] = String.[]
text_take (suc n) (String.◌∷◌ c s) = String.◌∷◌ c (text_take n s)

abbrev pub map_text : (Char → Char) → String → String
map_text f String.[] = String.[]
map_text f (String.◌∷◌ c s) = String.◌∷◌ (f c) (map_text f s)

-- unicode.IsSpace
unfoldable pub is_space : ℕ → Bool
is_space c =
    leb 9 c && leb c 13
    || nat_beq c 32
    || nat_beq c 0x85
    || nat_beq c 0xa0
    || nat_beq c 0x1680
    || leb 0x2000 c && leb c 0x200a
    || nat_beq c 0x2028
    || nat_beq c 0x2029
    || nat_beq c 0x202f
    || nat_beq c 0x205f
    || nat_beq c 0x3000

unfoldable pub trim_left : (ℕ → Bool) → String → String
trim_left p String.[] = String.[]
trim_left p (String.◌∷◌ c s) =
    let rest = trim_left p s in if p (code c) then rest else String.◌∷◌ c s

unfoldable pub trim_right : (ℕ → Bool) → String → String
trim_right p String.[] = String.[]
trim_right p (String.◌∷◌ c s) =
    let rest = trim_right p s in
    if text_is_empty rest && p (code c) then String.[] else String.◌∷◌ c rest

unfoldable pub trim_with : (ℕ → Bool) → String → String
unfolding trim_left trim_right
trim_with p s = trim_right p (trim_left p s)

-- strings.TrimSpace
unfoldable pub trim_space : String → String
unfolding trim_with is_space
trim_space s = trim_with is_space s

-- The least member of the class of a code point under strings.EqualFold, for the classes that hold
-- an ASCII letter: those of k and s have a third member each.
unfoldable pub fold_code : ℕ → ℕ
fold_code c =
    if leb 0x41 c && leb c 0x5a
    then c
    else if leb 0x61 c && leb c 0x7a
    then c - 32
    else if nat_beq c 0x17f
    then 0x53
    else if nat_beq c 0x212a
    then 0x4b
    else c

-- strings.EqualFold where one side is ASCII.
unfoldable pub equal_fold : String → String → Bool
unfolding fold_code
equal_fold String.[] String.[] = true
equal_fold String.[] (String.◌∷◌ d t) = false
equal_fold (String.◌∷◌ c s) String.[] = false
equal_fold (String.◌∷◌ c s) (String.◌∷◌ d t) =
    nat_beq (fold_code (code c)) (fold_code (code d)) && equal_fold s t
