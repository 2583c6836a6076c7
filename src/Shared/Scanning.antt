-- ===== src/Shared/Scanning.antt =====
-- Texts as lines and words: bufio.Scanner with its limit, and the functions of package bytes.
use Prim.Native.Nat.{ℕ, ◌+◌}
use Prim.Native.Char.{Char, code, len_utf8}
use Prim.Native.String.{String}
use mathlib.Core.Bool.{Bool, true, false, ◌&&◌, ◌||◌}
use mathlib.Core.List.{List, [], ◌∷◌}
use mathlib.Core.Option.{Option, some, none}
use kcover.Shared.Tests.{leb, nat_beq, if◌then◌else◌}
use kcover.Shared.Texts.{is_space, text_is_empty, first_code_is}

-- What a scanner returns: its lines, and whether it ends at a line that is too long.
pub data Scan : Type 0 where
  done too_long : Scan
  line : String → Scan → Scan

-- The size of a text in bytes.
unfoldable pub text_size : String → ℕ
text_size String.[] = 0
text_size (String.◌∷◌ c s) = len_utf8 c + text_size s

-- A character in front of the first line.
abbrev pub add_char : Char → Scan → Scan
add_char c (line l rest) = line (String.◌∷◌ c l) rest
add_char c done = line (String.◌∷◌ c String.[]) done
add_char c too_long = too_long

unfoldable pub split_lines : String → Scan
split_lines String.[] = done
split_lines (String.◌∷◌ c s) =
    let rest = split_lines s in if nat_beq (code c) 10 then line String.[] rest else add_char c rest

-- A carriage return at the end of a line is dropped.
unfoldable pub drop_return : String → String
drop_return String.[] = String.[]
drop_return (String.◌∷◌ c s) =
    let rest = drop_return s in
    if text_is_empty s && nat_beq (code c) 13 then String.[] else String.◌∷◌ c rest

-- bufio.MaxScanTokenSize
abbrev pub max_scan_token_size : ℕ
max_scan_token_size = 65536

unfoldable pub limit_lines : Scan → Scan
unfolding drop_return text_size
limit_lines (line l rest) =
    let more = limit_lines rest in
    if leb max_scan_token_size (text_size l) then too_long else line (drop_return l) more
limit_lines done = done
limit_lines too_long = too_long

unfoldable pub scan_lines : String → Scan
unfolding split_lines limit_lines
scan_lines text = limit_lines (split_lines text)

-- bytes.HasPrefix
unfoldable pub has_prefix : String → String → Bool
has_prefix s String.[] = true
has_prefix String.[] (String.◌∷◌ d p) = false
has_prefix (String.◌∷◌ c s) (String.◌∷◌ d p) = nat_beq (code c) (code d) && has_prefix s p

abbrev pub add_to_first : Char → List String → List String
add_to_first c [] = String.◌∷◌ c String.[] ∷ []
add_to_first c (w ∷ ws) = String.◌∷◌ c w ∷ ws

-- bytes.Fields
unfoldable pub fields_of : String → List String
fields_of String.[] = []
fields_of (String.◌∷◌ c s) =
    let rest = fields_of s in
    if is_space (code c)
    then rest
    else if text_is_empty s || first_code_is is_space s
    then String.◌∷◌ c String.[] ∷ rest
    else add_to_first c rest

-- The second part of bytes.SplitN at a colon, if there are two.
unfoldable pub after_colon : String → Option String
after_colon String.[] = none
after_colon (String.◌∷◌ c s) =
    let later = after_colon s in if nat_beq (code c) 58 then some s else later

-- bytes.TrimSuffix with a text of one character.
unfoldable pub trim_last : ℕ → String → String
trim_last d String.[] = String.[]
trim_last d (String.◌∷◌ c s) =
    let rest = trim_last d s in
    if text_is_empty s && nat_beq (code c) d then String.[] else String.◌∷◌ c rest

-- The first of the fields, and the fourth if there are four.
abbrev pub first_field : List String → Option String
first_field [] = none
first_field (a ∷ rest) = some a

abbrev pub fourth_field : List String → Option (String × String)
fourth_field (a ∷ b ∷ c ∷ d ∷ rest) = some (a, d)
fourth_field _ = none
