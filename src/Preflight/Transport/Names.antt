-- ===== src/Preflight/Transport/Names.antt =====
-- pkg/preflight/report_transport.go, preflightReportName: what the names of the resources look like.
use kcover.Preflight.Transport.{
  Encoders, is_alnum, is_dash_or_dot, is_name_code, name_char, name_part, or_unknown,
  preflight_report_name, fitted,
}
use kcover.Shared.{
  Bool-cases, Char, String, all_codes, all_codes-append, all_codes-take, all_codes-trim_right,
  all_codes-trim_with, arith, code, codes, false, first_code_is, first_code_is-append,
  first_code_is-take, first_code_is-trim_right, inl, inr, last_code_is, last_code_is-append,
  last_code_of_all, ltb, map_text, not, refl, suc, text_is_empty, text_length, text_length-append,
  text_length-take, text_length-trim_right, text_take, trim_right, trim_with, trim_with_first, true,
  ℕ, ◌+++◌, ◌+◌, ◌≡◌, ◌≤◌,
}

code-name_char : (c : Char) → is_name_code (code (name_char c)) ≡ true
code-name_char c = elim (Bool-cases (is_name_code (code c))) [
  | inl good ↦ rw good good
  | inr bad ↦ rw bad refl
]

all_codes-map_text : (s : String) → all_codes is_name_code (map_text name_char s) ≡ true
all_codes-map_text String.[] = refl
all_codes-map_text (String.◌∷◌ c s) = ground (arith, code-name_char c, all_codes-map_text s)

is_alnum_of_not_cut :
    (s : String)
    → all_codes is_name_code s ≡ true
    → first_code_is (λ c. not (is_dash_or_dot c)) s ≡ true
    → first_code_is is_alnum s ≡ true
is_alnum_of_not_cut String.[] h n = n
is_alnum_of_not_cut (String.◌∷◌ c s) h n = ground arith

first_not_cut :
    (s : String)
    → first_code_is is_alnum s ≡ true
    → first_code_is (λ c. not (is_dash_or_dot c)) s ≡ true
first_not_cut String.[] h = h
first_not_cut (String.◌∷◌ c s) h = ground arith

alnum_name_code : (s : String) → all_codes is_alnum s ≡ true → all_codes is_name_code s ≡ true
alnum_name_code String.[] h = refl
alnum_name_code (String.◌∷◌ c s) h = ground (arith, alnum_name_code s)

-- A text of the characters of a name that begins with a letter or a digit.
abbrev IsNamePart : String → Type 0
IsNamePart s = (all_codes is_name_code s ≡ true) × (first_code_is is_alnum s ≡ true)

or_unknown-IsNamePart :
    (s : String)
    → all_codes is_name_code s ≡ true
    → (text_is_empty s ≡ false → first_code_is (λ c. not (is_dash_or_dot c)) s ≡ true)
    → IsNamePart (or_unknown s)
or_unknown-IsNamePart s h n = elim (Bool-cases (text_is_empty s)) [
  | inl gone ↦ rw gone (refl, refl)
  | inr there ↦ rw there (h, is_alnum_of_not_cut s h (n there))
]

module _ (encoders : Encoders) where
  name_part-IsNamePart : (value : String) → IsNamePart (name_part encoders value)
  unfolding name_part
  name_part-IsNamePart value =
      let raw = map_text name_char (encoders.to_lower value) in
      or_unknown-IsNamePart (trim_with is_dash_or_dot raw)
        (all_codes-trim_with is_name_code is_dash_or_dot raw
          (all_codes-map_text (encoders.to_lower value)))
        (trim_with_first is_dash_or_dot raw)

  cut-IsNamePart :
      (n : ℕ) (s : String)
      → IsNamePart s
      → IsNamePart (trim_right is_dash_or_dot (text_take (suc n) s))
  cut-IsNamePart n s (codes, first) =
      let taken = first_code_is-take is_alnum n s first in
      (
        all_codes-trim_right is_name_code is_dash_or_dot (text_take (suc n) s)
            (all_codes-take is_name_code (suc n) s codes),
        first_code_is-trim_right is_alnum is_dash_or_dot (text_take (suc n) s) taken
            (first_not_cut (text_take (suc n) s) taken),
      )

  text_length-cut :
      (n : ℕ) (s : String) → text_length (trim_right is_dash_or_dot (text_take n s)) ≤ n
  text_length-cut n s =
      omega (arith, text_length-trim_right is_dash_or_dot (text_take n s), text_length-take n s)

  fitted-IsNamePart :
      (n : ℕ) (s : String)
      → IsNamePart s
      → IsNamePart (fitted (suc n) s) × (text_length (fitted (suc n) s) ≤ suc n)
  fitted-IsNamePart n s h = elim (Bool-cases (ltb (suc n) (text_length s))) [
    | inl long ↦ rw long (cut-IsNamePart n s h, text_length-cut (suc n) s)
    | inr short ↦ rw short (h, ground arith)
  ]

  not_empty_of_length : (s : String) → text_length s ≡ 10 → text_is_empty s ≡ false
  not_empty_of_length String.[] h = absurd (omega arith)
  not_empty_of_length (String.◌∷◌ c s) h = refl

  joined :
      (s hash : String) (n : ℕ)
      → IsNamePart s
      → text_length s ≤ n
      → all_codes is_alnum hash ≡ true
      → text_is_empty hash ≡ false
      → (text_length (s +++ "-" +++ hash) ≤ n + 1 + text_length hash)
        × (all_codes is_name_code (s +++ "-" +++ hash) ≡ true)
        × (first_code_is is_alnum (s +++ "-" +++ hash) ≡ true)
        × (last_code_is is_alnum (s +++ "-" +++ hash) ≡ true)
  joined s hash n (codes, first) short hex there = (
    omega (arith, text_length-append s ("-" +++ hash)),
    ground (arith, all_codes-append is_name_code s ("-" +++ hash), alnum_name_code hash hex),
    first_code_is-append is_alnum s ("-" +++ hash) first,
    last_code_is-append is_alnum s ("-" +++ hash)
        (last_code_is-append is_alnum "-" hash (last_code_of_all is_alnum hash there hex)),
  )

  -- If the digest is a text of at least ten letters and digits, every report gets a name of at most
  -- 253 characters that holds small letters, digits, dashes and dots only, and begins and ends with
  -- a letter or a digit, whatever the workload is called.
  pub preflight_report_name-IsValid :
      (workload digest : String)
      → all_codes is_alnum (text_take 10 digest) ≡ true
      → text_length (text_take 10 digest) ≡ 10
      → (text_length (preflight_report_name encoders workload digest) ≤ 253)
        × (all_codes is_name_code (preflight_report_name encoders workload digest) ≡ true)
        × (first_code_is is_alnum (preflight_report_name encoders workload digest) ≡ true)
        × (last_code_is is_alnum (preflight_report_name encoders workload digest) ≡ true)
  unfolding preflight_report_name
  preflight_report_name-IsValid workload digest hex size =
      let hash = text_take 10 digest in
      let (part, short) =
        fitted-IsNamePart 241 (name_part encoders workload) (name_part-IsNamePart workload) in
      let (long, codes, first, last) =
        joined (fitted 242 (name_part encoders workload)) hash 242 part short hex
          (not_empty_of_length hash size) in
      rw size (omega (arith, long, size), codes, first, last)
