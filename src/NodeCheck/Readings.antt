-- ===== src/NodeCheck/Readings.antt =====
-- pkg/detector/node/check_metax.go: which of the lines of a tool a GPU is judged by.
use kcover.Shared.{
  ◌>>=◌, Bool, List, Option, Scan, String, after_colon, done, false, fields_of, first_field,
  first_some, has_prefix, if◌then◌else◌, line, lookup, none, not, ok, or_default, some, too_long,
  trim_space, true, ◌&&◌, ◌==◌, ◌≡◌, text_eq, >>=-eq-ok, arith, eq_iff, insert, refl, subst, sym,
  Result, ap, lookup-insert, [], all, first_some_assoc, scan_lines, trim_last, ℤ, ◌∙◌, ◌∷◌,
}
use kcover.NodeCheck.{
  CheckError, Commands, found, metric_line, metric_lines, metric_value, bad_gpu_line,
  parse_hotspot_temperatures, temperature_check,
}
use kcover.NodeCheck.Passing.{temperature_check_iff}
use kcover.Preflight.Json.{Runtime}

-- The GPU that the lines after a line stand below.
abbrev pub header_after : String → String → String
header_after l current =
    if has_prefix l "GPU#" then or_default current (first_field (fields_of l)) else current

module _ {V : Type 0} (prefix : String) (value : String → Option V) where
  abbrev pub value_behind : Option String → Option V
  value_behind none = none
  value_behind (some text) = value text

  -- What a line below the header of `current` says of a GPU.
  abbrev pub reading : String → String → String → Option V
  reading gpu current l =
      if not (l == "") && not (has_prefix l "GPU#") && has_prefix l prefix && current == gpu
      then value_behind (after_colon l)
      else none

  -- What the last line about a GPU says.
  abbrev pub last_reading : String → String → Scan → Option V
  last_reading gpu current done = none
  last_reading gpu current too_long = none
  last_reading gpu current (line l rest) =
      first_some (last_reading gpu (header_after (trim_space l) current) rest)
        (reading gpu current (trim_space l))

  found-eq-ok : {A : Type 0} (e : CheckError) (o : Option A) (a : A) → found e o ≡ ok a → o ≡ some a
  found-eq-ok e none a h = absurd (cc)
  found-eq-ok e (some b) a h = cc

  metric_value-eq-ok :
      (o : Option String) (v : V) → metric_value prefix value o ≡ ok v → value_behind o ≡ some v
  metric_value-eq-ok none v h = absurd (cc)
  metric_value-eq-ok (some text) v h = found-eq-ok _ (value text) v h

  -- What a line changes: the header, and the value of the GPU below whose header it stands.
  abbrev StepOf : String → String → String → List (String × V) → String × List (String × V) → Type 0
  StepOf gpu l current known next =
      (next.0 ≡ header_after l current)
      × (lookup gpu next.1 ≡ first_some (reading gpu current l) (lookup gpu known))

  one_value :
      (b : Bool) (v : V) (o : Option V)
      → (if b then some v else o) ≡ first_some (if b then some v else none) o
  one_value true v o = refl
  one_value false v o = refl

  blank_header : (l p : String) → (l == "") ≡ true → has_prefix l "GPU#" ≡ false
  unfolding has_prefix
  blank_header l p h = subst (λ x. has_prefix x "GPU#" ≡ false) (sym ((eq_iff l "").0 h)) refl

  step_of :
      (gpu l current : String) (known : List (String × V)) (next : String × List (String × V))
      → metric_line prefix value l current known ≡ ok next
      → (blank header metric lost : Bool) → (l == "") ≡ blank
      → has_prefix l "GPU#" ≡ header
      → has_prefix l prefix ≡ metric
      → (current == "") ≡ lost
      → StepOf gpu l current known next
  unfolding metric_line
  step_of gpu l current known next h true header metric lost e1 e2 e3 e4 =
      let same : (current, known) ≡ next = ground arith in
      subst (StepOf gpu l current known) same (rw (e1, blank_header l "" e1) (refl, refl))
  step_of gpu l current known next h false true metric lost e1 e2 e3 e4 =
      let whole : ◌≡◌ {A = Result CheckError (String × List (String × V))}
          (found bad_gpu_line (first_field (fields_of l)) >>= λ g. ok (g, known)) (ok next) =
        ground arith in
      let (g, e5, h1) = >>=-eq-ok (found bad_gpu_line (first_field (fields_of l))) _ whole in
      let same : (g, known) ≡ next = cc in
      subst (StepOf gpu l current known) same
        (rw (e1, e2, found-eq-ok bad_gpu_line (first_field (fields_of l)) g e5) (refl, refl))
  step_of gpu l current known next h false false false lost e1 e2 e3 e4 =
      let same : (current, known) ≡ next = ground arith in
      subst (StepOf gpu l current known) same (rw (e1, e2, e3) (refl, refl))
  step_of gpu l current known next h false false true true e1 e2 e3 e4 = absurd (ground arith)
  step_of gpu l current known next h false false true false e1 e2 e3 e4 =
      let whole : ◌≡◌ {A = Result CheckError (String × List (String × V))}
          (metric_value prefix value (after_colon l) >>= λ v. ok (current, insert current v known))
          (ok next) =
        ground arith in
      let (v, e5, h1) = >>=-eq-ok (metric_value prefix value (after_colon l)) _ whole in
      let same : (current, insert current v known) ≡ next = cc in
      let found_value = metric_value-eq-ok (after_colon l) v e5 in
      subst (StepOf gpu l current known) same (
        rw (e1, e2, e3, found_value, lookup-insert current v known gpu)
          (refl, one_value (current == gpu) v (lookup gpu known)))

  -- Of the values that are read for a GPU the one in the last line about it is kept.
  pub last_reading-kept :
      (scan : Scan) (gpu current : String) (known result : List (String × V))
      → metric_lines prefix value scan current known ≡ ok result
      → lookup gpu result ≡ first_some (last_reading gpu current scan) (lookup gpu known)
  unfolding metric_lines
  last_reading-kept done gpu current known result h =
      ap (lookup gpu) (let same : result ≡ known = cc in same)
  last_reading-kept too_long gpu current known result h = absurd (cc)
  last_reading-kept (line l rest) gpu current known result h =
      let (next, e, h1) = >>=-eq-ok (metric_line prefix value (trim_space l) current known) _ h in
      let (header, kept) =
        step_of gpu (trim_space l) current known next e _ _ _ _ refl refl refl refl in
      last_reading-kept rest gpu next.0 next.1 result h1
      ∙ rw (header, kept)
          (first_some_assoc (last_reading gpu (header_after (trim_space l) current) rest)
            (reading gpu current (trim_space l)) (lookup gpu known))

all-lookup :
    {V : Type 0} (good : V → Bool) (m : List (String × V)) (k : String) (v : V)
    → all (λ p. good p.1) m ≡ true
    → lookup k m ≡ some v
    → good v ≡ true
unfolding lookup
all-lookup good [] k v h at = absurd (cc)
all-lookup good ((j, w) ∷ m) k v h at = ground (arith, all-lookup good m k v, eq_iff j k)

module _ (rt : Runtime) (run_cmd : Commands) where
  -- If the check of the temperatures passes, the last reading that mx-smi printed of the hotspot of a
  -- GPU, below the line that names it, is not the highest temperature or more.
  pub temperature_check-last_reading :
      (limit : ℤ) (text gpu : String) (t : rt.Float)
      → temperature_check rt run_cmd limit ≡ ok tt
      → run_cmd "mx-smi" "--show-temperature" ≡ some text
      → last_reading "hotspot("
          (λ s. rt.parse_float (trim_space (trim_last b'C' (trim_space s))))
          gpu
          ""
          (scan_lines text)
        ≡ some t
      → rt.le (rt.of_int limit) t ≡ false
  unfolding parse_hotspot_temperatures lookup
  temperature_check-last_reading limit text gpu t h printed last =
      let (shown, e, m, parsed, below) = (temperature_check_iff rt run_cmd limit).0 h in
      let value = λ (s : String). rt.parse_float (trim_space (trim_last b'C' (trim_space s))) in
      let same : shown ≡ text = cc in
      let at : lookup gpu m ≡ some t =
        last_reading-kept "hotspot(" value (scan_lines shown) gpu "" [] m parsed
        ∙ rw same (rw last refl) in
      let good = all-lookup (λ v. not (rt.le (rt.of_int limit) v)) m gpu t below at in ground arith
