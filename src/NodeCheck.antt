-- ===== src/NodeCheck.antt =====
-- pkg/detector/node/check_metax.go: what the tools of a node print, and the checks of the node. The
-- texts that the commands print are a parameter; bytes are the characters of UTF-8.
use kcover.Shared.{
  ◌>>=◌, ◌>>◌, Bool, List, Option, Result, Scan, String, [], after_colon, atoi, done, err, fail_if,
  fields_of, first_field, fourth_field, has_prefix, if◌then◌else◌, insert, int_lt, is_empty, line,
  lookup, none, not, ok, pos, scan_lines, some, suc, too_long, trim_last, trim_space, true, values,
  ℕ, ℤ, ◌==◌, ◌∷◌, text_eq,
}
use kcover.Preflight.Json.{Runtime}
use kcover.AgentConfig.{MetaX}
use kcover.Events.Delivery.{count}
pub mod Detector
pub mod Passing
pub mod Readings
mod NodeCheckTests

-- Why a check fails; the lists are the offenders, in the order of the map.
pub data CheckError : Type 0 where
  command_failed line_too_long : CheckError
  bad_gpu_line value_before_gpu bad_line bad_value : CheckError
  no_system_time no_time_value : CheckError
  too_few_gpus too_hot too_many_faults bad_hca_state : List String → CheckError
  clock_is_off : CheckError

-- What parseGPUStatuses does with one line.
abbrev pub gpu_line : String → List (String × String) → List (String × String)
gpu_line l statuses = elim (fourth_field (fields_of l)) [
  | none ↦ statuses
  | some (gpu, status) ↦ if has_prefix gpu "GPU#" then insert gpu status statuses else statuses
]

unfoldable pub gpu_statuses :
    Scan → List (String × String) → Result CheckError (List (String × String))
gpu_statuses done statuses = ok statuses
gpu_statuses too_long statuses = err line_too_long
gpu_statuses (line l rest) statuses = gpu_statuses rest (gpu_line l statuses)

unfoldable pub parse_gpu_statuses : String → Result CheckError (List (String × String))
unfolding gpu_statuses
parse_gpu_statuses text = gpu_statuses (scan_lines text) []

unfoldable pub count_status : String → List (String × String) → ℕ
count_status expected [] = 0
count_status expected ((gpu, status) ∷ rest) =
    let count = count_status expected rest in if status == expected then suc count else count

abbrev pub others_than : String → List (String × String) → List String
others_than expected [] = []
others_than expected ((gpu, status) ∷ rest) =
    let others = others_than expected rest in if status == expected then others else gpu ∷ others

unfoldable pub gpu_status_count_check :
    ℤ → List (String × String) → String → Result CheckError (Unit {0})
unfolding count_status
gpu_status_count_check required statuses expected =
    fail_if (int_lt (pos (count_status expected statuses)) required)
      (too_few_gpus (others_than expected statuses))

abbrev pub found : {A : Type 0} → CheckError → Option A → Result CheckError A
found e none = err e
found e (some a) = ok a

-- parseHotspotTemperatures and parseGPUIntegerMetric read a value of each GPU from the lines that
-- begin with a prefix; `value` reads it from the text behind the colon.
module _ {V : Type 0} (prefix : String) (value : String → Option V) where
  abbrev pub metric_value : Option String → Result CheckError V
  metric_value none = err bad_line
  metric_value (some text) = found bad_value (value text)

  -- One line: the GPU it stands below, and the values so far.
  unfoldable pub metric_line :
      String → String → List (String × V) → Result CheckError (String × List (String × V))
  metric_line l current values =
      if l == ""
      then ok (current, values)
      else if has_prefix l "GPU#"
      then (found bad_gpu_line (first_field (fields_of l)) >>= λ gpu. ok (gpu, values))
      else if not (has_prefix l prefix)
      then ok (current, values)
      else if current == ""
      then err value_before_gpu
      else metric_value (after_colon l) >>= λ v. ok (current, insert current v values)

  unfoldable pub metric_lines :
      Scan → String → List (String × V) → Result CheckError (List (String × V))
  unfolding metric_line
  metric_lines done current values = ok values
  metric_lines too_long current values = err line_too_long
  metric_lines (line l rest) current values = do
    next ← metric_line (trim_space l) current values
    metric_lines rest next.0 next.1

unfoldable pub parse_gpu_integer_metric : String → String → Result CheckError (List (String × ℤ))
unfolding metric_lines
parse_gpu_integer_metric text prefix =
    metric_lines prefix (λ s. atoi (trim_space s)) (scan_lines text) "" []

-- The keys of the values that are over the limit.
abbrev pub exceeding : {V : Type 0} → (V → Bool) → List (String × V) → List String
exceeding over [] = []
exceeding over ((gpu, v) ∷ rest) =
    let others = exceeding over rest in if over v then gpu ∷ others else others

unfoldable pub double_bit_ecc_exceeding_limit : List (String × ℤ) → ℤ → List String
double_bit_ecc_exceeding_limit values limit = exceeding (λ v. int_lt limit v) values

-- parseHCAStates
abbrev pub hca_line :
    String → String → List (String × String) → Result CheckError (String × List (String × String))
hca_line l current states =
    if l == ""
    then ok (current, states)
    else if has_prefix l "hca_id:"
    then (found bad_line (after_colon l) >>= λ id. ok (trim_space id, states))
    else if not (has_prefix l "state:")
    then ok (current, states)
    else if current == ""
    then err value_before_gpu
    else found bad_line (after_colon l) >>= λ s. ok (current, insert current (trim_space s) states)

unfoldable pub hca_lines :
    Scan → String → List (String × String) → Result CheckError (List (String × String))
hca_lines done current states = ok states
hca_lines too_long current states = err line_too_long
hca_lines (line l rest) current states = do
  next ← hca_line (trim_space l) current states
  hca_lines rest next.0 next.1

unfoldable pub parse_hca_states : String → Result CheckError (List (String × String))
unfolding hca_lines
parse_hca_states text = hca_lines (scan_lines text) "" []

abbrev pub lacks_state : String → Option String → Bool
lacks_state expected none = true
lacks_state expected (some state) = not (has_prefix state expected)

unfoldable pub hca_ids_without_state : List String → List (String × String) → String → List String
hca_ids_without_state [] states expected = []
hca_ids_without_state (id ∷ ids) states expected =
    let others = hca_ids_without_state ids states expected in
    if lacks_state expected (lookup id states) then id ∷ others else others

-- What a command prints, by the command with its argument; `none` where it fails.
abbrev pub Commands : Type 0
Commands = String → String → Option String

module _ (rt : Runtime) (run_cmd : Commands) where
  open rt use {Float, of_int, le, lt, mul, is_zero, parse_float}

  abbrev pub run : String → String → Result CheckError String
  run cmd argument = found command_failed (run_cmd cmd argument)

  unfoldable pub gpu_check : ℤ → Result CheckError (Unit {0})
  gpu_check required = do
    data_text ← run "mx-smi" "-L"
    statuses ← parse_gpu_statuses data_text
    gpu_status_count_check required statuses "Available"

  unfoldable pub parse_hotspot_temperatures :
      String → String → Result CheckError (List (String × Float))
  unfolding metric_lines
  parse_hotspot_temperatures text prefix =
      metric_lines prefix (λ s. parse_float (trim_space (trim_last b'C' (trim_space s))))
        (scan_lines text) "" []

  unfoldable pub hotspot_temperatures_exceeding_limit : List (String × Float) → ℤ → List String
  hotspot_temperatures_exceeding_limit temperatures limit =
      exceeding (λ t. le (of_int limit) t) temperatures

  unfoldable pub temperature_check : ℤ → Result CheckError (Unit {0})
  temperature_check limit = do
    data_text ← run "mx-smi" "--show-temperature"
    temperatures ← parse_hotspot_temperatures data_text "hotspot("
    let offenders = hotspot_temperatures_exceeding_limit temperatures limit
    fail_if (not (is_empty offenders)) (too_hot offenders)

  unfoldable pub ecc_fault_page_check : ℤ → Result CheckError (Unit {0})
  ecc_fault_page_check limit = do
    data_text ← run "mx-smi" "--count-ecc"
    values ← parse_gpu_integer_metric data_text "Double Bit ECC"
    let offenders = double_bit_ecc_exceeding_limit values limit
    fail_if (not (is_empty offenders)) (too_many_faults offenders)

  -- hcaStateCheck behind its early return.
  abbrev pub hca_states_checked : List String → Result CheckError (Unit {0})
  hca_states_checked ids = do
    data_text ← run "ibv_devinfo" ""
    states ← parse_hca_states data_text
    let offenders = hca_ids_without_state ids states "PORT_ACTIVE"
    fail_if (not (is_empty offenders)) (bad_hca_state offenders)

  unfoldable pub hca_state_check : List String → Result CheckError (Unit {0})
  hca_state_check ids = if is_empty ids then ok tt else hca_states_checked ids

  -- metaXDetector.check; the check of the clock is not called.
  unfoldable pub check : MetaX → Result CheckError (Unit {0})
  check config = do
    gpu_check config.gpu_num
    temperature_check config.temperature
    ecc_fault_page_check config.ecc_max_count
    hca_state_check config.hca_ids
