-- ===== src/NodeCheck/NodeCheckTests.antt =====
-- The checks of a node on the texts of one healthy GPU and one network adapter.
use kcover.NodeCheck.{
  CheckError, Commands, check, count_status, double_bit_ecc_exceeding_limit, ecc_fault_page_check,
  gpu_check, gpu_status_count_check, gpu_statuses, hca_ids_without_state, hca_lines,
  hca_state_check, hotspot_temperatures_exceeding_limit, metric_line, metric_lines,
  parse_gpu_integer_metric, parse_gpu_statuses, parse_hca_states, parse_hotspot_temperatures,
  temperature_check,
}
use kcover.Cluster.{ApiError}
use kcover.NodeCheck.Passing.{IsHealthy, check_iff_IsHealthy}
use kcover.Shared.{
  List, Result, String, [], after_colon, arith, atoi, atoi_digits, drop_return, err, false,
  fields_of, has_prefix, if◌then◌else◌, insert, is_space, leb, limit_lines, lookup, ltb, none, ok,
  pos, read_digits, refl, scan_lines, some, split_lines, text_size, to_nat, trim_last, trim_left,
  trim_right, trim_space, trim_with, true, ℕ, ℤ, ◌%◌, ◌*◌, ◌+◌, ◌/◌, ◌<◌, ◌==◌, ◌↔◌, ◌∷◌, ◌≡◌, ◌≤◌,
  nat_eq, text_eq, ◌⊎◌,
}
use kcover.AgentConfig.{MetaX}
use kcover.Preflight.Json.{Runtime}
use kcover.NodeCheck.Detector.{
  day2_check, day2_check_iff_IsHealthy, day2_event, day_ns, has_meta_x_gpu_capacity, minute_ns,
  next_check_time, next_check_time_bounds,
}
use kcover.NodeCheck.Readings.{last_reading, temperature_check-last_reading}

-- Numbers are natural.
abbrev naturals : Runtime
naturals = record {
  Float = ℕ;
  of_int = to_nat;
  to_int = λ x. pos x;
  is_whole = λ x. true;
  mul = λ a b. a * b;
  div = λ a b. a / b;
  lt = ltb;
  le = leb;
  is_zero = λ x. x == 0;
  parse_float = λ s. read_digits 0 s;
  Address = ℕ;
  parse_address = λ s. none;
  address_gt = λ a b. ltb b a;
  decode_report = λ s. none;
  decode_payload = λ s. none;
}

abbrev demo_gpus : String
demo_gpus = "mx-smi  version: 2.2.9\nGPU#0  MXC500  0000:08:00.0  Available (UUID: GPU-e7)\r\n"

abbrev demo_heat : String
demo_heat = "GPU#0  MXC500\n    hotspot(0)   : 45 C\n"

abbrev demo_faults : String
demo_faults = "GPU#0  MXC500\n    Double Bit ECC   : 0"

abbrev demo_adapters : String
demo_adapters = "hca_id: mlx5_0\n\tstate:\t\tPORT_ACTIVE (4)\n"

abbrev demo_cmd : Commands
demo_cmd cmd argument =
    if argument == "-L"
    then some demo_gpus
    else if argument == "--show-temperature"
    then some demo_heat
    else if argument == "--count-ecc"
    then some demo_faults
    else some demo_adapters

abbrev demo_config : MetaX
demo_config = record {
  node_name = "node-7";
  hca_ids = "mlx5_0" ∷ [];
  gpu_num = pos 1;
  temperature = pos 85;
  ecc_max_count = pos 0;
  ntp_max_offset_millis = pos 10;
  day2_check_time = "10:00";
}

demo_passes : check naturals demo_cmd demo_config ≡ ok tt
unfolding check gpu_check parse_gpu_statuses gpu_statuses scan_lines split_lines limit_lines
    text_size drop_return fields_of is_space has_prefix insert gpu_status_count_check count_status
    temperature_check parse_hotspot_temperatures metric_lines metric_line trim_space trim_with
    trim_left trim_right after_colon trim_last read_digits hotspot_temperatures_exceeding_limit
    ecc_fault_page_check parse_gpu_integer_metric atoi atoi_digits double_bit_ecc_exceeding_limit
    hca_state_check parse_hca_states hca_lines hca_ids_without_state lookup
demo_passes = refl

check_iff_IsHealthy_example :
    (check naturals demo_cmd demo_config ≡ ok tt) ↔ IsHealthy naturals demo_cmd demo_config
check_iff_IsHealthy_example = check_iff_IsHealthy naturals demo_cmd demo_config

demo_cool : temperature_check naturals demo_cmd (pos 85) ≡ ok tt
unfolding scan_lines split_lines limit_lines text_size drop_return fields_of is_space has_prefix
    insert temperature_check parse_hotspot_temperatures metric_lines metric_line trim_space
    trim_with trim_left trim_right after_colon trim_last read_digits
    hotspot_temperatures_exceeding_limit
demo_cool = refl

demo_reading :
    last_reading "hotspot("
      (λ s. read_digits 0 (trim_space (trim_last b'C' (trim_space s))))
      "GPU#0"
      ""
      (scan_lines demo_heat)
    ≡ some 45
unfolding scan_lines split_lines limit_lines text_size drop_return fields_of is_space has_prefix
    trim_space trim_with trim_left trim_right after_colon trim_last read_digits
demo_reading = refl

temperature_check-last_reading_example : leb 85 45 ≡ false
temperature_check-last_reading_example =
    temperature_check-last_reading naturals demo_cmd (pos 85) demo_heat "GPU#0" 45 demo_cool refl
      demo_reading

next_check_time_bounds_example :
    (next : ℕ) × (next_check_time 36000000000001 (some 600) ≡ some next)
    × (36000000000001 < next)
    × (next ≤ 36000000000001 + day_ns)
    × (next % day_ns ≡ 600 * minute_ns)
    × (next_check_time (next + 5) (some 600) ≡ some (next + day_ns))
next_check_time_bounds_example =
    next_check_time_bounds 36000000000001 600 5 (omega arith) (omega arith)

abbrev demo_capacity : String → Result ApiError (List (String × ℤ))
demo_capacity node = ok (("metax-tech.com/gpu", pos 1) ∷ [])

demo_enabled : has_meta_x_gpu_capacity demo_capacity demo_config ≡ ok true
unfolding has_meta_x_gpu_capacity lookup
demo_enabled = refl

abbrev demo_text : CheckError → String
demo_text e = "failed"

day2_check_iff_IsHealthy_example :
    ((day2_check demo_text demo_config
          (has_meta_x_gpu_capacity demo_capacity demo_config)
          (check naturals demo_cmd demo_config)
        ≡ none)
      ↔ IsHealthy naturals demo_cmd demo_config)
    × (IsHealthy naturals demo_cmd demo_config
        ⊎ ((e : CheckError) × (check naturals demo_cmd demo_config ≡ err e)
            × (day2_check demo_text demo_config
                  (has_meta_x_gpu_capacity demo_capacity demo_config)
                  (check naturals demo_cmd demo_config)
                ≡ some (day2_event "node-7" (demo_text e)))))
day2_check_iff_IsHealthy_example =
    day2_check_iff_IsHealthy demo_text naturals demo_cmd demo_config demo_capacity demo_enabled
