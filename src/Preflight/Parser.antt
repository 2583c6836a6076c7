-- ===== src/Preflight/Parser.antt =====
-- pkg/preflight/report_parser.go, preflight.go and skippedBatchIdentity: from the text of a report to
-- its plan and its batch results. Error texts are left out; an error is known by its kind.
pub mod Pairs
use kcover.Shared.{
  Bool, Option, Result, String, equal_fold, err, fail_if, false, if◌then◌else◌, int_lt, is_not_pos,
  ltb, min, mul64, none, not, ok, pos, pred_int, some, text_le, to_nat, true, ℕ, ℤ, ◌%◌, ◌&&◌, ◌-◌,
  ◌==◌, ◌||◌, text_eq, nat_eq, ◌>>=◌, ◌>>◌,
}
use kcover.Preflight.Json.{Fields, Items, Runtime, Value, get_field}
use kcover.Preflight.Types.{
  ParseError, Report, WorkloadPlan, bad_json, bad_number, bad_performance_fields, bad_self_ip,
  empty_node_name, missing_workload_size, not_an_integer, odd_workload_size, oversized,
  self_ip_not_in_pair,
}

abbrev pub max_batch_count : ℕ
max_batch_count = 5

abbrev pub max_workload_size : ℕ
max_workload_size = 10000

-- validateWorkloadSize; the remainder is taken of a positive number.
unfoldable pub validate_workload_size : ℤ → Result ParseError (Unit {0})
validate_workload_size size = do
  fail_if (is_not_pos size) missing_workload_size
  fail_if (ltb max_workload_size (to_nat size)) oversized
  fail_if (not (to_nat size % 2 == 0)) odd_workload_size
  ok tt

unfoldable pub build_workload_plan : ℤ → Result ParseError WorkloadPlan
build_workload_plan size = do
  validate_workload_size size
  ok (record { report_count = to_nat size; batch_count = min (to_nat size - 1) max_batch_count })

module _ (rt : Runtime) where
  open rt use {
    Float, of_int, to_int, is_whole, mul, div, lt, le, is_zero, parse_float, Address, parse_address,
    address_gt, decode_report, decode_payload,
  }

  -- What parseReport makes of a decoded text.
  abbrev pub named_report : Option Report → Result ParseError Report
  named_report none = err bad_json
  named_report (some report) = if report.node_name == "" then err empty_node_name else ok report

  unfoldable pub parse_report : String → Result ParseError Report
  parse_report text = named_report (decode_report text)

  unfoldable pub unmarshal_report_payload : String → Result ParseError (Fields Float)
  unmarshal_report_payload text = elim (decode_payload text) [
    | none ↦ err bad_json
    | some payload ↦ ok payload
  ]

  -- A decoded payload holds no json.Number.
  unfoldable pub float_field : Option (Value Float) → Result ParseError Float
  float_field (some (Value.num value)) = ok value
  float_field (some (Value.str text)) =
      if text == ""
      then err bad_number
      else elim (parse_float text) [ none ↦ err bad_number | some value ↦ ok value ]
  float_field _ = err bad_number

  unfoldable pub int_field : Option (Value Float) → Result ParseError ℤ
  unfolding float_field
  int_field v = do
    value ← float_field v
    fail_if (not (is_whole value)) not_an_integer
    ok (to_int value)

  unfoldable pub should_swap_pair : String → String → Bool
  should_swap_pair left right = elim (parse_address left) [
    | none ↦ not (text_le left right)
    | some l ↦ elim (parse_address right) [
      | none ↦ not (text_le left right)
      | some r ↦ address_gt l r
    ]
  ]

  unfoldable pub pair_field : Option (Value Float) → Option (String × String)
  pair_field (some (Value.arr (Items.cons (Value.str a) (Items.cons (Value.str b) Items.nil)))) =
      if a == "" || b == "" then none else some (if should_swap_pair a b then (b, a) else (a, b))
  pair_field _ = none

  -- The text of a field, empty where it is no text.
  abbrev pub text_or_empty : Option (Value Float) → String
  text_or_empty (some (Value.str s)) = s
  text_or_empty _ = ""

  -- The tests of batchSelfIP on the value that the key `self_ip` has.
  abbrev pub self_ip_in_pair :
      Option (Value Float) → String → String × String → Result ParseError String
  self_ip_in_pair none reporter_ip (first, second) =
      if not (first == reporter_ip) && not (second == reporter_ip)
      then err self_ip_not_in_pair
      else ok reporter_ip
  self_ip_in_pair (some raw) reporter_ip (first, second) =
      let self_ip = text_or_empty (some raw) in
      if self_ip == ""
      then err bad_self_ip
      else if not (first == self_ip) && not (second == self_ip)
      then err self_ip_not_in_pair
      else ok self_ip

  unfoldable pub batch_self_ip : Fields Float → String → String × String → Result ParseError String
  batch_self_ip batch reporter_ip pair =
      self_ip_in_pair (get_field "self_ip" batch) reporter_ip pair

  -- A skipped batch without a pair is an abnormal signal of its reporter alone.
  abbrev pub identity_with :
      Option (String × String)
      → Fields Float
      → String
      → Result ParseError ((String × String) × String)
  identity_with (some pair) batch reporter_ip = do
    self_ip ← batch_self_ip batch reporter_ip pair
    ok (pair, self_ip)
  identity_with none batch reporter_ip =
      let self_ip = text_or_empty (get_field "self_ip" batch) in
      if self_ip == "" then err bad_self_ip else ok ((self_ip, self_ip), self_ip)

  unfoldable pub skipped_batch_identity :
      Fields Float → String → Result ParseError ((String × String) × String)
  skipped_batch_identity batch reporter_ip =
      identity_with (pair_field (get_field "pair" batch)) batch reporter_ip

  -- busbw = (allreduce_shape × dtype_bytes / 1024^3) / (allreduce_ms / 1000) × 2 × (world_size - 1)
  -- / world_size; the product of the two integers is taken in 64 bits.
  unfoldable pub calculate_bus_bw : Float → ℤ → ℤ → ℤ → Float
  calculate_bus_bw ms shape dtype_bytes world_size =
      let payload = of_int (mul64 shape dtype_bytes) in
      let gib = of_int (pos 1073741824) in
      let algo = div (div payload gib) (div ms (of_int (pos 1000))) in
      div (mul (mul algo (of_int (pos 2))) (of_int (pred_int world_size))) (of_int world_size)

  batch_measured :
      Float
      → Result ParseError Float
      → Result ParseError ℤ
      → Result ParseError ℤ
      → Result ParseError ℤ
      → Result ParseError Bool
  unfolding calculate_bus_bw
  batch_measured threshold (ok ms) (ok shape) (ok bytes) (ok size) =
      if le ms (of_int (pos 0)) || is_not_pos shape || is_not_pos bytes || int_lt size (pos 2)
      then ok true
      else ok (lt (calculate_bus_bw ms shape bytes size) threshold)
  batch_measured threshold _ _ _ _ = err bad_performance_fields

  unfoldable pub batch_failed : Fields Float → Float → Result ParseError Bool
  unfolding batch_measured
  batch_failed batch threshold =
      let status = text_or_empty (get_field "status" batch) in
      if equal_fold status "fail"
      then ok true
      else if equal_fold status "skip"
      then ok true
      else if is_zero threshold
      then ok false
      else batch_measured threshold (float_field (get_field "allreduce_ms" batch))
          (int_field (get_field "allreduce_shape" batch))
          (int_field (get_field "dtype_bytes" batch)) (int_field (get_field "world_size" batch))
