-- ===== src/Preflight/ParserTests.antt =====
-- extractNodeReport on one text, with numbers of Go's runtime that are natural.
use kcover.Shared.{
  ◌≡◌, Bool, Option, String, [], arith, false, if◌then◌else◌, leb, ltb, min, none, ok, pos, refl,
  some, to_nat, true, ℕ, ◌%◌, ◌*◌, ◌-◌, ◌/◌, ◌<◌, ◌==◌, ◌||◌, ◌↔◌, ◌∷◌, ◌≤◌, text_eq, nat_eq,
  equal_fold, fold_code, insert, is_space, lookup, mul64, sort, text_le, trim_space, trim_with,
}
use kcover.Preflight.Types.{BatchResult, Extracted, Report, check_result_pass, WorkloadPlan}
use kcover.Preflight.Json.{Fields, Items, Runtime, Value, get_field}
use kcover.Preflight.Extraction.Accepted.{IsAccepted, extract_node_report-IsAccepted}
use kcover.Preflight.Parser.{
  build_workload_plan, pair_field, batch_failed, batch_self_ip, calculate_bus_bw, float_field,
  int_field, parse_report, should_swap_pair, skipped_batch_identity, unmarshal_report_payload,
  validate_workload_size,
}
use kcover.Preflight.Parser.Pairs.{build_workload_plan_iff, pair_field_comm, pair_value}
use kcover.Preflight.Extraction.{
  extract_node_report, batch_identity, extract_batch_result, extract_batch_results,
  extract_bus_bw_threshold, extract_item, extract_items, ordered_batch_results, raw_batch_idx,
}

abbrev pub demo_report : Report
demo_report = record {
  version = pos 1;
  workload = "demo";
  workload_size = pos 4;
  rank = pos 0;
  node_name = "node-7";
  node_ip = "7";
  gpu_check = check_result_pass;
  storage_check = check_result_pass;
}

-- One batch: its index, the pair, and the status of the run.
abbrev pub demo_batch : ℕ → String → String → String → Value ℕ
demo_batch i a b status = Value.obj (
    Fields.field "batch_idx" (Value.num i) (
      Fields.field "pair"
        (Value.arr (Items.cons (Value.str a) (Items.cons (Value.str b) Items.nil)))
        (Fields.field "status" (Value.str status) Fields.end)))

-- The second index comes first, and one index is beyond the plan.
abbrev pub demo_payload : Fields ℕ
demo_payload =
    Fields.field "batches"
      (Value.arr (
        Items.cons (demo_batch 1 "9" "7" "fail") (
          Items.cons (demo_batch 0 "7" "8" "ok")
            (Items.cons (demo_batch 8 "1" "2" "ok") Items.nil))))
      Fields.end

abbrev is_node : String → Bool
is_node s = s == "7" || s == "8" || s == "9"

abbrev pub demo_address : String → Option ℕ
demo_address s =
    if s == "7" then some 7 else if s == "8" then some 8 else if s == "9" then some 9 else none

abbrev pub demo : Runtime
demo = record {
  Float = ℕ;
  of_int = to_nat;
  to_int = λ x. pos x;
  is_whole = λ x. true;
  mul = λ a b. a * b;
  div = λ a b. a / b;
  lt = ltb;
  le = leb;
  is_zero = λ x. x == 0;
  parse_float = λ s. none;
  Address = ℕ;
  parse_address = demo_address;
  address_gt = λ a b. ltb b a;
  decode_report = λ s. some demo_report;
  decode_payload = λ s. some demo_payload;
}

abbrev demo_result : ℕ → String → String → Bool → BatchResult
demo_result i a b f = record {
  batch_idx = i;
  pair_first = a;
  pair_second = b;
  self_ip = "7";
  failed = f;
}

abbrev pub demo_extracted : Extracted
demo_extracted = record {
  report = demo_report;
  plan = record { report_count = 4; batch_count = 3 };
  batch_results = demo_result 0 "7" "8" false ∷ demo_result 1 "7" "9" true ∷ [];
}

-- The results are in the order of their indexes, and the index beyond the plan is passed over.
demo_accepted : extract_node_report demo "{}" ≡ ok demo_extracted
unfolding extract_node_report parse_report build_workload_plan validate_workload_size
    unmarshal_report_payload extract_bus_bw_threshold get_field extract_batch_results extract_items
    extract_item int_field extract_batch_result equal_fold pair_field batch_self_ip should_swap_pair
    batch_failed insert batch_identity ordered_batch_results raw_batch_idx calculate_bus_bw
    float_field skipped_batch_identity lookup mul64 text_le sort fold_code is_space trim_space
    trim_with
demo_accepted = refl

extract_node_report-IsAccepted_example : IsAccepted demo_extracted
extract_node_report-IsAccepted_example =
    extract_node_report-IsAccepted demo "{}" demo_extracted demo_accepted

gt_asym : (x y : ℕ) → ltb y x ≡ true → ltb x y ≡ false
gt_asym x y h = ground arith

gt_total : (x y : ℕ) → ltb y x ≡ false → ltb x y ≡ false → x ≡ y
gt_total x y h k = ground arith

abbrev nine : String
nine = "9"

abbrev seven : String
seven = "7"

same_spelling : (x : ℕ) → demo_address nine ≡ some x → demo_address seven ≡ some x → nine ≡ seven
same_spelling x h k = cc

pair_field_comm_example :
    pair_field demo (pair_value demo nine seven) ≡ pair_field demo (pair_value demo seven nine)
pair_field_comm_example = pair_field_comm demo gt_asym gt_total nine seven same_spelling

abbrev six_plan : WorkloadPlan
six_plan = record { report_count = 6; batch_count = 5 }

abbrev plan_of : ℕ → WorkloadPlan
plan_of n = record { report_count = n; batch_count = min (n - 1) 5 }

build_workload_plan_iff_example :
    (build_workload_plan (pos 6) ≡ ok six_plan)
    ↔ ((n : ℕ) × (pos 6 ≡ pos n) × (0 < n) × (n ≤ 10000) × (n % 2 ≡ 0) × (six_plan ≡ plan_of n))
build_workload_plan_iff_example = build_workload_plan_iff (pos 6) six_plan
