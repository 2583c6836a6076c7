-- ===== src/Preflight/Extraction.antt =====
-- pkg/preflight/report_parser.go, extractNodeReport and what it calls on the batches: every batch
-- with an index below the plan's batch count becomes one result, in the order of the indexes.
mod Sound
pub mod Accepted
use kcover.Shared.{
  Option, Result, String, ℕ, List, ◌>>=◌, ◌>>◌, fail_if, [], contains, equal_fold, err, false,
  if◌then◌else◌, insert, int_beq, is_neg, keys, lookup, ltb, map, none, not, ok, or_default, pos,
  some, sort, to_nat, trim_space, ◌==◌, ◌||◌, text_eq, nat_eq, nat_order, true, Bool,
}
use kcover.Preflight.Json.{Fields, Items, Runtime, Value, get_field}
use kcover.Preflight.Types.{
  ParseError, Report, WorkloadPlan, BatchResult, Extracted, bad_batch_idx, bad_batch_payload,
  bad_pair, bad_threshold, batch_idx_out_of_range, check_result_fail, duplicate_batch_idx,
}
use kcover.Preflight.Parser.{
  batch_failed, batch_self_ip, build_workload_plan, int_field, pair_field, parse_report,
  skipped_batch_identity, text_or_empty, unmarshal_report_payload,
}
use kcover.Preflight.Detection.Batches.{has_failed}

module _ (rt : Runtime) where
  open rt use {Float, of_int, is_zero, lt, parse_float}

  -- The index of a batch, an error where it is negative.
  unfoldable pub raw_batch_idx : Fields Float → Result ParseError ℕ
  raw_batch_idx batch = do
    raw ← elim (int_field rt (get_field "batch_idx" batch)) [
      | ok i ↦ ok i
      | err e ↦ err bad_batch_idx
    ]
    fail_if (is_neg raw) batch_idx_out_of_range
    ok (to_nat raw)

  -- The identity of a batch that was run: its pair must be there.
  abbrev pub run_identity :
      Option (String × String)
      → Fields Float
      → String
      → Result ParseError ((String × String) × String)
  run_identity none batch reporter_ip = err bad_pair
  run_identity (some pair) batch reporter_ip = do
    self_ip ← batch_self_ip rt batch reporter_ip pair
    ok (pair, self_ip)

  unfoldable pub batch_identity :
      Fields Float → String → Result ParseError ((String × String) × String)
  batch_identity batch reporter_ip =
      if equal_fold (text_or_empty rt (get_field "status" batch)) "skip"
      then skipped_batch_identity rt batch reporter_ip
      else run_identity (pair_field rt (get_field "pair" batch)) batch reporter_ip

  unfoldable pub extract_batch_result :
      Value Float → String → ℕ → Float → Result ParseError BatchResult
  unfolding raw_batch_idx batch_identity
  extract_batch_result (Value.obj batch) reporter_ip batch_count threshold = do
    idx ← raw_batch_idx batch
    fail_if (not (ltb idx batch_count)) batch_idx_out_of_range
    identity ← batch_identity batch reporter_ip
    has_failed ← batch_failed rt batch threshold
    ok (record {
      batch_idx = idx;
      pair_first = identity.0.0;
      pair_second = identity.0.1;
      self_ip = identity.1;
      failed = has_failed;
    })
  extract_batch_result _ reporter_ip batch_count threshold = err bad_batch_payload

  -- What one turn of the loop of extractBatchResults does with a batch that is one of the plan's.
  abbrev pub store_if :
      Bool
      → Value Float
      → String
      → ℕ
      → Float
      → List (ℕ × BatchResult)
      → Result ParseError (List (ℕ × BatchResult))
  store_if false item reporter_ip batch_count threshold m = ok m
  store_if true item reporter_ip batch_count threshold m = do
    result ← extract_batch_result item reporter_ip batch_count threshold
    fail_if (contains (keys m) result.batch_idx) duplicate_batch_idx
    ok (insert result.batch_idx result m)

  -- One turn of the loop of extractBatchResults on the map made so far.
  unfoldable pub extract_item :
      Value Float
      → String
      → ℕ
      → Float
      → List (ℕ × BatchResult)
      → Result ParseError (List (ℕ × BatchResult))
  unfolding raw_batch_idx
  extract_item (Value.obj batch) reporter_ip batch_count threshold m = do
    idx ← raw_batch_idx batch
    store_if (ltb idx batch_count) (Value.obj batch) reporter_ip batch_count threshold m
  extract_item _ reporter_ip batch_count threshold m = err bad_batch_payload

  unfoldable pub extract_items :
      Items Float
      → String
      → ℕ
      → Float
      → List (ℕ × BatchResult)
      → Result ParseError (List (ℕ × BatchResult))
  extract_items Items.nil reporter_ip batch_count threshold m = ok m
  extract_items (Items.cons item rest) reporter_ip batch_count threshold m = do
    next ← extract_item item reporter_ip batch_count threshold m
    extract_items rest reporter_ip batch_count threshold next

  -- `payload["batches"].([]any)`, empty where the type is another one.
  abbrev pub batches_of : Option (Value Float) → Items Float
  batches_of (some (Value.arr items)) = items
  batches_of _ = Items.nil

  unfoldable pub extract_batch_results :
      Fields Float → Report → WorkloadPlan → Float → Result ParseError (List (ℕ × BatchResult))
  extract_batch_results payload report plan threshold =
      extract_items (batches_of (get_field "batches" payload)) report.node_ip plan.batch_count
        threshold []

  abbrev pub threshold_text : String → Result ParseError Float
  threshold_text text = if text == "" then ok (of_int (pos 0)) else elim (parse_float text) [
    | none ↦ err bad_threshold
    | some value ↦ if lt value (of_int (pos 0)) then err bad_threshold else ok value
  ]

  -- The threshold that the value of its key says.
  abbrev pub threshold_of : Option (Value Float) → Result ParseError Float
  threshold_of none = ok (of_int (pos 0))
  threshold_of (some (Value.str text)) = threshold_text (trim_space text)
  threshold_of (some _) = err bad_threshold

  unfoldable pub extract_bus_bw_threshold : Fields Float → Result ParseError Float
  extract_bus_bw_threshold payload =
      threshold_of (get_field "node_check_busbw_threshold_gbps" payload)

-- The zero value of batchResult, which Go reads at a missing key.
abbrev pub zero_batch_result : BatchResult
zero_batch_result = record {
  batch_idx = 0;
  pair_first = "";
  pair_second = "";
  self_ip = "";
  failed = false;
}

unfoldable pub ordered_batch_results : List (ℕ × BatchResult) → List BatchResult
ordered_batch_results m = map (λ idx. or_default zero_batch_result (lookup idx m)) (sort (keys m))

abbrev pub any_check_failed : Report → Bool
any_check_failed r =
    int_beq r.gpu_check check_result_fail || int_beq r.storage_check check_result_fail

module _ (rt : Runtime) where
  -- The rest of extractNodeReport; the first argument says whether a check failed.
  abbrev pub extract_rest : Bool → String → Report → WorkloadPlan → Result ParseError Extracted
  extract_rest true text r p = ok (record { report = r; plan = p; batch_results = [] })
  extract_rest false text r p = do
    payload ← unmarshal_report_payload rt text
    threshold ← extract_bus_bw_threshold rt payload
    m ← extract_batch_results rt payload r p threshold
    ok (record { report = r; plan = p; batch_results = ordered_batch_results m })

  unfoldable pub extract_node_report : String → Result ParseError Extracted
  extract_node_report text = do
    r ← parse_report rt text
    p ← build_workload_plan r.workload_size
    extract_rest (any_check_failed r) text r p
