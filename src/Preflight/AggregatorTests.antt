-- ===== src/Preflight/AggregatorTests.antt =====
-- The aggregator on a workload of two nodes.
use kcover.Preflight.Aggregator.Collection.{Arrival, collection_completes, entry_of, feed}
use kcover.Preflight.Types.{
  BatchResult, Extracted, ParseError, Report, Workload, WorkloadKey, WorkloadPlan, bad_json,
  check_result_pass, workload_key_eq, WorkloadTimeoutError,
}
use kcover.Preflight.Aggregator.Verdict.{IsVerdict, ready-IsVerdict}
use kcover.Preflight.Aggregator.WellFormed.{IsWellFormed, IsCollecting}
use kcover.Preflight.Aggregator.Invariant.{add_report-IsWellFormed}
use kcover.Preflight.ParserTests.{demo}
use kcover.Shared.{
  List, Result, String, [], arith, err, if◌then◌else◌, insert, lookup, map, none, ok, pos, refl,
  true, text_order, ◌++◌, ◌<◌, ◌==◌, ◌∷◌, ◌≡◌, text_eq, eq_iff, subst,
}
use kcover.Preflight.Aggregator.{
  SlowNodeAggregator, failed, add_extracted, add_node_report, add_report_for_workload,
  ensure_workload, expire_timed_out_workloads, expire_workload_if_timed_out, is_same_plan,
  is_timed_out, join_workload, observe, ready, store_report, waiting, workload_for_report,
  node_report,
}
use kcover.Preflight.Aggregator.Sweep.{Swept, sweep-Swept}
use kcover.Preflight.Aggregator.Frame.{add_extracted_frame}
use kcover.Preflight.Aggregator.History.{after_arrivals}
use kcover.Preflight.Detection.{detect_slow_nodes}
use kcover.Preflight.Extraction.{extract_node_report}
use kcover.Preflight.Whole.{parsed_report-IsWellFormed}

abbrev job : WorkloadKey
job = record { namespace = "ml"; workload_uid = "u1"; workload_name = "train" }

abbrev other_job : WorkloadKey
other_job = record { namespace = "ml"; workload_uid = "u2"; workload_name = "eval" }

abbrev idle : SlowNodeAggregator
idle = record { workloads = []; timeout = 100 }

abbrev pair_plan : WorkloadPlan
pair_plan = record { report_count = 2; batch_count = 1 }

abbrev report_of : String → String → Report
report_of name ip = record {
  version = pos 1;
  workload = "train";
  workload_size = pos 2;
  rank = pos 0;
  node_name = name;
  node_ip = ip;
  gpu_check = check_result_pass;
  storage_check = check_result_pass;
}

abbrev failed_pair : String → List BatchResult
failed_pair ip =
    record { batch_idx = 0; pair_first = "1"; pair_second = "2"; self_ip = ip; failed = true } ∷ []

abbrev sent : String → String → Extracted
sent name ip = record {
  report = report_of name ip;
  plan = pair_plan;
  batch_results = failed_pair ip;
}

abbrev first_arrival : Arrival
first_arrival = record { content = sent "a" "1"; now = 1000; observed_at = 990 }

abbrev second_arrival : Arrival
second_arrival = record { content = sent "b" "2"; now = 1050; observed_at = 1030 }

collection_completes_example :
    (feed idle job (first_arrival ∷ second_arrival ∷ [])).1
    ≡ waiting
      ∷ ready (detect_slow_nodes (map entry_of (first_arrival ∷ second_arrival ∷ [])) 1)
      ∷ []
unfolding lookup
collection_completes_example =
    collection_completes first_arrival (second_arrival ∷ []) idle job pair_plan 990 refl
      (omega arith, tt) (refl, omega arith, omega arith, (refl, omega arith, omega arith, tt))
      (refl, (refl, tt)) refl

-- One report is stored.
abbrev half_workload : Workload
half_workload = record {
  expected_report_count = 2;
  expected_batch_count = 1;
  node_reports = entry_of first_arrival ∷ [];
  last_report_at = 1000;
  first_observed_at = 990;
  last_observed_at = 990;
}

abbrev half : SlowNodeAggregator
half = record { workloads = (job, half_workload) ∷ []; timeout = 100 }

half-IsCollecting : IsCollecting 100 half_workload
unfolding lookup node_report
half-IsCollecting = record {
  distinct = (refl, tt);
  incomplete = omega arith;
  ordered = omega arith;
  in_window = omega arith;
  own_names = λ n r at. ground (arith, eq_iff "a" n);
}

half-IsWellFormed : IsWellFormed half
unfolding lookup
half-IsWellFormed = record {
  distinct = (refl, tt);
  each = λ k w at. subst (IsCollecting 100) (ground arith) half-IsCollecting;
}

demo_ready :
    (add_extracted
      (after_arrivals idle job (first_arrival ∷ []))
      job
      second_arrival.content
      second_arrival.now
      second_arrival.observed_at).1
    ≡ ready (detect_slow_nodes (map entry_of (first_arrival ∷ second_arrival ∷ [])) 1)
unfolding after_arrivals add_extracted expire_workload_if_timed_out is_timed_out join_workload
    workload_for_report ensure_workload is_same_plan observe store_report add_node_report lookup
    insert
demo_ready = refl

ready-IsVerdict_example :
    (lookup job
        (add_extracted
          (after_arrivals idle job (first_arrival ∷ []))
          job
          second_arrival.content
          second_arrival.now
          second_arrival.observed_at).0.workloads
      ≡ none)
    × ((recent : List Arrival) × (older : List Arrival) × (first_arrival ∷ [] ≡ recent ++ older)
        × IsVerdict 100 pair_plan
            (second_arrival ∷ recent)
            (detect_slow_nodes (map entry_of (first_arrival ∷ second_arrival ∷ [])) 1))
unfolding lookup
ready-IsVerdict_example =
    ready-IsVerdict idle job (first_arrival ∷ []) second_arrival
      (detect_slow_nodes (map entry_of (first_arrival ∷ second_arrival ∷ [])) 1) refl demo_ready

-- The second report comes too late.
abbrev late_arrival : Arrival
late_arrival = record { content = sent "b" "2"; now = 1200; observed_at = 1030 }

abbrev demo_timeout : WorkloadTimeoutError
demo_timeout = record {
  namespace = "ml";
  workload_uid = "u1";
  workload_name = "train";
  reported_nodes = "a" ∷ [];
  received_reports = 1;
  expected_reports = 2;
  timeout = 100;
}

-- A parser that knows one text.
known_text : String → Result ParseError Extracted
known_text text = if text == "b" then ok (sent "b" "2") else err bad_json

known_plans : (text : String) (x : Extracted) → known_text text ≡ ok x → 1 < x.plan.report_count
unfolding known_text
known_plans text x h = ground arith

add_report-IsWellFormed_example :
    IsWellFormed (add_report_for_workload known_text half "ml" "u1" "train" "b" 1050 1030).0
add_report-IsWellFormed_example =
    add_report-IsWellFormed known_text known_plans half "ml" "u1" "train" "b" 1050 1030
      half-IsWellFormed

add_extracted_frame_example :
    lookup job (add_extracted half other_job (sent "b" "2") 1050 1030).0.workloads
    ≡ lookup job half.workloads
add_extracted_frame_example = add_extracted_frame half other_job job (sent "b" "2") 1050 1030 refl

sweep-Swept_example : Swept half 1200 0 (expire_timed_out_workloads half 1200)
sweep-Swept_example = sweep-Swept half 1200 (refl, tt)

parsed_report-IsWellFormed_example :
    IsWellFormed
      (add_report_for_workload (extract_node_report demo) half "ml" "u1" "train" "{}" 1050 1030).0
parsed_report-IsWellFormed_example =
    parsed_report-IsWellFormed demo half "ml" "u1" "train" "{}" 1050 1030 half-IsWellFormed
