-- ===== src/Preflight/Whole.antt =====
-- pkg/preflight: the aggregator with the parser that it calls.
use kcover.Shared.{ℕ, String, arith, ok, ◌%◌, ◌<◌, ◌≡◌}
use kcover.Preflight.Types.{Extracted}
use kcover.Preflight.Aggregator.WellFormed.{IsWellFormed}
use kcover.Preflight.Aggregator.Invariant.{add_report-IsWellFormed}
use kcover.Preflight.Json.{Runtime}
use kcover.Preflight.Aggregator.{SlowNodeAggregator, add_report_for_workload}
use kcover.Preflight.Parser.Pairs.{build_workload_plan_iff}
use kcover.Preflight.Extraction.{extract_node_report}
use kcover.Preflight.Extraction.Accepted.{extract_node_report-IsAccepted}

two_of_even : (n : ℕ) → 0 < n → n % 2 ≡ 0 → 1 < n
two_of_even n positive even = omega arith

module _ (rt : Runtime) where
  plan_of_two :
      (text : String) (x : Extracted) → extract_node_report rt text ≡ ok x → 1 < x.plan.report_count
  plan_of_two text x h =
      let accepted = extract_node_report-IsAccepted rt text x h in
      let (n, size, positive, small, even, plan) =
        (build_workload_plan_iff x.report.workload_size x.plan).0 accepted.planned in
      rw plan (two_of_even n positive even)

  -- Every call of AddReportForWorkload with the parser of reports keeps a well-formed state so, whatever
  -- the text and whatever becomes of it.
  pub parsed_report-IsWellFormed :
      (c : SlowNodeAggregator) (namespace uid name text : String) (now observed_at : ℕ)
      → IsWellFormed c
      → IsWellFormed
          (add_report_for_workload
            (extract_node_report rt)
            c
            namespace
            uid
            name
            text
            now
            observed_at).0
  parsed_report-IsWellFormed = add_report-IsWellFormed (extract_node_report rt) plan_of_two
