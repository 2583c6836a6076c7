-- ===== src/Recovery/Tracker.antt =====
-- pkg/recovery/preflight_tracker.go: the reports that the aggregator takes, and what became of one.
use kcover.Preflight.Aggregator.{
  AddOutcome, default_report_collection_timeout, expire_timed_out_workloads,
}
use kcover.Shared.{
  ℕ, Bool, List, Result, String, [], err, false, if◌then◌else◌, is_not_pos, ok, true, ℤ, ◌==◌, ◌||◌,
  text_eq, nat_eq, pos, none, some,
}
use kcover.Preflight.Aggregator.{
  AddError, AddOutcome, SlowNodeAggregator, add_report_for_workload, failed,
  new_slow_node_aggregator, ready,
}
use kcover.Api.{PreflightReport}
use kcover.Preflight.Types.{Extracted, ParseError, WorkloadTimeoutError}

pub record PreflightReportResult : Type 0 where
  pub workload_name : String
  pub slow_nodes : List String
  pub skipped : Bool
  pub waiting : Bool

pub record PreflightTracker : Type 0 where
  pub aggregator : SlowNodeAggregator

-- A collection timeout that is not positive gives the default of ten minutes.
unfoldable pub new_preflight_tracker : ℤ → PreflightTracker
new_preflight_tracker timeout = record {
  aggregator =
      new_slow_node_aggregator
        (if is_not_pos timeout then pos default_report_collection_timeout else timeout);
}

abbrev pub skipped_report : PreflightReportResult
skipped_report = record { workload_name = ""; slow_nodes = []; skipped = true; waiting = false }

abbrev pub result_of : String → AddOutcome → Result AddError PreflightReportResult
result_of workload (failed e) = err e
result_of workload AddOutcome.waiting =
    ok (record { workload_name = workload; slow_nodes = []; skipped = false; waiting = true })
result_of workload (ready slow) =
    ok (record { workload_name = workload; slow_nodes = slow; skipped = false; waiting = false })

module _ (extract : String → Result ParseError Extracted) where
  unfoldable pub handle_report :
      PreflightTracker
      → PreflightReport
      → ℕ
      → PreflightTracker × Result AddError PreflightReportResult
  handle_report s r now =
      if r.workload_name == "" || r.workload_uid == "" || r.observed_at == 0
      then (s, ok skipped_report)
      else (let (aggregator', outcome) =
            add_report_for_workload extract s.aggregator r.namespace r.workload_uid r.workload_name
              r.report now r.observed_at in
          (record { aggregator = aggregator' }, result_of r.workload_name outcome))

-- The errors only reach the log. The sweep is given enough turns, so that it has an outcome.
unfoldable pub sweep_expired : PreflightTracker → ℕ → PreflightTracker × List WorkloadTimeoutError
sweep_expired s now = elim (expire_timed_out_workloads s.aggregator now) [
  | none ↦ (s, [])
  | some (aggregator', errors) ↦ (record { aggregator = aggregator' }, errors)
]
