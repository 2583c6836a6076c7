-- ===== src/Preflight/Aggregator/Timeouts.antt =====
-- What the timeout error of a report says, against the reports that came.
use kcover.Shared.{
  Distinct, List, String, [], contains, length, map, ◌∷◌, ◌≡◌, text_eq, text_order, ℕ,
}
use kcover.Preflight.Types.{WorkloadKey, WorkloadTimeoutError, workload_key_eq}
use kcover.Preflight.Aggregator.Collection.{Arrival}
use kcover.Events.Delivery.{arrivals, count}

abbrev pub reporters : List Arrival → List String
reporters arrivals = map (λ a. a.content.report.node_name) arrivals

-- Each of the reports expects this many.
abbrev pub Expecting : ℕ → List Arrival → Type 0
Expecting count [] = Unit
Expecting count (a ∷ earlier) = (a.content.plan.report_count ≡ count) × Expecting count earlier

-- The error tells of these reports: the nodes that sent them, each once, with their number, and the
-- number that all of them expect.
pub record Tells (timeout : ℕ) (k : WorkloadKey) (arrivals : List Arrival)
    (e : WorkloadTimeoutError) : Type 0 where
  pub workload :
      (e.namespace ≡ k.namespace)
      × (e.workload_uid ≡ k.workload_uid)
      × (e.workload_name ≡ k.workload_name)
  pub names : (n : String) → contains e.reported_nodes n ≡ contains (reporters arrivals) n
  pub once : Distinct e.reported_nodes
  pub received : e.received_reports ≡ length e.reported_nodes
  pub expected : Expecting e.expected_reports arrivals
  pub within : e.timeout ≡ timeout
