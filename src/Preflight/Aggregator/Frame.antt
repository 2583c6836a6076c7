-- ===== src/Preflight/Aggregator/Frame.antt =====
-- What a report does not touch.
use kcover.Shared.{
  Bool-cases, arith, false, inl, inr, insert, lookup, lookup-delete, lookup-insert, ltb, ℕ, ◌-◌,
  ◌==◌, ◌∙◌, ◌≡◌,
}
use kcover.Preflight.Types.{Extracted, Workload, WorkloadKey, WorkloadPlan, workload_key_eq}
use kcover.Preflight.Aggregator.{
  SlowNodeAggregator, add_extracted, add_node_report, ensure_workload, join_workload, new_workload,
  observe, store_report, workload_for_report,
}
use kcover.Preflight.Aggregator.Invariant.{add_cases}

store_report_frame :
    (c : SlowNodeAggregator) (k j : WorkloadKey) (w : Workload) (x : Extracted)
    → (k == j) ≡ false
    → lookup j (store_report c k w x).0.workloads ≡ lookup j c.workloads
unfolding store_report
store_report_frame c k j w x h =
    let w' = add_node_report w x.report x.batch_results in
    ground (arith, lookup-insert k w' c.workloads j, lookup-delete k (insert k w' c.workloads) j)

found_frame :
    (c : SlowNodeAggregator) (k j : WorkloadKey) (plan : WorkloadPlan) (now observed_at : ℕ)
    → (k == j) ≡ false
    → lookup j (workload_for_report c k plan now observed_at).0.workloads ≡ lookup j c.workloads
unfolding workload_for_report ensure_workload
found_frame c k j plan now observed_at h =
    ground (arith, lookup-insert k (new_workload plan now observed_at) c.workloads j)

join_frame :
    (c : SlowNodeAggregator) (k j : WorkloadKey) (x : Extracted) (now observed_at : ℕ)
    → (k == j) ≡ false
    → lookup j (join_workload c k x now observed_at).0.workloads ≡ lookup j c.workloads
unfolding join_workload
join_frame c k j x now observed_at h =
    let (c', found) = workload_for_report c k x.plan now observed_at in
    let w = observe found now observed_at in
    elim (Bool-cases (ltb c'.timeout (w.last_observed_at - w.first_observed_at))) [
      | inl wide ↦
          let fresh = new_workload x.plan now observed_at in
          let w' = add_node_report fresh x.report x.batch_results in
          rw wide (
            unfold ensure_workload in
            ground (
              arith,
              lookup-insert k w' (insert k fresh c'.workloads) j,
              lookup-insert k fresh c'.workloads j,
              found_frame c k j x.plan now observed_at h,
            ))
      | inr narrow ↦
          rw narrow (store_report_frame c' k j w x h ∙ found_frame c k j x.plan now observed_at h)
    ]

-- A report of one workload leaves every other workload as it was, whatever the outcome.
pub add_extracted_frame :
    (c : SlowNodeAggregator) (k j : WorkloadKey) (x : Extracted) (now observed_at : ℕ)
    → (k == j) ≡ false
    → lookup j (add_extracted c k x now observed_at).0.workloads ≡ lookup j c.workloads
add_extracted_frame c k j x now observed_at h = elim (add_cases c k x now observed_at) [
  | inl joins ↦ rw joins (join_frame c k j x now observed_at h)
  | inr (w, at, late, e) ↦ rw e (ground (arith, lookup-delete k c.workloads j))
]
