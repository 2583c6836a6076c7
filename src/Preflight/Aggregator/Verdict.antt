-- ===== src/Preflight/Aggregator/Verdict.antt =====
-- When a workload is decided, and from which of the reports that came.
use kcover.Shared.{
  ==_refl, Bool-cases, Distinct, List, String, arith, inl, inr, keys, length, lookup, lookup-delete,
  ltb, none, refl, subst, ℕ, ◌++◌, ◌-◌, ◌+◌, ◌∙◌, ◌≡◌, ◌≤◌, ◌∷◌, text_eq,
}
use kcover.Preflight.Types.{Workload, WorkloadKey, WorkloadPlan, workload_key_eq}
use kcover.Preflight.Aggregator.{
  SlowNodeAggregator, add_extracted, add_node_report, join_workload, observe, put_workload, ready,
  store_report, workload_for_report,
}
use kcover.Preflight.Detection.{detect_slow_nodes}
use kcover.Preflight.Aggregator.Collection.{Arrival, Together}
use kcover.Preflight.Aggregator.Invariant.{add_cases}
use kcover.Preflight.Aggregator.History.{
  Backed, Holds, Together-of_Observed, add-Holds, after_arrivals, after_arrivals-IsBacked,
  found-Joins, latest_reports, latest_reports-Distinct, plan_of, store_cases,
}
use kcover.Events.Delivery.{arrivals}

-- A verdict on the reports of some arrivals of one plan: from as many nodes as the plan expects, one
-- to a node, and observed within one timeout.
pub record IsVerdict (timeout : ℕ) (plan : WorkloadPlan) (arrivals : List Arrival)
    (names : List String) : Type 0 where
  pub enough : plan.report_count ≤ length (latest_reports arrivals)
  pub distinct : Distinct (keys (latest_reports arrivals))
  pub start : ℕ
  pub together : Together plan start timeout arrivals
  pub decided : names ≡ detect_slow_nodes (latest_reports arrivals) plan.batch_count

stored-IsVerdict :
    (timeout : ℕ) (plan : WorkloadPlan) (w : Workload) (arrivals : List Arrival)
    → plan ≡ plan_of w
    → Holds arrivals w
    → w.expected_report_count ≤ length w.node_reports
    → w.last_observed_at ≤ w.first_observed_at + timeout
    → IsVerdict timeout plan arrivals (detect_slow_nodes w.node_reports w.expected_batch_count)
stored-IsVerdict timeout plan w arrivals planned held full near =
    rw (planned, held.reports)
      (record {
        enough = rw held.reports at full;
        distinct = latest_reports-Distinct arrivals;
        start = w.first_observed_at;
        together =
            Together-of_Observed (plan_of w) w.first_observed_at w.last_observed_at timeout arrivals
              near held.observed;
        decided = refl;
      })

join_ready :
    (c : SlowNodeAggregator) (k : WorkloadKey) (a : Arrival) (earlier : List Arrival)
    (names : List String)
    → Backed (lookup k c.workloads) earlier
    → (join_workload c k a.content a.now a.observed_at).1 ≡ ready names
    → (lookup k (join_workload c k a.content a.now a.observed_at).0.workloads ≡ none)
      × ((recent : List Arrival) × (older : List Arrival) × (earlier ≡ recent ++ older)
          × IsVerdict c.timeout a.content.plan (a ∷ recent) names)
unfolding join_workload
join_ready c k a earlier names b h =
    let x = a.content in
    let (c', found) = workload_for_report c k x.plan a.now a.observed_at in
    let j = found-Joins c k x.plan a.now a.observed_at earlier b in
    let w = observe found a.now a.observed_at in
    let w' = add_node_report w x.report x.batch_results in
    elim (Bool-cases (ltb c'.timeout (w.last_observed_at - w.first_observed_at))) [
      | inl wide ↦ absurd (ground arith)
      | inr narrow ↦ elim (store_cases c' k w x) [
        | inl (less, e) ↦ absurd (ground arith)
        | inr (full, e) ↦
            let stored : (store_report c' k w x).1 ≡ ready names = rw narrow at h in
            let same : detect_slow_nodes w'.node_reports w'.expected_batch_count ≡ names =
              ground arith in
            let verdict =
              stored-IsVerdict c.timeout x.plan w' (a ∷ j.recent)
                (j.planned ∙ unfold observe add_node_report in refl)
                (add-Holds j.recent found a j.planned j.held) full
                (unfold add_node_report in ground (arith, j.same_timeout)) in
            (
              rw (narrow, e)
                  (ground (arith, lookup-delete k (put_workload c' k w').workloads k, ==_refl k)),
              (
                j.recent,
                j.older,
                j.split,
                subst (IsVerdict c.timeout x.plan (a ∷ j.recent)) same verdict,
              ),
            )
      ]
    ]

-- Whatever reports of a workload have come since it was not known, with whatever outcomes: if one more
-- makes the workload ready, the workload is forgotten, and the result is what detectSlowNodes says
-- of this report and some of those directly before it, by the number of batches of its plan. They
-- all have this plan, were all observed within one timeout, and are, with the latest for each node,
-- from as many nodes as the plan expects.
pub ready-IsVerdict :
    (c : SlowNodeAggregator) (k : WorkloadKey) (earlier : List Arrival) (a : Arrival)
    (names : List String)
    → lookup k c.workloads ≡ none
    → (add_extracted (after_arrivals c k earlier) k a.content a.now a.observed_at).1 ≡ ready names
    → (lookup k
          (add_extracted (after_arrivals c k earlier) k a.content a.now a.observed_at).0.workloads
        ≡ none)
      × ((recent : List Arrival) × (older : List Arrival) × (earlier ≡ recent ++ older)
          × IsVerdict c.timeout a.content.plan (a ∷ recent) names)
ready-IsVerdict c k earlier a names absent h =
    let c' = after_arrivals c k earlier in
    let (same, b) = after_arrivals-IsBacked c k earlier absent in
    elim (add_cases c' k a.content a.now a.observed_at) [
      | inl joins ↦
          let (gone, (recent, older, split, verdict)) =
            join_ready c' k a earlier names b (rw joins at h) in
          (
            rw joins gone,
            (
              recent,
              older,
              split,
              subst (λ t. IsVerdict t a.content.plan (a ∷ recent) names) same verdict,
            ),
          )
      | inr (w, at, late, e) ↦ absurd (ground arith)
    ]
