-- ===== src/Preflight/Aggregator/WellFormed.antt =====
-- What is meant by a well-formed state, and that the parts of a call keep it.
use kcover.Preflight.Types.{
  BatchResult, Extracted, NodeReport, Report, Workload, WorkloadKey, WorkloadPlan, workload_key_eq,
}
use kcover.Shared.{
  Bool-cases, Distinct, List, String, arith, delete-Distinct, eq_iff, inl, inr, insert-Distinct,
  keys, length, lookup, lookup-delete, lookup-insert, ltb, some, subst, ℕ, ◌+◌, ◌<◌, ◌==◌, ◌≡◌, ◌≤◌,
  text_eq, insert, nat_eq,
}
use kcover.Preflight.Aggregator.{
  SlowNodeAggregator, add_node_report, drop_workload, new_workload, node_report, observe,
  put_workload, store_report,
}

-- A stored workload waits for reports, has each under the name of its node, and its reports were
-- observed within one timeout.
pub record IsCollecting (timeout : ℕ) (w : Workload) : Type 0 where
  pub distinct : Distinct (keys w.node_reports)
  pub incomplete : length w.node_reports < w.expected_report_count
  pub ordered : w.first_observed_at ≤ w.last_observed_at
  pub in_window : w.last_observed_at ≤ w.first_observed_at + timeout
  pub own_names : (n : String) (r : NodeReport) → lookup n w.node_reports ≡ some r → r.node_name ≡ n

pub record IsWellFormed (c : SlowNodeAggregator) : Type 0 where
  pub distinct : Distinct (keys c.workloads)
  pub each :
      (k : WorkloadKey) (w : Workload) → lookup k c.workloads ≡ some w → IsCollecting c.timeout w

pub put_workload-IsWellFormed :
    (c : SlowNodeAggregator) (k : WorkloadKey) (w : Workload)
    → IsWellFormed c
    → IsCollecting c.timeout w
    → IsWellFormed (put_workload c k w)
put_workload-IsWellFormed c k w v h = record {
  distinct = insert-Distinct k w c.workloads v.distinct;
  each = λ j x at. elim (Bool-cases (k == j)) [
    | inl same ↦
        let e : w ≡ x = ground (arith, lookup-insert k w c.workloads j) in
        subst (IsCollecting c.timeout) e h
    | inr apart ↦ v.each j x (ground (arith, lookup-insert k w c.workloads j))
  ];
}

pub drop_workload-IsWellFormed :
    (c : SlowNodeAggregator) (k : WorkloadKey) → IsWellFormed c → IsWellFormed (drop_workload c k)
drop_workload-IsWellFormed c k v = record {
  distinct = delete-Distinct k c.workloads v.distinct;
  each = λ j x at. v.each j x (ground (arith, lookup-delete k c.workloads j));
}

-- A complete workload is stored for a moment only.
pub complete_workload-IsWellFormed :
    (c : SlowNodeAggregator) (k : WorkloadKey) (w : Workload)
    → IsWellFormed c
    → IsWellFormed (drop_workload (put_workload c k w) k)
complete_workload-IsWellFormed c k w v = record {
  distinct =
      delete-Distinct k (insert k w c.workloads) (insert-Distinct k w c.workloads v.distinct);
  each = λ j x at.
      v.each j x (
        ground
          (arith, lookup-delete k (insert k w c.workloads) j, lookup-insert k w c.workloads j));
}

-- The stored reports of a workload, and its window.
pub record HasReports (w : Workload) : Type 0 where
  pub distinct : Distinct (keys w.node_reports)
  pub own_names : (n : String) (r : NodeReport) → lookup n w.node_reports ≡ some r → r.node_name ≡ n

pub add_node_report-HasReports :
    (w : Workload) (r : Report) (rs : List BatchResult)
    → HasReports w
    → HasReports (add_node_report w r rs)
unfolding add_node_report node_report
add_node_report-HasReports w r rs h = record {
  distinct = insert-Distinct r.node_name (node_report r rs) w.node_reports h.distinct;
  own_names = λ n x at. ground (
    arith,
    lookup-insert r.node_name (node_report r rs) w.node_reports n,
    eq_iff r.node_name n,
    h.own_names n x,
  );
}

pub HasReports-observe :
    (w : Workload) (now observed_at : ℕ) → HasReports w → HasReports (observe w now observed_at)
unfolding observe
HasReports-observe w now observed_at h = record { distinct = h.distinct; own_names = h.own_names }

pub observe_ordered :
    (w : Workload) (now observed_at : ℕ)
    → w.first_observed_at ≤ w.last_observed_at
    → (observe w now observed_at).first_observed_at ≤ (observe w now observed_at).last_observed_at
unfolding observe
observe_ordered w now observed_at h = ground arith

pub new_workload-HasReports :
    (plan : WorkloadPlan) (now observed_at : ℕ) → HasReports (new_workload plan now observed_at)
unfolding lookup
new_workload-HasReports plan now observed_at = record {
  distinct = tt;
  own_names = λ n r at. absurd (cc);
}

pub store_report-IsWellFormed :
    (c : SlowNodeAggregator) (k : WorkloadKey) (w : Workload) (x : Extracted)
    → IsWellFormed c
    → HasReports w
    → w.first_observed_at ≤ w.last_observed_at
    → w.last_observed_at ≤ w.first_observed_at + c.timeout
    → IsWellFormed (store_report c k w x).0
unfolding store_report
store_report-IsWellFormed c k w x v h o i =
    let w' = add_node_report w x.report x.batch_results in
    let h' = add_node_report-HasReports w x.report x.batch_results h in
    elim (Bool-cases (ltb (length w'.node_reports) w'.expected_report_count)) [
      | inl less ↦ rw less (
          put_workload-IsWellFormed c k w' v (record {
            distinct = h'.distinct;
            incomplete = ground arith;
            ordered = unfold add_node_report in o;
            in_window = unfold add_node_report in i;
            own_names = h'.own_names;
          }))
      | inr full ↦ rw full (complete_workload-IsWellFormed c k w' v)
    ]

pub HasReports-of_IsCollecting : {t : ℕ} {w : Workload} → IsCollecting t w → HasReports w
HasReports-of_IsCollecting h = record { distinct = h.distinct; own_names = h.own_names }
