-- ===== src/Preflight/Aggregator/Invariant.antt =====
-- What holds of the stored workloads between two calls.
use kcover.Preflight.Types.{
  Extracted, Workload, WorkloadKey, WorkloadPlan, workload_key_eq, ParseError,
}
use kcover.Shared.{
  Bool-cases, String, arith, inl, inr, lookup, ltb, some, ℕ, ◌<◌, ◌==◌, ◌≡◌, ◌≤◌, text_eq,
  Option-cases, insert, refl, Result, none, ok, true, ◌-◌, ◌⊎◌, Result-cases, ◌||◌, nat_eq,
}
use kcover.Preflight.Aggregator.{
  SlowNodeAggregator, add_node_report, drop_workload, new_workload, observe, put_workload,
  add_extracted, ensure_workload, expire_workload_if_timed_out, is_same_plan, is_timed_out,
  workload_for_report, add_report_for_workload, build_timeout_error, AddError, bad_report,
  empty_identity, empty_observation_time, empty_workload_uid, failed, join_workload, timed_out,
}
use kcover.Preflight.Aggregator.WellFormed.{
  HasReports, HasReports-observe, HasReports-of_IsCollecting, IsWellFormed,
  add_node_report-HasReports, drop_workload-IsWellFormed, new_workload-HasReports, observe_ordered,
  put_workload-IsWellFormed, store_report-IsWellFormed,
}

-- A workload expires if it is stored and timed out; otherwise nothing changes.
pub expire_cases :
    (c : SlowNodeAggregator) (k : WorkloadKey) (now : ℕ)
    → (expire_workload_if_timed_out c k now ≡ (c, none))
      ⊎ ((w : Workload) × (lookup k c.workloads ≡ some w)
          × (is_timed_out c w now ≡ true)
          × (expire_workload_if_timed_out c k now
              ≡ (drop_workload c k, some (build_timeout_error c k w))))
unfolding expire_workload_if_timed_out
expire_cases c k now = elim (Option-cases (lookup k c.workloads)) [
  | inl absent ↦ inl (ground arith)
  | inr (w, at) ↦ elim (Bool-cases (is_timed_out c w now)) [
    | inl late ↦ inr (w, at, late, ground arith)
    | inr live ↦ inl (ground arith)
  ]
]

-- A report joins the stored workload of its plan, or starts a new one.
pub found_cases :
    (c : SlowNodeAggregator) (k : WorkloadKey) (plan : WorkloadPlan) (now observed_at : ℕ)
    → ((w : Workload) × (lookup k c.workloads ≡ some w)
        × (is_same_plan w plan ≡ true)
        × (workload_for_report c k plan now observed_at ≡ (c, w)))
      ⊎ (workload_for_report c k plan now observed_at ≡ ensure_workload c k plan now observed_at)
unfolding workload_for_report
found_cases c k plan now observed_at = elim (Option-cases (lookup k c.workloads)) [
  | inl absent ↦ inr (ground arith)
  | inr (w, at) ↦ elim (Bool-cases (is_same_plan w plan)) [
    | inl same ↦ inl (w, at, same, ground arith)
    | inr changed ↦ inr (ground arith)
  ]
]

-- What workloadForReport hands on: the stored workload of this plan, or a new one.
pub record IsFound (c : SlowNodeAggregator) (k : WorkloadKey)
    (found : SlowNodeAggregator × Workload) : Type 0 where
  pub well_formed : IsWellFormed found.0
  pub reports : HasReports found.1
  pub ordered : found.1.first_observed_at ≤ found.1.last_observed_at
  pub SameTimeout : found.0.timeout ≡ c.timeout

ensure_workload-IsFound :
    (c : SlowNodeAggregator) (k : WorkloadKey) (plan : WorkloadPlan) (now observed_at : ℕ)
    → IsWellFormed c
    → 0 < plan.report_count
    → IsFound c k (ensure_workload c k plan now observed_at)
unfolding ensure_workload
ensure_workload-IsFound c k plan now observed_at v positive =
    let fresh = new_workload-HasReports plan now observed_at in
    record {
      well_formed = put_workload-IsWellFormed c k (new_workload plan now observed_at) v (record {
        distinct = tt;
        incomplete = positive;
        ordered = omega arith;
        in_window = omega arith;
        own_names = fresh.own_names;
      });
      reports = fresh;
      ordered = omega arith;
      SameTimeout = refl;
    }

pub workload_for_report-IsFound :
    (c : SlowNodeAggregator) (k : WorkloadKey) (plan : WorkloadPlan) (now observed_at : ℕ)
    → IsWellFormed c
    → 0 < plan.report_count
    → IsFound c k (workload_for_report c k plan now observed_at)
workload_for_report-IsFound c k plan now observed_at v positive =
    elim (found_cases c k plan now observed_at) [
      | inl (w, at, same, e) ↦ rw e (record {
        well_formed = v;
        reports = HasReports-of_IsCollecting (v.each k w at);
        ordered = (v.each k w at).ordered;
        SameTimeout = refl;
      })
      | inr e ↦ rw e (ensure_workload-IsFound c k plan now observed_at v positive)
    ]

restart-IsWellFormed :
    (c : SlowNodeAggregator) (k : WorkloadKey) (x : Extracted) (now observed_at : ℕ)
    → IsWellFormed c
    → 1 < x.plan.report_count
    → let (c', fresh) = ensure_workload c k x.plan now observed_at in
      IsWellFormed (put_workload c' k (add_node_report fresh x.report x.batch_results))
restart-IsWellFormed c k x now observed_at v many =
    let (c', fresh) = ensure_workload c k x.plan now observed_at in
    let f = ensure_workload-IsFound c k x.plan now observed_at v (omega arith) in
    let h = add_node_report-HasReports fresh x.report x.batch_results f.reports in
    put_workload-IsWellFormed c' k (add_node_report fresh x.report x.batch_results) f.well_formed
      (record {
        distinct = h.distinct;
        incomplete = unfold ensure_workload add_node_report insert in omega arith;
        ordered = unfold ensure_workload add_node_report in omega arith;
        in_window = unfold ensure_workload add_node_report in omega arith;
        own_names = h.own_names;
      })

join_workload-IsWellFormed :
    (c : SlowNodeAggregator) (k : WorkloadKey) (x : Extracted) (now observed_at : ℕ)
    → IsWellFormed c
    → 1 < x.plan.report_count
    → IsWellFormed (join_workload c k x now observed_at).0
unfolding join_workload
join_workload-IsWellFormed c k x now observed_at v many =
    let (c', found) = workload_for_report c k x.plan now observed_at in
    let f = workload_for_report-IsFound c k x.plan now observed_at v (omega arith) in
    let w = observe found now observed_at in
    elim (Bool-cases (ltb c'.timeout (w.last_observed_at - w.first_observed_at))) [
      | inl wide ↦ rw wide (restart-IsWellFormed c' k x now observed_at f.well_formed many)
      | inr narrow ↦ rw narrow (
          store_report-IsWellFormed c' k w x f.well_formed
            (HasReports-observe found now observed_at f.reports)
            (observe_ordered found now observed_at f.ordered) (ground arith))
    ]

-- A report is met by the expiry of its workload, or joins it.
pub add_cases :
    (c : SlowNodeAggregator) (k : WorkloadKey) (x : Extracted) (now observed_at : ℕ)
    → (add_extracted c k x now observed_at ≡ join_workload c k x now observed_at)
      ⊎ ((w : Workload) × (lookup k c.workloads ≡ some w)
          × (is_timed_out c w now ≡ true)
          × (add_extracted c k x now observed_at
              ≡ (drop_workload c k, failed (timed_out (build_timeout_error c k w)))))
unfolding add_extracted
add_cases c k x now observed_at = elim (expire_cases c k now) [
  | inl live ↦ inl (ground arith)
  | inr (w, at, late, e) ↦ inr (w, at, late, ground arith)
]

-- A report keeps the state well-formed, whatever becomes of it.
pub add_extracted-IsWellFormed :
    (c : SlowNodeAggregator) (k : WorkloadKey) (x : Extracted) (now observed_at : ℕ)
    → IsWellFormed c
    → 1 < x.plan.report_count
    → IsWellFormed (add_extracted c k x now observed_at).0
add_extracted-IsWellFormed c k x now observed_at v many = elim (add_cases c k x now observed_at) [
  | inl joins ↦ rw joins (join_workload-IsWellFormed c k x now observed_at v many)
  | inr (w, at, late, e) ↦ rw e (drop_workload-IsWellFormed c k v)
]

module _ (extract : String → Result ParseError Extracted) where
  -- A call of AddReportForWorkload is refused with the state unchanged, or it is the locked part.
  pub add_report_cases :
      (c : SlowNodeAggregator) (namespace uid name text : String) (now observed_at : ℕ)
      → ((e : AddError) × (add_report_for_workload extract c namespace uid name text now observed_at
            ≡ (c, failed e)))
        ⊎ ((x : Extracted) × (extract text ≡ ok x)
            × (add_report_for_workload extract c namespace uid name text now observed_at
                ≡ add_extracted c
                    (record { namespace = namespace; workload_uid = uid; workload_name = name })
                    x
                    now
                    observed_at))
  unfolding add_report_for_workload
  add_report_cases c namespace uid name text now observed_at =
      elim (Bool-cases (namespace == "" || name == "")) [
        | inl bad ↦ inl (empty_identity, ground arith)
        | inr named ↦ elim (Bool-cases (uid == "")) [
          | inl bad ↦ inl (empty_workload_uid, ground arith)
          | inr known ↦ elim (Bool-cases (observed_at == 0)) [
            | inl bad ↦ inl (empty_observation_time, ground arith)
            | inr seen ↦ elim (Result-cases (extract text)) [
              | inl (x, parsed) ↦ inr (x, parsed, ground arith)
              | inr (e, bad) ↦ inl (bad_report e, ground arith)
            ]
          ]
        ]
      ]

  -- Every call of AddReportForWorkload, failing or not, keeps a well-formed state so, if a parsed
  -- report's plan expects at least two reports.
  pub add_report-IsWellFormed :
      ((text : String) (x : Extracted) → extract text ≡ ok x → 1 < x.plan.report_count)
      → (c : SlowNodeAggregator) (namespace uid name text : String) (now observed_at : ℕ)
      → IsWellFormed c
      → IsWellFormed (add_report_for_workload extract c namespace uid name text now observed_at).0
  add_report-IsWellFormed plans c namespace uid name text now observed_at v =
      elim (add_report_cases c namespace uid name text now observed_at) [
        | inl (e, refused) ↦ rw refused v
        | inr (x, parsed, locked) ↦
            rw locked (add_extracted-IsWellFormed c _ x now observed_at v (plans text x parsed))
      ]
