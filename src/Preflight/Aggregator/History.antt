-- ===== src/Preflight/Aggregator/History.antt =====
-- Which of the reports that came a stored workload stands for.
use kcover.Shared.{
  ==_refl, Bool-cases, Distinct, List, Option, [], arith, insert, insert-Distinct, inl, inr, keys,
  length, lookup, lookup-delete, lookup-insert, ltb, none, refl, some, ℕ, ◌++◌, ◌+◌, ◌-◌, ◌<◌, ◌≡◌,
  ◌≤◌, ◌⊎◌, ◌∷◌, ◌∙◌, ap, subst, text_eq, nat_eq,
}
use kcover.Preflight.Types.{
  Extracted, NodeReports, Workload, WorkloadKey, WorkloadPlan, workload_key_eq,
}
use kcover.Preflight.Aggregator.{
  SlowNodeAggregator, add_extracted, add_node_report, drop_workload, ensure_workload, is_same_plan,
  join_workload, new_workload, observe, put_workload, ready, store_report, waiting,
  workload_for_report,
}
use kcover.Preflight.Detection.{detect_slow_nodes}
use kcover.Preflight.Aggregator.Collection.{Arrival, Together, entry_of}
use kcover.Preflight.Aggregator.Invariant.{add_cases, found_cases}

-- The state after some reports of one workload, the latest of which stands first.
unfoldable pub after_arrivals : SlowNodeAggregator → WorkloadKey → List Arrival → SlowNodeAggregator
after_arrivals c k [] = c
after_arrivals c k (a ∷ earlier) =
    (add_extracted (after_arrivals c k earlier) k a.content a.now a.observed_at).0

-- One report to a node, the latest that it sent.
abbrev pub latest_reports : List Arrival → NodeReports
latest_reports [] = []
latest_reports (a ∷ earlier) = insert (entry_of a).0 (entry_of a).1 (latest_reports earlier)

abbrev pub plan_of : Workload → WorkloadPlan
plan_of w = record { report_count = w.expected_report_count; batch_count = w.expected_batch_count }

-- All have one plan, and were observed from `first` to `last`.
abbrev pub Observed : WorkloadPlan → ℕ → ℕ → List Arrival → Type 0
Observed plan first last [] = Unit
Observed plan first last (a ∷ earlier) =
    (a.content.plan ≡ plan)
    × (first ≤ a.observed_at)
    × (a.observed_at ≤ last)
    × Observed plan first last earlier

-- The workload stands for these reports.
pub record Holds (recent : List Arrival) (w : Workload) : Type 0 where
  pub reports : w.node_reports ≡ latest_reports recent
  pub observed : Observed (plan_of w) w.first_observed_at w.last_observed_at recent

-- A stored workload stands for the last of the reports that came.
abbrev pub Backed : Option Workload → List Arrival → Type 0
Backed none earlier = Unit
Backed (some w) earlier =
    (recent : List Arrival) × (older : List Arrival) × (earlier ≡ recent ++ older) × Holds recent w

pub latest_reports-Distinct : (recent : List Arrival) → Distinct (keys (latest_reports recent))
latest_reports-Distinct [] = tt
latest_reports-Distinct (a ∷ earlier) =
    insert-Distinct (entry_of a).0 (entry_of a).1 (latest_reports earlier)
      (latest_reports-Distinct earlier)

wider :
    (plan : WorkloadPlan) (first last first' last' : ℕ) (recent : List Arrival)
    → first' ≤ first
    → last ≤ last'
    → Observed plan first last recent
    → Observed plan first' last' recent
wider plan first last first' last' [] f l o = tt
wider plan first last first' last' (a ∷ earlier) f l o = (
  o.0,
  omega (arith, o.1),
  omega (arith, o.2),
  wider plan first last first' last' earlier f l o.3,
)

pub Together-of_Observed :
    (plan : WorkloadPlan) (first last timeout : ℕ) (recent : List Arrival)
    → last ≤ first + timeout
    → Observed plan first last recent
    → Together plan first timeout recent
Together-of_Observed plan first last timeout [] i o = tt
Together-of_Observed plan first last timeout (a ∷ earlier) i o =
    (o.0, o.1, omega (arith, o.2), Together-of_Observed plan first last timeout earlier i o.3)

-- A report of the plan joins the workload.
pub add-Holds :
    (recent : List Arrival) (w : Workload) (a : Arrival)
    → a.content.plan ≡ plan_of w
    → Holds recent w
    → Holds
        (a ∷ recent)
        (add_node_report (observe w a.now a.observed_at) a.content.report a.content.batch_results)
unfolding add_node_report observe
add-Holds recent w a same h = record {
  reports = ap (insert (entry_of a).0 (entry_of a).1) h.reports;
  observed = (
    same,
    ground arith,
    ground arith,
    wider (plan_of w) w.first_observed_at w.last_observed_at _ _ recent (ground arith)
        (ground arith) h.observed,
  );
}

fresh-Holds :
    (plan : WorkloadPlan) (now observed_at : ℕ) → Holds [] (new_workload plan now observed_at)
fresh-Holds plan now observed_at = record { reports = refl; observed = tt }

-- The workload that a report joins stands for the last of the reports so far, or for none.
pub record Joins (c c' : SlowNodeAggregator) (plan : WorkloadPlan) (w : Workload)
    (earlier : List Arrival) : Type 0 where
  pub recent : List Arrival
  pub older : List Arrival
  pub split : earlier ≡ recent ++ older
  pub held : Holds recent w
  pub planned : plan ≡ plan_of w
  pub same_timeout : c'.timeout ≡ c.timeout

pub found-Joins :
    (c : SlowNodeAggregator) (k : WorkloadKey) (plan : WorkloadPlan) (now observed_at : ℕ)
    (earlier : List Arrival)
    → Backed (lookup k c.workloads) earlier
    → let (c', w) = workload_for_report c k plan now observed_at in Joins c c' plan w earlier
unfolding is_same_plan ensure_workload
found-Joins c k plan now observed_at earlier b = elim (found_cases c k plan now observed_at) [
  | inl (w, at, same, e) ↦
      let (recent, older, split, held) = subst (λ o. Backed o earlier) at b in
      rw e (record {
        recent = recent;
        older = older;
        split = split;
        held = held;
        planned = ground arith;
        same_timeout = refl;
      })
  | inr e ↦ rw e (record {
    recent = [];
    older = earlier;
    split = refl;
    held = fresh-Holds plan now observed_at;
    planned = refl;
    same_timeout = refl;
  })
]

-- What is known after a report: the timeout is the same, and a stored workload stands for the last
-- of the reports.
abbrev pub IsBacked : SlowNodeAggregator → SlowNodeAggregator → WorkloadKey → List Arrival → Type 0
IsBacked c c' k earlier = (c'.timeout ≡ c.timeout) × Backed (lookup k c'.workloads) earlier

put-IsBacked :
    (c c' : SlowNodeAggregator) (k : WorkloadKey) (w : Workload)
    (recent older earlier : List Arrival)
    → c'.timeout ≡ c.timeout
    → earlier ≡ recent ++ older
    → Holds recent w
    → IsBacked c (put_workload c' k w) k earlier
put-IsBacked c c' k w recent older earlier t split held =
    let at : lookup k (put_workload c' k w).workloads ≡ some w =
      ground (arith, lookup-insert k w c'.workloads k, ==_refl k) in
    (t, rw at (recent, older, split, held))

drop-IsBacked :
    (c c' : SlowNodeAggregator) (k : WorkloadKey) (earlier : List Arrival)
    → c'.timeout ≡ c.timeout
    → IsBacked c (drop_workload c' k) k earlier
drop-IsBacked c c' k earlier t =
    let gone : lookup k (drop_workload c' k).workloads ≡ none =
      ground (arith, lookup-delete k c'.workloads k, ==_refl k) in
    (t, rw gone tt)

pub store_cases :
    (c : SlowNodeAggregator) (k : WorkloadKey) (w : Workload) (x : Extracted)
    → let w' = add_node_report w x.report x.batch_results in
      ((length w'.node_reports < w'.expected_report_count)
        × (store_report c k w x ≡ (put_workload c k w', waiting)))
      ⊎ ((w'.expected_report_count ≤ length w'.node_reports)
          × (store_report c k w x ≡ (
            drop_workload (put_workload c k w') k,
            ready (detect_slow_nodes w'.node_reports w'.expected_batch_count),
          )))
unfolding store_report
store_cases c k w x =
    let w' = add_node_report w x.report x.batch_results in
    elim (Bool-cases (ltb (length w'.node_reports) w'.expected_report_count)) [
      | inl less ↦ inl (ground arith, ground arith)
      | inr full ↦ inr (ground arith, ground arith)
    ]

join-IsBacked :
    (c : SlowNodeAggregator) (k : WorkloadKey) (a : Arrival) (earlier : List Arrival)
    → Backed (lookup k c.workloads) earlier
    → IsBacked c (join_workload c k a.content a.now a.observed_at).0 k (a ∷ earlier)
unfolding join_workload
join-IsBacked c k a earlier b =
    let x = a.content in
    let (c', found) = workload_for_report c k x.plan a.now a.observed_at in
    let j = found-Joins c k x.plan a.now a.observed_at earlier b in
    let w = observe found a.now a.observed_at in
    let fresh = new_workload x.plan a.now a.observed_at in
    elim (Bool-cases (ltb c'.timeout (w.last_observed_at - w.first_observed_at))) [
      | inl wide ↦ rw wide (
          unfold ensure_workload in
          put-IsBacked c (put_workload c' k fresh) k
            (add_node_report fresh x.report x.batch_results) (a ∷ []) earlier (a ∷ earlier)
            j.same_timeout refl (alone fresh))
      | inr narrow ↦ elim (store_cases c' k w x) [
        | inl (less, e) ↦
            rw (narrow, e)
              (put-IsBacked c c' k (add_node_report w x.report x.batch_results) (a ∷ j.recent)
                j.older (a ∷ earlier) j.same_timeout (ap (λ t. a ∷ t) j.split)
                (add-Holds j.recent found a j.planned j.held))
        | inr (full, e) ↦
            rw (narrow, e)
              (drop-IsBacked c (put_workload c' k (add_node_report w x.report x.batch_results)) k
                (a ∷ earlier) j.same_timeout)
      ]
    ]
  where
    alone :
        (fresh : Workload)
        → Holds (a ∷ []) (
            add_node_report
              (new_workload a.content.plan a.now a.observed_at)
              a.content.report
              a.content.batch_results)
    alone fresh =
        unfold add_node_report in
        record { reports = refl; observed = (refl, omega arith, omega arith, tt) }

add-IsBacked :
    (c : SlowNodeAggregator) (k : WorkloadKey) (a : Arrival) (earlier : List Arrival)
    → Backed (lookup k c.workloads) earlier
    → IsBacked c (add_extracted c k a.content a.now a.observed_at).0 k (a ∷ earlier)
add-IsBacked c k a earlier b = elim (add_cases c k a.content a.now a.observed_at) [
  | inl joins ↦ rw joins (join-IsBacked c k a earlier b)
  | inr (w, at, late, e) ↦ rw e (drop-IsBacked c c k (a ∷ earlier) refl)
]

pub after_arrivals-IsBacked :
    (c : SlowNodeAggregator) (k : WorkloadKey) (earlier : List Arrival)
    → lookup k c.workloads ≡ none
    → IsBacked c (after_arrivals c k earlier) k earlier
unfolding after_arrivals
after_arrivals-IsBacked c k [] absent = (refl, rw absent tt)
after_arrivals-IsBacked c k (a ∷ earlier) absent =
    let (same, b) = after_arrivals-IsBacked c k earlier absent in
    let (next, b') = add-IsBacked (after_arrivals c k earlier) k a earlier b in (next ∙ same, b')
