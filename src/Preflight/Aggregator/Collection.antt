-- ===== src/Preflight/Aggregator/Collection.antt =====
-- A whole collection: the reports of all nodes, one after the other.
use mathlib.Core.List.{append_assoc}
use kcover.Preflight.Aggregator.{
  AddOutcome, SlowNodeAggregator, add_extracted, ensure_workload, expire_workload_if_timed_out,
  is_same_plan, is_timed_out, join_workload, new_workload, node_report, observe, put_workload,
  store_report, waiting, workload_for_report, ready, add_node_report,
}
use kcover.Preflight.Types.{
  Extracted, NodeReport, NodeReports, Workload, WorkloadKey, WorkloadPlan, workload_key_eq,
}
use kcover.Shared.{
  List, String, [], arith, lookup, map, none, some, ℕ, ◌++◌, ◌+◌, ◌<◌, ◌∷◌, ◌≡◌, ◌≤◌, Distinct,
  contains, false, insert_missing, keys, length, length-append, suc, text_eq, ==_refl, ap,
  keys-append, lookup-insert, not_contains_of_Distinct, refl, subst, sym, ◌∙◌,
}
use kcover.Preflight.Detection.{detect_slow_nodes}

pub record Arrival : Type 0 where
  pub content : Extracted
  pub now : ℕ
  pub observed_at : ℕ

-- AddReportForWorkload for each arrival in turn.
abbrev pub feed :
    SlowNodeAggregator → WorkloadKey → List Arrival → SlowNodeAggregator × List AddOutcome
feed c k [] = (c, [])
feed c k (a ∷ rest) =
    let (c', outcome) = add_extracted c k a.content a.now a.observed_at in
    let (c'', outcomes) = feed c' k rest in (c'', outcome ∷ outcomes)

abbrev pub entry_of : Arrival → String × NodeReport
entry_of a = (a.content.report.node_name, node_report a.content.report a.content.batch_results)

-- Every report waits but the last, which brings the verdict on all.
abbrev pub outcomes_of : ℕ → NodeReports → List Arrival → List AddOutcome
outcomes_of batches every [] = []
outcomes_of batches every (a ∷ []) = ready (detect_slow_nodes every batches) ∷ []
outcomes_of batches every (a ∷ b ∷ rest) = waiting ∷ outcomes_of batches every (b ∷ rest)

-- Each arrival comes before the timeout that the one before it started.
abbrev pub Paced : ℕ → ℕ → List Arrival → Type 0
Paced timeout last [] = Unit
Paced timeout last (a ∷ rest) = (a.now < last + timeout) × Paced timeout a.now rest

-- All have one plan, and were observed within one timeout of `start`.
abbrev pub Together : WorkloadPlan → ℕ → ℕ → List Arrival → Type 0
Together plan start timeout [] = Unit
Together plan start timeout (a ∷ rest) =
    (a.content.plan ≡ plan)
    × (start ≤ a.observed_at)
    × (a.observed_at ≤ start + timeout)
    × Together plan start timeout rest

-- A collection under way.
record Progress (c : SlowNodeAggregator) (plan : WorkloadPlan) (start : ℕ) (w : Workload)
    : Type 0 where
  counts :
      (w.expected_report_count ≡ plan.report_count) × (w.expected_batch_count ≡ plan.batch_count)
  first_in : start ≤ w.first_observed_at
  ordered : w.first_observed_at ≤ w.last_observed_at
  last_in : w.last_observed_at ≤ start + c.timeout

-- A report in time for a stored workload is stored.
step_some :
    (c : SlowNodeAggregator) (k : WorkloadKey) (start : ℕ) (w : Workload) (a : Arrival)
    → lookup k c.workloads ≡ some w
    → Progress c a.content.plan start w
    → a.now < w.last_report_at + c.timeout
    → start ≤ a.observed_at
    → a.observed_at ≤ start + c.timeout
    → add_extracted c k a.content a.now a.observed_at
      ≡ store_report c k (observe w a.now a.observed_at) a.content
unfolding add_extracted expire_workload_if_timed_out is_timed_out join_workload workload_for_report
    is_same_plan observe
step_some c k start w a at p soon after before = ground arith

-- The first report of a workload is stored.
step_none :
    (c : SlowNodeAggregator) (k : WorkloadKey) (a : Arrival)
    → lookup k c.workloads ≡ none
    → let fresh = new_workload a.content.plan a.now a.observed_at in
      add_extracted c k a.content a.now a.observed_at
      ≡ store_report (put_workload c k fresh) k (observe fresh a.now a.observed_at) a.content
unfolding add_extracted expire_workload_if_timed_out join_workload workload_for_report
    ensure_workload observe
step_none c k a absent = ground arith

-- Where a report leaves a collection that still waits.
stored_workload : Workload → Arrival → Workload
stored_workload w a = add_node_report w a.content.report a.content.batch_results

stored_reports :
    (w : Workload) (a : Arrival)
    → contains (keys w.node_reports) (entry_of a).0 ≡ false
    → (stored_workload w a).node_reports ≡ w.node_reports ++ (entry_of a ∷ [])
unfolding stored_workload add_node_report
stored_reports w a fresh = insert_missing (entry_of a).0 (entry_of a).1 w.node_reports fresh

stored-Progress :
    (c : SlowNodeAggregator) (k : WorkloadKey) (plan : WorkloadPlan) (start : ℕ) (w : Workload)
    (a : Arrival)
    → Progress c plan start w
    → Progress (put_workload c k (stored_workload w a)) plan start (stored_workload w a)
unfolding stored_workload add_node_report
stored-Progress c k plan start w a p = record {
  counts = p.counts;
  first_in = p.first_in;
  ordered = p.ordered;
  last_in = p.last_in;
}

observe-Progress :
    (c : SlowNodeAggregator) (plan : WorkloadPlan) (start : ℕ) (w : Workload) (a : Arrival)
    → Progress c plan start w
    → start ≤ a.observed_at
    → a.observed_at ≤ start + c.timeout
    → Progress c plan start (observe w a.now a.observed_at)
unfolding observe
observe-Progress c plan start w a p after before = ground arith

store_last :
    (c : SlowNodeAggregator) (k : WorkloadKey) (w : Workload) (a : Arrival)
    → contains (keys w.node_reports) (entry_of a).0 ≡ false
    → length w.node_reports + 1 ≡ w.expected_report_count
    → (store_report c k w a.content).1
      ≡ ready (detect_slow_nodes (w.node_reports ++ (entry_of a ∷ [])) w.expected_batch_count)
unfolding store_report stored_workload add_node_report
store_last c k w a fresh full =
    ground (arith, stored_reports w a fresh, length-append w.node_reports (entry_of a ∷ []))

store_waits :
    (c : SlowNodeAggregator) (k : WorkloadKey) (w : Workload) (a : Arrival)
    → contains (keys w.node_reports) (entry_of a).0 ≡ false
    → length w.node_reports + 1 < w.expected_report_count
    → store_report c k w a.content ≡ (put_workload c k (stored_workload w a), waiting)
unfolding store_report stored_workload add_node_report
store_waits c k w a fresh less =
    ground (arith, stored_reports w a fresh, length-append w.node_reports (entry_of a ∷ []))

fresh_name :
    (m : NodeReports) (a : Arrival) (rest : List Arrival)
    → Distinct (keys (m ++ map entry_of (a ∷ rest)))
    → contains (keys m) (entry_of a).0 ≡ false
fresh_name m a rest d =
    not_contains_of_Distinct (keys m) (entry_of a).0 (keys (map entry_of rest))
      (rw (keys-append m (map entry_of (a ∷ rest))) at d)

-- The workload that the next report meets.
next_workload : Workload → Arrival → Arrival → Workload
next_workload w a b = observe (stored_workload w a) b.now b.observed_at

next_reports :
    (w : Workload) (a b : Arrival) (rest : List Arrival)
    → contains (keys w.node_reports) (entry_of a).0 ≡ false
    → (next_workload w a b).node_reports ++ map entry_of rest
      ≡ w.node_reports ++ (entry_of a ∷ map entry_of rest)
unfolding next_workload observe
next_reports w a b rest fresh =
    rw (stored_reports w a fresh)
      (append_assoc w.node_reports (entry_of a ∷ []) (map entry_of rest))

length-next_reports :
    (w : Workload) (a b : Arrival)
    → contains (keys w.node_reports) (entry_of a).0 ≡ false
    → length (next_workload w a b).node_reports ≡ length w.node_reports + 1
unfolding next_workload observe
length-next_reports w a b fresh =
    ground (arith, stored_reports w a fresh, length-append w.node_reports (entry_of a ∷ []))

next_step :
    (c : SlowNodeAggregator) (k : WorkloadKey) (plan : WorkloadPlan) (start : ℕ) (w : Workload)
    (a b : Arrival)
    → Progress c plan start w
    → w.last_report_at ≡ a.now
    → b.content.plan ≡ plan
    → b.now < a.now + c.timeout
    → start ≤ b.observed_at
    → b.observed_at ≤ start + c.timeout
    → let c' = put_workload c k (stored_workload w a) in
      add_extracted c' k b.content b.now b.observed_at
      ≡ store_report c' k (next_workload w a b) b.content
unfolding next_workload
next_step c k plan start w a b p at same soon after before =
    let w' = stored_workload w a in
    let c' = put_workload c k w' in
    let late : w'.last_report_at ≡ a.now = unfold stored_workload add_node_report in at in
    step_some c' k start w' b (ground (arith, lookup-insert k w' c.workloads k, ==_refl k))
      (subst (λ q. Progress c' q start w') (sym same) (stored-Progress c k plan start w a p))
      (omega (arith, late)) after before

collect :
    (a : Arrival) (rest : List Arrival) (c c₀ : SlowNodeAggregator) (k : WorkloadKey)
    (plan : WorkloadPlan) (start : ℕ) (w : Workload) (every : NodeReports)
    → add_extracted c k a.content a.now a.observed_at ≡ store_report c₀ k w a.content
    → Progress c₀ plan start w
    → w.last_report_at ≡ a.now
    → Paced c₀.timeout a.now rest
    → Together plan start c₀.timeout rest
    → w.node_reports ++ map entry_of (a ∷ rest) ≡ every
    → Distinct (keys every)
    → length w.node_reports + suc (length rest) ≡ plan.report_count
    → (feed c k (a ∷ rest)).1 ≡ outcomes_of plan.batch_count every (a ∷ rest)
collect a [] c c₀ k plan start w every stored p at pace near all_of d count =
    let fresh = fresh_name w.node_reports a [] (rw all_of d) in
    ground
      (arith, stored, store_last c₀ k w a fresh (omega (arith, p.counts.0)), p.counts.1, all_of)
collect a (b ∷ rest) c c₀ k plan start w every stored p at pace near all_of d count =
    let fresh = fresh_name w.node_reports a (b ∷ rest) (rw all_of d) in
    let w' = stored_workload w a in
    let c' = put_workload c₀ k w' in
    let waits : add_extracted c k a.content a.now a.observed_at ≡ (c', waiting) =
      stored ∙ store_waits c₀ k w a fresh (omega (arith, p.counts.0)) in
    let later =
      collect b rest c' c' k plan start (next_workload w a b) every
        (next_step c₀ k plan start w a b p at near.0 pace.0 near.1 near.2)
        (unfold next_workload in
          observe-Progress c' plan start w' b (stored-Progress c₀ k plan start w a p) near.1 near.2)
        (unfold next_workload observe in refl) pace.1 near.3
        (next_reports w a b (b ∷ rest) fresh ∙ all_of) d
        (omega (arith, length-next_reports w a b fresh)) in
    rw waits (ap (λ t. waiting ∷ t) later)

-- If as many reports as expected arrive for a workload that is not yet known, one from each node,
-- all with the same plan, each within the timeout of the one before and all observed within one
-- timeout, then every call but the last says that it waits, and the last returns what
-- detectSlowNodes says of all of them.
pub collection_completes :
    (a : Arrival) (rest : List Arrival) (c : SlowNodeAggregator) (k : WorkloadKey)
    (plan : WorkloadPlan) (start : ℕ)
    → lookup k c.workloads ≡ none
    → Paced c.timeout a.now rest
    → Together plan start c.timeout (a ∷ rest)
    → Distinct (keys (map entry_of (a ∷ rest)))
    → length (a ∷ rest) ≡ plan.report_count
    → (feed c k (a ∷ rest)).1 ≡ outcomes_of plan.batch_count (map entry_of (a ∷ rest)) (a ∷ rest)
collection_completes a rest c k plan start absent pace near d count =
    let fresh = new_workload a.content.plan a.now a.observed_at in
    let c₀ = put_workload c k fresh in
    let w = observe fresh a.now a.observed_at in
    let none_yet : w.node_reports ≡ [] = unfold observe in refl in
    let begun : Progress c₀ plan start fresh = ground arith in
    collect a rest c c₀ k plan start w (map entry_of (a ∷ rest)) (step_none c k a absent)
      (observe-Progress c₀ plan start fresh a begun near.1 near.2) (unfold observe in refl) pace
      near.3 (rw none_yet) d (omega (arith, ap (length {A = String × NodeReport}) none_yet))
