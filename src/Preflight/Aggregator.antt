-- ===== src/Preflight/Aggregator.antt =====
-- pkg/preflight/slow_node_aggregator.go. The mutex makes each method one step, so a method is a
-- function on the state; the clock is an argument. A workload is a pointer into the map: what is
-- written through it is written back under its key. `extract` is extractNodeReport.
pub mod WellFormed
pub mod Invariant
pub mod History
pub mod Verdict
pub mod Timeouts
pub mod Frame
pub mod Collection
pub mod Sweep
use kcover.Preflight.Types.{
  BatchResult, Extracted, NodeReport, ParseError, Report, Workload, WorkloadKey, WorkloadPlan,
  WorkloadTimeoutError, check_result_fail, workload_key_eq,
}
use kcover.Shared.{
  Bool, List, Option, Result, String, [], delete, err, false, if◌then◌else◌, insert, int_beq,
  is_empty, is_not_pos, keys, leb, length, lookup, ltb, none, ok, some, sort, suc, to_nat, true,
  zero, ℕ, ℤ, ◌&&◌, ◌++◌, ◌+◌, ◌-◌, ◌==◌, ◌||◌, ◌∷◌, nat_eq, text_eq, text_order,
}
use kcover.Preflight.Detection.{detect_slow_nodes}

pub record SlowNodeAggregator : Type 0 where
  pub workloads : List (WorkloadKey × Workload)
  pub timeout : ℕ

pub data AddError : Type 0 where
  empty_identity empty_workload_uid empty_observation_time : AddError
  bad_report : ParseError → AddError
  timed_out : WorkloadTimeoutError → AddError

-- The three shapes of (ready, slowNodes, err).
pub data AddOutcome : Type 0 where
  waiting : AddOutcome
  ready : List String → AddOutcome
  failed : AddError → AddOutcome

-- settings.go: ten minutes.
abbrev pub default_report_collection_timeout : ℕ
default_report_collection_timeout = 600000000000

pub first_reported_node : WorkloadTimeoutError → String
first_reported_node e = elim e.reported_nodes [ [] ↦ "" | node ∷ rest ↦ node ]

unfoldable pub new_slow_node_aggregator : ℤ → SlowNodeAggregator
new_slow_node_aggregator timeout = record {
  workloads = [];
  timeout = if is_not_pos timeout then default_report_collection_timeout else to_nat timeout;
}

unfoldable pub is_same_plan : Workload → WorkloadPlan → Bool
is_same_plan w plan =
    w.expected_report_count == plan.report_count && w.expected_batch_count == plan.batch_count

abbrev pub new_workload : WorkloadPlan → ℕ → ℕ → Workload
new_workload plan now observed_at = record {
  expected_report_count = plan.report_count;
  expected_batch_count = plan.batch_count;
  node_reports = [];
  last_report_at = now;
  first_observed_at = observed_at;
  last_observed_at = observed_at;
}

abbrev pub put_workload : SlowNodeAggregator → WorkloadKey → Workload → SlowNodeAggregator
put_workload c key w = record c { workloads = insert key w c.workloads }

abbrev pub drop_workload : SlowNodeAggregator → WorkloadKey → SlowNodeAggregator
drop_workload c key = record c { workloads = delete key c.workloads }

unfoldable pub ensure_workload :
    SlowNodeAggregator → WorkloadKey → WorkloadPlan → ℕ → ℕ → SlowNodeAggregator × Workload
ensure_workload c key plan now observed_at =
    let w = new_workload plan now observed_at in (put_workload c key w, w)

unfoldable pub workload_for_report :
    SlowNodeAggregator → WorkloadKey → WorkloadPlan → ℕ → ℕ → SlowNodeAggregator × Workload
unfolding ensure_workload
workload_for_report c key plan now observed_at = elim (lookup key c.workloads) [
  | none ↦ ensure_workload c key plan now observed_at
  | some w ↦ if is_same_plan w plan then (c, w) else ensure_workload c key plan now observed_at
]

-- addNodeReport: a report without batch results is taken as fail-fast.
unfoldable pub node_report : Report → List BatchResult → NodeReport
node_report report results = record {
  node_name = report.node_name;
  self_ip = report.node_ip;
  fail_fast =
      int_beq report.gpu_check check_result_fail
      || int_beq report.storage_check check_result_fail
      || is_empty results;
  batch_results = results;
}

unfoldable pub add_node_report : Workload → Report → List BatchResult → Workload
add_node_report w report results = record w {
  node_reports = insert report.node_name (node_report report results) w.node_reports;
}

unfoldable pub build_timeout_error :
    SlowNodeAggregator → WorkloadKey → Workload → WorkloadTimeoutError
build_timeout_error c key w = record {
  namespace = key.namespace;
  workload_uid = key.workload_uid;
  workload_name = key.workload_name;
  reported_nodes = sort (keys w.node_reports);
  received_reports = length w.node_reports;
  expected_reports = w.expected_report_count;
  timeout = c.timeout;
}

-- The test that expireWorkloadIfTimedOut and expireOneTimedOutWorkload make.
unfoldable pub is_timed_out : SlowNodeAggregator → Workload → ℕ → Bool
is_timed_out c w now =
    if leb w.expected_report_count (length w.node_reports)
    then false
    else if ltb now (w.last_report_at + c.timeout)
    then false
    else true

unfoldable pub expire_workload_if_timed_out :
    SlowNodeAggregator → WorkloadKey → ℕ → SlowNodeAggregator × Option WorkloadTimeoutError
expire_workload_if_timed_out c key now = elim (lookup key c.workloads) [
  | none ↦ (c, none)
  | some w ↦
      if is_timed_out c w now
      then (drop_workload c key, some (build_timeout_error c key w))
      else (c, none)
]

-- The times that a report sets on its workload.
unfoldable pub observe : Workload → ℕ → ℕ → Workload
observe w now observed_at = record w {
  last_report_at = now;
  first_observed_at =
      if ltb observed_at w.first_observed_at then observed_at else w.first_observed_at;
  last_observed_at = if ltb w.last_observed_at observed_at then observed_at else w.last_observed_at;
}

-- The last part: the report is stored, and a complete workload is decided and forgotten.
unfoldable pub store_report :
    SlowNodeAggregator → WorkloadKey → Workload → Extracted → SlowNodeAggregator × AddOutcome
store_report c key w x =
    let w' = add_node_report w x.report x.batch_results in
    if ltb (length w'.node_reports) w'.expected_report_count
    then (put_workload c key w', waiting)
    else (
      drop_workload (put_workload c key w') key,
      ready (detect_slow_nodes w'.node_reports w'.expected_batch_count),
    )

-- The report joins its workload, which starts anew where its reports lie too far apart.
unfoldable pub join_workload :
    SlowNodeAggregator → WorkloadKey → Extracted → ℕ → ℕ → SlowNodeAggregator × AddOutcome
join_workload c key x now observed_at =
    let (c', found) = workload_for_report c key x.plan now observed_at in
    let w = observe found now observed_at in
    if ltb c'.timeout (w.last_observed_at - w.first_observed_at)
    then (let (c₂, fresh) = ensure_workload c' key x.plan now observed_at in
        (
          put_workload c₂ key (add_node_report fresh x.report x.batch_results),
          failed (timed_out (build_timeout_error c' key w)),
        ))
    else store_report c' key w x

-- The part under the lock.
unfoldable pub add_extracted :
    SlowNodeAggregator → WorkloadKey → Extracted → ℕ → ℕ → SlowNodeAggregator × AddOutcome
add_extracted c key x now observed_at =
    let (c', expired) = expire_workload_if_timed_out c key now in
    elim expired [
      | some e ↦ (c', failed (timed_out e))
      | none ↦ join_workload c' key x now observed_at
    ]

module _ (extract : String → Result ParseError Extracted) where
  unfoldable pub add_report_for_workload :
      SlowNodeAggregator
      → (namespace workload_uid workload_name report_text : String) (now observed_at : ℕ)
      → SlowNodeAggregator × AddOutcome
  add_report_for_workload c namespace uid name text now observed_at =
      if namespace == "" || name == ""
      then (c, failed empty_identity)
      else if uid == ""
      then (c, failed empty_workload_uid)
      else if observed_at == 0
      then (c, failed empty_observation_time)
      else elim (extract text) [
        | err e ↦ (c, failed (bad_report e))
        | ok x ↦
            add_extracted c
              (record { namespace = namespace; workload_uid = uid; workload_name = name }) x now
              observed_at
      ]

  -- AddReport: the name stands for the uid, and the clock is read for the time of the observation and
  -- again under the lock.
  unfoldable pub add_report :
      SlowNodeAggregator
      → (namespace workload_name report_text : String) (now observed_at : ℕ)
      → SlowNodeAggregator × AddOutcome
  add_report c namespace name text now observed_at =
      add_report_for_workload c namespace name name text now observed_at

-- The first timed-out workload of a run through the map.
pub find_timed_out :
    SlowNodeAggregator → ℕ → List (WorkloadKey × Workload) → Option (WorkloadKey × Workload)
find_timed_out c now [] = none
find_timed_out c now ((key, w) ∷ rest) =
    if is_timed_out c w now then some (key, w) else find_timed_out c now rest

unfoldable pub expire_one_timed_out_workload :
    SlowNodeAggregator → ℕ → SlowNodeAggregator × Option WorkloadTimeoutError
unfolding find_timed_out
expire_one_timed_out_workload c now = elim (find_timed_out c now c.workloads) [
  | none ↦ (c, none)
  | some (key, w) ↦ (drop_workload c key, some (build_timeout_error c key w))
]

-- The loop until nothing expires; `none` means that the fuel ran out.
unfoldable pub expire_loop :
    ℕ
    → SlowNodeAggregator
    → ℕ
    → List WorkloadTimeoutError
    → Option (SlowNodeAggregator × List WorkloadTimeoutError)
expire_loop zero c now errs = none
expire_loop (suc fuel) c now errs =
    let (c', expired) = expire_one_timed_out_workload c now in
    elim expired [ none ↦ some (c', errs) | some e ↦ expire_loop fuel c' now (errs ++ (e ∷ [])) ]

unfoldable pub expire_timed_out_workloads :
    SlowNodeAggregator → ℕ → Option (SlowNodeAggregator × List WorkloadTimeoutError)
expire_timed_out_workloads c now = expire_loop (suc (length c.workloads)) c now []
