-- ===== src/PodObserver/Reports.antt =====
-- cmd/agent/preflight_rule.go: the rule that turns the report file of a pod into a resource. The files
-- below the report directory are a parameter, by namespace and name.
use kcover.Shared.{
  ◌>>=◌, ◌>>◌, Bool, List, Option, Result, String, [], all_codes, atoi, err, fail_if, false,
  if◌then◌else◌, is_digit, none, not, ok, some, trim_space, true, ℕ, ℤ, ◌&&◌, ◌+++◌, ◌==◌, ◌||◌,
  ◌∷◌, text_eq, nat_eq,
}
use kcover.Cluster.{Owner}
use kcover.PodObserver.{ContainerStatus, Output, PodRule, Terminated, WatchedPod, submit, value_at}
use kcover.Preflight.Compaction.{Compact, LoadError, load_report_payload}
use kcover.Preflight.Transport.{BuildError, Encoders, build_preflight_report, wrap}
use kcover.Api.{PreflightReport}
use kcover.Preflight.Json.{Runtime}

-- Why a pod gives no report.
pub data Skip : Type 0 where
  no_identity no_report_name no_node wrong_node : Skip
  not_loaded : LoadError → Skip
  not_built : BuildError → Skip

unfoldable pub is_numeric : String → Bool
is_numeric raw = if raw == "" then false else all_codes is_digit raw

unfoldable pub lws_workload_name : String → List (String × String) → String
unfolding is_numeric
lws_workload_name name labels =
    let group_index = trim_space (value_at "leaderworkerset.sigs.k8s.io/group-index" labels) in
    if not (is_numeric group_index) then "" else name +++ "-" +++ group_index

unfoldable pub preflight_workload_name : WatchedPod → String
unfolding lws_workload_name
preflight_workload_name pod =
    let name = value_at "leaderworkerset.sigs.k8s.io/name" pod.pod_labels in
    if not (name == "")
    then lws_workload_name name pod.pod_labels
    else value_at "batch.kubernetes.io/job-name" pod.pod_labels

unfoldable pub lws_report_suffix : List (String × String) → Option String
unfolding is_numeric
lws_report_suffix labels =
    let group_index = trim_space (value_at "leaderworkerset.sigs.k8s.io/group-index" labels) in
    let worker_index = trim_space (value_at "leaderworkerset.sigs.k8s.io/worker-index" labels) in
    if is_numeric group_index && is_numeric worker_index then some worker_index else none

abbrev pub if_number : Option ℤ → String → Option String
if_number none raw = none
if_number (some n) raw = some raw

unfoldable pub preflight_report_suffix : WatchedPod → String → Option String
unfolding lws_report_suffix
preflight_report_suffix pod workload_name =
    let raw =
      trim_space (value_at "batch.kubernetes.io/job-completion-index" pod.pod_annotations) in
    if workload_name == ""
    then none
    else if not (value_at "leaderworkerset.sigs.k8s.io/name" pod.pod_labels == "")
    then lws_report_suffix pod.pod_labels
    else if raw == ""
    then none
    else if_number (atoi raw) raw

abbrev pub with_suffix : String → Option String → Option String
with_suffix workload_name none = none
with_suffix workload_name (some suffix) = some (workload_name +++ "-" +++ suffix)

-- preflightReportName of the rule: the name of the report's file.
unfoldable pub report_file_name : WatchedPod → String → Option String
unfolding preflight_report_suffix
report_file_name pod workload_name =
    if pod.watched_name == "" || workload_name == ""
    then none
    else with_suffix workload_name (preflight_report_suffix pod workload_name)

unfoldable pub init_container_status_by_name :
    List ContainerStatus → String → Option ContainerStatus
init_container_status_by_name [] name = none
init_container_status_by_name (status ∷ rest) name =
    let later = init_container_status_by_name rest name in
    if status.container_name == name then some status else later

-- The end of a container, if it is there and has ended.
abbrev pub end_of : Option ContainerStatus → Option Terminated
end_of none = none
end_of (some status) = status.terminated

abbrev pub is_there {ℓ} : {A : Type ℓ} → Option A → Bool
is_there none = false
is_there (some a) = true

abbrev pub preflight_end : WatchedPod → Option Terminated
preflight_end pod = end_of (init_container_status_by_name pod.init_container_statuses "preflight")

unfoldable pub should_reconcile_preflight_pod : WatchedPod → Bool
should_reconcile_preflight_pod pod =
    if not (value_at "kcover.io/preflight" pod.pod_labels == "true")
    then false
    else is_there (preflight_end pod)

-- The UID of the pod's controller, and the time at which the preflight container ended.
abbrev pub identity_of : Option Owner → Option Terminated → Option (String × ℕ)
identity_of (some owner) (some state) =
    if owner.uid == "" || state.finished_at == 0 then none else some (owner.uid, state.finished_at)
identity_of none state = none
identity_of (some owner) none = none

unfoldable pub preflight_report_identity : WatchedPod → Option (String × ℕ)
preflight_report_identity pod = identity_of pod.controller (preflight_end pod)

abbrev pub or_skip : {A : Type 0} → Skip → Option A → Result Skip A
or_skip reason none = err reason
or_skip reason (some a) = ok a

abbrev pub outputs_of : Result Skip PreflightReport → List Output
outputs_of (err e) = []
outputs_of (ok report) = submit report ∷ []

module _ (encoders : Encoders) (rt : Runtime) (encode : Compact rt.Float → Option String)
    (files : String → String → Option String) where
  -- preflightRule.reconcile; an owner is given by its API version, kind, name and UID.
  unfoldable pub reconcile : WatchedPod → Result Skip PreflightReport
  reconcile pod = do
    identity ← or_skip no_identity (preflight_report_identity pod)
    let workload_name = preflight_workload_name pod
    report_name ← or_skip no_report_name (report_file_name pod workload_name)
    let node_name = trim_space pod.assigned_node
    fail_if (node_name == "") no_node
    loaded ← wrap not_loaded (load_report_payload rt encode (files pod.pod_namespace report_name))
    fail_if (not (loaded.1 == node_name)) wrong_node
    let owner : Owner = record {
      uid = pod.pod_uid;
      kind = "Pod";
      api_version = "v1";
      owner_name = pod.watched_name;
    }
    wrap not_built (
        build_preflight_report encoders rt pod.pod_namespace node_name workload_name identity.0
          loaded.0 identity.1 (owner ∷ []))

  unfoldable pub reconcile_outputs : WatchedPod → List Output
  unfolding should_reconcile_preflight_pod
  reconcile_outputs pod =
      if not (should_reconcile_preflight_pod pod) then [] else outputs_of (reconcile pod)

  abbrev pub preflight_rule : PodRule
  preflight_rule = record {
    on_add = reconcile_outputs;
    on_update = λ old new. reconcile_outputs new;
    should_handle_initial_list = true;
  }
