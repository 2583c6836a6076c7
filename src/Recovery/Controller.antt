-- ===== src/Recovery/Controller.antt =====
-- pkg/recovery/recovery.go: the handlers of events and of reports. Log output is left out.
use kcover.Shared.{
  ℕ, Bool, List, Option, Result, String, [], any, err, false, if◌then◌else◌, lookup, none, ok,
  or_default, some, true, ◌&&◌, ◌++◌, ◌==◌, ◌∷◌, text_eq, ◌||◌,
}
use kcover.Cluster.{ApiError, Cluster, Pod, pod_get, pods_delete, Node, node_get, pods_list}
use kcover.Cluster.Calls.{◌>>=◌, ◌>>◌, give, ask, Run}
use kcover.Recovery.Ledger.{Permit, allow_restart}
use kcover.Recovery.Jobs.{get_pod_related_job_labels}
use kcover.Kube.{taint_node_unschedulable}
use kcover.Preflight.Aggregator.{AddError}
use kcover.Preflight.Types.{Extracted, ParseError}
use kcover.Recovery.Tracker.{PreflightReportResult, PreflightTracker, handle_report}
use kcover.Events.{
  Event, EventType, ResourceType, day2_event_reason, error_event, node_resource, pod_resource,
  unknown_event, unknown_resource, warning_event,
}
use kcover.Api.{PreflightReport}

abbrev pub kubeflow_job_label : String
kubeflow_job_label = "training.kubeflow.org/job-name"

abbrev pub enabled_recovery_label : String
enabled_recovery_label = "kcover.io/cascading-recovery"

-- The window between two restarts of a job: thirty seconds.
abbrev pub restart_duration : ℕ
restart_duration = 30000000000

abbrev pub is_enabled : List (String × String) → Bool
is_enabled labels = or_default "" (lookup enabled_recovery_label labels) == "true"

abbrev pub is_success : Option ApiError → Bool
is_success none = true
is_success (some e) = false

module _ (c : Cluster) where
  abbrev pub enabled_of_labels :
      Result ApiError (List (String × String)) → Run (Result ApiError Bool)
  enabled_of_labels (err e) = give (err e)
  enabled_of_labels (ok labels) = give (ok (is_enabled labels))

  unfoldable pub is_recovery_enabled_for_pod : Pod → Run (Result ApiError Bool)
  is_recovery_enabled_for_pod pod =
      if is_enabled pod.labels
      then give (ok true)
      else get_pod_related_job_labels c pod >>= enabled_of_labels

  -- An answer and an error: the error wins.
  abbrev pub permit_of : Option ApiError × Permit → Run (Result ApiError Bool)
  permit_of (some e, permit) = give (err e)
  permit_of (none, permit) = give (ok permit.allowed)

  unfoldable pub allow_job_restart : String → String → Run (Result ApiError Bool)
  allow_job_restart namespace job = allow_restart c namespace job restart_duration >>= permit_of

  unfoldable pub restart_job : String → String → Run (Unit {0})
  restart_job namespace job = do
    failure ← ask (pods_delete namespace job) (λ h. c.delete_pods h namespace job)
    give tt

  abbrev pub restart_if : Result ApiError Bool → String → String → Run (Unit {0})
  restart_if (err e) namespace job = give tt
  restart_if (ok false) namespace job = give tt
  restart_if (ok true) namespace job = restart_job namespace job

  abbrev pub recover_job : Option String → Pod → String → Run (Unit {0})
  recover_job none pod namespace = give tt
  recover_job (some job) pod namespace =
      if pod.restart_policy == "Never"
      then give tt
      else allow_job_restart namespace job >>= λ permit. restart_if permit namespace job

  abbrev pub recover_if : Result ApiError Bool → Pod → String → Run (Unit {0})
  recover_if (err e) pod namespace = give tt
  recover_if (ok false) pod namespace = give tt
  recover_if (ok true) pod namespace =
      recover_job (lookup kubeflow_job_label pod.labels) pod namespace

  abbrev pub recover_pod : Result ApiError Pod → String → Run (Unit {0})
  recover_pod (err e) namespace = give tt
  recover_pod (ok pod) namespace =
      is_recovery_enabled_for_pod pod >>= λ enabled. recover_if enabled pod namespace

  unfoldable pub on_pod_error : String → String → Run (Unit {0})
  unfolding is_recovery_enabled_for_pod allow_job_restart restart_job
  on_pod_error namespace name = do
    pod ← ask (pod_get namespace name) (λ h. c.get_pod h namespace name)
    recover_pod pod namespace

  unfoldable pub ensure_node_unschedulable : String → Run Bool
  ensure_node_unschedulable name = do
    outcome ← taint_node_unschedulable c name
    give (is_success outcome.0)

  abbrev pub mark_node : String → Run (Unit {0})
  mark_node name = do marked ← ensure_node_unschedulable name; give tt

  -- The jobs of the pods, each once; Go hands them out in the order of a map.
  unfoldable pub jobs_of_pods : List Pod → List (String × String) → List (String × String)
  jobs_of_pods [] jobs = jobs
  jobs_of_pods (pod ∷ rest) jobs = elim (lookup kubeflow_job_label pod.labels) [
    | none ↦ jobs_of_pods rest jobs
    | some job ↦ jobs_of_pods rest (add_job (pod.namespace, job) jobs)
  ]
    where
      add_job : String × String → List (String × String) → List (String × String)
      add_job job jobs =
          if any (λ j. j.0 == job.0 && j.1 == job.1) jobs then jobs else jobs ++ (job ∷ [])

  -- The loop of onNodeError over the jobs.
  unfoldable pub on_pod_errors : List (String × String) → Run (Unit {0})
  on_pod_errors [] = give tt
  on_pod_errors ((namespace, name) ∷ rest) = on_pod_error namespace name >> on_pod_errors rest

  abbrev pub jobs_of_answer : Result ApiError (List Pod) → Result ApiError (List (String × String))
  jobs_of_answer (err e) = err e
  jobs_of_answer (ok pods) = ok (jobs_of_pods pods [])

  unfoldable pub list_jobs_on_node : String → Run (Result ApiError (List (String × String)))
  list_jobs_on_node node = do
    pods ← ask (pods_list node) (λ h. c.list_pods h node)
    give (jobs_of_answer pods)

  -- Each job is handed to onPodError as if its name were the name of a pod, as in the source.
  abbrev pub recover_jobs : Result ApiError (List (String × String)) → String → Run (Unit {0})
  recover_jobs (err e) node = give tt
  recover_jobs (ok jobs) node = do on_pod_errors jobs; mark_node node

  abbrev pub recover_node : Result ApiError Node → Event → Run (Unit {0})
  recover_node (err e) event = give tt
  recover_node (ok node) event =
      if node.unschedulable || event.reason == day2_event_reason
      then mark_node event.name
      else list_jobs_on_node event.name >>= (λ jobs. recover_jobs jobs event.name)

  unfoldable pub on_node_error : Event → Run (Unit {0})
  on_node_error event = do
    node ← ask (node_get event.name) (λ h. c.get_node h event.name)
    recover_node node event

  abbrev pub on_pod_event : EventType → Event → Run (Unit {0})
  on_pod_event error_event event = on_pod_error event.namespace event.name
  on_pod_event warning_event event = give tt
  on_pod_event unknown_event event = give tt

  abbrev pub dispatch : ResourceType → Event → Run (Unit {0})
  dispatch pod_resource event = on_pod_event event.event_type event
  dispatch node_resource event = on_node_error event
  dispatch unknown_resource event = give tt

  unfoldable pub on_event : Event → Run (Unit {0})
  on_event event = dispatch event.resource_type event

  -- The loop of onPreflightReport over the slow nodes.
  unfoldable pub mark_nodes : List String → Run (Unit {0})
  mark_nodes [] = give tt
  mark_nodes (node ∷ rest) = mark_node node >> mark_nodes rest

  abbrev pub act_on_result : Result AddError PreflightReportResult → Run (Unit {0})
  act_on_result (err e) = give tt
  act_on_result (ok result) =
      if result.skipped && result.workload_name == "" || result.waiting
      then give tt
      else mark_nodes result.slow_nodes

  -- The tracker's state is passed along with the calls.
  unfoldable pub on_preflight_report :
      (String → Result ParseError Extracted)
      → PreflightTracker
      → PreflightReport
      → ℕ
      → Run PreflightTracker
  on_preflight_report extract tracker report now =
      let (tracker', result) = handle_report extract tracker report now in
      act_on_result result >>= (λ done. give tracker')
