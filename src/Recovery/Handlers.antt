-- ===== src/Recovery/Handlers.antt =====
-- pkg/recovery/recovery.go and job.go: the handlers as a whole.
use kcover.Shared.{
  ℕ, Bool, List, Option, Result, String, [], err, false, lookup, none, ok, refl, some, true, ◌==◌,
  ◌||◌, ◌∷◌, text_eq, ◌&&◌,
}
use kcover.Cluster.{
  ApiError, Cluster, Node, Owner, Pod, cache_get, cache_set, node_get, other, owner_get, pod_get,
  pods_list,
}
use kcover.Cluster.Calls.{◌>>=◌, give, ask, Keeps, Keeps->>=, Keeps-if}
use kcover.Recovery.Controller.{
  allow_job_restart, dispatch, enabled_of_labels, ensure_node_unschedulable, is_enabled,
  is_recovery_enabled_for_pod, jobs_of_answer, kubeflow_job_label, list_jobs_on_node, on_node_error,
  on_pod_error, on_pod_errors, recover_if, recover_job, recover_jobs, recover_node, recover_pod,
  restart_if, act_on_result, mark_node, mark_nodes, on_event, on_pod_event, on_preflight_report,
}
use kcover.Recovery.Deletes.{IsGuarded, ask-Keeps, ensure-Keeps, give-Keeps, restart-Keeps}
use kcover.Recovery.Jobs.{
  get_pod_related_job_labels, keep_labels, labels_of_owner, labels_of_owners,
}
use kcover.Preflight.Aggregator.{AddError}
use kcover.Preflight.Types.{Extracted, ParseError}
use kcover.Recovery.Loop.{
  Input, context_done, controller_loop, event_arrives, events_closed, report_arrives,
  reports_closed, tick,
}
use kcover.Recovery.Tracker.{PreflightReportResult, PreflightTracker, handle_report, sweep_expired}
use kcover.Events.{
  Event, EventType, ResourceType, day2_event_reason, error_event, node_resource, pod_resource,
  unknown_event, unknown_resource, warning_event,
}
use kcover.Api.{PreflightReport}

module _ (c : Cluster) where
  keep_labels-Keeps :
      (owner : Owner) (r : Result ApiError (List (String × String)))
      → Keeps (IsGuarded c) (keep_labels c owner r)
  keep_labels-Keeps owner (err e) = give-Keeps c (err e)
  keep_labels-Keeps owner (ok labels) =
      Keeps->>= (IsGuarded c) (ask (cache_set owner.uid labels) (λ h. tt)) (λ u. give (ok labels))
        (ask-Keeps c (cache_set owner.uid labels) (λ h. tt) refl) (λ u. give-Keeps c (ok labels))

  labels_of_owner-Keeps :
      (pod : Pod) (owner : Owner) (o : Option (List (String × String)))
      → Keeps (IsGuarded c) (labels_of_owner c pod owner o)
  labels_of_owner-Keeps pod owner (some labels) = give-Keeps c (ok labels)
  labels_of_owner-Keeps pod owner none =
      Keeps->>= (IsGuarded c)
        (ask (owner_get owner pod.namespace) (λ h. c.get_owner_labels h owner pod.namespace))
        (keep_labels c owner)
        (ask-Keeps c (owner_get owner pod.namespace) (λ h. c.get_owner_labels h owner pod.namespace)
          refl)
        (keep_labels-Keeps owner)

  labels_of_owners-Keeps :
      (pod : Pod) (owners : List Owner) → Keeps (IsGuarded c) (labels_of_owners c pod owners)
  labels_of_owners-Keeps pod [] = give-Keeps c (err other)
  labels_of_owners-Keeps pod (owner ∷ rest) =
      Keeps->>= (IsGuarded c) (ask (cache_get owner.uid) (λ h. c.cached_labels h owner.uid))
        (labels_of_owner c pod owner)
        (ask-Keeps c (cache_get owner.uid) (λ h. c.cached_labels h owner.uid) refl)
        (labels_of_owner-Keeps pod owner)

  enabled_of_labels-Keeps :
      (r : Result ApiError (List (String × String))) → Keeps (IsGuarded c) (enabled_of_labels c r)
  enabled_of_labels-Keeps (err e) = give-Keeps c (err e)
  enabled_of_labels-Keeps (ok labels) = give-Keeps c (ok (is_enabled labels))

  enabled-Keeps : (pod : Pod) → Keeps (IsGuarded c) (is_recovery_enabled_for_pod c pod)
  unfolding is_recovery_enabled_for_pod get_pod_related_job_labels
  enabled-Keeps pod =
      Keeps-if (IsGuarded c) (is_enabled pod.labels) (give (ok true))
        (get_pod_related_job_labels c pod >>= enabled_of_labels c) (give-Keeps c (ok true))
        (Keeps->>= (IsGuarded c) (get_pod_related_job_labels c pod) (enabled_of_labels c)
          (labels_of_owners-Keeps pod pod.owners) enabled_of_labels-Keeps)

  recover_job-Keeps :
      (o : Option String) (pod : Pod) (namespace : String)
      → Keeps (IsGuarded c) (recover_job c o pod namespace)
  recover_job-Keeps none pod namespace = give-Keeps c tt
  recover_job-Keeps (some job) pod namespace =
      Keeps-if (IsGuarded c) (pod.restart_policy == "Never") (give tt)
        (allow_job_restart c namespace job >>= λ permit. restart_if c permit namespace job)
        (give-Keeps c tt) (restart-Keeps c namespace job)

  recover_if-Keeps :
      (r : Result ApiError Bool) (pod : Pod) (namespace : String)
      → Keeps (IsGuarded c) (recover_if c r pod namespace)
  recover_if-Keeps (err e) pod namespace = give-Keeps c tt
  recover_if-Keeps (ok false) pod namespace = give-Keeps c tt
  recover_if-Keeps (ok true) pod namespace =
      recover_job-Keeps (lookup kubeflow_job_label pod.labels) pod namespace

  recover_pod-Keeps :
      (r : Result ApiError Pod) (namespace : String)
      → Keeps (IsGuarded c) (recover_pod c r namespace)
  recover_pod-Keeps (err e) namespace = give-Keeps c tt
  recover_pod-Keeps (ok pod) namespace =
      Keeps->>= (IsGuarded c) (is_recovery_enabled_for_pod c pod)
        (λ enabled. recover_if c enabled pod namespace) (enabled-Keeps pod)
        (λ enabled. recover_if-Keeps enabled pod namespace)

  on_pod_error-Keeps :
      (namespace name : String) → Keeps (IsGuarded c) (on_pod_error c namespace name)
  unfolding on_pod_error
  on_pod_error-Keeps namespace name =
      Keeps->>= (IsGuarded c) (ask (pod_get namespace name) (λ h. c.get_pod h namespace name))
        (λ pod. recover_pod c pod namespace)
        (ask-Keeps c (pod_get namespace name) (λ h. c.get_pod h namespace name) refl)
        (λ pod. recover_pod-Keeps pod namespace)

  on_pod_errors-Keeps : (jobs : List (String × String)) → Keeps (IsGuarded c) (on_pod_errors c jobs)
  unfolding on_pod_errors
  on_pod_errors-Keeps [] = give-Keeps c tt
  on_pod_errors-Keeps ((namespace, name) ∷ rest) =
      Keeps->>= (IsGuarded c) (on_pod_error c namespace name) (λ u. on_pod_errors c rest)
        (on_pod_error-Keeps namespace name) (λ u. on_pod_errors-Keeps rest)

  mark_node-Keeps : (name : String) → Keeps (IsGuarded c) (mark_node c name)
  mark_node-Keeps name =
      Keeps->>= (IsGuarded c) (ensure_node_unschedulable c name) (λ marked. give tt)
        (ensure-Keeps c name) (λ marked. give-Keeps c tt)

  recover_jobs-Keeps :
      (r : Result ApiError (List (String × String))) (name : String)
      → Keeps (IsGuarded c) (recover_jobs c r name)
  recover_jobs-Keeps (err e) name = give-Keeps c tt
  recover_jobs-Keeps (ok jobs) name =
      Keeps->>= (IsGuarded c) (on_pod_errors c jobs) (λ u. mark_node c name)
        (on_pod_errors-Keeps jobs) (λ u. mark_node-Keeps name)

  list_jobs-Keeps : (name : String) → Keeps (IsGuarded c) (list_jobs_on_node c name)
  unfolding list_jobs_on_node
  list_jobs-Keeps name =
      Keeps->>= (IsGuarded c) (ask (pods_list name) (λ h. c.list_pods h name))
        (λ pods. give (jobs_of_answer c pods))
        (ask-Keeps c (pods_list name) (λ h. c.list_pods h name) refl)
        (λ pods. give-Keeps c (jobs_of_answer c pods))

  recover_node-Keeps :
      (r : Result ApiError Node) (event : Event) → Keeps (IsGuarded c) (recover_node c r event)
  recover_node-Keeps (err e) event = give-Keeps c tt
  recover_node-Keeps (ok node) event =
      Keeps-if (IsGuarded c) (node.unschedulable || event.reason == day2_event_reason)
        (mark_node c event.name)
        (list_jobs_on_node c event.name >>= λ jobs. recover_jobs c jobs event.name)
        (mark_node-Keeps event.name)
        (Keeps->>= (IsGuarded c) (list_jobs_on_node c event.name)
          (λ jobs. recover_jobs c jobs event.name) (list_jobs-Keeps event.name)
          (λ jobs. recover_jobs-Keeps jobs event.name))

  on_node_error-Keeps : (event : Event) → Keeps (IsGuarded c) (on_node_error c event)
  unfolding on_node_error
  on_node_error-Keeps event =
      Keeps->>= (IsGuarded c) (ask (node_get event.name) (λ h. c.get_node h event.name))
        (λ node. recover_node c node event)
        (ask-Keeps c (node_get event.name) (λ h. c.get_node h event.name) refl)
        (λ node. recover_node-Keeps node event)

  on_pod_event-Keeps :
      (t : EventType) (event : Event) → Keeps (IsGuarded c) (on_pod_event c t event)
  on_pod_event-Keeps error_event event = on_pod_error-Keeps event.namespace event.name
  on_pod_event-Keeps warning_event event = give-Keeps c tt
  on_pod_event-Keeps unknown_event event = give-Keeps c tt

  dispatch-Keeps : (r : ResourceType) (event : Event) → Keeps (IsGuarded c) (dispatch c r event)
  dispatch-Keeps pod_resource event = on_pod_event-Keeps event.event_type event
  dispatch-Keeps node_resource event = on_node_error-Keeps event
  dispatch-Keeps unknown_resource event = give-Keeps c tt

  mark_nodes-Keeps : (names : List String) → Keeps (IsGuarded c) (mark_nodes c names)
  unfolding mark_nodes
  mark_nodes-Keeps [] = give-Keeps c tt
  mark_nodes-Keeps (name ∷ rest) =
      Keeps->>= (IsGuarded c) (mark_node c name) (λ u. mark_nodes c rest) (mark_node-Keeps name)
        (λ u. mark_nodes-Keeps rest)

  act-Keeps : (r : Result AddError PreflightReportResult) → Keeps (IsGuarded c) (act_on_result c r)
  act-Keeps (err e) = give-Keeps c tt
  act-Keeps (ok result) =
      Keeps-if (IsGuarded c) (result.skipped && result.workload_name == "" || result.waiting)
        (give tt) (mark_nodes c result.slow_nodes) (give-Keeps c tt)
        (mark_nodes-Keeps result.slow_nodes)

  module _ (extract : String → Result ParseError Extracted) where
    report-Keeps :
        (s : PreflightTracker) (r : PreflightReport) (now : ℕ)
        → Keeps (IsGuarded c) (on_preflight_report c extract s r now)
    unfolding on_preflight_report
    report-Keeps s r now =
        let (s', result) = handle_report extract s r now in
        Keeps->>= (IsGuarded c) (act_on_result c result) (λ u. give s') (act-Keeps result)
          (λ u. give-Keeps c s')

    loop-Keeps :
        (s : PreflightTracker) (inputs : List Input)
        → Keeps (IsGuarded c) (controller_loop c extract s inputs)
    unfolding controller_loop on_event
    loop-Keeps s [] = give-Keeps c s
    loop-Keeps s (context_done ∷ rest) = give-Keeps c s
    loop-Keeps s (events_closed ∷ rest) = give-Keeps c s
    loop-Keeps s (reports_closed ∷ rest) = loop-Keeps s rest
    loop-Keeps s (tick now ∷ rest) = loop-Keeps (sweep_expired s now).0 rest
    loop-Keeps s (event_arrives event ∷ rest) =
        Keeps->>= (IsGuarded c) (on_event c event) (λ u. controller_loop c extract s rest)
          (dispatch-Keeps event.resource_type event) (λ u. loop-Keeps s rest)
    loop-Keeps s (report_arrives r now ∷ rest) =
        Keeps->>= (IsGuarded c) (on_preflight_report c extract s r now)
          (λ s'. controller_loop c extract s' rest) (report-Keeps s r now)
          (λ s'. loop-Keeps s' rest)

    -- Whatever events, reports and ticks the controller takes, and whatever the API answers, each
    -- deletion of the pods of a job follows at once on a claim: the ledger that was read had no entry of
    -- the job within the window, and the API accepted the entry of this restart.
    pub loop-IsGuarded :
        (s : PreflightTracker) (inputs : List Input)
        → IsGuarded c (controller_loop c extract s inputs []).0
    unfolding Keeps
    loop-IsGuarded s inputs = loop-Keeps s inputs [] tt
