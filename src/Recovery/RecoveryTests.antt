-- ===== src/Recovery/RecoveryTests.antt =====
-- A controller that meets one pod, one node and an empty ledger.
use kcover.Shared.{
  List, Result, String, [], err, false, if◌then◌else◌, lookup, none, not, ok, pos, refl, some, true,
  ◌++◌, ◌==◌, ◌∷◌, ◌≡◌, ◌⊎◌, text_eq, inr,
}
use kcover.Cluster.{
  Call, ApiError, Cluster, Node, Pod, clock_read, ledger_create, ledger_get, node_get, not_found,
  other, pod_get, pods_delete, pods_list,
}
use kcover.Recovery.Controller.{
  enabled_recovery_label, jobs_of_pods, kubeflow_job_label, mark_node, on_event, on_node_error,
  on_pod_error,
}
use kcover.Preflight.Types.{Extracted, ParseError, bad_json}
use kcover.Recovery.Loop.{Input, controller_loop, event_arrives, tick}
use kcover.Recovery.Guard.{IsClaim, allow_restart-IsClaim}
use kcover.Recovery.Deletes.{IsGuarded}
use kcover.Recovery.NodeError.{
  IsHandedOn, NoPodNamed, lookups, node_error_restarts_nothing, transported_node_event,
}
use kcover.Recovery.Tracker.{PreflightTracker, new_preflight_tracker}
use kcover.Recovery.Ledger.{allow_restart, job_restart_ledger_key, new_ledger, restart_attempt}
use kcover.Kube.Marking.{is_marked, mark_unschedulable_lem}
use kcover.Recovery.Handlers.{loop-IsGuarded}
use kcover.Kube.{mark_unschedulable, retry_on, unschedulable_taint}
use kcover.Events.{
  Event, error_event, node_resource, pod_resource, KubeEvent, day2_event_reason, event_updated,
  has_new_event_occurrence, internal_event, is_expired_event, should_watch_event, to_internal_event,
  to_internal_recovery_event,
}

abbrev demo_pod : Pod
demo_pod = record {
  namespace = "team";
  pod_name = "train-0";
  labels = (kubeflow_job_label, "train") ∷ (enabled_recovery_label, "true") ∷ [];
  restart_policy = "OnFailure";
  owners = [];
}

abbrev demo_node : Node
demo_node = record { node_name = "n1"; unschedulable = false; taints = []; resource_version = "1" }

abbrev demo_get_pod : List Call → String → String → Result ApiError Pod
demo_get_pod h namespace name = if name == "train-0" then ok demo_pod else err not_found

-- The ledger does not exist, and every write is accepted.
abbrev demo_cluster : Cluster
demo_cluster = record {
  get_pod = demo_get_pod;
  list_pods = λ h node. ok (demo_pod ∷ []);
  delete_pods = λ h namespace job. none;
  get_node = λ h name. ok demo_node;
  update_node = λ h node. none;
  cached_labels = λ h uid. none;
  get_owner_labels = λ h owner namespace. err other;
  get_ledger = λ h. err not_found;
  create_ledger = λ h m. none;
  update_ledger = λ h m. none;
  clock = λ h. 5;
  hash_key = λ codes. "key";
  format_time = λ t. "5";
  parse_time = λ s. some 5;
  current_namespace = "kcover";
}

abbrev pod_event : Event
pod_event = record {
  resource_type = pod_resource;
  namespace = "team";
  name = "train-0";
  reason = "";
  annotations = [];
  message = "";
  event_type = error_event;
}

abbrev node_event : Event
node_event = record {
  resource_type = node_resource;
  namespace = "kcover";
  name = "n1";
  reason = "Broken";
  annotations = [];
  message = "";
  event_type = error_event;
}

abbrev no_reports : String → Result ParseError Extracted
no_reports text = err bad_json

abbrev demo_tracker : PreflightTracker
demo_tracker = new_preflight_tracker (pos 0)

abbrev demo_inputs : List Input
demo_inputs = event_arrives pod_event ∷ tick 3 ∷ []

-- The pod's error deletes the pods of its job, after the ledger is written.
pod_error_deletes :
    (controller_loop demo_cluster no_reports demo_tracker demo_inputs []).0
    ≡ pods_delete "team" "train"
      ∷ ledger_create (new_ledger demo_cluster "key" 5)
      ∷ ledger_get
      ∷ clock_read
      ∷ pod_get "team" "train-0"
      ∷ []
unfolding controller_loop on_event on_pod_error lookup allow_restart retry_on restart_attempt
pod_error_deletes = refl

loop-IsGuarded_example :
    IsGuarded demo_cluster (controller_loop demo_cluster no_reports demo_tracker demo_inputs []).0
loop-IsGuarded_example = loop-IsGuarded demo_cluster no_reports demo_tracker demo_inputs

permit_allowed :
    ((allow_restart demo_cluster "team" "train" 30 []).1.0 ≡ none)
    × ((allow_restart demo_cluster "team" "train" 30 []).1.1.allowed ≡ true)
unfolding allow_restart restart_attempt retry_on
permit_allowed = (refl, refl)

allow_restart-IsClaim_example :
    IsClaim demo_cluster 30
      (job_restart_ledger_key demo_cluster "team" "train")
      (allow_restart demo_cluster "team" "train" 30 []).0
allow_restart-IsClaim_example =
    allow_restart-IsClaim demo_cluster "team" "train" 30 [] permit_allowed.0 permit_allowed.1

NoPodNamed-train : NoPodNamed demo_cluster (jobs_of_pods demo_cluster (demo_pod ∷ []) [])
unfolding jobs_of_pods lookup
NoPodNamed-train = ((λ h. refl), tt)

node_error_restarts_nothing_example :
    on_node_error demo_cluster node_event []
    ≡ mark_node demo_cluster "n1" (
        lookups
          (jobs_of_pods demo_cluster (demo_pod ∷ []) [])
          (pods_list "n1" ∷ node_get "n1" ∷ []))
node_error_restarts_nothing_example =
    node_error_restarts_nothing demo_cluster node_event demo_node (demo_pod ∷ []) [] refl refl refl
      refl NoPodNamed-train

mark_unschedulable_lem_example :
    (is_marked (mark_unschedulable demo_node).0 ≡ true)
    × ((mark_unschedulable demo_node).1 ≡ not (is_marked demo_node))
    × ((mark_unschedulable demo_node).0.resource_version ≡ demo_node.resource_version)
    × (((mark_unschedulable demo_node).0.taints ≡ demo_node.taints)
        ⊎ ((mark_unschedulable demo_node).0.taints
            ≡ demo_node.taints ++ (unschedulable_taint ∷ [])))
    × (mark_unschedulable (mark_unschedulable demo_node).0
        ≡ ((mark_unschedulable demo_node).0, false))
mark_unschedulable_lem_example = mark_unschedulable_lem demo_node

abbrev day2_event : KubeEvent
day2_event = record {
  namespace = "kcover";
  annotations = ("kcover.io/need-recovery", "true") ∷ [];
  reason = day2_event_reason;
  message = "";
  count = pos 1;
  last_timestamp = 5;
  creation_timestamp = 5;
  involved_group = "";
  involved_version = "v1";
  involved_kind = "Node";
  involved_namespace = "";
  involved_name = "n1";
}

abbrev day2_internal : Event
day2_internal = internal_event node_resource "kcover" day2_event

-- The event, seen once more.
abbrev day2_again : KubeEvent
day2_again = record day2_event { count = pos 2 }

day2-IsHandedOn : IsHandedOn demo_cluster "kcover" day2_event day2_again 6 7 day2_internal
unfolding event_updated has_new_event_occurrence should_watch_event to_internal_event
    to_internal_recovery_event is_expired_event lookup
day2-IsHandedOn = inr (refl, refl)

transported_node_event_example :
    on_event demo_cluster day2_internal [] ≡ mark_node demo_cluster "n1" (node_get "n1" ∷ [])
transported_node_event_example =
    transported_node_event demo_cluster "kcover" day2_event day2_again 6 7 day2_internal demo_node
      [] day2-IsHandedOn refl refl
