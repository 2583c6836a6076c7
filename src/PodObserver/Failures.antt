-- ===== src/PodObserver/Failures.antt =====
-- pkg/detector/pod/pod_status.go: the containers of a pod that ended in an error.

use kcover.PodObserver.{ContainerStatus, PodRule, Terminated, WatchedPod, publish, value_at}
use kcover.Events.{Event, error_event, pod_resource}
use kcover.Shared.{
  Bool, List, Option, String, [], false, if◌then◌else◌, int_beq, int_text, map, none, not, some,
  true, ◌&&◌, ◌+++◌, ◌++◌, ◌==◌, ◌||◌, ◌∷◌, text_eq, nat_eq,
}

abbrev pub terminated_beq : Option Terminated → Option Terminated → Bool
terminated_beq none none = true
terminated_beq (some a) (some b) =
    a.exit_reason == b.exit_reason
    && a.exit_message == b.exit_message
    && int_beq a.exit_code b.exit_code
    && a.finished_at == b.finished_at
terminated_beq none (some b) = false
terminated_beq (some a) none = false

-- reflect.DeepEqual on two lists of statuses.
abbrev pub statuses_beq : List ContainerStatus → List ContainerStatus → Bool
statuses_beq [] [] = true
statuses_beq (a ∷ xs) (b ∷ ys) =
    a.container_name == b.container_name
    && terminated_beq a.terminated b.terminated
    && a.unread == b.unread
    && statuses_beq xs ys
statuses_beq [] (b ∷ ys) = false
statuses_beq (a ∷ xs) [] = false

unfoldable pub should_check_pod_update : WatchedPod → WatchedPod → Bool
should_check_pod_update old new =
    not (statuses_beq old.container_statuses new.container_statuses)
    || not (statuses_beq old.init_container_statuses new.init_container_statuses)

unfoldable pub should_handle_pod : WatchedPod → Bool
should_handle_pod pod = not (value_at "kcover.io/cascading-recovery" pod.pod_labels == "")

-- The event of a container that terminated.
abbrev pub failure_event : WatchedPod → String → Terminated → Event
failure_event pod container state = record {
  resource_type = pod_resource;
  namespace = pod.pod_namespace;
  name = pod.watched_name;
  reason = "";
  annotations = [];
  event_type = error_event;
  message =
      "container "
      +++ container
      +++ " terminated with error: "
      +++ state.exit_message
      +++ ", exit code: "
      +++ int_text state.exit_code;
}

-- The tests of containerEvents on one container.
abbrev pub container_event : WatchedPod → String → Option Terminated → List Event
container_event pod container none = []
container_event pod container (some state) =
    if state.exit_reason == "Error" then failure_event pod container state ∷ [] else []

unfoldable pub container_events : WatchedPod → List ContainerStatus → List Event
container_events pod [] = []
container_events pod (cs ∷ statuses) =
    container_event pod cs.container_name cs.terminated ++ container_events pod statuses

unfoldable pub pod_events : WatchedPod → List Event
unfolding container_events should_handle_pod
pod_events pod =
    if not (should_handle_pod pod) then [] else container_events pod pod.container_statuses

unfoldable pub update_events : WatchedPod → WatchedPod → List Event
unfolding pod_events should_check_pod_update
update_events old new = if not (should_check_pod_update old new) then [] else pod_events new

abbrev pub container_error_rule : PodRule
container_error_rule = record {
  on_add = λ pod. map publish (pod_events pod);
  on_update = λ old new. map publish (update_events old new);
  should_handle_initial_list = true;
}
