-- ===== src/PodObserver/Arrivals.antt =====
-- pkg/detector/pod with pkg/events: what the controller learns of a container that failed.
use mathlib.Core.List.{Memᴰ}
use kcover.PodObserver.{Terminated, WatchedPod, ContainerStatus, handle_add, publish}
use kcover.PodObserver.Deserved.{published_iff, recovery_label}
use kcover.PodObserver.Failures.{container_error_rule, failure_event}
use kcover.Events.{error_event, event_max_age, pod_resource}
use kcover.Events.Sink.{Record, Reference, record_event, reason_for_event}
use kcover.Events.Recorded.{Arrives, IsRecorder, Recorded, pod_reference}
use kcover.Events.RoundTrip.{record_event-event_added}
use kcover.Cluster.{ApiError}
use kcover.Shared.{
  Bool, Option, Result, String, [], int_text, lookup, ok, refl, some, ℕ, ◌+++◌, ◌+◌, ◌<◌, ◌∷◌, ◌≡◌,
  ◌≢◌, ◌≤◌, inl,
}
use kcover.Kube.{current_namespace}

-- If a container of a pod that has the label of recovery has terminated with the reason `Error`, then
-- the detector publishes an event of it, for a pod that is new and one that was there before the start
-- alike. If the pod is still found when that event is recorded, at a time that is not the zero time,
-- then the sink asks for a record that the recorder drops, or combines with others, or that reaches the
-- controller, for a transport that gets to it within three minutes and a recorder that keeps its laws:
-- as an error of this pod with the reason `Error` and a message that names the container, its message
-- and its exit code.
pub failed_container-Arrives :
    (stored : Record → ℕ → Recorded) (get_pod : String → String → Result ApiError Reference)
    (get_node : String → Result ApiError Reference) (file : Option String) (pod : WatchedPod)
    (is_in_initial_list : Bool) (cs : ContainerStatus) (state : Terminated)
    (now filtered_at handled_at : ℕ)
    → IsRecorder stored
    → recovery_label pod ≢ ""
    → Memᴰ cs pod.container_statuses
    → cs.terminated ≡ some state
    → state.exit_reason ≡ "Error"
    → get_pod pod.pod_namespace pod.watched_name
      ≡ ok (pod_reference pod.pod_namespace pod.watched_name)
    → 0 < now
    → filtered_at ≤ now + event_max_age
    → handled_at ≤ now + event_max_age
    → Memᴰ
        (publish (failure_event pod cs.container_name state))
        (handle_add (container_error_rule ∷ []) pod is_in_initial_list)
      × ((r : Record) × (record_event get_pod get_node
              (current_namespace file)
              (failure_event pod cs.container_name state)
            ≡ ok r)
          × Arrives (current_namespace file) (stored r now) filtered_at handled_at (record {
            resource_type = pod_resource;
            namespace = pod.pod_namespace;
            name = pod.watched_name;
            reason = "Error";
            annotations = [];
            event_type = error_event;
            message =
                "container "
                +++ cs.container_name
                +++ " terminated with error: "
                +++ state.exit_message
                +++ ", exit code: "
                +++ int_text state.exit_code;
          }))
unfolding lookup reason_for_event
failed_container-Arrives stored get_pod get_node file pod b cs state now filtered_at handled_at
      recorder labelled listed ended why got set early1 early2 =
    let e = failure_event pod cs.container_name state in
    (
      (published_iff pod b (publish e)).1
          (labelled, (e, (cs, state, listed, ended, why, refl), refl)),
      record_event-event_added stored recorder get_pod get_node file e now filtered_at handled_at
          refl refl set early1 early2 (inl (refl, got)),
    )
