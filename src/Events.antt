-- ===== src/Events.antt =====
-- pkg/events/events.go and kubeevent_transport.go: which Kubernetes events become internal events, and
-- how those reach the controller. The informer and the work queue are client-go's.
use kcover.Shared.{
  ℕ, Bool, List, Option, String, [], false, if◌then◌else◌, int_lt, lookup, ltb, none, not,
  or_default, some, true, ℤ, ◌&&◌, ◌+◌, ◌==◌, ◌||◌, text_eq, nat_eq,
}
use kcover.Cluster.{Node, Pod}
pub mod Filter
pub mod Delivery
pub mod Sink
pub mod Recorded
pub mod Shown
pub mod RoundTrip
pub mod Demo
mod EventsTests

-- pkg/events/events.go: an event of the internal stream.
pub data ResourceType : Type 0 where
  pod_resource node_resource unknown_resource : ResourceType

pub data EventType : Type 0 where
  error_event warning_event unknown_event : EventType

pub record Event : Type 0 where
  pub resource_type : ResourceType
  pub namespace : String
  pub name : String
  pub reason : String
  pub annotations : List (String × String)
  pub event_type : EventType
  pub message : String

abbrev pub day2_event_reason : String
day2_event_reason = "Day2CheckFailed"

-- An event of the API; `count` is an int32, and a time of 0 is the zero time.
pub record KubeEvent : Type 0 where
  pub namespace : String
  pub annotations : List (String × String)
  pub reason : String
  pub message : String
  pub count : ℤ
  pub last_timestamp : ℕ
  pub creation_timestamp : ℕ
  pub involved_group : String
  pub involved_version : String
  pub involved_kind : String
  pub involved_namespace : String
  pub involved_name : String

abbrev pub annotation : String → KubeEvent → String
annotation key event = or_default "" (lookup key event.annotations)

abbrev pub is_preflight_event : KubeEvent → Bool
is_preflight_event event = not (annotation "kcover.io/preflight-workload" event == "")

abbrev pub needs_recovery : KubeEvent → Bool
needs_recovery event = annotation "kcover.io/need-recovery" event == "true"

abbrev pub is_object_ref : String → KubeEvent → Bool
is_object_ref kind event =
    event.involved_group == "" && event.involved_version == "v1" && event.involved_kind == kind

abbrev pub is_node_object_ref : KubeEvent → Bool
is_node_object_ref = is_object_ref "Node"

abbrev pub is_pod_object_ref : KubeEvent → Bool
is_pod_object_ref = is_object_ref "Pod"

-- Three minutes.
abbrev pub event_max_age : ℕ
event_max_age = 180000000000

unfoldable pub is_expired_event : KubeEvent → ℕ → Bool
is_expired_event event now =
    let time =
      if event.last_timestamp == 0 then event.creation_timestamp else event.last_timestamp in
    ltb (time + event_max_age) now

unfoldable pub should_watch_event : KubeEvent → ℕ → Bool
should_watch_event event now =
    if is_expired_event event now
    then false
    else if is_preflight_event event
    then false
    else if not (needs_recovery event)
    then false
    else if is_node_object_ref event
    then event.reason == day2_event_reason
    else is_pod_object_ref event

unfoldable pub has_new_event_occurrence : KubeEvent → KubeEvent → Bool
has_new_event_occurrence old new =
    if int_lt old.count new.count
    then true
    else if old.last_timestamp == 0 || new.last_timestamp == 0
    then false
    else ltb old.last_timestamp new.last_timestamp

abbrev pub internal_event : ResourceType → String → KubeEvent → Event
internal_event resource ns event = record {
  resource_type = resource;
  namespace = ns;
  name = event.involved_name;
  reason = event.reason;
  annotations = [];
  event_type = error_event;
  message = event.message;
}

-- The first argument is kube.CurrentNamespace().
unfoldable pub to_internal_recovery_event : String → KubeEvent → Option Event
to_internal_recovery_event current event =
    if is_pod_object_ref event
    then some (internal_event pod_resource event.involved_namespace event)
    else if is_node_object_ref event
    then (if event.namespace == current
        then some (internal_event node_resource event.namespace event)
        else none)
    else none

unfoldable pub to_internal_event : String → KubeEvent → Option Event
to_internal_event current event =
    if is_preflight_event event
    then none
    else if not (needs_recovery event)
    then none
    else to_internal_recovery_event current event

-- What handleK8sEventAdd and handleK8sEventUpdate hand to forwardK8sEvent, behind the filter. Go reads
-- the clock once for the filter and once for the handler.
unfoldable pub event_added : String → KubeEvent → (filtered_at handled_at : ℕ) → Option Event
event_added current event filtered_at handled_at =
    if should_watch_event event filtered_at && not (is_expired_event event handled_at)
    then to_internal_event current event
    else none

unfoldable pub event_updated : String → KubeEvent → KubeEvent → ℕ → Option Event
event_updated current old new handled_at =
    if has_new_event_occurrence old new && not (is_expired_event new handled_at)
    then to_internal_event current new
    else none
