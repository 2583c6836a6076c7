-- ===== src/Events/Sink.antt =====
-- pkg/events/kubeevent_sink.go: how an internal event is recorded as an event of Kubernetes. What the
-- API and client-go's recorder make of a record is a parameter.
use kcover.Shared.{
  Bool, List, Result, String, contains, err, if◌then◌else◌, insert, keys, lookup, not, ok,
  or_default, ◌&&◌, ◌+++◌, ◌==◌, text_eq,
}
use kcover.Events.{Event, pod_resource, node_resource, unknown_resource, ResourceType}
use kcover.Cluster.{ApiError}

-- corev1.ObjectReference, as reference.GetReference makes it.
pub record Reference : Type 0 where
  pub ref_group : String
  pub ref_version : String
  pub ref_kind : String
  pub ref_namespace : String
  pub ref_name : String

-- What the sink asks for: an event through the recorder, or one that it creates itself in the namespace
-- of the program.
pub data Record : Type 0 where
  annotated : Reference → List (String × String) → String → String → Record
  created : String → Reference → List (String × String) → String → String → Record

pub data SinkError : Type 0 where
  no_object : ApiError → SinkError
  unsupported_target : SinkError

abbrev pub note_of : String → Event → String
note_of key event = or_default "" (lookup key event.annotations)

-- IsPreflightEvent
abbrev pub is_preflight : Event → Bool
is_preflight event = not (note_of "kcover.io/preflight-workload" event == "")

unfoldable pub ensure_event_namespace : String → Reference → ResourceType → Reference
ensure_event_namespace current ref node_resource =
    if not (ref.ref_namespace == "") then ref else record ref { ref_namespace = current }
ensure_event_namespace current ref _ = ref

unfoldable pub reason_for_event : Event → String
reason_for_event event = if not (event.reason == "") then event.reason else "Error"

unfoldable pub annotations_for_event : Event → List (String × String)
annotations_for_event event =
    if is_preflight event
    then event.annotations
    else if contains (keys event.annotations) "kcover.io/need-recovery"
    then event.annotations
    else insert "kcover.io/need-recovery" "true" event.annotations

unfoldable pub preflight_event_message : Event → String
preflight_event_message event =
    let workload = note_of "kcover.io/preflight-workload" event in
    let report = note_of "kcover.io/preflight-report" event in
    if not (report == "") && not (workload == "")
    then "preflight report(" +++ report +++ ") available for workload(" +++ workload
      +++ ") on node(" +++ event.name +++ ")"
    else if workload == ""
    then "preflight report available for node(" +++ event.name +++ ")"
    else "preflight report available for workload(" +++ workload +++ ") on node(" +++ event.name
      +++ ")"

-- recordEvent with recordStdEvent and recordPreflightEvent.
unfoldable pub record_event_for : String → Reference → Event → Record
unfolding annotations_for_event reason_for_event preflight_event_message ensure_event_namespace
record_event_for current object event =
    let ref = ensure_event_namespace current object event.resource_type in
    if is_preflight event
    then created current ref (annotations_for_event event) "PreflightReportAvailable"
        (preflight_event_message event)
    else annotated ref (annotations_for_event event) (reason_for_event event) event.message

abbrev pub recorded : String → Event → Result ApiError Reference → Result SinkError Record
recorded current event (err e) = err (no_object e)
recorded current event (ok ref) = ok (record_event_for current ref event)

-- The calls of RecordEvent by the type of the object.
abbrev pub record_to :
    ResourceType
    → (String → String → Result ApiError Reference)
    → (String → Result ApiError Reference)
    → String
    → Event
    → Result SinkError Record
record_to pod_resource get_pod get_node current event =
    recorded current event (get_pod event.namespace event.name)
record_to node_resource get_pod get_node current event =
    recorded current event (get_node event.name)
record_to unknown_resource get_pod get_node current event = err unsupported_target

-- RecordEvent; the first two arguments are the lookups of a pod and of a node, with the reference to
-- what they find.
unfoldable pub record_event :
    (String → String → Result ApiError Reference)
    → (String → Result ApiError Reference)
    → String
    → Event
    → Result SinkError Record
record_event get_pod get_node current event =
    record_to event.resource_type get_pod get_node current event
