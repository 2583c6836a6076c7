-- ===== src/Events/Recorded.antt =====
-- pkg/events/kubeevent_sink.go with the API: what becomes of a record.
use kcover.Events.{
  Event, KubeEvent, is_expired_event, event_max_age, error_event, ResourceType, node_resource,
  event_added, event_updated, should_watch_event, pod_resource, unknown_resource,
}
use kcover.Events.Sink.{
  Record, Reference, annotated, annotations_for_event, is_preflight, reason_for_event,
}
use kcover.Shared.{
  Bool, Bool-cases, List, String, [], arith, contains, false, if◌then◌else◌, inl, inr, keys, lookup,
  lookup-insert, not, or_default, refl, true, ℕ, ◌+◌, ◌<◌, ◌⊎◌, int_lt, ◌==◌, ◌≡◌, ◌≤◌, text_eq,
  Option-cases, contains-keys-lookup, some, subst,
}

-- What reference.GetReference says of a pod and of a node.
abbrev pub pod_reference : String → String → Reference
pod_reference ns pod_name = record {
  ref_group = "";
  ref_version = "v1";
  ref_kind = "Pod";
  ref_namespace = ns;
  ref_name = pod_name;
}

abbrev pub node_reference : String → Reference
node_reference node = record {
  ref_group = "";
  ref_version = "v1";
  ref_kind = "Node";
  ref_namespace = "";
  ref_name = node;
}

-- What becomes of a record in client-go's recorder and its broadcaster: it may be dropped, as one too
-- many of its source; it may be combined with similar ones, under a message of the recorder's or the
-- annotations of an earlier one; it is a new event of the API; or it repeats one with the same
-- annotations, which is updated from the first to the second.
pub data Recorded : Type 0 where
  is_dropped : Recorded
  is_combined : KubeEvent → Recorded
  is_new : KubeEvent → Recorded
  is_again : KubeEvent → KubeEvent → Recorded

-- The event shows the record, with its last occurrence at `now`, the second in which it is recorded. It
-- is in the namespace of its object, or in `default` for an object that has none.
pub record IsShown (ref : Reference) (notes : List (String × String)) (why text : String) (now : ℕ)
    (k : KubeEvent) : Type 0 where
  pub in_namespace :
      k.namespace ≡ (if ref.ref_namespace == "" then "default" else ref.ref_namespace)
  pub with_notes : k.annotations ≡ notes
  pub with_reason : k.reason ≡ why
  pub with_message : k.message ≡ text
  pub at_time : k.last_timestamp ≡ now
  pub of_group : k.involved_group ≡ ref.ref_group
  pub of_version : k.involved_version ≡ ref.ref_version
  pub of_kind : k.involved_kind ≡ ref.ref_kind
  pub of_namespace : k.involved_namespace ≡ ref.ref_namespace
  pub of_name : k.involved_name ≡ ref.ref_name

-- client-go's recorder as the documentation of EventCorrelator has it: a new event and an update show
-- the record, and an update counts one more occurrence.
pub record IsRecorder (stored : Record → ℕ → Recorded) : Type 0 where
  pub new_law :
      (ref : Reference) (notes : List (String × String)) (why text : String) (now : ℕ)
      (k : KubeEvent)
      → stored (annotated ref notes why text) now ≡ is_new k
      → IsShown ref notes why text now k
  pub again_law :
      (ref : Reference) (notes : List (String × String)) (why text : String) (now : ℕ)
      (old k : KubeEvent)
      → stored (annotated ref notes why text) now ≡ is_again old k
      → IsShown ref notes why text now k × (int_lt old.count k.count ≡ true)

-- What the controller gets of a record: nothing if it is dropped or combined. A new event is handed on
-- by the handler of new events. An update is handed on by either handler: the filter of the informer
-- takes an event for a new one if it did not let the old one through.
abbrev pub Arrives : String → Recorded → (filtered_at handled_at : ℕ) → Event → Type 0
Arrives current outcome filtered_at handled_at e =
    (outcome ≡ is_dropped)
    ⊎ ((k : KubeEvent) × (outcome ≡ is_combined k))
    ⊎ ((k : KubeEvent) × (outcome ≡ is_new k)
        × (event_added current k filtered_at handled_at ≡ some e))
    ⊎ ((old : KubeEvent) × (k : KubeEvent) × (outcome ≡ is_again old k)
        × (should_watch_event k filtered_at ≡ true)
        × (event_added current k filtered_at handled_at ≡ some e)
        × (event_updated current old k handled_at ≡ some e))

-- The namespace of an event when it arrives: that of its pod, or the program's own for a node.
abbrev pub arrival_namespace : ResourceType → String → String → String
arrival_namespace pod_resource current ns = ns
arrival_namespace node_resource current ns = current
arrival_namespace unknown_resource current ns = ns

-- The event that the controller gets for one that an agent records.
abbrev pub arrival : String → Event → Event
arrival current event = record event {
  namespace = arrival_namespace event.resource_type current event.namespace;
  reason = reason_for_event event;
  annotations = [];
  event_type = error_event;
}

-- The annotations do not say that the event asks for no recovery.
abbrev pub wants_recovery : Event → Bool
wants_recovery event =
    or_default "true" (lookup "kcover.io/need-recovery" event.annotations) == "true"

value_of_key :
    (m : List (String × String)) (k : String)
    → contains (keys m) k ≡ true
    → (v : String) × (lookup k m ≡ some v)
value_of_key m k h = elim (Option-cases (lookup k m)) [
  | inl missing ↦ absurd (ground (arith, contains-keys-lookup m k))
  | inr found ↦ found
]

pub needs_after :
    (event : Event)
    → is_preflight event ≡ false
    → wants_recovery event ≡ true
    → (or_default "" (lookup "kcover.io/need-recovery" (annotations_for_event event)) == "true")
      ≡ true
unfolding annotations_for_event
needs_after event std wants =
    elim (Bool-cases (contains (keys event.annotations) "kcover.io/need-recovery")) [
      | inl there ↦
          let (v, at) = value_of_key event.annotations "kcover.io/need-recovery" there in
          rw (std, there, at) (subst (λ o. (or_default "true" o == "true") ≡ true) at wants)
      | inr missing ↦
          rw
            (
              std,
              missing,
              lookup-insert "kcover.io/need-recovery" "true" event.annotations
                  "kcover.io/need-recovery",
            )
            refl
    ]

pub preflight_after :
    (event : Event)
    → is_preflight event ≡ false
    → not
        (or_default "" (lookup "kcover.io/preflight-workload" (annotations_for_event event)) == "")
      ≡ false
unfolding annotations_for_event
preflight_after event std =
    elim (Bool-cases (contains (keys event.annotations) "kcover.io/need-recovery")) [
      | inl there ↦ rw (std, there) std
      | inr missing ↦
          rw
            (
              std,
              missing,
              lookup-insert "kcover.io/need-recovery" "true" event.annotations
                  "kcover.io/preflight-workload",
            )
            std
    ]

pub fresh :
    (event : KubeEvent) (now later : ℕ)
    → event.last_timestamp ≡ now
    → 0 < now
    → later ≤ now + event_max_age
    → is_expired_event event later ≡ false
unfolding is_expired_event
fresh event now later a b h = ground arith
