-- ===== src/Events/Shown.antt =====
-- pkg/events/kubeevent_transport.go: how it takes an event of the API that shows a record.
use kcover.Events.{
  Event, KubeEvent, internal_event, day2_event_reason, event_max_age, is_node_object_ref,
  is_pod_object_ref, event_updated, node_resource, pod_resource, has_new_event_occurrence,
  is_expired_event, is_preflight_event, needs_recovery, should_watch_event, to_internal_event,
  to_internal_recovery_event,
}
use kcover.Events.Filter.{one_kind}
use kcover.Events.Sink.{Reference, annotations_for_event, is_preflight, reason_for_event}
use kcover.Shared.{
  String, false, inl, inr, refl, true, ℕ, ◌+◌, ◌<◌, ◌==◌, ◌≡◌, ◌≤◌, ◌∙◌, text_eq, ap, some, ◌⊎◌,
  Option, arith, eq_iff, int_lt, ==_refl,
}
use kcover.Kube.{current_namespace, current_namespace-not_empty}
use kcover.Events.Recorded.{
  IsShown, arrival, fresh, needs_after, node_reference, pod_reference, preflight_after,
  wants_recovery,
}

-- An event that passes the tests of the filter and of the conversion, as the event `e`.
abbrev pub Passes : String → KubeEvent → (filtered_at handled_at : ℕ) → Event → Type 0
Passes current k filtered_at handled_at e =
    (is_expired_event k filtered_at ≡ false)
    × (is_expired_event k handled_at ≡ false)
    × (is_preflight_event k ≡ false)
    × (needs_recovery k ≡ true)
    × (((is_pod_object_ref k ≡ true) × (e ≡ internal_event pod_resource k.involved_namespace k))
        ⊎ ((is_node_object_ref k ≡ true)
            × ((k.reason == day2_event_reason) ≡ true)
            × ((k.namespace == current) ≡ true)
            × (e ≡ internal_event node_resource k.namespace k)))

-- Such an event is handed on as an update of one that was counted less.
pub updated-Passes :
    (current : String) (old k : KubeEvent) (e : Event) (filtered_at handled_at : ℕ)
    → Passes current k filtered_at handled_at e
    → int_lt old.count k.count ≡ true
    → (should_watch_event k filtered_at ≡ true) × (event_updated current old k handled_at ≡ some e)
unfolding event_updated has_new_event_occurrence should_watch_event to_internal_event
    to_internal_recovery_event
updated-Passes current old k e f h passes more = ground (arith, one_kind k)

-- The target of an event, and the reference that its record has.
abbrev pub IsTarget : String → Event → Reference → Type 0
IsTarget current event ref =
    ((event.resource_type ≡ pod_resource) × (ref ≡ pod_reference event.namespace event.name))
    ⊎ ((event.resource_type ≡ node_resource)
        × ((event.reason == day2_event_reason) ≡ true)
        × (ref ≡ record (node_reference event.name) { ref_namespace = current }))

day2_reason :
    (event : Event)
    → (event.reason == day2_event_reason) ≡ true
    → reason_for_event event ≡ day2_event_reason
unfolding reason_for_event
day2_reason event h = rw ((eq_iff event.reason day2_event_reason).0 h) refl

-- An event of the API that shows the record of an event passes the tests.
shown_target :
    (file : Option String) (ref : Reference) (event : Event) (now : ℕ) (k : KubeEvent)
    → IsShown ref (annotations_for_event event) (reason_for_event event) event.message now k
    → IsTarget (current_namespace file) event ref
    → (let e = arrival (current_namespace file) event in
        ((is_pod_object_ref k ≡ true) × (e ≡ internal_event pod_resource k.involved_namespace k))
        ⊎ ((is_node_object_ref k ≡ true)
            × ((k.reason == day2_event_reason) ≡ true)
            × ((k.namespace == current_namespace file) ≡ true)
            × (e ≡ internal_event node_resource k.namespace k)))
shown_target file ref event now k s (inl (type, same)) =
    let group : k.involved_group ≡ "" = s.of_group ∙ ap (λ x. x.ref_group) same in
    let version : k.involved_version ≡ "v1" = s.of_version ∙ ap (λ x. x.ref_version) same in
    let kind : k.involved_kind ≡ "Pod" = s.of_kind ∙ ap (λ x. x.ref_kind) same in
    let ns : k.involved_namespace ≡ event.namespace =
      s.of_namespace ∙ ap (λ x. x.ref_namespace) same in
    let name : k.involved_name ≡ event.name = s.of_name ∙ ap (λ x. x.ref_name) same in
    inl (rw (group, version, kind) refl, rw (ns, name, s.with_reason, s.with_message, type) refl)
shown_target file ref event now k s (inr (type, day2, same)) =
    let group : k.involved_group ≡ "" = s.of_group ∙ ap (λ x. x.ref_group) same in
    let version : k.involved_version ≡ "v1" = s.of_version ∙ ap (λ x. x.ref_version) same in
    let kind : k.involved_kind ≡ "Node" = s.of_kind ∙ ap (λ x. x.ref_kind) same in
    let name : k.involved_name ≡ event.name = s.of_name ∙ ap (λ x. x.ref_name) same in
    let ns : ref.ref_namespace ≡ current_namespace file = ap (λ x. x.ref_namespace) same in
    let here : k.namespace ≡ current_namespace file =
      s.in_namespace ∙ rw (ns, current_namespace-not_empty file) refl in
    inr (
      rw (group, version, kind) refl,
      rw (s.with_reason, day2_reason event day2) refl,
      rw here (==_refl (current_namespace file)),
      rw (here, name, s.with_reason, s.with_message, type) refl,
    )

pub shown-Passes :
    (file : Option String) (ref : Reference) (event : Event) (now : ℕ) (k : KubeEvent)
    (filtered_at handled_at : ℕ)
    → IsShown ref (annotations_for_event event) (reason_for_event event) event.message now k
    → is_preflight event ≡ false
    → wants_recovery event ≡ true
    → 0 < now
    → filtered_at ≤ now + event_max_age
    → handled_at ≤ now + event_max_age
    → IsTarget (current_namespace file) event ref
    → Passes
        (current_namespace file)
        k
        filtered_at
        handled_at
        (arrival (current_namespace file) event)
shown-Passes file ref event now k filtered_at handled_at s std wants set early1 early2 target = (
  fresh k now filtered_at s.at_time set early1,
  fresh k now handled_at s.at_time set early2,
  rw s.with_notes (preflight_after event std),
  rw s.with_notes (needs_after event std wants),
  shown_target file ref event now k s target,
)
