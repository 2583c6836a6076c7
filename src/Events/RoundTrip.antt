-- ===== src/Events/RoundTrip.antt =====
-- pkg/events: kubeevent_sink.go before kubeevent_transport.go.
use kcover.Events.{Event, KubeEvent, day2_event_reason, event_max_age, node_resource, pod_resource}
use kcover.Events.Filter.{event_added_iff}
use kcover.Events.Sink.{
  Record, Reference, annotated, annotations_for_event, is_preflight, reason_for_event,
  ensure_event_namespace, record_event, record_event_for,
}
use kcover.Shared.{
  String, false, inl, inr, refl, true, ℕ, ◌+◌, ◌<◌, ◌==◌, ◌≡◌, ◌≤◌, text_eq, ◌⊎◌, Option, Result,
  ok,
}
use kcover.Cluster.{ApiError}
use kcover.Kube.{current_namespace}
use kcover.Events.Recorded.{
  Arrives, IsRecorder, Recorded, arrival, is_again, is_combined, is_dropped, is_new, node_reference,
  pod_reference, wants_recovery,
}
use kcover.Events.Shown.{IsTarget, shown-Passes, updated-Passes}

Recorded-cases :
    (o : Recorded)
    → (o ≡ is_dropped)
      ⊎ ((k : KubeEvent) × (o ≡ is_combined k))
      ⊎ ((k : KubeEvent) × (o ≡ is_new k))
      ⊎ ((old : KubeEvent) × (k : KubeEvent) × (o ≡ is_again old k))
Recorded-cases is_dropped = inl refl
Recorded-cases (is_combined k) = inr (inl (k, refl))
Recorded-cases (is_new k) = inr (inr (inl (k, refl)))
Recorded-cases (is_again old k) = inr (inr (inr (old, k, refl)))

pod_record :
    (get_pod : String → String → Result ApiError Reference)
    (get_node : String → Result ApiError Reference) (current : String) (event : Event)
    → is_preflight event ≡ false
    → event.resource_type ≡ pod_resource
    → get_pod event.namespace event.name ≡ ok (pod_reference event.namespace event.name)
    → record_event get_pod get_node current event
      ≡ ok (
          annotated
            (pod_reference event.namespace event.name)
            (annotations_for_event event)
            (reason_for_event event)
            event.message)
unfolding record_event record_event_for ensure_event_namespace
pod_record get_pod get_node current event std type got = rw type (rw got (rw std refl))

node_record :
    (get_pod : String → String → Result ApiError Reference)
    (get_node : String → Result ApiError Reference) (current : String) (event : Event)
    → is_preflight event ≡ false
    → event.resource_type ≡ node_resource
    → get_node event.name ≡ ok (node_reference event.name)
    → record_event get_pod get_node current event
      ≡ ok (
          annotated
            (record (node_reference event.name) { ref_namespace = current })
            (annotations_for_event event)
            (reason_for_event event)
            event.message)
unfolding record_event record_event_for ensure_event_namespace
node_record get_pod get_node current event std type got = rw type (rw got (rw std refl))

module _ (stored : Record → ℕ → Recorded) (recorder : IsRecorder stored) where
  record-Arrives :
      (file : Option String) (ref : Reference) (event : Event) (now filtered_at handled_at : ℕ)
      → is_preflight event ≡ false
      → wants_recovery event ≡ true
      → 0 < now
      → filtered_at ≤ now + event_max_age
      → handled_at ≤ now + event_max_age
      → IsTarget (current_namespace file) event ref
      → Arrives
          (current_namespace file)
          (stored
            (annotated ref (annotations_for_event event) (reason_for_event event) event.message)
            now)
          filtered_at
          handled_at
          (arrival (current_namespace file) event)
  record-Arrives file ref event now filtered_at handled_at std wants set early1 early2 target =
      let current = current_namespace file in
      let r = annotated ref (annotations_for_event event) (reason_for_event event) event.message in
      elim (Recorded-cases (stored r now)) [
        | inl dropped ↦ inl dropped
        | inr (inl (k, combined)) ↦ inr (inl (k, combined))
        | inr (inr (inl (k, fresh_one))) ↦
            let passes =
              shown-Passes file ref event now k filtered_at handled_at
                (recorder.new_law ref (annotations_for_event event) (reason_for_event event)
                  event.message now k fresh_one)
                std wants set early1 early2 target in
            inr (
              inr (
                inl (
                  k,
                  fresh_one,
                  (event_added_iff current k filtered_at handled_at (arrival current event)).1
                      passes,
                )))
        | inr (inr (inr (old, k, again))) ↦
            let (shown, more) =
              recorder.again_law ref (annotations_for_event event) (reason_for_event event)
                event.message now old k again in
            let passes =
              shown-Passes file ref event now k filtered_at handled_at shown std wants set early1
                early2 target in
            let (watched, updated) =
              updated-Passes current old k (arrival current event) filtered_at handled_at passes
                more in
            inr (
              inr (
                inr (
                  old,
                  k,
                  again,
                  watched,
                  (event_added_iff current k filtered_at handled_at (arrival current event)).1
                      passes,
                  updated,
                )))
      ]

  -- If an event of a pod that is found is recorded, or an event with the day-2 reason of a node that is
  -- found, at a time that is not the zero time, then the sink asks for a record of it, and the recorder
  -- drops that, or combines it with others, or it reaches the controller: as a new event, and where it
  -- repeats one, as an update too. It has its object and its message then, the reason `Error` if it had
  -- none, the program's namespace if it is about a node, and is an event of an error without
  -- annotations. This holds for events other than those of preflight reports and those that decline
  -- recovery, a transport that gets to it within three minutes, and a recorder that keeps its laws.
  pub record_event-event_added :
      (get_pod : String → String → Result ApiError Reference)
      (get_node : String → Result ApiError Reference) (file : Option String) (event : Event)
      (now filtered_at handled_at : ℕ)
      → is_preflight event ≡ false
      → wants_recovery event ≡ true
      → 0 < now
      → filtered_at ≤ now + event_max_age
      → handled_at ≤ now + event_max_age
      → ((event.resource_type ≡ pod_resource)
          × (get_pod event.namespace event.name ≡ ok (pod_reference event.namespace event.name)))
        ⊎ ((event.resource_type ≡ node_resource)
            × ((event.reason == day2_event_reason) ≡ true)
            × (get_node event.name ≡ ok (node_reference event.name)))
      → (r : Record) × (record_event get_pod get_node (current_namespace file) event ≡ ok r)
        × Arrives
            (current_namespace file)
            (stored r now)
            filtered_at
            handled_at
            (arrival (current_namespace file) event)
  record_event-event_added get_pod get_node file event now filtered_at handled_at std wants set
        early1 early2 (inl (type, got)) =
      let current = current_namespace file in
      let ref = pod_reference event.namespace event.name in
      (
        annotated ref (annotations_for_event event) (reason_for_event event) event.message,
        pod_record get_pod get_node current event std type got,
        record-Arrives file ref event now filtered_at handled_at std wants set early1 early2
            (inl (type, refl)),
      )
  record_event-event_added get_pod get_node file event now filtered_at handled_at std wants set
        early1 early2 (inr (type, day2, got)) =
      let current = current_namespace file in
      let ref = record (node_reference event.name) { ref_namespace = current } in
      (
        annotated ref (annotations_for_event event) (reason_for_event event) event.message,
        node_record get_pod get_node current event std type got,
        record-Arrives file ref event now filtered_at handled_at std wants set early1 early2
            (inr (type, day2, refl)),
      )
