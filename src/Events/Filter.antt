-- ===== src/Events/Filter.antt =====
-- pkg/events/kubeevent_transport.go: what the filter and the conversion let through together.
use kcover.Shared.{
  ℕ, String, false, some, true, ◌==◌, ◌↔◌, ◌≡◌, ◌⊎◌, text_eq, Bool, arith, if◌then◌else◌, none, not,
  ◌&&◌, Bool-cases, eq_of_==, inl, inr, refl, subst, sym,
}
use kcover.Events.{
  Event, KubeEvent, day2_event_reason, event_added, internal_event, is_expired_event,
  is_node_object_ref, is_pod_object_ref, is_preflight_event, needs_recovery, node_resource,
  pod_resource, should_watch_event, to_internal_event, to_internal_recovery_event,
}

not_both : (kind : String) → (kind == "Pod" && kind == "Node") ≡ false
not_both kind = elim (Bool-cases (kind == "Pod")) [
  | inl pod ↦ subst (λ k. (k == "Pod" && k == "Node") ≡ false) (sym (eq_of_== kind "Pod" pod)) refl
  | inr another ↦ rw another refl
]

-- No object is a pod and a node.
pub one_kind : (event : KubeEvent) → (is_pod_object_ref event && is_node_object_ref event) ≡ false
one_kind event = ground (arith, not_both event.involved_kind)

-- The tests in the order of the code, on their outcomes.
tests_iff :
    (old late preflight needs node day2 pod here : Bool) (p n e : Event)
    → (pod && node) ≡ false
    → ((if (if old
              then false
              else if preflight
              then false
              else if not needs
              then false
              else if node
              then day2
              else pod)
            && not late
          then (if preflight
              then none
              else if not needs
              then none
              else if pod
              then some p
              else if node
              then (if here then some n else none)
              else none)
          else none)
        ≡ some e)
      ↔ ((old ≡ false)
          × (late ≡ false)
          × (preflight ≡ false)
          × (needs ≡ true)
          × (((pod ≡ true) × (e ≡ p)) ⊎ ((node ≡ true) × (day2 ≡ true) × (here ≡ true) × (e ≡ n))))
tests_iff old late preflight needs node day2 pod here p n e x = ground arith

-- A new Kubernetes event reaches the controller exactly if it is not older than three minutes when it
-- is filtered and when it is handled, is no preflight event, asks for recovery, and is about a pod, or
-- about a node with the day-2 reason in the namespace of the controller; as an event of an error then.
pub event_added_iff :
    (current : String) (event : KubeEvent) (filtered_at handled_at : ℕ) (e : Event)
    → (event_added current event filtered_at handled_at ≡ some e) ↔ (
        (is_expired_event event filtered_at ≡ false)
        × (is_expired_event event handled_at ≡ false)
        × (is_preflight_event event ≡ false)
        × (needs_recovery event ≡ true)
        × (((is_pod_object_ref event ≡ true)
              × (e ≡ internal_event pod_resource event.involved_namespace event))
            ⊎ ((is_node_object_ref event ≡ true)
                × ((event.reason == day2_event_reason) ≡ true)
                × ((event.namespace == current) ≡ true)
                × (e ≡ internal_event node_resource event.namespace event))))
unfolding event_added should_watch_event to_internal_event to_internal_recovery_event
event_added_iff current event filtered_at handled_at e =
    tests_iff (is_expired_event event filtered_at) (is_expired_event event handled_at)
      (is_preflight_event event) (needs_recovery event) (is_node_object_ref event)
      (event.reason == day2_event_reason) (is_pod_object_ref event) (event.namespace == current)
      (internal_event pod_resource event.involved_namespace event)
      (internal_event node_resource event.namespace event) e (one_kind event)
