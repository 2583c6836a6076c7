-- ===== src/Events/EventsTests.antt =====
-- Events that reach the controller.
use kcover.Shared.{
  List, [], false, length, pos, some, true, ◌==◌, ◌↔◌, ◌∷◌, ◌≡◌, ◌≤◌, ◌⊎◌, text_eq, Result, String,
  arith, lookup, ok, refl, ℕ, inr, subst,
}
use kcover.Events.{
  Event, KubeEvent, day2_event_reason, event_added, internal_event, is_expired_event,
  is_node_object_ref, is_pod_object_ref, is_preflight_event, needs_recovery, node_resource,
  pod_resource, error_event,
}
use kcover.Events.Delivery.{
  Turn, arrivals, arrives, count, new_transport, no_event_lost, receives, run_turns, sends, takes,
  total,
}
use kcover.Events.Filter.{event_added_iff}
use kcover.Cluster.{ApiError}
use kcover.Events.Recorded.{
  Arrives, IsRecorder, IsShown, Recorded, arrival, is_new, node_reference, pod_reference,
}
use kcover.Events.Demo.{kube_event, kube_event-IsShown}
use kcover.Events.RoundTrip.{record_event-event_added}
use kcover.Events.Sink.{Record, Reference, annotated, created, record_event}
use kcover.Kube.{current_namespace}

abbrev late_event : KubeEvent
late_event = record {
  namespace = "team";
  annotations = ("kcover.io/need-recovery", "true") ∷ [];
  reason = "Failed";
  message = "";
  count = pos 1;
  last_timestamp = 5;
  creation_timestamp = 5;
  involved_group = "";
  involved_version = "v1";
  involved_kind = "Pod";
  involved_namespace = "team";
  involved_name = "train-0";
}

abbrev late_internal : Event
late_internal = internal_event pod_resource "team" late_event

event_added_iff_example : (event_added "kcover" late_event 6 7 ≡ some late_internal) ↔ (
    (is_expired_event late_event 6 ≡ false)
    × (is_expired_event late_event 7 ≡ false)
    × (is_preflight_event late_event ≡ false)
    × (needs_recovery late_event ≡ true)
    × (((is_pod_object_ref late_event ≡ true)
          × (late_internal ≡ internal_event pod_resource late_event.involved_namespace late_event))
        ⊎ ((is_node_object_ref late_event ≡ true)
            × ((late_event.reason == day2_event_reason) ≡ true)
            × ((late_event.namespace == "kcover") ≡ true)
            × (late_internal ≡ internal_event node_resource late_event.namespace late_event))))
event_added_iff_example = event_added_iff "kcover" late_event 6 7 late_internal

abbrev some_turns : List Turn
some_turns = arrives late_internal ∷ arrives late_internal ∷ takes ∷ receives ∷ sends ∷ []

no_event_lost_example :
    (total (λ e. true) (run_turns new_transport some_turns)
      ≡ count (λ e. true) (arrivals some_turns))
    × (length (run_turns new_transport some_turns).event_ch ≤ 1)
no_event_lost_example = no_event_lost (λ e. true) some_turns

-- A recorder to which every record is new.
abbrev demo_stored : Record → ℕ → Recorded
demo_stored (annotated ref notes why text) now = is_new (kube_event ref notes why text 1 now)
demo_stored (created ns ref notes why text) now = is_new (kube_event ref notes why text 1 now)

new_inj : (a k : KubeEvent) → is_new a ≡ is_new k → a ≡ k
new_inj a k h = cc

demo-IsRecorder : IsRecorder demo_stored
demo-IsRecorder = record {
  new_law = λ ref notes why text now k h.
      subst (IsShown ref notes why text now) (new_inj _ k h)
        (kube_event-IsShown ref notes why text 1 now);
  again_law = λ ref notes why text now old k h. absurd (cc);
}

-- A finding on a node, as the detector reports it.
abbrev finding : Event
finding = record {
  resource_type = node_resource;
  namespace = "";
  name = "node-7";
  reason = "Day2CheckFailed";
  annotations = [];
  event_type = error_event;
  message = "hotspot";
}

abbrev demo_pods : String → String → Result ApiError Reference
demo_pods ns name = ok (pod_reference ns name)

abbrev demo_nodes : String → Result ApiError Reference
demo_nodes name = ok (node_reference name)

record_event-event_added_example :
    (r : Record) × (record_event demo_pods demo_nodes (current_namespace (some " kcover\n")) finding
      ≡ ok r)
    × Arrives
        (current_namespace (some " kcover\n"))
        (demo_stored r 5)
        6
        7
        (arrival (current_namespace (some " kcover\n")) finding)
unfolding lookup
record_event-event_added_example =
    record_event-event_added demo_stored demo-IsRecorder demo_pods demo_nodes (some " kcover\n")
      finding 5 6 7 refl refl (omega arith) (omega arith) (omega arith) (inr (refl, refl, refl))
