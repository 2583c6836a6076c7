-- ===== src/Events/Demo.antt =====
-- An event of the API for tests: what a recorder makes of a record.
use kcover.Events.{KubeEvent}
use kcover.Events.Recorded.{IsShown}
use kcover.Events.Sink.{Reference}
use kcover.Shared.{List, String, if◌then◌else◌, pos, refl, ℕ, ◌==◌, text_eq}

abbrev pub kube_event : Reference → List (String × String) → String → String → ℕ → ℕ → KubeEvent
kube_event ref notes why text times now = record {
  namespace = if ref.ref_namespace == "" then "default" else ref.ref_namespace;
  annotations = notes;
  reason = why;
  message = text;
  count = pos times;
  last_timestamp = now;
  creation_timestamp = 1;
  involved_group = ref.ref_group;
  involved_version = ref.ref_version;
  involved_kind = ref.ref_kind;
  involved_namespace = ref.ref_namespace;
  involved_name = ref.ref_name;
}

pub kube_event-IsShown :
    (ref : Reference) (notes : List (String × String)) (why text : String) (times now : ℕ)
    → IsShown ref notes why text now (kube_event ref notes why text times now)
kube_event-IsShown ref notes why text times now = record {
  in_namespace = refl;
  with_notes = refl;
  with_reason = refl;
  with_message = refl;
  at_time = refl;
  of_group = refl;
  of_version = refl;
  of_kind = refl;
  of_namespace = refl;
  of_name = refl;
}
