-- ===== src/PodObserver/ObserverTests.antt =====
-- The rules on one pod, with the library of two texts.
use kcover.Shared.{
  Option, String, arith, if◌then◌else◌, none, pos, refl, some, true, ℕ, ◌&&◌, ◌==◌, ◌≡◌, text_eq,
  nat_eq, [], all_codes, atoi, atoi_digits, first_code_is, is_space, last_code_is, lookup, ok,
  read_digits, subst, text_length, text_take, trim_left, trim_right, trim_space, trim_with, ◌||◌,
  ◌∷◌, ◌≤◌, Result, err, List, length, ◌++◌, ◌<◌, eq_iff, int_text, keep, ◌+++◌, ◌↔◌, ◌≢◌, ◌⊎◌,
}
use kcover.Preflight.Compaction.{
  compact_batch, compact_bus_bw_threshold, compact_items, compact_report, copy_if_present,
  load_report_payload, put_field,
}
use kcover.Preflight.Compaction.RoundTrip.{compact_report-extract_node_report, forgotten}
use kcover.Preflight.Transport.{
  build_preflight_report, is_alnum, is_name_code, name_part, preflight_report_name, validate_report,
  forward_report,
}
use kcover.Preflight.Json.{get_field}
use kcover.Preflight.Types.{Report}
use kcover.Cluster.{Owner, ApiError, not_found}
use kcover.Api.{PreflightReport}
use kcover.PodObserver.{publish, WatchedPod, handle_add, handle_update, Terminated}
use kcover.Preflight.Transport.Checked.{build_preflight_report-validate}
use kcover.PodObserver.Failures.{container_error_rule, failure_event}
use mathlib.Core.List.{Memᴰ}
use kcover.PodObserver.Updates.{IsChanged, IsSame}
use kcover.PodObserver.Deserved.{IsFailure, failures-published, is_failed, recovery_label}
use kcover.Preflight.Extraction.{extract_node_report}
use kcover.PodObserver.Reports.{
  init_container_status_by_name, preflight_report_identity, preflight_report_suffix,
  preflight_workload_name, reconcile, report_file_name,
}
use kcover.Preflight.Parser.{parse_report, unmarshal_report_payload, validate_workload_size}
use kcover.Preflight.Transport.Names.{preflight_report_name-IsValid}
use kcover.PodObserver.Submitted.{reconcile-validate}
use kcover.Events.Recorded.{Arrives, IsRecorder, IsShown, Recorded, is_again, pod_reference}
use kcover.Events.Demo.{kube_event, kube_event-IsShown}
use kcover.Events.{Event, KubeEvent, error_event, pod_resource}
use kcover.Events.Sink.{Record, Reference, annotated, created, record_event}
use kcover.Kube.{current_namespace}
use kcover.PodObserver.Arrivals.{failed_container-Arrives}
use kcover.Recovery.Refined.{Sent, track-compacted, track, with_file}
use kcover.Recovery.Tracker.{new_preflight_tracker}
use kcover.PodObserver.TwoTexts.{demo-IsJson, demo_encode, demo_encoders, two_texts, demo_report}

abbrev demo_files : String → String → Option String
demo_files ns name = if ns == "ns" && name == "job-0" then some "whole" else none

abbrev demo_owner : Owner
demo_owner = record { uid = "u1"; kind = "Job"; api_version = "batch/v1"; owner_name = "job" }

-- A pod of a batch job whose preflight container has ended, and whose container `main` failed.
abbrev demo_pod : WatchedPod
demo_pod = record {
  pod_namespace = "ns";
  watched_name = "job-0-x";
  pod_uid = "p1";
  version = "2";
  pod_labels =
      ("kcover.io/preflight", "true")
      ∷ ("batch.kubernetes.io/job-name", "job")
      ∷ ("kcover.io/cascading-recovery", "true")
      ∷ [];
  pod_annotations = ("batch.kubernetes.io/job-completion-index", " 0 ") ∷ [];
  assigned_node = "node-7";
  controller = some demo_owner;
  container_statuses =
      record {
        container_name = "main";
        terminated = some (record {
          exit_reason = "Error";
          exit_message = "no memory";
          exit_code = pos 1;
          finished_at = 9;
        });
        unread = "";
      }
      ∷ [];
  init_container_statuses =
      record {
        container_name = "preflight";
        terminated = some (record {
          exit_reason = "Completed";
          exit_message = "";
          exit_code = pos 0;
          finished_at = 5;
        });
        unread = "";
      }
      ∷ [];
}

abbrev submitted_report : PreflightReport
submitted_report = record {
  namespace = "ns";
  name = "job-0123456789";
  owners = record { uid = "p1"; kind = "Pod"; api_version = "v1"; owner_name = "job-0-x" } ∷ [];
  workload_name = "job";
  workload_uid = "u1";
  node_name = "node-7";
  rank = pos 0;
  report = "small";
  observed_at = 5;
}

demo_reconciled :
    reconcile demo_encoders two_texts demo_encode demo_files demo_pod ≡ ok submitted_report
unfolding reconcile preflight_report_identity init_container_status_by_name preflight_workload_name
    lookup report_file_name preflight_report_suffix atoi atoi_digits read_digits trim_space
    trim_with trim_left trim_right is_space load_report_payload compact_report parse_report
    unmarshal_report_payload get_field compact_bus_bw_threshold compact_items compact_batch
    copy_if_present put_field build_preflight_report validate_workload_size preflight_report_name
    name_part text_take
demo_reconciled = refl

-- The resource that the rule submits for the pod passes the watcher.
reconcile-validate_example :
    (validate_report two_texts submitted_report ≡ ok tt)
    × ((channel : List PreflightReport)
        → length channel < 128
        → forward_report two_texts channel (some submitted_report)
          ≡ some (channel ++ (submitted_report ∷ [])))
    × (submitted_report.namespace ≡ demo_pod.pod_namespace)
    × (name : String) × (text : String) × (demo_files "ns" name ≡ some text)
    × (extract_node_report two_texts "small" ≡ forgotten (extract_node_report two_texts text))
reconcile-validate_example =
    reconcile-validate demo_encoders two_texts demo_encode demo_files demo_pod submitted_report refl
      demo-IsJson demo_reconciled

demo_compacted : compact_report two_texts demo_encode "whole" ≡ ok ("small", "node-7")
unfolding compact_report parse_report unmarshal_report_payload get_field compact_bus_bw_threshold
    compact_items compact_batch copy_if_present put_field
demo_compacted = refl

compact_report-extract_node_report_example :
    extract_node_report two_texts "small" ≡ forgotten (extract_node_report two_texts "whole")
compact_report-extract_node_report_example =
    compact_report-extract_node_report two_texts demo_encode "whole" "small" "node-7" demo-IsJson
      demo_compacted

demo_built :
    build_preflight_report demo_encoders two_texts "ns" "node-7" "other" "u1" "whole" 5 []
    ≡ ok (record submitted_report {
      name = "other-0123456789";
      owners = [];
      workload_name = "other";
      report = "whole";
    })
unfolding build_preflight_report validate_workload_size parse_report preflight_report_name name_part
    trim_with trim_left trim_right text_take
demo_built = refl

whole_payload :
    (payload : Report)
    → parse_report two_texts "whole" ≡ ok payload
    → (payload.workload == "" || payload.workload == "other") ≡ true
unfolding parse_report
whole_payload payload h =
    let same : demo_report ≡ payload = cc in
    subst (λ p. (p.workload == "" || p.workload == "other") ≡ true) same refl

build_preflight_report-validate_example :
    validate_report two_texts (record submitted_report {
      name = "other-0123456789";
      owners = [];
      workload_name = "other";
      report = "whole";
    })
    ≡ ok tt
build_preflight_report-validate_example =
    build_preflight_report-validate demo_encoders two_texts "ns" "node-7" "other" "u1" "whole" 5 []
      (record submitted_report {
        name = "other-0123456789";
        owners = [];
        workload_name = "other";
        report = "whole";
      })
      refl demo_built whole_payload

preflight_report_name-IsValid_example :
    (text_length (preflight_report_name demo_encoders "Train.Job_" "0123456789abcdef") ≤ 253)
    × (all_codes is_name_code (preflight_report_name demo_encoders "Train.Job_" "0123456789abcdef")
        ≡ true)
    × (first_code_is is_alnum (preflight_report_name demo_encoders "Train.Job_" "0123456789abcdef")
        ≡ true)
    × (last_code_is is_alnum (preflight_report_name demo_encoders "Train.Job_" "0123456789abcdef")
        ≡ true)
unfolding text_take
preflight_report_name-IsValid_example =
    preflight_report_name-IsValid demo_encoders "Train.Job_" "0123456789abcdef" refl refl

-- The pod before its container failed.
abbrev earlier_pod : WatchedPod
earlier_pod = record demo_pod { version = "1"; container_statuses = [] }

abbrev demo_end : Terminated
demo_end = record {
  exit_reason = "Error";
  exit_message = "no memory";
  exit_code = pos 1;
  finished_at = 9;
}

failures-published_example :
    (Memᴰ
        (publish (failure_event demo_pod "main" demo_end))
        (handle_add (container_error_rule ∷ []) demo_pod true)
      ↔ ((recovery_label demo_pod ≢ "")
          × ((e : Event) × IsFailure demo_pod demo_pod.container_statuses e
              × (publish (failure_event demo_pod "main" demo_end) ≡ publish e))))
    × (length (handle_add (container_error_rule ∷ []) demo_pod true)
        ≤ length (keep is_failed demo_pod.container_statuses))
    × ((IsSame earlier_pod demo_pod
          × (handle_update (container_error_rule ∷ []) earlier_pod demo_pod ≡ []))
        ⊎ (IsChanged earlier_pod demo_pod
            × (handle_update (container_error_rule ∷ []) earlier_pod demo_pod
                ≡ handle_add (container_error_rule ∷ []) demo_pod true)))
failures-published_example =
    failures-published demo_pod earlier_pod true (publish (failure_event demo_pod "main" demo_end))

-- A recorder that repeats every record once.
abbrev demo_shown : Record → ℕ → ℕ → KubeEvent
demo_shown (annotated ref notes why text) times now = kube_event ref notes why text times now
demo_shown (created ns ref notes why text) times now = kube_event ref notes why text times now

abbrev demo_stored : Record → ℕ → Recorded
demo_stored r now = is_again (demo_shown r 1 now) (demo_shown r 2 now)

again_inj : (a b old k : KubeEvent) → is_again a b ≡ is_again old k → (a ≡ old) × (b ≡ k)
again_inj a b old k h = (cc, cc)

demo-IsRecorder : IsRecorder demo_stored
demo-IsRecorder = record {
  new_law = λ ref notes why text now k h. absurd (cc);
  again_law = λ ref notes why text now old k h.
      let (first, second) = again_inj _ _ old k h in
      (
        subst (IsShown ref notes why text now) second (kube_event-IsShown ref notes why text 2 now),
        rw (← first, ← second) refl,
      );
}

abbrev demo_pods : String → String → Result ApiError Reference
demo_pods ns pod_name = ok (pod_reference ns pod_name)

abbrev no_nodes : String → Result ApiError Reference
no_nodes node = err not_found

demo_label : recovery_label demo_pod ≢ ""
unfolding lookup
demo_label h = absurd (ground (arith, eq_iff "true" ""))

failed_container-Arrives_example :
    Memᴰ
      (publish (failure_event demo_pod "main" demo_end))
      (handle_add (container_error_rule ∷ []) demo_pod true)
    × ((r : Record) × (record_event demo_pods no_nodes
            (current_namespace none)
            (failure_event demo_pod "main" demo_end)
          ≡ ok r)
        × Arrives (current_namespace none) (demo_stored r 5) 6 7 (record {
          resource_type = pod_resource;
          namespace = "ns";
          name = "job-0-x";
          reason = "Error";
          annotations = [];
          event_type = error_event;
          message =
              "container "
              +++ "main"
              +++ " terminated with error: "
              +++ "no memory"
              +++ ", exit code: "
              +++ int_text (pos 1);
        }))
failed_container-Arrives_example =
    failed_container-Arrives demo_stored demo_pods no_nodes none demo_pod true
      (record { container_name = "main"; terminated = some demo_end; unread = "" }) demo_end 5 6 7
      demo-IsRecorder demo_label (Memᴰ.head refl) refl refl refl (omega arith) (omega arith)
      (omega arith)

abbrev demo_sent : List Sent
demo_sent = record { resource = submitted_report; file = "whole"; handled_at = 6 } ∷ []

track-compacted_example :
    track
      (extract_node_report two_texts)
      (λ s. s.resource)
      (new_preflight_tracker (pos 100))
      demo_sent
    ≡ track (extract_node_report two_texts) with_file (new_preflight_tracker (pos 100)) demo_sent
track-compacted_example =
    track-compacted two_texts demo_encode (new_preflight_tracker (pos 100)) demo_sent demo-IsJson
      (("node-7", demo_compacted), tt)
