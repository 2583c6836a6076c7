-- ===== src/Recovery/Refined.antt =====
-- The agents and the controller together: the tracker on resources that hold compacted reports.
use kcover.Api.{PreflightReport}
use kcover.Recovery.Tracker.{PreflightReportResult, PreflightTracker, handle_report}
use kcover.Preflight.Aggregator.{
  SlowNodeAggregator, add_extracted, add_report_for_workload, AddError, add_node_report,
  join_workload, node_report, store_report,
}
use kcover.Preflight.Compaction.{Compact, compact_report}
use kcover.Preflight.Compaction.RoundTrip.{
  IsJson, compact_report-extract_node_report, forget_names, forgotten,
}
use kcover.Shared.{
  All, List, Option, Result, Result-cases, String, [], inl, inr, ok, refl, ℕ, ◌∷◌, ◌≡◌,
}
use kcover.Preflight.Types.{Extracted, ParseError, WorkloadKey}
use kcover.Preflight.Json.{Runtime}
use kcover.Preflight.Extraction.{extract_node_report}

-- A resource, the file that it was made of, and the time at which the controller handles it.
pub record Sent : Type 0 where
  pub resource : PreflightReport
  pub file : String
  pub handled_at : ℕ

-- The resource with its whole file in place of the compacted report.
abbrev pub with_file : Sent → PreflightReport
with_file s = record s.resource { report = s.file }

-- The tracker on one resource after the other, and its answers.
abbrev pub track :
    (String → Result ParseError Extracted)
    → (Sent → PreflightReport)
    → PreflightTracker
    → List Sent
    → PreflightTracker × List (Result AddError PreflightReportResult)
track extract content t [] = (t, [])
track extract content t (s ∷ rest) =
    let (t', answer) = handle_report extract t (content s) s.handled_at in
    let (last, answers) = track extract content t' rest in (last, answer ∷ answers)

-- The aggregator reads neither the version nor the workload of a report.
add_extracted-forget_names :
    (c : SlowNodeAggregator) (key : WorkloadKey) (x : Extracted) (now observed_at : ℕ)
    → add_extracted c key (forget_names x) now observed_at ≡ add_extracted c key x now observed_at
unfolding add_extracted join_workload store_report add_node_report node_report
add_extracted-forget_names c key x now observed_at = refl

add_report-forgotten :
    (extract : String → Result ParseError Extracted) (c : SlowNodeAggregator)
    (namespace uid name small whole : String) (now observed_at : ℕ)
    → extract small ≡ forgotten (extract whole)
    → add_report_for_workload extract c namespace uid name small now observed_at
      ≡ add_report_for_workload extract c namespace uid name whole now observed_at
unfolding add_report_for_workload
add_report-forgotten extract c namespace uid name small whole now observed_at same =
    elim (Result-cases (extract whole)) [
      | inl (x, e) ↦
          rw (same, e)
            (rw
              (add_extracted-forget_names c
                (record { namespace = namespace; workload_uid = uid; workload_name = name }) x now
                observed_at)
              refl)
      | inr (e, h) ↦ rw (same, h) refl
    ]

handle_report-forgotten :
    (extract : String → Result ParseError Extracted) (t : PreflightTracker) (s : Sent)
    → extract s.resource.report ≡ forgotten (extract s.file)
    → handle_report extract t s.resource s.handled_at
      ≡ handle_report extract t (with_file s) s.handled_at
unfolding handle_report
handle_report-forgotten extract t s same =
    rw
      (add_report-forgotten extract t.aggregator s.resource.namespace s.resource.workload_uid
        s.resource.workload_name s.resource.report s.file s.handled_at s.resource.observed_at same)
      refl

-- If json.Marshal keeps its promises, the tracker gives on resources whose reports the agents have
-- compacted the same answers, slow nodes and errors alike, and ends in the same state as on resources
-- that hold the whole files, in whatever order the resources of whatever workloads arrive.
pub track-compacted :
    (rt : Runtime) (encode : Compact rt.Float → Option String) (t : PreflightTracker)
    (sent : List Sent)
    → IsJson rt encode
    → All
        (λ s. (node : String) × (compact_report rt encode s.file ≡ ok (s.resource.report, node)))
        sent
    → track (extract_node_report rt) (λ s. s.resource) t sent
      ≡ track (extract_node_report rt) with_file t sent
track-compacted rt encode t [] laws h = refl
track-compacted rt encode t (s ∷ rest) laws h =
    let one =
      handle_report-forgotten (extract_node_report rt) t s
        (compact_report-extract_node_report rt encode s.file s.resource.report h.0.0 laws h.0.1) in
    let next = (handle_report (extract_node_report rt) t (with_file s) s.handled_at).0 in
    rw (one, track-compacted rt encode next rest laws h.1) refl
