-- ===== src/PodObserver/Submitted.antt =====
-- cmd/agent/preflight_rule.go with pkg/preflight: what becomes of a report file that the agent reads.
use kcover.Shared.{
  >>=-eq-ok, Bool-cases, List, Option, Result, String, arith, err, fail_if-eq-ok, inl, inr, none,
  not, ok, refl, some, trim_space, ℕ, ◌==◌, ◌≡◌, text_eq, ap, eq_iff, subst, sym, [], length, ltb,
  true, ◌++◌, ◌<◌, ◌∷◌,
}
use kcover.PodObserver.{WatchedPod}
use kcover.PodObserver.Reports.{
  not_loaded, not_built, reconcile, no_identity, no_report_name, or_skip, preflight_report_identity,
  preflight_workload_name, report_file_name,
}
use kcover.Preflight.Compaction.{Compact, load_report_payload, named_payload, compact_report}
use kcover.Preflight.Transport.{
  Encoders, build_preflight_report, wrap, validate_report, forward_report, report_from_object,
  if_valid,
}
use kcover.Cluster.{Owner}
use kcover.Preflight.Types.{ParseError}
use kcover.Api.{PreflightReport}
use kcover.Preflight.Json.{Runtime}
use kcover.Preflight.Transport.Checked.{
  wrap-eq-ok, build_preflight_report-IsBuilt, build_preflight_report-validate,
}
use kcover.Preflight.Compaction.RoundTrip.{
  IsJson, compact_report-extract_node_report, compact_report-parse_report, forgotten,
}
use kcover.Preflight.Extraction.{extract_node_report}

module _ (rt : Runtime) (encode : Compact rt.Float → Option String) where
  named_payload-eq-ok :
      (o : Result ParseError (String × String)) (p : String × String)
      → named_payload o ≡ ok p
      → o ≡ ok p
  named_payload-eq-ok (err e) p h = absurd (cc)
  named_payload-eq-ok (ok (text, node)) p h = elim (Bool-cases (node == "")) [
    | inl gone ↦ absurd (ground arith)
    | inr there ↦ ground arith
  ]

  load_report_payload-eq-ok :
      (file : Option String) (p : String × String)
      → load_report_payload rt encode file ≡ ok p
      → (text : String) × (file ≡ some text) × (compact_report rt encode text ≡ ok p)
  unfolding load_report_payload
  load_report_payload-eq-ok none p h = absurd (cc)
  load_report_payload-eq-ok (some text) p h =
      (text, refl, named_payload-eq-ok (compact_report rt encode text) p h)

-- What the rule did for a report that it submits.
record IsReconciled (encoders : Encoders) (rt : Runtime) (encode : Compact rt.Float → Option String)
    (files : String → String → Option String) (pod : WatchedPod) (r : PreflightReport)
    : Type 0 where
  file_name : String
  loaded : String × String
  uid : String
  workload : String
  node : String
  observed : ℕ
  own : List Owner
  was_loaded : load_report_payload rt encode (files pod.pod_namespace file_name) ≡ ok loaded
  was_built :
      build_preflight_report encoders rt pod.pod_namespace node workload uid loaded.0 observed own
      ≡ ok r

module _ (encoders : Encoders) (rt : Runtime) (encode : Compact rt.Float → Option String)
    (files : String → String → Option String) where
  reconcile-IsReconciled :
      (pod : WatchedPod) (r : PreflightReport)
      → reconcile encoders rt encode files pod ≡ ok r
      → IsReconciled encoders rt encode files pod r
  unfolding reconcile
  reconcile-IsReconciled pod r h =
      let (i, e1, h1) = >>=-eq-ok (or_skip no_identity (preflight_report_identity pod)) _ h in
      let (n, e2, h2) =
        >>=-eq-ok (or_skip no_report_name (report_file_name pod (preflight_workload_name pod))) _
          h1 in
      let (e3, h3) = fail_if-eq-ok (trim_space pod.assigned_node == "") _ h2 in
      let (l, e4, h4) =
        >>=-eq-ok (wrap not_loaded (load_report_payload rt encode (files pod.pod_namespace n))) _
          h3 in
      let (e5, h5) = fail_if-eq-ok (not (l.1 == trim_space pod.assigned_node)) _ h4 in
      record {
        file_name = n;
        loaded = l;
        uid = i.0;
        workload = preflight_workload_name pod;
        node = trim_space pod.assigned_node;
        observed = i.1;
        own = _;
        was_loaded = wrap-eq-ok not_loaded _ e4;
        was_built = wrap-eq-ok not_built _ h5;
      }

  forward_of_valid :
      (r : PreflightReport) (channel : List PreflightReport)
      → validate_report rt r ≡ ok tt
      → length channel < 128
      → forward_report rt channel (some r) ≡ some (channel ++ (r ∷ []))
  unfolding forward_report report_from_object
  forward_of_valid r channel valid room =
      let free : ltb (length channel) 128 ≡ true = ground arith in
      rw (ap (if_valid rt r) valid) (rw free refl)

  -- If an empty text is no report and json.Marshal keeps its promises, every report that the rule
  -- submits passes the checks of the controller's watcher, which puts it into its channel if there is
  -- room, and comes from a file in the directory of
  -- the pod's namespace, of which the controller reads from the report all that it would read from
  -- the file itself, but for the version and the name of the workload.
  pub reconcile-validate :
      (pod : WatchedPod) (r : PreflightReport)
      → rt.decode_report "" ≡ none
      → IsJson rt encode
      → reconcile encoders rt encode files pod ≡ ok r
      → (validate_report rt r ≡ ok tt)
        × ((channel : List PreflightReport)
            → length channel < 128
            → forward_report rt channel (some r) ≡ some (channel ++ (r ∷ [])))
        × (r.namespace ≡ pod.pod_namespace)
        × (name : String) × (text : String) × (files pod.pod_namespace name ≡ some text)
        × (extract_node_report rt r.report ≡ forgotten (extract_node_report rt text))
  reconcile-validate pod r void laws h =
      let c = reconcile-IsReconciled pod r h in
      let (text, at, compacted) =
        load_report_payload-eq-ok rt encode (files pod.pod_namespace c.file_name) c.loaded
          c.was_loaded in
      let (p, parsed, no_workload, same_node) =
        compact_report-parse_report rt encode text c.loaded.0 c.loaded.1 laws compacted in
      let b =
        build_preflight_report-IsBuilt encoders rt pod.pod_namespace c.node c.workload c.uid
          c.loaded.0 c.observed c.own r c.was_built in
      let valid : validate_report rt r ≡ ok tt =
        build_preflight_report-validate encoders rt pod.pod_namespace c.node c.workload c.uid
          c.loaded.0 c.observed c.own r void c.was_built
          (λ q hq.
            let same : p ≡ q = cc in
            ground (arith, no_workload, ap (λ x. x.workload) same, eq_iff q.workload "")) in
      (
        valid,
        λ channel room. forward_of_valid r channel valid room,
        ap (λ x. x.namespace) b.made,
        c.file_name,
        text,
        at,
        subst (λ x. extract_node_report rt x ≡ forgotten (extract_node_report rt text))
            (sym (ap (λ x. x.report) b.made))
            (compact_report-extract_node_report rt encode text c.loaded.0 c.loaded.1 laws
              compacted),
      )
