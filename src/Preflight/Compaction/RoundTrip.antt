-- ===== src/Preflight/Compaction/RoundTrip.antt =====
-- pkg/preflight: CompactReport of report_event.go before extractNodeReport of report_parser.go.
use kcover.Shared.{
  ◌>>=◌, Bool-cases, List, Option, String, [], arith, inl, inr, none, refl, some, ◌==◌, ◌≡◌,
  text_eq, Bool, false, true, ℕ, >>=-eq-ok, >>=-ext, ok, subst, Result, Result-cases, err, pos, ap,
  ◌∙◌,
}
use kcover.Preflight.Json.{Fields, Value, get_field, Runtime, Items}
use kcover.Preflight.Compaction.{
  compact_items, compact_bus_bw_threshold, Compact, compact_of, compact_report, encoded,
}
use kcover.Preflight.Types.{BatchResult, Extracted, ParseError, Report, WorkloadPlan}
use kcover.Preflight.Parser.{
  named_report, unmarshal_report_payload, build_workload_plan, parse_report,
}
use kcover.Preflight.Extraction.{
  extract_batch_results, extract_bus_bw_threshold, ordered_batch_results, batches_of, extract_rest,
  any_check_failed, extract_node_report,
}
use kcover.Preflight.Compaction.Batches.{
  extract_items-compact, threshold_of-compact, threshold_value,
}

-- What is read from a compacted report: it says neither the version of the report nor its workload.
abbrev pub sent_report : {F : Type 0} → Compact F → Report
sent_report c = record {
  version = pos 0;
  workload = "";
  workload_size = c.workload_size;
  rank = c.rank;
  node_name = c.node_name;
  node_ip = c.node_ip;
  gpu_check = c.gpu_check;
  storage_check = c.storage_check;
}

abbrev pub forget_names : Extracted → Extracted
forget_names x = record x { report = record x.report { version = pos 0; workload = "" } }

abbrev pub forgotten : Result ParseError Extracted → Result ParseError Extracted
forgotten (ok x) = ok (forget_names x)
forgotten (err e) = err e

-- What encoding/json promises of the texts that json.Marshal makes of compacted reports.
pub record IsJson (rt : Runtime) (encode : Compact rt.Float → Option String) : Type 0 where
  pub report_law :
      (c : Compact rt.Float) (text : String)
      → encode c ≡ some text
      → rt.decode_report text ≡ some (sent_report c)
  pub payload_law :
      (c : Compact rt.Float) (text : String)
      → encode c ≡ some text
      → (fields : Fields rt.Float) × (rt.decode_payload text ≡ some fields)
        × (get_field "batches" fields ≡ some (Value.arr c.batches))
        × (get_field "node_check_busbw_threshold_gbps" fields ≡ threshold_value rt c.threshold)

-- What CompactReport has done with a text that it returns.
record IsCompacted (rt : Runtime) (encode : Compact rt.Float → Option String)
    (text small node : String) : Type 0 where
  report : Report
  raw : Fields rt.Float
  threshold : Option String
  items : Items rt.Float
  parsed : parse_report rt text ≡ ok report
  unmarshalled : unmarshal_report_payload rt text ≡ ok raw
  limited :
      compact_bus_bw_threshold (get_field "node_check_busbw_threshold_gbps" raw) ≡ ok threshold
  cut : compact_items (batches_of rt (get_field "batches" raw)) ≡ ok items
  sent : encode (compact_of rt encode report threshold items) ≡ some small
  placed : report.node_name ≡ node

module _ (rt : Runtime) where
  abbrev extracted : Report → WorkloadPlan → List (ℕ × BatchResult) → Extracted
  extracted r p m = record { report = r; plan = p; batch_results = ordered_batch_results m }

  forgotten_rest :
      (th : Result ParseError rt.Float) (f : rt.Float → Result ParseError (List (ℕ × BatchResult)))
      (r : Report) (p : WorkloadPlan)
      → (th >>= λ t. f t >>= λ m. ok (extracted (record r { version = pos 0; workload = "" }) p m))
        ≡ forgotten (th >>= λ t. f t >>= λ m. ok (extracted r p m))
  forgotten_rest (err e) f r p = refl
  forgotten_rest (ok t) f r p = elim (Result-cases (f t)) [
    | inl (m, e) ↦ rw e refl
    | inr (x, e) ↦ rw e refl
  ]

  named_report-eq-ok :
      (o : Option Report) (r : Report)
      → named_report rt o ≡ ok r
      → named_report rt (some (record r { version = pos 0; workload = "" }))
        ≡ ok (record r { version = pos 0; workload = "" })
  named_report-eq-ok none r h = absurd (cc)
  named_report-eq-ok (some p) r h = elim (Bool-cases (p.node_name == "")) [
    | inl void ↦ absurd (ground arith)
    | inr there ↦
        let same : p ≡ r = ground arith in
        subst
          (λ x.
            named_report rt (some (record x { version = pos 0; workload = "" }))
            ≡ ok (record x { version = pos 0; workload = "" }))
          same (rw there refl)
  ]

  rest-forgotten :
      (text small : String) (r : Report) (p : WorkloadPlan) (raw fields : Fields rt.Float)
      (t : Option String) (items : Items rt.Float)
      → unmarshal_report_payload rt text ≡ ok raw
      → unmarshal_report_payload rt small ≡ ok fields
      → compact_bus_bw_threshold (get_field "node_check_busbw_threshold_gbps" raw) ≡ ok t
      → compact_items (batches_of rt (get_field "batches" raw)) ≡ ok items
      → get_field "batches" fields ≡ some (Value.arr items)
      → get_field "node_check_busbw_threshold_gbps" fields ≡ threshold_value rt t
      → (c : Bool)
      → extract_rest rt c small (record r { version = pos 0; workload = "" }) p
        ≡ forgotten (extract_rest rt c text r p)
  unfolding extract_bus_bw_threshold extract_batch_results
  rest-forgotten text small r p raw fields t items hraw hfields ht hi fb ft true = refl
  rest-forgotten text small r p raw fields t items hraw hfields ht hi fb ft false =
      let anonymous : Report = record r { version = pos 0; workload = "" } in
      let same_threshold : extract_bus_bw_threshold rt fields ≡ extract_bus_bw_threshold rt raw =
        rw ft (threshold_of-compact rt (get_field "node_check_busbw_threshold_gbps" raw) t ht) in
      let same_batches : (th : rt.Float)
          → extract_batch_results rt fields anonymous p th ≡ extract_batch_results rt raw r p th =
        λ th. rw fb (
          extract_items-compact rt (batches_of rt (get_field "batches" raw)) items r.node_ip
            p.batch_count th [] hi) in
      rw (hfields, hraw)
        (rw same_threshold (
          >>=-ext (extract_bus_bw_threshold rt raw) _ _
            (λ th. ap (λ b. b >>= λ m. ok (extracted anonymous p m)) (same_batches th))
          ∙ forgotten_rest (extract_bus_bw_threshold rt raw) (extract_batch_results rt raw r p) r
              p))

  plan-forgotten :
      (plan : Result ParseError WorkloadPlan) (c : Bool) (text small : String) (r s : Report)
      → ((p : WorkloadPlan) → extract_rest rt c small s p ≡ forgotten (extract_rest rt c text r p))
      → (plan >>= extract_rest rt c small s) ≡ forgotten (plan >>= extract_rest rt c text r)
  plan-forgotten (err e) c text small r s h = refl
  plan-forgotten (ok p) c text small r s h = h p

  encoded-eq-ok : (o : Option String) (text : String) → encoded o ≡ ok text → o ≡ some text
  encoded-eq-ok none text h = absurd (cc)
  encoded-eq-ok (some s) text h = cc

  unmarshal_of_some :
      (text : String) (fields : Fields rt.Float)
      → rt.decode_payload text ≡ some fields
      → unmarshal_report_payload rt text ≡ ok fields
  unfolding unmarshal_report_payload
  unmarshal_of_some text fields h = rw (h, unmarshal_report_payload) refl

  compact_report-IsCompacted :
      (encode : Compact rt.Float → Option String) (text small node : String)
      → compact_report rt encode text ≡ ok (small, node)
      → IsCompacted rt encode text small node
  unfolding compact_report
  compact_report-IsCompacted encode text small node h =
      let (r, hr, h1) = >>=-eq-ok (parse_report rt text) _ h in
      let (raw, hraw, h2) = >>=-eq-ok (unmarshal_report_payload rt text) _ h1 in
      let (t, ht, h3) =
        >>=-eq-ok (compact_bus_bw_threshold (get_field "node_check_busbw_threshold_gbps" raw)) _
          h2 in
      let (items, hi, h4) =
        >>=-eq-ok (compact_items (batches_of rt (get_field "batches" raw))) _ h3 in
      let (s, hs, h5) = >>=-eq-ok (encoded (encode (compact_of rt encode r t items))) _ h4 in
      let same : s ≡ small = cc in
      record {
        report = r;
        raw = raw;
        threshold = t;
        items = items;
        parsed = hr;
        unmarshalled = hraw;
        limited = ht;
        cut = hi;
        sent = encoded-eq-ok (encode (compact_of rt encode r t items)) s hs ∙ ap some same;
        placed = cc;
      }

  parse_report-sent :
      (text small : String) (r : Report)
      → parse_report rt text ≡ ok r
      → rt.decode_report small ≡ some (record r { version = pos 0; workload = "" })
      → parse_report rt small ≡ ok (record r { version = pos 0; workload = "" })
  unfolding parse_report
  parse_report-sent text small r hr at = rw at (named_report-eq-ok (rt.decode_report text) r hr)

  extract_node_report-sent :
      (text small : String) (r s : Report)
      → parse_report rt text ≡ ok r
      → parse_report rt small ≡ ok s
      → (build_workload_plan s.workload_size >>= extract_rest rt (any_check_failed s) small s)
        ≡ forgotten
            (build_workload_plan r.workload_size >>= extract_rest rt (any_check_failed r) text r)
      → extract_node_report rt small ≡ forgotten (extract_node_report rt text)
  unfolding extract_node_report
  extract_node_report-sent text small r s hr hs h = rw (hr, hs) h

  -- A compacted report is one again, and names no workload.
  pub compact_report-parse_report :
      (encode : Compact rt.Float → Option String) (text small node : String)
      → IsJson rt encode
      → compact_report rt encode text ≡ ok (small, node)
      → (r : Report) × (parse_report rt small ≡ ok r) × (r.workload ≡ "") × (r.node_name ≡ node)
  compact_report-parse_report encode text small node laws h =
      let c = compact_report-IsCompacted encode text small node h in
      let compact = compact_of rt encode c.report c.threshold c.items in
      (
        record c.report { version = pos 0; workload = "" },
        parse_report-sent text small c.report c.parsed (laws.report_law compact small c.sent),
        refl,
        c.placed,
      )

  -- If json.Marshal keeps its promises, the controller reads from a report that the agent compacted
  -- exactly what it would read from the whole report, an error included, but for the version and
  -- the name of the workload.
  pub compact_report-extract_node_report :
      (encode : Compact rt.Float → Option String) (text small node : String)
      → IsJson rt encode
      → compact_report rt encode text ≡ ok (small, node)
      → extract_node_report rt small ≡ forgotten (extract_node_report rt text)
  compact_report-extract_node_report encode text small node laws h =
      let c = compact_report-IsCompacted encode text small node h in
      let compact = compact_of rt encode c.report c.threshold c.items in
      let (fields, hf, fb, ft) = laws.payload_law compact small c.sent in
      let anonymous : Report = record c.report { version = pos 0; workload = "" } in
      let sent =
        parse_report-sent text small c.report c.parsed (laws.report_law compact small c.sent) in
      extract_node_report-sent text small c.report anonymous c.parsed sent (
        plan-forgotten (build_workload_plan c.report.workload_size) (any_check_failed c.report) text
          small c.report anonymous
          (λ p.
            rest-forgotten text small c.report p c.raw fields c.threshold c.items c.unmarshalled
              (unmarshal_of_some small fields hf) c.limited c.cut fb ft
              (any_check_failed c.report)))
