-- ===== src/Preflight/Extraction/Accepted.antt =====
-- pkg/preflight/report_parser.go: what extractNodeReport promises about a report that it accepts.
use kcover.Shared.{
  ◌≡◌, Distinct, IsSorted, List, String, [], all, arith, contains, keys, lookup, map, ok,
  or_default, refl, sort, sort-Distinct, sort-IsSorted, subst, sym, true, ℕ, ◌∷◌, nat_eq, nat_order,
  >>=-eq-ok, Bool, Option, all-sort, all_of_contains, false, is_empty, none, not, some, ◌&&◌, ◌==◌,
  text_eq,
}
use kcover.Preflight.Types.{BatchResult, Extracted, Report, WorkloadPlan}
use kcover.Preflight.Extraction.Sound.{IsStored, is_sound, is_stored, items-keep}
use kcover.Preflight.Json.{Runtime, get_field}
use kcover.Preflight.Parser.{
  build_workload_plan, parse_report, named_report, unmarshal_report_payload,
}
use kcover.Preflight.Extraction.{
  ordered_batch_results, zero_batch_result, any_check_failed, batches_of, extract_batch_results,
  extract_bus_bw_threshold, extract_node_report, extract_rest,
}

lookup-stored :
    (n : ℕ) (m : List (ℕ × BatchResult)) (i : ℕ)
    → contains (keys m) i ≡ true
    → all (is_stored n) m ≡ true
    → is_stored n (i, or_default zero_batch_result (lookup i m)) ≡ true
unfolding lookup
lookup-stored n [] i h k = cc
lookup-stored n ((j, r) ∷ m) i h k = ground (arith, lookup-stored n m i)

at_keys : List (ℕ × BatchResult) → List ℕ → List BatchResult
at_keys m idxs = map (λ idx. or_default zero_batch_result (lookup idx m)) idxs

at_keys_sound :
    (n : ℕ) (m : List (ℕ × BatchResult)) (idxs : List ℕ)
    → all (contains (keys m)) idxs ≡ true
    → all (is_stored n) m ≡ true
    → (all (is_sound n) (at_keys m idxs) ≡ true) × (map (λ r. r.batch_idx) (at_keys m idxs) ≡ idxs)
unfolding at_keys
at_keys_sound n m [] h k = (refl, refl)
at_keys_sound n m (i ∷ idxs) h k = ground (arith, lookup-stored n m i, at_keys_sound n m idxs)

sorted_keys : (m : List (ℕ × BatchResult)) → all (contains (keys m)) (sort (keys m)) ≡ true
sorted_keys m =
    rw (all-sort (contains (keys m)) (keys m))
      (all_of_contains (contains (keys m)) (keys m) (λ a h. h))

ordered_sound :
    (n : ℕ) (m : List (ℕ × BatchResult))
    → IsStored n m
    → (all (is_sound n) (ordered_batch_results m) ≡ true)
      × IsSorted (map (λ r. r.batch_idx) (ordered_batch_results m))
      × Distinct (map (λ r. r.batch_idx) (ordered_batch_results m))
unfolding ordered_batch_results at_keys IsStored
ordered_sound n m s =
    let (sound, idxs) = at_keys_sound n m (sort (keys m)) (sorted_keys m) s.0 in
    (
      sound,
      subst IsSorted (sym idxs) (sort-IsSorted (keys m)),
      subst Distinct (sym idxs) (sort-Distinct (keys m) s.1),
    )

empty-IsStored : (n : ℕ) → IsStored n []
unfolding IsStored
empty-IsStored n = (refl, tt)

-- What the aggregator may rely on: a named node; a plan of its workload size; results below the
-- batch count, each of a pair with its reporter, one per index and in the order of the indexes;
-- and none of a node whose GPU or storage check failed.
pub record IsAccepted (x : Extracted) : Type 0 where
  named : (x.report.node_name == "") ≡ false
  pub planned : build_workload_plan x.report.workload_size ≡ ok x.plan
  sound : all (is_sound x.plan.batch_count) x.batch_results ≡ true
  ascending : IsSorted (map (λ r. r.batch_idx) x.batch_results)
  one_per_index : Distinct (map (λ r. r.batch_idx) x.batch_results)
  fail_fast_bare : (any_check_failed x.report && not (is_empty x.batch_results)) ≡ false

module _ (rt : Runtime) where
  named_report-named :
      (o : Option Report) (r : Report) → named_report rt o ≡ ok r → (r.node_name == "") ≡ false
  named_report-named none r h = cc
  named_report-named (some x) r h = ground arith

  rest-IsAccepted :
      (bare : Bool) (text : String) (r : Report) (p : WorkloadPlan) (x : Extracted)
      → any_check_failed r ≡ bare
      → (r.node_name == "") ≡ false
      → build_workload_plan r.workload_size ≡ ok p
      → extract_rest rt bare text r p ≡ ok x
      → IsAccepted x
  unfolding extract_batch_results
  rest-IsAccepted true text r p x b n e h =
      let same : record { report = r; plan = p; batch_results = [] } ≡ x = cc in
      subst IsAccepted same (record {
        named = n;
        planned = e;
        sound = refl;
        ascending = tt;
        one_per_index = tt;
        fail_fast_bare = ground arith;
      })
  rest-IsAccepted false text r p x b n e h =
      let (payload, e1, h1) = >>=-eq-ok (unmarshal_report_payload rt text) _ h in
      let (threshold, e2, h2) = >>=-eq-ok (extract_bus_bw_threshold rt payload) _ h1 in
      let (m, e3, h3) = >>=-eq-ok (extract_batch_results rt payload r p threshold) _ h2 in
      let stored =
        items-keep rt (batches_of rt (get_field "batches" payload)) r.node_ip p.batch_count
          threshold [] m e3 (empty-IsStored p.batch_count) in
      let (good, up, once) = ordered_sound p.batch_count m stored in
      let same : record { report = r; plan = p; batch_results = ordered_batch_results m } ≡ x =
        cc in
      subst IsAccepted same (record {
        named = n;
        planned = e;
        sound = good;
        ascending = up;
        one_per_index = once;
        fail_fast_bare = ground arith;
      })

  -- A text that extractNodeReport accepts gives a named node, the plan of its workload size, and batch
  -- results whose indexes are below the batch count, ascending and without repetition, each with its
  -- own address in its pair; there are none where the GPU or the storage check failed.
  pub extract_node_report-IsAccepted :
      (text : String) (x : Extracted) → extract_node_report rt text ≡ ok x → IsAccepted x
  unfolding extract_node_report parse_report
  extract_node_report-IsAccepted text x h =
      let (r, e1, h1) = >>=-eq-ok (parse_report rt text) _ h in
      let (p, e2, h2) = >>=-eq-ok (build_workload_plan r.workload_size) _ h1 in
      rest-IsAccepted (any_check_failed r) text r p x refl
        (named_report-named (rt.decode_report text) r e1) e2 h2
