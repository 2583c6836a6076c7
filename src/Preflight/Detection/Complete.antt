-- ===== src/Preflight/Detection/Complete.antt =====
-- detectSlowNodes where no report is fail-fast: the rule over the expected batches.
use kcover.Preflight.Types.{BatchResult, NodeReports, NodeReport}
use kcover.Shared.{
  Bool-cases, Distinct, List, String, [], all, all_of_contains, any, ap, arith, contains_of_full,
  false, inl, inr, keys, le-length_of_contains, length, ltb, refl, suc, true, ℕ, ◌&&◌, ◌<◌, ◌==◌,
  ◌↔◌, ◌∙◌, ◌∷◌, ◌≡◌, ◌≤◌, any_mono, sym, nat_eq, text_eq,
}
use kcover.Preflight.Detection.Meaning.{
  IsCommonEnd, pairwise_names_iff, pairwise_results, some_failed_of_batch, IsPairwiseName,
  detect-iff_fail_fast,
}
use kcover.Preflight.Detection.Rule.{
  contains-detect, fail_fast_named, failed_map, has_fail_fast_report, pairwise_names,
  pairwise_reports, classify_node_reports_lem, should_return_no_slow_nodes_lem,
}
use kcover.Preflight.Detection.Batches.{
  contains-failed_batches, failed_batches-Distinct, fails_at, has_failed,
}
use kcover.Preflight.Detection.{detect_slow_nodes, node_ip_to_name, resolve_node_name, contains}

-- Every batch index of the reports is below the expected count, as extractBatchResults ensures.
abbrev pub InRange : ℕ → List BatchResult → Type 0
InRange expected rs = all (λ r. ltb r.batch_idx expected) rs ≡ true

below_of_has_failed :
    (expected b : ℕ) (rs : List BatchResult)
    → InRange expected rs
    → any (has_failed b) rs ≡ true
    → b < expected
below_of_has_failed expected b [] h f = absurd (cc)
below_of_has_failed expected b (r ∷ rs) h f = elim (Bool-cases (has_failed b r)) [
  | inl here ↦ ground arith
  | inr later ↦ below_of_has_failed expected b rs (ground arith) (ground arith)
]

has_failed_of_fails_at :
    (b : ℕ) (ip : String) (rs : List BatchResult)
    → any (fails_at b ip) rs ≡ true
    → any (has_failed b) rs ≡ true
has_failed_of_fails_at b ip rs = any_mono (fails_at b ip) (has_failed b) rs (λ r h. ground arith)

pub length-keys : (failed : List (ℕ × List String)) → length (keys failed) ≡ length failed
length-keys [] = refl
length-keys (x ∷ xs) = ap suc (length-keys xs)

-- As many failing batches as are expected means that each expected batch fails.
every_batch_fails :
    (m : NodeReports) (expected : ℕ)
    → InRange expected (pairwise_results m)
    → expected ≤ length (failed_map m)
    → (b : ℕ) → b < expected
    → any (has_failed b) (pairwise_results m) ≡ true
every_batch_fails m expected range full b below =
    let batches = keys (failed_map m) in
    let within : all (λ x. ltb x expected) batches ≡ true =
      all_of_contains (λ x. ltb x expected) batches
        (λ c key.
          let lt : c < expected =
            below_of_has_failed expected c (pairwise_results m) range
              (sym (contains-failed_batches (pairwise_reports m) c) ∙ key) in
          ground arith) in
    sym (contains-failed_batches (pairwise_reports m) b)
    ∙ contains_of_full expected batches (failed_batches-Distinct (pairwise_reports m)) within
        (omega (arith, length-keys (failed_map m))) b below

fail_fast_of_named :
    (m : NodeReports) (n : String) → fail_fast_named n m ≡ true → has_fail_fast_report m ≡ true
fail_fast_of_named m n =
    any_mono (λ p. p.1.fail_fast && p.1.node_name == n) (λ p. p.1.fail_fast) m (λ p h. ground arith)

-- For reports under distinct keys, none of them fail-fast, with at least one expected batch and all
-- batch indexes below the expected count: a name is in the result exactly if it stands for an address that is an end of a failed pair in every expected batch.
pub detect-iff_complete :
    (m : NodeReports) (expected : ℕ) (n : String)
    → Distinct (keys m)
    → has_fail_fast_report m ≡ false
    → 0 < expected
    → InRange expected (pairwise_results m)
    → (contains (detect_slow_nodes m expected) n ≡ true) ↔ (
        (ip : String) × (resolve_node_name (node_ip_to_name m) ip ≡ n)
        × ((b : ℕ) → b < expected → any (fails_at b ip) (pairwise_results m) ≡ true))
detect-iff_complete m expected n d calm positive range = (forwards, backwards)
  where
    rs : List BatchResult
    rs = pairwise_results m

    forwards :
        contains (detect_slow_nodes m expected) n ≡ true
        → (ip : String) × (resolve_node_name (node_ip_to_name m) ip ≡ n)
          × ((b : ℕ) → b < expected → any (fails_at b ip) (pairwise_results m) ≡ true)
    forwards h =
        let unnamed : fail_fast_named n m ≡ false = elim (Bool-cases (fail_fast_named n m)) [
          | inl e ↦ absurd (ground (arith, fail_fast_of_named m n e))
          | inr e ↦ e
        ] in
        let full : expected ≤ length (failed_map m) =
          ground (arith, contains-detect m expected n d) in
        let (ip, named, common) =
          (pairwise_names_iff m n).0 (ground (arith, contains-detect m expected n d)) in
        (
          ip,
          named,
          λ b below. common.everywhere b (every_batch_fails m expected range full b below),
        )

    backwards :
        ((ip : String) × (resolve_node_name (node_ip_to_name m) ip ≡ n)
          × ((b : ℕ) → b < expected → any (fails_at b ip) (pairwise_results m) ≡ true))
        → contains (detect_slow_nodes m expected) n ≡ true
    backwards (ip, named, each) =
        let first = each 0 positive in
        let common : IsCommonEnd rs ip = record {
          some_failed = some_failed_of_batch 0 rs (has_failed_of_fails_at 0 ip rs first);
          everywhere = λ b f. each b (below_of_has_failed expected b rs range f);
        } in
        let inside : contains (pairwise_names m) n ≡ true =
          (pairwise_names_iff m n).1 (ip, named, common) in
        let full : expected ≤ length (keys (failed_map m)) =
          le-length_of_contains expected (keys (failed_map m)) (λ b below.
            contains-failed_batches (pairwise_reports m) b
            ∙ has_failed_of_fails_at b ip rs (each b below)) in
        ground (arith, contains-detect m expected n d, length-keys (failed_map m))

-- For reports under distinct keys: if no report is fail-fast and fewer batches than expected have a
-- failed pair, the result is empty;
-- one more report, which is fail-fast, puts every name of the pairwise path into it.
pub fail_fast_lifts_threshold :
    (m : NodeReports) (k : String) (r : NodeReport) (expected : ℕ) (n : String)
    → Distinct (keys ((k, r) ∷ m))
    → r.fail_fast ≡ true
    → has_fail_fast_report m ≡ false
    → length (failed_map m) < expected
    → IsPairwiseName ((k, r) ∷ m) n
    → (detect_slow_nodes m expected ≡ [])
      × (contains (detect_slow_nodes ((k, r) ∷ m) expected) n ≡ true)
unfolding detect_slow_nodes
fail_fast_lifts_threshold m k r expected n d ff calm few named =
    let (p, f, _, _) = classify_node_reports_lem m d.1 in
    (
      rw (should_return_no_slow_nodes_lem, p, f) (ground arith),
      (detect-iff_fail_fast ((k, r) ∷ m) expected n d (ground arith)).1 (inr named),
    )
