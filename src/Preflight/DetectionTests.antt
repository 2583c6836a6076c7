-- ===== src/Preflight/DetectionTests.antt =====
-- detectSlowNodes on two and four nodes.
use kcover.Preflight.Types.{BatchResult, NodeReport, NodeReports}
use kcover.Shared.{
  Bool, Distinct, IsSorted, List, String, [], add, any, arith, contains, eq_iff, false, insert,
  lookup, refl, sort, text_le, true, ℕ, ◌<◌, ◌↔◌, ◌∷◌, ◌≡◌, ◌⊎◌, text_eq, text_order, Bool-cases,
  eq_of_==, inl, inr, some, subst, ◌==◌,
}
use kcover.Preflight.Detection.Meaning.{IsPairwiseName, detect-iff_fail_fast, pairwise_results}
use kcover.Preflight.Detection.MapOrder.{OwnAddress, SameMap, detect-order}
use kcover.Preflight.Detection.{
  classify_node_reports, detect_slow_nodes, failed_node_ips_by_batch, finalize_slow_nodes,
  intersect_failed_node_ips, merge_pairwise_slow_nodes, node_ip_to_name, observed_batch_count,
  resolve_node_name, should_return_no_slow_nodes,
}
use kcover.Preflight.Detection.Rule.{detect-IsSorted, fail_fast_named}
use kcover.Preflight.Detection.Complete.{detect-iff_complete, fail_fast_lifts_threshold}
use kcover.Preflight.Detection.Batches.{fails_at}

abbrev res : ℕ → String → String → Bool → BatchResult
res b p q f = record { batch_idx = b; pair_first = p; pair_second = q; self_ip = p; failed = f }

abbrev from_node : String → String → Bool → List BatchResult → String × NodeReport
from_node n ip ff rs =
    (n, record { node_name = n; self_ip = ip; fail_fast = ff; batch_results = rs })

-- Three batches over four nodes; only the first address fails in each.
abbrev four : NodeReports
four =
    from_node "a" "1" false (res 0 "1" "2" true ∷ res 1 "1" "3" true ∷ res 2 "1" "4" true ∷ [])
    ∷ from_node "b" "2" false (res 0 "1" "2" true ∷ res 1 "2" "4" false ∷ [])
    ∷ from_node "c" "3" false (res 0 "3" "4" false ∷ res 1 "1" "3" true ∷ [])
    ∷ from_node "d" "4" false (res 0 "3" "4" false ∷ res 2 "1" "4" true ∷ [])
    ∷ []

abbrev broken : NodeReport
broken = record { node_name = "e"; self_ip = ""; fail_fast = true; batch_results = [] }

-- One failing batch of two nodes.
abbrev two : NodeReports
two =
    from_node "a" "1" false (res 0 "1" "2" true ∷ res 1 "1" "2" false ∷ [])
    ∷ from_node "b" "2" false (res 0 "1" "2" true ∷ [])
    ∷ []

abbrev two_swapped : NodeReports
two_swapped =
    from_node "b" "2" false (res 0 "1" "2" true ∷ [])
    ∷ from_node "a" "1" false (res 0 "1" "2" true ∷ res 1 "1" "2" false ∷ [])
    ∷ []

four_slow : detect_slow_nodes four 3 ≡ "a" ∷ []
unfolding detect_slow_nodes should_return_no_slow_nodes observed_batch_count
    merge_pairwise_slow_nodes finalize_slow_nodes classify_node_reports failed_node_ips_by_batch
    node_ip_to_name intersect_failed_node_ips resolve_node_name sort lookup insert add text_le
four_slow = refl

four_names :
    (ip : String) × (resolve_node_name (node_ip_to_name four) ip ≡ "a")
    × ((b : ℕ) → b < 3 → any (fails_at b ip) (pairwise_results four) ≡ true)
four_names =
    (detect-iff_complete four 3 "a" (refl, (refl, (refl, (refl, tt)))) refl (omega arith) refl).0
      (rw four_slow)

-- The rule has an instance: every batch of `four` fails at the first address.
detect-iff_complete_example : (contains (detect_slow_nodes four 3) "a" ≡ true) ↔ (
    (ip : String) × (resolve_node_name (node_ip_to_name four) ip ≡ "a")
    × ((b : ℕ) → b < 3 → any (fails_at b ip) (pairwise_results four) ≡ true))
detect-iff_complete_example =
    detect-iff_complete four 3 "a" (refl, (refl, (refl, (refl, tt)))) refl (omega arith) refl

detect-iff_fail_fast_example : (contains (detect_slow_nodes (("e", broken) ∷ two) 5) "e" ≡ true) ↔ (
    (fail_fast_named "e" (("e", broken) ∷ two) ≡ true) ⊎ IsPairwiseName (("e", broken) ∷ two) "e")
detect-iff_fail_fast_example =
    detect-iff_fail_fast (("e", broken) ∷ two) 5 "e" (refl, (refl, (refl, tt))) refl

two_same : SameMap two two_swapped
unfolding lookup
two_same k = elim (Bool-cases ("a" == k)) [
  | inl first ↦ subst (λ n. lookup n two ≡ lookup n two_swapped) (eq_of_== "a" k first) refl
  | inr other ↦ rw other
]

two_rows :
    (k : String) (r : NodeReport)
    → lookup k two ≡ some r
    → ((r.self_ip ≡ "1") × (r.node_name ≡ "a")) ⊎ ((r.self_ip ≡ "2") × (r.node_name ≡ "b"))
unfolding lookup
two_rows k r h = ground arith

two_own : OwnAddress two
two_own k j r s p q named same =
    ground (arith, two_rows k r p, two_rows j s q, eq_iff "1" "2", eq_iff "2" "1")

detect-order_example : detect_slow_nodes two 1 ≡ detect_slow_nodes two_swapped 1
detect-order_example =
    detect-order two two_swapped 1 (refl, (refl, tt)) (refl, (refl, tt)) two_same two_own

two_name : IsPairwiseName (("e", broken) ∷ two) "a"
unfolding resolve_node_name node_ip_to_name lookup insert
two_name = ("1", refl, record { some_failed = refl; everywhere = λ b h. ground arith })

fail_fast_lifts_threshold_example :
    (detect_slow_nodes two 5 ≡ [])
    × (contains (detect_slow_nodes (("e", broken) ∷ two) 5) "a" ≡ true)
unfolding failed_node_ips_by_batch lookup insert add
fail_fast_lifts_threshold_example =
    fail_fast_lifts_threshold two "e" broken 5 "a" (refl, (refl, (refl, tt))) refl refl
      (omega arith) two_name

detect-IsSorted_example : IsSorted (detect_slow_nodes two 1) × Distinct (detect_slow_nodes two 1)
detect-IsSorted_example = detect-IsSorted two 1 (refl, (refl, tt))
