-- ===== src/Preflight/Detection/Meaning.antt =====
-- The slow-node rule in terms of the reports: what a name in the result of detectSlowNodes means.
use kcover.Shared.{
  ==_refl, Bool-cases, Distinct, List, String, [], all, all-contains, all_of_contains, any,
  any_mono, arith, contains, contains-map_of_contains, contains_of_contains-map, false, inl,
  is_empty, keys, map, refl, sort, subst, true, ℕ, ◌↔◌, ◌∙◌, ◌∷◌, ◌≡◌, ◌⊎◌, inr, nat_eq, sym,
  text_eq, nat_order,
}
use kcover.Preflight.Types.{BatchResult, NodeReports}
use kcover.Preflight.Detection.Batches.{
  all_results, contains-batch_ips, contains-failed_batches, fails_at, has_failed,
}
use kcover.Preflight.Detection.Intersection.{contains-common, in_batch}
use kcover.Preflight.Detection.Rule.{
  contains-detect, fail_fast_named, failed_map, has_fail_fast_report, pairwise_names,
  pairwise_reports,
}
use kcover.Preflight.Detection.{
  detect_slow_nodes, intersect_batches, intersect_failed_node_ips, node_ip_to_name,
  resolve_node_name,
}

abbrev pub pairwise_results : NodeReports → List BatchResult
pairwise_results m = all_results (pairwise_reports m)

-- An end of a failed pair in each batch that has a failed pair, of which there is one at least.
pub record IsCommonEnd (rs : List BatchResult) (ip : String) : Type 0 where
  pub some_failed : any (λ r. r.failed) rs ≡ true
  pub everywhere : (b : ℕ) → any (has_failed b) rs ≡ true → any (fails_at b ip) rs ≡ true

-- A name that the pairwise path adds, with the address behind it.
abbrev pub IsPairwiseName : NodeReports → String → Type 0
IsPairwiseName m n =
    (ip : String) × (resolve_node_name (node_ip_to_name m) ip ≡ n)
    × IsCommonEnd (pairwise_results m) ip

pub failed_batch :
    (rs : List BatchResult)
    → any (λ r. r.failed) rs ≡ true
    → (b : ℕ) × (any (has_failed b) rs ≡ true)
failed_batch [] h = absurd (cc)
failed_batch (r ∷ rs) h = elim (Bool-cases r.failed) [
  | inl here ↦ (r.batch_idx, ground (arith, ==_refl r.batch_idx))
  | inr later ↦ let (b, at) = failed_batch rs (ground arith) in (b, ground arith)
]

pub some_failed_of_batch :
    (b : ℕ) (rs : List BatchResult) → any (has_failed b) rs ≡ true → any (λ r. r.failed) rs ≡ true
some_failed_of_batch b rs = any_mono (has_failed b) (λ r. r.failed) rs (λ r h. ground arith)

nonempty_has_key :
    (failed : List (ℕ × List String))
    → is_empty failed ≡ false
    → (b : ℕ) × (contains (keys failed) b ≡ true)
nonempty_has_key [] h = absurd (cc)
nonempty_has_key ((b, ips) ∷ rest) h = (b, ground (arith, ==_refl b))

pub nonempty_of_key :
    (failed : List (ℕ × List String)) (b : ℕ)
    → contains (keys failed) b ≡ true
    → is_empty failed ≡ false
nonempty_of_key [] b h = absurd (cc)
nonempty_of_key (x ∷ xs) b h = refl

IsCommonEnd-of_contains :
    (m : NodeReports) (ip : String)
    → contains (intersect_batches (failed_map m) (sort (keys (failed_map m)))) ip ≡ true
    → IsCommonEnd (pairwise_results m) ip
IsCommonEnd-of_contains m ip h =
    let failed = failed_map m in
    let nonempty : is_empty failed ≡ false = ground (arith, contains-common failed ip) in
    let inside : all (in_batch failed ip) (keys failed) ≡ true =
      ground (arith, contains-common failed ip) in
    let (b, at) = nonempty_has_key failed nonempty in
    record {
      some_failed =
          some_failed_of_batch b (pairwise_results m)
            (sym (contains-failed_batches (pairwise_reports m) b) ∙ at);
      everywhere = λ c fails.
          sym (contains-batch_ips (pairwise_reports m) c ip)
          ∙ all-contains (in_batch failed ip) (keys failed) c inside
              (contains-failed_batches (pairwise_reports m) c ∙ fails);
    }

contains_of_common_end :
    (m : NodeReports) (ip : String)
    → IsCommonEnd (pairwise_results m) ip
    → contains (intersect_batches (failed_map m) (sort (keys (failed_map m)))) ip ≡ true
contains_of_common_end m ip h =
    let failed = failed_map m in
    let (b, at) = failed_batch (pairwise_results m) h.some_failed in
    let nonempty : is_empty failed ≡ false =
      nonempty_of_key failed b (contains-failed_batches (pairwise_reports m) b ∙ at) in
    let inside : all (in_batch failed ip) (keys failed) ≡ true =
      all_of_contains (in_batch failed ip) (keys failed) (λ c key.
        contains-batch_ips (pairwise_reports m) c ip
        ∙ h.everywhere c (sym (contains-failed_batches (pairwise_reports m) c) ∙ key)) in
    ground (arith, contains-common failed ip)

pub pairwise_names_iff :
    (m : NodeReports) (n : String) → (contains (pairwise_names m) n ≡ true) ↔ IsPairwiseName m n
unfolding intersect_failed_node_ips
pairwise_names_iff m n = (forwards, backwards)
  where
    common : List String
    common = intersect_batches (failed_map m) (sort (keys (failed_map m)))

    resolve : String → String
    resolve = resolve_node_name (node_ip_to_name m)

    forwards : contains (pairwise_names m) n ≡ true → IsPairwiseName m n
    forwards h =
        let (ip, inside, named) = contains_of_contains-map resolve common n (ground arith) in
        (ip, named, IsCommonEnd-of_contains m ip inside)

    backwards : IsPairwiseName m n → contains (pairwise_names m) n ≡ true
    backwards (ip, named, h) =
        let (b, at) = failed_batch (pairwise_results m) h.some_failed in
        let nonempty : is_empty (failed_map m) ≡ false =
          nonempty_of_key (failed_map m) b (contains-failed_batches (pairwise_reports m) b ∙ at) in
        let inside : contains (map resolve common) (resolve ip) ≡ true =
          contains-map_of_contains resolve common ip (contains_of_common_end m ip h) in
        rw nonempty (subst (λ x. contains (map resolve common) x ≡ true) named inside)

-- For reports under distinct keys, one of them fail-fast, a name is in the result exactly if a fail-fast report carries it or it
-- stands for an address that is an end of a failed pair in every batch with a failed pair,
-- however few those batches are.
pub detect-iff_fail_fast :
    (m : NodeReports) (expected : ℕ) (n : String)
    → Distinct (keys m)
    → has_fail_fast_report m ≡ true
    → (contains (detect_slow_nodes m expected) n ≡ true)
      ↔ ((fail_fast_named n m ≡ true) ⊎ IsPairwiseName m n)
detect-iff_fail_fast m expected n d ff = (
  λ h. elim (Bool-cases (fail_fast_named n m)) [
    | inl named ↦ inl named
    | inr other ↦ inr ((pairwise_names_iff m n).0 (ground (arith, contains-detect m expected n d)))
  ],
  λ h. elim h [
    | inl named ↦ ground (arith, contains-detect m expected n d)
    | inr p ↦
        let inside : contains (pairwise_names m) n ≡ true = (pairwise_names_iff m n).1 p in
        ground (arith, contains-detect m expected n d)
  ],
)
