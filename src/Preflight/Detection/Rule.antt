-- ===== src/Preflight/Detection/Rule.antt =====
-- detectSlowNodes: which nodes it names.
use kcover.Shared.{
  All, Bool, Bool-cases, Distinct, String, [], add-Distinct, any, arith, contains, contains-add,
  eq_iff, false, inl, inr, keep, keys, keys-append, not, refl, sym, ◌&&◌, ◌++◌, ◌==◌, ◌||◌, ◌∷◌,
  ◌≡◌, text_eq, contains-append, insert_missing, subst, IsSorted, List, if◌then◌else◌, is_empty,
  leb, length, ℕ, text_order, sort-Distinct, sort-IsSorted, contains-sort,
}
use kcover.Preflight.Detection.{
  Classified, classify_from, classify_report, classify_node_reports, detect_slow_nodes,
  failed_node_ips_by_batch, intersect_failed_node_ips, merge_pairwise_slow_nodes, node_ip_to_name,
  should_return_no_slow_nodes, finalize_slow_nodes, observed_batch_count,
}
use kcover.Preflight.Types.{NodeReport, NodeReports}
use mathlib.Core.List.{append-nil, append_assoc}
use kcover.Preflight.Detection.Intersection.{add_all-Distinct, contains-add_all}

-- What classifyNodeReports keeps for the pairwise path.
abbrev pub pairwise_reports : NodeReports → NodeReports
pairwise_reports = keep (λ p. not p.1.fail_fast)

abbrev pub has_fail_fast_report : NodeReports → Bool
has_fail_fast_report = any (λ p. p.1.fail_fast)

-- A fail-fast report with this node name.
abbrev pub fail_fast_named : String → NodeReports → Bool
fail_fast_named n = any (λ p. p.1.fail_fast && p.1.node_name == n)

abbrev Disjoint : NodeReports → NodeReports → Type 0
Disjoint m rest = All (λ p. contains (keys m) p.0 ≡ false) rest

classify_from-has_fail_fast :
    (c : Classified) (m : NodeReports)
    → (classify_from c m).has_fail_fast ≡ (has_fail_fast_report m || c.has_fail_fast)
unfolding classify_from classify_report
classify_from-has_fail_fast c [] = refl
classify_from-has_fail_fast c ((k, r) ∷ m) =
    ground (arith, classify_from-has_fail_fast (classify_report c k r) m)

classify_from-abnormal :
    (c : Classified) (m : NodeReports) (n : String)
    → contains (classify_from c m).abnormal n ≡ (fail_fast_named n m || contains c.abnormal n)
unfolding classify_from classify_report
classify_from-abnormal c [] n = refl
classify_from-abnormal c ((k, r) ∷ m) n = ground (
  arith,
  classify_from-abnormal (classify_report c k r) m n,
  contains-add r.node_name c.abnormal n,
)

classify_from-Distinct :
    (c : Classified) (m : NodeReports) → Distinct c.abnormal → Distinct (classify_from c m).abnormal
unfolding classify_from classify_report
classify_from-Distinct c [] d = d
classify_from-Distinct c ((k, r) ∷ m) d =
    classify_from-Distinct (classify_report c k r) m
      (ground (arith, add-Distinct r.node_name c.abnormal d))

Disjoint-snoc :
    (m : NodeReports) (k : String) (r : NodeReport) (rest : NodeReports)
    → Disjoint m rest
    → contains (keys rest) k ≡ false
    → Disjoint (m ++ ((k, r) ∷ [])) rest
Disjoint-snoc m k r [] d h = tt
Disjoint-snoc m k r ((j, s) ∷ rest) d h = (
  ground (
    arith,
    keys-append m ((k, r) ∷ []),
    contains-append (keys m) (k ∷ []) j,
    eq_iff k j,
    eq_iff j k,
  ),
  Disjoint-snoc m k r rest d.1 (ground arith),
)

classify_from-preflight :
    (c : Classified) (m : NodeReports)
    → Distinct (keys m)
    → Disjoint c.preflight m
    → (classify_from c m).preflight ≡ c.preflight ++ pairwise_reports m
unfolding classify_from classify_report
classify_from-preflight c [] d h = sym (append-nil c.preflight)
classify_from-preflight c ((k, r) ∷ m) d h = elim (Bool-cases r.fail_fast) [
  | inl ff ↦
      rw (classify_from-preflight (classify_report c k r) m d.1 (ground arith)) (ground arith)
  | inr ok ↦
      let grown : (classify_report c k r).preflight ≡ c.preflight ++ ((k, r) ∷ []) =
        ground (arith, insert_missing k r c.preflight h.0) in
      let apart : Disjoint (classify_report c k r).preflight m =
        subst (λ x. Disjoint x m) (sym grown) (Disjoint-snoc c.preflight k r m h.1 d.0) in
      rw (classify_from-preflight (classify_report c k r) m d.1 apart)
        (ground (arith, grown, append_assoc c.preflight ((k, r) ∷ []) (pairwise_reports m)))
]

Disjoint-nil : (m : NodeReports) → Disjoint [] m
Disjoint-nil [] = tt
Disjoint-nil (p ∷ m) = (refl, Disjoint-nil m)

-- The three parts of the classification, for reports under distinct keys.
pub classify_node_reports_lem :
    (m : NodeReports)
    → Distinct (keys m)
    → let c = classify_node_reports m in
      (c.preflight ≡ pairwise_reports m)
      × (c.has_fail_fast ≡ has_fail_fast_report m)
      × ((n : String) → contains c.abnormal n ≡ fail_fast_named n m)
      × Distinct c.abnormal
unfolding classify_node_reports
classify_node_reports_lem m d =
    let c : Classified = record { abnormal = []; preflight = []; has_fail_fast = false } in
    (
      classify_from-preflight c m d (Disjoint-nil m),
      ground (arith, classify_from-has_fail_fast c m),
      λ n. ground (arith, classify_from-abnormal c m n),
      classify_from-Distinct c m tt,
    )

-- shouldReturnNoSlowNodes: the pairwise rule is applied if a report is fail-fast or enough batches
-- have a failed pair; what was observed does not matter.
pub should_return_no_slow_nodes_lem :
    (expected observed failed : ℕ) (has_fail_fast : Bool)
    → should_return_no_slow_nodes expected observed failed has_fail_fast
      ≡ not (has_fail_fast || leb expected failed)
unfolding should_return_no_slow_nodes
should_return_no_slow_nodes_lem expected observed failed has_fail_fast = ground arith

abbrev pub failed_map : NodeReports → List (ℕ × List String)
failed_map m = failed_node_ips_by_batch (pairwise_reports m)

-- The rule applies.
abbrev pub is_decided : NodeReports → ℕ → Bool
is_decided m expected = has_fail_fast_report m || leb expected (length (failed_map m))

-- The names that mergePairwiseSlowNodes adds.
abbrev pub pairwise_names : NodeReports → List String
pairwise_names m =
    if is_empty (failed_map m)
    then []
    else intersect_failed_node_ips (failed_map m) (node_ip_to_name m)

pub contains-merge :
    (abnormal : List String) (m : NodeReports) (n : String)
    → contains (merge_pairwise_slow_nodes abnormal m (failed_map m)) n
      ≡ (contains (pairwise_names m) n || contains abnormal n)
unfolding merge_pairwise_slow_nodes
contains-merge abnormal m n = ground (
  arith,
  contains-add_all abnormal (intersect_failed_node_ips (failed_map m) (node_ip_to_name m)) n,
)

merge-Distinct :
    (abnormal : List String) (m : NodeReports) (failed : List (ℕ × List String))
    → Distinct abnormal
    → Distinct (merge_pairwise_slow_nodes abnormal m failed)
unfolding merge_pairwise_slow_nodes
merge-Distinct abnormal m failed d =
    ground
      (arith, add_all-Distinct abnormal (intersect_failed_node_ips failed (node_ip_to_name m)) d)

-- What the function returns, read off the reports.
pub contains-detect :
    (m : NodeReports) (expected : ℕ) (n : String)
    → Distinct (keys m)
    → contains (detect_slow_nodes m expected) n
      ≡ (is_decided m expected && (contains (pairwise_names m) n || fail_fast_named n m))
unfolding detect_slow_nodes finalize_slow_nodes
contains-detect m expected n d =
    let (p, f, a, _) = classify_node_reports_lem m d in
    let c = classify_node_reports m in
    rw (should_return_no_slow_nodes_lem, p, f)
      (ground (
        arith,
        a n,
        contains-sort (merge_pairwise_slow_nodes c.abnormal m (failed_map m)) n,
        contains-merge c.abnormal m n,
      ))

-- For reports under distinct keys the result is sorted and names no node twice.
pub detect-IsSorted :
    (m : NodeReports) (expected : ℕ)
    → Distinct (keys m)
    → IsSorted (detect_slow_nodes m expected) × Distinct (detect_slow_nodes m expected)
unfolding detect_slow_nodes finalize_slow_nodes
detect-IsSorted m expected d =
    let c = classify_node_reports m in
    let (_, _, _, distinct) = classify_node_reports_lem m d in
    let failed = failed_node_ips_by_batch c.preflight in
    let merged = merge_pairwise_slow_nodes c.abnormal m failed in
    elim (Bool-cases (
      should_return_no_slow_nodes expected (observed_batch_count c.preflight) (length failed)
        c.has_fail_fast)) [
          | inl none_named ↦ rw none_named (tt, tt)
          | inr named ↦ rw named (
            sort-IsSorted merged,
            sort-Distinct merged (merge-Distinct c.abnormal m failed distinct),
          )
        ]
