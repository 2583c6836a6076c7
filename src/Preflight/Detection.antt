-- ===== src/Preflight/Detection.antt =====
-- pkg/preflight/slow_node_detection.go. A `range` over a map runs along the list that stands for
-- the map; log output is left out. The proofs are in the modules below.
pub mod Batches
pub mod Intersection
pub mod Rule
pub mod Meaning
pub mod Complete
pub mod MapOrder
use kcover.Shared.{
  ℕ, ◌≡◌, String, List, [], ◌∷◌, map, Bool, true, false, not, ◌&&◌, ◌||◌, Option, none, some, ltb,
  leb, ◌==◌, if◌then◌else◌, length, is_empty, keep, contains, add, keys, lookup, insert, or_default,
  sort, text_eq, nat_eq, nat_order, text_order,
}
use kcover.Preflight.Types.{BatchResult, NodeReport, NodeReports, PairKey, pair_key_eq}

pub record Classified : Type 0 where
  pub abnormal : List String
  pub preflight : NodeReports
  pub has_fail_fast : Bool

classify_report : Classified → String → NodeReport → Classified
classify_report c key report =
    if report.fail_fast
    then record c { abnormal = add report.node_name c.abnormal; has_fail_fast = true }
    else record c { preflight = insert key report c.preflight }

classify_from : Classified → NodeReports → Classified
classify_from c [] = c
classify_from c ((key, report) ∷ rest) = classify_from (classify_report c key report) rest

unfoldable pub classify_node_reports : NodeReports → Classified
unfolding classify_from classify_report
classify_node_reports reports =
    classify_from (record { abnormal = []; preflight = []; has_fail_fast = false }) reports

unfoldable pub should_return_no_slow_nodes : ℕ → ℕ → ℕ → Bool → Bool
should_return_no_slow_nodes expected observed failed has_fail_fast =
    if has_fail_fast || leb expected 0
    then false
    else if leb expected observed && failed == 0
    then true
    else ltb failed expected

name_ip : List (String × String) → NodeReport → List (String × String)
name_ip names report =
    if report.self_ip == "" then names else insert report.self_ip report.node_name names

name_ips : List (String × String) → NodeReports → List (String × String)
name_ips names [] = names
name_ips names ((_, report) ∷ rest) = name_ips (name_ip names report) rest

unfoldable pub node_ip_to_name : NodeReports → List (String × String)
unfolding name_ip name_ips
node_ip_to_name = name_ips []

-- report_parser.go: the name of a node, or its address where no report names it.
unfoldable pub resolve_node_name : List (String × String) → String → String
resolve_node_name names ip = elim (lookup ip names) [ none ↦ ip | some name ↦ name ]

abbrev pub pair_of : BatchResult → PairKey
pair_of r = record { batch = r.batch_idx; first = r.pair_first; second = r.pair_second }

-- The outcome of a pair in a batch: a failure of either end stays.
record_result : List (PairKey × Bool) → BatchResult → List (PairKey × Bool)
record_result dedup result =
    let key = pair_of result in
    if result.failed
    then insert key true dedup
    else elim (lookup key dedup) [ none ↦ insert key false dedup | some _ ↦ dedup ]

record_results : List (PairKey × Bool) → List BatchResult → List (PairKey × Bool)
record_results dedup [] = dedup
record_results dedup (result ∷ rest) = record_results (record_result dedup result) rest

record_reports : List (PairKey × Bool) → NodeReports → List (PairKey × Bool)
record_reports dedup [] = dedup
record_reports dedup ((_, report) ∷ rest) =
    record_reports (record_results dedup report.batch_results) rest

-- The set of addresses of one batch; a missing key reads as the empty set.
abbrev pub batch_ips : List (ℕ × List String) → ℕ → List String
batch_ips failed batch = or_default [] (lookup batch failed)

mark_pair : List (ℕ × List String) → PairKey → List (ℕ × List String)
mark_pair out key = insert key.batch (add key.second (add key.first (batch_ips out key.batch))) out

mark_pairs : List (ℕ × List String) → List (PairKey × Bool) → List (ℕ × List String)
mark_pairs out [] = out
mark_pairs out ((key, failed) ∷ rest) = mark_pairs (if failed then mark_pair out key else out) rest

unfoldable pub failed_node_ips_by_batch : NodeReports → List (ℕ × List String)
unfolding record_result record_results record_reports mark_pair mark_pairs
failed_node_ips_by_batch reports = mark_pairs [] (record_reports [] reports)

observe_results : List ℕ → List BatchResult → List ℕ
observe_results observed [] = observed
observe_results observed (result ∷ rest) = observe_results (add result.batch_idx observed) rest

observe_reports : List ℕ → NodeReports → List ℕ
observe_reports observed [] = observed
observe_reports observed ((_, report) ∷ rest) =
    observe_reports (observe_results observed report.batch_results) rest

unfoldable pub observed_batch_count : NodeReports → ℕ
unfolding observe_results observe_reports
observed_batch_count reports = length (observe_reports [] reports)

-- The loop over the later batches, with its early return.
shrink : List (ℕ × List String) → List String → List ℕ → List String
shrink failed intersection [] = intersection
shrink failed intersection (batch ∷ rest) =
    let kept = keep (contains (batch_ips failed batch)) intersection in
    let later = shrink failed kept rest in if is_empty kept then [] else later

pub intersect_batches : List (ℕ × List String) → List ℕ → List String
intersect_batches failed [] = []
intersect_batches failed (batch ∷ rest) = shrink failed (batch_ips failed batch) rest

unfoldable pub intersect_failed_node_ips :
    List (ℕ × List String) → List (String × String) → List String
unfolding shrink intersect_batches
intersect_failed_node_ips failed names =
    map (resolve_node_name names) (intersect_batches failed (sort (keys failed)))

pub add_all : List String → List String → List String
add_all set [] = set
add_all set (name ∷ rest) = add_all (add name set) rest

unfoldable pub merge_pairwise_slow_nodes :
    List String → NodeReports → List (ℕ × List String) → List String
unfolding add_all
merge_pairwise_slow_nodes abnormal reports failed =
    if is_empty failed
    then abnormal
    else add_all abnormal (intersect_failed_node_ips failed (node_ip_to_name reports))

unfoldable pub finalize_slow_nodes : List String → List String
finalize_slow_nodes abnormal = sort abnormal

unfoldable pub detect_slow_nodes : NodeReports → ℕ → List String
detect_slow_nodes reports expected =
    let c = classify_node_reports reports in
    let failed = failed_node_ips_by_batch c.preflight in
    let observed = observed_batch_count c.preflight in
    if should_return_no_slow_nodes expected observed (length failed) c.has_fail_fast
    then []
    else finalize_slow_nodes (merge_pairwise_slow_nodes c.abnormal reports failed)
