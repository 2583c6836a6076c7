-- ===== src/Preflight/Detection/MapOrder.antt =====
-- detectSlowNodes on lists that stand for one map of reports.
use kcover.Preflight.Types.{BatchResult, NodeReport, NodeReports}
use kcover.Shared.{
  Bool, Bool-cases, Distinct, List, String, [], any, any-append, arith, contains-keys-lookup,
  eq_iff, eq_refl, false, inl, inr, keys, lookup, lookup-insert, none, not, refl, some, sym, true,
  ◌&&◌, ◌==◌, ◌∙◌, ◌∷◌, ◌≡◌, ◌⊎◌, text_eq, bool_ext, any_mono, Option-cases, contains, length,
  length-sort, sort, sort_ext, ℕ, ◌≢◌, ap, IsSorted-ext, text_order, nat_order, nat_eq,
}
use kcover.Preflight.Detection.Batches.{
  all_results, contains-failed_batches, failed_batches-Distinct, fails_at, has_failed,
}
use kcover.Preflight.Detection.{
  node_ip_to_name, resolve_node_name, name_ips, name_ip, detect_slow_nodes,
}
use kcover.Preflight.Detection.Rule.{
  pairwise_reports, contains-detect, detect-IsSorted, failed_map, pairwise_names,
}
use kcover.Preflight.Detection.Meaning.{pairwise_results, IsPairwiseName, pairwise_names_iff}
use kcover.Preflight.Detection.Complete.{length-keys}

-- Two lists that stand for one map.
abbrev pub SameMap : NodeReports → NodeReports → Type 0
SameMap m m' = (k : String) → lookup k m ≡ lookup k m'

-- Reports that give one address give one node name.
abbrev pub OwnAddress : NodeReports → Type 0
OwnAddress m =
    (k j : String) (r s : NodeReport)
    → lookup k m ≡ some r
    → lookup j m ≡ some s
    → (r.self_ip == "") ≡ false
    → r.self_ip ≡ s.self_ip
    → r.node_name ≡ s.node_name

any_of_lookup :
    (p : NodeReport → Bool) (m : NodeReports) (k : String) (r : NodeReport)
    → lookup k m ≡ some r
    → p r ≡ true
    → any (λ e. p e.1) m ≡ true
unfolding lookup
any_of_lookup p [] k r h q = absurd (cc)
any_of_lookup p ((j, s) ∷ m) k r h q = ground (arith, any_of_lookup p m k r)

lookup_of_any :
    (p : NodeReport → Bool) (m : NodeReports)
    → Distinct (keys m)
    → any (λ e. p e.1) m ≡ true
    → (k : String) × (r : NodeReport) × (lookup k m ≡ some r) × (p r ≡ true)
unfolding lookup
lookup_of_any p [] d h = absurd (cc)
lookup_of_any p ((j, s) ∷ m) d h = elim (Bool-cases (p s)) [
  | inl here ↦ (j, s, ground (arith, eq_refl j), here)
  | inr later ↦
      let (k, r, at, holds) = lookup_of_any p m d.1 (ground arith) in
      (k, r, ground (arith, contains-keys-lookup m k, eq_iff j k), holds)
]

-- A test for some report has one outcome for all orders.
any_same :
    (p : NodeReport → Bool) (m m' : NodeReports)
    → Distinct (keys m)
    → Distinct (keys m')
    → SameMap m m'
    → any (λ e. p e.1) m ≡ any (λ e. p e.1) m'
any_same p m m' d d' same =
    bool_ext (any (λ e. p e.1) m) (any (λ e. p e.1) m')
      (λ h.
        let (k, r, at, holds) = lookup_of_any p m d h in
        any_of_lookup p m' k r (sym (same k) ∙ at) holds)
      (λ h.
        let (k, r, at, holds) = lookup_of_any p m' d' h in
        any_of_lookup p m k r (same k ∙ at) holds)

any-all_results :
    (q : BatchResult → Bool) (m : NodeReports)
    → any q (all_results (pairwise_reports m))
      ≡ any (λ e. not e.1.fail_fast && any q e.1.batch_results) m
any-all_results q [] = refl
any-all_results q ((k, r) ∷ m) =
    ground
      (arith, any-append q r.batch_results (all_results (pairwise_reports m)), any-all_results q m)

any_results_same :
    (q : BatchResult → Bool) (m m' : NodeReports)
    → Distinct (keys m)
    → Distinct (keys m')
    → SameMap m m'
    → any q (pairwise_results m) ≡ any q (pairwise_results m')
any_results_same q m m' d d' same =
    any-all_results q m
    ∙ any_same (λ r. not r.fail_fast && any q r.batch_results) m m' d d' same
    ∙ sym (any-all_results q m')

-- The report gives this address.
abbrev gives : String → NodeReport → Bool
gives ip r = not (r.self_ip == "") && r.self_ip == ip

abbrev gives_name : String → String → NodeReport → Bool
gives_name ip n r = gives ip r && r.node_name == n

lookup-name_ips :
    (names : List (String × String)) (m : NodeReports) (ip n : String)
    → lookup ip (name_ips names m) ≡ some n
    → (lookup ip names ≡ some n) ⊎ (any (λ e. gives_name ip n e.1) m ≡ true)
unfolding name_ips name_ip
lookup-name_ips names [] ip n h = inl h
lookup-name_ips names ((k, r) ∷ m) ip n h = ground (
  arith,
  lookup-name_ips (name_ip names r) m ip n,
  lookup-insert r.self_ip r.node_name names ip,
  eq_refl n,
)

named_of_gives :
    (names : List (String × String)) (m : NodeReports) (ip : String)
    → lookup ip (name_ips names m) ≡ none
    → (any (λ e. gives ip e.1) m ≡ false) × (lookup ip names ≡ none)
unfolding name_ips name_ip
named_of_gives names [] ip h = (refl, h)
named_of_gives names ((k, r) ∷ m) ip h =
    ground
      (arith, named_of_gives (name_ip names r) m ip, lookup-insert r.self_ip r.node_name names ip)

any-gives_of_name :
    (m : NodeReports) (ip n : String)
    → any (λ e. gives_name ip n e.1) m ≡ true
    → any (λ e. gives ip e.1) m ≡ true
any-gives_of_name m ip n =
    any_mono (λ e. gives_name ip n e.1) (λ e. gives ip e.1) m (λ e h. ground arith)

given_name :
    (m : NodeReports) (ip n : String)
    → lookup ip (node_ip_to_name m) ≡ some n
    → any (λ e. gives_name ip n e.1) m ≡ true
unfolding node_ip_to_name lookup
given_name m ip n h = elim (lookup-name_ips [] m ip n h) [ inl e ↦ absurd (cc) | inr given ↦ given ]

not_given :
    (m m' : NodeReports) (ip n : String)
    → Distinct (keys m)
    → Distinct (keys m')
    → SameMap m m'
    → lookup ip (node_ip_to_name m) ≡ none
    → lookup ip (node_ip_to_name m') ≢ some n
unfolding node_ip_to_name
not_given m m' ip n d d' same absent present =
    let given = any-gives_of_name m' ip n (given_name m' ip n present) in
    let none_gives = (named_of_gives [] m ip absent).0 in
    ground (arith, any_same (gives ip) m m' d d' same)

one_name :
    (m : NodeReports) (ip n n' : String)
    → Distinct (keys m)
    → OwnAddress m
    → any (λ e. gives_name ip n e.1) m ≡ true
    → any (λ e. gives_name ip n' e.1) m ≡ true
    → n ≡ n'
one_name m ip n n' d own g g' =
    let (k, r, at, h) = lookup_of_any (gives_name ip n) m d g in
    let (j, s, at', h') = lookup_of_any (gives_name ip n') m d g' in
    ground (
      arith,
      own k j r s at at',
      eq_iff r.self_ip ip,
      eq_iff s.self_ip ip,
      eq_iff r.node_name n,
      eq_iff s.node_name n',
    )

-- Under own addresses the name of an address is the same for all orders.
resolve_same :
    (m m' : NodeReports) (ip : String)
    → Distinct (keys m)
    → Distinct (keys m')
    → SameMap m m'
    → OwnAddress m
    → resolve_node_name (node_ip_to_name m) ip ≡ resolve_node_name (node_ip_to_name m') ip
unfolding resolve_node_name
resolve_same m m' ip d d' same own = elim (Option-cases (lookup ip (node_ip_to_name m))) [
  | inl absent ↦ elim (Option-cases (lookup ip (node_ip_to_name m'))) [
    | inl absent' ↦ ground arith
    | inr (n', at') ↦ absurd (not_given m m' ip n' d d' same absent at')
  ]
  | inr (n, at) ↦ elim (Option-cases (lookup ip (node_ip_to_name m'))) [
    | inl absent' ↦ absurd (not_given m' m ip n d' d (λ k. sym (same k)) absent' at)
    | inr (n', at') ↦ ground (
      arith,
      one_name m ip n n' d own (given_name m ip n at)
          (any_same (gives_name ip n') m m' d d' same ∙ given_name m' ip n' at'),
    )
  ]
]

pairwise_same :
    (m m' : NodeReports) (n : String)
    → Distinct (keys m)
    → Distinct (keys m')
    → SameMap m m'
    → OwnAddress m
    → IsPairwiseName m n
    → IsPairwiseName m' n
pairwise_same m m' n d d' same own (ip, named, h) = (
  ip,
  sym (resolve_same m m' ip d d' same own) ∙ named,
  record {
    some_failed = sym (any_results_same (λ r. r.failed) m m' d d' same) ∙ h.some_failed;
    everywhere = λ b f.
        sym (any_results_same (fails_at b ip) m m' d d' same)
        ∙ h.everywhere b (any_results_same (has_failed b) m m' d d' same ∙ f);
  },
)

OwnAddress-same : (m m' : NodeReports) → SameMap m m' → OwnAddress m → OwnAddress m'
OwnAddress-same m m' same own k j r s at at' = own k j r s (same k ∙ at) (same j ∙ at')

failed_count_same :
    (m m' : NodeReports)
    → Distinct (keys m)
    → Distinct (keys m')
    → SameMap m m'
    → length (failed_map m) ≡ length (failed_map m')
failed_count_same m m' d d' same =
    let batches = keys (failed_map m) in
    let batches' = keys (failed_map m') in
    let sorted : sort batches ≡ sort batches' =
      sort_ext batches batches' (failed_batches-Distinct (pairwise_reports m))
        (failed_batches-Distinct (pairwise_reports m'))
        (λ b.
          contains-failed_batches (pairwise_reports m) b
          ∙ any_results_same (has_failed b) m m' d d' same
          ∙ sym (contains-failed_batches (pairwise_reports m') b)) in
    omega (
      arith,
      ap (length {A = ℕ}) sorted,
      length-sort batches,
      length-sort batches',
      length-keys (failed_map m),
      length-keys (failed_map m'),
    )

-- Two lists of reports under distinct keys that stand for one map, each address belonging to one node name, give one
-- result: the order of Go's `range` does not show.
pub detect-order :
    (m m' : NodeReports) (expected : ℕ)
    → Distinct (keys m)
    → Distinct (keys m')
    → SameMap m m'
    → OwnAddress m
    → detect_slow_nodes m expected ≡ detect_slow_nodes m' expected
detect-order m m' expected d d' same own =
    let s = detect-IsSorted m expected d in
    let s' = detect-IsSorted m' expected d' in
    IsSorted-ext (detect_slow_nodes m expected) (detect_slow_nodes m' expected) s.0 s'.0 s.1 s'.1
      (λ n.
        let named : contains (pairwise_names m) n ≡ contains (pairwise_names m') n =
          bool_ext (contains (pairwise_names m) n) (contains (pairwise_names m') n)
            (λ h.
              (pairwise_names_iff m' n).1
                (pairwise_same m m' n d d' same own ((pairwise_names_iff m n).0 h)))
            (λ h. (pairwise_names_iff m n).1 (
              pairwise_same m' m n d' d (λ k. sym (same k)) (OwnAddress-same m m' same own)
                ((pairwise_names_iff m' n).0 h))) in
        ground (
          arith,
          contains-detect m expected n d,
          contains-detect m' expected n d',
          any_same (λ r. r.fail_fast) m m' d d' same,
          any_same (λ r. r.fail_fast && r.node_name == n) m m' d d' same,
          failed_count_same m m' d d' same,
        ))
