-- ===== src/Preflight/Detection/Batches.antt =====
-- failedNodeIPsByBatch: what the two loops compute, read off the reports themselves.
use kcover.Shared.{
  ℕ, ◌≡◌, refl, String, List, [], ◌∷◌, ◌++◌, Bool, true, false, ◌&&◌, ◌||◌, none, ◌==◌, any,
  any-append, contains, add, contains-add, keys, lookup, insert, lookup-insert,
  contains-keys-insert, arith, nat_eq, text_eq, Bool-cases, Distinct, insert-Distinct, inl, inr,
}
use kcover.Preflight.Types.{BatchResult, NodeReports, PairKey, pair_key_eq, pair_key_beq_iff}
use kcover.Preflight.Detection.{
  pair_of, record_result, record_results, record_reports, batch_ips, mark_pair, mark_pairs,
  failed_node_ips_by_batch,
}

-- Every batch result of the reports.
abbrev pub all_results : NodeReports → List BatchResult
all_results [] = []
all_results ((_, report) ∷ rest) = report.batch_results ++ all_results rest

abbrev pub touches : String → PairKey → Bool
touches ip key = key.first == ip || key.second == ip

-- A failed result of this batch has this address as an end.
abbrev pub fails_at : ℕ → String → BatchResult → Bool
fails_at batch ip r = r.failed && (r.batch_idx == batch && touches ip (pair_of r))

abbrev pub has_failed : ℕ → BatchResult → Bool
has_failed batch r = r.failed && r.batch_idx == batch

-- The pairs noted as failed that satisfy a test.
abbrev noted : (PairKey → Bool) → PairKey × Bool → Bool
noted q (key, failed) = failed && q key

abbrev seen : (PairKey → Bool) → BatchResult → Bool
seen q r = r.failed && q (pair_of r)

any-insert-true :
    (q : PairKey → Bool) (k : PairKey) (m : List (PairKey × Bool))
    → any (noted q) (insert k true m) ≡ (q k || any (noted q) m)
unfolding insert
any-insert-true q k [] = ground arith
any-insert-true q k ((j, v) ∷ m) = elim (Bool-cases (j == k)) [
  | inl same ↦ rw same (rw ((pair_key_beq_iff j k).0 same) (ground arith))
  | inr other ↦ rw other (ground (arith, any-insert-true q k m))
]

any-insert-false :
    (q : PairKey → Bool) (k : PairKey) (m : List (PairKey × Bool))
    → lookup k m ≡ none
    → any (noted q) (insert k false m) ≡ any (noted q) m
unfolding insert lookup
any-insert-false q k [] h = refl
any-insert-false q k ((j, v) ∷ m) h = ground (arith, any-insert-false q k m)

any-record_result :
    (q : PairKey → Bool) (m : List (PairKey × Bool)) (r : BatchResult)
    → any (noted q) (record_result m r) ≡ (seen q r || any (noted q) m)
unfolding record_result
any-record_result q m r =
    ground (arith, any-insert-true q (pair_of r) m, any-insert-false q (pair_of r) m)

any-record_results :
    (q : PairKey → Bool) (m : List (PairKey × Bool)) (rs : List BatchResult)
    → any (noted q) (record_results m rs) ≡ (any (seen q) rs || any (noted q) m)
unfolding record_results
any-record_results q m [] = refl
any-record_results q m (r ∷ rs) =
    ground (arith, any-record_results q (record_result m r) rs, any-record_result q m r)

any-record_reports :
    (q : PairKey → Bool) (m : List (PairKey × Bool)) (reports : NodeReports)
    → any (noted q) (record_reports m reports)
      ≡ (any (seen q) (all_results reports) || any (noted q) m)
unfolding record_reports
any-record_reports q m [] = refl
any-record_reports q m ((k, report) ∷ rest) = ground (
  arith,
  any-record_reports q (record_results m report.batch_results) rest,
  any-record_results q m report.batch_results,
  any-append (seen q) report.batch_results (all_results rest),
)

abbrev marks : ℕ → String → PairKey → Bool
marks batch ip key = key.batch == batch && touches ip key

batch_ips-mark_pair :
    (out : List (ℕ × List String)) (key : PairKey) (batch : ℕ) (ip : String)
    → contains (batch_ips (mark_pair out key) batch) ip
      ≡ (marks batch ip key || contains (batch_ips out batch) ip)
unfolding mark_pair
batch_ips-mark_pair out key batch ip =
    let ips = batch_ips out key.batch in
    ground (
      arith,
      lookup-insert key.batch (add key.second (add key.first ips)) out batch,
      contains-add key.second (add key.first ips) ip,
      contains-add key.first ips ip,
    )

batch_ips-mark_pairs :
    (out : List (ℕ × List String)) (m : List (PairKey × Bool)) (batch : ℕ) (ip : String)
    → contains (batch_ips (mark_pairs out m) batch) ip
      ≡ (any (noted (marks batch ip)) m || contains (batch_ips out batch) ip)
unfolding mark_pairs
batch_ips-mark_pairs out [] batch ip = refl
batch_ips-mark_pairs out ((key, true) ∷ m) batch ip = ground (
  arith,
  batch_ips-mark_pairs (mark_pair out key) m batch ip,
  batch_ips-mark_pair out key batch ip,
)
batch_ips-mark_pairs out ((key, false) ∷ m) batch ip = batch_ips-mark_pairs out m batch ip

keys-mark_pairs :
    (out : List (ℕ × List String)) (m : List (PairKey × Bool)) (batch : ℕ)
    → contains (keys (mark_pairs out m)) batch
      ≡ (any (noted (λ key. key.batch == batch)) m || contains (keys out) batch)
unfolding mark_pairs mark_pair
keys-mark_pairs out [] batch = refl
keys-mark_pairs out ((key, true) ∷ m) batch =
    let ips = add key.second (add key.first (batch_ips out key.batch)) in
    ground (
      arith,
      keys-mark_pairs (insert key.batch ips out) m batch,
      contains-keys-insert key.batch ips out batch,
    )
keys-mark_pairs out ((key, false) ∷ m) batch = keys-mark_pairs out m batch

keys-mark_pairs-Distinct :
    (out : List (ℕ × List String)) (m : List (PairKey × Bool))
    → Distinct (keys out)
    → Distinct (keys (mark_pairs out m))
unfolding mark_pairs mark_pair
keys-mark_pairs-Distinct out [] d = d
keys-mark_pairs-Distinct out ((key, true) ∷ m) d =
    keys-mark_pairs-Distinct
      (insert key.batch (add key.second (add key.first (batch_ips out key.batch))) out) m
      (insert-Distinct key.batch _ out d)
keys-mark_pairs-Distinct out ((key, false) ∷ m) d = keys-mark_pairs-Distinct out m d

-- An address is in the set of a batch exactly if a failed result of that batch has it as an end.
pub contains-batch_ips :
    (reports : NodeReports) (batch : ℕ) (ip : String)
    → contains (batch_ips (failed_node_ips_by_batch reports) batch) ip
      ≡ any (fails_at batch ip) (all_results reports)
unfolding failed_node_ips_by_batch lookup
contains-batch_ips reports batch ip = ground (
  arith,
  batch_ips-mark_pairs [] (record_reports [] reports) batch ip,
  any-record_reports (marks batch ip) [] reports,
)

-- The batches of the map are those with a failed result.
pub contains-failed_batches :
    (reports : NodeReports) (batch : ℕ)
    → contains (keys (failed_node_ips_by_batch reports)) batch
      ≡ any (has_failed batch) (all_results reports)
unfolding failed_node_ips_by_batch
contains-failed_batches reports batch = ground (
  arith,
  keys-mark_pairs [] (record_reports [] reports) batch,
  any-record_reports (λ key. key.batch == batch) [] reports,
)

pub failed_batches-Distinct :
    (reports : NodeReports) → Distinct (keys (failed_node_ips_by_batch reports))
unfolding failed_node_ips_by_batch
failed_batches-Distinct reports = keys-mark_pairs-Distinct [] (record_reports [] reports) tt
