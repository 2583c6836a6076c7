-- ===== src/Preflight/Detection/Intersection.antt =====
-- intersectFailedNodeIPs and mergePairwiseSlowNodes: the loop over the later batches.
use kcover.Preflight.Detection.{
  batch_ips, shrink, intersect_batches, add_all, List, ℕ, String, Bool, is_empty, contains, ◌≡◌,
  sort, true, not, keys, false, ◌∷◌,
}
use kcover.Shared.{
  text_eq, arith, Distinct, length-sort, nat_order, [], add, add-Distinct, all, contains-add, keep,
  refl, ◌&&◌, ◌||◌, contains-keep, all-sort,
}

abbrev pub in_batch : List (ℕ × List String) → String → ℕ → Bool
in_batch failed ip batch = contains (batch_ips failed batch) ip

contains_of_is_empty : (xs : List String) (a : String) → is_empty xs ≡ true → contains xs a ≡ false
contains_of_is_empty [] a h = refl
contains_of_is_empty (x ∷ xs) a h = absurd (cc)

contains-shrink :
    (failed : List (ℕ × List String)) (set : List String) (batches : List ℕ) (ip : String)
    → contains (shrink failed set batches) ip
      ≡ (contains set ip && all (in_batch failed ip) batches)
unfolding shrink
contains-shrink failed set [] ip = ground arith
contains-shrink failed set (batch ∷ rest) ip =
    let kept = keep (contains (batch_ips failed batch)) set in
    ground (
      arith,
      contains-shrink failed kept rest ip,
      contains_of_is_empty kept ip,
      contains-keep (contains (batch_ips failed batch)) set ip,
    )

contains-intersect_batches :
    (failed : List (ℕ × List String)) (batches : List ℕ) (ip : String)
    → contains (intersect_batches failed batches) ip
      ≡ (not (is_empty batches) && all (in_batch failed ip) batches)
unfolding intersect_batches
contains-intersect_batches failed [] ip = refl
contains-intersect_batches failed (batch ∷ rest) ip =
    contains-shrink failed (batch_ips failed batch) rest ip

is_empty-sort : (xs : List ℕ) → is_empty (sort xs) ≡ is_empty xs
is_empty-sort xs = ground (arith, length-sort xs)

is_empty-keys : (failed : List (ℕ × List String)) → is_empty (keys failed) ≡ is_empty failed
is_empty-keys [] = refl
is_empty-keys (x ∷ xs) = refl

-- The addresses that are in the set of every batch of the map.
pub contains-common :
    (failed : List (ℕ × List String)) (ip : String)
    → contains (intersect_batches failed (sort (keys failed))) ip
      ≡ (not (is_empty failed) && all (in_batch failed ip) (keys failed))
contains-common failed ip = ground (
  arith,
  contains-intersect_batches failed (sort (keys failed)) ip,
  is_empty-sort (keys failed),
  is_empty-keys failed,
  all-sort (in_batch failed ip) (keys failed),
)

pub contains-add_all :
    (set names : List String) (n : String)
    → contains (add_all set names) n ≡ (contains names n || contains set n)
unfolding add_all
contains-add_all set [] n = refl
contains-add_all set (name ∷ rest) n =
    ground (arith, contains-add_all (add name set) rest n, contains-add name set n)

pub add_all-Distinct : (set names : List String) → Distinct set → Distinct (add_all set names)
unfolding add_all
add_all-Distinct set [] d = d
add_all-Distinct set (name ∷ rest) d =
    add_all-Distinct (add name set) rest (add-Distinct name set d)
