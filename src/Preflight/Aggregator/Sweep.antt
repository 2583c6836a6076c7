-- ===== src/Preflight/Aggregator/Sweep.antt =====
-- ExpireTimedOutWorkloads: its loop and what it removes.
use kcover.Shared.{
  ==_refl, Bool-cases, Distinct, List, Option, Option-cases, [], arith, contains-keys-lookup,
  delete, delete-Distinct, eq_of_==, if◌then◌else◌, inl, inr, keys, length, length-append,
  length-delete, lookup, lookup-delete, none, refl, some, suc, true, zero, ℕ, ◌++◌, ◌+◌, ◌<◌, ◌∙◌,
  ◌∷◌, ◌≡◌,
}
use kcover.Preflight.Aggregator.{
  SlowNodeAggregator, build_timeout_error, drop_workload, expire_loop,
  expire_one_timed_out_workload, expire_timed_out_workloads, find_timed_out, is_timed_out,
}
use kcover.Preflight.Types.{Workload, WorkloadKey, WorkloadTimeoutError, workload_key_eq}

abbrev pub live_at : SlowNodeAggregator → ℕ → Option Workload → Option Workload
live_at c now none = none
live_at c now (some w) = if is_timed_out c w now then none else some w

find_none :
    (c : SlowNodeAggregator) (now : ℕ) (m : List (WorkloadKey × Workload)) (k : WorkloadKey)
    → find_timed_out c now m ≡ none
    → lookup k m ≡ live_at c now (lookup k m)
unfolding find_timed_out lookup
find_none c now [] k h = refl
find_none c now ((j, w) ∷ m) k h = ground (arith, find_none c now m k)

find_some :
    (c : SlowNodeAggregator) (now : ℕ) (m : List (WorkloadKey × Workload)) (k : WorkloadKey)
    (w : Workload)
    → Distinct (keys m)
    → find_timed_out c now m ≡ some (k, w)
    → (lookup k m ≡ some w) × (is_timed_out c w now ≡ true)
unfolding find_timed_out lookup
find_some c now [] k w d h = absurd (cc)
find_some c now ((j, x) ∷ m) k w d h = elim (Bool-cases (is_timed_out c x now)) [
  | inl late ↦ ground (arith, ==_refl k)
  | inr live ↦
      let (at, late) = find_some c now m k w d.1 (ground arith) in
      (ground (arith, contains-keys-lookup m k, eq_of_== j k), late)
]

abbrev SameTimeout : SlowNodeAggregator → SlowNodeAggregator → Type 0
SameTimeout c c' = c'.timeout ≡ c.timeout

live_at-drop :
    (c : SlowNodeAggregator) (now : ℕ) (k j : WorkloadKey) (w : Workload)
    → lookup k c.workloads ≡ some w
    → is_timed_out c w now ≡ true
    → live_at c now (lookup j (delete k c.workloads)) ≡ live_at c now (lookup j c.workloads)
live_at-drop c now k j w at late = ground (arith, lookup-delete k c.workloads j, eq_of_== k j)

is_timed_out-drop :
    (c : SlowNodeAggregator) (now : ℕ) (k : WorkloadKey) (o : Option Workload)
    → live_at (drop_workload c k) now o ≡ live_at c now o
unfolding is_timed_out
is_timed_out-drop c now k none = refl
is_timed_out-drop c now k (some w) = refl

-- The state and the errors after a sweep.
pub record Swept (c : SlowNodeAggregator) (now before : ℕ)
    (result : Option (SlowNodeAggregator × List WorkloadTimeoutError)) : Type 0 where
  pub after : SlowNodeAggregator
  pub errs : List WorkloadTimeoutError
  pub ends : result ≡ some (after, errs)
  pub kept : (k : WorkloadKey) → lookup k after.workloads ≡ live_at c now (lookup k c.workloads)
  pub counted : length errs + length after.workloads ≡ before + length c.workloads
  pub SameTimeout : after.timeout ≡ c.timeout

loop_step :
    (fuel : ℕ) (c : SlowNodeAggregator) (now : ℕ) (errs : List WorkloadTimeoutError)
    (k : WorkloadKey) (w : Workload)
    → find_timed_out c now c.workloads ≡ some (k, w)
    → expire_loop (suc fuel) c now errs
      ≡ expire_loop fuel (drop_workload c k) now (errs ++ (build_timeout_error c k w ∷ []))
unfolding expire_loop expire_one_timed_out_workload
loop_step fuel c now errs k w found = ground arith

expire_loop-Swept :
    (fuel : ℕ) (c : SlowNodeAggregator) (now : ℕ) (errs : List WorkloadTimeoutError)
    → Distinct (keys c.workloads)
    → length c.workloads < fuel
    → Swept c now (length errs) (expire_loop fuel c now errs)
expire_loop-Swept zero c now errs d h = absurd (omega arith)
expire_loop-Swept (suc fuel) c now errs d h =
    elim (Option-cases (find_timed_out c now c.workloads)) [
      | inl nothing ↦ record {
        after = c;
        errs = errs;
        ends = unfold expire_loop expire_one_timed_out_workload in ground arith;
        kept = λ k. find_none c now c.workloads k nothing;
        counted = refl;
        SameTimeout = refl;
      }
      | inr ((k, w), found) ↦
          let (at, late) = find_some c now c.workloads k w d found in
          let c' = drop_workload c k in
          let errs' = errs ++ (build_timeout_error c k w ∷ []) in
          let shorter =
            length-delete c.workloads k d (ground (arith, contains-keys-lookup c.workloads k)) in
          let rest =
            expire_loop-Swept fuel c' now errs' (delete-Distinct k c.workloads d)
              (omega (arith, shorter)) in
          record {
            after = rest.after;
            errs = rest.errs;
            ends = loop_step fuel c now errs k w found ∙ rest.ends;
            kept = λ j.
                rest.kept j
                ∙ is_timed_out-drop c now k (lookup j c'.workloads)
                ∙ live_at-drop c now k j w at late;
            counted =
                omega (
                  arith,
                  rest.counted,
                  shorter,
                  length-append errs (build_timeout_error c k w ∷ []),
                );
            SameTimeout = rest.SameTimeout;
          }
    ]

-- For workloads under distinct keys a sweep ends; afterwards the timed-out workloads are gone and all others are as they were, and
-- there is one error for each that is gone.
pub sweep-Swept :
    (c : SlowNodeAggregator) (now : ℕ)
    → Distinct (keys c.workloads)
    → Swept c now 0 (expire_timed_out_workloads c now)
unfolding expire_timed_out_workloads
sweep-Swept c now d = expire_loop-Swept (suc (length c.workloads)) c now [] d (omega arith)
