-- ===== src/Preflight/Parser/Pairs.antt =====
-- pkg/preflight/report_parser.go, pairField and buildWorkloadPlan: the two nodes of a pair write
-- down the same pair, and which sizes have a plan.
use kcover.Shared.{
  ◌≡◌, Option, String, false, min, negsuc, ok, pos, some, true, ℕ, ℤ, ◌%◌, ◌-◌, ◌<◌, ◌↔◌, ◌≤◌,
  arith, none, not, refl, sym, ◌⊎◌, Bool, fail_if, leb, ltb, ◌==◌, ◌>>◌, text_le, text_le_antisym,
  text_le_total, nat_eq, ap, subst, to_nat,
}
use kcover.Preflight.Json.{Items, Runtime, Value}
use kcover.Preflight.Types.{
  WorkloadPlan, ParseError, missing_workload_size, odd_workload_size, oversized,
}
use kcover.Preflight.Parser.{
  build_workload_plan, pair_field, should_swap_pair, validate_workload_size,
}

guarded_plan :
    (a b c : Bool) (x y z : ParseError) (p plan : WorkloadPlan)
    → (((fail_if a x >> (fail_if b y >> (fail_if c z >> ok tt))) >> ok p) ≡ ok plan)
      ↔ ((a ≡ false) × (b ≡ false) × (c ≡ false) × (plan ≡ p))
guarded_plan true b c x y z p plan = (λ h. cc, λ w. cc)
guarded_plan false true c x y z p plan = (λ h. cc, λ w. cc)
guarded_plan false false true x y z p plan = (λ h. cc, λ w. cc)
guarded_plan false false false x y z p plan = (λ h. (refl, refl, refl, cc), λ w. cc)

-- A size has a plan exactly if it is a positive even number of at most 10000; the plan then expects
-- one report per node, and `size - 1` batches but at most 5.
pub build_workload_plan_iff :
    (size : ℤ) (plan : WorkloadPlan)
    → (build_workload_plan size ≡ ok plan) ↔ (
        (n : ℕ) × (size ≡ pos n)
        × (0 < n)
        × (n ≤ 10000)
        × (n % 2 ≡ 0)
        × (plan ≡ record { report_count = n; batch_count = min (n - 1) 5 }))
unfolding build_workload_plan validate_workload_size
build_workload_plan_iff (negsuc n) plan = ((λ h. cc), λ w. cc)
build_workload_plan_iff (pos n) plan =
    let plan_of : WorkloadPlan = record { report_count = n; batch_count = min (n - 1) 5 } in
    let (to, from) =
      guarded_plan (leb n 0) (ltb 10000 n) (not (n % 2 == 0)) missing_workload_size oversized
        odd_workload_size plan_of plan in
    (
      λ h. let (p, q, r, e) = to h in (n, refl, ground arith, ground arith, ground arith, e),
      λ (m, e, p, q, r, w). from (
        ground arith,
        ground arith,
        ground arith,
        subst (λ k. plan ≡ record { report_count = k; batch_count = min (k - 1) 5 })
            (ap to_nat (sym e)) w,
      ),
    )

module _ (rt : Runtime) where
  open rt use {Float, Address, parse_address, address_gt}

  -- `[a, b]` as a decoded value.
  abbrev pub pair_value : String → String → Option (Value Float)
  pair_value a b = some (Value.arr (Items.cons (Value.str a) (Items.cons (Value.str b) Items.nil)))

  greater : Option Address → Option Address → String → String → Bool
  greater (some x) (some y) a b = address_gt x y
  greater _ _ a b = not (text_le a b)

  swap-greater :
      (a b : String) (x y : Option Address)
      → x ≡ parse_address a
      → y ≡ parse_address b
      → should_swap_pair rt a b ≡ greater x y a b
  unfolding should_swap_pair greater
  swap-greater a b none none e f = rw (should_swap_pair, sym e) refl
  swap-greater a b none (some y) e f = rw (should_swap_pair, sym e) refl
  swap-greater a b (some x) none e f = ground (arith, sym e, sym f)
  swap-greater a b (some x) (some y) e f = ground (arith, sym e, sym f)

  text_flipped : (a b : String) → (a ≡ b) ⊎ (not (text_le a b) ≡ not (not (text_le b a)))
  text_flipped a b = ground (arith, text_le_total a b, text_le_antisym a b)

  flipped :
      (a b : String) (x y : Option Address)
      → x ≡ parse_address a
      → y ≡ parse_address b
      → ((u v : Address) → address_gt u v ≡ true → address_gt v u ≡ false)
      → ((u v : Address) → address_gt u v ≡ false → address_gt v u ≡ false → u ≡ v)
      → ((u : Address) → parse_address a ≡ some u → parse_address b ≡ some u → a ≡ b)
      → (a ≡ b) ⊎ (greater x y a b ≡ not (greater y x b a))
  unfolding greater
  flipped a b none none e f asym total one = text_flipped a b
  flipped a b none (some y) e f asym total one = text_flipped a b
  flipped a b (some x) none e f asym total one = text_flipped a b
  flipped a b (some x) (some y) e f asym total one = ground (arith, asym x y, total x y, one x)

  -- Where the order of addresses is a strict total order, and the two texts are no two spellings of
  -- one address, a pair is read the same in both orders: both nodes report under one key.
  pub pair_field_comm :
      (asym : (x y : Address) → address_gt x y ≡ true → address_gt y x ≡ false)
      (total : (x y : Address) → address_gt x y ≡ false → address_gt y x ≡ false → x ≡ y)
      (a b : String)
      (one_spelling : (x : Address) → parse_address a ≡ some x → parse_address b ≡ some x → a ≡ b)
      → pair_field rt (pair_value a b) ≡ pair_field rt (pair_value b a)
  unfolding pair_field
  pair_field_comm asym total a b one_spelling =
      let x = parse_address a in
      let y = parse_address b in
      ground (
        arith,
        swap-greater a b x y refl refl,
        swap-greater b a y x refl refl,
        flipped a b x y refl refl asym total one_spelling,
      )
