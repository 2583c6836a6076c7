-- ===== src/NodeCheck/Detector.antt =====
-- pkg/detector/node/detector_metax.go: when the check of a node runs, and what it reports. The call of
-- the API and time.Parse are parameters; a local time is a number of nanoseconds since a midnight,
-- in a zone whose clock is not changed.
use kcover.Shared.{
  Bool, Bool-cases, List, Option, Result, String, [], arith, err, false, if◌then◌else◌, inl, inr,
  int_lt, lookup, ltb, none, not, ok, pos, refl, some, true, ℕ, ℤ, ◌%◌, ◌*◌, ◌+◌, ◌/◌, ◌<◌, ◌==◌,
  ◌↔◌, ◌≡◌, ◌≤◌, text_eq, ap, ◌⊎◌,
}
use kcover.NodeCheck.{CheckError, Commands, check}
use kcover.NodeCheck.Passing.{IsHealthy, check_iff_IsHealthy}
use kcover.Events.{Event, error_event, node_resource, day2_event_reason}
use kcover.Cluster.{ApiError}
use kcover.AgentConfig.{MetaX}
use kcover.Preflight.Json.{Runtime}

abbrev pub minute_ns : ℕ
minute_ns = 60000000000

-- 24 hours.
abbrev pub day_ns : ℕ
day_ns = 86400000000000

-- The schedule in minutes after midnight, as time.Parse reads it.
unfoldable pub next_check_time : ℕ → Option ℕ → Option ℕ
next_check_time now none = none
next_check_time now (some minutes) =
    let next = now / day_ns * day_ns + minutes * minute_ns in
    if not (ltb now next) then some (next + day_ns) else some next

-- The next check after a time on or behind a check that is due, and less than a day behind it.
day_after :
    (minutes later next : ℕ)
    → minutes < 1440
    → next % day_ns ≡ minutes * minute_ns
    → next ≤ later
    → later < next + day_ns
    → next_check_time later (some minutes) ≡ some (next + day_ns)
unfolding next_check_time
day_after minutes later next h at from until =
    elim (Bool-cases (ltb later (later / day_ns * day_ns + minutes * minute_ns))) [
      | inl ahead ↦
          let early : later < later / day_ns * day_ns + minutes * minute_ns = ground arith in
          let same : later / day_ns * day_ns + minutes * minute_ns ≡ next + day_ns = omega arith in
          rw ahead (ap some same)
      | inr past ↦
          let late : later / day_ns * day_ns + minutes * minute_ns ≤ later = ground arith in
          let same : later / day_ns * day_ns + minutes * minute_ns ≡ next = omega arith in
          rw past (ap (λ x. some (x + day_ns)) same)
    ]

-- If the schedule is a time of the day, the next check lies ahead, is a day away at most, and is at
-- that time of the day; and if the schedule is read again less than a day after it is due, the one
-- after it is a day later.
pub next_check_time_bounds :
    (now minutes delay : ℕ)
    → minutes < 1440
    → delay < day_ns
    → (next : ℕ) × (next_check_time now (some minutes) ≡ some next)
      × (now < next)
      × (next ≤ now + day_ns)
      × (next % day_ns ≡ minutes * minute_ns)
      × (next_check_time (next + delay) (some minutes) ≡ some (next + day_ns))
unfolding next_check_time
next_check_time_bounds now minutes delay h soon =
    let next = now / day_ns * day_ns + minutes * minute_ns in
    elim (Bool-cases (ltb now next)) [
      | inl ahead ↦
          let at : next % day_ns ≡ minutes * minute_ns = omega arith in
          (
            next,
            rw ahead refl,
            ground arith,
            omega arith,
            at,
            day_after minutes (next + delay) next h at (omega arith) (omega arith),
          )
      | inr past ↦
          let at : (next + day_ns) % day_ns ≡ minutes * minute_ns = omega arith in
          (
            next + day_ns,
            rw past refl,
            omega arith,
            ground arith,
            at,
            day_after minutes (next + day_ns + delay) (next + day_ns) h at (omega arith)
                (omega arith),
          )
    ]

pub data CapacityError : Type 0 where
  node_name_is_empty get_failed : CapacityError

abbrev pub positive_capacity : Option ℤ → Bool
positive_capacity none = false
positive_capacity (some sign) = int_lt (pos 0) sign

-- The answer of the API holds the signs of the capacities of the node.
abbrev pub capacity_answer : Result ApiError (List (String × ℤ)) → Result CapacityError Bool
capacity_answer (err e) = err get_failed
capacity_answer (ok capacity) = ok (positive_capacity (lookup "metax-tech.com/gpu" capacity))

module _ (get_capacity : String → Result ApiError (List (String × ℤ))) where
  unfoldable pub has_meta_x_gpu_capacity : MetaX → Result CapacityError Bool
  has_meta_x_gpu_capacity config =
      if config.node_name == ""
      then err node_name_is_empty
      else capacity_answer (get_capacity config.node_name)

-- `text` stands for the texts of the errors.
abbrev pub day2_event : String → String → Event
day2_event node text = record {
  resource_type = node_resource;
  namespace = "";
  name = node;
  reason = day2_event_reason;
  annotations = [];
  event_type = error_event;
  message = text;
}

module _ (text : CheckError → String) where
  abbrev pub day2_result : String → Result CheckError (Unit {0}) → Option Event
  day2_result node (ok u) = none
  day2_result node (err e) = some (day2_event node (text e))

  -- The first result says whether the node has GPUs; the check is made if it has.
  unfoldable pub day2_check :
      MetaX → Result CapacityError Bool → Result CheckError (Unit {0}) → Option Event
  day2_check config (err e) checked = none
  day2_check config (ok false) checked = none
  day2_check config (ok true) checked = day2_result config.node_name checked

  healthy_result :
      (node : String) (r : Result CheckError (Unit {0})) → (day2_result node r ≡ none) ↔ (r ≡ ok tt)
  healthy_result node (ok tt) = (λ h. refl, λ h. refl)
  healthy_result node (err e) = (λ h. absurd (cc), λ h. absurd (cc))

  failed_result :
      (node : String) (r : Result CheckError (Unit {0}))
      → (r ≡ ok tt)
        ⊎ ((e : CheckError) × (r ≡ err e) × (day2_result node r ≡ some (day2_event node (text e))))
  failed_result node (ok tt) = inl refl
  failed_result node (err e) = inr (e, refl, refl)

  -- A node with GPUs is silent exactly if it is healthy; otherwise its check fails with an error, and
  -- the one event that says so is reported.
  pub day2_check_iff_IsHealthy :
      (rt : Runtime) (run_cmd : Commands) (config : MetaX)
      (get_capacity : String → Result ApiError (List (String × ℤ)))
      → has_meta_x_gpu_capacity get_capacity config ≡ ok true
      → ((day2_check config (has_meta_x_gpu_capacity get_capacity config) (check rt run_cmd config)
            ≡ none)
          ↔ IsHealthy rt run_cmd config)
        × (IsHealthy rt run_cmd config
            ⊎ ((e : CheckError) × (check rt run_cmd config ≡ err e)
                × (day2_check config
                      (has_meta_x_gpu_capacity get_capacity config)
                      (check rt run_cmd config)
                    ≡ some (day2_event config.node_name (text e)))))
  unfolding day2_check
  day2_check_iff_IsHealthy rt run_cmd config get_capacity enabled =
      let (to, back) = healthy_result config.node_name (check rt run_cmd config) in
      let (on, off) = check_iff_IsHealthy rt run_cmd config in
      rw enabled (
        (λ h. on (to h), λ h. back (off h)),
        elim (failed_result config.node_name (check rt run_cmd config)) [
          | inl passed ↦ inl (on passed)
          | inr broken ↦ inr broken
        ],
      )
