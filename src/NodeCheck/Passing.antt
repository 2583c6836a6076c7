-- ===== src/NodeCheck/Passing.antt =====
-- pkg/detector/node/check_metax.go: when a node passes its checks.
use kcover.Shared.{
  ◌>>=◌, ◌>>◌, Bool, Bool-cases, List, Option, Result, String, [], all, ap, err, fail_if, false,
  inl, inr, is_empty, keep, length, lookup, none, not, ok, refl, some, subst, suc, sym, true, ◌==◌,
  ◌↔◌, ◌∙◌, ◌∷◌, ◌≡◌, text_eq, int_lt, pos, ℤ, ◌⊎◌,
}
use kcover.NodeCheck.{
  CheckError, Commands, check, gpu_check, temperature_check, ecc_fault_page_check, hca_state_check,
  hca_states_checked, found, exceeding, count_status, others_than, lacks_state,
  hca_ids_without_state, gpu_status_count_check, command_failed, bad_hca_state,
  double_bit_ecc_exceeding_limit, hotspot_temperatures_exceeding_limit, parse_gpu_integer_metric,
  parse_gpu_statuses, parse_hca_states, parse_hotspot_temperatures, too_few_gpus, too_hot,
  too_many_faults,
}
use kcover.AgentConfig.{MetaX}
use kcover.Preflight.Json.{Runtime}

-- A command printed a text, it was read, and what was read is good.
abbrev pub Measured :
    {M : Type 0} → Option String → (String → Result CheckError M) → (M → Bool) → Type 0
Measured o parse good =
    (text : String) × (o ≡ some text) × (m : _) × (parse text ≡ ok m) × (good m ≡ true)

fail_if_iff : {E : Type 0} (b : Bool) (e : E) → (fail_if b e ≡ ok tt) ↔ (not b ≡ true)
fail_if_iff true e = (λ h. absurd (cc), λ h. absurd (cc))
fail_if_iff false e = (λ h. refl, λ h. refl)

parsed_iff :
    {M : Type 0} (r : Result CheckError M) (b : M → Bool) (e : M → CheckError)
    → ((r >>= λ m. fail_if (b m) (e m)) ≡ ok tt) ↔ ((m : M) × (r ≡ ok m) × (not (b m) ≡ true))
parsed_iff (err x) b e = (λ h. absurd (cc), λ h. absurd (let same = h.1 in cc))
parsed_iff (ok m) b e = (
  λ h. (m, refl, (fail_if_iff (b m) (e m)).0 h),
  λ h.
      let same : h.0 ≡ m = cc in
      (fail_if_iff (b m) (e m)).1 (subst (λ x. not (b x) ≡ true) same h.2),
)

Measured-iff :
    {M : Type 0} (o : Option String) (parse : String → Result CheckError M) (b : M → Bool)
    (e : M → CheckError)
    → ((found command_failed o >>= λ text. parse text >>= λ m. fail_if (b m) (e m)) ≡ ok tt)
      ↔ Measured o parse (λ m. not (b m))
Measured-iff none parse b e = (λ h. absurd (cc), λ h. absurd (let same = h.1 in cc))
Measured-iff (some text) parse b e = (
  λ h. let (m, p, g) = (parsed_iff (parse text) b e).0 h in (text, refl, m, p, g),
  λ h.
      let same : h.0 ≡ text = cc in
      (parsed_iff (parse text) b e).1 (h.2, subst (λ x. parse x ≡ ok h.2) same h.3, h.4),
)

judged_iff :
    {M : Type 0} (o : Option String) (parse : String → Result CheckError M) (b : M → Bool)
    (e : M → CheckError) (good : M → Bool)
    → ((m : M) → not (b m) ≡ good m)
    → ((found command_failed o >>= λ text. parse text >>= λ m. fail_if (b m) (e m)) ≡ ok tt)
      ↔ Measured o parse good
judged_iff o parse b e good same =
    let (to, back) = Measured-iff o parse b e in
    (
      λ h. let (t, p, m, q, g) = to h in (t, p, m, q, sym (same m) ∙ g),
      λ h. back (h.0, h.1, h.2, h.3, same h.2 ∙ h.4),
    )

is_empty-exceeding :
    {V : Type 0} (over : V → Bool) (values : List (String × V))
    → not (not (is_empty (exceeding over values))) ≡ all (λ p. not (over p.1)) values
is_empty-exceeding over [] = refl
is_empty-exceeding over ((gpu, v) ∷ rest) = elim (Bool-cases (over v)) [
  | inl h ↦ rw h refl
  | inr h ↦ rw h (is_empty-exceeding over rest)
]

is_empty-hca :
    (ids : List String) (states : List (String × String)) (expected : String)
    → not (not (is_empty (hca_ids_without_state ids states expected)))
      ≡ all (λ id. not (lacks_state expected (lookup id states))) ids
unfolding hca_ids_without_state
is_empty-hca [] states expected = refl
is_empty-hca (id ∷ ids) states expected =
    elim (Bool-cases (lacks_state expected (lookup id states))) [
      | inl h ↦ rw h refl
      | inr h ↦ rw h (is_empty-hca ids states expected)
    ]

count_status-length :
    (expected : String) (statuses : List (String × String))
    → count_status expected statuses ≡ length (keep (λ s. s.1 == expected) statuses)
unfolding count_status
count_status-length expected [] = refl
count_status-length expected ((gpu, status) ∷ rest) = elim (Bool-cases (status == expected)) [
  | inl h ↦ rw h (ap suc (count_status-length expected rest))
  | inr h ↦ rw h (count_status-length expected rest)
]

seq_iff : (m n : Result CheckError (Unit {0})) → ((m >> n) ≡ ok tt) ↔ ((m ≡ ok tt) × (n ≡ ok tt))
seq_iff (ok tt) n = (λ h. (refl, h), λ h. h.1)
seq_iff (err e) n = (λ h. absurd (cc), λ h. absurd (let same = h.0 in cc))

-- What a node that passes shows, by the settings of the configuration.
pub record IsHealthy (rt : Runtime) (run_cmd : Commands) (config : MetaX) : Type 0 where
  pub gpus :
      Measured
        (run_cmd "mx-smi" "-L")
        parse_gpu_statuses
        (λ m. not (int_lt (pos (length (keep (λ s. s.1 == "Available") m))) config.gpu_num))
  pub cool :
      Measured
        (run_cmd "mx-smi" "--show-temperature")
        (λ text. parse_hotspot_temperatures rt run_cmd text "hotspot(")
        (all (λ t. not (rt.le (rt.of_int config.temperature) t.1)))
  pub intact :
      Measured
        (run_cmd "mx-smi" "--count-ecc")
        (λ text. parse_gpu_integer_metric text "Double Bit ECC")
        (all (λ v. not (int_lt config.ecc_max_count v.1)))
  pub connected :
      (is_empty config.hca_ids ≡ true)
      ⊎ Measured
          (run_cmd "ibv_devinfo" "")
          parse_hca_states
          (λ m. all (λ id. not (lacks_state "PORT_ACTIVE" (lookup id m))) config.hca_ids)

module _ (rt : Runtime) (run_cmd : Commands) where
  gpu_check_iff :
      (required : ℤ)
      → (gpu_check rt run_cmd required ≡ ok tt)
        ↔ Measured
            (run_cmd "mx-smi" "-L")
            parse_gpu_statuses
            (λ m. not (int_lt (pos (length (keep (λ s. s.1 == "Available") m))) required))
  unfolding gpu_check gpu_status_count_check
  gpu_check_iff required =
      judged_iff (run_cmd "mx-smi" "-L") parse_gpu_statuses
        (λ m. int_lt (pos (count_status "Available" m)) required)
        (λ m. too_few_gpus (others_than "Available" m))
        (λ m. not (int_lt (pos (length (keep (λ s. s.1 == "Available") m))) required))
        (λ m. rw (count_status-length "Available" m) refl)

  pub temperature_check_iff :
      (limit : ℤ)
      → (temperature_check rt run_cmd limit ≡ ok tt)
        ↔ Measured
            (run_cmd "mx-smi" "--show-temperature")
            (λ text. parse_hotspot_temperatures rt run_cmd text "hotspot(")
            (all (λ t. not (rt.le (rt.of_int limit) t.1)))
  unfolding temperature_check hotspot_temperatures_exceeding_limit
  temperature_check_iff limit =
      judged_iff (run_cmd "mx-smi" "--show-temperature")
        (λ text. parse_hotspot_temperatures rt run_cmd text "hotspot(")
        (λ m. not (is_empty (exceeding (λ t. rt.le (rt.of_int limit) t) m)))
        (λ m. too_hot (exceeding (λ t. rt.le (rt.of_int limit) t) m))
        (all (λ t. not (rt.le (rt.of_int limit) t.1)))
        (is_empty-exceeding (λ t. rt.le (rt.of_int limit) t))

  pub ecc_fault_page_check_iff :
      (limit : ℤ)
      → (ecc_fault_page_check rt run_cmd limit ≡ ok tt)
        ↔ Measured
            (run_cmd "mx-smi" "--count-ecc")
            (λ text. parse_gpu_integer_metric text "Double Bit ECC")
            (all (λ v. not (int_lt limit v.1)))
  unfolding ecc_fault_page_check double_bit_ecc_exceeding_limit
  ecc_fault_page_check_iff limit =
      judged_iff (run_cmd "mx-smi" "--count-ecc")
        (λ text. parse_gpu_integer_metric text "Double Bit ECC")
        (λ m. not (is_empty (exceeding (λ v. int_lt limit v) m)))
        (λ m. too_many_faults (exceeding (λ v. int_lt limit v) m))
        (all (λ v. not (int_lt limit v.1))) (is_empty-exceeding (λ v. int_lt limit v))

  hca_states_checked_iff :
      (ids : List String)
      → (hca_states_checked rt run_cmd ids ≡ ok tt)
        ↔ Measured
            (run_cmd "ibv_devinfo" "")
            parse_hca_states
            (λ m. all (λ id. not (lacks_state "PORT_ACTIVE" (lookup id m))) ids)
  hca_states_checked_iff ids =
      judged_iff (run_cmd "ibv_devinfo" "") parse_hca_states
        (λ m. not (is_empty (hca_ids_without_state ids m "PORT_ACTIVE")))
        (λ m. bad_hca_state (hca_ids_without_state ids m "PORT_ACTIVE"))
        (λ m. all (λ id. not (lacks_state "PORT_ACTIVE" (lookup id m))) ids)
        (λ m. is_empty-hca ids m "PORT_ACTIVE")

  hca_state_check_iff :
      (ids : List String)
      → (hca_state_check rt run_cmd ids ≡ ok tt) ↔ (
          (is_empty ids ≡ true)
          ⊎ Measured
              (run_cmd "ibv_devinfo" "")
              parse_hca_states
              (λ m. all (λ id. not (lacks_state "PORT_ACTIVE" (lookup id m))) ids))
  unfolding hca_state_check
  hca_state_check_iff [] = (λ h. inl refl, λ h. refl)
  hca_state_check_iff (id ∷ ids) =
      let (to, back) = hca_states_checked_iff (id ∷ ids) in
      (λ h. inr (to h), λ h. elim h [ inl e ↦ absurd (cc) | inr m ↦ back m ])

  -- The check of a node passes exactly if the tools' texts can be read and show at least the number
  -- of GPUs with the state `Available` that is required, no GPU whose hotspot has the highest
  -- temperature or more, no GPU with more double-bit faults than allowed, and, if network adapters
  -- are named, each of them with a state that begins with `PORT_ACTIVE`.
  pub check_iff_IsHealthy :
      (config : MetaX) → (check rt run_cmd config ≡ ok tt) ↔ IsHealthy rt run_cmd config
  unfolding check
  check_iff_IsHealthy config =
      let s1 = seq_iff (gpu_check rt run_cmd config.gpu_num) _ in
      let s2 = seq_iff (temperature_check rt run_cmd config.temperature) _ in
      let s3 =
        seq_iff (ecc_fault_page_check rt run_cmd config.ecc_max_count)
          (hca_state_check rt run_cmd config.hca_ids) in
      (
        λ h.
            let (a, h1) = s1.0 h in
            let (b, h2) = s2.0 h1 in
            let (c, d) = s3.0 h2 in
            record {
              gpus = (gpu_check_iff config.gpu_num).0 a;
              cool = (temperature_check_iff config.temperature).0 b;
              intact = (ecc_fault_page_check_iff config.ecc_max_count).0 c;
              connected = (hca_state_check_iff config.hca_ids).0 d;
            },
        λ h. s1.1 (
          (gpu_check_iff config.gpu_num).1 h.gpus,
          s2.1 (
            (temperature_check_iff config.temperature).1 h.cool,
            s3.1 (
              (ecc_fault_page_check_iff config.ecc_max_count).1 h.intact,
              (hca_state_check_iff config.hca_ids).1 h.connected,
            ),
          ),
        ),
      )
