-- ===== src/AgentConfig.antt =====
-- pkg/agentconfig: the configuration of the agent, in the flavor of flavor_metax.go. The file, the YAML
-- decoder and time.Parse with the layout 15:04 are parameters.
use kcover.Shared.{
  ℕ, Bool, List, Option, Result, String, [], arith, err, false, if◌then◌else◌, is_neg, is_not_pos,
  none, not, ok, pos, some, true, ℤ, ◌&&◌, ◌==◌, ◌≡◌, text_eq, Bool-cases, inl, inr, refl,
}
mod AgentConfigTests

pub record MetaX : Type 0 where
  pub node_name : String
  pub hca_ids : List String
  pub gpu_num : ℤ
  pub temperature : ℤ
  pub ecc_max_count : ℤ
  pub ntp_max_offset_millis : ℤ
  pub day2_check_time : String

pub record Agent : Type 0 where
  pub interval : ℤ
  pub meta_x : MetaX

abbrev pub default_meta_x : MetaX
default_meta_x = record {
  node_name = "";
  hca_ids = [];
  gpu_num = pos 8;
  temperature = pos 85;
  ecc_max_count = pos 64;
  ntp_max_offset_millis = pos 10;
  day2_check_time = "10:00";
}

abbrev pub default_agent : Agent
default_agent = record { interval = pos 5; meta_x = default_meta_x }

pub data LoadError : Type 0 where
  unreadable malformed : LoadError

replaced :
    {A : Type 0} (bad : A → Bool) (d v : A) → bad d ≡ false → bad (if bad v then d else v) ≡ false
replaced bad d v good = elim (Bool-cases (bad v)) [ inl b ↦ rw b good | inr g ↦ rw g g ]

all_hold :
    {a c d e f : Bool} (b : Bool)
    → a ≡ false
    → not b ≡ false
    → c ≡ false
    → d ≡ false
    → e ≡ false
    → f ≡ false
    → (not a && b && not c && not d && not e && not f) ≡ true
all_hold b p q r s t u = ground arith

each_holds :
    (a b c d e f : Bool)
    → (not a && b && not c && not d && not e && not f) ≡ true
    → (a ≡ false) × (b ≡ true) × (c ≡ false) × (d ≡ false) × (e ≡ false) × (f ≡ false)
each_holds a b c d e f h = ground arith

module _ (parse_clock : String → Bool) where
  unfoldable pub valid_day2_check_time : String → Bool
  valid_day2_check_time value = if value == "" then false else parse_clock value

  unfoldable pub apply_flavor_defaults : MetaX → MetaX
  apply_flavor_defaults m = record m {
    day2_check_time =
        if not (valid_day2_check_time m.day2_check_time)
        then default_meta_x.day2_check_time
        else m.day2_check_time;
    ntp_max_offset_millis =
        if is_not_pos m.ntp_max_offset_millis
        then default_meta_x.ntp_max_offset_millis
        else m.ntp_max_offset_millis;
    gpu_num = if is_neg m.gpu_num then default_meta_x.gpu_num else m.gpu_num;
    temperature = if is_not_pos m.temperature then default_meta_x.temperature else m.temperature;
    ecc_max_count =
        if is_neg m.ecc_max_count then default_meta_x.ecc_max_count else m.ecc_max_count;
  }

  unfoldable pub apply_defaults : Agent → Agent
  apply_defaults cfg = record {
    interval = if is_not_pos cfg.interval then default_agent.interval else cfg.interval;
    meta_x = apply_flavor_defaults cfg.meta_x;
  }

  module _ (read_file : String → Option String) (decode : String → Agent → Option Agent) where
    abbrev pub decoded : Option Agent → Result LoadError Agent
    decoded none = err malformed
    decoded (some cfg) = ok (apply_defaults cfg)

    abbrev pub from_file : Option String → Result LoadError Agent
    from_file none = err unreadable
    from_file (some text) = decoded (decode text default_agent)

    unfoldable pub load : String → Result LoadError Agent
    load path = if path == "" then ok (apply_defaults default_agent) else from_file (read_file path)

  -- Every setting is in its range.
  abbrev pub is_usable : Agent → Bool
  is_usable cfg =
      not (is_not_pos cfg.interval)
      && valid_day2_check_time cfg.meta_x.day2_check_time
      && not (is_not_pos cfg.meta_x.ntp_max_offset_millis)
      && not (is_neg cfg.meta_x.gpu_num)
      && not (is_not_pos cfg.meta_x.temperature)
      && not (is_neg cfg.meta_x.ecc_max_count)

  default_usable : parse_clock "10:00" ≡ true → not (valid_day2_check_time "10:00") ≡ false
  unfolding valid_day2_check_time
  default_usable clock = ground arith

  usable_after : (cfg : Agent) → parse_clock "10:00" ≡ true → is_usable (apply_defaults cfg) ≡ true
  unfolding apply_defaults apply_flavor_defaults
  usable_after cfg clock =
      let m = cfg.meta_x in
      all_hold (valid_day2_check_time (apply_defaults cfg).meta_x.day2_check_time)
        (replaced is_not_pos (pos 5) cfg.interval refl)
        (replaced (λ t. not (valid_day2_check_time t)) "10:00" m.day2_check_time
          (default_usable clock))
        (replaced is_not_pos (pos 10) m.ntp_max_offset_millis refl)
        (replaced is_neg (pos 8) m.gpu_num refl) (replaced is_not_pos (pos 85) m.temperature refl)
        (replaced is_neg (pos 64) m.ecc_max_count refl)

  usable_kept : (cfg : Agent) → is_usable cfg ≡ true → apply_defaults cfg ≡ cfg
  unfolding apply_defaults apply_flavor_defaults
  usable_kept cfg usable =
      let m = cfg.meta_x in
      let (a, b, c, d, e, f) =
        each_holds (is_not_pos cfg.interval) (valid_day2_check_time m.day2_check_time)
          (is_not_pos m.ntp_max_offset_millis) (is_neg m.gpu_num) (is_not_pos m.temperature)
          (is_neg m.ecc_max_count) usable in
      rw (a, b, c, d, e, f) refl

  decoded_applies :
      (read_file : String → Option String) (decode : String → Agent → Option Agent) (cfg : Agent)
      (o : Option Agent)
      → decoded read_file decode o ≡ ok cfg
      → (before : Agent) × (cfg ≡ apply_defaults before)
  decoded_applies read_file decode cfg none h = cc
  decoded_applies read_file decode cfg (some before) h = (before, cc)

  from_file_applies :
      (read_file : String → Option String) (decode : String → Agent → Option Agent) (cfg : Agent)
      (o : Option String)
      → from_file read_file decode o ≡ ok cfg
      → (before : Agent) × (cfg ≡ apply_defaults before)
  from_file_applies read_file decode cfg none h = cc
  from_file_applies read_file decode cfg (some text) h =
      decoded_applies read_file decode cfg (decode text default_agent) h

  load_applies :
      (read_file : String → Option String) (decode : String → Agent → Option Agent) (path : String)
      (cfg : Agent)
      → load read_file decode path ≡ ok cfg
      → (before : Agent) × (cfg ≡ apply_defaults before)
  unfolding load
  load_applies read_file decode path cfg h = elim (Bool-cases (path == "")) [
    | inl default ↦ (default_agent, cc (rw default at h))
    | inr given ↦ from_file_applies read_file decode cfg (read_file path) (rw given at h)
  ]

  -- If 10:00 is a time of day, every configuration that Load returns has all settings in their ranges,
  -- and ApplyDefaults changes nothing of it any more.
  pub load_usable :
      (read_file : String → Option String) (decode : String → Agent → Option Agent) (path : String)
      (cfg : Agent)
      → parse_clock "10:00" ≡ true
      → load read_file decode path ≡ ok cfg
      → (is_usable cfg ≡ true) × (apply_defaults cfg ≡ cfg)
  load_usable read_file decode path cfg clock loaded =
      let (before, same) = load_applies read_file decode path cfg loaded in
      let usable : is_usable cfg ≡ true = rw same (usable_after before clock) in
      (usable, usable_kept cfg usable)
