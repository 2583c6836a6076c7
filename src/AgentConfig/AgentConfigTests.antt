-- ===== src/AgentConfig/AgentConfigTests.antt =====
-- One configuration file.
use kcover.Shared.{Bool, Option, String, negsuc, ok, refl, some, true, ◌==◌, ◌≡◌, text_eq}
use kcover.AgentConfig.{
  Agent, apply_defaults, apply_flavor_defaults, default_agent, is_usable, load, load_usable,
  valid_day2_check_time,
}

abbrev any_clock : String → Bool
any_clock text = text == "10:00"

abbrev file_text : String → Option String
file_text path = some "interval: -1"

-- The decoder overwrites one setting with a value out of its range.
abbrev decode_text : String → Agent → Option Agent
decode_text text cfg = some (record cfg { interval = negsuc 0 })

loaded_default : load any_clock file_text decode_text "agent.yaml" ≡ ok default_agent
unfolding load apply_defaults apply_flavor_defaults valid_day2_check_time
loaded_default = refl

load_usable_example :
    (is_usable any_clock default_agent ≡ true)
    × (apply_defaults any_clock default_agent ≡ default_agent)
load_usable_example =
    load_usable any_clock file_text decode_text "agent.yaml" default_agent refl loaded_default
