-- ===== src/App/AppTests.antt =====
-- A process of two parts.
use kcover.Shared.{Bool, List, String, [], false, refl, some, true, ◌++◌, ◌==◌, ◌∷◌, ◌≡◌, text_eq}
use kcover.App.{
  Outcome, new_controller_app, start_app, start_call, stop_app, stop_call, agent_start, agent_stop,
  stop_started,
}
use kcover.App.Rollback.{
  start_rolls_back, starts_of, stop_after_start, stops, agent_as_controller, agent_parts,
  result_and_log,
}

abbrev two_parts : List String
two_parts = "recovery controller" ∷ "pod detector" ∷ []

abbrev all_start : String → Bool
all_start name = true

abbrev only_first : String → Bool
only_first name = name == "recovery controller"

start_rolls_back_example : start_app (some two_parts) only_first new_controller_app [] ≡ record {
  app = record { components = some two_parts; started = 0; stopped = true };
  success = false;
  log =
      start_call "recovery controller"
      ∷ start_call "pod detector"
      ∷ stop_call "recovery controller"
      ∷ [];
}
start_rolls_back_example =
    start_rolls_back (some two_parts) only_first ("recovery controller" ∷ []) "pod detector" [] []
      refl refl refl

abbrev running : Outcome
running = start_app (some two_parts) all_start new_controller_app []

abbrev ended : Outcome
ended = stop_app running.app running.log

stop_after_start_example :
    (running.success ≡ true)
    × (ended.log ≡ starts_of two_parts ++ stops two_parts)
    × ((start_app (some two_parts) all_start ended.app ended.log).success ≡ false)
    × ((start_app (some two_parts) all_start ended.app ended.log).log ≡ ended.log)
    × ((stop_app ended.app ended.log).log ≡ ended.log)
stop_after_start_example = stop_after_start (some two_parts) all_start two_parts [] refl refl

agent_as_controller_example :
    (agent_start only_first []
      ≡ result_and_log (start_app (some agent_parts) only_first new_controller_app []))
    × (agent_stop [] ≡ stop_started 3 agent_parts [])
agent_as_controller_example = agent_as_controller only_first []
