-- ===== src/App.antt =====
-- cmd/kcover/app.go and cmd/agent/app.go: the order in which the parts of a process start and stop.
use kcover.Shared.{
  ℕ, Bool, List, Option, String, [], all, false, if◌then◌else◌, none, not, or_default, some, suc,
  true, zero, ◌++◌, ◌==◌, ◌∷◌, nat_eq,
}
pub mod Rollback
mod AppTests

-- The calls of runner.Runner, in the order of time.
pub data Life : Type 0 where
  start_call stop_call : String → Life

-- `components` is none for nil.
pub record ControllerApp : Type 0 where
  pub components : Option (List String)
  pub started : ℕ
  pub stopped : Bool

abbrev pub new_controller_app : ControllerApp
new_controller_app = record { components = none; started = 0; stopped = false }

abbrev pub name_at : List String → ℕ → String
name_at [] n = ""
name_at (x ∷ xs) zero = x
name_at (x ∷ xs) (suc n) = name_at xs n

-- stopStartedLocked: the last one first, until none is left.
unfoldable pub stop_started : ℕ → List String → List Life → List Life
stop_started zero components log = log
stop_started (suc n) components log =
    stop_started n components (log ++ (stop_call (name_at components n) ∷ []))

-- The app after a call, whether there was no error, and the calls so far.
pub record Outcome : Type 0 where
  pub app : ControllerApp
  pub success : Bool
  pub log : List Life

-- `build` is the function of the struct: the names of the parts, or an error. A part starts or does not.
module _ (build : Option (List String)) (starts : String → Bool) where
  unfoldable pub start_components : List String → List String → ℕ → List Life → Outcome
  start_components [] parts n log = record {
    app = record { components = some parts; started = n; stopped = false };
    success = true;
    log = log;
  }
  start_components (x ∷ rest) parts n log =
      let log' = log ++ (start_call x ∷ []) in
      let later = start_components rest parts (suc n) log' in
      if starts x then later else record {
        app = record { components = some parts; started = 0; stopped = true };
        success = false;
        log = stop_started n parts log';
      }

  abbrev pub start_built : Option (List String) → ControllerApp → List Life → Outcome
  start_built none app log = record {
    app = record app { stopped = true };
    success = false;
    log = log;
  }
  start_built (some parts) app log = start_components parts parts 0 log

  abbrev pub or_build : Option (List String) → Option (List String)
  or_build none = build
  or_build (some parts) = some parts

  unfoldable pub start_app : ControllerApp → List Life → Outcome
  start_app app log =
      if app.stopped
      then record { app = app; success = false; log = log }
      else if not (app.started == 0)
      then record { app = app; success = true; log = log }
      else start_built (or_build app.components) app log

unfoldable pub stop_app : ControllerApp → List Life → Outcome
stop_app app log = if app.stopped then record { app = app; success = true; log = log } else record {
  app = record app { started = 0; stopped = true };
  success = true;
  log = stop_started app.started (or_default [] app.components) log;
}

-- cmd/agent/app.go: the three parts of the agent, without a state of the app.
unfoldable pub agent_start : (String → Bool) → List Life → Bool × List Life
agent_start starts log =
    let log₁ = log ++ (start_call "report publisher" ∷ []) in
    let log₂ = log₁ ++ (start_call "node detector" ∷ []) in
    let log₃ = log₂ ++ (start_call "report collector" ∷ []) in
    if not (starts "report publisher")
    then (false, log₁)
    else if not (starts "node detector")
    then (false, log₂ ++ (stop_call "report publisher" ∷ []))
    else if not (starts "report collector")
    then (false, (log₃ ++ (stop_call "node detector" ∷ [])) ++ (stop_call "report publisher" ∷ []))
    else (true, log₃)

unfoldable pub agent_stop : List Life → List Life
agent_stop log =
    ((log ++ (stop_call "report collector" ∷ [])) ++ (stop_call "node detector" ∷ []))
    ++ (stop_call "report publisher" ∷ [])
