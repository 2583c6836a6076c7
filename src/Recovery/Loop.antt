-- ===== src/Recovery/Loop.antt =====
-- pkg/recovery/recovery.go, the goroutine of Start: which input comes next is up to the runtime, so a
-- run is a list of inputs. The clock is read with a report and with a tick.
use kcover.Shared.{ℕ, List, Result, String, [], ◌∷◌}
use kcover.Cluster.Calls.{◌>>=◌, ◌>>◌, give, Run}
use kcover.Cluster.{Cluster}
use kcover.Recovery.Controller.{on_event, on_preflight_report}
use kcover.Preflight.Types.{Extracted, ParseError}
use kcover.Recovery.Tracker.{PreflightTracker, sweep_expired}
use kcover.Events.{Event}
use kcover.Api.{PreflightReport}

pub data Input : Type 0 where
  context_done events_closed reports_closed : Input
  tick : ℕ → Input
  event_arrives : Event → Input
  report_arrives : PreflightReport → ℕ → Input

module _ (c : Cluster) (extract : String → Result ParseError Extracted) where
  unfoldable pub controller_loop : PreflightTracker → List Input → Run PreflightTracker
  controller_loop s [] = give s
  controller_loop s (context_done ∷ rest) = give s
  controller_loop s (events_closed ∷ rest) = give s
  controller_loop s (reports_closed ∷ rest) = controller_loop s rest
  controller_loop s (tick now ∷ rest) = controller_loop (sweep_expired s now).0 rest
  controller_loop s (event_arrives event ∷ rest) = on_event c event >> controller_loop s rest
  controller_loop s (report_arrives r now ∷ rest) =
      on_preflight_report c extract s r now >>= λ s'. controller_loop s' rest
