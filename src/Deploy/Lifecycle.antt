-- ===== src/Deploy/Lifecycle.antt =====
-- crates/server/src/deploy/lifecycle.rs. What `emit` does, adding lines to the output of a deployment
-- and showing them to watchers, is left out, here and everywhere in the engine.
pub mod Rules
use nudo.Prelude.{ℕ, Bool, true, false, not, ◌&&◌, List, ◌∷◌, if◌then◌else◌}
use nudo.Deploy.Status.{Status}
use nudo.Deploy.World.{
  World, Env, Step, Check, deployment_cancelled, Event, status_event, finished_event, note_status,
  note_finish, note_error, Failure,
}
use nudo.Deploy.Rows.{set_deployment_status, set_deployment_error, request_cancel, cancel_requested}
use nudo.Deploy.Action.{
  Action, pure, bail, ◌>>=◌, ◌>>◌, modify, gets, perform, on_db, ignore, require,
}

-- A client may have asked for a cancel since the last check.
abbrev pub arrive : Env → Check → World → World
arrive env check w = if env.cancels check then on_db (λ db. (request_cancel db).0) w else w

-- A flag that cannot be read counts as not set.
unfoldable pub sees_cancel : Env → Check → World → Bool
sees_cancel env check w = env.readable check && cancel_requested w.db

unfoldable pub check_cancelled : Env → Check → Action (Unit {0})
check_cancelled env check = do
  modify (arrive env check)
  cancelled ← gets (sees_cancel env check)
  require (not cancelled) deployment_cancelled

abbrev pub publish : Event → World → World
publish event w = record w { events = event ∷ w.events }

unfoldable pub transition : Env → Status → Action (Unit {0})
transition env status = do
  ignore (perform env note_status (on_db (set_deployment_status status env.now)))
  modify (publish (status_event status))

unfoldable pub finish : Env → Status → Action (Unit {0})
finish env status = do
  ignore (perform env note_finish (on_db (set_deployment_status status env.now)))
  modify (publish (finished_event status))
