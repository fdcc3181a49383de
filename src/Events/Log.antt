-- ===== src/Events/Log.antt =====
-- The bus over a run of calls, beside the log that a service has written.
use nudo.Prelude.{List, [], ◌∷◌, ◌++◌, Text, text_eq, ◌==◌, if◌then◌else◌}
use nudo.Events
use nudo.Events.{DeploymentEvent, LogEvent, Channel, Bus}

pub data Call : Type 0 where
  watch_deployment : Text → Call
  publish_deployment : Text → DeploymentEvent → Call
  close_deployment : Text → Call
  watch_logs : Text → Call
  publish_log : Text → LogEvent → Call
  forget_service : Text → Call

module _ {D L : Type 0} (d : Channel D DeploymentEvent) (l : Channel L LogEvent) where
  unfoldable pub call : Call → Bus D L → Bus D L
  call (Call.watch_deployment id) bus = Events.watch_deployment d l id bus
  call (Call.publish_deployment id event) bus = Events.publish_deployment d l id event bus
  call (Call.close_deployment id) bus = Events.close_deployment d l id bus
  call (Call.watch_logs id) bus = Events.watch_logs d l id bus
  call (Call.publish_log id event) bus = Events.publish_log d l id event bus
  call (Call.forget_service id) bus = Events.forget_service d l id bus

  unfoldable pub calls : List Call → Bus D L → Bus D L
  unfolding call
  calls [] bus = bus
  calls (c ∷ cs) bus = calls cs (call c bus)

-- Everything that a service has logged since it was last forgotten, oldest first.
unfoldable pub logged : Text → Call → List LogEvent → List LogEvent
logged id (Call.publish_log other event) log = if other == id then log ++ (event ∷ []) else log
logged id (Call.forget_service other) log = if other == id then [] else log
logged id _ log = log

unfoldable pub history : Text → List Call → List LogEvent → List LogEvent
unfolding logged
history id [] log = log
history id (c ∷ cs) log = history id cs (logged id c log)
