-- ===== src/Events.antt =====
-- Live progress of deployments and live log lines, and the buffer that fills a freshly opened view:
-- crates/server/src/events.rs. A broadcast channel of tokio is a parameter.
pub mod Log
pub mod Laws
use nudo.Prelude.{
  ℕ, ◌+◌, ◌-◌, Bool, true, false, List, [], ◌∷◌, ◌++◌, Option, none, some, Text, text_eq, ◌==◌,
  if◌then◌else◌, leb, ltb, max, length, drop, Table, insert, remove, or_else,
}
use nudo.Deploy.Status.{Status}

pub data DeploymentEvent : Type 0 where
  status : Status → DeploymentEvent
  output : Text → Bool → DeploymentEvent
  finished : Status → DeploymentEvent

pub record LogEvent : Type 0 where
  pub time : ℕ
  pub message : Text
  pub priority : Text
  pub unit : Text
  pub cursor : Text

-- `broadcast::Sender<E>` and what is called of it. Its receivers stay with their callers.
pub record Channel (S E : Type 0) : Type 0 where
  pub channel : S
  pub subscribe : S → S
  pub send : E → S → S
  pub receiver_count : S → ℕ

pub record Bus (D L : Type 0) : Type 0 where
  pub deployments : Table D
  pub logs : Table L
  pub log_buffers : Table (List LogEvent)
  pub buffer_capacity : ℕ

-- What a lookup sends to when there is a channel.
unfoldable pub publish : {S E : Type 0} → Channel S E → Text → E → Table S → Option S → Table S
publish c key event table none = table
publish c key event table (some sender) = insert key (c.send event sender) table

-- `entry(key).or_insert_with(channel).subscribe()`
unfoldable pub watch : {S E : Type 0} → Channel S E → Text → Table S → Table S
watch c key table = insert key (c.subscribe (or_else (table key) c.channel)) table

-- `pop_front` when the buffer is full, then `push_back`.
unfoldable pub push_bounded : ℕ → LogEvent → List LogEvent → List LogEvent
push_bounded capacity event buffer =
    (if leb capacity (length buffer) then drop 1 buffer else buffer) ++ (event ∷ [])

-- What follows the first event with a cursor, and the whole buffer when there is none.
unfoldable pub after_first : Text → List LogEvent → Option (List LogEvent)
after_first cursor [] = none
after_first cursor (e ∷ es) =
    let rest = after_first cursor es in if e.cursor == cursor then some es else rest

module _ {D L : Type 0} (deployment_channel : Channel D DeploymentEvent)
    (log_channel : Channel L LogEvent) where
  unfoldable pub new : ℕ → Bus D L
  new buffer_capacity = record {
    deployments = λ _. none;
    logs = λ _. none;
    log_buffers = λ _. none;
    buffer_capacity = max buffer_capacity 1;
  }

  unfoldable pub watch_deployment : Text → Bus D L → Bus D L
  unfolding watch
  watch_deployment id bus = record bus { deployments = watch deployment_channel id bus.deployments }

  unfoldable pub publish_deployment : Text → DeploymentEvent → Bus D L → Bus D L
  unfolding publish
  publish_deployment id event bus = record bus {
    deployments = publish deployment_channel id event bus.deployments (bus.deployments id);
  }

  unfoldable pub close_deployment : Text → Bus D L → Bus D L
  close_deployment id bus = record bus { deployments = remove id bus.deployments }

  unfoldable pub watch_logs : Text → Bus D L → Bus D L
  unfolding watch
  watch_logs id bus = record bus { logs = watch log_channel id bus.logs }

  unfoldable pub publish_log : Text → LogEvent → Bus D L → Bus D L
  unfolding publish push_bounded
  publish_log id event bus = record bus {
    log_buffers =
        insert id (push_bounded bus.buffer_capacity event (or_else (bus.log_buffers id) []))
          bus.log_buffers;
    logs = publish log_channel id event bus.logs (bus.logs id);
  }

  unfoldable pub has_log_watchers : Text → Bus D L → Bool
  has_log_watchers id bus = elim (bus.logs id) [
    | none ↦ false
    | some sender ↦ ltb 0 (log_channel.receiver_count sender)
  ]

  unfoldable pub forget_service : Text → Bus D L → Bus D L
  forget_service id bus = record bus {
    logs = remove id bus.logs;
    log_buffers = remove id bus.log_buffers;
  }

unfoldable pub newest : ℕ → Option (List LogEvent) → List LogEvent
newest limit none = []
newest limit (some buffer) = drop (length buffer - limit) buffer

unfoldable pub resumed : Text → Option (List LogEvent) → List LogEvent
unfolding after_first
resumed cursor none = []
resumed cursor (some buffer) = or_else (after_first cursor buffer) buffer

module _ {D L : Type 0} where
  unfoldable pub backfill : Text → ℕ → Bus D L → List LogEvent
  unfolding newest
  backfill id limit bus = newest limit (bus.log_buffers id)

  unfoldable pub backfill_after_cursor : Text → Text → Bus D L → List LogEvent
  unfolding resumed
  backfill_after_cursor id cursor bus = resumed cursor (bus.log_buffers id)
