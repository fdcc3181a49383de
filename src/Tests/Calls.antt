-- ===== src/Tests/Calls.antt =====
-- Calls of the API and of the bus.
use nudo.Prelude.{
  ◌≡◌, refl, true, false, List, [], ◌∷◌, ◌++◌, none, some, Text, codes, text_beq, arith, min, max,
  last, ◌↔◌, is_ok, ℕ, ◌+◌,
}
use nudo.Text.Trim.{trim, trim_start_matches, trim_end_matches, is_whitespace}
use nudo.Guardrail.{
  Guarded, NewAuditEntry, KeyRow, Ledger, authorize_guarded, check_idempotency, record_idempotency,
}
use nudo.Guardrail.Laws.{
  IsStopped, IsEntry, IsActing, authorize_guarded-is_ok, authorize_guarded-IsEntry,
}
use nudo.Guardrail.Retries.{check_idempotency-other_action}
use nudo.Events.{LogEvent, Channel, new, backfill, backfill_after_cursor}
use nudo.Events.Log.{Call, calls, history, logged}
use nudo.Events.Laws.{calls-backfill, calls-backfill_after_cursor}

-- A channel that counts its receivers.
abbrev counting : {E : Type 0} → Channel ℕ E
counting = record { channel = 0; subscribe = λ n. n + 1; send = λ e n. n; receiver_count = λ n. n }

abbrev line : Text → LogEvent
line cursor = record {
  time = 1;
  message = codes "started";
  priority = codes "6";
  unit = codes "bot.service";
  cursor = cursor;
}

abbrev svc : Text
svc = codes "svc_1"

abbrev c1 : LogEvent
c1 = line (codes "c1")

abbrev c2 : LogEvent
c2 = line (codes "c2")

abbrev c3 : LogEvent
c3 = line (codes "c3")

abbrev three : List Call
three = Call.publish_log svc c1 ∷ Call.publish_log svc c2 ∷ Call.publish_log svc c3 ∷ []

calls-backfill_example :
    backfill svc 5 (calls counting counting three (new counting counting 2))
    ≡ last (min 5 (max 2 1)) (history svc three [])
calls-backfill_example = calls-backfill counting counting 2 three svc 5

two_held : last 2 (history svc three []) ≡ c2 ∷ c3 ∷ []
unfolding history logged text_beq
two_held = refl

calls-backfill_after_cursor_example :
    backfill_after_cursor svc (codes "c2") (calls counting counting three (new counting counting 2))
    ≡ c3 ∷ []
unfolding history logged text_beq
calls-backfill_after_cursor_example =
    calls-backfill_after_cursor counting counting 2 three svc (c1 ∷ []) c2 (c3 ∷ []) refl
      ((λ e. ground (arith, e)), tt) (omega arith)

abbrev no_ledger : Ledger
no_ledger = record { audit_entries = []; idempotency_keys = [] }

abbrev hot : Guarded
hot = record { kind = codes "target"; name = codes "hft"; latency_critical = true }

authorize_guarded-is_ok_example :
    (is_ok (authorize_guarded true none (codes "A") (codes "t") (some hot) (codes "s") no_ledger).1
      ≡ false)
    ↔ IsStopped none (some hot)
authorize_guarded-is_ok_example =
    authorize_guarded-is_ok none (codes "A") (codes "t") (codes "s") true (some hot) no_ledger

authorize_guarded-IsEntry_example :
    let (after, verdict) =
      authorize_guarded true none (codes "A") (codes "t") (some hot) (codes "s") no_ledger in
    (entry : NewAuditEntry) × (after.audit_entries ≡ [] ++ (entry ∷ []))
    × IsEntry none (codes "t") entry
    × IsActing entry verdict
    × (after.idempotency_keys ≡ [])
authorize_guarded-IsEntry_example =
    authorize_guarded-IsEntry none (codes "A") (codes "t") (codes "s") true (some hot) no_ledger

abbrev deploy_row : KeyRow
deploy_row = record { key = codes "k1"; action = codes "Deploy"; result_id = codes "dep_1" }

abbrev later_row : KeyRow
later_row = record { key = codes "k1"; action = codes "Deploy"; result_id = codes "dep_2" }

check_idempotency-other_action_example :
    check_idempotency (codes "k1") (codes "RunCommand") (
      record_idempotency
        (codes "k1")
        (codes "RunCommand")
        (codes "ls")
        (record_idempotency (codes "k1") (codes "Deploy") (codes "dep_1") no_ledger))
    ≡ none
unfolding trim trim_start_matches trim_end_matches is_whitespace
check_idempotency-other_action_example =
    check_idempotency-other_action deploy_row (codes "RunCommand") (codes "ls") no_ledger refl refl
      (λ e. ground (arith, e))
