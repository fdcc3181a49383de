-- ===== src/Guardrail.antt =====
-- What every mutating call goes through: the guard of latency-critical hosts with its audit entry, and
-- the idempotency key of a retried call. crates/server/src/api/mod.rs, store/audit.rs,
-- store/idempotency.rs. A write of the audit log or of a key can fail, which the code only logs; the
-- random id of an audit row is left out.
pub mod Laws
pub mod Retries
use nudo.Prelude.{
  ℕ, Bool, true, false, not, ◌&&◌, List, [], ◌∷◌, ◌++◌, Option, none, some, Text, text_eq, ◌==◌,
  codes, if◌then◌else◌, is_empty, find, any, Result, ok, err, or_else, map,
}
use nudo.Text.Trim.{trim}

pub data ActorKind : Type 0 where
  unspecified human agent webhook system : ActorKind

pub record Actor : Type 0 where
  pub kind : ActorKind
  pub id : Text
  pub label : Text

unfoldable pub kind_str : ActorKind → Text
kind_str human = codes "human"
kind_str agent = codes "agent"
kind_str webhook = codes "webhook"
kind_str system = codes "system"
kind_str unspecified = codes "unspecified"

unfoldable pub system_actor : Text → Actor
system_actor label = record { kind = system; id = codes "system"; label = label }

pub record Mutation : Type 0 where
  pub actor : Option Actor
  pub dry_run : Bool
  pub allow_latency_critical : Bool
  pub idempotency_key : Text

-- `Mutation::default()`
unfoldable pub no_mutation : Mutation
no_mutation = record {
  actor = none;
  dry_run = false;
  allow_latency_critical = false;
  idempotency_key = [];
}

unfoldable pub actor_or_system : Mutation → Actor
unfolding system_actor
actor_or_system m = or_else m.actor (system_actor (codes "unattributed"))

pub record Guarded : Type 0 where
  pub kind : Text
  pub name : Text
  pub latency_critical : Bool

pub record NewAuditEntry : Type 0 where
  pub actor : Actor
  pub action : Text
  pub subject_id : Text
  pub dry_run : Bool
  pub summary : Text

-- A row of `idempotency_keys`, whose primary key is `key`.
pub record KeyRow : Type 0 where
  pub key : Text
  pub action : Text
  pub result_id : Text

-- The tables, the audit entries in the order in which they were written.
pub record Ledger : Type 0 where
  pub audit_entries : List NewAuditEntry
  pub idempotency_keys : List KeyRow

pub record Authorized : Type 0 where
  pub actor : Actor
  pub dry_run : Bool
  pub idempotency_key : Text

-- The statuses that a call of the API is refused with.
pub data Status : Type 0 where
  invalid_argument failed_precondition not_found internal unavailable unauthenticated
        permission_denied :
      Text → Status

unfoldable pub audit : Bool → NewAuditEntry → Ledger → Ledger
audit writes entry ledger =
    if writes
    then record ledger { audit_entries = ledger.audit_entries ++ (entry ∷ []) }
    else ledger

-- Whether the guard stops a mutation of a host.
unfoldable pub guards : Mutation → Option Guarded → Option Guarded
guards m none = none
guards m (some host) =
    if host.latency_critical && not m.allow_latency_critical then some host else none

abbrev refused : Text → Text → Mutation → Guarded → NewAuditEntry
refused action subject_id m host = record {
  actor = actor_or_system m;
  action = action ++ codes " (refused)";
  subject_id = subject_id;
  dry_run = m.dry_run;
  summary =
      codes "refused: "
      ++ (host.kind
          ++ (codes " "
              ++ (host.name
                  ++ codes " is latency-critical and allow_latency_critical was not set")));
}

abbrev precondition : Guarded → Status
precondition host = failed_precondition (
    host.kind
    ++ (codes " "
        ++ (host.name
            ++ codes
                " is marked latency-critical; set allow_latency_critical on the request to mutate it")))

unfoldable pub decide :
    Bool
    → Mutation
    → Text
    → Text
    → Text
    → Option Guarded
    → Ledger
    → Ledger × Result Status Authorized
unfolding audit
decide writes m action subject_id summary (some host) ledger =
    (audit writes (refused action subject_id m host) ledger, err (precondition host))
decide writes m action subject_id summary none ledger = (
  audit writes
      (record {
        actor = actor_or_system m;
        action = action;
        subject_id = subject_id;
        dry_run = m.dry_run;
        summary = summary;
      })
      ledger,
  ok (record {
    actor = actor_or_system m;
    dry_run = m.dry_run;
    idempotency_key = m.idempotency_key;
  }),
)

unfoldable pub authorize_guarded :
    Bool
    → Option Mutation
    → Text
    → Text
    → Option Guarded
    → Text
    → Ledger
    → Ledger × Result Status Authorized
unfolding decide no_mutation guards
authorize_guarded writes mutation action subject_id subject summary ledger =
    let m = or_else mutation no_mutation in
    decide writes m action subject_id summary (guards m subject) ledger

abbrev pub matches_key : Text → Text → KeyRow → Bool
matches_key key action row = row.key == key && row.action == action

abbrev pub result_of : Option KeyRow → Option Text
result_of none = none
result_of (some row) = some row.result_id

unfoldable pub check_idempotency : Text → Text → Ledger → Option Text
check_idempotency key action ledger =
    if is_empty (trim key)
    then none
    else result_of (find (matches_key key action) ledger.idempotency_keys)

-- `ON CONFLICT (key) DO NOTHING`
unfoldable pub record_idempotency : Text → Text → Text → Ledger → Ledger
record_idempotency key action result_id ledger =
    if is_empty (trim key)
    then ledger
    else if any (λ row. row.key == key) ledger.idempotency_keys
    then ledger
    else record ledger {
      idempotency_keys =
          ledger.idempotency_keys
          ++ (record { key = key; action = action; result_id = result_id } ∷ []);
    }

unfoldable pub replayed : Authorized → Text → Ledger → Option Text
unfolding check_idempotency
replayed a action ledger =
    if is_empty a.idempotency_key then none else check_idempotency a.idempotency_key action ledger

-- `Authorized::record`
unfoldable pub record_call : Bool → Authorized → Text → Text → Ledger → Ledger
unfolding record_idempotency
record_call writes a action result_id ledger =
    if is_empty a.idempotency_key
    then ledger
    else if writes
    then record_idempotency a.idempotency_key action result_id ledger
    else ledger
