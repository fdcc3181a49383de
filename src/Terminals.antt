-- ===== src/Terminals.antt =====
-- Grants of terminal sessions: crates/server/src/store/terminals.rs. The digest, the random id and token
-- and the time are arguments; whether the target exists is asked of another table.
pub mod Keyed
pub mod Once
pub mod Granted
use nudo.Prelude.{
  ℕ, ◌+◌, Bool, true, false, not, ◌&&◌, List, [], ◌∷◌, ◌++◌, map, filter, find, any, Option, none,
  some, Text, text_eq, ◌==◌, if◌then◌else◌, is_empty, ltb, nat_eq, min, Result, ok, err,
}
use nudo.Text.Trim.{trim}

pub record TerminalRow : Type 0 where
  pub id : Text
  pub token_hash : Text
  pub target_id : Text
  pub initial_command : Text
  pub cols : ℕ
  pub rows : ℕ
  pub consumed_at : Option ℕ
  pub expires_at : ℕ

pub record TerminalGrant : Type 0 where
  pub id : Text
  pub target_id : Text
  pub initial_command : Text
  pub cols : ℕ
  pub rows : ℕ

pub data TerminalError : Type 0 where
  no_such_target not_unique : TerminalError

-- `TERMINAL_TOKEN_TTL_SECONDS`
abbrev pub token_ttl : ℕ
token_ttl = 60

unfoldable pub clamped : ℕ → ℕ → ℕ
clamped default n = if nat_eq n 0 then default else min n 1000

abbrev pub granted : Text → Text → ℕ → Text → Text → ℕ → ℕ → TerminalRow
granted id hash now target_id initial_command cols rows = record {
  id = id;
  token_hash = hash;
  target_id = target_id;
  initial_command = trim initial_command;
  cols = clamped 80 cols;
  rows = clamped 24 rows;
  consumed_at = none;
  expires_at = now + token_ttl;
}

abbrev pub has_id : Text → TerminalRow → Bool
has_id id r = r.id == id

-- The columns `id` and `token_hash` are unique.
unfoldable pub create_terminal_session :
    (Text → Text)
    → Bool
    → Text
    → Text
    → ℕ
    → Text
    → Text
    → ℕ
    → ℕ
    → List TerminalRow
    → Result TerminalError (List TerminalRow)
create_terminal_session sha256_hex has_target id token now target_id initial_command cols rows
      table =
    let hash = sha256_hex token in
    if not has_target
    then err no_such_target
    else if any (has_id id) table
    then err not_unique
    else if any (λ r. r.token_hash == hash) table
    then err not_unique
    else ok (table ++ (granted id hash now target_id initial_command cols rows ∷ []))

unfoldable pub consumed : TerminalRow → Bool
consumed r = elim r.consumed_at [ none ↦ false | some _ ↦ true ]

-- The condition of the `UPDATE`.
abbrev pub redeems : Text → Text → ℕ → TerminalRow → Bool
redeems id hash now r =
    r.id == id && r.token_hash == hash && not (consumed r) && ltb now r.expires_at

abbrev pub spent : Text → Text → ℕ → TerminalRow → TerminalRow
spent id hash now r = if redeems id hash now r then record r { consumed_at = some now } else r

abbrev pub grant_of : Option TerminalRow → Option TerminalGrant
grant_of none = none
grant_of (some r) = some (record {
  id = r.id;
  target_id = r.target_id;
  initial_command = r.initial_command;
  cols = r.cols;
  rows = r.rows;
})

unfoldable pub consume_terminal_session :
    (Text → Text) → Text → Text → ℕ → List TerminalRow → List TerminalRow × Option TerminalGrant
consume_terminal_session sha256_hex session_id token now table =
    let id = trim session_id in
    let hash = sha256_hex (trim token) in
    if is_empty (trim token)
    then (table, none)
    else (map (spent id hash now) table, grant_of (find (redeems id hash now) table))

unfoldable pub sweep_terminal_sessions : ℕ → List TerminalRow → List TerminalRow
sweep_terminal_sessions now table =
    filter (λ r. not (ltb r.expires_at now) && not (consumed r)) table
