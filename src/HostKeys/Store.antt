-- ===== src/HostKeys/Store.antt =====
-- The host key columns of the tables `targets` and `build_hosts`: crates/server/src/store/host_keys.rs.
use nudo.Prelude.{
  ℕ, Bool, true, false, ◌&&◌, [], Option, none, some, Text, text_eq, ◌==◌, if◌then◌else◌, is_empty,
  Table,
}

pub data SshHost : Type 0 where
  target build_host : SshHost

unfoldable pub same_host : SshHost → SshHost → Bool
same_host target target = true
same_host build_host build_host = true
same_host _ _ = false

-- The columns of a row, with the ones that the guard of its mutations reads.
pub record HostRow : Type 0 where
  pub name : Text
  pub latency_critical : Bool
  pub host_key : Text
  pub host_key_fingerprint : Text
  pub host_key_pinned_at : Option ℕ
  pub pending_host_key : Text
  pub pending_host_key_fingerprint : Text
  pub pending_host_key_seen_at : Option ℕ

-- The rows of both tables by id.
abbrev pub Hosts : Type 0
Hosts = SshHost → Table HostRow

abbrev pub update_row : (HostRow → HostRow) → Option HostRow → Option HostRow
update_row f none = none
update_row f (some row) = some (f row)

-- `UPDATE … WHERE id = ?`: nothing happens when there is no such row.
unfoldable pub update_host : (HostRow → HostRow) → SshHost → Text → Hosts → Hosts
unfolding same_host
update_host f host id hosts h i =
    if same_host host h && id == i then update_row f (hosts h i) else hosts h i

unfoldable pub without_pending : HostRow → HostRow
without_pending row = record row {
  pending_host_key = [];
  pending_host_key_fingerprint = [];
  pending_host_key_seen_at = none;
}

unfoldable pub pin_host_key : SshHost → Text → Text → Text → ℕ → Hosts → Hosts
unfolding update_host without_pending
pin_host_key host id key fingerprint now =
    update_host
      (λ row. record (without_pending row) {
        host_key = key;
        host_key_fingerprint = fingerprint;
        host_key_pinned_at = some now;
      })
      host id

-- When a key that is seen now was first seen.
unfoldable pub first_seen : Text → ℕ → HostRow → ℕ
first_seen key now row =
    if row.pending_host_key == key
    then (elim row.pending_host_key_seen_at [ none ↦ now | some t ↦ t ])
    else now

unfoldable pub record_pending_host_key : SshHost → Text → Text → Text → ℕ → Hosts → Hosts
unfolding update_host first_seen
record_pending_host_key host id key fingerprint now =
    update_host
      (λ row. record row {
        pending_host_key = key;
        pending_host_key_fingerprint = fingerprint;
        pending_host_key_seen_at = some (first_seen key now row);
      })
      host id

unfoldable pub clear_pending_host_key : SshHost → Text → Hosts → Hosts
unfolding update_host without_pending
clear_pending_host_key host id =
    update_host (λ row. if is_empty row.pending_host_key then row else without_pending row) host id

-- What an `UPDATE` of a row says of the rows that it affected.
unfoldable pub forget_host_key : SshHost → Text → Hosts → Hosts × Bool
unfolding update_host without_pending
forget_host_key host id hosts = (
  update_host
      (λ row. record (without_pending row) {
        host_key = [];
        host_key_fingerprint = [];
        host_key_pinned_at = none;
      })
      host id hosts,
  elim (hosts host id) [ none ↦ false | some _ ↦ true ],
)

-- `row_to_host_key`: no host key when nothing is pinned and nothing is pending.
unfoldable pub row_to_host_key : HostRow → Option HostRow
row_to_host_key row =
    if is_empty row.host_key && is_empty row.pending_host_key then none else some row
