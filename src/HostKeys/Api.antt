-- ===== src/HostKeys/Api.antt =====
-- `accept_host_key` and `forget_host_key` of crates/server/src/api/targets.rs and
-- crates/server/src/api/build_hosts.rs.
use nudo.Prelude.{
  ℕ, Bool, not, [], ◌++◌, Option, none, some, Text, text_eq, ◌==◌, codes, if◌then◌else◌, is_empty,
  Result, ok, err,
}
use nudo.Text.Trim.{trim}
use nudo.Guardrail.{
  Mutation, Guarded, Ledger, Authorized, Status, invalid_argument, failed_precondition, not_found,
  authorize_guarded,
}
use nudo.HostKeys.Store.{
  SshHost, target, build_host, HostRow, Hosts, pin_host_key, forget_host_key, row_to_host_key,
}

pub record Server : Type 0 where
  pub hosts : Hosts
  pub ledger : Ledger

pub record KeyRequest : Type 0 where
  pub id : Text
  pub fingerprint : Text
  pub mutation : Option Mutation

-- How the writes of one call fare, and the time.
pub record Disk : Type 0 where
  pub audit_writes : Bool
  pub now : ℕ

unfoldable pub subject : SshHost → Text
subject target = codes "target"
subject build_host = codes "build host"

abbrev pub guarded : SshHost → HostRow → Guarded
guarded kind row = record {
  kind = subject kind;
  name = row.name;
  latency_critical = row.latency_critical;
}

-- `unwrap_or_default` of the host key.
unfoldable pub pending_of : Option HostRow → Text × Text
pending_of none = ([], [])
pending_of (some key) = (key.pending_host_key, key.pending_host_key_fingerprint)

-- What a request for a target is refused for before it is authorized. It must have a fingerprint
-- that is not blank.
unfoldable pub review_target : HostRow → Text → Option Status
unfolding pending_of
review_target row offered =
    let (key, fingerprint) = pending_of (row_to_host_key row) in
    if is_empty (trim key)
    then some (
        failed_precondition
          (codes "target " ++ (row.name ++ codes " has no pending host-key change to accept")))
    else if is_empty offered
    then some
        (invalid_argument (codes "accepting a host key requires the fingerprint being accepted"))
    else if not (offered == fingerprint)
    then some (
        failed_precondition (
          codes "that is not the key waiting for review: pending is "
          ++ (fingerprint ++ (codes ", you sent " ++ offered))))
    else none

unfoldable pub review_build_host : HostRow → Text → Option Status
unfolding pending_of
review_build_host row offered =
    let (key, fingerprint) = pending_of (row_to_host_key row) in
    if is_empty key
    then some (
        failed_precondition (
          codes "build host "
          ++ (row.name ++ codes " has no host-key change waiting to be accepted")))
    else if not (offered == fingerprint)
    then some (
        failed_precondition (
          codes "the pending key for "
          ++ (row.name
              ++ (codes " is "
                  ++ (fingerprint
                      ++ (codes ", not "
                          ++ (offered
                              ++ codes " — review the current change before accepting it")))))))
    else none

unfoldable pub review : SshHost → HostRow → Text → Option Status
unfolding review_target review_build_host
review target = review_target
review build_host = review_build_host

-- The fingerprint of the key that is pinned, for display.
unfoldable pub previous : Option HostRow → Text
previous none = []
previous (some key) = key.host_key_fingerprint

abbrev pub accept_action : SshHost → Text
accept_action target = codes "Targets.AcceptHostKey"
accept_action build_host = codes "BuildHosts.AcceptHostKey"

abbrev forget_action : SshHost → Text
forget_action target = codes "Targets.ForgetHostKey"
forget_action build_host = codes "BuildHosts.ForgetHostKey"

abbrev pub accept_summary : SshHost → HostRow → Text
accept_summary target row =
    codes "accepted a new ssh host key for "
    ++ (row.name
        ++ (codes ": "
            ++ (row.pending_host_key_fingerprint
                ++ (codes " replaces "
                    ++ (if is_empty (previous (row_to_host_key row))
                        then codes "no previously pinned key"
                        else previous (row_to_host_key row))))))
accept_summary build_host row =
    codes "accepted a new ssh host key for build host "
    ++ (row.name ++ (codes ": " ++ row.pending_host_key_fingerprint))

abbrev forget_summary : SshHost → HostRow → Text
forget_summary target row =
    codes "forgot the pinned ssh host key for "
    ++ (row.name
        ++ (codes " ("
            ++ ((if is_empty (previous (row_to_host_key row))
                  then codes "none was pinned"
                  else previous (row_to_host_key row))
                ++ codes "); the next connection will pin afresh")))
forget_summary build_host row =
    codes "forgot the pinned ssh host key for build host "
    ++ (row.name ++ codes ", reopening trust-on-first-use")

-- What an authorized call does, and what a dry run or a refusal leaves.
abbrev pub act :
    (Hosts → Hosts) → Hosts → Ledger × Result Status Authorized → Server × Result Status Bool
act f hosts (ledger, err status) = (record { hosts = hosts; ledger = ledger }, err status)
act f hosts (ledger, ok authorized) = (
  record { hosts = if authorized.dry_run then hosts else f hosts; ledger = ledger },
  ok authorized.dry_run,
)

unfoldable pub accept_reviewed :
    Disk → SshHost → KeyRequest → HostRow → Option Status → Server → Server × Result Status Bool
accept_reviewed disk kind request row (some status) server = (server, err status)
accept_reviewed disk kind request row none server =
    act
      (pin_host_key kind request.id row.pending_host_key row.pending_host_key_fingerprint disk.now)
      server.hosts
      (authorize_guarded disk.audit_writes request.mutation (accept_action kind) request.id
        (some (guarded kind row)) (accept_summary kind row) server.ledger)

-- The result is whether the call was a dry run; the host that is returned is the row afterwards.
unfoldable pub accept_row :
    Disk → SshHost → KeyRequest → Option HostRow → Server → Server × Result Status Bool
unfolding accept_reviewed
accept_row disk kind request none server =
    (server, err (not_found (codes "no such " ++ (subject kind ++ (codes ": " ++ request.id)))))
accept_row disk kind request (some row) server =
    accept_reviewed disk kind request row (review kind row (trim request.fingerprint)) server

unfoldable pub accept_host_key : Disk → SshHost → KeyRequest → Server → Server × Result Status Bool
unfolding accept_row
accept_host_key disk kind request server =
    accept_row disk kind request (server.hosts kind request.id) server

unfoldable pub forget_row :
    Disk → SshHost → KeyRequest → Option HostRow → Server → Server × Result Status Bool
forget_row disk kind request none server =
    (server, err (not_found (codes "no such " ++ (subject kind ++ (codes ": " ++ request.id)))))
forget_row disk kind request (some row) server =
    act (λ hosts. (forget_host_key kind request.id hosts).0) server.hosts
      (authorize_guarded disk.audit_writes request.mutation (forget_action kind) request.id
        (some (guarded kind row)) (forget_summary kind row) server.ledger)

unfoldable pub forget_key : Disk → SshHost → KeyRequest → Server → Server × Result Status Bool
unfolding forget_row
forget_key disk kind request server =
    forget_row disk kind request (server.hosts kind request.id) server
