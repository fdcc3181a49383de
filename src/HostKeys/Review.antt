-- ===== src/HostKeys/Review.antt =====
-- The acceptance of a changed key, and the connection behind it.
use nudo.Prelude.{
  ℕ, ◌≡◌, refl, ap, ◌∙◌, Bool, true, false, not, ◌&&◌, none, some, Text, text_eq, ==_refl, is_empty,
  Result, ok, err, arith,
}
use nudo.Text.Trim.{trim}
use nudo.Guardrail.{
  Mutation, Guarded, Ledger, Status, Authorized, authorize_guarded, decide, guards, no_mutation,
}
use nudo.HostKeys.{Format, matched, parse_host_key}
use nudo.HostKeys.Store.{
  SshHost, target, build_host, HostRow, Hosts, without_pending, pin_host_key,
  record_pending_host_key, row_to_host_key, first_seen,
}
use nudo.HostKeys.Connect.{write_back, ssh_connect, connect_prepared, connect, host_ref}
use nudo.HostKeys.Api.{
  Server, KeyRequest, Disk, accept_host_key, accept_row, accept_reviewed, review, review_target,
  review_build_host, pending_of, guarded, act, accept_action, accept_summary,
}
use nudo.HostKeys.Trust.{host_ref-key}
use nudo.HostKeys.Sightings.{update_host_here}
use nudo.HostKeys.Answered.{answered, parsed_named, ssh_connect_changed, ssh_connect_matched}

authorize_open :
    (writes : Bool) (m : Mutation) (action id summary : Text) (host : Guarded) (ledger : Ledger)
    → (host.latency_critical && not m.allow_latency_critical) ≡ false
    → (authorize_guarded writes (some m) action id (some host) summary ledger).1
      ≡ ok (record {
        actor = nudo.Guardrail.actor_or_system m;
        dry_run = m.dry_run;
        idempotency_key = m.idempotency_key;
      })
unfolding authorize_guarded decide guards
authorize_open writes m action id summary host ledger passes = simp passes refl

act_done :
    (f : Hosts → Hosts) (hosts : Hosts) (r : Ledger × Result Status Authorized)
    (authorized : Authorized)
    → r.1 ≡ ok authorized
    → authorized.dry_run ≡ false
    → (act f hosts r).0.hosts ≡ f hosts
act_done f hosts (ledger, ok a) authorized e wet = ground (arith, e, wet)
act_done f hosts (ledger, err s) authorized e wet = absurd (ground (arith, e))

review-passes :
    (kind : SshHost) (row : HostRow) (offered : Text)
    → is_empty (trim row.pending_host_key) ≡ false
    → is_empty offered ≡ false
    → offered ≡ row.pending_host_key_fingerprint
    → review kind row offered ≡ none
unfolding review review_target review_build_host pending_of row_to_host_key trim
review-passes target row offered named given same =
    ground (arith, named, given, same, ==_refl offered)
review-passes build_host row offered named given same =
    ground (arith, named, given, same, ==_refl offered)

abbrev pinned_row : Text → Text → ℕ → HostRow → HostRow
pinned_row key fingerprint now row = record (without_pending row) {
  host_key = key;
  host_key_fingerprint = fingerprint;
  host_key_pinned_at = some now;
}

pin_host_key_here :
    (kind : SshHost) (id key fingerprint : Text) (now : ℕ) (hosts : Hosts) (row : HostRow)
    → hosts kind id ≡ some row
    → pin_host_key kind id key fingerprint now hosts kind id
      ≡ some (pinned_row key fingerprint now row)
unfolding pin_host_key
pin_host_key_here kind id key fingerprint now hosts row e =
    update_host_here (pinned_row key fingerprint now) kind id hosts row e

-- What the acceptance of a reviewed key leaves in the row.
accept_host_key-row :
    (disk : Disk) (kind : SshHost) (request : KeyRequest) (m : Mutation) (server : Server)
    → (row : HostRow) → server.hosts kind request.id ≡ some row
    → review kind row (trim request.fingerprint) ≡ none
    → request.mutation ≡ some m
    → (row.latency_critical && not m.allow_latency_critical) ≡ false
    → m.dry_run ≡ false
    → (accept_host_key disk kind request server).0.hosts kind request.id
      ≡ some (pinned_row row.pending_host_key row.pending_host_key_fingerprint disk.now row)
unfolding accept_host_key accept_row accept_reviewed
accept_host_key-row disk kind request m server row e passes by_m open_host wet =
    let pin =
      pin_host_key kind request.id row.pending_host_key row.pending_host_key_fingerprint disk.now in
    let r =
      authorize_guarded disk.audit_writes (some m) (accept_action kind) request.id
        (some (guarded kind row)) (accept_summary kind row) server.ledger in
    let opened =
      authorize_open disk.audit_writes m (accept_action kind) request.id (accept_summary kind row)
        (guarded kind row) server.ledger open_host in
    rw e (
      rw passes (
        rw by_m (
          ap (λ hosts. hosts kind request.id) (act_done pin server.hosts r _ opened wet)
          ∙ pin_host_key_here kind request.id _ _ disk.now server.hosts row e)))

module _ {K D : Type 0} (format : Format K D) (disk : Disk) (k : K) (t : Text) where
  -- After a host was legitimately rebuilt: a connection that presents the new key is refused without
  -- offering the private key, and leaves the pinned key and a pending one. A request that names the
  -- fingerprint of the new key, is no dry run and passes the guard pins it. The next connection
  -- that presents it matches and offers the private key. The key format must read back the new key.
  pub accept_host_key-matched :
      (kind : SshHost) (request : KeyRequest) (m : Mutation) (hosts : Hosts) (ledger : Ledger)
      → (row : HostRow) (known again : K) (first second : ℕ) → hosts kind request.id ≡ some row
      → parse_host_key format row.host_key ≡ some known
      → format.to_openssh (format.key_data k) ≡ some t
      → format.same_data (format.key_data known) (format.key_data k) ≡ false
      → parse_host_key format t ≡ some again
      → format.same_data (format.key_data again) (format.key_data k) ≡ true
      → trim request.fingerprint ≡ format.fingerprint k
      → is_empty (trim request.fingerprint) ≡ false
      → request.mutation ≡ some m
      → (row.latency_critical && not m.allow_latency_critical) ≡ false
      → m.dry_run ≡ false
      → let (seen, offered, refused) =
          connect format (host_ref kind request.id row) (answered k first) hosts in
        let server =
          (accept_host_key disk kind request (record { hosts = seen; ledger = ledger })).0 in
        (offered ≡ false)
        × ((before : HostRow) × (seen kind request.id ≡ some before)
            × (before.host_key ≡ row.host_key))
        × ((after : HostRow) × (server.hosts kind request.id ≡ some after)
            × (after.host_key ≡ t)
            × (ssh_connect format (host_ref kind request.id after).pinned_key (answered k second)
                ≡ (true, ok (matched (format.fingerprint k)))))
  unfolding connect connect_prepared write_back record_pending_host_key host_ref
  accept_host_key-matched kind request m hosts ledger row known again first second e parses encodes
        differs reads same names given by_m open_host wet =
      let fails =
        ssh_connect_changed format k t (host_ref kind request.id row).pinned_key known first
          (ap (parse_host_key format) (host_ref-key kind request.id row) ∙ parses) encodes
          differs in
      let seen = record_pending_host_key kind request.id t (format.fingerprint k) first hosts in
      let before = record row {
        pending_host_key = t;
        pending_host_key_fingerprint = format.fingerprint k;
        pending_host_key_seen_at = some (first_seen t first row);
      } in
      let there : seen kind request.id ≡ some before =
        update_host_here _ kind request.id hosts row e in
      let after = pinned_row t (format.fingerprint k) disk.now before in
      let accepted =
        accept_host_key-row disk kind request m (record { hosts = seen; ledger = ledger }) before
          there
          (review-passes kind before (trim request.fingerprint) (parsed_named format t again reads)
            given names)
          by_m open_host wet in
      simp fails (
        refl,
        (before, there, refl),
        (
          after,
          accepted,
          refl,
          ssh_connect_matched format k t (host_ref kind request.id after).pinned_key again second
              (ap (parse_host_key format) (host_ref-key kind request.id after) ∙ reads) encodes
              same,
        ),
      )
