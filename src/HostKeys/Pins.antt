-- ===== src/HostKeys/Pins.antt =====
-- Which calls change the key that is pinned for a host.
pub mod Connected
use nudo.Prelude.{
  ℕ, ◌≡◌, refl, sym, ap, ◌∙◌, ◌⊎◌, inl, inr, Bool, true, false, not, ◌&&◌, [], Option, none, some,
  Text, text_eq, ◌==◌, eq_of_==, if◌then◌else◌, is_empty, Result, ok, err, arith, Bool-cases,
  Option-cases, subst,
}
use nudo.Text.Trim.{trim}
use nudo.Guardrail.{Ledger, Status, Authorized, authorize_guarded}
use nudo.HostKeys.{
  Format, HostKeyOutcome, pinned, matched, changed, host_key_is_pinned, parse_host_key, judge,
  judged, verdict_for,
}
use nudo.HostKeys.Store.{
  SshHost, target, build_host, HostRow, Hosts, update_row, update_host, same_host, without_pending,
  pin_host_key, record_pending_host_key, clear_pending_host_key, forget_host_key, row_to_host_key,
}
use nudo.HostKeys.Connect.{
  Attempt, SshHostRef, ConnectError, host_key_changed, connect_failed, verdict_on, accepts, shake,
  authenticate, record_host_key, write_back, ssh_connect, connect_prepared, connect,
}
use nudo.HostKeys.Api.{
  Server, KeyRequest, Disk, accept_host_key, accept_row, accept_reviewed, review, review_target,
  review_build_host, pending_of, forget_key, forget_row, act,
}
use nudo.HostKeys.Ops.{
  Op, connecting, accepting, forgetting, MayPin, perform, update_host-row, some_inj, act-key,
}
use nudo.HostKeys.Pins.Connected.{connect-key}

-- A review that lets a request pass has compared its fingerprint.
review-fingerprint :
    (kind : SshHost) (row : HostRow) (offered : Text)
    → review kind row offered ≡ none
    → offered ≡ row.pending_host_key_fingerprint
unfolding review review_target review_build_host pending_of row_to_host_key trim
review-fingerprint target row offered e =
    eq_of_== offered row.pending_host_key_fingerprint (ground (arith, e))
review-fingerprint build_host row offered e =
    eq_of_== offered row.pending_host_key_fingerprint (ground (arith, e))

module _ (disk : Disk) (kind : SshHost) (request : KeyRequest) where
  accept_reviewed-key :
      (seen : HostRow) (verdict : Option Status) (server : Server) (h : SshHost) (i : Text)
      → (row after : HostRow) → review kind seen (trim request.fingerprint) ≡ verdict
      → server.hosts kind request.id ≡ some seen
      → server.hosts h i ≡ some row
      → (accept_reviewed disk kind request seen verdict server).0.hosts h i ≡ some after
      → (after.host_key ≡ row.host_key)
        ⊎ ((kind ≡ h)
            × (request.id ≡ i)
            × (trim request.fingerprint ≡ row.pending_host_key_fingerprint)
            × (after.host_key ≡ row.pending_host_key))
  unfolding accept_reviewed pin_host_key
  accept_reviewed-key seen (some status) server h i row after v l e u =
      inl (ap (λ r. r.host_key) (some_inj (sym u ∙ e)))
  accept_reviewed-key seen none server h i row after v l e u =
      elim (act-key _ kind request.id server.hosts _ h i row after e u) [
        | inl same ↦ inl (ap (λ r. r.host_key) same)
        | inr (of_kind, of_id, here, moved) ↦
            let same = some_inj (sym l ∙ here) in
            inr (
              of_kind,
              of_id,
              review-fingerprint kind seen (trim request.fingerprint) v
                  ∙ ap (λ r. r.pending_host_key_fingerprint) same,
              ap (λ r. r.host_key) moved ∙ ap (λ r. r.pending_host_key) same,
            )
      ]

  accept_row-key :
      (found : Option HostRow) (server : Server) (h : SshHost) (i : Text) (row after : HostRow)
      → server.hosts kind request.id ≡ found
      → server.hosts h i ≡ some row
      → (accept_row disk kind request found server).0.hosts h i ≡ some after
      → (after.host_key ≡ row.host_key)
        ⊎ ((kind ≡ h)
            × (request.id ≡ i)
            × (trim request.fingerprint ≡ row.pending_host_key_fingerprint)
            × (after.host_key ≡ row.pending_host_key))
  unfolding accept_row
  accept_row-key none server h i row after l e u = inl (ap (λ r. r.host_key) (some_inj (sym u ∙ e)))
  accept_row-key (some seen) server h i row after l e u =
      accept_reviewed-key seen _ server h i row after refl l e u

  forget_row-key :
      (found : Option HostRow) (server : Server) (h : SshHost) (i : Text) (row after : HostRow)
      → server.hosts h i ≡ some row
      → (forget_row disk kind request found server).0.hosts h i ≡ some after
      → (after.host_key ≡ row.host_key) ⊎ ((kind ≡ h) × (request.id ≡ i) × (after.host_key ≡ []))
  unfolding forget_row forget_host_key
  forget_row-key none server h i row after e u = inl (ap (λ r. r.host_key) (some_inj (sym u ∙ e)))
  forget_row-key (some seen) server h i row after e u =
      elim (act-key _ kind request.id server.hosts _ h i row after e u) [
        | inl same ↦ inl (ap (λ r. r.host_key) same)
        | inr (of_kind, of_id, _, moved) ↦ inr (of_kind, of_id, ap (λ r. r.host_key) moved)
      ]

-- The pinned key of a host changes in three ways only, each by a call for that host. A connection that
-- had read that nothing was pinned pins the key that the host presented. An accepted review pins the
-- key that was waiting, and its request named the fingerprint that was waiting with it. A request to
-- forget leaves none.
pub perform-MayPin :
    {K D : Type 0} (format : Format K D) (op : Op K) (server : Server) (h : SshHost) (i : Text)
    → (row after : HostRow) → server.hosts h i ≡ some row
    → (perform format op server).hosts h i ≡ some after
    → (after.host_key ≡ row.host_key) ⊎ MayPin format op h i row after
unfolding perform accept_host_key forget_key
perform-MayPin format (connecting host a) server h i row after e u =
    connect-key format host a server.hosts h i row after e u
perform-MayPin format (accepting disk kind request) server h i row after e u =
    accept_row-key disk kind request _ server h i row after refl e u
perform-MayPin format (forgetting disk kind request) server h i row after e u =
    forget_row-key disk kind request _ server h i row after e u
