-- ===== src/HostKeys/Ops.antt =====
-- The calls that reach the pinned key of a host, and what an update does to a row.
use nudo.Prelude.{
  ◌≡◌, refl, sym, ap, ◌∙◌, ◌⊎◌, inl, inr, true, false, ◌&&◌, [], some, Text, text_eq, ◌==◌,
  eq_of_==, Result, ok, err, arith, Bool-cases,
}
use nudo.Text.Trim.{trim}
use nudo.Guardrail.{Ledger, Status, Authorized}
use nudo.HostKeys.{Format, host_key_is_pinned}
use nudo.HostKeys.Store.{
  SshHost, target, build_host, HostRow, Hosts, update_row, update_host, same_host,
}
use nudo.HostKeys.Connect.{Attempt, SshHostRef, connect}
use nudo.HostKeys.Api.{Server, KeyRequest, Disk, accept_host_key, forget_key, act}

-- A call on the server. A connection may have read the pinned key earlier than it is judged.
pub data Op (K : Type 0) : Type 0 where
  connecting : SshHostRef → Attempt K → Op K
  accepting : Disk → SshHost → KeyRequest → Op K
  forgetting : Disk → SshHost → KeyRequest → Op K

module _ {K D : Type 0} (format : Format K D) where
  unfoldable pub perform : Op K → Server → Server
  perform (connecting host a) server = record server {
    hosts = (connect format host a server.hosts).0;
  }
  perform (accepting disk kind request) server = (accept_host_key disk kind request server).0
  perform (forgetting disk kind request) server = (forget_key disk kind request server).0

  -- What a call must be to turn the row of a host into another with a different pinned key: it is for
  -- that host, and more.
  abbrev pub MayPin : Op K → SshHost → Text → HostRow → HostRow → Type 0
  MayPin (connecting host a) h i row after =
      (host.kind ≡ h)
      × (host.id ≡ i)
      × (host_key_is_pinned host.pinned_key ≡ false)
      × ((k : K) × (a.presented ≡ some k)
          × (format.to_openssh (format.key_data k) ≡ some after.host_key))
  MayPin (accepting disk kind request) h i row after =
      (kind ≡ h)
      × (request.id ≡ i)
      × (trim request.fingerprint ≡ row.pending_host_key_fingerprint)
      × (after.host_key ≡ row.pending_host_key)
  MayPin (forgetting disk kind request) h i row after =
      (kind ≡ h) × (request.id ≡ i) × (after.host_key ≡ [])

same_host-eq : (g h : SshHost) → same_host g h ≡ true → g ≡ h
unfolding same_host
same_host-eq target target e = refl
same_host-eq build_host build_host e = refl
same_host-eq target build_host e = absurd (ground arith)
same_host-eq build_host target e = absurd (ground arith)

-- An update of one row gives a row its value, if it is that one, or leaves it.
pub update_host-row :
    (f : HostRow → HostRow) (host : SshHost) (id : Text) (hosts : Hosts) (h : SshHost) (i : Text)
    → (row after : HostRow) → hosts h i ≡ some row
    → update_host f host id hosts h i ≡ some after
    → (after ≡ row) ⊎ ((host ≡ h) × (id ≡ i) × (hosts host id ≡ some row) × (after ≡ f row))
unfolding update_host
update_host-row f host id hosts h i row after e u =
    elim (Bool-cases (same_host host h && id == i)) [
      | inl here ↦
          let found : update_row f (hosts h i) ≡ some after = simp here at u in
          let same : some (f row) ≡ some after = sym (ap (update_row f) e) ∙ found in
          let g = same_host-eq host h (ground (arith, here)) in
          let k = eq_of_== id i (ground (arith, here)) in
          inr (g, k, ap (λ x. hosts x id) g ∙ ap (hosts h) k ∙ e, ground (arith, same))
      | inr other ↦
          let found : hosts h i ≡ some after = simp other at u in inl (ground (arith, e, found))
    ]

pub some_inj : {A : Type 0} {x y : A} → some x ≡ some y → x ≡ y
some_inj e = ground (arith, e)

-- What an authorized call does to a row.
pub act-key :
    (f : HostRow → HostRow) (host : SshHost) (id : Text) (hosts : Hosts)
    → (r : Ledger × Result Status Authorized) (h : SshHost) (i : Text) (row after : HostRow)
    → hosts h i ≡ some row
    → (act (update_host f host id) hosts r).0.hosts h i ≡ some after
    → (after ≡ row) ⊎ ((host ≡ h) × (id ≡ i) × (hosts host id ≡ some row) × (after ≡ f row))
act-key f host id hosts (ledger, err status) h i row after e u = inl (some_inj (sym u ∙ e))
act-key f host id hosts (ledger, ok authorized) h i row after e u =
    elim (Bool-cases authorized.dry_run) [
      | inl dry ↦ inl (some_inj (sym (simp dry at u) ∙ e))
      | inr wet ↦ update_host-row f host id hosts h i row after e (simp wet at u)
    ]
