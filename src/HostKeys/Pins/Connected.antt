-- ===== src/HostKeys/Pins/Connected.antt =====
-- What a connection pins.
use nudo.Prelude.{
  ℕ, ◌≡◌, refl, sym, ap, ◌∙◌, ◌⊎◌, inl, inr, true, false, ◌&&◌, Option, none, some, Text, text_eq,
  Result, ok, err, arith, Bool-cases,
}
use nudo.HostKeys.{
  Format, HostKeyOutcome, pinned, matched, changed, host_key_is_pinned, parse_host_key, judge,
  judged, verdict_for,
}
use nudo.HostKeys.Store.{
  SshHost, HostRow, Hosts, without_pending, pin_host_key, record_pending_host_key,
  clear_pending_host_key,
}
use nudo.HostKeys.Connect.{
  Attempt, SshHostRef, ConnectError, host_key_changed, connect_failed, verdict_on, accepts, shake,
  authenticate, record_host_key, write_back, ssh_connect, connect_prepared, connect,
}
use nudo.HostKeys.Ops.{connecting, MayPin, update_host-row, some_inj}

pin_text : HostKeyOutcome → Option Text
pin_text (pinned key _) = some key
pin_text _ = none

pin_of : Result ConnectError HostKeyOutcome → Option Text
pin_of (ok outcome) = pin_text outcome
pin_of (err _) = none

pin_of-ok :
    (r : Result ConnectError HostKeyOutcome) (t : Text)
    → pin_of r ≡ some t
    → (v : HostKeyOutcome) × (r ≡ ok v) × (pin_text v ≡ some t)
unfolding pin_of
pin_of-ok (ok v) t e = (v, refl, e)
pin_of-ok (err x) t e = absurd (ground arith)

module _ {K D : Type 0} (format : Format K D) where
  judged-pin :
      (expected : Text) (k : K) (openssh : Text) (o : Option K) (t : Text)
      → pin_text (judge format expected o k openssh) ≡ some t
      → (host_key_is_pinned expected ≡ false) × (openssh ≡ t)
  unfolding judge pin_text
  judged-pin expected k openssh none t e = ground arith
  judged-pin expected k openssh (some known) t e = ground arith

  verdict_for-pin :
      (expected : Text) (k : K) (o : Option Text) (v : HostKeyOutcome) (t : Text)
      → judged format expected k o ≡ some v
      → pin_text v ≡ some t
      → (host_key_is_pinned expected ≡ false) × (o ≡ some t)
  unfolding judged
  verdict_for-pin expected k none v t e p = absurd (ground arith)
  verdict_for-pin expected k (some openssh) v t e p =
      let (blank, same) =
        judged-pin expected k openssh (parse_host_key format expected) t (ground (arith, e, p)) in
      (blank, ap some same)

  verdict_on-pin :
      (expected : Text) (o : Option K) (v : HostKeyOutcome) (t : Text)
      → verdict_on format expected o ≡ some v
      → pin_text v ≡ some t
      → (host_key_is_pinned expected ≡ false)
        × ((k : K) × (o ≡ some k) × (format.to_openssh (format.key_data k) ≡ some t))
  unfolding verdict_on verdict_for
  verdict_on-pin expected none v t e p = absurd (ground arith)
  verdict_on-pin expected (some k) v t e p =
      let (blank, same) =
        verdict_for-pin expected k (format.to_openssh (format.key_data k)) v t e p in
      (blank, (k, refl, same))

shake-ok :
    {K : Type 0} (a : Attempt K) (verdict : Option HostKeyOutcome) (v : HostKeyOutcome)
    → (shake a verdict).1 ≡ ok v
    → (verdict ≡ some v) × (accepts a.presented verdict ≡ true)
unfolding shake authenticate
shake-ok a none v e = absurd (ground arith)
shake-ok a (some (changed x y z)) v e = absurd (ground arith)
shake-ok a (some (pinned x y)) v e = ground arith
shake-ok a (some (matched x)) v e = ground arith

module _ {K D : Type 0} (format : Format K D) where
  ssh_connect-pin :
      (expected : Text) (a : Attempt K) (t : Text)
      → pin_of (ssh_connect format expected a).1 ≡ some t
      → (host_key_is_pinned expected ≡ false)
        × ((k : K) × (a.presented ≡ some k) × (format.to_openssh (format.key_data k) ≡ some t))
  unfolding ssh_connect pin_of
  ssh_connect-pin expected a t e = elim (Bool-cases (a.key_decodes && a.in_time)) [
    | inr fails ↦ absurd (ground (arith, simp fails at e))
    | inl starts ↦
        let (v, is_ok, pins) =
          pin_of-ok (shake a (verdict_on format expected a.presented)).1 t (simp starts at e) in
        verdict_on-pin format expected a.presented v t
          (shake-ok a (verdict_on format expected a.presented) v is_ok).0 pins
  ]

-- Writing back an outcome pins what a first use has seen, and else leaves the pinned key.
write_back-key :
    (host : SshHostRef) (result : Result ConnectError HostKeyOutcome) (now : ℕ) (hosts : Hosts)
    → (h : SshHost) (i : Text) (row after : HostRow) → hosts h i ≡ some row
    → write_back host result now hosts h i ≡ some after
    → (after.host_key ≡ row.host_key)
      ⊎ ((host.kind ≡ h) × (host.id ≡ i) × (pin_of result ≡ some after.host_key))
unfolding write_back record_host_key pin_host_key record_pending_host_key clear_pending_host_key
    without_pending pin_of pin_text
write_back-key host (ok (pinned key fingerprint)) now hosts h i row after e u =
    elim (update_host-row _ host.kind host.id hosts h i row after e u) [
      | inl same ↦ inl (ap (λ r. r.host_key) same)
      | inr (of_kind, of_id, _, moved) ↦
          inr (of_kind, of_id, ap some (sym (ap (λ r. r.host_key) moved)))
    ]
write_back-key host (ok (matched _)) now hosts h i row after e u =
    inl (elim (update_host-row _ host.kind host.id hosts h i row after e u) [
      | inl same ↦ ap (λ r. r.host_key) same
      | inr (_, _, _, moved) ↦ ap (λ r. r.host_key) moved ∙ ground arith
    ])
write_back-key host (ok (changed _ _ _)) now hosts h i row after e u = inl (ground (arith, e, u))
write_back-key host (err (host_key_changed _ key fingerprint)) now hosts h i row after e u =
    inl (elim (update_host-row _ host.kind host.id hosts h i row after e u) [
      | inl same ↦ ap (λ r. r.host_key) same
      | inr (_, _, _, moved) ↦ ap (λ r. r.host_key) moved
    ])
write_back-key host (err connect_failed) now hosts h i row after e u = inl (ground (arith, e, u))

module _ {K D : Type 0} (format : Format K D) where
  pub connect-key :
      (host : SshHostRef) (a : Attempt K) (hosts : Hosts) (h : SshHost) (i : Text)
      → (row after : HostRow) → hosts h i ≡ some row
      → (connect format host a hosts).0 h i ≡ some after
      → (after.host_key ≡ row.host_key) ⊎ MayPin format (connecting host a) h i row after
  unfolding connect connect_prepared
  connect-key host a hosts h i row after e u = elim (Bool-cases a.prepares) [
    | inr fails ↦ inl (ap (λ r. r.host_key) (some_inj (sym (simp fails at u) ∙ e)))
    | inl prepares ↦ elim (Bool-cases a.writes) [
      | inr fails ↦ inl (ap (λ r. r.host_key) (some_inj (sym (simp (prepares, fails) at u) ∙ e)))
      | inl writes ↦
          elim (write_back-key host (ssh_connect format host.pinned_key a).1 a.now hosts h i row
            after e (simp (prepares, writes) at u)) [
              | inl same ↦ inl same
              | inr (of_kind, of_id, pins) ↦
                  let (blank, seen) =
                    ssh_connect-pin format host.pinned_key a after.host_key pins in
                  inr (of_kind, of_id, blank, seen)
            ]
    ]
  ]
