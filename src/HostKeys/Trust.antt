-- ===== src/HostKeys/Trust.antt =====
-- To which hosts the private key is offered, in one connection and over a run of them.
use nudo.Prelude.{
  ℕ, ◌≡◌, ◌≢◌, refl, All, sym, ap, ◌∙◌, ◌⊎◌, inl, inr, true, false, ◌&&◌, List, [], ◌∷◌, ◌==◌,
  Option, none, some, Text, text_eq, Result, ok, err, arith, Bool-cases,
}
use nudo.HostKeys.{
  Format, HostKeyOutcome, pinned, matched, changed, host_key_is_pinned, parse_host_key, judge,
  judged, verdict_for,
}
use nudo.HostKeys.Store.{
  SshHost, HostRow, Hosts, same_host, update_row, update_host, pin_host_key,
  record_pending_host_key, clear_pending_host_key, row_to_host_key,
}
use nudo.HostKeys.Connect.{
  Attempt, SshHostRef, ConnectError, host_key_changed, connect_failed, verdict_on, accepts, shake,
  authenticate, record_host_key, write_back, ssh_connect, connect_prepared, connect, host_ref,
  pinned_key,
}
use nudo.HostKeys.Pins.Connected.{connect-key}

module _ {K D : Type 0} (format : Format K D) where
  -- The key that the host presented is the one that was expected, or none was expected.
  abbrev pub IsTrusted : Text → Attempt K → Type 0
  IsTrusted expected a =
      (k : K) × (a.presented ≡ some k)
      × ((host_key_is_pinned expected ≡ false)
          ⊎ ((known : K) × (parse_host_key format expected ≡ some known)
              × (format.same_data (format.key_data known) (format.key_data k) ≡ true)))

  judge-accepts :
      (expected : Text) (k : K) (openssh : Text) (o : Option K)
      → parse_host_key format expected ≡ o
      → accepts (some k) (some (judge format expected o k openssh)) ≡ true
      → (host_key_is_pinned expected ≡ false)
        ⊎ ((known : K) × (parse_host_key format expected ≡ some known)
            × (format.same_data (format.key_data known) (format.key_data k) ≡ true))
  unfolding judge accepts
  judge-accepts expected k openssh none e h = inl (ground (arith, h))
  judge-accepts expected k openssh (some known) e h = inr (known, e, ground (arith, h))

  judged-accepts :
      (expected : Text) (k : K) (o : Option Text)
      → accepts (some k) (judged format expected k o) ≡ true
      → (host_key_is_pinned expected ≡ false)
        ⊎ ((known : K) × (parse_host_key format expected ≡ some known)
            × (format.same_data (format.key_data known) (format.key_data k) ≡ true))
  unfolding judged accepts
  judged-accepts expected k none h = absurd (ground (arith, h))
  judged-accepts expected k (some openssh) h =
      judge-accepts expected k openssh (parse_host_key format expected) refl h

  shake-accepts :
      (a : Attempt K) (verdict : Option HostKeyOutcome)
      → (shake a verdict).0 ≡ true
      → (v : HostKeyOutcome) × (verdict ≡ some v) × (accepts a.presented verdict ≡ true)
  unfolding shake authenticate
  shake-accepts a none h = absurd (ground (arith, h))
  shake-accepts a (some (changed x y z)) h = absurd (ground (arith, h))
  shake-accepts a (some (pinned x y)) h = (_, refl, ground (arith, h))
  shake-accepts a (some (matched x)) h = (_, refl, ground (arith, h))

  verdict_on-IsTrusted :
      (expected : Text) (o : Option K) (v : HostKeyOutcome)
      → verdict_on format expected o ≡ some v
      → accepts o (verdict_on format expected o) ≡ true
      → (k : K) × (o ≡ some k)
        × ((host_key_is_pinned expected ≡ false)
            ⊎ ((known : K) × (parse_host_key format expected ≡ some known)
                × (format.same_data (format.key_data known) (format.key_data k) ≡ true)))
  unfolding verdict_on verdict_for
  verdict_on-IsTrusted expected none v e h = absurd (ground (arith, e))
  verdict_on-IsTrusted expected (some k) v e h =
      (k, refl, judged-accepts expected k (format.to_openssh (format.key_data k)) h)

  ssh_connect-IsTrusted :
      (expected : Text) (a : Attempt K)
      → (ssh_connect format expected a).0 ≡ true
      → IsTrusted expected a
  unfolding ssh_connect
  ssh_connect-IsTrusted expected a h = elim (Bool-cases (a.key_decodes && a.in_time)) [
    | inr fails ↦ absurd (ground (arith, simp fails at h))
    | inl starts ↦
        let (v, e, accepted) =
          shake-accepts a (verdict_on format expected a.presented) (simp starts at h) in
        verdict_on-IsTrusted expected a.presented v e accepted
  ]

  connect-offers :
      (host : SshHostRef) (a : Attempt K) (hosts : Hosts)
      → (connect format host a hosts).1 ≡ true
      → (ssh_connect format host.pinned_key a).0 ≡ true
  unfolding connect connect_prepared
  connect-offers host a hosts h = elim (Bool-cases a.prepares) [
    | inr fails ↦ absurd (ground (arith, simp fails at h))
    | inl prepares ↦ simp prepares at h
  ]

  -- The private key is offered only to a host that presented the pinned key, unless nothing was pinned
  -- for it. A pinned value that cannot be read trusts no key.
  pub connect-IsTrusted :
      (host : SshHostRef) (a : Attempt K) (hosts : Hosts)
      → (connect format host a hosts).1 ≡ true
      → IsTrusted host.pinned_key a
  connect-IsTrusted host a hosts h =
      ssh_connect-IsTrusted host.pinned_key a (connect-offers host a hosts h)

  -- Connections one after the other, to any hosts, each judged by what its caller has read.
  unfoldable pub visits : List (SshHostRef × Attempt K) → Hosts → Hosts
  visits [] hosts = hosts
  visits ((host, a) ∷ later) hosts = visits later (connect format host a hosts).0

-- A caller for this host that has read that a key is pinned, or a caller for another host.
abbrev pub IsInformed : {K : Type 0} → SshHost → Text → SshHostRef × Attempt K → Type 0
IsInformed kind id (host, a) =
    (host_key_is_pinned host.pinned_key ≡ true) ⊎ (host.kind ≢ kind) ⊎ (host.id ≢ id)

update_host-exists :
    (f : HostRow → HostRow) (host : SshHost) (id : Text) (hosts : Hosts) (h : SshHost) (i : Text)
    → (row : HostRow) → hosts h i ≡ some row
    → (after : HostRow) × (update_host f host id hosts h i ≡ some after)
unfolding update_host
update_host-exists f host id hosts h i row e = elim (Bool-cases (same_host host h && id == i)) [
  | inl here ↦ (f row, simp here (ap (update_row f) e))
  | inr other ↦ (row, simp other e)
]

write_back-exists :
    (host : SshHostRef) (result : Result ConnectError HostKeyOutcome) (now : ℕ) (hosts : Hosts)
    → (h : SshHost) (i : Text) (row : HostRow) → hosts h i ≡ some row
    → (after : HostRow) × (write_back host result now hosts h i ≡ some after)
unfolding write_back record_host_key pin_host_key record_pending_host_key clear_pending_host_key
write_back-exists host (ok (pinned key fingerprint)) now hosts h i row e =
    update_host-exists _ host.kind host.id hosts h i row e
write_back-exists host (ok (matched _)) now hosts h i row e =
    update_host-exists _ host.kind host.id hosts h i row e
write_back-exists host (ok (changed _ _ _)) now hosts h i row e = (row, e)
write_back-exists host (err (host_key_changed _ key fingerprint)) now hosts h i row e =
    update_host-exists _ host.kind host.id hosts h i row e
write_back-exists host (err connect_failed) now hosts h i row e = (row, e)

pub host_ref-key :
    (kind : SshHost) (id : Text) (row : HostRow) → (host_ref kind id row).pinned_key ≡ row.host_key
unfolding host_ref pinned_key row_to_host_key
host_ref-key kind id row = ground arith

module _ {K D : Type 0} (format : Format K D) where
  connect-exists :
      (host : SshHostRef) (a : Attempt K) (hosts : Hosts) (h : SshHost) (i : Text) (row : HostRow)
      → hosts h i ≡ some row
      → (after : HostRow) × ((connect format host a hosts).0 h i ≡ some after)
  unfolding connect connect_prepared
  connect-exists host a hosts h i row e = elim (Bool-cases a.prepares) [
    | inr fails ↦ (row, simp fails e)
    | inl prepares ↦ elim (Bool-cases a.writes) [
      | inr fails ↦ (row, simp (prepares, fails) e)
      | inl writes ↦
          let (after, found) =
            write_back-exists host (ssh_connect format host.pinned_key a).1 a.now hosts h i row e in
          (after, simp (prepares, writes) found)
    ]
  ]

  -- Once a key is pinned, connections of callers that know of it never change it.
  visits-key :
      (kind : SshHost) (id : Text) (calls : List (SshHostRef × Attempt K)) (hosts : Hosts)
      (row : HostRow)
      → hosts kind id ≡ some row
      → All (IsInformed kind id) calls
      → (after : HostRow) × (visits format calls hosts kind id ≡ some after)
        × (after.host_key ≡ row.host_key)
  unfolding visits
  visits-key kind id [] hosts row e informed = (row, e, refl)
  visits-key kind id ((host, a) ∷ later) hosts row e (knows, informed) =
      let (mid, found) = connect-exists host a hosts kind id row e in
      let kept : mid.host_key ≡ row.host_key =
        elim (connect-key format host a hosts kind id row mid e found) [
          | inl same ↦ same
          | inr (of_kind, of_id, blank, _) ↦ elim knows [
            | inl pins ↦ absurd (ground (arith, pins, blank))
            | inr (inl other) ↦ absurd (other of_kind)
            | inr (inr other) ↦ absurd (other of_id)
          ]
        ] in
      let (after, at_end, same) =
        visits-key kind id later (connect format host a hosts).0 mid found informed in
      (after, at_end, same ∙ kept)

  -- A key is pinned for a host. Take any run of connections to any hosts, whatever answers them and
  -- however they end, in which every caller for this host had read that a key is pinned. Then the same
  -- key is pinned after the run, and a connection by a caller that reads the row then keeps the private key back, or the
  -- key that the host presented has the material of the pinned one.
  pub visits-IsTrusted :
      (kind : SshHost) (id : Text) (calls : List (SshHostRef × Attempt K)) (hosts : Hosts)
      (row : HostRow)
      → (a : Attempt K) → hosts kind id ≡ some row
      → host_key_is_pinned row.host_key ≡ true
      → All (IsInformed kind id) calls
      → (after : HostRow) × (visits format calls hosts kind id ≡ some after)
        × (after.host_key ≡ row.host_key)
        × (((connect format (host_ref kind id after) a (visits format calls hosts)).1 ≡ false)
            ⊎ ((k : K) × (known : K) × (a.presented ≡ some k)
                × (parse_host_key format row.host_key ≡ some known)
                × (format.same_data (format.key_data known) (format.key_data k) ≡ true)))
  visits-IsTrusted kind id calls hosts row a e pins informed =
      let (after, at_end, kept) = visits-key kind id calls hosts row e informed in
      let read = host_ref-key kind id after ∙ kept in
      (
        after,
        at_end,
        kept,
        elim (Bool-cases
            (connect format (host_ref kind id after) a (visits format calls hosts)).1) [
              | inr held ↦ inl held
              | inl offered ↦
                  let (k, presented, trusted) =
                    connect-IsTrusted format (host_ref kind id after) a (visits format calls hosts)
                      offered in
                  inr (elim trusted [
                    | inl blank ↦
                        absurd (ground (arith, pins, sym (ap host_key_is_pinned read) ∙ blank))
                    | inr (known, parses, data_same) ↦ (
                      k,
                      known,
                      presented,
                      sym (ap (parse_host_key format) read) ∙ parses,
                      data_same,
                    )
                  ])
            ],
      )
