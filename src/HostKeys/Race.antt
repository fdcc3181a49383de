-- ===== src/HostKeys/Race.antt =====
-- Two first connections to one host at the same time.
use nudo.Prelude.{ℕ, ◌≡◌, refl, ap, ◌∙◌, arith, true, false, none, some, Text, ok}
use nudo.HostKeys.{Format, pinned, host_key_is_pinned, parse_host_key, judge, judged, verdict_for}
use nudo.HostKeys.Store.{HostRow, Hosts, pin_host_key}
use nudo.HostKeys.Connect.{
  SshHostRef, accepts, shake, authenticate, record_host_key, write_back, ssh_connect,
  connect_prepared, connect, verdict_on,
}
use nudo.HostKeys.Sightings.{update_host_here}
use nudo.HostKeys.Answered.{answered}

module _ {K D : Type 0} (format : Format K D) where
  ssh_connect_first :
      (expected : Text) (k : K) (t : Text) (now : ℕ)
      → host_key_is_pinned expected ≡ false
      → parse_host_key format expected ≡ none
      → format.to_openssh (format.key_data k) ≡ some t
      → ssh_connect format expected (answered k now) ≡ (true, ok (pinned t (format.fingerprint k)))
  unfolding ssh_connect verdict_on verdict_for shake authenticate accepts judged judge
  ssh_connect_first expected k t now blank unread encodes =
      ap (λ o. shake (answered k now) (judged format expected k o)) encodes
      ∙ ap (λ o. shake (answered k now) (some (judge format expected o k t))) unread
      ∙ simp blank refl

  parse_blank :
      (expected : Text)
      → host_key_is_pinned expected ≡ false
      → parse_host_key format expected ≡ none
  unfolding parse_host_key host_key_is_pinned
  parse_blank expected h = ground (arith, h)

  connect_first :
      (host : SshHostRef) (k : K) (t : Text) (now : ℕ) (hosts : Hosts) (row : HostRow)
      → hosts host.kind host.id ≡ some row
      → host_key_is_pinned host.pinned_key ≡ false
      → format.to_openssh (format.key_data k) ≡ some t
      → let (after, offered, result) = connect format host (answered k now) hosts in
        (offered ≡ true) × ((r : HostRow) × (after host.kind host.id ≡ some r) × (r.host_key ≡ t))
  unfolding connect connect_prepared write_back record_host_key pin_host_key
  connect_first host k t now hosts row e blank encodes =
      simp
        (ssh_connect_first host.pinned_key k t now blank (parse_blank host.pinned_key blank)
          encodes)
        (refl, (_, update_host_here _ host.kind host.id hosts row e, refl))

  -- Two connections that had both read that nothing was pinned: each is offered the private key, and
  -- the second pins its key over the first one's, whatever keys they saw.
  pub connect-repins :
      (host : SshHostRef) (k l : K) (t u : Text) (first second : ℕ) (hosts : Hosts) (row : HostRow)
      → hosts host.kind host.id ≡ some row
      → host_key_is_pinned host.pinned_key ≡ false
      → format.to_openssh (format.key_data k) ≡ some t
      → format.to_openssh (format.key_data l) ≡ some u
      → let (one, offered, _) = connect format host (answered k first) hosts in
        let (two, offered_too, _) = connect format host (answered l second) one in
        (offered ≡ true)
        × (offered_too ≡ true)
        × ((r : HostRow) × (one host.kind host.id ≡ some r) × (r.host_key ≡ t))
        × ((r : HostRow) × (two host.kind host.id ≡ some r) × (r.host_key ≡ u))
  connect-repins host k l t u first second hosts row e blank encodes encodes_too =
      let (offered, (r, there, is_t)) = connect_first host k t first hosts row e blank encodes in
      let (offered_too, (r2, there_too, is_u)) =
        connect_first host l u second (connect format host (answered k first) hosts).0 r there blank
          encodes_too in
      (offered, offered_too, (r, there, is_t), (r2, there_too, is_u))
