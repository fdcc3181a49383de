-- ===== src/HostKeys/Sightings.antt =====
-- A key that is seen while it is not the pinned one.
use nudo.Prelude.{
  ℕ, ◌≡◌, ◌≢◌, refl, ap, true, List, [], ◌∷◌, some, Text, text_eq, ==_refl, ==_of_ne, arith,
}
use nudo.HostKeys.Store.{
  SshHost, target, build_host, HostRow, Hosts, update_row, update_host, same_host,
  record_pending_host_key, first_seen,
}

same_host_refl : (h : SshHost) → same_host h h ≡ true
unfolding same_host
same_host_refl target = refl
same_host_refl build_host = refl

-- An update of the row that is there.
pub update_host_here :
    (f : HostRow → HostRow) (kind : SshHost) (id : Text) (hosts : Hosts) (row : HostRow)
    → hosts kind id ≡ some row
    → update_host f kind id hosts kind id ≡ some (f row)
unfolding update_host
update_host_here f kind id hosts row e =
    simp (same_host_refl kind, ==_refl id) (ap (update_row f) e)

-- The same key seen again and again.
unfoldable pub sightings : SshHost → Text → Text → Text → List ℕ → Hosts → Hosts
sightings kind id key fingerprint [] hosts = hosts
sightings kind id key fingerprint (t ∷ ts) hosts =
    sightings kind id key fingerprint ts (record_pending_host_key kind id key fingerprint t hosts)

sightings-keeps :
    (kind : SshHost) (id key fingerprint : Text) (first : ℕ) (ts : List ℕ) (hosts : Hosts)
    → (row : HostRow) → hosts kind id ≡ some row
    → row.pending_host_key ≡ key
    → row.pending_host_key_seen_at ≡ some first
    → (after : HostRow) × (sightings kind id key fingerprint ts hosts kind id ≡ some after)
      × (after.pending_host_key ≡ key)
      × (after.pending_host_key_seen_at ≡ some first)
      × (after.host_key ≡ row.host_key)
unfolding sightings record_pending_host_key first_seen
sightings-keeps kind id key fingerprint first [] hosts row e k s = (row, e, k, s, refl)
sightings-keeps kind id key fingerprint first (t ∷ ts) hosts row e k s =
    sightings-keeps kind id key fingerprint first ts _ _ (update_host_here _ kind id hosts row e)
      refl (ap some (ground (arith, k, s, ==_refl key)))

-- A changed key that waits for review keeps the time at which it was first seen, however often it is
-- seen again, and the pinned key stays as it was.
pub sightings-first_seen :
    (kind : SshHost) (id key fingerprint : Text) (first : ℕ) (ts : List ℕ) (hosts : Hosts)
    → (row : HostRow) → hosts kind id ≡ some row
    → row.pending_host_key ≢ key
    → (after : HostRow) × (sightings kind id key fingerprint (first ∷ ts) hosts kind id
        ≡ some after)
      × (after.pending_host_key ≡ key)
      × (after.pending_host_key_seen_at ≡ some first)
      × (after.host_key ≡ row.host_key)
unfolding sightings record_pending_host_key first_seen
sightings-first_seen kind id key fingerprint first ts hosts row e other =
    sightings-keeps kind id key fingerprint first ts _ _ (update_host_here _ kind id hosts row e)
      refl (simp (==_of_ne row.pending_host_key key other) refl)
