-- ===== src/HostKeys/Connect.antt =====
-- A connection to a host, and what the engine writes back of its key: `SshSession::connect` and its
-- handler of crates/server/src/ssh.rs, `SshHostRef` of deploy.rs, `connect`, `connect_prepared` and
-- `record_host_key` of deploy/releases.rs.
use nudo.Prelude.{
  ℕ, Bool, true, false, ◌&&◌, [], Option, none, some, Text, if◌then◌else◌, Result, ok, err,
}
use nudo.HostKeys.{Format, HostKeyOutcome, pinned, matched, changed, verdict_for}
use nudo.HostKeys.Store.{
  SshHost, HostRow, Hosts, pin_host_key, record_pending_host_key, clear_pending_host_key,
  row_to_host_key,
}

-- How one connection fares: whether its details and the private key can be read, whether it is in
-- time, the key that the host presents if the handshake comes to the check, whether the handshake
-- succeeds if the check does not stop it, and whether the host takes the private key. `writes` is
-- whether the database takes the outcome.
pub record Attempt (K : Type 0) : Type 0 where
  pub prepares : Bool
  pub key_decodes : Bool
  pub in_time : Bool
  pub presented : Option K
  pub connects : Bool
  pub authenticates : Bool
  pub writes : Bool
  pub now : ℕ

pub data ConnectError : Type 0 where
  host_key_changed : Text → Text → Text → ConnectError
  connect_failed : ConnectError

-- A host as a caller has read it: the pinned key may have changed since.
pub record SshHostRef : Type 0 where
  pub kind : SshHost
  pub id : Text
  pub pinned_key : Text

unfoldable pub pinned_key : Option HostRow → Text
pinned_key none = []
pinned_key (some key) = key.host_key

unfoldable pub host_ref : SshHost → Text → HostRow → SshHostRef
unfolding pinned_key
host_ref kind id row = record {
  kind = kind;
  id = id;
  pinned_key = pinned_key (row_to_host_key row);
}

module _ {K D : Type 0} (format : Format K D) where
  unfoldable pub verdict_on : Text → Option K → Option HostKeyOutcome
  verdict_on expected none = none
  verdict_on expected (some presented) = verdict_for format expected presented

-- Whether the check lets the handshake go on, when it ran.
unfoldable pub accepts : {K : Type 0} → Option K → Option HostKeyOutcome → Bool
accepts none verdict = true
accepts (some presented) none = false
accepts (some presented) (some (changed _ _ _)) = false
accepts (some presented) (some _) = true

-- Whether the private key was offered to the host, and what the connection came to.
unfoldable pub authenticate :
    {K : Type 0} → Attempt K → Option HostKeyOutcome → Bool × Result ConnectError HostKeyOutcome
authenticate a none = (false, err connect_failed)
authenticate a (some verdict) = (true, if a.authenticates then ok verdict else err connect_failed)

unfoldable pub shake :
    {K : Type 0} → Attempt K → Option HostKeyOutcome → Bool × Result ConnectError HostKeyOutcome
unfolding accepts authenticate
shake a (some (changed expected key fingerprint)) =
    (false, err (host_key_changed expected key fingerprint))
shake a verdict =
    if a.connects && accepts a.presented verdict
    then authenticate a verdict
    else (false, err connect_failed)

-- `record_host_key`
unfoldable pub record_host_key : SshHostRef → HostKeyOutcome → ℕ → Hosts → Hosts
record_host_key host (pinned key fingerprint) now =
    pin_host_key host.kind host.id key fingerprint now
record_host_key host (matched _) now = clear_pending_host_key host.kind host.id
record_host_key host (changed _ _ _) now = λ hosts. hosts

unfoldable pub write_back : SshHostRef → Result ConnectError HostKeyOutcome → ℕ → Hosts → Hosts
unfolding record_host_key
write_back host (ok outcome) now hosts = record_host_key host outcome now hosts
write_back host (err (host_key_changed _ key fingerprint)) now hosts =
    record_pending_host_key host.kind host.id key fingerprint now hosts
write_back host (err connect_failed) now hosts = hosts

module _ {K D : Type 0} (format : Format K D) where
  -- `SshSession::connect`
  unfoldable pub ssh_connect : Text → Attempt K → Bool × Result ConnectError HostKeyOutcome
  unfolding verdict_on shake
  ssh_connect expected a =
      if a.key_decodes && a.in_time
      then shake a (verdict_on format expected a.presented)
      else (false, err connect_failed)

  unfoldable pub connect_prepared :
      SshHostRef → Attempt K → Hosts → Hosts × Bool × Result ConnectError HostKeyOutcome
  unfolding ssh_connect write_back
  connect_prepared host a hosts =
      let (offered, result) = ssh_connect host.pinned_key a in
      (if a.writes then write_back host result a.now hosts else hosts, offered, result)

  -- `connect`, which reads the private key first.
  unfoldable pub connect :
      SshHostRef → Attempt K → Hosts → Hosts × Bool × Result ConnectError HostKeyOutcome
  unfolding connect_prepared
  connect host a hosts =
      if a.prepares then connect_prepared host a hosts else (hosts, false, err connect_failed)
