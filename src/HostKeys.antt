-- ===== src/HostKeys.antt =====
-- Trust on first use: what is pinned for a host, what a presented key means, and the calls that
-- change it. crates/server/src/ssh.rs, store/host_keys.rs, deploy.rs, deploy/releases.rs, and the host
-- key calls of api/targets.rs and api/build_hosts.rs. The key format of the crate `ssh_key` is a
-- parameter, and so is how a connection fares otherwise.
pub mod Store
pub mod Connect
pub mod Api
pub mod Ops
pub mod Pins
pub mod Trust
pub mod Sightings
pub mod Answered
pub mod Review
pub mod Race
use nudo.Prelude.{
  Bool, true, false, not, List, Option, none, some, Text, codes, if◌then◌else◌, is_empty, Result,
  ok, err,
}
use nudo.Text.Trim.{trim}

-- `ssh_key::PublicKey` and its key material: `from_openssh`, `key_data` with its equality,
-- `fingerprint(Sha256)`, and `PublicKey::new(data, "").to_openssh()`, which can fail.
pub record Format (K D : Type 0) : Type 0 where
  pub from_openssh : Text → Option K
  pub key_data : K → D
  pub same_data : D → D → Bool
  pub fingerprint : K → Text
  pub to_openssh : D → Option Text

pub data HostKeyOutcome : Type 0 where
  pinned : Text → Text → HostKeyOutcome
  matched : Text → HostKeyOutcome
  changed : Text → Text → Text → HostKeyOutcome

unfoldable pub host_key_is_pinned : Text → Bool
host_key_is_pinned raw = not (is_empty (trim raw))

module _ {K D : Type 0} (format : Format K D) where
  unfoldable pub parse_host_key : Text → Option K
  parse_host_key raw = if is_empty (trim raw) then none else format.from_openssh (trim raw)

  unfoldable pub judge : Text → Option K → K → Text → HostKeyOutcome
  judge expected (some known) presented openssh =
      if format.same_data (format.key_data known) (format.key_data presented)
      then matched (format.fingerprint presented)
      else changed (format.fingerprint known) openssh (format.fingerprint presented)
  judge expected none presented openssh =
      if host_key_is_pinned expected
      then changed (codes "<unparseable pinned key>") openssh (format.fingerprint presented)
      else pinned openssh (format.fingerprint presented)

  unfoldable pub judged : Text → K → Option Text → Option HostKeyOutcome
  unfolding judge
  judged expected presented none = none
  judged expected presented (some openssh) =
      some (judge expected (parse_host_key expected) presented openssh)

  -- `None` is the error of `to_openssh`.
  unfoldable pub verdict_for : Text → K → Option HostKeyOutcome
  unfolding judged
  verdict_for expected presented =
      judged expected presented (format.to_openssh (format.key_data presented))
