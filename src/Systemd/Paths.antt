-- ===== src/Systemd/Paths.antt =====
-- `ReleasePaths`: every path of a service hangs under one root.
pub mod Laws
use nudo.Prelude.{ℕ, Bool, List, [], ◌∷◌, ◌++◌, Text, codes, if◌then◌else◌, is_empty, nat_eq}
use nudo.Text.Trim.{trim, trim_end_matches}

pub record ReleasePaths : Type 0 where
  pub root : Text

abbrev pub is_slash : ℕ → Bool
is_slash = nat_eq b'/'

root_of : Text → Text
root_of trimmed = if is_empty trimmed then codes "/" else trimmed

unfoldable pub new : Text → ReleasePaths
unfolding root_of
new release_root = record { root = root_of (trim_end_matches is_slash (trim release_root)) }

module _ (paths : ReleasePaths) where
  unfoldable pub releases_dir : Text
  releases_dir = paths.root ++ codes "/releases"

  unfoldable pub release_dir : Text → Text
  release_dir release_id = paths.root ++ (codes "/releases/" ++ release_id)

  unfoldable pub current_link : Text
  current_link = paths.root ++ codes "/current"

  unfoldable pub release_binary : Text → Text → Text
  release_binary release_id binary_name = release_dir release_id ++ b'/' ∷ binary_name

  unfoldable pub current_binary : Text → Text
  current_binary binary_name = current_link ++ b'/' ∷ binary_name

  unfoldable pub env_file : Text
  env_file = paths.root ++ codes "/env"

  unfoldable pub staging_dir : Text → Text
  staging_dir release_id = paths.root ++ (codes "/.staging-" ++ release_id)

abbrev pub binary_name : Text
binary_name = codes "bin"
