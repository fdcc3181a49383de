-- ===== src/Deploy/Artifact.antt =====
-- crates/server/src/deploy/artifact.rs: which artifact a deployment ships, and the download.
use nudo.Prelude.{
  ℕ, Bool, false, not, ◌&&◌, ◌||◌, ◌+◌, ◌*◌, [], ◌∷◌, map, Option, none, some, Text, codes,
  if◌then◌else◌, is_empty, ltb, leb, ◌==◌, text_eq,
}
use nudo.Text.Trim.{trim, starts_with}
use nudo.Systemd.Service.{Service, ArtifactSource, from_url, from_git, direct_upload}
use nudo.Deploy.Status.{building}
use nudo.Deploy.World.{Env, Artifact, Response, fetch, no_artifact, step_failed}
use nudo.Deploy.Action.{Action, pure, bail, ◌>>◌}
use nudo.Deploy.Lifecycle.{transition}

pub record DeployOptions : Type 0 where
  pub artifact_url : Text
  pub uploaded_artifact : Option Text
  pub git_ref : Text
  pub skip_health_check : Bool
  pub auto_rollback_on_failure : Bool

-- `crate::git::MAX_ARTIFACT_BYTES`
abbrev pub max_artifact_bytes : ℕ
max_artifact_bytes = 2 * 1024 * 1024 * 1024

-- `url.split("://").next()`
unfoldable pub before_separator : Text → Text
before_separator [] = []
before_separator (c ∷ s) =
    let rest = before_separator s in if starts_with (codes "://") (c ∷ s) then [] else c ∷ rest

-- Lower case, for the letters that the two schemes have.
abbrev pub to_lowercase : ℕ → ℕ
to_lowercase c = if leb b'A' c && leb c b'Z' then c + 32 else c

unfoldable pub is_http : Text → Bool
is_http url =
    let scheme = map to_lowercase (before_separator url) in
    scheme == codes "http" || scheme == codes "https"

abbrev is_too_long : Option ℕ → Bool
is_too_long none = false
is_too_long (some n) = ltb max_artifact_bytes n

abbrev nonempty_body : Option Text → Option Artifact
nonempty_body none = none
nonempty_body (some bytes) =
    if is_empty bytes then none else some (record { bytes = bytes; git_sha = []; git_ref = [] })

abbrev accepted : Option Response → Option Artifact
accepted none = none
accepted (some r) =
    if r.is_success && not (is_too_long r.content_length) then nonempty_body r.body else none

unfoldable pub download_artifact : Env → Text → Option Artifact
download_artifact env url = if is_http url then accepted (env.http_get url) else none

abbrev pub uploaded : Option Text → Option Artifact
uploaded none = none
uploaded (some bytes) = some (record { bytes = bytes; git_sha = []; git_ref = [] })

abbrev pub fetched : Option Artifact → Action Artifact
fetched none = bail (step_failed fetch)
fetched (some a) = pure a

unfoldable pub artifact_of_service : Env → Option ArtifactSource → Text → Action Artifact
artifact_of_service env (some (from_url url)) git_ref =
    if not (is_empty (trim url))
    then fetched (download_artifact env (trim url))
    else bail no_artifact
artifact_of_service env (some (from_git source)) git_ref = do
  transition env building
  fetched (env.build source git_ref)
artifact_of_service env (some (direct_upload _)) git_ref = bail no_artifact
artifact_of_service env none git_ref = bail no_artifact

-- The request's address first, then its uploaded file, then what the service is configured with.
unfoldable pub obtain_artifact : Env → Service → DeployOptions → Action Artifact
obtain_artifact env service options =
    if not (is_empty (trim options.artifact_url))
    then fetched (download_artifact env (trim options.artifact_url))
    else elim options.uploaded_artifact [
      | some path ↦ fetched (uploaded (env.read_file path))
      | none ↦ artifact_of_service env service.artifact options.git_ref
    ]
