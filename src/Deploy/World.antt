-- ===== src/Deploy/World.antt =====
-- What a deployment reads and writes: the target host, the rows of the database, and the events that
-- watchers get; and how each step of one run fares.
use nudo.Prelude.{ℕ, Bool, List, Option, Text, if◌then◌else◌, ◌==◌, text_eq}
use nudo.BootGuard.Dir.{Fault}
use nudo.Deploy.Status.{Status}
use nudo.Systemd.Service.{Service, GitSource}

-- The release directories and staging directories by release id, with the binary's contents; the
-- release that `current` names; and the release that the last restart started.
pub record Host : Type 0 where
  pub staged : Text → Option Text
  pub releases : Text → Option Text
  pub current : Option Text
  pub unit_file : Option Text
  pub env_file : Option Text
  pub enabled : Bool
  pub running : Option Text

-- A map with one key set or removed.
abbrev pub put : Text → Option Text → (Text → Option Text) → Text → Option Text
put id v m x = if x == id then v else m x

-- The steps of a deployment that can fail, in the order of the source; the steps of
-- `activate_release` begin with `back`.
pub data Step : Type 0 where
  find_deployment find_service find_target fetch connect prepare upload place : Step
  record_release bind_release resolve_secrets write_env chown_env write_unit : Step
  swap daemon_reload enable restart commit list_old : Step
  note_status note_error note_finish : Step
  back_deployment back_service back_target back_release back_connect : Step
  back_probe back_swap back_reload back_restart back_commit : Step

-- The points at which a deployment looks for a cancel.
pub data Check : Type 0 where
  before_fetch before_connect before_secrets before_activate before_health after_failure : Check

-- Why a deployment stops.
pub data Failure : Type 0 where
  step_failed : Step → Failure
  missing : Step → Failure
  deployment_cancelled no_artifact unhealthy first_release foreign_release not_on_target : Failure

pub record DeploymentRow : Type 0 where
  pub service_id : Text
  pub status : Status
  pub error : Option Failure
  pub release_id : Text
  pub git_sha : Text
  pub previous_release_id : Text
  pub cancel_requested : Bool
  pub finished_at : Option ℕ

pub record ReleaseRow : Type 0 where
  pub id : Text
  pub service_id : Text
  pub git_sha : Text
  pub git_ref : Text
  pub artifact_digest : Text
  pub artifact_bytes : ℕ
  pub path : Text
  pub pruned : Bool

pub data Event : Type 0 where
  status_event finished_event : Status → Event

-- The one deployment that is running, its service and the rows of its service's releases, newest
-- first.
pub record Db : Type 0 where
  pub deployment : Option DeploymentRow
  pub service : Option Service
  pub has_target : Bool
  pub releases : List ReleaseRow

pub record World : Type 0 where
  pub host : Host
  pub db : Db
  pub events : List Event

-- What a download gets, if the request went through.
pub record Response : Type 0 where
  pub is_success : Bool
  pub content_length : Option ℕ
  pub body : Option Text

pub record Artifact : Type 0 where
  pub bytes : Text
  pub git_sha : Text
  pub git_ref : Text

-- One run's surroundings: how each step fares and whether a service whose restart
-- reported a failure has come up all the same, where a client asks for a cancel and whether the flag
-- can be read there, what is fetched, and what is computed outside this crate.
pub record Env : Type 0 where
  pub fault : Step → Fault
  pub comes_up : Step → Bool
  pub cancels : Check → Bool
  pub readable : Check → Bool
  pub http_get : Text → Option Response
  pub read_file : Text → Option Text
  pub build : GitSource → Text → Option Artifact
  pub secrets : List Text → List (Text × Text)
  pub sha256_hex : Text → Text
  pub new_release_id : Text
  pub partial : Text
  pub probe : ℕ → Bool
  pub remove : Text → Fault
  pub mark : Text → Fault
  pub now : ℕ
