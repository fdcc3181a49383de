-- ===== src/Deploy/Execution.antt =====
-- crates/server/src/deploy/execution.rs: a deployment from its row to its verdict. The reload of the
-- proxy's routes behind the commit touches nothing that is kept here and never fails the deployment;
-- it is left out.
pub mod Phases
pub mod Ending
pub mod Keeps
pub mod Switch
pub mod Fetch
pub mod Commit
use nudo.Prelude.{
  ℕ, Bool, true, false, not, ◌&&◌, List, [], ◌∷◌, Option, none, some, Text, if◌then◌else◌, is_empty,
  length, Result, ok, err,
}
use nudo.Text.Trim.{trim}
use nudo.Systemd.Service.{Service, unit_of}
use nudo.Systemd.Paths.{ReleasePaths, new, release_dir}
use nudo.Systemd.Escape.{render_env_file}
use nudo.Systemd.Unit.{render_unit}
use nudo.Deploy.Status.{
  Status, uploading, activating, health_checking, succeeded, failed, rolled_back, cancelled,
}
use nudo.Deploy.World.{
  World, Host, Db, Env, Artifact, DeploymentRow, ReleaseRow, Failure, put, unhealthy,
  find_deployment, find_service, find_target, connect, prepare, upload, place, record_release,
  bind_release, resolve_secrets, write_env, chown_env, write_unit, swap, daemon_reload, enable,
  commit, note_error, before_fetch, before_connect, before_secrets, before_activate, before_health,
  after_failure,
}
use nudo.Deploy.World as World
use nudo.Deploy.Health.{evaluate, HealthOutcome}
use nudo.Deploy.Health as Health
use nudo.Deploy.Rows.{
  create_release, set_deployment_release, set_current_release, set_deployment_error,
}
use nudo.Deploy.Lifecycle.{check_cancelled, transition, finish, arrive, sees_cancel}
use nudo.Deploy.Artifact.{DeployOptions, obtain_artifact}
use nudo.Deploy.Releases.{
  service_row, target_row, deployment_row, link_to, systemctl_restart, prune_releases,
  rollback_after_failure,
}
use nudo.Deploy.Action.{
  Action, pure, bail, ◌>>=◌, ◌>>◌, modify, gets, perform, look, on_host, on_db, ignore, when,
  require,
}

-- `mkdir -p`: an empty staging directory has no binary.
abbrev pub clear_staging : Text → Host → Host
clear_staging id h = record h { staged = put id none h.staged }

abbrev pub stage : Text → Text → Host → Host
stage id bytes h = record h { staged = put id (some bytes) h.staged }

-- `rm -rf` of the release's directory and the rename of the staging directory to it.
abbrev pub move_into_place : Text → Host → Host
move_into_place id h = record h {
  releases = put id (h.staged id) h.releases;
  staged = put id none h.staged;
}

abbrev pub release_of : Env → Service → Artifact → ReleaseRow
release_of env service artifact = record {
  id = env.new_release_id;
  service_id = service.id;
  git_sha = artifact.git_sha;
  git_ref = artifact.git_ref;
  artifact_digest = env.sha256_hex artifact.bytes;
  artifact_bytes = length artifact.bytes;
  path = release_dir (new service.release_root) env.new_release_id;
  pruned = false;
}

-- Staging, upload, and the release's row.
unfoldable pub ship : Env → Service → Artifact → Action (Unit {0})
ship env service artifact = do
  let id = env.new_release_id
  check_cancelled env before_connect
  transition env uploading
  perform env connect (λ w. w)
  perform env prepare (on_host (clear_staging id))
  -- an upload that fails leaves part of the file
  modify (on_host (stage id env.partial))
  perform env upload (on_host (stage id artifact.bytes))
  perform env place (on_host (move_into_place id))
  perform env record_release (on_db (create_release (release_of env service artifact) id))
  perform env bind_release (on_db (set_deployment_release id artifact.git_sha))

-- The environment file, if the service has secrets, and the unit.
abbrev pub write_secrets : Env → Service → Action (Unit {0})
write_secrets env service = do
  perform env resolve_secrets (λ w. w)
  perform env write_env
      (on_host λ h. record h { env_file = some (render_env_file (env.secrets service.secret_ids)) })
  when (not (is_empty (trim (unit_of service.unit).user))) (perform env chown_env λ w. w)

unfoldable pub configure : Env → Service → Action (Unit {0})
configure env service = do
  check_cancelled env before_secrets
  when (not (is_empty service.secret_ids)) (write_secrets env service)
  perform env write_unit (on_host λ h. record h { unit_file = some (render_unit service) })

unfoldable pub activate : Env → Action (Unit {0})
activate env = do
  check_cancelled env before_activate
  transition env activating
  perform env swap (on_host (link_to env.new_release_id))
  perform env daemon_reload (λ w. w)
  perform env enable (on_host λ h. record h { enabled = true })
  systemctl_restart env World.restart

abbrev pub is_healthy : HealthOutcome → Bool
is_healthy Health.healthy = true
is_healthy (Health.unhealthy _) = false

unfoldable pub verify : Env → Service → Bool → Action (Unit {0})
verify env service skip = when (not skip) do
  check_cancelled env before_health
  transition env health_checking
  require (is_healthy (evaluate env.probe service.health_check)) unhealthy

unfoldable pub commit_release : Env → Service → Action (Unit {0})
commit_release env service = do
  perform env commit (on_db (set_current_release service.id env.new_release_id))
  ignore (prune_releases env service env.new_release_id)

unfoldable pub try_deploy : Env → DeployOptions → Action (Unit {0})
try_deploy env options = do
  deployment ← look env find_deployment deployment_row
  service ← look env find_service (service_row deployment.service_id)
  look env find_target target_row
  check_cancelled env before_fetch
  artifact ← obtain_artifact env service options
  ship env service artifact
  configure env service
  activate env
  verify env service options.skip_health_check
  commit_release env service
  finish env succeeded

-- The verdict on a deployment that was not cancelled and failed: whether the rollback worked.
unfoldable pub try_rollback : Env → World → World
try_rollback env w =
    let (w', r) = rollback_after_failure env w in
    elim r [ ok _ ↦ (finish env rolled_back w').0 | err _ ↦ (finish env failed w').0 ]

abbrev pub record_failure : Env → Failure → World → World
record_failure env failure w =
    arrive env after_failure
      (ignore (perform env note_error (on_db (set_deployment_error failure))) w).0

unfoldable pub conclude : Env → DeployOptions → World × Result Failure (Unit {0}) → World
conclude env options (w, ok _) = w
conclude env options (w, err failure) =
    let w' = record_failure env failure w in
    if sees_cancel env after_failure w'
    then (finish env cancelled w').0
    else if options.auto_rollback_on_failure
    then try_rollback env w'
    else (finish env failed w').0

unfoldable pub run_deploy : Env → DeployOptions → World → World
run_deploy env options w = conclude env options (try_deploy env options w)
