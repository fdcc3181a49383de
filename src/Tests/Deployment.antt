-- ===== src/Tests/Deployment.antt =====
-- A first deployment, one that fails its health check and is rolled back, and one that is cancelled.
use nudo.Prelude.{
  ◌≡◌, refl, ◌≢◌, true, false, [], ◌∷◌, Option, none, some, Text, codes, arith, text_beq, Elem,
}
use nudo.BootGuard.Dir.{fine, early}
use nudo.Systemd.Service.{Service}
use nudo.Deploy.Status.{
  queued, uploading, activating, health_checking, succeeded, rolled_back, cancelled, failed,
  is_terminal,
}
use nudo.Deploy.World.{
  World, Host, Db, Env, Event, status_event, finished_event, DeploymentRow, ReleaseRow, Failure,
  step_failed, Response, Step, Check,
}
use nudo.Deploy.World as World
use nudo.Deploy.Artifact.{DeployOptions}
use nudo.Deploy.Rows.{cancel_requested}
use nudo.Deploy.Releases.Live.{IsLive, Serves, IsRestored}
use nudo.Deploy.Execution.{try_deploy, run_deploy}
use nudo.Deploy.Execution.Switch.{IsChecked}
use nudo.Deploy.Verdict.{run_deploy-IsLive}
use nudo.Deploy.Verdict.Quiet.{run_deploy-unannounced}
use nudo.Deploy.Verdict.Meaning.{run_deploy-succeeded, run_deploy-rolled_back, run_deploy-cancelled}
use nudo.Deploy.Verdict.Events.{IsOver, run_deploy-IsOver}

abbrev pub old : Text
old = codes "rel_1"

abbrev pub fresh : Text
fresh = codes "rel_2"

abbrev pub service : Service
service = record {
  id = codes "svc";
  target_id = codes "tgt";
  name = codes "bot";
  release_root = codes "/opt/bot";
  unit = none;
  env = [];
  secret_ids = [];
  artifact = none;
  health_check = none;
  keep_releases = 2;
  current_release_id = old;
}

abbrev row : DeploymentRow
row = record {
  service_id = codes "svc";
  status = queued;
  error = none;
  release_id = [];
  git_sha = [];
  previous_release_id = old;
  cancel_requested = false;
  finished_at = none;
}

abbrev pub old_release : ReleaseRow
old_release = record {
  id = old;
  service_id = codes "svc";
  git_sha = [];
  git_ref = [];
  artifact_digest = [];
  artifact_bytes = 1;
  path = [];
  pruned = false;
}

abbrev old_files : Text → Option Text
old_files x = elim (text_beq x old) [ true ↦ some (codes "v1") | false ↦ none ]

abbrev pub start : World
start = record {
  host = record {
    staged = λ x. none;
    releases = old_files;
    current = some old;
    unit_file = none;
    env_file = none;
    enabled = true;
    running = some old;
  };
  db = record {
    deployment = some row;
    service = some service;
    has_target = true;
    releases = old_release ∷ [];
  };
  events = [];
}

abbrev pub smooth : Env
smooth = record {
  fault = λ s. fine;
  comes_up = λ s. false;
  cancels = λ c. false;
  readable = λ c. true;
  http_get = λ url. none;
  read_file = λ path. some (codes "v2");
  build = λ s r. none;
  secrets = λ ids. [];
  sha256_hex = λ b. [];
  new_release_id = fresh;
  partial = [];
  probe = λ n. true;
  remove = λ id. fine;
  mark = λ id. fine;
  now = 7;
}

abbrev sick : Env
sick = record smooth { probe = λ n. false }

abbrev stopped_early : Env
stopped_early = record smooth { cancels = λ c. true }

abbrev options : DeployOptions
options = record {
  artifact_url = [];
  uploaded_artifact = some (codes "/tmp/bot");
  git_ref = [];
  skip_health_check = false;
  auto_rollback_on_failure = true;
}

abbrev manual : DeployOptions
manual = record options { auto_rollback_on_failure = false }

fresh-≢ : some old ≢ some fresh
fresh-≢ = λ e. ground (arith, e)

old_is_there : old_files old ≡ some (codes "v1")
unfolding text_beq
old_is_there = refl

run_deploy-IsLive_example : IsLive (run_deploy sick options start)
run_deploy-IsLive_example = run_deploy-IsLive sick options start (codes "v1", old_is_there) fresh-≢

-- The binary cannot be moved into place.
abbrev broken : Env
broken = record smooth { fault = λ s. elim s [ World.place ↦ early | _ ↦ fine ] }

-- What the four runs show.
runs :
    ((run_deploy smooth options start).events
      ≡ finished_event succeeded
        ∷ status_event health_checking
        ∷ status_event activating
        ∷ status_event uploading
        ∷ [])
    × ((run_deploy sick options start).events
        ≡ finished_event rolled_back
          ∷ status_event health_checking
          ∷ status_event activating
          ∷ status_event uploading
          ∷ [])
    × ((run_deploy stopped_early options start).events ≡ finished_event cancelled ∷ [])
    × ((run_deploy broken manual start).events
        ≡ finished_event failed ∷ status_event uploading ∷ [])
unfolding run_deploy nudo.Deploy.Execution.conclude try_deploy nudo.Deploy.Action.◌>>=◌
    nudo.Deploy.Action.look text_beq nudo.Deploy.Lifecycle.check_cancelled
    nudo.Deploy.Action.require nudo.Deploy.Lifecycle.sees_cancel cancel_requested
    nudo.Deploy.Artifact.obtain_artifact nudo.Text.Trim.trim nudo.Deploy.Execution.ship
    nudo.Deploy.Lifecycle.transition nudo.Deploy.Action.ignore nudo.Deploy.Action.perform
    nudo.Deploy.Execution.configure nudo.Deploy.Action.when nudo.Deploy.Execution.activate
    nudo.Deploy.Execution.commit_release nudo.Deploy.Execution.try_rollback
    nudo.Deploy.Execution.verify nudo.Deploy.Health.evaluate nudo.Deploy.Health.from_proto
    nudo.Deploy.Health.try_from nudo.Deploy.Lifecycle.finish nudo.Deploy.Releases.activate_release
    nudo.Deploy.Releases.make_live nudo.Deploy.Releases.prune_all
    nudo.Deploy.Releases.prune_releases nudo.Deploy.Releases.rollback_after_failure
    nudo.Deploy.Releases.systemctl_restart nudo.Deploy.Rows.create_release
    nudo.Deploy.Rows.get_release nudo.Deploy.Rows.list_releases nudo.Deploy.Rows.mark_release_pruned
    nudo.Deploy.Rows.request_cancel nudo.Deploy.Rows.set_current_release
    nudo.Deploy.Rows.set_deployment_error nudo.Deploy.Rows.set_deployment_release
    nudo.Deploy.Rows.set_deployment_status is_terminal nudo.Systemd.Retention.releases_to_prune
    nudo.Text.Trim.is_whitespace nudo.Text.Trim.trim_end_matches nudo.Text.Trim.trim_start_matches
runs = (refl, refl, refl, refl)

run_deploy-succeeded_example :
    Serves fresh (run_deploy smooth options start)
    × IsChecked smooth false (run_deploy smooth options start)
run_deploy-succeeded_example = run_deploy-succeeded smooth options start runs.0

run_deploy-rolled_back_example : IsRestored (run_deploy sick options start) × (true ≡ true)
run_deploy-rolled_back_example =
    run_deploy-rolled_back sick options start (codes "v1", old_is_there) fresh-≢ runs.1

run_deploy-cancelled_example : cancel_requested (run_deploy stopped_early options start).db ≡ true
run_deploy-cancelled_example = run_deploy-cancelled stopped_early options start runs.2

run_deploy-IsOver_example : IsOver (run_deploy smooth options start)
run_deploy-IsOver_example = run_deploy-IsOver smooth options start tt

quiet : ¬ Elem (status_event activating) (run_deploy broken manual start).events
quiet = λ m. absurd (ground (arith, runs.3, m))

run_deploy-unannounced_example :
    ((run_deploy broken manual start).host.current ≡ some old)
    × ((run_deploy broken manual start).host.running ≡ some old)
run_deploy-unannounced_example =
    run_deploy-unannounced broken manual start failed (status_event uploading ∷ []) refl runs.3
      (λ e. ground (arith, e)) quiet
