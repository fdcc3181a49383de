-- ===== src/Deploy/Recall.antt =====
-- `Deployments.Rollback` of crates/server/src/api/deployments.rs, from the choice of the release to the end
-- of the task that it spawns. Its service and target have been found; whether it is authorized, and
-- then as a dry run, is a parameter.
pub mod Laws
use nudo.Prelude.{Bool, true, false, Option, none, some, Text, [], Result, ok, err}
use nudo.BootGuard.Dir.{Fault, fine, early, late}
use nudo.Systemd.Service.{Service}
use nudo.Systemd.Retention.{RollbackError, rollback_target}
use nudo.Deploy.Status.{Status, queued, activating, succeeded, failed}
use nudo.Deploy.World.{World, Db, Env, DeploymentRow, Failure, note_error}
use nudo.Deploy.Rows.{set_deployment_release, set_deployment_status, set_deployment_error}
use nudo.Deploy.Action.{on_db, perform, ignore}
use nudo.Deploy.Lifecycle.{finish}
use nudo.Deploy.Releases.{release_ids, activate_release}

-- How the three statements on the new row fare.
pub record Writes : Type 0 where
  pub creates : Fault
  pub binds : Fault
  pub notes : Fault

pub data Answer : Type 0 where
  precondition : RollbackError → Answer
  denied broken : Answer
  planned started : Text → Answer

-- `create_deployment`.
abbrev pub opened : Service → Db → Db
opened service db = record db {
  deployment = some (record {
    service_id = service.id;
    status = queued;
    error = none;
    release_id = [];
    git_sha = [];
    previous_release_id = service.current_release_id;
    cancel_requested = false;
    finished_at = none;
  });
}

-- The task: it ends with a verdict whatever the activation does.
unfoldable pub settled : Env → World × Result Failure (Unit {0}) → World
settled env (w, ok _) = (finish env succeeded w).0
settled env (w, err failure) =
    (finish env failed
      (ignore (perform env note_error (on_db (set_deployment_error failure))) w).0).0

unfoldable pub roll_to : Env → Text → Text → World → World
unfolding settled
roll_to env service_id release_id w = settled env (activate_release env service_id release_id w)

abbrev pub noted : Env → Fault → Service → Text → World → World × Answer
noted env fine service chosen w = (
  roll_to env service.id chosen (on_db (set_deployment_status activating env.now) w),
  started chosen,
)
noted env early service chosen w = (w, broken)
noted env late service chosen w = (on_db (set_deployment_status activating env.now) w, broken)

abbrev pub bound : Env → Writes → Fault → Service → Text → World → World × Answer
bound env writes fine service chosen w =
    noted env writes.notes service chosen (on_db (set_deployment_release chosen []) w)
bound env writes early service chosen w = (w, broken)
bound env writes late service chosen w = (on_db (set_deployment_release chosen []) w, broken)

abbrev pub created : Env → Writes → Fault → Service → Text → World → World × Answer
created env writes fine service chosen w =
    bound env writes writes.binds service chosen (on_db (opened service) w)
created env writes early service chosen w = (w, broken)
created env writes late service chosen w = (on_db (opened service) w, broken)

-- `authorized` is `None` for a refusal, and else whether this is a dry run.
unfoldable pub authorized_to : Env → Writes → Option Bool → Service → Text → World → World × Answer
authorized_to env writes none service chosen w = (w, denied)
authorized_to env writes (some true) service chosen w = (w, planned chosen)
authorized_to env writes (some false) service chosen w =
    created env writes writes.creates service chosen w

unfoldable pub chosen_by :
    Env → Writes → Option Bool → Service → Result RollbackError Text → World → World × Answer
unfolding authorized_to
chosen_by env writes authorized service (err e) w = (w, precondition e)
chosen_by env writes authorized service (ok chosen) w =
    authorized_to env writes authorized service chosen w

unfoldable pub rollback : Env → Writes → Option Bool → Text → Service → World → World × Answer
unfolding chosen_by
rollback env writes authorized requested service w =
    chosen_by env writes authorized service
      (rollback_target (release_ids service.id w) service.current_release_id requested) w
