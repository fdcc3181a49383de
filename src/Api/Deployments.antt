-- ===== src/Api/Deployments.antt =====
-- `Deployments.Deploy` from its guard to the task that runs the deployment. Queries are taken to go
-- through; the writes of the audit log and of an idempotency key may fail, which the code only logs.
pub mod Laws
pub mod Retry
pub mod Kept
use nudo.Prelude.{
  ℕ, Bool, true, false, not, ◌&&◌, ◌||◌, List, [], ◌∷◌, ◌++◌, find, Option, none, some, Text,
  text_eq, ◌==◌, codes, if◌then◌else◌, is_empty, Result, ok, err, Table,
}
use nudo.Text.Trim.{trim}
use nudo.Deploy.Status.{Status, queued}
use nudo.Guardrail.{
  Actor, ActorKind, webhook, agent, Mutation, Guarded, Ledger, Authorized, not_found, internal,
  authorize_guarded, replayed, record_call,
}
use nudo.Guardrail.{Status as Refusal}

pub data DeployTrigger : Type 0 where
  manual by_webhook rollback api by_agent : DeployTrigger

unfoldable pub from_kind : ActorKind → DeployTrigger
from_kind webhook = by_webhook
from_kind agent = by_agent
from_kind _ = manual

unfoldable pub from_actor : Actor → DeployTrigger
unfolding from_kind
from_actor actor = from_kind actor.kind

pub record DeployOptions : Type 0 where
  pub git_ref : Text
  pub artifact_url : Text
  pub skip_health_check : Bool
  pub auto_rollback_on_failure : Bool

pub record ServiceRow : Type 0 where
  pub name : Text
  pub target_id : Text
  pub current_release_id : Text

pub record TargetRow : Type 0 where
  pub name : Text
  pub latency_critical : Bool

-- A row of `deployments` as it is queued. A dry run answers with one that has no id and is not stored.
pub record Deployment : Type 0 where
  pub id : Text
  pub service_id : Text
  pub status : Status
  pub actor : Actor
  pub previous_release_id : Text
  pub git_ref : Text
  pub trigger : Option DeployTrigger

-- What the call reads and writes; `started` are the tasks that were spawned, with their options.
pub record State : Type 0 where
  pub services : Table ServiceRow
  pub targets : Table TargetRow
  pub deployments : List Deployment
  pub ledger : Ledger
  pub started : List (Text × DeployOptions)

pub record DeployRequest : Type 0 where
  pub service_id : Text
  pub git_ref : Text
  pub artifact_url : Text
  pub skip_health_check : Bool
  pub auto_rollback_on_failure : Bool
  pub mutation : Option Mutation

-- The id of a new row, and whether the audit log and the keys can be written.
pub record Env : Type 0 where
  pub new_id : Text
  pub audit_writes : Bool
  pub key_writes : Bool

unfoldable pub get_deployment : Text → State → Option Deployment
get_deployment id s = find (λ d. d.id == id) s.deployments

abbrev pub summary_of : DeployRequest → ServiceRow → TargetRow → Text
summary_of r service target =
    codes "deployed "
    ++ (service.name
        ++ (codes " to "
            ++ (target.name
                ++ ((if is_empty (trim r.git_ref) then [] else codes " at " ++ trim r.git_ref)
                    ++ (if r.skip_health_check then codes " (health check skipped)" else [])))))

abbrev pub guarded : TargetRow → Guarded
guarded target = record {
  kind = codes "target";
  name = target.name;
  latency_critical = target.latency_critical;
}

abbrev pub planned : DeployRequest → ServiceRow → Authorized → Deployment
planned r service authorized = record {
  id = [];
  service_id = r.service_id;
  status = queued;
  actor = authorized.actor;
  previous_release_id = service.current_release_id;
  git_ref = [];
  trigger = none;
}

abbrev pub options_of : DeployRequest → DeployOptions
options_of r = record {
  git_ref = r.git_ref;
  artifact_url = r.artifact_url;
  skip_health_check = r.skip_health_check;
  auto_rollback_on_failure = r.auto_rollback_on_failure || not r.skip_health_check;
}

abbrev pub queued_row : Text → Text → Actor → Text → Text → Deployment
queued_row id service_id actor previous git_ref = record {
  id = id;
  service_id = service_id;
  status = queued;
  actor = actor;
  previous_release_id = previous;
  git_ref = trim git_ref;
  trigger = some (from_actor actor);
}

-- `start_deploy`, which queues the row and spawns the task.
unfoldable pub start_deploy : Text → DeployRequest → Actor → ServiceRow → State → State × Deployment
unfolding from_actor
start_deploy new_id r actor service s =
    let row = queued_row new_id r.service_id actor service.current_release_id r.git_ref in
    (
      record s {
        deployments = s.deployments ++ (row ∷ []);
        started = s.started ++ ((new_id, options_of r) ∷ []);
      },
      row,
    )

abbrev pub recorded : Option Deployment → Result Refusal Deployment
recorded none = err (internal (codes "the recorded deployment is gone"))
recorded (some d) = ok d

unfoldable pub perform :
    Env
    → DeployRequest
    → ServiceRow
    → Authorized
    → Option Text
    → State
    → State × Result Refusal Deployment
unfolding start_deploy get_deployment
perform env r service authorized (some existing) s = (s, recorded (get_deployment existing s))
perform env r service authorized none s =
    if authorized.dry_run
    then (s, ok (planned r service authorized))
    else (let (after, row) = start_deploy env.new_id r authorized.actor service s in
        (
          record after {
            ledger = record_call env.key_writes authorized (codes "Deploy") row.id after.ledger;
          },
          ok row,
        ))

unfoldable pub deploy_authorized :
    Env
    → DeployRequest
    → ServiceRow
    → Result Refusal Authorized
    → State
    → State × Result Refusal Deployment
unfolding perform
deploy_authorized env r service (err refusal) s = (s, err refusal)
deploy_authorized env r service (ok authorized) s =
    perform env r service authorized (replayed authorized (codes "Deploy") s.ledger) s

unfoldable pub deploy_to :
    Env → DeployRequest → ServiceRow → Option TargetRow → State → State × Result Refusal Deployment
unfolding deploy_authorized
deploy_to env r service none s =
    (s, err (not_found (codes "no such target: " ++ service.target_id)))
deploy_to env r service (some target) s =
    let (ledger, verdict) =
      authorize_guarded env.audit_writes r.mutation (codes "Deployments.Deploy") r.service_id
        (some (guarded target)) (summary_of r service target) s.ledger in
    deploy_authorized env r service verdict (record s { ledger = ledger })

unfoldable pub deploy_service :
    Env → DeployRequest → Option ServiceRow → State → State × Result Refusal Deployment
unfolding deploy_to
deploy_service env r none s = (s, err (not_found (codes "no such service: " ++ r.service_id)))
deploy_service env r (some service) s = deploy_to env r service (s.targets service.target_id) s

unfoldable pub deploy : Env → DeployRequest → State → State × Result Refusal Deployment
unfolding deploy_service
deploy env r s = deploy_service env r (s.services r.service_id) s
