-- ===== src/Tests/Deploying.antt =====
-- Calls that deploy, and lists that are read in pages.
use nudo.Prelude.{
  ◌≡◌, refl, ◌⊎◌, true, false, List, [], ◌∷◌, ◌++◌, none, some, Text, codes, text_eq, text_beq,
  ◌==◌, if◌then◌else◌, ok, arith,
}
use nudo.Text.Trim.{trim, trim_start_matches, trim_end_matches, is_whitespace}
use nudo.Guardrail.{
  Mutation, authorize_guarded, decide, guards, audit, replayed, check_idempotency, record_call,
  record_idempotency,
}
use nudo.Api.Deployments.{
  ServiceRow, TargetRow, Deployment, State, DeployRequest, Env, options_of, deploy, deploy_service,
  deploy_to, deploy_authorized, perform, start_deploy,
}
use nudo.Api.Deployments.Laws.{IsStarted, deploy-IsStarted}
use nudo.Api.Deployments.Kept.{calls, deploy-deploy}
use nudo.Api.Pages.{page_size, walk}
use nudo.Api.Pages.Walk.{walk-rows}

abbrev service : ServiceRow
service = record {
  name = codes "bot";
  target_id = codes "tgt_1";
  current_release_id = codes "rel_1";
}

abbrev target : TargetRow
target = record { name = codes "box"; latency_critical = false }

abbrev before : State
before = record {
  services = λ id. if id == codes "svc_1" then some service else none;
  targets = λ id. if id == codes "tgt_1" then some target else none;
  deployments = [];
  ledger = record { audit_entries = []; idempotency_keys = [] };
  started = [];
}

abbrev mutation : Mutation
mutation = record {
  actor = none;
  dry_run = false;
  allow_latency_critical = false;
  idempotency_key = codes "k1";
}

abbrev request : DeployRequest
request = record {
  service_id = codes "svc_1";
  git_ref = [];
  artifact_url = [];
  skip_health_check = false;
  auto_rollback_on_failure = false;
  mutation = some mutation;
}

abbrev env : Env
env = record { new_id = codes "dep_1"; audit_writes = true; key_writes = true }

abbrev later : Env
later = record { new_id = codes "dep_2"; audit_writes = true; key_writes = true }

deploy-IsStarted_example :
    (((deploy env request before).0.started ≡ [])
      × ((deploy env request before).0.deployments ≡ []))
    ⊎ IsStarted env request before (deploy env request before).0 (deploy env request before).1
deploy-IsStarted_example = deploy-IsStarted env request before

-- Another call, under its own key.
abbrev between : List (Env × DeployRequest)
between =
    (later, record request { mutation = some (record mutation { idempotency_key = codes "k2" }) })
    ∷ []

abbrev last : Env
last = record { new_id = codes "dep_3"; audit_writes = true; key_writes = true }

deploy-deploy_example :
    (row : Deployment) × ((deploy env request before).1 ≡ ok row)
    × ((deploy env request before).0.started ≡ [] ++ ((codes "dep_1", options_of request) ∷ []))
    × ((deploy last request (calls between (deploy env request before).0)).1 ≡ ok row)
    × ((deploy last request (calls between (deploy env request before).0)).0.started
        ≡ (calls between (deploy env request before).0).started)
    × ((deploy last request (calls between (deploy env request before).0)).0.deployments
        ≡ (calls between (deploy env request before).0).deployments)
unfolding calls deploy deploy_service deploy_to deploy_authorized perform start_deploy
    authorize_guarded decide guards audit replayed check_idempotency record_call record_idempotency
    trim trim_start_matches trim_end_matches is_whitespace text_beq
deploy-deploy_example =
    deploy-deploy env last request request between before (service, target, refl, refl, refl) refl
      refl refl refl refl refl (service, target, refl, refl, refl)

abbrev names : List Text
names = codes "a" ∷ codes "b" ∷ codes "c" ∷ []

walk-rows_example : walk 2 names 2 [] ≡ some names
unfolding page_size
walk-rows_example = walk-rows names 2 2 (omega arith) (omega arith)
