-- ===== src/Api/Deployments/Retry.antt =====
-- A call that is made again under its idempotency key.
use nudo.Prelude.{
  ◌≡◌, refl, ap, ◌∙◌, Bool, true, false, not, ◌&&◌, List, [], ◌∷◌, ◌++◌, any, find, none, some,
  Text, text_eq, ◌==◌, ==_refl, codes, is_empty, ok, arith, Bool-cases, inl, inr,
}
use nudo.Text.Trim.{trim}
use nudo.Guardrail.{
  Ledger, Authorized, KeyRow, authorize_guarded, actor_or_system, replayed, record_call,
  check_idempotency, record_idempotency,
}
use nudo.Guardrail.Laws.{authorize_guarded_open, authorize_guarded-keys, authorized_by}
use nudo.Guardrail.Retries.{check_idempotency-keys, find_absent}
use nudo.Api.Deployments.{
  ServiceRow, TargetRow, Deployment, State, DeployRequest, Env, guarded, options_of, queued_row,
  recorded, start_deploy, perform, deploy_authorized, deploy_to, deploy_service, deploy, summary_of,
  get_deployment,
}
use nudo.Api.Deployments.Laws.{mutation_of}

-- A known service on a known target that the guard lets the call touch.
abbrev pub IsOpen : DeployRequest → State → Type 0
IsOpen r s =
    (service : ServiceRow) × (target : TargetRow) × (s.services r.service_id ≡ some service)
    × (s.targets service.target_id ≡ some target)
    × ((target.latency_critical && not (mutation_of r).allow_latency_critical) ≡ false)

-- A call that passes its guard goes on as its actor, with the keys as they were.
deploy_open :
    (env : Env) (r : DeployRequest) (s : State) (service : ServiceRow) (target : TargetRow)
    → s.services r.service_id ≡ some service
    → s.targets service.target_id ≡ some target
    → (target.latency_critical && not (mutation_of r).allow_latency_critical) ≡ false
    → (ledger : Ledger) × (ledger.idempotency_keys ≡ s.ledger.idempotency_keys)
      × (deploy env r s
          ≡ perform env r service
              (authorized_by (mutation_of r))
              (replayed (authorized_by (mutation_of r)) (codes "Deploy") ledger)
              (record s { ledger = ledger }))
unfolding deploy deploy_service deploy_to deploy_authorized
deploy_open env r s service target is_service is_target passes =
    let summary = summary_of r service target in
    let call =
      authorize_guarded env.audit_writes r.mutation (codes "Deployments.Deploy") r.service_id
        (some (guarded target)) summary s.ledger in
    (
      call.0,
      authorize_guarded-keys env.audit_writes r.mutation (codes "Deployments.Deploy") r.service_id
          summary (guarded target) s.ledger,
      ap (λ o. deploy_service env r o s) is_service
          ∙ ap (λ o. deploy_to env r service o s) is_target
          ∙ ap (λ v. deploy_authorized env r service v (record s { ledger = call.0 }))
              (authorize_guarded_open env.audit_writes r.mutation (codes "Deployments.Deploy")
                r.service_id summary (guarded target) s.ledger passes),
    )

replayed_named :
    (a : Authorized) (action : Text) (ledger : Ledger)
    → is_empty (trim a.idempotency_key) ≡ false
    → replayed a action ledger ≡ check_idempotency a.idempotency_key action ledger
unfolding replayed trim
replayed_named a action ledger named = elim (Bool-cases (is_empty a.idempotency_key)) [
  | inl blank ↦ absurd (ground (arith, blank, named))
  | inr given ↦ simp given refl
]

record_call_named :
    (writes : Bool) (a : Authorized) (action id : Text) (ledger : Ledger)
    → writes ≡ true
    → is_empty (trim a.idempotency_key) ≡ false
    → record_call writes a action id ledger ≡ record_idempotency a.idempotency_key action id ledger
unfolding record_call trim
record_call_named writes a action id ledger on named =
    elim (Bool-cases (is_empty a.idempotency_key)) [
      | inl blank ↦ absurd (ground (arith, blank, named))
      | inr given ↦ simp (given, on) refl
    ]

-- A key that no row has finds nothing.
find_free :
    (key action : Text) (rows : List KeyRow)
    → any (λ row. row.key == key) rows ≡ false
    → check_idempotency key action (record { audit_entries = []; idempotency_keys = rows }) ≡ none
unfolding check_idempotency
find_free key action rows free = elim (Bool-cases (is_empty (trim key))) [
  | inl blank ↦ simp blank refl
  | inr named ↦ simp (named, find_absent key action rows free) refl
]

pub find_queued :
    (rows : List Deployment) (row : Deployment)
    → any (λ d. d.id == row.id) rows ≡ false
    → find (λ d. d.id == row.id) (rows ++ (row ∷ [])) ≡ some row
find_queued [] row fresh = simp (==_refl row.id) refl
find_queued (d ∷ rows) row fresh =
    let other : (d.id == row.id) ≡ false = ground (arith, fresh) in
    simp other (find_queued rows row (ground (arith, fresh)))

module _ (env : Env) (r : DeployRequest) (s : State) where
  abbrev key : Text
  key = (mutation_of r).idempotency_key

  abbrev pub first_row : ServiceRow → Deployment
  first_row service =
      queued_row env.new_id r.service_id (actor_or_system (mutation_of r))
        service.current_release_id r.git_ref

  abbrev after_first : ServiceRow → Ledger → State
  after_first service ledger = record s {
    deployments = s.deployments ++ (first_row service ∷ []);
    started = s.started ++ ((env.new_id, options_of r) ∷ []);
    ledger = record_idempotency key (codes "Deploy") env.new_id ledger;
  }

  perform_fresh :
      (service : ServiceRow) (ledger : Ledger)
      → (mutation_of r).dry_run ≡ false
      → env.key_writes ≡ true
      → is_empty (trim key) ≡ false
      → perform env r service (authorized_by (mutation_of r)) none (record s { ledger = ledger })
        ≡ (after_first service ledger, ok (first_row service))
  unfolding perform start_deploy record_call
  perform_fresh service ledger wet writes named = simp wet (
      ap (λ l. (record (after_first service ledger) { ledger = l }, ok (first_row service)))
        (record_call_named env.key_writes (authorized_by (mutation_of r)) (codes "Deploy")
          env.new_id ledger writes named))

  -- The first call under a free key queues a row and records it.
  pub deploy_first :
      IsOpen r s
      → (mutation_of r).dry_run ≡ false
      → env.key_writes ≡ true
      → is_empty (trim key) ≡ false
      → any (λ row. row.key == key) s.ledger.idempotency_keys ≡ false
      → (service : ServiceRow) × (ledger : Ledger) × (ledger.idempotency_keys
          ≡ s.ledger.idempotency_keys)
        × (deploy env r s ≡ (after_first service ledger, ok (first_row service)))
  deploy_first (service, target, is_service, is_target, passes) wet writes named free =
      let a = authorized_by (mutation_of r) in
      let (ledger, keys, runs) = deploy_open env r s service target is_service is_target passes in
      let unseen : replayed a (codes "Deploy") ledger ≡ none =
        replayed_named a (codes "Deploy") ledger named
        ∙ check_idempotency-keys key (codes "Deploy") ledger
            (record { audit_entries = []; idempotency_keys = s.ledger.idempotency_keys }) keys
        ∙ find_free key (codes "Deploy") s.ledger.idempotency_keys free in
      (
        service,
        ledger,
        keys,
        runs
            ∙ ap (λ o. perform env r service a o (record s { ledger = ledger })) unseen
            ∙ perform_fresh service ledger wet writes named,
      )

-- A later call under a key that a row has, whose guard lets it pass, answers with the row of that key.
pub deploy_again :
    (env : Env) (r : DeployRequest) (s : State) (id : Text) (d : Deployment)
    → IsOpen r s
    → is_empty (trim (mutation_of r).idempotency_key) ≡ false
    → check_idempotency (mutation_of r).idempotency_key (codes "Deploy") s.ledger ≡ some id
    → get_deployment id s ≡ some d
    → ((deploy env r s).1 ≡ ok d)
      × ((deploy env r s).0.started ≡ s.started)
      × ((deploy env r s).0.deployments ≡ s.deployments)
unfolding perform get_deployment
deploy_again env r s id d (service, target, is_service, is_target, passes) named seen found =
    let a = authorized_by (mutation_of r) in
    let (ledger, keys, runs) = deploy_open env r s service target is_service is_target passes in
    let replay =
      replayed_named a (codes "Deploy") ledger named
      ∙ check_idempotency-keys a.idempotency_key (codes "Deploy") ledger s.ledger keys
      ∙ seen in
    let done = runs ∙ ap (λ o. perform env r service a o (record s { ledger = ledger })) replay in
    (
      ap (λ x. x.1) done ∙ ap recorded found,
      ap (λ x. x.0.started) done,
      ap (λ x. x.0.deployments) done,
    )
