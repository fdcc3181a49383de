-- ===== src/Api/Deployments/Laws.antt =====
-- When a call starts a deployment, and which.
use nudo.Prelude.{
  ◌≡◌, refl, sym, ap, ◌∙◌, ◌⊎◌, inl, inr, false, not, ◌&&◌, [], ◌∷◌, ◌++◌, Option, none, some, Text,
  text_eq, codes, Result, ok, err, or_else, Bool-cases,
}
use nudo.Guardrail.{Mutation, Authorized, authorize_guarded, no_mutation, actor_or_system, replayed}
use nudo.Guardrail.{Status as Refusal}
use nudo.Guardrail.Laws.{authorize_guarded-ok}
use nudo.Api.Deployments.{
  ServiceRow, TargetRow, Deployment, State, DeployRequest, Env, guarded, options_of, queued_row,
  start_deploy, perform, deploy_authorized, deploy_to, deploy_service, deploy, summary_of,
}

abbrev pub mutation_of : DeployRequest → Mutation
mutation_of r = or_else r.mutation no_mutation

abbrev row_of : Env → DeployRequest → ServiceRow → Deployment
row_of env r service =
    queued_row env.new_id r.service_id (actor_or_system (mutation_of r)) service.current_release_id
      r.git_ref

-- One deployment was started: of a service on a target that the guard lets be touched, not in a dry run,
-- and the row keeps the release that was live as the one to go back to.
abbrev pub IsStarted : Env → DeployRequest → State → State → Result Refusal Deployment → Type 0
IsStarted env r s after result =
    (service : ServiceRow) × (target : TargetRow) × (s.services r.service_id ≡ some service)
    × (s.targets service.target_id ≡ some target)
    × ((target.latency_critical && not (mutation_of r).allow_latency_critical) ≡ false)
    × ((mutation_of r).dry_run ≡ false)
    × (after.started ≡ s.started ++ ((env.new_id, options_of r) ∷ []))
    × (after.deployments ≡ s.deployments ++ (row_of env r service ∷ []))
    × (result ≡ ok (row_of env r service))

abbrev IsQuiet : State → State → Type 0
IsQuiet s after = (after.started ≡ s.started) × (after.deployments ≡ s.deployments)

module _ (env : Env) (r : DeployRequest) (service : ServiceRow) (s : State) where
  -- What the call does once it is authorized.
  abbrev Done : Authorized → State → Result Refusal Deployment → Type 0
  Done a after result =
      IsQuiet s after
      ⊎ ((a.dry_run ≡ false)
          × (after.started ≡ s.started ++ ((env.new_id, options_of r) ∷ []))
          × (after.deployments
              ≡ s.deployments
                ++ (queued_row env.new_id r.service_id a.actor service.current_release_id r.git_ref
                    ∷ []))
          × (result
              ≡ ok (
                  queued_row env.new_id r.service_id a.actor service.current_release_id r.git_ref)))

  perform-Done :
      (a : Authorized) (o : Option Text)
      → Done a (perform env r service a o s).0 (perform env r service a o s).1
  unfolding perform start_deploy
  perform-Done a (some existing) = inl (refl, refl)
  perform-Done a none = elim (Bool-cases a.dry_run) [
    | inl dry ↦ simp dry (inl (refl, refl))
    | inr wet ↦ simp wet (inr (refl, refl, refl, refl))
  ]

module _ (env : Env) (r : DeployRequest) where
  deploy_authorized-Done :
      (service : ServiceRow) (verdict : Result Refusal Authorized) (s : State)
      → IsQuiet s (deploy_authorized env r service verdict s).0
        ⊎ ((a : Authorized) × (verdict ≡ ok a)
            × Done env r service s a
                (deploy_authorized env r service verdict s).0
                (deploy_authorized env r service verdict s).1)
  unfolding deploy_authorized
  deploy_authorized-Done service (err refusal) s = inl (refl, refl)
  deploy_authorized-Done service (ok a) s =
      inr (a, refl, perform-Done env r service s a (replayed a (codes "Deploy") s.ledger))

  deploy_to-IsStarted :
      (service : ServiceRow) (o : Option TargetRow) (s : State)
      → s.services r.service_id ≡ some service
      → s.targets service.target_id ≡ o
      → IsQuiet s (deploy_to env r service o s).0
        ⊎ IsStarted env r s (deploy_to env r service o s).0 (deploy_to env r service o s).1
  unfolding deploy_to
  deploy_to-IsStarted service none s is_service is_target = inl (refl, refl)
  deploy_to-IsStarted service (some target) s is_service is_target =
      let call =
        authorize_guarded env.audit_writes r.mutation (codes "Deployments.Deploy") r.service_id
          (some (guarded target)) (summary_of r service target) s.ledger in
      elim (deploy_authorized-Done service call.1 (record s { ledger = call.0 })) [
        | inl quiet ↦ inl quiet
        | inr (a, verdict, inl quiet) ↦ inl quiet
        | inr (a, verdict, inr (wet, started, rows, answer)) ↦
            let (same, passes) =
              authorize_guarded-ok env.audit_writes r.mutation (codes "Deployments.Deploy")
                r.service_id (summary_of r service target) (guarded target) s.ledger a verdict in
            let by = ap (λ x. x.actor) same in
            inr (
              service,
              target,
              is_service,
              is_target,
              passes,
              ap (λ x. x.dry_run) same ∙ wet,
              started,
              rows
                  ∙ ap
                      (λ x.
                        s.deployments
                        ++ (queued_row env.new_id r.service_id x service.current_release_id
                              r.git_ref
                            ∷ []))
                      (sym by),
              answer
                  ∙ ap
                      (λ x.
                        ok (
                          queued_row env.new_id r.service_id x service.current_release_id
                            r.git_ref))
                      (sym by),
            )
      ]

  deploy_service-IsStarted :
      (o : Option ServiceRow) (s : State)
      → s.services r.service_id ≡ o
      → IsQuiet s (deploy_service env r o s).0
        ⊎ IsStarted env r s (deploy_service env r o s).0 (deploy_service env r o s).1
  unfolding deploy_service
  deploy_service-IsStarted none s is_service = inl (refl, refl)
  deploy_service-IsStarted (some service) s is_service =
      deploy_to-IsStarted service (s.targets service.target_id) s is_service refl

  -- A call of `Deploy` starts nothing and queues nothing, or it starts exactly one deployment, the one it
  -- answers with: of a known service on a known target, never on a latency-critical target unless the
  -- call allows for that, and never in a dry run. The row that it queues keeps the release that was
  -- live.
  pub deploy-IsStarted :
      (s : State)
      → (((deploy env r s).0.started ≡ s.started)
          × ((deploy env r s).0.deployments ≡ s.deployments))
        ⊎ IsStarted env r s (deploy env r s).0 (deploy env r s).1
  unfolding deploy
  deploy-IsStarted s = deploy_service-IsStarted (s.services r.service_id) s refl
