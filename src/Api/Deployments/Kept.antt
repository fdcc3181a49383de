-- ===== src/Api/Deployments/Kept.antt =====
-- What a key was recorded for, through any calls behind it.
use nudo.Prelude.{
  ◌≡◌, refl, ap, ◌∙◌, Bool, true, false, ◌&&◌, List, [], ◌∷◌, ◌++◌, any, find, Option, none, some,
  Text, text_eq, ◌==◌, codes, is_empty, Result, ok, err, Bool-cases, inl, inr, subst, arith, sym,
}
use nudo.Text.Trim.{trim}
use nudo.Guardrail.{
  Ledger, Authorized, KeyRow, authorize_guarded, replayed, record_call, check_idempotency,
  record_idempotency, matches_key, result_of,
}
use nudo.Guardrail.{Status as Refusal}
use nudo.Guardrail.Laws.{authorize_guarded-keys}
use nudo.Guardrail.Retries.{
  has_key, record_idempotency-keeps, check_idempotency_named, find_recorded,
  record_idempotency_free,
}
use nudo.Api.Deployments.{
  ServiceRow, TargetRow, Deployment, State, DeployRequest, Env, guarded, options_of, start_deploy,
  perform, deploy_authorized, deploy_to, deploy_service, deploy, summary_of, get_deployment,
}
use nudo.Api.Deployments.Laws.{mutation_of}
use nudo.Api.Deployments.Retry.{IsOpen, deploy_first, deploy_again, find_queued, first_row}

-- Calls one after the other, each with the id that its row would get and how its writes fare.
unfoldable pub calls : List (Env × DeployRequest) → State → State
calls [] s = s
calls ((env, r) ∷ later) s = calls later (deploy env r s).0

find-append_some :
    {A : Type 0}
    → (p : A → Bool) (xs ys : List A) (a : A) → find p xs ≡ some a
    → find p (xs ++ ys) ≡ some a
find-append_some p [] ys a e = absurd (ground (arith, e))
find-append_some p (x ∷ xs) ys a e = elim (Bool-cases (p x)) [
  | inl here ↦ simp here (simp here at e)
  | inr other ↦ simp other (find-append_some p xs ys a (simp other at e))
]

module _ (key id : Text) (d : Deployment) where
  -- The key leads to the deployment.
  abbrev HasResult : List KeyRow → Type 0
  HasResult rows =
      (has_key key rows ≡ true)
      × (result_of (find (matches_key key (codes "Deploy")) rows) ≡ some id)

  abbrev pub Remembers : State → Type 0
  Remembers s = HasResult s.ledger.idempotency_keys × (get_deployment id s ≡ some d)

  record_call-HasResult :
      (writes : Bool) (a : Authorized) (action result : Text) (ledger : Ledger)
      → HasResult ledger.idempotency_keys
      → HasResult (record_call writes a action result ledger).idempotency_keys
  unfolding record_call
  record_call-HasResult writes a action result ledger (taken, found) =
      elim (Bool-cases (is_empty a.idempotency_key)) [
        | inl blank ↦ simp blank (taken, found)
        | inr given ↦ elim (Bool-cases writes) [
          | inr off ↦ simp (given, off) (taken, found)
          | inl on ↦
              let (kept, same) =
                record_idempotency-keeps key (codes "Deploy")
                  (record { key = a.idempotency_key; action = action; result_id = result }) ledger
                  taken in
              simp (given, on) (kept, ap result_of same ∙ found)
        ]
      ]

  perform-Remembers :
      (env : Env) (r : DeployRequest) (service : ServiceRow) (a : Authorized) (o : Option Text)
      (s : State)
      → Remembers s
      → Remembers (perform env r service a o s).0
  unfolding perform start_deploy get_deployment
  perform-Remembers env r service a (some existing) s h = h
  perform-Remembers env r service a none s (keys, found) = elim (Bool-cases a.dry_run) [
    | inl dry ↦ simp dry (keys, found)
    | inr wet ↦ simp wet (
      record_call-HasResult env.key_writes a (codes "Deploy") env.new_id s.ledger keys,
      find-append_some (λ e. e.id == id) s.deployments _ d found,
    )
  ]

  deploy_authorized-Remembers :
      (env : Env) (r : DeployRequest) (service : ServiceRow) (v : Result Refusal Authorized)
      (s : State)
      → Remembers s
      → Remembers (deploy_authorized env r service v s).0
  unfolding deploy_authorized
  deploy_authorized-Remembers env r service (err refusal) s h = h
  deploy_authorized-Remembers env r service (ok a) s h =
      perform-Remembers env r service a (replayed a (codes "Deploy") s.ledger) s h

  deploy_to-Remembers :
      (env : Env) (r : DeployRequest) (service : ServiceRow) (o : Option TargetRow) (s : State)
      → Remembers s
      → Remembers (deploy_to env r service o s).0
  unfolding deploy_to get_deployment
  deploy_to-Remembers env r service none s h = h
  deploy_to-Remembers env r service (some target) s (keys, found) =
      let call =
        authorize_guarded env.audit_writes r.mutation (codes "Deployments.Deploy") r.service_id
          (some (guarded target)) (summary_of r service target) s.ledger in
      deploy_authorized-Remembers env r service call.1 (record s { ledger = call.0 })
        (
          subst HasResult
              (sym (
                authorize_guarded-keys env.audit_writes r.mutation (codes "Deployments.Deploy")
                  r.service_id (summary_of r service target) (guarded target) s.ledger))
              keys,
          found,
        )

  deploy_service-Remembers :
      (env : Env) (r : DeployRequest) (o : Option ServiceRow) (s : State)
      → Remembers s
      → Remembers (deploy_service env r o s).0
  unfolding deploy_service
  deploy_service-Remembers env r none s h = h
  deploy_service-Remembers env r (some service) s h =
      deploy_to-Remembers env r service (s.targets service.target_id) s h

  calls-Remembers :
      (rs : List (Env × DeployRequest)) (s : State) → Remembers s → Remembers (calls rs s)
  unfolding calls deploy
  calls-Remembers [] s h = h
  calls-Remembers ((env, r) ∷ later) s h =
      calls-Remembers later (deploy env r s).0
        (deploy_service-Remembers env r (s.services r.service_id) s h)

-- A first call leaves its key leading to its row.
first-Remembers :
    (env : Env) (r : DeployRequest) (s : State) (service : ServiceRow) (ledger : Ledger)
    → is_empty (trim (mutation_of r).idempotency_key) ≡ false
    → has_key (mutation_of r).idempotency_key ledger.idempotency_keys ≡ false
    → any (λ d. d.id == env.new_id) s.deployments ≡ false
    → Remembers (mutation_of r).idempotency_key env.new_id (first_row env r s service) (record s {
      deployments = s.deployments ++ (first_row env r s service ∷ []);
      started = s.started ++ ((env.new_id, options_of r) ∷ []);
      ledger =
          record_idempotency (mutation_of r).idempotency_key (codes "Deploy") env.new_id ledger;
    })
unfolding get_deployment nudo.Prelude.text_beq
first-Remembers env r s service ledger named free fresh =
    let row : KeyRow = record {
      key = (mutation_of r).idempotency_key;
      action = codes "Deploy";
      result_id = env.new_id;
    } in
    let (taken, found) = find_recorded row (codes "Deploy") ledger.idempotency_keys free in
    (
      subst (HasResult row.key env.new_id (first_row env r s service))
          (sym (record_idempotency_free row ledger named free)) (taken, ap result_of found),
      find_queued s.deployments (first_row env r s service) fresh,
    )

module _ (env later : Env) (r again : DeployRequest) (between : List (Env × DeployRequest))
    (s : State) where
  -- A retry does not deploy twice. A call that is no dry run, passes its guard and could record its key,
  -- which was free and not blank, starts its deployment; the id of its row was not in use. After it and any calls behind it, whatever they
  -- ask for and under whatever key, a call that comes with the same key and passes its guard, whatever
  -- else it asks for, answers with the deployment of the first one and starts and queues nothing.
  pub deploy-deploy :
      IsOpen r s
      → (mutation_of r).dry_run ≡ false
      → env.key_writes ≡ true
      → is_empty (trim (mutation_of r).idempotency_key) ≡ false
      → any (λ row. row.key == (mutation_of r).idempotency_key) s.ledger.idempotency_keys ≡ false
      → any (λ d. d.id == env.new_id) s.deployments ≡ false
      → (mutation_of again).idempotency_key ≡ (mutation_of r).idempotency_key
      → IsOpen again (calls between (deploy env r s).0)
      → (row : Deployment) × ((deploy env r s).1 ≡ ok row)
        × ((deploy env r s).0.started ≡ s.started ++ ((env.new_id, options_of r) ∷ []))
        × ((deploy later again (calls between (deploy env r s).0)).1 ≡ ok row)
        × ((deploy later again (calls between (deploy env r s).0)).0.started
            ≡ (calls between (deploy env r s).0).started)
        × ((deploy later again (calls between (deploy env r s).0)).0.deployments
            ≡ (calls between (deploy env r s).0).deployments)
  deploy-deploy is_open wet writes named free fresh same_key open_again =
      let key = (mutation_of r).idempotency_key in
      let (service, ledger, keys, first) = deploy_first env r s is_open wet writes named free in
      let row = first_row env r s service in
      let begun =
        first-Remembers env r s service ledger named (ap (has_key key) keys ∙ free) fresh in
      let ((taken, result), found) =
        calls-Remembers key env.new_id row between (deploy env r s).0
          (subst (λ x. Remembers key env.new_id row x.0) (sym first) begun) in
      let end = calls between (deploy env r s).0 in
      let seen =
        ap (λ k. check_idempotency k (codes "Deploy") end.ledger) same_key
        ∙ check_idempotency_named key (codes "Deploy") end.ledger named
        ∙ result in
      let (answer, quiet, queued) =
        deploy_again later again end env.new_id row open_again
          (ap (λ x. is_empty (trim x)) same_key ∙ named) seen found in
      (row, ap (λ x. x.1) first, ap (λ x. x.0.started) first, answer, quiet, queued)
