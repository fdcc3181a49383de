-- ===== src/Deploy/Lifecycle/Rules.antt =====
-- What checks, transitions and the final event establish.
use nudo.Prelude.{
  ◌≡◌, refl, Bool, true, false, Option, none, some, if◌then◌else◌, arith, Bool-cases, inl, inr,
}
use nudo.Deploy.Status.{Status}
use nudo.Deploy.World.{
  World, Db, DeploymentRow, Env, Check, note_status, note_finish, status_event, finished_event,
}
use nudo.Deploy.Rows.{set_deployment_status, request_cancel}
use nudo.Deploy.Action.{on_db}
use nudo.Deploy.Action.Triple.{
  Triple, Triple-bind, Triple-gets, Triple-modify, Triple-perform, Triple-ignore, Triple-require,
}
use nudo.Deploy.Lifecycle.{arrive, check_cancelled, publish, transition, finish}

-- A request changes the deployment's row and nothing else.
pub service-request_cancel : (db : Db) → (request_cancel db).0.service ≡ db.service
unfolding request_cancel
service-request_cancel db = go db.deployment
  where
    go :
        (o : Option DeploymentRow)
        → (elim o as (λ _. Db × Bool) [
          | none ↦ (db, false)
          | some row ↦
              if elim row.finished_at [ none ↦ true | some _ ↦ false ]
              then (record db { deployment = some (record row { cancel_requested = true }) }, true)
              else (db, false)
        ]).0.service
          ≡ db.service
    go none = refl
    go (some row) = ground arith

pub releases-request_cancel : (db : Db) → (request_cancel db).0.releases ≡ db.releases
unfolding request_cancel
releases-request_cancel db = go db.deployment
  where
    go :
        (o : Option DeploymentRow)
        → (elim o as (λ _. Db × Bool) [
          | none ↦ (db, false)
          | some row ↦
              if elim row.finished_at [ none ↦ true | some _ ↦ false ]
              then (record db { deployment = some (record row { cancel_requested = true }) }, true)
              else (db, false)
        ]).0.releases
          ≡ db.releases
    go none = refl
    go (some row) = ground arith

module _ (env : Env) {P E : World → Type 0} where
  -- From an assertion that a client's request keeps.
  pub Triple-check_cancelled :
      (check : Check)
      → ((w : World) → P w → P (on_db (λ db. (request_cancel db).0) w))
      → ((w : World) → P w → E w)
      → Triple P (check_cancelled env check) (λ _. P) E
  unfolding check_cancelled
  Triple-check_cancelled check request error = Triple-bind (Triple-modify arrived) λ _.
      Triple-bind (Triple-gets {Q = λ _. P} λ w h. h)
        λ seen. Triple-require _ (λ _. error) (λ _ w h. h)
    where
      arrived : (w : World) → P w → P (arrive env check w)
      arrived w h = elim (Bool-cases (env.cancels check)) [
        | inl e ↦ simp e (request w h)
        | inr e ↦ simp e h
      ]

module _ (env : Env) {P Q E : World → Type 0} where
  pub Triple-transition :
      (s : Status)
      → ((w : World) → P w → P (on_db (set_deployment_status s env.now) w))
      → ((w : World) → P w → Q (publish (status_event s) w))
      → Triple P (transition env s) (λ _. Q) E
  unfolding transition
  Triple-transition s row event =
      Triple-bind {Q = λ _. P} (Triple-ignore (Triple-perform env note_status (λ w h. h) row row))
        λ _. Triple-modify event

  pub Triple-finish :
      (s : Status)
      → ((w : World) → P w → P (on_db (set_deployment_status s env.now) w))
      → ((w : World) → P w → Q (publish (finished_event s) w))
      → Triple P (finish env s) (λ _. Q) E
  unfolding finish
  Triple-finish s row event =
      Triple-bind {Q = λ _. P} (Triple-ignore (Triple-perform env note_finish (λ w h. h) row row))
        λ _. Triple-modify event
