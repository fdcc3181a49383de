-- ===== src/Deploy/Execution/Ending.antt =====
-- The verdict of `run_deploy`: how each of its branches ends.
use nudo.Prelude.{◌≡◌, true, Result, ok, err, Bool-cases, inl, inr}
use nudo.Deploy.Status.{Status, failed, rolled_back, cancelled}
use nudo.Deploy.World.{World, Db, Env, finished_event, Failure, note_error, after_failure}
use nudo.Deploy.Rows.{set_deployment_status, set_deployment_error, request_cancel}
use nudo.Deploy.Action.{on_db, ignore, perform}
use nudo.Deploy.Action.Triple.{Post, Triple-perform, Triple-ignore}
use nudo.Deploy.Lifecycle.{finish, publish, sees_cancel}
use nudo.Deploy.Lifecycle.Rules.{Triple-finish}
use nudo.Deploy.Artifact.{DeployOptions}
use nudo.Deploy.Releases.{rollback_after_failure}
use nudo.Deploy.Execution.{try_deploy, try_rollback, record_failure, conclude, run_deploy}

Post-both :
    {A : Type 0} (Q : World → Type 0) (r : World × Result Failure A) → Post (λ _. Q) Q r → Q r.0
Post-both Q (w, ok a) h = h
Post-both Q (w, err e) h = h

-- The verdict is published last.
pub finish-keeps :
    (P Q : World → Type 0) (env : Env) (s : Status) (w : World)
    → ((w : World) → P w → P (on_db (set_deployment_status s env.now) w))
    → ((w : World) → P w → Q (publish (finished_event s) w))
    → P w
    → Q (finish env s w).0
finish-keeps P Q env s w row event h =
    Post-both Q (finish env s w) ((Triple-finish env {P = P} {Q = Q} {E = Q} s row event).at w h)

pub record_failure-keeps :
    (P : World → Type 0) (env : Env) (failure : Failure) (w : World)
    → ((f : Db → Db) (w : World) → P w → P (on_db f w))
    → P w
    → P (record_failure env failure w)
record_failure-keeps P env failure w db h = elim (Bool-cases (env.cancels after_failure)) [
  | inl e ↦ simp e (db (λ rows. (request_cancel rows).0) _ noted)
  | inr e ↦ simp e noted
]
  where
    noted : P (ignore (perform env note_error (on_db (set_deployment_error failure))) w).0
    noted = Post-both P _ (
        (Triple-ignore {P = P} {E = P} {Q = P} (
            Triple-perform env note_error (λ w p. p) (db (set_deployment_error failure))
              (db (set_deployment_error failure)))).at
          w h)

-- The branches of `run_deploy`: what the end of `try_deploy` establishes, what recording a failure
-- and a rollback make of it, and what each verdict makes of that.
module _ (D F B R : World → Type 0) (env : Env) (options : DeployOptions) where
  try_rollback-ends :
      (w : World)
      → Post (λ _. B) F (rollback_after_failure env w)
      → ((w : World) → B w → R (finish env rolled_back w).0)
      → ((w : World) → F w → R (finish env failed w).0)
      → R (try_rollback env w)
  unfolding try_rollback
  try_rollback-ends w h back fails = go (rollback_after_failure env w) h
    where
      go :
          (r : World × Result Failure (Unit {0}))
          → Post (λ _. B) F r
          → R (
              let (w', x) = r in
              elim x [ ok _ ↦ (finish env rolled_back w').0 | err _ ↦ (finish env failed w').0 ])
      go (w', ok _) h = back w' h
      go (w', err _) h = fails w' h

  pub run_deploy-ends :
      (w : World)
      → Post (λ _. D) F (try_deploy env options w)
      → ((w : World) → D w → R w)
      → ((f : Failure) (w : World) → F w → F (record_failure env f w))
      → ((w : World)
          → options.auto_rollback_on_failure ≡ true
          → F w
          → Post (λ _. B) F (rollback_after_failure env w))
      → ((w : World) → sees_cancel env after_failure w ≡ true → F w → R (finish env cancelled w).0)
      → ((w : World) → F w → R (finish env failed w).0)
      → ((w : World)
          → options.auto_rollback_on_failure ≡ true
          → B w
          → R (finish env rolled_back w).0)
      → R (run_deploy env options w)
  unfolding run_deploy conclude
  run_deploy-ends w h succeeds notes rolls cancels fails back = go (try_deploy env options w) h
    where
      go : (r : World × Result Failure (Unit {0})) → Post (λ _. D) F r → R (conclude env options r)
      go (w', ok _) h = succeeds w' h
      go (w', err f) h =
          let noted = notes f w' h in
          elim (Bool-cases (sees_cancel env after_failure (record_failure env f w'))) [
            | inl e ↦ simp e (cancels (record_failure env f w') e noted)
            | inr e ↦ elim (Bool-cases options.auto_rollback_on_failure) [
              | inl auto ↦
                  simp (e, auto)
                    (try_rollback-ends (record_failure env f w')
                      (rolls (record_failure env f w') auto noted) (λ w b. back w auto b) fails)
              | inr manual ↦ simp (e, manual) (fails (record_failure env f w') noted)
            ]
          ]
