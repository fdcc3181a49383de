-- ===== src/Deploy/Verdict/Meaning.antt =====
-- What a watcher may conclude from the verdict.
use nudo.Prelude.{
  ℕ, ◌≡◌, refl, ◌≢◌, true, List, ◌∷◌, Option, none, some, Result, ok, err, arith, sym, ◌∙◌, subst,
}
use nudo.Deploy.Status.{Status, is_terminal, succeeded, failed, rolled_back, cancelled}
use nudo.Deploy.World.{World, Db, Env, Event, finished_event, Failure, DeploymentRow}
use nudo.Deploy.Rows.{set_deployment_status, cancel_requested}
use nudo.Deploy.Action.{on_db}
use nudo.Deploy.Action.Triple.{Post, Post-weaken}
use nudo.Deploy.Lifecycle.{finish, publish, sees_cancel}
use nudo.Deploy.Artifact.{DeployOptions}
use nudo.Deploy.Releases.{rollback_after_failure}
use nudo.Deploy.Releases.Live.{IsLive, Serves, IsRestored, Triple-rollback_after_failure}
use nudo.Deploy.Execution.{try_deploy, run_deploy}
use nudo.Deploy.Execution.Phases.{Stopped}
use nudo.Deploy.Execution.Switch.{IsChecked}
use nudo.Deploy.Execution.Commit.{Deployed}
use nudo.Deploy.Execution.Ending.{finish-keeps, record_failure-keeps, run_deploy-ends}
use nudo.Deploy.Verdict.{try_deploy-Post, Stopped-IsLive}

-- The last event is a verdict, and the world is as a predicate for that verdict says.
abbrev Ended : (Status → World → Type 0) → World → Type 0
Ended R w = (s : Status) × (es : List Event) × (w.events ≡ finished_event s ∷ es) × R s w

finish-Ended :
    (R : Status → World → Type 0) (P : World → Type 0) (env : Env) (s : Status) (w : World)
    → ((w : World) → P w → P (on_db (set_deployment_status s env.now) w))
    → ((w : World) → P w → R s (publish (finished_event s) w))
    → P w
    → Ended R (finish env s w).0
finish-Ended R P env s w row event h =
    finish-keeps P (Ended R) env s w row (λ w p. (s, w.events, refl, event w p)) h

Ended-verdict :
    (R : Status → World → Type 0) (w : World) (s : Status) {es : List Event}
    → Ended R w
    → w.events ≡ finished_event s ∷ es
    → R s w
Ended-verdict R w s {es} (s', es', e, h) last =
    let both : finished_event s' ∷ es' ≡ finished_event s ∷ es = sym e ∙ last in
    let same : s' ≡ s = ground arith in subst (λ x. R x w) same h

-- `try_deploy`'s two ends, from a world.
abbrev AtEnd : Env → DeployOptions → World → World → Type 0
AtEnd env options w =
    Deployed env w.host.current w.host.running w.host.releases options.skip_health_check

abbrev AtStop : Env → World → World → Type 0
AtStop env w = Stopped env w.host.current w.host.running w.host.releases

cancel-set_status :
    (s : Status) (now : ℕ) (db : Db)
    → cancel_requested db ≡ true
    → cancel_requested (set_deployment_status s now db) ≡ true
unfolding cancel_requested set_deployment_status
cancel-set_status s now db h = go db.deployment refl
  where
    go :
        (o : Option DeploymentRow)
        → db.deployment ≡ o
        → cancel_requested (set_deployment_status s now db) ≡ true
    go none e = absurd (ground arith)
    go (some row) e = ground arith

module _ (env : Env) (options : DeployOptions) where
  -- What success and a cancel mean, from any world.
  abbrev Meaning : Status → World → Type 0
  Meaning succeeded w = Serves env.new_release_id w × IsChecked env options.skip_health_check w
  Meaning cancelled w = cancel_requested w.db ≡ true
  Meaning _ w = Unit

  Deployed-Meaning :
      (w₀ w : World)
      → Deployed env w₀.host.current w₀.host.running w₀.host.releases options.skip_health_check w
      → Ended Meaning w
  Deployed-Meaning w₀ w ((checked, c, r, b, s), (es, last)) =
      (succeeded, es, last, ((c, r, b, s), checked))

  run_deploy-Meaning : (w : World) → Ended Meaning (run_deploy env options w)
  unfolding sees_cancel
  run_deploy-Meaning w =
      run_deploy-ends
        (Deployed env w.host.current w.host.running w.host.releases options.skip_health_check)
        (λ _. Unit) (λ _. Unit) (Ended Meaning) env options w
        (Post-weaken (λ _. AtEnd env options w) (λ _. AtEnd env options w) (AtStop env w)
          (λ _. Unit) (try_deploy env options w) (λ _ w' h. h) (λ w' h. tt)
          (try_deploy-Post env options w))
        (λ w' h. Deployed-Meaning w w' h) (λ f w h. tt)
        (λ w auto h. anything (rollback_after_failure env w))
        (λ w e h.
          finish-Ended Meaning (λ w. cancel_requested w.db ≡ true) env cancelled w
            (λ w c. cancel-set_status cancelled env.now w.db c) (λ w c. c) (ground arith))
        (λ w h. finish-Ended Meaning (λ w. Unit) env failed w (λ w h. tt) (λ w h. tt) tt)
        (λ w e h. finish-Ended Meaning (λ w. Unit) env rolled_back w (λ w h. tt) (λ w h. tt) tt)
    where
      anything : (r : World × Result Failure (Unit {0})) → Post (λ _ _. Unit) (λ _. Unit) r
      anything (w, ok a) = tt
      anything (w, err f) = tt

-- If the verdict is success, then the new release is what `current` names, complete, started by the
-- last restart and recorded as the service's release; and the health check of the service's row was
-- skipped on request or has passed.
pub run_deploy-succeeded :
    (env : Env) (options : DeployOptions) (w : World) {es : List Event}
    → (run_deploy env options w).events ≡ finished_event succeeded ∷ es
    → Serves env.new_release_id (run_deploy env options w)
      × IsChecked env options.skip_health_check (run_deploy env options w)
run_deploy-succeeded env options w {es} last =
    Ended-verdict (Meaning env options) (run_deploy env options w) succeeded {es = es}
      (run_deploy-Meaning env options w) last

-- If the verdict is that the deployment was cancelled, then a cancel was requested.
pub run_deploy-cancelled :
    (env : Env) (options : DeployOptions) (w : World) {es : List Event}
    → (run_deploy env options w).events ≡ finished_event cancelled ∷ es
    → cancel_requested (run_deploy env options w).db ≡ true
run_deploy-cancelled env options w {es} last =
    Ended-verdict (Meaning env options) (run_deploy env options w) cancelled {es = es}
      (run_deploy-Meaning env options w) last

module _ (env : Env) (options : DeployOptions) where
  abbrev Restoring : Status → World → Type 0
  Restoring rolled_back w = IsRestored w × (options.auto_rollback_on_failure ≡ true)
  Restoring _ w = Unit

  IsRestored-set_status :
      (w : World) → IsRestored w → IsRestored (on_db (set_deployment_status rolled_back env.now) w)
  unfolding set_deployment_status is_terminal
  IsRestored-set_status w (row, there, serves) =
      (record row { status = rolled_back; finished_at = some env.now }, simp there refl, serves)

  run_deploy-Restoring :
      (w : World)
      → IsLive w
      → w.host.current ≢ some env.new_release_id
      → Ended Restoring (run_deploy env options w)
  run_deploy-Restoring w live fresh =
      run_deploy-ends
        (Deployed env w.host.current w.host.running w.host.releases options.skip_health_check)
        (λ w. IsLive w) (λ w. IsRestored w) (Ended Restoring) env options w
        (Post-weaken (λ _. AtEnd env options w) (λ _. AtEnd env options w) (AtStop env w)
          (λ w. IsLive w) (try_deploy env options w) (λ _ w' h. h)
          (λ w' h. Stopped-IsLive env w.host.current w.host.running w.host.releases w' live fresh h)
          (try_deploy-Post env options w))
        (λ w' (_, (es, last)). (succeeded, es, last, tt))
        (λ f w h. record_failure-keeps (λ w. IsLive w) env f w (λ g w h. h) h)
        (λ w auto h.
          Post-weaken (λ _. IsRestored) (λ _. IsRestored) (λ w. IsLive w) (λ w. IsLive w)
            (rollback_after_failure env w) (λ _ w' r. r) (λ w' r. r)
            ((Triple-rollback_after_failure env).at w h))
        (λ w e h. finish-Ended Restoring (λ w. Unit) env cancelled w (λ w h. tt) (λ w h. tt) tt)
        (λ w h. finish-Ended Restoring (λ w. Unit) env failed w (λ w h. tt) (λ w h. tt) tt)
        (λ w auto h.
          finish-Ended Restoring (λ w. IsRestored w × (options.auto_rollback_on_failure ≡ true)) env
            rolled_back w (λ w (r, a). (IsRestored-set_status w r, a)) (λ w h. h) (h, auto))

-- If `current` names a complete release or nothing, and not the new one, and the verdict is that the
-- deployment was rolled back, then the release that its row names as the previous one is what
-- `current` names, complete, started by the last restart and recorded as the service's release; and
-- the caller had asked for the rollback.
pub run_deploy-rolled_back :
    (env : Env) (options : DeployOptions) (w : World) {es : List Event}
    → IsLive w
    → w.host.current ≢ some env.new_release_id
    → (run_deploy env options w).events ≡ finished_event rolled_back ∷ es
    → IsRestored (run_deploy env options w) × (options.auto_rollback_on_failure ≡ true)
run_deploy-rolled_back env options w {es} live fresh last =
    Ended-verdict (Restoring env options) (run_deploy env options w) rolled_back {es = es}
      (run_deploy-Restoring env options w live fresh) last
