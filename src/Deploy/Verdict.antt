-- ===== src/Deploy/Verdict.antt =====
-- `run_deploy` ends with one verdict, and what each verdict means for the target and the rows.
pub mod Meaning
pub mod Quiet
pub mod Events
use nudo.Prelude.{
  ℕ, ◌≡◌, refl, ◌≢◌, ◌⊎◌, Bool, true, false, not, ◌&&◌, List, [], ◌∷◌, Option, none, some, Text,
  Result, ok, err, if◌then◌else◌, arith, Bool-cases, Option-cases, inl, inr, All, Elem, sym, subst,
  ◌∙◌, ap,
}
use nudo.Systemd.Service.{Service, HealthCheck}
use nudo.Deploy.Status.{Status, is_terminal, succeeded, failed, rolled_back, cancelled, activating}
use nudo.Deploy.World.{
  World, Host, Db, Env, Event, status_event, finished_event, Failure, note_finish, note_error,
  after_failure, DeploymentRow,
}
use nudo.BootGuard.Dir.{fine}
use nudo.Deploy.Health.{evaluate, healthy}
use nudo.Deploy.Rows.{set_deployment_status, cancel_requested}
use nudo.Deploy.Action.{Action, on_host, on_db}
use nudo.Deploy.Action.Triple.{Triple, Post, Post-weaken}
use nudo.Deploy.Lifecycle.{finish, publish, sees_cancel}
use nudo.Deploy.Lifecycle.Rules.{Triple-finish}
use nudo.Deploy.Artifact.{DeployOptions}
use nudo.Deploy.Releases.{rollback_after_failure}
use nudo.Deploy.Releases.Live.{
  IsLive, IsComplete, Serves, IsRestored, Triple-rollback_after_failure,
}
use nudo.Deploy.Execution.{try_deploy, record_failure, run_deploy}
use nudo.Deploy.Execution.Phases.{Before, Stopped}
use nudo.Deploy.Execution.Commit.{Deployed, Committed, Triple-try_deploy}
use nudo.Deploy.Execution.Ending.{finish-keeps, record_failure-keeps, run_deploy-ends}

module _ (env : Env) (options : DeployOptions) (w : World) where
  -- From the host as it is.
  pub try_deploy-Post :
      Post
        (λ _. Deployed env w.host.current w.host.running w.host.releases options.skip_health_check)
        (Stopped env w.host.current w.host.running w.host.releases)
        (try_deploy env options w)
  try_deploy-Post =
      (Triple-try_deploy env w.host.current w.host.running w.host.releases options).at w
        (refl, refl, λ x ne. refl)

  stopped :
      {w' : World} {failure : Failure}
      → try_deploy env options w ≡ (w', err failure)
      → Stopped env w.host.current w.host.running w.host.releases w'
  stopped {w'} {failure} e =
      subst
        (λ r.
          Post
            (λ _.
              Deployed env w.host.current w.host.running w.host.releases options.skip_health_check)
            (Stopped env w.host.current w.host.running w.host.releases) r)
        e try_deploy-Post

-- A run of `try_deploy` that fails before it has announced that it activates leaves the link and the
-- running release as they were. A rollback, which `run_deploy` may make behind it, is not part of that
-- run, and does change them.
pub try_deploy-unannounced :
    (env : Env) (options : DeployOptions) (w : World) {w' : World} {failure : Failure}
    → try_deploy env options w ≡ (w', err failure)
    → ¬ Elem (status_event activating) w'.events
    → (w'.host.current ≡ w.host.current) × (w'.host.running ≡ w.host.running)
try_deploy-unannounced env options w {w'} {failure} e quiet =
    elim (stopped env options w {w' = w'} {failure = failure} e) [
      | inl (c, r, _) ↦ (c, r)
      | inr (announced, _, _, _) ↦ absurd (quiet announced)
    ]

-- A deployment that fails, wherever it does, has removed and changed no release but its own.
pub try_deploy-others :
    (env : Env) (options : DeployOptions) (w : World) {w' : World} {failure : Failure} (id : Text)
    → try_deploy env options w ≡ (w', err failure)
    → id ≢ env.new_release_id
    → w'.host.releases id ≡ w.host.releases id
try_deploy-others env options w {w'} {failure} id e ne =
    elim (stopped env options w {w' = w'} {failure = failure} e) [
      | inl (_, _, others) ↦ others id ne
      | inr (_, _, _, others) ↦ others id ne
    ]

module _ (env : Env) (link started_before : Option Text) (kept : Text → Option Text) where
  IsComplete-others :
      (o : Option Text) (releases : Text → Option Text)
      → IsComplete o kept
      → o ≢ some env.new_release_id
      → ((x : Text) → x ≢ env.new_release_id → releases x ≡ kept x)
      → IsComplete o releases
  IsComplete-others none releases h fresh others = tt
  IsComplete-others (some id) releases (bytes, there) fresh others =
      (bytes, others id (λ e. fresh (ap some e)) ∙ there)

  pub Stopped-IsLive :
      (w : World)
      → IsComplete link kept
      → link ≢ some env.new_release_id
      → Stopped env link started_before kept w
      → IsLive w
  Stopped-IsLive w complete fresh (inl (c, _, others)) =
      simp c (IsComplete-others link w.host.releases complete fresh others)
  Stopped-IsLive w complete fresh (inr (_, inl c, _, others)) =
      simp c (IsComplete-others link w.host.releases complete fresh others)
  Stopped-IsLive w complete fresh (inr (_, inr c, there, _)) = simp c there

  pub Deployed-IsLive :
      (skip : Bool) (w : World) → Deployed env link started_before kept skip w → IsLive w
  Deployed-IsLive skip w ((_, c, _, there, _), _) = simp c there

IsRestored-IsLive : (w : World) → IsRestored w → IsLive w
IsRestored-IsLive w (_, _, (c, _, there, _)) = simp c there

-- If `current` names a complete release or nothing, and the id of the new release is not the one it
-- names, then it names a complete release or nothing again when the deployment is over, whatever
-- steps fail, with a rollback or without.
pub run_deploy-IsLive :
    (env : Env) (options : DeployOptions) (w : World)
    → IsLive w
    → w.host.current ≢ some env.new_release_id
    → IsLive (run_deploy env options w)
run_deploy-IsLive env options w live fresh =
    run_deploy-ends (λ w'. IsLive w') (λ w'. IsLive w') (λ w'. IsLive w') (λ w'. IsLive w') env
      options w
      (Post-weaken _ _ _ _ (try_deploy env options w)
        (λ _ w' h.
          Deployed-IsLive env w.host.current w.host.running w.host.releases
            options.skip_health_check w' h)
        (λ w' h. Stopped-IsLive env w.host.current w.host.running w.host.releases w' live fresh h)
        (try_deploy-Post env options w))
      (λ w h. h) (λ f w h. record_failure-keeps (λ w. IsLive w) env f w (λ g w h. h) h)
      (λ w auto h.
        Post-weaken (λ _. IsRestored) (λ _. IsLive) (λ w. IsLive w) (λ w. IsLive w)
          (rollback_after_failure env w) (λ _ w' r. IsRestored-IsLive w' r) (λ w' r. r)
          ((Triple-rollback_after_failure env).at w h))
      (λ w e h.
        finish-keeps (λ w. IsLive w) (λ w. IsLive w) env cancelled w (λ w h. h) (λ w h. h) h)
      (λ w h. finish-keeps (λ w. IsLive w) (λ w. IsLive w) env failed w (λ w h. h) (λ w h. h) h)
      (λ w e h.
        finish-keeps (λ w. IsLive w) (λ w. IsLive w) env rolled_back w (λ w h. h) (λ w h. h) h)
