-- ===== src/Deploy/Verdict/Quiet.antt =====
-- A deployment that ends before it has announced that it activates.
use nudo.Prelude.{◌≡◌, ◌≢◌, ◌⊎◌, inl, inr, false, List, ◌∷◌, Option, Text, Elem, arith, sym, ◌∙◌}
use nudo.Deploy.Status.{Status, succeeded, failed, cancelled, activating}
use nudo.Deploy.World.{World, Env, Event, status_event, finished_event}
use nudo.Deploy.Rows.{set_deployment_status}
use nudo.Deploy.Action.Triple.{Post-weaken}
use nudo.Deploy.Lifecycle.{finish, publish}
use nudo.Deploy.Artifact.{DeployOptions}
use nudo.Deploy.Execution.{try_deploy, run_deploy}
use nudo.Deploy.Execution.Phases.{Stopped}
use nudo.Deploy.Execution.Ending.{finish-keeps, record_failure-keeps, run_deploy-ends}
use nudo.Deploy.Execution.Commit.{Deployed}
use nudo.Deploy.Verdict.{try_deploy-Post}

module _ (link started : Option Text) where
  -- The host as it was, unless the activation has been announced.
  abbrev Untouched : World → Type 0
  Untouched w =
      ((w.host.current ≡ link) × (w.host.running ≡ started))
      ⊎ Elem (status_event activating) w.events

  abbrev Ended : World → Type 0
  Ended w = ((es : List Event) × (w.events ≡ finished_event succeeded ∷ es)) ⊎ Untouched w

  Untouched-publish : (e : Event) (w : World) → Untouched w → Untouched (publish e w)
  Untouched-publish e w (inl same) = inl same
  Untouched-publish e w (inr announced) = inr (inr announced)

  Stopped-Untouched :
      (env : Env) (kept : Text → Option Text) (w : World)
      → Stopped env link started kept w
      → Untouched w
  Stopped-Untouched env kept w (inl (current, running, _)) = inl (current, running)
  Stopped-Untouched env kept w (inr (announced, _, _, _)) = inr announced

  finish-Untouched : (env : Env) (s : Status) (w : World) → Untouched w → Ended (finish env s w).0
  unfolding set_deployment_status
  finish-Untouched env s w h =
      finish-keeps Untouched Ended env s w (λ w h. h)
        (λ w h. inr (Untouched-publish (finished_event s) w h)) h

module _ (env : Env) (options : DeployOptions) (w : World) where
  run_deploy-Ended :
      options.auto_rollback_on_failure ≡ false
      → Ended w.host.current w.host.running (run_deploy env options w)
  run_deploy-Ended manual =
      let link = w.host.current in
      let started = w.host.running in
      run_deploy-ends (Deployed env link started w.host.releases options.skip_health_check)
        (Untouched link started) (λ _. Unit) (Ended link started) env options w
        (Post-weaken (λ _. Deployed env link started w.host.releases options.skip_health_check)
          (λ _. Deployed env link started w.host.releases options.skip_health_check)
          (Stopped env link started w.host.releases) (Untouched link started)
          (try_deploy env options w) (λ _ w' h. h)
          (Stopped-Untouched link started env w.host.releases) (try_deploy-Post env options w))
        (λ w' (_, last). inl last)
        (λ f w' h. record_failure-keeps (Untouched link started) env f w' (λ g w'' k. k) h)
        (λ w' auto h. absurd (ground (arith, auto, manual)))
        (λ w' e h. finish-Untouched link started env cancelled w' h)
        (λ w' h. finish-Untouched link started env failed w' h)
        (λ w' auto h. absurd (ground (arith, auto, manual)))

  -- A deployment without automatic rollback that does not end in success, and has not announced that it
  -- activates, leaves the link and the running release as they were.
  pub run_deploy-unannounced :
      (s : Status) (es : List Event)
      → options.auto_rollback_on_failure ≡ false
      → (run_deploy env options w).events ≡ finished_event s ∷ es
      → s ≢ succeeded
      → ¬ Elem (status_event activating) (run_deploy env options w).events
      → ((run_deploy env options w).host.current ≡ w.host.current)
        × ((run_deploy env options w).host.running ≡ w.host.running)
  run_deploy-unannounced s es manual last other quiet = elim (run_deploy-Ended manual) [
    | inl (es', success) ↦
        let both : finished_event s ∷ es ≡ finished_event succeeded ∷ es' = sym last ∙ success in
        absurd (other (ground (arith, both)))
    | inr (inl same) ↦ same
    | inr (inr announced) ↦ absurd (quiet announced)
  ]
