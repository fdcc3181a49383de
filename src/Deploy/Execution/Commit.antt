-- ===== src/Deploy/Execution/Commit.antt =====
-- The commit of a release, and the whole of `try_deploy`.
use nudo.Prelude.{
  ◌≡◌, refl, ◌≢◌, Bool, List, ◌∷◌, Option, none, some, Text, if◌then◌else◌, arith, inl, inr, ◌==◌,
  text_eq, ==_refl, sym, ◌∙◌,
}
use nudo.Systemd.Service.{Service}
use nudo.Deploy.Status.{succeeded}
use nudo.Deploy.World.{
  World, Env, Event, finished_event, commit, before_fetch, find_deployment, find_service,
  find_target,
}
use nudo.Deploy.Rows.{set_current_release, set_deployment_status, update, mark_release_pruned}
use nudo.Deploy.Action.{on_host, on_db}
use nudo.Deploy.Action.Triple.{Triple, Triple-bind, Triple-perform, Triple-ignore, Triple-look}
use nudo.Deploy.Lifecycle.Rules.{Triple-check_cancelled, Triple-finish}
use nudo.Deploy.Artifact.{DeployOptions}
use nudo.Deploy.Releases.{service_row, remove_dir}
use nudo.Deploy.Releases.Rules.{Triple-prune_releases}
use nudo.Deploy.Execution.{commit_release, try_deploy}
use nudo.Deploy.Execution.Phases.{
  Before, Stopped, Ready, Shipped, Active, put-other, Triple-ship, Triple-configure, requested,
}
use nudo.Deploy.Execution.Fetch.{Triple-obtain_artifact}
use nudo.Deploy.Execution.Switch.{Checked, IsChecked, Triple-activate, Active-stop, Triple-verify}

module _ (env : Env) (link started_before : Option Text) (kept : Text → Option Text) where
  -- The new release is live, complete and recorded.
  abbrev pub Committed : Bool → World → Type 0
  Committed skip w =
      IsChecked env skip w
      × (w.host.current ≡ some env.new_release_id)
      × (w.host.running ≡ some env.new_release_id)
      × ((bytes : Text) × (w.host.releases env.new_release_id ≡ some bytes))
      × ((service : Service) × (w.db.service ≡ some service)
          × (service.current_release_id ≡ env.new_release_id))

  abbrev pub Deployed : Bool → World → Type 0
  Deployed skip w =
      Committed skip w × ((es : List Event) × (w.events ≡ finished_event succeeded ∷ es))

  module _ (service : Service) where
    recorded :
        (w : World)
        → w.db.service ≡ some service
        → update
            (λ s.
              if s.id == service.id
              then record s { current_release_id = env.new_release_id }
              else s)
            w.db.service
          ≡ some (record service { current_release_id = env.new_release_id })
    recorded w e = simp (e, ==_refl service.id) refl

    Triple-commit_release :
        (bytes : Text) (skip : Bool)
        → Triple
            (λ w.
              Active env link started_before kept service bytes w
              × Checked env skip service.health_check)
            (commit_release env service)
            (λ _. Committed skip)
            (Stopped env link started_before kept)
    unfolding commit_release set_current_release mark_release_pruned
    Triple-commit_release bytes skip =
        Triple-bind {Q = λ _. Committed skip}
          (Triple-perform env commit
            (λ w h. Active-stop env link started_before kept service bytes w h.0)
            (λ w h. halt bytes w h.0)
            λ w (((_, c, r, _, s), run), checked).
              ((_, recorded w s, checked), c, run, (bytes, r), (_, recorded w s, refl)))
          λ _.
            Triple-ignore (Triple-prune_releases env service env.new_release_id removes λ id w h. h)
      where
        halt :
            (bytes : Text) (w : World)
            → Active env link started_before kept service bytes w
            → Stopped env link started_before kept
                (on_db (set_current_release service.id env.new_release_id) w)
        halt bytes w ((e, c, r, others, s), _) = inr (e, inr c, (bytes, r), others)

        removes :
            (id : Text) (w : World)
            → id ≢ env.new_release_id
            → Committed skip w
            → Committed skip (on_host (remove_dir id) w)
        removes id w ne (checked, c, run, (b, r), s) = (
          checked,
          c,
          run,
          (b, put-other id env.new_release_id none w.host.releases (λ e. ne (sym e)) ∙ r),
          s,
        )

  service_row-eq-some :
      (id : Text) (w : World) (service : Service)
      → service_row id w ≡ some service
      → w.db.service ≡ some service
  service_row-eq-some id w service e = ground arith

  -- From the host as it is, the whole of `try_deploy` ends with the new release live and recorded, or
  -- stops with the host as it was or in the middle of the switch.
  pub Triple-try_deploy :
      (options : DeployOptions)
      → Triple
          (Before env link started_before kept)
          (try_deploy env options)
          (λ _. Deployed options.skip_health_check)
          (Stopped env link started_before kept)
  unfolding try_deploy set_deployment_status
  Triple-try_deploy options =
      Triple-bind {Q = λ _. Before env link started_before kept}
        (Triple-look env find_deployment (λ w h. inl h) λ w a e h. h)
        λ deployment.
          Triple-bind {Q = Ready env link started_before kept}
            (Triple-look env find_service (λ w h. inl h)
              λ w service e h. (h, service_row-eq-some deployment.service_id w service e))
            λ service.
              Triple-bind {Q = λ _. Ready env link started_before kept service}
                (Triple-look env find_target (λ w h. inl h.0) λ w a e h. h)
                λ _.
                  Triple-bind {Q = λ _. Ready env link started_before kept service}
                    (Triple-check_cancelled env before_fetch
                      (λ w (b, s). (b, requested env link started_before kept service w s))
                      λ w h. inl h.0)
                    λ _.
                      Triple-bind {Q = λ _. Ready env link started_before kept service}
                        (Triple-obtain_artifact env link started_before kept service options)
                        λ artifact.
                          Triple-bind
                            {Q = λ _. Shipped env link started_before kept service artifact.bytes}
                            (Triple-ship env link started_before kept service artifact)
                            λ _.
                              Triple-bind
                                {Q = λ _.
                                  Shipped env link started_before kept service artifact.bytes}
                                (Triple-configure env link started_before kept service
                                  artifact.bytes)
                                λ _.
                                  Triple-bind
                                    {Q = λ _.
                                      Active env link started_before kept service artifact.bytes}
                                    (Triple-activate env link started_before kept service
                                      artifact.bytes)
                                    λ _.
                                      Triple-bind
                                        {Q = λ _ w.
                                          Active env link started_before kept service artifact.bytes
                                            w
                                          × Checked env options.skip_health_check
                                              service.health_check}
                                        (Triple-verify env link started_before kept service
                                          artifact.bytes options.skip_health_check)
                                        λ _.
                                          Triple-bind {Q = λ _. Committed options.skip_health_check}
                                            (Triple-commit_release service artifact.bytes
                                              options.skip_health_check)
                                            λ _.
                                              Triple-finish env succeeded (λ w h. h)
                                                λ w h. (h, (w.events, refl))
