-- ===== src/Deploy/Execution/Switch.antt =====
-- The phases that change what is live: activation and the health check.
use nudo.Prelude.{◌≡◌, refl, ◌⊎◌, Bool, true, Option, some, Text, arith, inl, inr, text_eq, Elem}
use nudo.Systemd.Service.{Service, HealthCheck}
use nudo.Deploy.Status.{activating, health_checking}
use nudo.Deploy.World.{
  World, Host, Db, Env, Artifact, Event, status_event, finished_event, put, Failure, Check, swap,
  daemon_reload, enable, commit, before_fetch, before_activate, before_health, find_deployment,
  find_service, find_target, DeploymentRow,
}
use nudo.Deploy.World as World
use nudo.Deploy.Rows.{set_deployment_status}
use nudo.Deploy.Action.{on_host}
use nudo.Deploy.Action.Triple.{Triple, Triple-bind, Triple-perform, Triple-when, Triple-require}
use nudo.Deploy.Lifecycle.Rules.{Triple-check_cancelled, Triple-transition}
use nudo.Deploy.Releases.{service_row, target_row, deployment_row, remove_dir, cut_off}
use nudo.Deploy.Releases.Rules.{Triple-restart}
use nudo.Deploy.Health.{evaluate, healthy}
use nudo.Deploy.Execution.{activate, verify, is_healthy}
use nudo.Deploy.Execution.Phases.{Stopped, Shipped, Linked, Active, requested}

-- A health check was not wanted, or has passed.
abbrev pub Checked : Env → Bool → Option HealthCheck → Type 0
Checked env skip check = (skip ≡ true) ⊎ (evaluate env.probe check ≡ healthy)

-- The same for the health check of the service's row.
abbrev pub IsChecked : Env → Bool → World → Type 0
IsChecked env skip w =
    (service : Service) × (w.db.service ≡ some service) × Checked env skip service.health_check

module _ (env : Env) (link started_before : Option Text) (kept : Text → Option Text) where
  module _ (service : Service) where
    pub Triple-activate :
        (bytes : Text)
        → Triple
            (Shipped env link started_before kept service bytes)
            (activate env)
            (λ _. Active env link started_before kept service bytes)
            (Stopped env link started_before kept)
    unfolding activate set_deployment_status
    Triple-activate bytes =
        Triple-bind {Q = λ _. Shipped env link started_before kept service bytes}
          (Triple-check_cancelled env before_activate
            (λ w ((b, s), r). ((b, requested env link started_before kept service w s), r))
            λ w h. inl h.0.0)
          λ _.
            Triple-bind {Q = λ _. Announced}
              (Triple-transition env activating (λ w h. h) λ w h. (inl refl, h))
              λ _.
                Triple-bind {Q = λ _. Link} (Triple-perform env swap early_stop late_stop linked)
                  λ _.
                    Triple-bind {Q = λ _. Link}
                      (Triple-perform env daemon_reload stop stop λ w h. h)
                      λ _.
                        Triple-bind {Q = λ _. Link} (Triple-perform env enable stop stop λ w h. h)
                          λ _. Triple-restart env World.restart stop halted λ w h. (h, h.1)
      where
        Link : World → Type 0
        Link = Linked env link started_before kept service bytes

        Announced : World → Type 0
        Announced w =
            Elem (status_event activating) w.events
            × Shipped env link started_before kept service bytes w

        stop : (w : World) → Link w → Stopped env link started_before kept w
        stop w (e, c, r, others, s) = inr (e, inr c, (bytes, r), others)

        halted :
            (w : World)
            → Link w
            → Stopped env link started_before kept (on_host (cut_off env World.restart) w)
        halted w (e, c, r, others, s) = inr (e, inr c, (bytes, r), others)

        early_stop : (w : World) → Announced w → Stopped env link started_before kept w
        early_stop w (e, (((c, _, others), _), r)) = inr (e, inl c, (bytes, r), others)

        linked :
            (w : World)
            → Announced w
            → Link (on_host (nudo.Deploy.Releases.link_to env.new_release_id) w)
        linked w (e, (((c, _, others), s), r)) = (e, refl, r, others, s)

        late_stop :
            (w : World)
            → Announced w
            → Stopped env link started_before kept
                (on_host (nudo.Deploy.Releases.link_to env.new_release_id) w)
        late_stop w (e, (((c, _, others), s), r)) = inr (e, inr refl, (bytes, r), others)

    pub Active-stop :
        (bytes : Text) (w : World)
        → Active env link started_before kept service bytes w
        → Stopped env link started_before kept w
    Active-stop bytes w ((e, c, r, others, s), _) = inr (e, inr c, (bytes, r), others)

    pub Triple-verify :
        (bytes : Text) (skip : Bool)
        → Triple
            (Active env link started_before kept service bytes)
            (verify env service skip)
            (λ _ w.
              Active env link started_before kept service bytes w
              × Checked env skip service.health_check)
            (Stopped env link started_before kept)
    unfolding verify set_deployment_status
    Triple-verify bytes skip =
        Triple-when
          (λ _.
            Triple-bind {Q = λ _. Active env link started_before kept service bytes}
              (Triple-check_cancelled env before_health
                (λ w ((e, c, r, others, s), run).
                  ((e, c, r, others, requested env link started_before kept service w s), run))
                (Active-stop bytes))
              λ _.
                Triple-bind {Q = λ _. Active env link started_before kept service bytes}
                  (Triple-transition env health_checking (λ w h. h)
                    λ w ((e, c, r, others, s), run). ((inr e, c, r, others, s), run))
                  λ _. Triple-require _ (λ _. Active-stop bytes) λ e w h. (h, inr (passed e)))
          λ e w h. (h, inl (ground arith))
      where
        passed :
            is_healthy (evaluate env.probe service.health_check) ≡ true
            → evaluate env.probe service.health_check ≡ healthy
        passed e = ground arith
