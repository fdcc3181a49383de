-- ===== src/Deploy/Execution/Phases.antt =====
-- What each phase of a deployment leaves behind, whether it goes on or fails.
use nudo.Prelude.{
  ◌≡◌, ◌≢◌, ◌⊎◌, Option, some, Text, arith, inl, text_eq, ==_of_ne, ==_refl, ◌∙◌, Elem,
}
use nudo.Systemd.Service.{Service}
use nudo.Deploy.Status.{uploading, activating}
use nudo.Deploy.World.{
  World, Env, Artifact, status_event, put, connect, prepare, upload, place, record_release,
  bind_release, resolve_secrets, write_env, chown_env, write_unit, before_connect, before_secrets,
}
use nudo.Deploy.Rows.{create_release, set_deployment_release, set_deployment_status, request_cancel}
use nudo.Deploy.Action.{on_host, on_db}
use nudo.Deploy.Action.Triple.{Triple, Triple-bind, Triple-modify, Triple-perform, Triple-when}
use nudo.Deploy.Lifecycle.Rules.{Triple-check_cancelled, Triple-transition, service-request_cancel}
use nudo.Deploy.Execution.{move_into_place, ship, write_secrets, configure}

pub put-same : (id : Text) (v : Option Text) (m : Text → Option Text) → put id v m id ≡ v
put-same id v m = ground (arith, ==_refl id)

pub put-other :
    (id x : Text) (v : Option Text) (m : Text → Option Text) → x ≢ id → put id v m x ≡ m x
put-other id x v m ne = ground (arith, ==_of_ne x id ne)

module _ (env : Env) (link started_before : Option Text) (kept : Text → Option Text) where
  -- The host as it was, but for the new release.
  abbrev pub Before : World → Type 0
  Before w =
      (w.host.current ≡ link)
      × (w.host.running ≡ started_before)
      × ((x : Text) → x ≢ env.new_release_id → w.host.releases x ≡ kept x)

  -- The swap may have been made, and the new release is complete.
  abbrev pub Switching : World → Type 0
  Switching w =
      Elem (status_event activating) w.events
      × ((w.host.current ≡ link) ⊎ (w.host.current ≡ some env.new_release_id))
      × ((bytes : Text) × (w.host.releases env.new_release_id ≡ some bytes))
      × ((x : Text) → x ≢ env.new_release_id → w.host.releases x ≡ kept x)

  abbrev pub Stopped : World → Type 0
  Stopped w = Before w ⊎ Switching w

  module _ (service : Service) where
    abbrev pub Ready : World → Type 0
    Ready w = Before w × (w.db.service ≡ some service)

    abbrev pub Staged : Text → World → Type 0
    Staged bytes w = Ready w × (w.host.staged env.new_release_id ≡ some bytes)

    abbrev pub Shipped : Text → World → Type 0
    Shipped bytes w = Ready w × (w.host.releases env.new_release_id ≡ some bytes)

    abbrev pub Linked : Text → World → Type 0
    Linked bytes w =
        Elem (status_event activating) w.events
        × (w.host.current ≡ some env.new_release_id)
        × (w.host.releases env.new_release_id ≡ some bytes)
        × ((x : Text) → x ≢ env.new_release_id → w.host.releases x ≡ kept x)
        × (w.db.service ≡ some service)

    abbrev pub Active : Text → World → Type 0
    Active bytes w = Linked bytes w × (w.host.running ≡ some env.new_release_id)

    pub requested :
        (w : World)
        → w.db.service ≡ some service
        → (on_db (λ db. (request_cancel db).0) w).db.service ≡ some service
    requested w e = service-request_cancel w.db ∙ e

    pub Triple-ship :
        (artifact : Artifact)
        → Triple Ready (ship env service artifact) (λ _. Shipped artifact.bytes) Stopped
    unfolding ship set_deployment_status create_release set_deployment_release
    Triple-ship artifact =
        let id = env.new_release_id in
        Triple-bind {Q = λ _. Ready}
          (Triple-check_cancelled env before_connect (λ w (b, s). (b, requested w s))
            λ w h. inl h.0)
          λ _.
            Triple-bind {Q = λ _. Ready} (Triple-transition env uploading (λ w h. h) λ w h. h) λ _.
              Triple-bind {Q = λ _. Ready}
                (Triple-perform env connect (λ w h. inl h.0) (λ w h. inl h.0) λ w h. h)
                λ _.
                  Triple-bind {Q = λ _. Ready}
                    (Triple-perform env prepare (λ w h. inl h.0) (λ w h. inl h.0) λ w h. h)
                    λ _. Triple-bind {Q = λ _. Ready} (Triple-modify λ w h. h) λ _.
                      Triple-bind {Q = λ _. Staged artifact.bytes}
                        (Triple-perform env upload (λ w h. inl h.0) (λ w h. inl h.0)
                          λ w h. (h, put-same id (some artifact.bytes) w.host.staged))
                        λ _.
                          Triple-bind {Q = λ _. Shipped artifact.bytes}
                            (Triple-perform env place (λ w h. inl h.0.0)
                              (λ w h. inl (placed w h.0.0))
                              λ w h. (
                                (placed w h.0.0, h.0.1),
                                put-same id (w.host.staged id) w.host.releases ∙ h.1,
                              ))
                            λ _.
                              Triple-bind {Q = λ _. Shipped artifact.bytes}
                                (Triple-perform env record_release (λ w h. inl h.0.0)
                                  (λ w h. inl h.0.0) λ w h. h)
                                λ _.
                                  Triple-perform env bind_release (λ w h. inl h.0.0)
                                    (λ w h. inl h.0.0) λ w h. h
      where
        placed : (w : World) → Before w → Before (on_host (move_into_place env.new_release_id) w)
        placed w (c, r, others) = (
          c,
          r,
          λ x ne.
              put-other env.new_release_id x (w.host.staged env.new_release_id) w.host.releases ne
              ∙ others x ne,
        )

    pub Triple-configure :
        (bytes : Text) → Triple (Shipped bytes) (configure env service) (λ _. Shipped bytes) Stopped
    unfolding configure
    Triple-configure bytes =
        Triple-bind {Q = λ _. Shipped bytes}
          (Triple-check_cancelled env before_secrets (λ w ((b, s), r). ((b, requested w s), r))
            λ w h. inl h.0.0)
          λ _.
            Triple-bind {Q = λ _. Shipped bytes} (Triple-when (λ _. secrets) λ _ w h. h)
              λ _. Triple-perform env write_unit (λ w h. inl h.0.0) (λ w h. inl h.0.0) λ w h. h
      where
        secrets : Triple (Shipped bytes) (write_secrets env service) (λ _. Shipped bytes) Stopped
        secrets =
            Triple-bind {Q = λ _. Shipped bytes}
              (Triple-perform env resolve_secrets (λ w h. inl h.0.0) (λ w h. inl h.0.0) λ w h. h)
              λ _.
                Triple-bind {Q = λ _. Shipped bytes}
                  (Triple-perform env write_env (λ w h. inl h.0.0) (λ w h. inl h.0.0) λ w h. h)
                  λ _.
                    Triple-when
                      (λ _.
                        Triple-perform env chown_env (λ w h. inl h.0.0) (λ w h. inl h.0.0) λ w h. h)
                      λ _ w h. h
