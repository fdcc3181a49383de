-- ===== src/Deploy/Releases/Live.antt =====
-- `activate_release` on whatever path it takes: `current` always names a release that is complete.
use nudo.Prelude.{
  ◌≡◌, refl, true, Option, none, some, Text, if◌then◌else◌, arith, Bool-cases, inl, inr, ◌==◌,
  text_eq, sym, ◌∙◌, ap, Option-cases,
}
use nudo.Systemd.Service.{Service}
use nudo.Deploy.World.{
  World, Env, DeploymentRow, first_release, foreign_release, not_on_target, back_restart,
  back_deployment, back_service, back_target, back_release, back_connect, back_probe, back_swap,
  back_reload, back_commit,
}
use nudo.Deploy.Rows.{set_current_release, update}
use nudo.Deploy.Action.Triple.{
  Triple, Triple-bind, Triple-gets, Triple-perform, Triple-require, Triple-look, Post-weaken,
}
use nudo.Deploy.Releases.{
  service_row, has_binary, make_live, activate_release, rollback_after_failure,
}
use nudo.Deploy.Releases.Rules.{Triple-restart}

-- The release that the link names, if it names one, is on the target.
abbrev pub IsComplete : Option Text → (Text → Option Text) → Type 0
IsComplete none releases = Unit
IsComplete (some id) releases = (bytes : Text) × (releases id ≡ some bytes)

abbrev pub IsLive : World → Type 0
IsLive w = IsComplete w.host.current w.host.releases

-- A release is live, complete, started and recorded.
abbrev pub Serves : Text → World → Type 0
Serves id w =
    (w.host.current ≡ some id)
    × (w.host.running ≡ some id)
    × ((bytes : Text) × (w.host.releases id ≡ some bytes))
    × ((service : Service) × (w.db.service ≡ some service) × (service.current_release_id ≡ id))

-- The service is back at the release that the deployment's row names.
abbrev pub IsRestored : World → Type 0
IsRestored w =
    (row : DeploymentRow) × (w.db.deployment ≡ some row) × Serves row.previous_release_id w

bytes_of_has_binary :
    (id : Text) (w : World)
    → has_binary id w ≡ true
    → (bytes : Text) × (w.host.releases id ≡ some bytes)
bytes_of_has_binary id w e = elim (Option-cases (w.host.releases id)) [
  | inl none_there ↦ absurd (ground arith)
  | inr there ↦ there
]

pub service_row-eq-some :
    (id : Text) (w : World) {service : Service}
    → service_row id w ≡ some service
    → (w.db.service ≡ some service) × ((service.id == id) ≡ true)
service_row-eq-some id w {service} e = go w.db.service e
  where
    go :
        (o : Option Service)
        → elim o [ none ↦ none | some s ↦ if s.id == id then some s else none ] ≡ some service
        → (o ≡ some service) × ((service.id == id) ≡ true)
    go none h = absurd (ground arith)
    go (some s) h = elim (Bool-cases (s.id == id)) [
      | inl e ↦
          let found : some s ≡ some service = simp e at h in
          let same : s ≡ service = ground arith in
          (ap some same, ap (λ t. t.id == id) (sym same) ∙ e)
      | inr e ↦ absurd (ground arith)
    ]

module _ (env : Env) (service_id id : Text) (o : Option DeploymentRow) where
  abbrev HasService : World → Type 0
  HasService w =
      (service : Service) × (w.db.service ≡ some service) × ((service.id == service_id) ≡ true)

  abbrev Known : World → Type 0
  Known w = IsLive w × (w.db.deployment ≡ o) × HasService w

  abbrev Linked : World → Type 0
  Linked w =
      (w.host.current ≡ some id)
      × ((bytes : Text) × (w.host.releases id ≡ some bytes))
      × (w.db.deployment ≡ o)
      × HasService w

  -- The release is live, and the row of the deployment is as it was.
  abbrev pub IsSwitched : World → Type 0
  IsSwitched w = (w.db.deployment ≡ o) × Serves id w

  Linked-IsLive : (w : World) → Linked w → IsLive w
  Linked-IsLive w (c, b, _, _) = simp c b

  recorded :
      (w : World)
      → HasService w
      → (s : Service) × (update
            (λ s. if s.id == service_id then record s { current_release_id = id } else s)
            w.db.service
          ≡ some s)
        × (s.current_release_id ≡ id)
  recorded w (service, e, same) =
      (record service { current_release_id = id }, simp (e, same) refl, refl)

  Triple-make_live : Triple Known (make_live env service_id id) (λ _. IsSwitched) IsLive
  unfolding make_live set_current_release
  Triple-make_live =
      Triple-bind {Q = λ _. Known}
        (Triple-perform env back_connect (λ w h. h.0) (λ w h. h.0) λ w h. h)
        λ _.
          Triple-bind {Q = λ _. Known}
            (Triple-perform env back_probe (λ w h. h.0) (λ w h. h.0) λ w h. h)
            λ _.
              Triple-bind {Q = λ exists w. Known w × (has_binary id w ≡ exists)}
                (Triple-gets λ w h. (h, refl))
                λ exists.
                  Triple-bind {Q = λ _ w. Known w × (has_binary id w ≡ true)}
                    (Triple-require not_on_target (λ _ w h. h.0.0) λ e w (h, same). (h, same ∙ e))
                    λ _.
                      Triple-bind {Q = λ _. Linked}
                        (Triple-perform env back_swap (λ w h. h.0.0)
                          (λ w h. bytes_of_has_binary id w h.1)
                          λ w ((_, back, s), there).
                            (refl, bytes_of_has_binary id w there, back, s))
                        λ _.
                          Triple-bind {Q = λ _. Linked}
                            (Triple-perform env back_reload Linked-IsLive Linked-IsLive λ w h. h)
                            λ _.
                              Triple-bind {Q = λ _ w. Linked w × (w.host.running ≡ some id)}
                                (Triple-restart env back_restart Linked-IsLive Linked-IsLive
                                  λ w h. (h, h.0))
                                λ _.
                                  Triple-perform env back_commit (λ w h. Linked-IsLive w h.0)
                                    (λ w h. Linked-IsLive w h.0)
                                    λ w ((c, b, back, s), run). (back, (c, run, b, recorded w s))

  -- Making a release live either does so, or leaves the link complete.
  pub Triple-activate_release :
      Triple
        (λ w. IsLive w × (w.db.deployment ≡ o))
        (activate_release env service_id id)
        (λ _. IsSwitched)
        IsLive
  unfolding activate_release
  Triple-activate_release =
      Triple-bind {Q = λ s. Known}
        (Triple-look env back_service (λ w h. h.0)
          λ w s e (live, there).
            let (found, known) = service_row-eq-some service_id w e in
            (live, there, (s, found, known)))
        λ s.
          Triple-bind {Q = λ _. Known} (Triple-look env back_target (λ w h. h.0) λ w _ e h. h) λ _.
            Triple-bind {Q = λ _. Known} (Triple-look env back_release (λ w h. h.0) λ w _ e h. h)
              λ release.
                Triple-bind {Q = λ _. Known}
                  (Triple-require foreign_release (λ _ w h. h.0) λ _ w h. h) λ _. Triple-make_live

-- A rollback after a failure either restores the release that the row names, or leaves the link
-- complete.
pub Triple-rollback_after_failure :
    (env : Env) → Triple IsLive (rollback_after_failure env) (λ _. IsRestored) IsLive
unfolding rollback_after_failure
Triple-rollback_after_failure env =
    Triple-bind {Q = λ row w. IsLive w × (w.db.deployment ≡ some row)}
      (Triple-look env back_deployment (λ w h. h) λ w row e h. (h, e))
      λ row.
        Triple-bind {Q = λ _ w. IsLive w × (w.db.deployment ≡ some row)}
          (Triple-require first_release (λ _ w h. h.0) λ _ w h. h)
          λ _. record {
            at = λ w h.
                Post-weaken (λ _. IsSwitched env row.service_id row.previous_release_id (some row))
                  (λ _. IsRestored) IsLive IsLive
                  (activate_release env row.service_id row.previous_release_id w)
                  (λ _ w' (same, back). (row, same, back)) (λ w' live. live)
                  ((Triple-activate_release env row.service_id row.previous_release_id
                      (some row)).at
                    w h);
          }
