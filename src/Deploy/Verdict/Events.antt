-- ===== src/Deploy/Verdict/Events.antt =====
-- The events of a deployment, and the row that they leave.
use nudo.Prelude.{◌≡◌, refl, true, List, ◌∷◌, All}
use nudo.Deploy.Status.{Status, is_terminal, succeeded, failed, rolled_back, cancelled}
use nudo.Deploy.World.{
  World, Env, Event, status_event, finished_event, find_deployment, find_service, find_target,
  before_fetch,
}
use nudo.Deploy.Action.Triple.{Triple, Triple-bind, Triple-look}
use nudo.Deploy.Lifecycle.{finish}
use nudo.Deploy.Lifecycle.Rules.{Triple-finish, Triple-check_cancelled}
use nudo.Deploy.Artifact.{DeployOptions}
use nudo.Deploy.Execution.{try_deploy, run_deploy}
use nudo.Deploy.Execution.Keeps.{
  IsStable, Keeps-obtain_artifact, Keeps-ship, Keeps-configure, Keeps-activate, Keeps-verify,
  Keeps-commit_release, Keeps-rollback_after_failure,
}
use nudo.Deploy.Execution.Ending.{finish-keeps, record_failure-keeps, run_deploy-ends}

abbrev pub IsAnnouncement : Event → Type 0
IsAnnouncement (status_event s) = Unit
IsAnnouncement (finished_event s) = ⊥

-- No verdict yet.
abbrev pub IsOpen : World → Type 0
IsOpen w = All IsAnnouncement w.events

-- One verdict, which is terminal, as the last event.
abbrev pub IsOver : World → Type 0
IsOver w =
    (s : Status) × (is_terminal s ≡ true)
    × ((es : List Event) × (w.events ≡ finished_event s ∷ es) × All IsAnnouncement es)

IsOpen-IsStable : IsStable (λ w. IsOpen w)
IsOpen-IsStable = record {
  host_keeps = λ f w h. h;
  db_keeps = λ f w h. h;
  status_keeps = λ s w h. (tt, h);
}

module _ (env : Env) where
  Triple-body :
      {P : World → Type 0} (Q : World → Type 0) (st : IsStable P) (options : DeployOptions)
      → Triple P (finish env succeeded) (λ _. Q) P
      → Triple P (try_deploy env options) (λ _. Q) P
  unfolding try_deploy
  Triple-body {P} Q st options last =
      Triple-bind {Q = λ _. P} (Triple-look env find_deployment (λ w h. h) λ w a e h. h) λ row.
        Triple-bind {Q = λ _. P} (Triple-look env find_service (λ w h. h) λ w a e h. h) λ service.
          Triple-bind {Q = λ _. P} (Triple-look env find_target (λ w h. h) λ w a e h. h) λ _.
            Triple-bind {Q = λ _. P}
              (Triple-check_cancelled env before_fetch (st.db_keeps _) λ w h. h)
              λ _.
                Triple-bind {Q = λ _. P} (Keeps-obtain_artifact env st service options) λ artifact.
                  Triple-bind {Q = λ _. P} (Keeps-ship env st service artifact) λ _.
                    Triple-bind {Q = λ _. P} (Keeps-configure env st service) λ _.
                      Triple-bind {Q = λ _. P} (Keeps-activate env st) λ _.
                        Triple-bind {Q = λ _. P}
                          (Keeps-verify env st service options.skip_health_check)
                          λ _.
                            Triple-bind {Q = λ _. P} (Keeps-commit_release env st service) λ _. last

-- A deployment that starts without a verdict among its events ends with exactly one: it is the last
-- event, its status is terminal, and no other event is a verdict.
pub run_deploy-IsOver :
    (env : Env) (options : DeployOptions) (w : World) → IsOpen w → IsOver (run_deploy env options w)
unfolding is_terminal
run_deploy-IsOver env options w open_yet =
    run_deploy-ends (λ w. IsOver w) (λ w. IsOpen w) (λ w. IsOpen w) (λ w. IsOver w) env options w
      ((Triple-body env (λ w. IsOver w) IsOpen-IsStable options
          (Triple-finish env succeeded (λ w h. h) λ w h. (succeeded, refl, (w.events, refl, h)))).at
        w open_yet)
      (λ w h. h) (λ f w h. record_failure-keeps (λ w. IsOpen w) env f w (λ g w h. h) h)
      (λ w auto h. (Keeps-rollback_after_failure env IsOpen-IsStable).at w h)
      (λ w e h. over cancelled refl w h) (λ w h. over failed refl w h)
      (λ w e h. over rolled_back refl w h)
  where
    over : (s : Status) → is_terminal s ≡ true → (w : World) → IsOpen w → IsOver (finish env s w).0
    over s t w h =
        finish-keeps (λ w. IsOpen w) (λ w. IsOver w) env s w (λ w h. h)
          (λ w h. (s, t, (w.events, refl, h))) h
