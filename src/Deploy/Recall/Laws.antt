-- ===== src/Deploy/Recall/Laws.antt =====
-- What the answer to a rollback means for the host.
use nudo.Prelude.{
  ◌≡◌, ◌≢◌, sym, subst, [], ◌⊎◌, refl, inl, inr, Bool, true, false, List, ◌∷◌, Option, none, some,
  Text, Result, ok, err, Elem,
}
use nudo.BootGuard.Dir.{Fault, fine, early, late}
use nudo.Systemd.Service.{Service}
use nudo.Systemd.Retention.{RollbackError}
use nudo.Systemd.Retention.Rollback.{rollback_target-Verdict, Verdict}
use nudo.Deploy.Status.{succeeded, failed}
use nudo.Deploy.World.{World, Env, Event, finished_event, Failure, note_error}
use nudo.Deploy.Rows.{set_deployment_release, set_deployment_status, set_deployment_error}
use nudo.Deploy.Action.{on_db, perform, ignore}
use nudo.Deploy.Action.Triple.{Post, Post-weaken}
use nudo.Deploy.Releases.{release_ids, activate_release}
use nudo.Deploy.Releases.Live.{IsLive, IsComplete, Serves, IsSwitched, Triple-activate_release}
use nudo.Deploy.Execution.Ending.{finish-keeps}
use nudo.Deploy.Recall.{
  Writes, Answer, started, opened, settled, roll_to, noted, bound, created, authorized_to,
  chosen_by, rollback,
}

-- The task has announced its verdict, and the release serves if that is success.
abbrev pub IsAnnounced : Text → World → Type 0
IsAnnounced chosen w =
    (es : List Event) × ((w.events ≡ finished_event succeeded ∷ es) × Serves chosen w
      ⊎ (w.events ≡ finished_event failed ∷ es))

abbrev pub Means : World → Service → World × Answer → Type 0
Means w service (after, started chosen) =
    Elem chosen (release_ids service.id w)
    × (chosen ≢ service.current_release_id)
    × IsLive after
    × IsAnnounced chosen after
Means w service (after, _) = (after.host ≡ w.host) × (after.events ≡ w.events)

-- A failure is noted on the row of the deployment, and the host is left alone.
failure-IsLive :
    (env : Env) (failure : Failure) (f : Fault) (w : World)
    → env.fault note_error ≡ f
    → IsLive w
    → IsLive (ignore (perform env note_error (on_db (set_deployment_error failure))) w).0
unfolding ignore perform
failure-IsLive env failure fine w e h = simp e h
failure-IsLive env failure early w e h = simp e h
failure-IsLive env failure late w e h = simp e h

settled-IsAnnounced :
    (env : Env) (chosen : Text) (r : World × Result Failure (Unit {0}))
    → Post (λ _ w. IsLive w × Serves chosen w) IsLive r
    → IsLive (settled env r) × IsAnnounced chosen (settled env r)
unfolding settled set_deployment_status
settled-IsAnnounced env chosen (w, ok _) h =
    finish-keeps (λ w. IsLive w × Serves chosen w) (λ w. IsLive w × IsAnnounced chosen w) env
      succeeded w (λ w h. h) (λ w (live, serves). (live, (w.events, inl (refl, serves)))) h
settled-IsAnnounced env chosen (w, err failure) h =
    finish-keeps IsLive (λ w. IsLive w × IsAnnounced chosen w) env failed _ (λ w h. h)
      (λ w live. (live, (w.events, inr refl)))
      (failure-IsLive env failure (env.fault note_error) w refl h)

Serves-IsLive : (chosen : Text) (w : World) → Serves chosen w → IsLive w
Serves-IsLive chosen w (current, _, bytes, _) = simp current bytes

roll_to-IsAnnounced :
    (env : Env) (service_id chosen : Text) (w : World)
    → IsLive w
    → IsLive (roll_to env service_id chosen w)
      × IsAnnounced chosen (roll_to env service_id chosen w)
unfolding roll_to
roll_to-IsAnnounced env service_id chosen w h =
    settled-IsAnnounced env chosen (activate_release env service_id chosen w) (
      Post-weaken (λ _. IsSwitched env service_id chosen w.db.deployment)
        (λ _ w. IsLive w × Serves chosen w) IsLive IsLive (activate_release env service_id chosen w)
        (λ _ w' (_, serves). (Serves-IsLive chosen w' serves, serves)) (λ _ live. live)
        ((Triple-activate_release env service_id chosen w.db.deployment).at w (h, refl)))

module _ (env : Env) (writes : Writes) (service : Service) (w : World) (live : IsLive w) where
  noted-Means :
      (f : Fault) (chosen : Text) (v : World)
      → v.host ≡ w.host
      → v.events ≡ w.events
      → Elem chosen (release_ids service.id w)
      → (chosen ≢ service.current_release_id)
      → Means w service (noted env f service chosen v)
  noted-Means fine chosen v host events kept other =
      let (alive, said) =
        roll_to-IsAnnounced env service.id chosen _
          (subst (λ h. IsComplete h.current h.releases) (sym host) live) in
      (kept, other, alive, said)
  noted-Means early chosen v host events kept other = (host, events)
  noted-Means late chosen v host events kept other = (host, events)

  bound-Means :
      (f : Fault) (chosen : Text) (v : World)
      → v.host ≡ w.host
      → v.events ≡ w.events
      → Elem chosen (release_ids service.id w)
      → (chosen ≢ service.current_release_id)
      → Means w service (bound env writes f service chosen v)
  bound-Means fine chosen v host events kept other =
      noted-Means writes.notes chosen (on_db (set_deployment_release chosen []) v) host events kept
        other
  bound-Means early chosen v host events kept other = (host, events)
  bound-Means late chosen v host events kept other = (host, events)

  created-Means :
      (f : Fault) (chosen : Text)
      → Elem chosen (release_ids service.id w)
      → (chosen ≢ service.current_release_id)
      → Means w service (created env writes f service chosen w)
  created-Means fine chosen kept other =
      bound-Means writes.binds chosen (on_db (opened service) w) refl refl kept other
  created-Means early chosen kept other = (refl, refl)
  created-Means late chosen kept other = (refl, refl)

  chosen_by-Means :
      (authorized : Option Bool) (requested : Text) (r : Result RollbackError Text)
      → Verdict (release_ids service.id w) service.current_release_id requested r
      → Means w service (chosen_by env writes authorized service r w)
  unfolding chosen_by authorized_to
  chosen_by-Means none requested (err e) v = (refl, refl)
  chosen_by-Means (some dry_run) requested (err e) v = (refl, refl)
  chosen_by-Means none requested (ok chosen) v = (refl, refl)
  chosen_by-Means (some true) requested (ok chosen) v = (refl, refl)
  chosen_by-Means (some false) requested (ok chosen) (kept, other, _) =
      created-Means writes.creates chosen kept other

  -- From a link that is complete: a rollback that answers that it has started goes to a retained release
  -- other than the current one, its task leaves the link complete and ends with a verdict for the
  -- watchers, and if that is success, the chosen release is linked, runs and is recorded. With any
  -- other answer the host is untouched and nothing is announced.
  pub rollback-Means :
      (authorized : Option Bool) (requested : Text)
      → Means w service (rollback env writes authorized requested service w)
  unfolding rollback
  rollback-Means authorized requested =
      chosen_by-Means authorized requested _
        (rollback_target-Verdict (release_ids service.id w) service.current_release_id requested)
