-- ===== src/Deploy/Releases/Rules.antt =====
-- What a restart, a sweep and `activate_release` establish.
use nudo.Prelude.{
  ◌≢◌, not, List, [], ◌∷◌, Text, Result, Bool-cases, inl, inr, ◌==◌, text_eq, ne_of_==, All, filter,
  drop,
}
use nudo.BootGuard.Dir.{Fault, fine, early, late}
use nudo.Systemd.Service.{Service}
use nudo.Systemd.Retention.{releases_to_prune, effective_keep}
use nudo.Deploy.World.{World, Env, Step, Failure, list_old}
use nudo.Deploy.Rows.{mark_release_pruned}
use nudo.Deploy.Action.{on_host, on_db, with_fault}
use nudo.Deploy.Action.Triple.{Triple, Post, Triple-bind, Triple-pure, Triple-gets, Triple-perform}
use nudo.Deploy.Releases.{
  cut_off, systemctl_restart, started, prune_all, prune_releases, remove_dir,
}

module _ {P Q E : World → Type 0} where
  pub Triple-restart :
      (env : Env) (s : Step)
      → ((w : World) → P w → E w)
      → ((w : World) → P w → E (on_host (cut_off env s) w))
      → ((w : World) → P w → Q (on_host started w))
      → Triple P (systemctl_restart env s) (λ _. Q) E
  unfolding systemctl_restart
  Triple-restart env s he hl hq = record { at = λ w h. go w h (env.fault s) }
    where
      go :
          (w : World)
          → P w
          → (x : Fault)
          → Post
              (λ _. Q)
              E
              (elim x as (λ _. World × Result Failure (Unit {0})) [
                | fine ↦ with_fault fine s w (on_host started w)
                | early ↦ with_fault early s w w
                | late ↦ with_fault late s w (on_host (cut_off env s) w)
              ])
      go w h fine = hq w h
      go w h early = he w h
      go w h late = hl w h

  Triple-fault :
      {effect : World → World} (x : Fault) (s : Step)
      → ((w : World) → P w → E w)
      → ((w : World) → P w → E (effect w))
      → ((w : World) → P w → Q (effect w))
      → Triple P (λ w. with_fault x s w (effect w)) (λ _. Q) E
  Triple-fault fine s he hl hq = record { at = hq }
  Triple-fault early s he hl hq = record { at = he }
  Triple-fault late s he hl hq = record { at = hl }

All-doomed :
    (R : Text → Type 0) (current : Text) (ids : List Text)
    → ((id : Text) → id ≢ current → R id)
    → All R (filter (λ id. not (id == current)) ids)
All-doomed R current [] h = tt
All-doomed R current (id ∷ ids) h = elim (Bool-cases (id == current)) [
  | inl e ↦ simp e (All-doomed R current ids h)
  | inr e ↦ simp e (h id (ne_of_== id current e), All-doomed R current ids h)
]

module _ {P : World → Type 0} (env : Env) where
  -- A sweep keeps what the removal of each of its directories, and the mark on each row, keep.
  Triple-prune_all :
      (ids : List Text)
      → All
          (λ id.
            ((w : World) → P w → P (on_host (remove_dir id) w))
            × ((w : World) → P w → P (on_db (mark_release_pruned id) w)))
          ids
      → Triple P (prune_all env ids) (λ _. P) P
  unfolding prune_all
  Triple-prune_all [] h = Triple-pure λ w p. p
  Triple-prune_all (id ∷ ids) ((removes, marks), h) =
      Triple-bind {Q = λ _. P} (Triple-fault (env.remove id) list_old (λ w p. p) removes removes)
        λ _.
          Triple-bind {Q = λ _. P} (Triple-fault (env.mark id) list_old (λ w p. p) marks marks)
            λ _. Triple-prune_all ids h

  pub Triple-prune_releases :
      (service : Service) (current : Text)
      → ((id : Text) (w : World) → id ≢ current → P w → P (on_host (remove_dir id) w))
      → ((id : Text) (w : World) → P w → P (on_db (mark_release_pruned id) w))
      → Triple P (prune_releases env service current) (λ _. P) P
  unfolding prune_releases releases_to_prune
  Triple-prune_releases service current removes marks =
      Triple-bind {Q = λ _. P} (Triple-perform env list_old (λ w p. p) (λ w p. p) (λ w p. p)) λ _.
        Triple-bind {Q = λ _. P} (Triple-gets λ w p. p) λ ids.
          Triple-prune_all (releases_to_prune ids service.keep_releases current) (
            All-doomed _ current (drop (effective_keep service.keep_releases) ids)
              λ id ne. ((λ w p. removes id w ne p), marks id))
