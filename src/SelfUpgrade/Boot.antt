-- ===== src/SelfUpgrade/Boot.antt =====
-- An upgrade whose `exec` went through, followed by starts: of a release that confirms itself, and of
-- one that never does.
use nudo.Prelude.{
  ◌≡◌, refl, ◌≤◌, [], ◌∷◌, inl, inr, Bool, true, false, none, some, Text, arith, text_eq, ==_refl,
  ◌∙◌, ok,
}
use nudo.Text.Split.{IsLine}
use nudo.Text.Decimal.{max_u64}
use nudo.BootGuard.Journal.{Journal, confirmed}
use nudo.BootGuard.Journal.RoundTrip.{sanitized}
use nudo.BootGuard.Dir.{Dir, fine, load, store, load-store, swap_current, clear_attempts}
use nudo.BootGuard.Guard.{guard, is_swapped}
use nudo.BootGuard.Guard.{Env as GuardEnv}
use nudo.BootGuard.Guard.Laws.{guard-IsCautious}
use nudo.BootGuard.Guard.Boots.{boots, IsWorking, boots-IsReverted}
use nudo.SelfUpgrade.Start.{Plan}
use nudo.SelfUpgrade.Run.{Site, Env, replaced, target_of, run}
use nudo.SelfUpgrade.Reconcile.{reconcile_in, settle, confirmed_of}
use nudo.SelfUpgrade.Reconcile.{Env as ReconcileEnv}
use nudo.SelfUpgrade.Run.Replaced.{
  swapped_of, swapped_dir, written, run-replaced, written-IsWritable, swapped_dir-IsPending,
}

-- The versions and the previous link are single lines, the clocks are in range, the link named the
-- previous release and no starts were counted; the new binary was executed. If it never confirms
-- itself, and every file operation of the guard works in three starts, then the link names the new
-- release after two starts and the previous release after the third.
pub run-boots :
    (env : Env) (running : Text) (plan : Plan) (previous : Text) (s : Site)
    (first second third : GuardEnv)
    → IsLine running
    → IsLine plan.version
    → IsLine previous
    → env.now ≤ max_u64
    → IsWorking first
    → IsWorking second
    → IsWorking third
    → third.epoch_seconds ≤ max_u64
    → s.dir.current ≡ some previous
    → s.dir.attempts ≡ none
    → (run env running plan s).1 ≡ replaced
    → ((boots (first ∷ second ∷ []) (run env running plan s).0.dir).current
        ≡ some (target_of plan.version))
      × ((boots (first ∷ second ∷ third ∷ []) (run env running plan s).0.dir).current
          ≡ some previous)
run-boots env running plan previous s first second third r v p fits works works' works'' fits'
      linked fresh h =
    let j = swapped_of (written env running plan previous) in
    let (twice, thrice) =
      boots-IsReverted j first second third (swapped_dir (written env running plan previous) s.dir)
        (some (target_of plan.version)) (written-IsWritable env running plan previous r v p fits)
        works works' works'' fits'
        (swapped_dir-IsPending env running plan previous r v p fits s.dir fresh) in
    simp (run-replaced env running plan previous s linked h) (twice, thrice.linked)

-- A confirmed journal keeps the guard's hands off the link.
guard-confirmed :
    (env : GuardEnv) (d : Dir) (j : Journal)
    → load true d ≡ ok (some j)
    → j.state ≡ confirmed
    → (guard env d).current ≡ d.current
unfolding load
guard-confirmed env d j loaded state = elim (guard-IsCautious env d) [
  | inl same ↦ same
  | inr (j', due, moved) ↦ absurd (ground (arith, loaded, state, due.loaded, due.in_flight))
]

load-clear_attempts : (works : Bool) (d : Dir) → load true (clear_attempts works d) ≡ load true d
unfolding load clear_attempts
load-clear_attempts true d = refl
load-clear_attempts false d = refl

current-clear_attempts : (works : Bool) (d : Dir) → (clear_attempts works d).current ≡ d.current
unfolding clear_attempts
current-clear_attempts true d = refl
current-clear_attempts false d = refl

settle-confirms :
    (env : ReconcileEnv) (d : Dir) (j : Journal)
    → env.store_fault ≡ fine
    → settle env j.to_version j d
      ≡ clear_attempts env.clear_works (store (confirmed_of j env.now) fine d).0
unfolding settle store
settle-confirms env d j stores = simp (stores, ==_refl j.to_version) refl

reconcile_in-confirms :
    (env : ReconcileEnv) (d : Dir) (j : Journal)
    → env.journal_readable ≡ true
    → env.store_fault ≡ fine
    → load true d ≡ ok (some j)
    → is_swapped j.state ≡ true
    → reconcile_in env j.to_version d
      ≡ clear_attempts env.clear_works (store (confirmed_of j env.now) fine d).0
unfolding reconcile_in
reconcile_in-confirms env d j readable stores loaded state =
    simp (readable, loaded, state) (settle-confirms env d j stores)

-- The versions and the previous link are single lines, the clocks are in range, the link named the
-- previous release and no starts were counted; the new binary was executed. If it comes up as the
-- version that it was installed for, reads the journal and records that, then the guard leaves the
-- link at the new release, whatever fails in the guard.
pub run-confirmed :
    (env : Env) (running : Text) (plan : Plan) (previous : Text) (s : Site) (renv : ReconcileEnv)
    (genv : GuardEnv)
    → IsLine running
    → IsLine plan.version
    → IsLine previous
    → env.now ≤ max_u64
    → renv.now ≤ max_u64
    → renv.journal_readable ≡ true
    → renv.store_fault ≡ fine
    → s.dir.current ≡ some previous
    → s.dir.attempts ≡ none
    → (run env running plan s).1 ≡ replaced
    → (guard genv (reconcile_in renv plan.version (run env running plan s).0.dir)).current
      ≡ some (target_of plan.version)
unfolding store swap_current
run-confirmed env running plan previous s renv genv r v p fits fits' readable stores linked fresh
      h =
    let j = swapped_of (written env running plan previous) in
    let d = swapped_dir (written env running plan previous) s.dir in
    let pending = swapped_dir-IsPending env running plan previous r v p fits s.dir fresh in
    let writable = written-IsWritable env running plan previous r v p fits in
    let settled = (store (confirmed_of j renv.now) fine d).0 in
    let reloaded =
      load-clear_attempts renv.clear_works settled
      ∙ load-store (confirmed_of j renv.now) d (record {
        from_version = writable.from_version;
        to_version = writable.to_version;
        previous = writable.previous;
        target = writable.target;
        updated_at = fits';
      }) in
    simp
      (
        run-replaced env running plan previous s linked h,
        reconcile_in-confirms renv d j readable stores pending.loaded refl,
      )
      (guard-confirmed genv (clear_attempts renv.clear_works settled)
          (sanitized (confirmed_of j renv.now)) reloaded refl
        ∙ current-clear_attempts renv.clear_works settled
        ∙ stored)
  where
    stored :
        (store
          (confirmed_of (swapped_of (written env running plan previous)) renv.now)
          fine
          (swapped_dir (written env running plan previous) s.dir)).0.current
        ≡ some (target_of plan.version)
    stored = ground arith
