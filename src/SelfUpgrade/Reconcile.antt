-- ===== src/SelfUpgrade/Reconcile.antt =====
-- `reconcile_in`, at the start of a process, and `prune_releases`. The audit log and the copy of the
-- guard's binary are left out.
pub mod Laws
use nudo.Prelude.{
  ℕ, Bool, true, false, not, List, [], ◌∷◌, ◌++◌, Option, none, some, Text, codes, if◌then◌else◌,
  ◌==◌, text_eq, Result, ok, err, filter, drop, any,
}
use nudo.Text.Trim.{strip_prefix}
use nudo.BootGuard.Journal.{Journal, JournalState, confirmed, failed}
use nudo.BootGuard.Dir.{Dir, Fault, load, store, clear_attempts}
use nudo.BootGuard.Guard.{is_swapped}

pub record Env : Type 0 where
  pub journal_readable : Bool
  pub store_fault : Fault
  pub clear_works : Bool
  pub now : ℕ

abbrev pub mismatch : Journal → Text → Text
mismatch j running =
    codes "after the swap to "
    ++ (j.to_version
        ++ (codes ", the process came up as "
            ++ (running ++ codes " — the release did not become what it claimed")))

abbrev pub confirmed_of : Journal → ℕ → Journal
confirmed_of j now = record j { state = confirmed; updated_at = now }

abbrev pub mismatched_of : Journal → Text → ℕ → Journal
mismatched_of j running now = record j {
  state = failed;
  updated_at = now;
  error = mismatch j running;
}

unfoldable pub settle : Env → Text → Journal → Dir → Dir
settle env running j d =
    let (d', noted) = store (confirmed_of j env.now) env.store_fault d in
    if j.to_version == running
    then if noted then clear_attempts env.clear_works d' else d'
    else (store (mismatched_of j running env.now) env.store_fault d).0

abbrev pub settle_if_swapped : Env → Text → Result (Unit {0}) (Option Journal) → Dir → Dir
settle_if_swapped env running (err e) d = d
settle_if_swapped env running (ok none) d = d
settle_if_swapped env running (ok (some j)) d =
    if is_swapped j.state then settle env running j d else d

unfoldable pub reconcile_in : Env → Text → Dir → Dir
reconcile_in env running d = settle_if_swapped env running (load env.journal_readable d) d

abbrev pub keep_releases : ℕ
keep_releases = 3

abbrev pub release_named : Option Text → List Text
release_named none = []
release_named (some rel) = elim (strip_prefix (codes "releases/") rel) [
  | none ↦ []
  | some v ↦ v ∷ []
]

abbrev pub kept : Journal → Option Text → List Text
kept j current =
    release_named (some j.previous) ++ (release_named (some j.target) ++ release_named current)

-- `prune_releases`, over the directories in the order of their versions, newest first.
unfoldable pub doomed : Journal → Option Text → List Text → List Text
doomed j current versions =
    filter (λ v. not (any (λ k. k == v) (kept j current))) (drop keep_releases versions)
