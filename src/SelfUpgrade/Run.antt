-- ===== src/SelfUpgrade/Run.antt =====
-- `run`: download, verify, unpack, journal, swap, exec; and the arm of `start` that records a failure.
pub mod Link
pub mod Replaced
use nudo.Prelude.{
  ℕ, Bool, true, false, ◌&&◌, List, [], ◌∷◌, ◌++◌, Option, none, some, Text, codes, if◌then◌else◌,
  ◌==◌, text_eq,
}
use nudo.BootGuard.Journal.{Journal, JournalState, staged, swapped, exec_failed, failed}
use nudo.BootGuard.Dir.{Dir, Fault, store, swap_current}
use nudo.SelfUpgrade.Start.{Plan, digests_match}

-- The self directory, and which releases are unpacked in it.
pub record Site : Type 0 where
  pub dir : Dir
  pub installed : Text → Bool

-- How each step of one run fares.
pub record Env : Type 0 where
  pub clears : Bool
  pub creates : Bool
  pub download : Text → Option Text
  pub unpacks : Bool
  pub removes_staging : Bool
  pub snapshots : Bool
  pub staged_fault : Fault
  pub swap_fault : Fault
  pub swapped_fault : Fault
  pub exec_works : Bool
  pub exec_error : Text
  pub revert_fault : Fault
  pub exec_failed_fault : Fault
  pub failed_fault : Fault
  pub now : ℕ

-- `exec` has replaced the process, `run` has returned, or it has returned an error.
pub data Ending : Type 0 where
  replaced returned stopped : Ending

abbrev pub target_of : Text → Text
target_of version = codes "releases/" ++ version

abbrev pub journal_of : Env → Text → Text → Text → Journal
journal_of env running version previous = record {
  state = staged;
  from_version = running;
  to_version = version;
  previous = previous;
  target = target_of version;
  updated_at = env.now;
  error = [];
}

abbrev pub set_installed : Text → Bool → Site → Site
set_installed version b s = record s { installed = λ v. if v == version then b else s.installed v }

abbrev pub with_dir : Dir → Site → Site
with_dir d s = record s { dir = d }

-- Reached when `exec` has failed.
unfoldable pub restore : Env → Journal → Site → Site × Ending
restore env j s =
    let (d, back) = swap_current j.previous env.revert_fault s.dir in
    let (d', noted) =
      store
        (record j {
          state = exec_failed;
          error = codes "exec of the new binary failed: " ++ env.exec_error;
        })
        env.exec_failed_fault d in
    if back then (with_dir d' s, if noted then returned else stopped) else (with_dir d s, stopped)

unfoldable pub exec_new : Env → Journal → Site → Site × Ending
unfolding restore
exec_new env j s = let back = restore env j s in if env.exec_works then (s, replaced) else back

-- Behind the unpacking: the journal, the link, the journal again.
unfoldable pub swap_in : Env → Journal → Site → Site × Ending
unfolding exec_new
swap_in env j s =
    let (d₁, noted) = store j env.staged_fault s.dir in
    let (d₂, linked) = swap_current j.target env.swap_fault d₁ in
    let (d₃, recorded) = store (record j { state = swapped }) env.swapped_fault d₂ in
    if noted
    then if linked
      then if recorded
        then exec_new env (record j { state = swapped }) (with_dir d₃ s)
        else (with_dir d₃ s, stopped)
      else (with_dir d₂ s, stopped)
    else (with_dir d₁ s, stopped)

abbrev pub link_to_new : Env → Text → Text → Site → Option Text → Site × Ending
link_to_new env running version s none = (s, stopped)
link_to_new env running version s (some previous) =
    swap_in env (journal_of env running version previous) s

unfoldable pub unpack : Env → Text → Text → Site → Site × Ending
unfolding swap_in
unpack env running version s =
    if env.unpacks
    then if env.removes_staging && env.snapshots
      then link_to_new env running version (set_installed version true s) s.dir.current
      else (set_installed version true s, stopped)
    else (s, stopped)

abbrev pub verified : Env → Text → Plan → Site → Option Text → Site × Ending
verified env running plan s none = (s, stopped)
verified env running plan s (some digest) =
    if digests_match digest plan.expected_digest
    then unpack env running plan.version s
    else (s, stopped)

unfoldable pub run : Env → Text → Plan → Site → Site × Ending
unfolding unpack
run env running plan s =
    if env.clears
    then if env.creates
      then verified env running plan (set_installed plan.version false s) (env.download plan.url)
      else (set_installed plan.version false s, stopped)
    else (s, stopped)

abbrev pub failure_of : Env → Text → Text → Text → Journal
failure_of env running version error = record {
  state = failed;
  from_version = running;
  to_version = version;
  previous = [];
  target = [];
  updated_at = env.now;
  error = error;
}

abbrev pub note_failure : Env → Text → Plan → Text → Site × Ending → Site × Ending
note_failure env running plan error (s, stopped) = (
  with_dir (store (failure_of env running plan.version error) env.failed_fault s.dir).0 s,
  stopped,
)
note_failure env running plan error (s, e) = (s, e)

-- The spawned task.
unfoldable pub upgrade : Env → Text → Plan → Text → Site → Site × Ending
upgrade env running plan error s = note_failure env running plan error (run env running plan s)
