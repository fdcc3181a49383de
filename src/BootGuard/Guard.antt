-- ===== src/BootGuard/Guard.antt =====
-- `nudo-boot-guard`, of crates/bootguard/src/main.rs. What is only printed is left out.
pub mod Laws
pub mod Boots
use nudo.Prelude.{
  ℕ, ◌+◌, ◌%◌, ◌^◌, Bool, true, false, not, List, [], ◌∷◌, ◌++◌, Option, none, some, Text, codes,
  if◌then◌else◌, ltb, Result, ok, err,
}
use nudo.Text.Decimal.{to_string}
use nudo.BootGuard.Journal.{
  JournalState, staged, swapped, confirmed, exec_failed, rolled_back, failed, Journal,
}
use nudo.BootGuard.Dir.{
  Dir, Fault, load, store, read_attempts, write_attempts, clear_attempts, swap_current,
}

abbrev pub max_boot_attempts : ℕ
max_boot_attempts = 3

pub data ExitCode : Type 0 where
  success failure : ExitCode

-- How each operation of one run fares, and the clock.
pub record Env : Type 0 where
  pub journal_readable : Bool
  pub attempts_readable : Bool
  pub clear_works : Bool
  pub count_fault : Fault
  pub swap_fault : Fault
  pub record_fault : Fault
  pub epoch_seconds : ℕ

abbrev pub is_swapped : JournalState → Bool
is_swapped swapped = true
is_swapped _ = false

unfoldable pub crash_loop_error : Journal → ℕ → Text
crash_loop_error j attempts =
    j.to_version
    ++ codes " crash-looped ("
    ++ to_string attempts
    ++ codes " starts without confirming); reverted to "
    ++ j.from_version

abbrev pub rolled_back_of : Journal → ℕ → ℕ → Journal
rolled_back_of j attempts now = record j {
  state = rolled_back;
  updated_at = now;
  error = crash_loop_error j attempts;
}

-- The link first; the journal only if that worked.
revert : Env → Journal → ℕ → Dir → Dir
revert env j attempts d =
    let (d', swapped_back) = swap_current j.previous env.swap_fault d in
    if swapped_back
    then clear_attempts env.clear_works
        (store (rolled_back_of j attempts env.epoch_seconds) env.record_fault d').0
    else d'

-- `u32` addition wraps in a release build.
count_start : Env → Journal → Dir → Dir
unfolding revert
count_start env j d =
    let attempts = (read_attempts env.attempts_readable d + 1) % 2 ^ 32 in
    if ltb attempts max_boot_attempts
    then (write_attempts attempts env.count_fault d).0
    else revert env j attempts d

after_load : Env → Result (Unit {0}) (Option Journal) → Dir → Dir
unfolding count_start
after_load env (err e) d = d
after_load env (ok none) d = clear_attempts env.clear_works d
after_load env (ok (some j)) d =
    if is_swapped j.state then count_start env j d else clear_attempts env.clear_works d

unfoldable pub guard : Env → Dir → Dir
unfolding after_load
guard env d = after_load env (load env.journal_readable d) d

-- `main`: without its argument it fails the start, and otherwise never does.
pub main : Env → Option Dir → Option Dir × ExitCode
unfolding guard
main env none = (none, failure)
main env (some d) = (some (guard env d), success)
