-- ===== src/BootGuard/Guard/Laws.antt =====
-- What one run of the guard may do.
use nudo.Prelude.{
  ℕ, ◌+◌, ◌%◌, ◌^◌, ◌≤◌, ◌≡◌, refl, ◌⊎◌, inl, inr, Bool, true, Option, none, some, arith, Result,
  ok, err, Bool-cases,
}
use nudo.BootGuard.Journal.{JournalState, swapped, Journal}
use nudo.BootGuard.Dir.{
  Dir, Fault, load, store, read_attempts, write_attempts, clear_attempts, swap_current,
}
use nudo.BootGuard.Guard.{
  Env, is_swapped, revert, count_start, after_load, guard, max_boot_attempts,
}

-- Why the guard moved the link: a swapped journal, and the last permitted start.
pub record IsDue (env : Env) (d : Dir) (j : Journal) : Type 0 where
  pub loaded : load env.journal_readable d ≡ ok (some j)
  pub in_flight : j.state ≡ swapped
  pub exhausted : max_boot_attempts ≤ (read_attempts env.attempts_readable d + 1) % 2 ^ 32

revert-current :
    (env : Env) (j : Journal) (n : ℕ) (d : Dir)
    → ((revert env j n d).current ≡ d.current) ⊎ ((revert env j n d).current ≡ some j.previous)
unfolding revert swap_current store clear_attempts
revert-current env j n d = ground arith

pub current-write_attempts :
    (n : ℕ) (f : Fault) (d : Dir) → (write_attempts n f d).0.current ≡ d.current
unfolding write_attempts
current-write_attempts n f d = ground arith

current-clear_attempts : (b : Bool) (d : Dir) → (clear_attempts b d).current ≡ d.current
unfolding clear_attempts
current-clear_attempts b d = ground arith

count_start-current :
    (env : Env) (j : Journal) (d : Dir)
    → ((count_start env j d).current ≡ d.current)
      ⊎ (((count_start env j d).current ≡ some j.previous)
          × (max_boot_attempts ≤ (read_attempts env.attempts_readable d + 1) % 2 ^ 32))
unfolding count_start
count_start-current env j d =
    let n = (read_attempts env.attempts_readable d + 1) % 2 ^ 32 in
    ground (arith, current-write_attempts n env.count_fault d, revert-current env j n d)

eq-swapped_of_is_swapped : (s : JournalState) → is_swapped s ≡ true → s ≡ swapped
eq-swapped_of_is_swapped s h = ground arith

abbrev IsCautious : Env → Dir → Dir → Type 0
IsCautious env d d' =
    (d'.current ≡ d.current) ⊎ ((j : Journal) × IsDue env d j × (d'.current ≡ some j.previous))

after_load-IsCautious :
    (env : Env) (d : Dir) (r : Result (Unit {0}) (Option Journal))
    → load env.journal_readable d ≡ r
    → IsCautious env d (after_load env r d)
unfolding after_load
after_load-IsCautious env d (err e) h = inl refl
after_load-IsCautious env d (ok none) h = inl (current-clear_attempts env.clear_works d)
after_load-IsCautious env d (ok (some j)) h = elim (Bool-cases (is_swapped j.state)) [
  | inl e ↦ rw e (elim (count_start-current env j d) [
    | inl same ↦ inl same
    | inr (moved, due) ↦ inr (
      j,
      record { loaded = h; in_flight = eq-swapped_of_is_swapped j.state e; exhausted = due },
      moved,
    )
  ])
  | inr e ↦ rw e (inl (current-clear_attempts env.clear_works d))
]

-- Whatever fails, the link is where it was, or it points at the previous release of a journal that
-- is swapped and out of starts.
pub guard-IsCautious :
    (env : Env) (d : Dir)
    → ((guard env d).current ≡ d.current)
      ⊎ ((j : Journal) × IsDue env d j × ((guard env d).current ≡ some j.previous))
unfolding guard
guard-IsCautious env d = after_load-IsCautious env d (load env.journal_readable d) refl
