-- ===== src/BootGuard/Guard/Boots.antt =====
-- Repeated starts of a release that never confirms.
use nudo.Prelude.{
  ℕ, List, [], ◌∷◌, subst, sym, ◌+◌, ◌%◌, ◌^◌, ◌≤◌, ◌<◌, ◌≡◌, refl, true, Option, none, some, arith,
  ok, Text, ◌∙◌, lt→ltb,
}
use nudo.BootGuard.Journal.{swapped, rolled_back, Journal}
use nudo.BootGuard.Journal.RoundTrip.{IsWritable, sanitized}
use nudo.Text.Decimal.{max_u64}
use nudo.BootGuard.Dir.{
  Dir, fine, load, store, read_attempts, write_attempts, clear_attempts, swap_current,
  read_attempts-write_attempts, load-store,
}
use nudo.BootGuard.Guard.Laws.{current-write_attempts}
use nudo.BootGuard.Guard.{
  Env, rolled_back_of, revert, count_start, after_load, guard, max_boot_attempts,
}

-- A run in which every file operation works.
abbrev pub working : ℕ → Env
working now = record {
  journal_readable = true;
  attempts_readable = true;
  clear_works = true;
  count_fault = fine;
  swap_fault = fine;
  record_fault = fine;
  epoch_seconds = now;
}

abbrev pub IsWorking : Env → Type 0
IsWorking env = env ≡ working env.epoch_seconds

-- The starts that systemd makes one after another, however the file operations of each fare.
unfoldable pub boots : List Env → Dir → Dir
boots [] d = d
boots (env ∷ later) d = boots later (guard env d)

-- A swapped release that has been started some number of times.
pub record IsPending (j : Journal) (starts : ℕ) (link : Option Text) (d : Dir) : Type 0 where
  pub loaded : load true d ≡ ok (some j)
  pub in_flight : j.state ≡ swapped
  pub counted : read_attempts true d ≡ starts
  pub linked : d.current ≡ link

load-write_attempts : (n : ℕ) (d : Dir) → load true (write_attempts n fine d).0 ≡ load true d
unfolding load write_attempts
load-write_attempts n d = refl

load-clear_attempts : (d : Dir) → load true (clear_attempts true d) ≡ load true d
unfolding load clear_attempts
load-clear_attempts d = refl

guard_step :
    (now : ℕ) (d : Dir) (j : Journal)
    → load true d ≡ ok (some j)
    → j.state ≡ swapped
    → guard (working now) d ≡ count_start (working now) j d
unfolding guard
guard_step now d j h s = rw (h, after_load) (rw s)

module _ (now : ℕ) (d : Dir) (j : Journal) (starts : ℕ)
    (counted : read_attempts true d ≡ starts) where
  count_start_below :
      starts + 1 < max_boot_attempts
      → count_start (working now) j d ≡ (write_attempts (starts + 1) fine d).0
  unfolding count_start
  count_start_below below =
      let e : (read_attempts true d + 1) % 2 ^ 32 ≡ starts + 1 = omega arith in
      rw (e, lt→ltb (starts + 1) max_boot_attempts below)

  count_start_at :
      starts + 1 ≡ max_boot_attempts
      → count_start (working now) j d ≡ revert (working now) j max_boot_attempts d
  unfolding count_start
  count_start_at limit =
      let e : (read_attempts true d + 1) % 2 ^ 32 ≡ max_boot_attempts = omega arith in rw e

-- Below the limit a start is counted, and nothing else changes.
guard-IsPending :
    (now : ℕ) (d : Dir) (j : Journal) (starts : ℕ) (link : Option Text)
    → IsPending j starts link d
    → starts + 1 < max_boot_attempts
    → IsPending j (starts + 1) link (guard (working now) d)
guard-IsPending now d j starts link p below =
    rw (guard_step now d j p.loaded p.in_flight, count_start_below now d j starts p.counted below)
      (record {
        loaded = load-write_attempts (starts + 1) d ∙ p.loaded;
        in_flight = p.in_flight;
        counted = read_attempts-write_attempts (starts + 1) d (omega arith);
        linked = current-write_attempts (starts + 1) fine d ∙ p.linked;
      })

start-IsPending :
    (env : Env) (d : Dir) (j : Journal) (starts : ℕ) (link : Option Text)
    → IsWorking env
    → IsPending j starts link d
    → starts + 1 < max_boot_attempts
    → IsPending j (starts + 1) link (guard env d)
start-IsPending env d j starts link works p below =
    subst (λ e. IsPending j (starts + 1) link (guard e d)) (sym works)
      (guard-IsPending env.epoch_seconds d j starts link p below)

-- At the limit the link goes back, the journal records it, and the counter is gone.
pub record IsReverted (j : Journal) (d : Dir) : Type 0 where
  pub linked : d.current ≡ some j.previous
  pub forgotten : d.attempts ≡ none
  pub written : Journal
  pub loaded : load true d ≡ ok (some written)
  pub recorded : written.state ≡ rolled_back
  pub same_previous : written.previous ≡ j.previous
  pub same_target : written.target ≡ j.target

module _ (j : Journal) (w : IsWritable j) (now : ℕ) (fits : now ≤ max_u64) where
  rolled_back_of-IsWritable : (n : ℕ) → IsWritable (rolled_back_of j n now)
  rolled_back_of-IsWritable n = record {
    from_version = w.from_version;
    to_version = w.to_version;
    previous = w.previous;
    target = w.target;
    updated_at = fits;
  }

  revert-IsReverted : (n : ℕ) (d : Dir) → IsReverted j (revert (working now) j n d)
  unfolding revert swap_current clear_attempts
  revert-IsReverted n d = record {
    linked = unfold store in refl;
    forgotten = refl;
    written = sanitized (rolled_back_of j n now);
    loaded =
        load-clear_attempts
          (store (rolled_back_of j n now) fine (record d { current = some j.previous })).0
        ∙ load-store (rolled_back_of j n now) (record d { current = some j.previous })
            (rolled_back_of-IsWritable n);
    recorded = refl;
    same_previous = refl;
    same_target = refl;
  }

  guard-IsReverted :
      (d : Dir) (link : Option Text) → IsPending j 2 link d → IsReverted j (guard (working now) d)
  guard-IsReverted d link p =
      rw (guard_step now d j p.loaded p.in_flight, count_start_at now d j 2 p.counted (omega arith))
        (revert-IsReverted max_boot_attempts d)

-- The journal says that a release is swapped, its versions and links are single lines, its time is in range, and
-- no start was counted. If every file operation of the guard works in three starts, and the clock is in
-- range at the third, then the link stays for two starts, and at the third it is back at the previous
-- release, with the rollback recorded and the counter removed.
pub boots-IsReverted :
    (j : Journal) (first second third : Env) (d : Dir) (link : Option Text)
    → IsWritable j
    → IsWorking first
    → IsWorking second
    → IsWorking third
    → third.epoch_seconds ≤ max_u64
    → IsPending j 0 link d
    → ((boots (first ∷ second ∷ []) d).current ≡ link)
      × IsReverted j (boots (first ∷ second ∷ third ∷ []) d)
unfolding boots
boots-IsReverted j first second third d link w works works' works'' fits p =
    let once = start-IsPending first d j 0 link works p (omega arith) in
    let twice = start-IsPending second (guard first d) j 1 link works' once (omega arith) in
    let end = guard second (guard first d) in
    (
      twice.linked,
      subst (λ e. IsReverted j (guard e end)) (sym works'')
          (guard-IsReverted j w third.epoch_seconds fits end link twice),
    )
