-- ===== src/SelfUpgrade/Run/Replaced.antt =====
-- The directory that a run leaves when its `exec` goes through.
use nudo.Prelude.{
  ◌≡◌, refl, ◌≤◌, inl, inr, true, false, ◌&&◌, Option, none, some, Text, codes, arith, text_eq,
  Bool-cases,
}
use nudo.Text.Split.{IsLine, IsLine-append}
use nudo.Text.Decimal.{max_u64}
use nudo.BootGuard.Journal.{Journal, swapped, one_line}
use nudo.BootGuard.Journal.RoundTrip.{IsWritable}
use nudo.BootGuard.Dir.{Dir, fine, load, store, load-store, swap_current, read_attempts}
use nudo.BootGuard.Guard.Boots.{IsPending}
use nudo.SelfUpgrade.Start.{Plan, digests_match}
use nudo.SelfUpgrade.Run.{
  Site, Env, replaced, target_of, journal_of, set_installed, restore, exec_new, swap_in, unpack,
  verified, run,
}

-- Where `exec` finds the directory: both journals are written, and the link is moved between them.
abbrev pub swapped_of : Journal → Journal
swapped_of j = record j { state = swapped }

swap_in-replaced :
    (env : Env) (j : Journal) (s : Site)
    → (swap_in env j s).1 ≡ replaced
    → (swap_in env j s).0.dir
      ≡ (store (swapped_of j) fine (swap_current j.target fine (store j fine s.dir).0).0).0
unfolding swap_in exec_new restore store swap_current
swap_in-replaced env j s h = ground arith

-- The directory of a run that is replaced, by the journal that it wrote.
abbrev pub swapped_dir : Journal → Dir → Dir
swapped_dir j d = (store (swapped_of j) fine (swap_current j.target fine (store j fine d).0).0).0

module _ (env : Env) (running : Text) (plan : Plan) (previous : Text) where
  abbrev pub written : Journal
  written = journal_of env running plan.version previous

  unpack-replaced :
      (s : Site)
      → s.dir.current ≡ some previous
      → (unpack env running plan.version s).1 ≡ replaced
      → (unpack env running plan.version s).0.dir ≡ swapped_dir written s.dir
  unfolding unpack
  unpack-replaced s e h = elim (Bool-cases env.unpacks) [
    | inr fails ↦ absurd (ground arith)
    | inl unpacks ↦ elim (Bool-cases (env.removes_staging && env.snapshots)) [
      | inr fails ↦ absurd (ground arith)
      | inl ready ↦
          simp (unpacks, ready, e)
            (swap_in-replaced env written (set_installed plan.version true s)
              (simp (unpacks, ready, e) at h))
    ]
  ]

  verified-replaced :
      (s : Site) (o : Option Text)
      → s.dir.current ≡ some previous
      → (verified env running plan s o).1 ≡ replaced
      → (verified env running plan s o).0.dir ≡ swapped_dir written s.dir
  verified-replaced s none e h = absurd (ground arith)
  verified-replaced s (some digest) e h =
      elim (Bool-cases (digests_match digest plan.expected_digest)) [
        | inr fails ↦ absurd (ground arith)
        | inl matches ↦ simp matches (unpack-replaced s e (simp matches at h))
      ]

  pub run-replaced :
      (s : Site)
      → s.dir.current ≡ some previous
      → (run env running plan s).1 ≡ replaced
      → (run env running plan s).0.dir ≡ swapped_dir written s.dir
  unfolding run
  run-replaced s e h = elim (Bool-cases env.clears) [
    | inr fails ↦ absurd (ground arith)
    | inl clears ↦ elim (Bool-cases env.creates) [
      | inr fails ↦ absurd (ground arith)
      | inl creates ↦
          simp (clears, creates)
            (verified-replaced (set_installed plan.version false s) (env.download plan.url) e
              (simp (clears, creates) at h))
    ]
  ]

  module _ (running_line : IsLine running) (version_line : IsLine plan.version)
      (previous_line : IsLine previous) (fits : env.now ≤ max_u64) where
    target-IsLine : IsLine (target_of plan.version)
    target-IsLine =
        IsLine-append (codes "releases/") plan.version (ground arith) (ground arith) version_line

    pub written-IsWritable : IsWritable (swapped_of written)
    written-IsWritable = record {
      from_version = running_line;
      to_version = version_line;
      previous = previous_line;
      target = target-IsLine;
      updated_at = fits;
    }

    pub swapped_dir-IsPending :
        (d : Dir)
        → d.attempts ≡ none
        → IsPending (swapped_of written) 0 (some (target_of plan.version)) (swapped_dir written d)
    unfolding store swap_current read_attempts one_line load
    swapped_dir-IsPending d fresh = record {
      loaded = load-store (swapped_of written) d written-IsWritable;
      in_flight = refl;
      counted = ground arith;
      linked = refl;
    }
