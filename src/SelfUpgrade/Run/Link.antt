-- ===== src/SelfUpgrade/Run/Link.antt =====
-- Where the link can be after an upgrade.
use nudo.Prelude.{
  ◌≡◌, refl, ◌⊎◌, inl, inr, true, false, Option, none, some, Text, arith, text_eq, ==_refl,
  Bool-cases, ◌∙◌,
}
use nudo.BootGuard.Journal.{Journal}
use nudo.BootGuard.Dir.{Dir, Fault, store, swap_current}
use nudo.SelfUpgrade.Start.{Plan, digests_match}
use nudo.SelfUpgrade.Run.{
  Site, Env, Ending, replaced, returned, stopped, target_of, journal_of, set_installed, restore,
  exec_new, swap_in, link_to_new, unpack, verified, run, upgrade, note_failure, failure_of,
}

current-store : (j : Journal) (f : Fault) (d : Dir) → (store j f d).0.current ≡ d.current
unfolding store
current-store j f d = ground arith

current-swap_current :
    (rel : Text) (f : Fault) (d : Dir)
    → ((swap_current rel f d).0.current ≡ d.current) ⊎ ((swap_current rel f d).0.current ≡ some rel)
unfolding swap_current
current-swap_current rel f d = ground arith

restore-current :
    (env : Env) (j : Journal) (s : Site)
    → ((restore env j s).0.dir.current ≡ s.dir.current)
      ⊎ ((restore env j s).0.dir.current ≡ some j.previous)
unfolding restore store swap_current
restore-current env j s = ground arith

-- The link is at the target, or where it was, or at the previous release of the journal.
swap_in-current :
    (env : Env) (j : Journal) (s : Site)
    → s.dir.current ≡ some j.previous
    → ((swap_in env j s).0.dir.current ≡ s.dir.current)
      ⊎ ((swap_in env j s).0.dir.current ≡ some j.target)
unfolding swap_in exec_new restore store swap_current
swap_in-current env j s h = ground arith

swap_in-installed :
    (env : Env) (j : Journal) (s : Site) (v : Text)
    → (swap_in env j s).0.installed v ≡ s.installed v
unfolding swap_in exec_new restore
swap_in-installed env j s v = ground arith

-- The release that an upgrade was started for is linked: it is unpacked, and what was downloaded has
-- the digest that was expected.
abbrev pub IsUpgraded : Env → Plan → Site → Type 0
IsUpgraded env plan s =
    (s.dir.current ≡ some (target_of plan.version))
    × (s.installed plan.version ≡ true)
    × ((digest : Text) × (env.download plan.url ≡ some digest)
        × (digests_match digest plan.expected_digest ≡ true))

module _ (env : Env) (running : Text) (plan : Plan) where
  link_to_new-link :
      (s : Site) (o : Option Text)
      → s.dir.current ≡ o
      → s.installed plan.version ≡ true
      → ((link_to_new env running plan.version s o).0.dir.current ≡ s.dir.current)
        ⊎ (((link_to_new env running plan.version s o).0.dir.current
              ≡ some (target_of plan.version))
            × ((link_to_new env running plan.version s o).0.installed plan.version ≡ true))
  link_to_new-link s none e there = inl refl
  link_to_new-link s (some previous) e there =
      let j = journal_of env running plan.version previous in
      elim (swap_in-current env j s e) [
        | inl same ↦ inl same
        | inr moved ↦ inr (moved, swap_in-installed env j s plan.version ∙ there)
      ]

  unpack-link :
      (s : Site)
      → ((unpack env running plan.version s).0.dir.current ≡ s.dir.current)
        ⊎ (((unpack env running plan.version s).0.dir.current ≡ some (target_of plan.version))
            × ((unpack env running plan.version s).0.installed plan.version ≡ true))
  unfolding unpack
  unpack-link s = ground (
    arith,
    link_to_new-link (set_installed plan.version true s) s.dir.current refl
        (ground (arith, ==_refl plan.version)),
  )

  verified-link :
      (s : Site) (o : Option Text)
      → env.download plan.url ≡ o
      → ((verified env running plan s o).0.dir.current ≡ s.dir.current)
        ⊎ IsUpgraded env plan (verified env running plan s o).0
  verified-link s none e = inl refl
  verified-link s (some digest) e = elim (Bool-cases (digests_match digest plan.expected_digest)) [
    | inr fails ↦ simp fails (inl refl)
    | inl matches ↦ simp matches (elim (unpack-link s) [
      | inl same ↦ inl same
      | inr (moved, there) ↦ inr (moved, there, (digest, e, matches))
    ])
  ]

  run-link :
      (s : Site)
      → ((run env running plan s).0.dir.current ≡ s.dir.current)
        ⊎ IsUpgraded env plan (run env running plan s).0
  unfolding run
  run-link s = elim (Bool-cases env.clears) [
    | inr fails ↦ simp fails (inl refl)
    | inl clears ↦ elim (Bool-cases env.creates) [
      | inr fails ↦ simp (clears, fails) (inl refl)
      | inl creates ↦
          simp (clears, creates)
            (verified-link (set_installed plan.version false s) (env.download plan.url) refl)
    ]
  ]

  note_failure-link :
      (s : Site) (error : Text) (r : Site × Ending)
      → (r.0.dir.current ≡ s.dir.current) ⊎ IsUpgraded env plan r.0
      → ((note_failure env running plan error r).0.dir.current ≡ s.dir.current)
        ⊎ IsUpgraded env plan (note_failure env running plan error r).0
  note_failure-link s error (r, replaced) h = h
  note_failure-link s error (r, returned) h = h
  note_failure-link s error (r, stopped) h =
      let same = current-store (failure_of env running plan.version error) env.failed_fault r.dir in
      elim h [ inl e ↦ inl (same ∙ e) | inr (moved, there, rest) ↦ inr (same ∙ moved, there, rest) ]

  -- Whatever fails, an upgrade leaves the link where it was, or it has linked the release that it was
  -- started for, which is unpacked and was downloaded with the digest that was expected.
  pub upgrade-link :
      (error : Text) (s : Site)
      → ((upgrade env running plan error s).0.dir.current ≡ s.dir.current)
        ⊎ IsUpgraded env plan (upgrade env running plan error s).0
  unfolding upgrade
  upgrade-link error s = note_failure-link s error (run env running plan s) (run-link s)
