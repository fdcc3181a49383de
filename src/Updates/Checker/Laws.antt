-- ===== src/Updates/Checker/Laws.antt =====
-- What a check records and reports.
use nudo.Prelude.{
  ◌≡◌, refl, ◌⊎◌, inl, inr, Bool, true, false, not, ◌||◌, Option, none, some, Text, Result, ok, err,
  text_eq, arith, is_empty, Bool-cases,
}
use nudo.Updates.Version.{is_newer}
use nudo.Updates.Ladder.{Release, Manifest, latest}
use nudo.Updates.Ladder.Laws.{IsBest, best_known_version-IsBest}
use nudo.Updates.Checker.{
  Row, UpdateStatus, Serde, Env, release_check_enabled, version_in, recorded_latest_version,
  record_latest_version, unknown, conclude, with_recorded, with_latest, with_fetched, check_now,
  cached_status,
}

module _ (serde : Serde) (running : Text) where
  -- A check that went through: what was fetched, what was chosen, and what was recorded.
  pub record IsChecked (env : Env) (row : Option Row) (s : UpdateStatus) (row' : Option Row)
      : Type 0 where
    pub manifest : Manifest
    pub newest : Release
    pub fetched : env.fetched ≡ ok manifest
    pub is_latest : latest manifest ≡ some newest
    pub best : IsBest newest.version (version_in row) running s.latest_known
    pub current : s.current ≡ running
    pub live : s.available ≡ is_newer s.latest_known running
    pub recorded : row' ≡ record_latest_version s.latest_known (serde.write manifest) env.now row

  abbrev pub Outcome : Env → Option Row → Result Text UpdateStatus × Option Row → Type 0
  Outcome env row (ok s, row') =
      ((s ≡ unknown serde running) × (row' ≡ row)) ⊎ IsChecked env row s row'
  Outcome env row (err e, row') = row' ≡ row

  conclude-Outcome :
      (env : Env) (m : Manifest) (newest : Release) (row : Option Row)
      → env.fetched ≡ ok m
      → latest m ≡ some newest
      → Outcome env row (conclude serde running env m newest (version_in row) row)
  unfolding conclude
  conclude-Outcome env m newest row h k = elim (Bool-cases env.record_query) [
    | inl e ↦ rw e (
        inr (record {
          manifest = m;
          newest = newest;
          fetched = h;
          is_latest = k;
          best = best_known_version-IsBest newest.version (version_in row) running;
          current = refl;
          live = refl;
          recorded = refl;
        }))
    | inr e ↦ rw e refl
  ]

  with_recorded-Outcome :
      (env : Env) (m : Manifest) (newest : Release) (row : Option Row)
      → env.fetched ≡ ok m
      → latest m ≡ some newest
      → Outcome env row (
          with_recorded serde running env m newest row
            (recorded_latest_version env.version_query row))
  unfolding recorded_latest_version
  with_recorded-Outcome env m newest row h k = elim (Bool-cases env.version_query) [
    | inl e ↦ simp e (conclude-Outcome env m newest row h k)
    | inr e ↦ simp e
  ]

  with_latest-Outcome :
      (env : Env) (m : Manifest) (row : Option Row) (o : Option Release)
      → env.fetched ≡ ok m
      → latest m ≡ o
      → Outcome env row (with_latest serde running env m row o)
  with_latest-Outcome env m row none h k = refl
  with_latest-Outcome env m row (some newest) h k = with_recorded-Outcome env m newest row h k

  with_fetched-Outcome :
      (env : Env) (row : Option Row) (r : Result Text Manifest)
      → env.fetched ≡ r
      → Outcome env row (with_fetched serde running env row r)
  with_fetched-Outcome env row (err e) h = refl
  with_fetched-Outcome env row (ok m) h = with_latest-Outcome env m row (latest m) h refl

  -- A check that fails leaves the row alone; one that is switched off reports nothing and leaves the
  -- row alone; any other reports the ladder's choice, tells live whether it is newer than the
  -- running version, and records that choice with the manifest.
  pub check_now-Outcome :
      (config_enabled : Bool) (env : Env) (row : Option Row)
      → Outcome env row (check_now serde running config_enabled env row)
  unfolding check_now
  check_now-Outcome config_enabled env row =
      elim (Bool-cases (not config_enabled || not (release_check_enabled env.enabled_query row))) [
        | inl e ↦ rw e (inl (refl, refl))
        | inr e ↦ rw e (with_fetched-Outcome env row env.fetched refl)
      ]

module _ (serde : Serde) (running : Text) where
  -- Without a network call, and while the switch is on, the version that a check reported is
  -- reported again, and whether it is newer is told again, live.
  pub cached_status-check :
      (env : Env) (row row' : Option Row) (s : UpdateStatus)
      → IsChecked serde running env row s row'
      → release_check_enabled true row' ≡ true
      → is_empty s.latest_known ≡ false
      → ((cached_status serde running true true true row').current ≡ s.current)
        × ((cached_status serde running true true true row').latest_known ≡ s.latest_known)
        × ((cached_status serde running true true true row').available ≡ s.available)
  unfolding cached_status release_check_enabled record_latest_version
  cached_status-check env none row' s c on named =
      rw c.recorded (rw named (ground arith, ground arith, ground arith))
  cached_status-check env (some r) row' s c on named =
      let on' : r.enabled ≡ true = rw c.recorded at on in
      rw c.recorded (rw (on', named) (ground arith, ground arith, ground arith))
