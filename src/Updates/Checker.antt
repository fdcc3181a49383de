-- ===== src/Updates/Checker.antt =====
-- `UpdateChecker` and the `release_check` row that it keeps (crates/server/src/store/settings.rs).
-- The network and `serde_json` are parameters; a query may fail.
pub mod Laws
use nudo.Prelude.{
  ◌≡◌, ℕ, Bool, true, false, not, ◌&&◌, ◌||◌, List, [], ◌∷◌, Option, none, some, Text, codes,
  if◌then◌else◌, find, ◌==◌, text_eq, Result, ok, err, is_empty, ◌>>=◌, ok_or,
}
use nudo.Updates.Version.{is_newer}
use nudo.Updates.Ladder.{Release, Manifest, latest, best_known_version}

pub record Row : Type 0 where
  pub latest_version : Text
  pub manifest : Text
  pub checked_at : ℕ
  pub enabled : Bool
  pub skipped_version : Text

pub record UpdateStatus : Type 0 where
  pub current : Text
  pub latest_known : Text
  pub available : Bool
  pub breaking : Bool
  pub url : Text

-- `serde_json` on manifests.
pub record Serde : Type 0 where
  pub write : Manifest → Text
  pub read : Text → Option Manifest

-- How the queries of one call fare, the answer of the network, and the clock.
pub record Env : Type 0 where
  pub enabled_query : Bool
  pub version_query : Bool
  pub record_query : Bool
  pub fetched : Result Text Manifest
  pub now : ℕ

abbrev row_enabled : Option Row → Bool
row_enabled none = true
row_enabled (some r) = r.enabled

-- `release_check_enabled().await.unwrap_or(true)`
unfoldable pub release_check_enabled : Bool → Option Row → Bool
release_check_enabled answers row = if answers then row_enabled row else true

abbrev pub version_in : Option Row → Text
version_in none = []
version_in (some r) = r.latest_version

unfoldable pub recorded_latest_version : Bool → Option Row → Result Text Text
recorded_latest_version answers row = if answers then ok (version_in row) else err (codes "query")

abbrev pub manifest_in : Option Row → Option Text
manifest_in none = none
manifest_in (some r) = some r.manifest

-- An upsert: the columns that the statement does not name keep their values or their defaults.
abbrev recorded_row : Text → Text → ℕ → Option Row → Row
recorded_row version manifest now none = record {
  latest_version = version;
  manifest = manifest;
  checked_at = now;
  enabled = true;
  skipped_version = [];
}
recorded_row version manifest now (some r) = record r {
  latest_version = version;
  manifest = manifest;
  checked_at = now;
}

unfoldable pub record_latest_version : Text → Text → ℕ → Option Row → Option Row
record_latest_version version manifest now row = some (recorded_row version manifest now row)

unfoldable pub set_release_check_enabled : Bool → ℕ → Option Row → Option Row
set_release_check_enabled on now none = some (record {
  latest_version = [];
  manifest = codes "{}";
  checked_at = now;
  enabled = on;
  skipped_version = [];
})
set_release_check_enabled on now (some r) = some (record r { enabled = on })

unfoldable pub skip_version : Text → ℕ → Option Row → Option Row
skip_version version now none = some (record {
  latest_version = [];
  manifest = codes "{}";
  checked_at = now;
  enabled = true;
  skipped_version = version;
})
skip_version version now (some r) = some (record r { skipped_version = version })

abbrev pub unwrap_or {ℓ} : {A : Type ℓ} → Option A → A → A
unwrap_or none d = d
unwrap_or (some a) d = a

module _ (serde : Serde) (running : Text) where
  unfoldable pub unknown : UpdateStatus
  unknown = record {
    current = running;
    latest_known = running;
    available = false;
    breaking = false;
    url = [];
  }

  -- The notes belong to whichever release won.
  abbrev advertised : Manifest → Release → Text → Release
  advertised m newest best = unwrap_or (find (λ r. r.version == best) m.releases) newest

  abbrev pub status_of : Text → Bool → Text → UpdateStatus
  status_of best breaking url = record {
    current = running;
    latest_known = best;
    available = is_newer best running;
    breaking = breaking;
    url = url;
  }

  -- Behind the fetch and the query: choose, record, and answer.
  unfoldable pub conclude :
      Env → Manifest → Release → Text → Option Row → Result Text UpdateStatus × Option Row
  conclude env m newest recorded row =
      let best = best_known_version newest.version recorded running in
      let shown = advertised m newest best in
      if env.record_query
      then (
        ok (status_of best shown.breaking shown.url),
        record_latest_version best (serde.write m) env.now row,
      )
      else (err (codes "query"), row)

  abbrev with_recorded :
      Env
      → Manifest
      → Release
      → Option Row
      → Result Text Text
      → Result Text UpdateStatus × Option Row
  with_recorded env m newest row (ok recorded) = conclude env m newest recorded row
  with_recorded env m newest row (err e) = (err e, row)

  abbrev with_latest :
      Env → Manifest → Option Row → Option Release → Result Text UpdateStatus × Option Row
  with_latest env m row none = (err (codes "the release manifest lists no releases"), row)
  with_latest env m row (some newest) =
      with_recorded env m newest row (recorded_latest_version env.version_query row)

  abbrev with_fetched :
      Env → Option Row → Result Text Manifest → Result Text UpdateStatus × Option Row
  with_fetched env row (err e) = (err e, row)
  with_fetched env row (ok m) = with_latest env m row (latest m)

  -- `check_now`: the row afterwards stands beside the answer.
  unfoldable pub check_now : Bool → Env → Option Row → Result Text UpdateStatus × Option Row
  unfolding unknown conclude
  check_now config_enabled env row =
      if not config_enabled || not (release_check_enabled env.enabled_query row)
      then (ok unknown, row)
      else with_fetched env row env.fetched

  abbrev breaking_of : Option Release → Bool
  breaking_of none = false
  breaking_of (some r) = r.breaking

  abbrev url_of : Option Release → Text
  url_of none = []
  url_of (some r) = r.url

  abbrev pub read_manifest : Option Text → Manifest
  read_manifest none = record { releases = [] }
  read_manifest (some raw) = unwrap_or (serde.read raw) (record { releases = [] })

  -- `cached_status`, with the queries that fail answered by their defaults.
  unfoldable pub cached_status : Bool → Bool → Bool → Option Row → UpdateStatus
  unfolding unknown
  cached_status enabled_query version_query manifest_query row =
      let recorded = if version_query then version_in row else [] in
      let m = read_manifest (if manifest_query then manifest_in row else none) in
      let release = find (λ r. r.version == recorded) m.releases in
      if not (release_check_enabled enabled_query row)
      then unknown
      else if is_empty recorded
      then unknown
      else status_of recorded (breaking_of release) (url_of release)
