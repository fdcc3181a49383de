-- ===== src/Tests/Versions.antt =====
-- Releases, and the check for a newer one.
use nudo.Prelude.{◌≡◌, refl, true, false, [], ◌∷◌, ◌++◌, none, some, Text, codes, ok, arith, All}
use nudo.Updates.Version.{is_newer, compare_versions, parse_version}
use nudo.Updates.Version.Laws.{IsVersion}
use nudo.Updates.Ladder.{Release, Manifest, best_known_version, latest}
use nudo.Updates.Ladder.Laws.{IsBest, best_known_version-IsBest}
use nudo.Updates.Ladder.Latest.{NotNewerThan, latest-IsNewest, latest_unparsed_last}
use nudo.Updates.Checker.{Env, Serde}
use mathlib.Core.List.{Memᴰ}

abbrev release : Text → Release
release v = record {
  version = v;
  published_at = [];
  notes = [];
  url = [];
  breaking = false;
  artifacts = [];
}

abbrev v1 : Text
v1 = codes "1.2.0"

abbrev v2 : Text
v2 = codes "1.10.0-rc1"

abbrev v3 : Text
v3 = codes "v1.10"

abbrev listed : Manifest
listed = record { releases = release v1 ∷ release v3 ∷ release v2 ∷ [] }

newer : (is_newer v3 v2 ≡ true) × (is_newer v2 v1 ≡ true) × (is_newer v1 v2 ≡ false)
unfolding is_newer compare_versions parse_version nudo.Text.Split.split nudo.Updates.Version.trimmed
    nudo.Updates.Version.parse_parts nudo.Updates.Version.compare_parts
    nudo.Updates.Version.is_prerelease
newer = (refl, refl, refl)

versions : IsVersion v1 × IsVersion v2 × IsVersion v3 × (parse_version (codes "next") ≡ none)
unfolding is_newer compare_versions parse_version nudo.Text.Split.split nudo.Updates.Version.trimmed
    nudo.Updates.Version.parse_parts nudo.Updates.Version.compare_parts
    nudo.Updates.Version.is_prerelease
versions = (λ e. ground (arith, e), λ e. ground (arith, e), λ e. ground (arith, e), refl)

listed-latest : latest listed ≡ some (release v3)
unfolding is_newer compare_versions parse_version nudo.Text.Split.split nudo.Updates.Version.trimmed
    nudo.Updates.Version.parse_parts nudo.Updates.Version.compare_parts
    nudo.Updates.Version.is_prerelease latest nudo.Updates.Ladder.later_or_greater
listed-latest = refl

best_known_version-IsBest_example : IsBest v1 v2 v3 (best_known_version v1 v2 v3)
best_known_version-IsBest_example = best_known_version-IsBest v1 v2 v3

latest-IsNewest_example :
    Memᴰ (release v3) listed.releases × All (NotNewerThan (release v3)) listed.releases
latest-IsNewest_example =
    latest-IsNewest listed (release v3) (versions.0, (versions.2, (versions.1, tt))) listed-latest

latest_unparsed_last_example :
    latest (record { releases = listed.releases ++ release (codes "next") ∷ [] })
    ≡ some (release (codes "next"))
latest_unparsed_last_example =
    latest_unparsed_last listed.releases (release (codes "next")) versions.3

abbrev serde : Serde
serde = record { write = λ m. []; read = λ t. none }

abbrev env : Env
env = record {
  enabled_query = true;
  version_query = true;
  record_query = true;
  fetched = ok listed;
  now = 3;
}
