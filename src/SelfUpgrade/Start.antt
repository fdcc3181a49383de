-- ===== src/SelfUpgrade/Start.antt =====
-- `start` up to the spawn: every gate that an upgrade has to pass.
pub mod Laws
use nudo.Prelude.{
  ℕ, ◌≡◌, Bool, true, false, not, ◌&&◌, List, [], ◌∷◌, ◌++◌, map, Option, none, some, Text, codes,
  if◌then◌else◌, find, ◌==◌, text_eq, Result, ok, err, ◌>>=◌, ◌>>◌, ok_or, ensure, leb, ◌+◌, nat_eq,
  utf8_len,
}
use nudo.Text.Trim.{trim_end_matches}
use nudo.Updates.Version.{is_newer}
use nudo.Updates.Ladder.{Release, Manifest, latest}

pub data StartError : Type 0 where
  switched_off not_managed not_newer no_manifest not_listed not_latest no_digest bad_url
        already_running :
      StartError

-- What `start` reads: the switch and the recorded manifest (unless a query fails), whether the install
-- is managed, the running version, the configured base, and whether an upgrade holds the slot.
-- `reqwest` parses the URL.
pub record Gate : Type 0 where
  pub enabled : Bool
  pub managed : Bool
  pub running : Text
  pub manifest : Option Manifest
  pub download_base : Text
  pub url_allowed : Text → Bool
  pub busy : Bool

pub record Plan : Type 0 where
  pub version : Text
  pub url : Text
  pub expected_digest : Text

unfoldable pub artifact_filename : Text → Text
artifact_filename version = codes "nudo-v" ++ (version ++ codes "-x86_64-unknown-linux-musl.tar.gz")

abbrev pub version_of_latest : Manifest → Text
version_of_latest m = elim (latest m) [ none ↦ [] | some r ↦ r.version ]

abbrev pub digest_of : Release → Text → Option Text
digest_of release filename = elim (find (λ a. a.0 == filename) release.artifacts) [
  | none ↦ none
  | some a ↦ some a.1
]

unfoldable pub download_url : Text → Text → Text
unfolding artifact_filename
download_url base version =
    trim_end_matches (nat_eq b'/') base
    ++ (codes "/v" ++ (version ++ b'/' ∷ artifact_filename version))

unfoldable pub start : Gate → Text → Result StartError Plan
start gate target_version = do
  ensure gate.enabled switched_off
  ensure gate.managed not_managed
  ensure (is_newer target_version gate.running) not_newer
  manifest ← ok_or gate.manifest no_manifest
  release ← ok_or (find (λ r. r.version == target_version) manifest.releases) not_listed
  ensure (release.version == version_of_latest manifest) not_latest
  expected ← ok_or (digest_of release (artifact_filename target_version)) no_digest
  ensure (gate.url_allowed (download_url gate.download_base target_version)) bad_url
  ensure (not gate.busy) already_running
  ok (record {
    version = target_version;
    url = download_url gate.download_base target_version;
    expected_digest = expected;
  })

-- `digests_match`, over the letters that hexadecimal digits have.
abbrev pub to_lowercase : ℕ → ℕ
to_lowercase c = if leb b'A' c && leb c b'Z' then c + 32 else c

unfoldable pub digests_match : Text → Text → Bool
digests_match actual expected =
    nat_eq (utf8_len actual) (utf8_len expected)
    && map to_lowercase actual == map to_lowercase expected
