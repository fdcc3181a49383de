-- ===== src/Tests/Upgrading.antt =====
-- One self-upgrade from its gates to the starts behind it.
use nudo.Prelude.{
  ◌≡◌, refl, ◌⊎◌, true, false, List, [], ◌∷◌, none, some, Text, codes, ok, arith, text_beq,
}
use nudo.Text.Split.{IsLine, strip_cr}
use nudo.Updates.Version.{is_newer, compare_versions, parse_version}
use nudo.Updates.Ladder.{Release, latest}
use nudo.BootGuard.Journal.{Journal, swapped}
use nudo.BootGuard.Dir.{fine, late, store, swap_current}
use nudo.BootGuard.Guard.{guard}
use nudo.BootGuard.Guard.Boots.{boots, working}
use nudo.SelfUpgrade.Start.{Gate, Plan, start, artifact_filename, download_url, digests_match}
use nudo.SelfUpgrade.Start.Laws.{IsAllowed, start-IsAllowed}
use nudo.SelfUpgrade.Run.{
  Site, Env, replaced, run, upgrade, target_of, unpack, swap_in, exec_new, restore,
}
use nudo.SelfUpgrade.Run.Link.{IsUpgraded, upgrade-link}
use nudo.SelfUpgrade.Reconcile.{reconcile_in}
use nudo.SelfUpgrade.Reconcile.{Env as ReconcileEnv}
use nudo.SelfUpgrade.Boot.{run-boots, run-confirmed}

abbrev v1 : Text
v1 = codes "1.0.0"

abbrev v2 : Text
v2 = codes "1.1.0"

abbrev release : Release
release = record {
  version = v2;
  published_at = [];
  notes = [];
  url = [];
  breaking = false;
  artifacts = (codes "nudo-v1.1.0-x86_64-unknown-linux-musl.tar.gz", codes "AB") ∷ [];
}

abbrev gate : Gate
gate = record {
  enabled = true;
  managed = true;
  running = v1;
  manifest = some (record { releases = release ∷ [] });
  download_base = codes "https://example.org/";
  url_allowed = λ u. true;
  busy = false;
}

abbrev plan : Plan
plan = record {
  version = v2;
  url = codes "https://example.org/v1.1.0/nudo-v1.1.0-x86_64-unknown-linux-musl.tar.gz";
  expected_digest = codes "AB";
}

starts : start gate v2 ≡ ok plan
unfolding start is_newer compare_versions parse_version nudo.Text.Split.split
    nudo.Updates.Version.trimmed nudo.Updates.Version.parse_parts nudo.Updates.Version.compare_parts
    nudo.Updates.Version.is_prerelease text_beq latest artifact_filename download_url
    nudo.Text.Trim.trim_end_matches
starts = refl

start-IsAllowed_example : IsAllowed gate v2 plan
start-IsAllowed_example = start-IsAllowed gate v2 {plan = plan} starts

abbrev site : Site
site = record {
  dir = record { journal = none; attempts = none; current = some (codes "releases/1.0.0") };
  installed = λ v. false;
}

abbrev env : Env
env = record {
  clears = true;
  creates = true;
  download = λ u. some (codes "ab");
  unpacks = true;
  removes_staging = true;
  snapshots = true;
  staged_fault = fine;
  swap_fault = fine;
  swapped_fault = fine;
  exec_works = true;
  exec_error = [];
  revert_fault = fine;
  exec_failed_fault = fine;
  failed_fault = fine;
  now = 5;
}

executed : (run env v1 plan site).1 ≡ replaced
unfolding run unpack swap_in exec_new restore store swap_current digests_match text_beq
executed = refl

lines : IsLine v1 × IsLine v2 × IsLine (codes "releases/1.0.0")
unfolding strip_cr
lines = ground arith

-- The directory of the link cannot be synced.
abbrev unsynced : Env
unsynced = record env { swap_fault = late }

upgrade-link_example :
    ((upgrade unsynced v1 plan (codes "error") site).0.dir.current ≡ site.dir.current)
    ⊎ IsUpgraded unsynced plan (upgrade unsynced v1 plan (codes "error") site).0
upgrade-link_example = upgrade-link unsynced v1 plan (codes "error") site

run-boots_example :
    ((boots (working 7 ∷ working 8 ∷ []) (run env v1 plan site).0.dir).current
      ≡ some (target_of v2))
    × ((boots (working 7 ∷ working 8 ∷ working 9 ∷ []) (run env v1 plan site).0.dir).current
        ≡ some (codes "releases/1.0.0"))
run-boots_example =
    run-boots env v1 plan (codes "releases/1.0.0") site (working 7) (working 8) (working 9) lines.0
      lines.1 lines.2 (omega arith) refl refl refl (omega arith) refl refl executed

abbrev reconciling : ReconcileEnv
reconciling = record { journal_readable = true; store_fault = fine; clear_works = false; now = 6 }

run-confirmed_example :
    (guard (working 9) (reconcile_in reconciling v2 (run env v1 plan site).0.dir)).current
    ≡ some (target_of v2)
run-confirmed_example =
    run-confirmed env v1 plan (codes "releases/1.0.0") site reconciling (working 9) lines.0 lines.1
      lines.2 (omega arith) (omega arith) refl refl refl refl executed

abbrev upgraded : Journal
upgraded = record {
  state = swapped;
  from_version = v1;
  to_version = v2;
  previous = codes "releases/1.0.0";
  target = codes "releases/1.1.0";
  updated_at = 5;
  error = [];
}

abbrev versions : List Text
versions = v2 ∷ codes "1.0.2" ∷ codes "1.0.1" ∷ v1 ∷ codes "0.9.0" ∷ []
