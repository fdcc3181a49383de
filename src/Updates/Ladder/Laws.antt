-- ===== src/Updates/Ladder/Laws.antt =====
-- The anti-rollback ladder.
use nudo.Prelude.{◌≡◌, ◌⊎◌, true, false, Text, arith}
use nudo.Updates.Version.{is_newer}
use nudo.Updates.Version.Laws.{is_newer_trans, is_newer_asymm, not_newer_than_self}
use nudo.Updates.Ladder.{best_known_version}

-- `v` is what the ladder chose over `running`, and no candidate is newer than it.
pub record IsBest (from_manifest recorded running v : Text) : Type 0 where
  pub chosen : (v ≡ from_manifest) ⊎ ((v ≡ recorded) ⊎ (v ≡ running))
  pub upwards : (v ≡ running) ⊎ (is_newer v running ≡ true)
  pub over_running : is_newer running v ≡ false
  pub over_recorded : is_newer recorded v ≡ false
  pub over_manifest : is_newer from_manifest v ≡ false

-- The version advertised is one of the three; it is the running one or newer than it; and none of
-- the three is newer than it, whether or not they parse.
pub best_known_version-IsBest :
    (from_manifest recorded running : Text)
    → IsBest from_manifest recorded running (best_known_version from_manifest recorded running)
unfolding best_known_version
best_known_version-IsBest m r run = ground (
  arith,
  not_newer_than_self m,
  not_newer_than_self r,
  not_newer_than_self run,
  is_newer_asymm m run,
  is_newer_asymm r run,
  is_newer_asymm m r,
  is_newer_trans m r run,
  is_newer_trans r m run,
  is_newer_trans run m r,
  is_newer_trans run r m,
)
