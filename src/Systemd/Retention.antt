-- ===== src/Systemd/Retention.antt =====
-- `releases_to_prune` and `rollback_target`, over release ids with the newest first.
pub mod Prune
pub mod Rollback
use nudo.Prelude.{
  ℕ, ◌≡◌, Bool, true, false, not, List, [], ◌∷◌, Option, none, some, Text, codes, if◌then◌else◌,
  drop, filter, find, nat_eq, ◌==◌, text_eq, is_empty, Result, ok, err, ok_or,
}
use nudo.Text.Trim.{trim}

abbrev pub default_keep_releases : ℕ
default_keep_releases = 5

abbrev pub effective_keep : ℕ → ℕ
effective_keep keep = if nat_eq keep 0 then default_keep_releases else keep

unfoldable pub releases_to_prune : List Text → ℕ → Text → List Text
releases_to_prune releases keep current =
    filter (λ id. not (id == current)) (drop (effective_keep keep) releases)

pub data RollbackError : Type 0 where
  no_previous_release already_current not_retained : RollbackError

unfoldable pub rollback_target : List Text → Text → Text → Result RollbackError Text
rollback_target releases current requested =
    if not (is_empty (trim requested))
    then if trim requested == current
      then err already_current
      else ok_or (find (λ id. id == trim requested) releases) not_retained
    else ok_or (find (λ id. not (id == current)) releases) no_previous_release
