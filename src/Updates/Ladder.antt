-- ===== src/Updates/Ladder.antt =====
-- The version to advertise, and the newest release of a manifest.
pub mod Laws
pub mod Latest
use Prim.Native.Nat.{Ordering}
use nudo.Prelude.{Bool, true, false, List, [], ◌∷◌, Option, none, some, Text, if◌then◌else◌}
use nudo.Updates.Version.{compare_versions, is_greater, is_newer}

pub record Release : Type 0 where
  pub version : Text
  pub published_at : Text
  pub notes : Text
  pub url : Text
  pub breaking : Bool
  pub artifacts : List (Text × Text)

pub record Manifest : Type 0 where
  pub releases : List Release

-- One round of the loop over `[recorded, from_manifest]`.
better : Text → Text → Text
better candidate best = if is_newer candidate best then candidate else best

unfoldable pub best_known_version : Text → Text → Text → Text
unfolding better
best_known_version from_manifest recorded running = better from_manifest (better recorded running)

-- `max_by` keeps the later of two elements unless the earlier is greater, and two versions that
-- do not compare count as equal.
unfoldable pub later_or_greater : Release → Release → Release
later_or_greater x y = if is_greater (compare_versions x.version y.version) then x else y

max_from : Release → List Release → Release
max_from best [] = best
max_from best (r ∷ rs) = max_from (later_or_greater best r) rs

max_of : List Release → Option Release
unfolding max_from
max_of [] = none
max_of (r ∷ rs) = some (max_from r rs)

unfoldable pub latest : Manifest → Option Release
unfolding max_of
latest m = max_of m.releases
