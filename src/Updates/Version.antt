-- ===== src/Updates/Version.antt =====
-- `compare_versions` and `is_newer`.
pub mod Order
pub mod Laws
use Prim.Native.Nat.{compare, Ordering}
use nudo.Prelude.{
  ℕ, ◌≡◌, refl, Bool, true, false, List, [], ◌∷◌, Option, none, some, Text, codes, ◌||◌, nat_eq,
  if◌then◌else◌,
}
use nudo.Text.Trim.{trim, trim_start_matches}
use nudo.Text.Split.{split, contains}
use nudo.Text.Decimal.{max_u64, parse}

abbrev pub is_v : ℕ → Bool
is_v = nat_eq b'v'

-- `raw.trim().trim_start_matches('v')`
unfoldable pub trimmed : Text → Text
unfolding trim trim_start_matches
trimmed raw = trim_start_matches is_v (trim raw)

abbrev pub starts_suffix : ℕ → Bool
starts_suffix c = nat_eq c b'-' || nat_eq c b'+'

-- `parse::<u64>` of every part, or nothing.
unfoldable pub parse_parts : List Text → Option (List ℕ)
unfolding parse
parse_parts [] = some []
parse_parts (part ∷ parts) = elim (parse max_u64 part) [
  | none ↦ none
  | some n ↦ elim (parse_parts parts) [ none ↦ none | some ns ↦ some (n ∷ ns) ]
]

abbrev first_part : List Text → Option Text
first_part [] = none
first_part (part ∷ _) = some part

abbrev non_empty : List ℕ → Option (List ℕ)
non_empty [] = none
non_empty (n ∷ ns) = some (n ∷ ns)

infixl 5 ◌>>=◌
abbrev pub ◌>>=◌ : {A B : Type 0} → Option A → (A → Option B) → Option B
none >>= f = none
some a >>= f = f a

-- The closure `parse`.
unfoldable pub parse_version : Text → Option (List ℕ)
parse_version raw = do
  core ← first_part (split starts_suffix (trimmed raw))
  parts ← parse_parts (split (nat_eq b'.') core)
  non_empty parts

-- A decided comparison stands, an undecided one goes on.
abbrev pub then_with : Ordering → Ordering → Ordering
then_with Ordering.lt rest = Ordering.lt
then_with Ordering.eq rest = rest
then_with Ordering.gt rest = Ordering.gt

-- The loop over the components, a missing one being zero.
unfoldable pub compare_parts : List ℕ → List ℕ → Ordering
compare_parts [] [] = Ordering.eq
compare_parts (x ∷ xs) [] = then_with (compare x 0) (compare_parts xs [])
compare_parts [] (y ∷ ys) = then_with (compare 0 y) (compare_parts [] ys)
compare_parts (x ∷ xs) (y ∷ ys) = then_with (compare x y) (compare_parts xs ys)

-- The closure `pre`.
unfoldable pub is_prerelease : Text → Bool
is_prerelease raw = contains b'-' (trimmed raw)

-- A pre-release is older than the release that it leads to.
abbrev pub compare_prerelease : Bool → Bool → Ordering
compare_prerelease true false = Ordering.lt
compare_prerelease false true = Ordering.gt
compare_prerelease true true = Ordering.eq
compare_prerelease false false = Ordering.eq

unfoldable pub compare_versions : Text → Text → Option Ordering
compare_versions left right = do
  left_parts ← parse_version left
  right_parts ← parse_version right
  some (
      then_with (compare_parts left_parts right_parts)
        (compare_prerelease (is_prerelease left) (is_prerelease right)))

abbrev pub is_greater : Option Ordering → Bool
is_greater (some Ordering.gt) = true
is_greater (some Ordering.eq) = false
is_greater (some Ordering.lt) = false
is_greater none = false

unfoldable pub is_newer : Text → Text → Bool
is_newer candidate current = is_greater (compare_versions candidate current)
