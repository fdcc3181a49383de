-- ===== src/Updates/Version/Laws.antt =====
-- Being newer is a strict order on versions, and a text that is no version is never newer.
use Prim.Native.Nat.{Ordering}
use nudo.Prelude.{ℕ, ◌≡◌, refl, ◌≢◌, Bool, true, false, List, Option, none, some, Text, arith, ap}
use nudo.Updates.Version.{
  then_with, compare_parts, compare_prerelease, parse_version, is_prerelease, compare_versions,
  is_newer,
}
use nudo.Updates.Version.Order.{
  flip, Composes, compare_parts-Composes, compare_parts-flip, then_with-Composes,
}

abbrev pub IsVersion : Text → Type 0
IsVersion v = parse_version v ≢ none

-- The comparison of two versions that parse.
compare_keys : List ℕ → Bool → List ℕ → Bool → Ordering
compare_keys xs p ys q = then_with (compare_parts xs ys) (compare_prerelease p q)

compare_keys-Composes :
    (xs ys zs : List ℕ) (p q r : Bool)
    → Composes (compare_keys xs p ys q) (compare_keys ys q zs r) (compare_keys xs p zs r)
unfolding compare_keys
compare_keys-Composes xs ys zs p q r =
    then_with-Composes (compare_parts xs ys) (compare_parts ys zs) (compare_parts xs zs)
      (compare_prerelease p q) (compare_prerelease q r) (compare_prerelease p r)
      (compare_parts-Composes xs ys zs) (ground arith)

compare_keys-flip :
    (xs ys : List ℕ) (p q : Bool) → compare_keys ys q xs p ≡ flip (compare_keys xs p ys q)
unfolding compare_keys
compare_keys-flip xs ys p q = ground (arith, compare_parts-flip xs ys)

abbrev compared : Option (List ℕ) → Bool → Option (List ℕ) → Bool → Option Ordering
compared none p o q = none
compared (some xs) p none q = none
compared (some xs) p (some ys) q = some (compare_keys xs p ys q)

compare_versions_lem :
    (a b : Text)
    → compare_versions a b
      ≡ compared (parse_version a) (is_prerelease a) (parse_version b) (is_prerelease b)
unfolding compare_versions compare_keys
compare_versions_lem a b = ground arith

abbrev pub flip_option : Option Ordering → Option Ordering
flip_option none = none
flip_option (some o) = some (flip o)

compared-flip :
    (x y : Option (List ℕ)) (p q : Bool) → compared y q x p ≡ flip_option (compared x p y q)
compared-flip none none p q = refl
compared-flip none (some ys) p q = refl
compared-flip (some xs) none p q = refl
compared-flip (some xs) (some ys) p q = ap some (compare_keys-flip xs ys p q)

-- Swapping the two versions reverses the answer, and keeps whether there is one.
pub compare_versions-flip : (a b : Text) → compare_versions b a ≡ flip_option (compare_versions a b)
compare_versions-flip a b =
    rw (compare_versions_lem a b, compare_versions_lem b a)
      (compared-flip (parse_version a) (parse_version b) (is_prerelease a) (is_prerelease b))

abbrev ComposesOption : Option Ordering → Option Ordering → Option Ordering → Type 0
ComposesOption (some o) (some o') (some o'') = Composes o o' o''
ComposesOption (some o) (some o') none = ⊥
ComposesOption none _ _ = Unit
ComposesOption (some o) none _ = Unit

compared-Composes :
    (x y z : Option (List ℕ)) (p q r : Bool)
    → ComposesOption (compared x p y q) (compared y q z r) (compared x p z r)
compared-Composes (some xs) (some ys) (some zs) p q r = compare_keys-Composes xs ys zs p q r
compared-Composes none y z p q r = tt
compared-Composes (some xs) none z p q r = tt
compared-Composes (some xs) (some ys) none p q r = tt

pub compare_versions-Composes :
    (a b c : Text)
    → ComposesOption (compare_versions a b) (compare_versions b c) (compare_versions a c)
compare_versions-Composes a b c =
    rw (compare_versions_lem a b, compare_versions_lem b c, compare_versions_lem a c)
      (compared-Composes (parse_version a) (parse_version b) (parse_version c) (is_prerelease a)
        (is_prerelease b) (is_prerelease c))

-- Being newer is transitive.
pub is_newer_trans :
    (a b c : Text) → is_newer a b ≡ true → is_newer b c ≡ true → is_newer a c ≡ true
unfolding is_newer
is_newer_trans a b c h k = ground (arith, compare_versions-Composes a b c)

-- No version is newer than one that is newer than it, so none is newer than itself.
pub is_newer_asymm : (a b : Text) → is_newer a b ≡ true → is_newer b a ≡ false
unfolding is_newer
is_newer_asymm a b h = ground (arith, compare_versions-flip a b)

-- What is newer than something is a version, and so is what it is newer than.
pub is_newer-IsVersion : (a b : Text) → is_newer a b ≡ true → IsVersion a × IsVersion b
unfolding is_newer
is_newer-IsVersion a b h = ground (arith, compare_versions_lem a b)

-- Of two versions, one of which is not newer, the other is no further down: what is newer than the
-- one is newer than the other.
pub is_newer_of_not :
    (a b c : Text) → is_newer a b ≡ true → is_newer c b ≡ false → IsVersion c → is_newer a c ≡ true
unfolding is_newer
is_newer_of_not a b c h k v = ground (
  arith,
  compare_versions_lem c b,
  is_newer-IsVersion a b h,
  compare_versions-flip c b,
  compare_versions-Composes a b c,
)

pub not_newer_than_self : (v : Text) → is_newer v v ≡ false
not_newer_than_self v = ground (arith, is_newer_asymm v v)

-- Nothing compares with a text that is no version.
pub compare_versions-unparsed : (a b : Text) → parse_version b ≡ none → compare_versions a b ≡ none
compare_versions-unparsed a b h = ground (arith, compare_versions_lem a b)
