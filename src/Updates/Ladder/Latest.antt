-- ===== src/Updates/Ladder/Latest.antt =====
-- The newest release of a manifest.
use mathlib.Core.List.{Memᴰ}
use mathlib.Core.Path.{subst}
use nudo.Prelude.{
  ◌≡◌, refl, ◌∙◌, ap, ◌⊎◌, inl, inr, true, false, List, [], ◌∷◌, ◌++◌, none, some, arith, All,
  Bool-cases,
}
use nudo.Updates.Version.{is_newer, parse_version}
use nudo.Updates.Version.Laws.{
  IsVersion, is_newer_asymm, is_newer_of_not, not_newer_than_self, compare_versions-unparsed,
}
use nudo.Updates.Ladder.{Release, Manifest, later_or_greater, max_from, max_of, latest}

abbrev pub HasVersion : Release → Type 0
HasVersion r = IsVersion r.version

abbrev pub NotNewerThan : Release → Release → Type 0
NotNewerThan best r = is_newer r.version best.version ≡ false

-- Nothing newer than a release comes in by going over to one that is not older.
NotNewerThan-trans :
    (x y r : Release)
    → HasVersion x
    → NotNewerThan x r
    → is_newer x.version y.version ≡ false
    → NotNewerThan y r
NotNewerThan-trans x y r v h k = ground (arith, is_newer_of_not r.version y.version x.version)

-- `m` is `best` or listed, it parses, and nothing listed or below `best` is newer than it.
record IsMax (best : Release) (rs : List Release) (m : Release) : Type 0 where
  parses : HasVersion m
  keeps : (r : Release) → NotNewerThan best r → NotNewerThan m r
  tops : All (NotNewerThan m) rs
  member : (m ≡ best) ⊎ Memᴰ m rs

module _ (best r m : Release) (rs : List Release) where
  IsMax-keep : is_newer best.version r.version ≡ true → IsMax best rs m → IsMax best (r ∷ rs) m
  IsMax-keep newer h = record {
    parses = h.parses;
    keeps = h.keeps;
    tops = (h.keeps r (is_newer_asymm best.version r.version newer), h.tops);
    member = elim h.member [ inl e ↦ inl e | inr e ↦ inr (Memᴰ.tail e) ];
  }

  IsMax-move :
      HasVersion best
      → is_newer best.version r.version ≡ false
      → IsMax r rs m
      → IsMax best (r ∷ rs) m
  IsMax-move v older h = record {
    parses = h.parses;
    keeps = λ s k. h.keeps s (NotNewerThan-trans best r s v k older);
    tops = (h.keeps r (not_newer_than_self r.version), h.tops);
    member = inr (elim h.member [ inl e ↦ Memᴰ.head e | inr e ↦ Memᴰ.tail e ]);
  }

later_or_greater_keep :
    (x y : Release) → is_newer x.version y.version ≡ true → later_or_greater x y ≡ x
unfolding later_or_greater is_newer
later_or_greater_keep x y h = rw h

later_or_greater_move :
    (x y : Release) → is_newer x.version y.version ≡ false → later_or_greater x y ≡ y
unfolding later_or_greater is_newer
later_or_greater_move x y h = rw h

max_from-IsMax :
    (best : Release) (rs : List Release)
    → HasVersion best
    → All HasVersion rs
    → IsMax best rs (max_from best rs)
unfolding max_from
max_from-IsMax best [] v _ = record { parses = v; keeps = λ r h. h; tops = tt; member = inl refl }
max_from-IsMax best (r ∷ rs) v (w, vs) = elim (Bool-cases (is_newer best.version r.version)) [
  | inl newer ↦
      rw (later_or_greater_keep best r newer)
        (IsMax-keep best r (max_from best rs) rs newer (max_from-IsMax best rs v vs))
  | inr older ↦
      rw (later_or_greater_move best r older)
        (IsMax-move best r (max_from r rs) rs v older (max_from-IsMax r rs w vs))
]

-- If every listed version parses, the release that is chosen is listed, and no listed release is
-- newer than it, in whatever order they are listed.
pub latest-IsNewest :
    (m : Manifest) (best : Release)
    → All HasVersion m.releases
    → latest m ≡ some best
    → Memᴰ best m.releases × All (NotNewerThan best) m.releases
unfolding latest
latest-IsNewest m best = go m.releases
  where
    go :
        (rs : List Release)
        → All HasVersion rs
        → max_of rs ≡ some best
        → Memᴰ best rs × All (NotNewerThan best) rs
    go [] _ e = absurd (ground arith)
    go (r ∷ rs) (v, vs) e =
        let same : max_from r rs ≡ best = ground arith in
        let h : IsMax r rs best = subst (λ m. IsMax r rs m) same (max_from-IsMax r rs v vs) in
        (
          elim h.member [ inl p ↦ Memᴰ.head p | inr p ↦ Memᴰ.tail p ],
          (h.keeps r (not_newer_than_self r.version), h.tops),
        )

max_from-append :
    (best r : Release) (rs : List Release)
    → max_from best (rs ++ r ∷ []) ≡ later_or_greater (max_from best rs) r
unfolding max_from
max_from-append best r [] = refl
max_from-append best r (x ∷ rs) = max_from-append (later_or_greater best x) r rs

later_or_greater_of_unparsed :
    (x y : Release) → parse_version y.version ≡ none → later_or_greater x y ≡ y
unfolding later_or_greater
later_or_greater_of_unparsed x y h = ground (arith, compare_versions-unparsed x.version y.version h)

-- A last entry that is no version is chosen over every entry before it, however new.
pub latest_unparsed_last :
    (rs : List Release) (bad : Release)
    → parse_version bad.version ≡ none
    → latest (record { releases = rs ++ bad ∷ [] }) ≡ some bad
unfolding latest
latest_unparsed_last [] bad h = unfold max_from in refl
latest_unparsed_last (r ∷ rs) bad h =
    ap some (max_from-append r bad rs ∙ later_or_greater_of_unparsed (max_from r rs) bad h)
