-- ===== src/Systemd/Retention/Prune.antt =====
-- What a retention sweep removes.
use nudo.Prelude.{
  ℕ, zero, suc, ◌≤◌, ◌≡◌, ◌≢◌, ◌↔◌, ◌⊎◌, inl, inr, refl, true, not, List, [], ◌∷◌, ◌++◌, length,
  Text, arith, drop, ◌==◌, text_eq, ==_of_ne, Elem, Elem-filter, ap, subst, sym,
}
use nudo.Systemd.Retention.{releases_to_prune, effective_keep}

not_eq_iff : (x y : Text) → (not (x == y) ≡ true) ↔ (x ≢ y)
not_eq_iff x y = (λ h p. ground (arith, text_eq.beq_iff x y), λ h. ap not (==_of_ne x y h))

-- A place of a release in the list, with the newer ones before it.
abbrev pub Stands : Text → List Text → List Text → Type 0
Stands x newer releases = (older : List Text) × (releases ≡ newer ++ (x ∷ older))

Elem-drop-Stands :
    (n : ℕ) (x : Text) (releases : List Text)
    → Elem x (drop n releases)
    → (newer : List Text) × Stands x newer releases × (n ≤ length newer)
Elem-drop-Stands zero x (r ∷ rs) (inl e) = ([], (rs, ap (λ y. y ∷ rs) (sym e)), omega arith)
Elem-drop-Stands zero x (r ∷ rs) (inr m) =
    let (newer, (older, e), _) = Elem-drop-Stands zero x rs m in
    (r ∷ newer, (older, ap (λ ys. r ∷ ys) e), omega arith)
Elem-drop-Stands (suc n) x (r ∷ rs) m =
    let (newer, (older, e), behind) = Elem-drop-Stands n x rs m in
    (r ∷ newer, (older, ap (λ ys. r ∷ ys) e), ground (arith, behind))
Elem-drop-Stands zero x [] m = absurd m
Elem-drop-Stands (suc n) x [] m = absurd m

Elem-append : (x : Text) (newer older : List Text) → Elem x (newer ++ (x ∷ older))
Elem-append x [] older = inl refl
Elem-append x (y ∷ newer) older = inr (Elem-append x newer older)

Stands-Elem-drop :
    (n : ℕ) (x : Text) (newer older : List Text)
    → n ≤ length newer
    → Elem x (drop n (newer ++ (x ∷ older)))
Stands-Elem-drop zero x newer older h = Elem-append x newer older
Stands-Elem-drop (suc n) x [] older h = absurd (ground (arith, h))
Stands-Elem-drop (suc n) x (y ∷ newer) older h =
    Stands-Elem-drop n x newer older (ground (arith, h))

-- The releases that are newer fill the number to keep, which is five when it is given as zero.
abbrev pub IsBehind : ℕ → List Text → Type 0
IsBehind keep newer = ((keep ≡ 0) × (5 ≤ length newer)) ⊎ ((1 ≤ keep) × (keep ≤ length newer))

IsBehind-effective_keep :
    (keep : ℕ) (newer : List Text) → (effective_keep keep ≤ length newer) ↔ IsBehind keep newer
IsBehind-effective_keep zero newer =
    (λ h. inl (refl, h), λ h. elim h [ inl (_, five) ↦ five | inr (one, _) ↦ absurd (omega arith) ])
IsBehind-effective_keep (suc keep) newer = (
  λ h. inr (omega arith, ground (arith, h)),
  λ h. elim h [ inl (none_kept, _) ↦ absurd (omega arith) | inr (_, many) ↦ ground (arith, many) ],
)

-- A sweep removes a release exactly if it is not the live one and stands, in the list with the newest
-- first, behind as many releases as are to be kept, which are five when nothing is configured.
pub Elem-releases_to_prune :
    (releases : List Text) (keep : ℕ) (current x : Text)
    → Elem x (releases_to_prune releases keep current)
      ↔ ((x ≢ current) × ((newer : List Text) × Stands x newer releases × IsBehind keep newer))
unfolding releases_to_prune
Elem-releases_to_prune releases keep current x =
    let (to, from) =
      Elem-filter (λ id. not (id == current)) x (drop (effective_keep keep) releases) in
    let (ne, eq) = not_eq_iff x current in
    (
      λ h.
          let (newer, place, behind) = Elem-drop-Stands (effective_keep keep) x releases (to h).0 in
          (ne (to h).1, (newer, place, (IsBehind-effective_keep keep newer).0 behind)),
      λ (other, (newer, (older, e), behind)). from (
        subst (λ rs. Elem x (drop (effective_keep keep) rs)) (sym e)
            (Stands-Elem-drop (effective_keep keep) x newer older
              ((IsBehind-effective_keep keep newer).1 behind)),
        eq other,
      ),
    )
