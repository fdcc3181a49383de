-- ===== src/SelfUpgrade/Reconcile/Laws.antt =====
-- A sweep after a confirmed upgrade keeps what is in use.
use nudo.Prelude.{
  ◌≡◌, refl, ◌⊎◌, inl, inr, true, not, List, [], ◌∷◌, ◌++◌, Option, some, Text, arith, ◌==◌,
  text_eq, ==_refl, ap, Elem, Elem-filter, any, drop,
}
use nudo.Text.Trim.{strip_prefix}
use nudo.BootGuard.Journal.{Journal}
use nudo.SelfUpgrade.Reconcile.{doomed, kept, keep_releases, release_named}
use nudo.SelfUpgrade.Run.{target_of}

any_of_Elem : (x : Text) (ks : List Text) → Elem x ks → any (λ k. k == x) ks ≡ true
any_of_Elem x [] m = absurd m
any_of_Elem x (k ∷ ks) (inl e) = ground (arith, ==_refl x, ap (λ t. t == x) e)
any_of_Elem x (k ∷ ks) (inr m) = ground (arith, any_of_Elem x ks m)

Elem-append_right : (x : Text) (ks ls : List Text) → Elem x ls → Elem x (ks ++ ls)
Elem-append_right x [] ls m = m
Elem-append_right x (k ∷ ks) ls m = inr (Elem-append_right x ks ls m)

Elem-append_left : (x : Text) (ks ls : List Text) → Elem x ks → Elem x (ks ++ ls)
Elem-append_left x [] ls m = absurd m
Elem-append_left x (k ∷ ks) ls (inl e) = inl e
Elem-append_left x (k ∷ ks) ls (inr m) = inr (Elem-append_left x ks ls m)

release_named-target_of : (v : Text) → release_named (some (target_of v)) ≡ v ∷ []
unfolding strip_prefix
release_named-target_of v = refl

Elem-release_named :
    (v : Text) (o : Option Text) → o ≡ some (target_of v) → Elem v (release_named o)
Elem-release_named v o e = simp (e, release_named-target_of v) (inl refl)

-- A sweep never removes the release that the link names, nor the ones that the journal names as the
-- target and as the previous release, however many versions there are and however they are sorted.
pub doomed-keeps :
    (j : Journal) (current : Option Text) (versions : List Text) (v : Text)
    → (current ≡ some (target_of v)) ⊎ ((j.target ≡ target_of v) ⊎ (j.previous ≡ target_of v))
    → ¬ Elem v (doomed j current versions)
unfolding doomed
doomed-keeps j current versions v used m =
    let (_, spared) =
      (Elem-filter (λ v. not (any (λ k. k == v) (kept j current))) v
          (drop keep_releases versions)).0
        m in
    let found = any_of_Elem v (kept j current) (in_kept used) in ground (arith, found, spared)
  where
    in_kept :
        (current ≡ some (target_of v)) ⊎ ((j.target ≡ target_of v) ⊎ (j.previous ≡ target_of v))
        → Elem v (kept j current)
    in_kept (inl e) = Elem-append_right v (release_named (some j.previous)) _ (
        Elem-append_right v (release_named (some j.target)) (release_named current)
          (Elem-release_named v current e))
    in_kept (inr (inl e)) = Elem-append_right v (release_named (some j.previous)) _ (
        Elem-append_left v (release_named (some j.target)) (release_named current)
          (Elem-release_named v (some j.target) (ap some e)))
    in_kept (inr (inr e)) =
        Elem-append_left v (release_named (some j.previous)) _
          (Elem-release_named v (some j.previous) (ap some e))
