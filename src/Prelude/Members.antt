-- ===== src/Prelude/Members.antt =====
-- Membership, and what filtering and finding mean for it.
use Prim.Native.Nat.{ℕ, zero, suc}
use mathlib.Core.Path.{◌≡◌, refl, ap, sym, ◌∙◌, subst}
use mathlib.Core.Logic.{◌↔◌, ◌⊎◌, inl, inr}
use mathlib.Core.Bool.{Bool, true, false}
use mathlib.Core.List.{List, [], ◌∷◌}
use mathlib.Core.Option.{none, some}
use native.Mathlib.Omega.{arith}
use nudo.Prelude.Tests.{if◌then◌else◌, Bool-cases}
use nudo.Prelude.Lists.{drop, find, filter, All}

-- Membership by recursion, which the tactics read and build.
module _ {A : Type 0} where
  abbrev pub Elem : A → List A → Type 0
  Elem a [] = ⊥
  Elem a (x ∷ xs) = (a ≡ x) ⊎ Elem a xs

  Elem-cons_if :
      (a x : A) (b : Bool) (xs : List A)
      → Elem a (if b then x ∷ xs else xs) ↔ (((a ≡ x) × (b ≡ true)) ⊎ Elem a xs)
  Elem-cons_if a x true xs = (
    λ h. elim h [ inl e ↦ inl (e, refl) | inr m ↦ inr m ],
    λ h. elim h [ inl (e, _) ↦ inl e | inr m ↦ inr m ],
  )
  Elem-cons_if a x false xs =
      (λ h. inr h, λ h. elim h [ inl (_, e) ↦ absurd (ground arith) | inr m ↦ m ])

  pub Elem-filter :
      (p : A → Bool) (a : A) (xs : List A) → Elem a (filter p xs) ↔ (Elem a xs × (p a ≡ true))
  Elem-filter p a [] = (λ h. absurd h, λ h. absurd h.0)
  Elem-filter p a (x ∷ xs) =
      let (to, from) = Elem-filter p a xs in
      let (open_it, close_it) = Elem-cons_if a x (p x) (filter p xs) in
      (
        λ h. elim (open_it h) [
          | inl (e, t) ↦ (inl e, ap p e ∙ t)
          | inr m ↦ (inr (to m).0, (to m).1)
        ],
        λ h. elim h.0 [
          | inl e ↦ close_it (inl (e, ap p (sym e) ∙ h.1))
          | inr m ↦ close_it (inr (from (m, h.1)))
        ],
      )

  pub Elem-drop : (n : ℕ) (a : A) (xs : List A) → Elem a (drop n xs) → Elem a xs
  Elem-drop zero a xs h = h
  Elem-drop (suc n) a [] h = h
  Elem-drop (suc n) a (x ∷ xs) h = inr (Elem-drop n a xs h)

  -- What is found is listed and passes the test; what is not found is not listed.
  pub find-eq-some :
      (p : A → Bool) (xs : List A) {a : A} → find p xs ≡ some a → Elem a xs × (p a ≡ true)
  find-eq-some p [] h = absurd (ground arith)
  find-eq-some p (x ∷ xs) {a} h = elim (Bool-cases (p x)) [
    | inl e ↦
        let found : some x ≡ some a = rw e at h in
        let same : x ≡ a = ground arith in (inl (sym same), ap p (sym same) ∙ e)
    | inr e ↦ let (m, t) = find-eq-some p xs {a = a} (rw e at h) in (inr m, t)
  ]

  pub find-eq-none :
      (p : A → Bool) (xs : List A) → find p xs ≡ none → (a : A) → Elem a xs → p a ≡ false
  find-eq-none p [] h a m = absurd m
  find-eq-none p (x ∷ xs) h a m = elim (Bool-cases (p x)) [
    | inl e ↦ absurd (ground arith)
    | inr e ↦ elim m [
      | inl same ↦ ap p same ∙ e
      | inr later ↦ find-eq-none p xs (rw e at h) a later
    ]
  ]

  pub All-Elem {κ} : (P : A → Type κ) (xs : List A) (a : A) → All P xs → Elem a xs → P a
  All-Elem P [] a h m = absurd m
  All-Elem P (x ∷ xs) a (px, hx) m = elim m [
    | inl e ↦ subst P (sym e) px
    | inr later ↦ All-Elem P xs a hx later
  ]

  pub All_of_Elem {κ} : (P : A → Type κ) (xs : List A) → ((a : A) → Elem a xs → P a) → All P xs
  All_of_Elem P [] h = tt
  All_of_Elem P (x ∷ xs) h = (h x (inl refl), All_of_Elem P xs λ a m. h a (inr m))
