-- ===== src/Systemd/Retention/Rollback.antt =====
-- Which release a rollback picks, and why it is refused.
use nudo.Prelude.{
  All, All_of_Elem, ◌≡◌, refl, ◌≢◌, ◌⊎◌, inl, inr, true, false, not, List, [], ◌∷◌, Option, none,
  some, Text, arith, find, is_empty, ◌==◌, text_eq, Bool-cases, ne_of_==, eq_of_==, ==_refl, Elem,
  Result, ok, err, ok_or, find-eq-some, find-eq-none, sym, ◌∙◌,
}
use nudo.Text.Trim.{trim}
use nudo.Systemd.Retention.{
  RollbackError, no_previous_release, already_current, not_retained, rollback_target,
}

-- What each answer means.
abbrev pub Verdict : List Text → Text → Text → Result RollbackError Text → Type 0
Verdict releases current requested (ok target) =
    Elem target releases × (target ≢ current) × ((trim requested ≡ []) ⊎ (target ≡ trim requested))
Verdict releases current requested (err no_previous_release) =
    (trim requested ≡ []) × All (λ x. x ≡ current) releases
Verdict releases current requested (err already_current) =
    (trim requested ≢ []) × (trim requested ≡ current)
Verdict releases current requested (err not_retained) =
    (trim requested ≢ current) × ¬ Elem (trim requested) releases

eq-nil_of_is_empty : (s : Text) → is_empty s ≡ true → s ≡ []
eq-nil_of_is_empty [] h = refl
eq-nil_of_is_empty (c ∷ s) h = ground arith

ne-nil_of_is_empty : (s : Text) → is_empty s ≡ false → s ≢ []
ne-nil_of_is_empty [] h = λ e. ground arith
ne-nil_of_is_empty (c ∷ s) h = λ e. ground arith

module _ (releases : List Text) (current requested : Text) where
  previous-Verdict :
      (o : Option Text)
      → trim requested ≡ []
      → find (λ id. not (id == current)) releases ≡ o
      → Verdict releases current requested (ok_or o no_previous_release)
  previous-Verdict none blank h = (
    blank,
    All_of_Elem (λ x. x ≡ current) releases
        λ x m.
          let other = find-eq-none (λ id. not (id == current)) releases h x m in
          eq_of_== x current (ground arith),
  )
  previous-Verdict (some t) blank h =
      let (m, other) = find-eq-some (λ id. not (id == current)) releases h in
      (m, ne_of_== t current (ground arith), inl blank)

  requested-Verdict :
      (o : Option Text)
      → (trim requested == current) ≡ false
      → find (λ id. id == trim requested) releases ≡ o
      → Verdict releases current requested (ok_or o not_retained)
  requested-Verdict none other h = (
    ne_of_== (trim requested) current other,
    λ m. ground (
      arith,
      find-eq-none (λ id. id == trim requested) releases h (trim requested) m,
      ==_refl (trim requested),
    ),
  )
  requested-Verdict (some t) other h =
      let (m, same) = find-eq-some (λ id. id == trim requested) releases h in
      let e = eq_of_== t (trim requested) same in
      (m, (λ p. ne_of_== (trim requested) current other (sym e ∙ p)), inr e)

  -- A rollback goes to a retained release that is not the live one, the requested one if one is
  -- requested; it is refused exactly for the reason that it gives.
  pub rollback_target-Verdict :
      Verdict releases current requested (rollback_target releases current requested)
  unfolding rollback_target
  rollback_target-Verdict = elim (Bool-cases (is_empty (trim requested))) [
    | inl blank ↦ rw blank (
        previous-Verdict (find (λ id. not (id == current)) releases)
          (eq-nil_of_is_empty (trim requested) blank) refl)
    | inr given ↦ rw given (elim (Bool-cases (trim requested == current)) [
      | inl same ↦
          rw same
            (ne-nil_of_is_empty (trim requested) given, eq_of_== (trim requested) current same)
      | inr other ↦
          rw other (requested-Verdict (find (λ id. id == trim requested) releases) other refl)
    ])
  ]
