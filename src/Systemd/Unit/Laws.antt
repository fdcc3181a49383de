-- ===== src/Systemd/Unit/Laws.antt =====
-- The unit's file name is one that systemd takes for a service.
use nudo.Prelude.{
  ℕ, ◌≡◌, refl, true, false, [], ◌∷◌, ◌++◌, map, Text, codes, arith, inl, inr, Bool-cases, All,
  is_empty, text_eq, ==_refl,
}
use nudo.Text.Trim.{
  trim, ends_with, trim_start_matches, trim_end_matches, All-trim_start_matches,
  All-trim_end_matches,
}
use nudo.Systemd.Service.{Service}
use nudo.Systemd.Unit.{
  is_stem_char, replaced, or_else, sanitize_unit_stem, with_suffix, suffix, unit_file_name,
}

ends_with-append : (p s : Text) → ends_with p (s ++ p) ≡ true
unfolding ends_with
ends_with-append [] [] = refl
ends_with-append (c ∷ p) [] = ground (arith, ==_refl (c ∷ p))
ends_with-append p (c ∷ s) = ground (arith, ends_with-append p s)

ends_with-with_suffix : (base : Text) → ends_with suffix (with_suffix base) ≡ true
ends_with-with_suffix base = elim (Bool-cases (ends_with suffix base)) [
  | inl e ↦ rw e e
  | inr e ↦ rw e (ends_with-append suffix base)
]

-- A unit's file name ends in `.service`, whatever name the operator gave or left out.
pub unit_file_name-ends_with :
    (service : Service) → ends_with (codes ".service") (unit_file_name service) ≡ true
unfolding unit_file_name
unit_file_name-ends_with service = ends_with-with_suffix _

abbrev pub IsStemChar : ℕ → Type 0
IsStemChar c = is_stem_char c ≡ true

replaced-IsStemChar : (c : ℕ) → IsStemChar (replaced c)
unfolding replaced is_stem_char
replaced-IsStemChar c = ground arith

All-replaced : (s : Text) → All IsStemChar (map replaced s)
All-replaced [] = tt
All-replaced (c ∷ s) = (replaced-IsStemChar c, All-replaced s)

or_else-keeps : (P : Text → Type 0) (s fallback : Text) → P s → P fallback → P (or_else s fallback)
unfolding or_else
or_else-keeps P [] fallback p q = q
or_else-keeps P (c ∷ s) fallback p q = p

fallback : All IsStemChar (codes "nudo-service")
unfolding is_stem_char
fallback = ground arith

-- A stem that is made from a service's name is not empty, and has only ASCII letters and digits,
-- dashes, underscores and dots, so that it is one path component and needs no quoting.
pub sanitize_unit_stem-IsStem :
    (name : Text)
    → (is_empty (sanitize_unit_stem name) ≡ false) × All IsStemChar (sanitize_unit_stem name)
unfolding sanitize_unit_stem
sanitize_unit_stem-IsStem name = (
  nonempty (trim_end_matches _ (trim_start_matches _ (map replaced (trim name)))),
  or_else-keeps (All IsStemChar) _ (codes "nudo-service")
      (All-trim_end_matches _ IsStemChar _
        (All-trim_start_matches _ IsStemChar _ (All-replaced (trim name))))
      fallback,
)
  where
    nonempty : (s : Text) → is_empty (or_else s (codes "nudo-service")) ≡ false
    nonempty [] = ground arith
    nonempty (c ∷ s) = ground arith
