-- ===== src/Text/Trim.antt =====
-- `trim`, `trim_start_matches`, `trim_end_matches`, `starts_with`, `strip_prefix`, `ends_with`.
use nudo.Prelude.{
  ℕ, ◌≡◌, refl, Bool, true, false, ◌&&◌, ◌||◌, [], ◌∷◌, ◌++◌, Option, none, some, arith, Text,
  is_empty, if◌then◌else◌, nat_eq, leb, All, ◌==◌, text_eq, Bool-cases, inl, inr,
}

-- `char::is_whitespace`: the code points with the property White_Space.
unfoldable pub is_whitespace : ℕ → Bool
is_whitespace c =
    (leb 9 c && leb c 13)
    || nat_eq c 32
    || nat_eq c 0x85
    || nat_eq c 0xa0
    || nat_eq c 0x1680
    || (leb 0x2000 c && leb c 0x200a)
    || nat_eq c 0x2028
    || nat_eq c 0x2029
    || nat_eq c 0x202f
    || nat_eq c 0x205f
    || nat_eq c 0x3000

module _ (p : ℕ → Bool) where
  unfoldable pub trim_start_matches : Text → Text
  trim_start_matches [] = []
  trim_start_matches (c ∷ s) = let rest = trim_start_matches s in if p c then rest else c ∷ s

  abbrev cons_trimmed : ℕ → Text → Text
  cons_trimmed c [] = if p c then [] else c ∷ []
  cons_trimmed c (d ∷ s) = c ∷ d ∷ s

  unfoldable pub trim_end_matches : Text → Text
  trim_end_matches [] = []
  trim_end_matches (c ∷ s) = cons_trimmed c (trim_end_matches s)

  -- No last character that the test accepts.
  abbrev pub LastFails : Text → Type 0
  LastFails [] = Unit
  LastFails (c ∷ []) = p c ≡ false
  LastFails (_ ∷ d ∷ s) = LastFails (d ∷ s)

  abbrev pub FirstFails : Text → Type 0
  FirstFails [] = Unit
  FirstFails (c ∷ _) = p c ≡ false

  LastFails-cons_trimmed : (c : ℕ) (s : Text) → LastFails s → LastFails (cons_trimmed c s)
  LastFails-cons_trimmed c [] h = elim (Bool-cases (p c)) [ inl e ↦ rw e tt | inr e ↦ rw e e ]
  LastFails-cons_trimmed c (d ∷ s) h = h

  pub LastFails-trim_end_matches : (s : Text) → LastFails (trim_end_matches s)
  unfolding trim_end_matches
  LastFails-trim_end_matches [] = tt
  LastFails-trim_end_matches (c ∷ s) =
      LastFails-cons_trimmed c (trim_end_matches s) (LastFails-trim_end_matches s)

  pub FirstFails-trim_start_matches : (s : Text) → FirstFails (trim_start_matches s)
  unfolding trim_start_matches
  FirstFails-trim_start_matches [] = tt
  FirstFails-trim_start_matches (c ∷ s) = elim (Bool-cases (p c)) [
    | inl e ↦ rw e (FirstFails-trim_start_matches s)
    | inr e ↦ rw e e
  ]

  FirstFails-trim_end_matches : (s : Text) → FirstFails s → FirstFails (trim_end_matches s)
  unfolding trim_end_matches
  FirstFails-trim_end_matches [] h = tt
  FirstFails-trim_end_matches (c ∷ s) h = go (trim_end_matches s)
    where
      go : (t : Text) → FirstFails (cons_trimmed c t)
      go [] = rw h h
      go (d ∷ t) = h

  trim_start_matches_of_FirstFails : (s : Text) → FirstFails s → trim_start_matches s ≡ s
  unfolding trim_start_matches
  trim_start_matches_of_FirstFails [] h = refl
  trim_start_matches_of_FirstFails (c ∷ s) h = rw h

  pub trim_end_matches_of_LastFails : (s : Text) → LastFails s → trim_end_matches s ≡ s
  unfolding trim_end_matches
  trim_end_matches_of_LastFails [] h = refl
  trim_end_matches_of_LastFails (c ∷ []) h = rw h
  trim_end_matches_of_LastFails (c ∷ d ∷ s) h =
      rw (trim_end_matches_of_LastFails (d ∷ s) h, trim_end_matches)

  -- A property of every character survives trimming.
  module _ {κ} (Q : ℕ → Type κ) where
    pub All-trim_start_matches : (s : Text) → All Q s → All Q (trim_start_matches s)
    unfolding trim_start_matches
    All-trim_start_matches [] h = tt
    All-trim_start_matches (c ∷ s) (q, h) = elim (Bool-cases (p c)) [
      | inl e ↦ rw e (All-trim_start_matches s h)
      | inr e ↦ rw e (q, h)
    ]

    All-cons_trimmed : (c : ℕ) (s : Text) → Q c → All Q s → All Q (cons_trimmed c s)
    All-cons_trimmed c [] q h = elim (Bool-cases (p c)) [ inl e ↦ rw e tt | inr e ↦ rw e (q, tt) ]
    All-cons_trimmed c (d ∷ s) q h = (q, h)

    pub All-trim_end_matches : (s : Text) → All Q s → All Q (trim_end_matches s)
    unfolding trim_end_matches
    All-trim_end_matches [] h = tt
    All-trim_end_matches (c ∷ s) (q, h) =
        All-cons_trimmed c (trim_end_matches s) q (All-trim_end_matches s h)

unfoldable pub trim : Text → Text
unfolding trim_start_matches trim_end_matches is_whitespace
trim s = trim_end_matches is_whitespace (trim_start_matches is_whitespace s)

-- What is left neither begins nor ends with white space, so that trimming again changes nothing.
abbrev pub IsTrimmed : Text → Type 0
IsTrimmed s = FirstFails is_whitespace s × LastFails is_whitespace s

pub trim-IsTrimmed : (s : Text) → IsTrimmed (trim s)
unfolding trim
trim-IsTrimmed s = (
  FirstFails-trim_end_matches is_whitespace _ (FirstFails-trim_start_matches is_whitespace s),
  LastFails-trim_end_matches is_whitespace (trim_start_matches is_whitespace s),
)

pub trim_of_IsTrimmed : (s : Text) → IsTrimmed s → trim s ≡ s
unfolding trim
trim_of_IsTrimmed s (first, last) =
    rw (trim_start_matches_of_FirstFails is_whitespace s first)
      (trim_end_matches_of_LastFails is_whitespace s last)

pub trim-trim : (s : Text) → trim (trim s) ≡ trim s
trim-trim s = trim_of_IsTrimmed (trim s) (trim-IsTrimmed s)

unfoldable pub starts_with : Text → Text → Bool
starts_with [] s = true
starts_with (c ∷ p) [] = false
starts_with (c ∷ p) (d ∷ s) = nat_eq c d && starts_with p s

unfoldable pub strip_prefix : Text → Text → Option Text
strip_prefix [] s = some s
strip_prefix (c ∷ p) [] = none
strip_prefix (c ∷ p) (d ∷ s) = if nat_eq c d then strip_prefix p s else none

-- A suffix test, from the longest tail on.
unfoldable pub ends_with : Text → Text → Bool
ends_with p [] = is_empty p
ends_with p (c ∷ s) = p == (c ∷ s) || ends_with p s

pub strip_prefix-append : (p s : Text) → strip_prefix p (p ++ s) ≡ some s
unfolding strip_prefix
strip_prefix-append [] s = refl
strip_prefix-append (c ∷ p) s = ground (arith, strip_prefix-append p s)

pub strip_prefix-eq-some : (p s : Text) {r : Text} → strip_prefix p s ≡ some r → s ≡ p ++ r
unfolding strip_prefix
strip_prefix-eq-some [] s h = ground arith
strip_prefix-eq-some (c ∷ p) [] h = ground arith
strip_prefix-eq-some (c ∷ p) (d ∷ s) {r} h = elim (Bool-cases (nat_eq c d)) [
  | inl e ↦ ground (arith, strip_prefix-eq-some p s {r = r} (rw (e, strip_prefix) at h))
  | inr e ↦ ground arith
]
