-- ===== src/Routes/Laws.antt =====
-- What passes the checks can stand in the proxy's configuration.
use nudo.Prelude.{
  ℕ, ◌≡◌, refl, ◌⊎◌, inl, inr, ◌≤◌, ◌↔◌, Bool, true, false, ◌||◌, List, [], ◌∷◌, Text, codes, arith,
  is_empty, nat_eq, all, Bool-cases, Option-cases, All, Result, ok, err, ◌==◌, text_eq,
}
use nudo.Text.Trim.{trim, trim_end_matches, starts_with, strip_prefix, strip_prefix-eq-some}
use nudo.Text.Split.{split, All-split}
use nudo.Routes.{
  RouteError, is_ascii_alphanumeric, check_label, check_labels, validate_domain, validate_port,
  has_infix, is_path_char, with_slash, checked_path, normalize_path,
}

Result-cases : (r : Result RouteError (Unit {0})) → (r ≡ ok tt) ⊎ ((e : RouteError) × (r ≡ err e))
Result-cases (ok tt) = inl refl
Result-cases (err e) = inr (e, refl)

all-All : (p : ℕ → Bool) (s : Text) → all p s ≡ true → All (λ c. p c ≡ true) s
all-All p [] h = tt
all-All p (c ∷ s) h = (ground arith, all-All p s (ground arith))

-- A port that passes is one that can be bound.
pub validate_port-IsPort : (port : ℕ) → (validate_port port ≡ ok tt) ↔ ((1 ≤ port) × (port ≤ 65535))
unfolding validate_port
validate_port-IsPort port = ground arith

-- A letter, a digit, a dash, a dot or a star.
abbrev pub IsDomainChar : ℕ → Type 0
IsDomainChar c =
    (is_ascii_alphanumeric c || (nat_eq c b'-' || (nat_eq c b'.' || nat_eq c b'*'))) ≡ true

check_label-chars : (label : Text) → check_label label ≡ ok tt → All IsDomainChar label
unfolding check_label
check_label-chars label h =
    weaken label (all-All (λ c. is_ascii_alphanumeric c || nat_eq c b'-') label (ground arith))
  where
    weaken :
        (s : Text)
        → All (λ c. (is_ascii_alphanumeric c || nat_eq c b'-') ≡ true) s
        → All IsDomainChar s
    weaken [] h = tt
    weaken (c ∷ s) (q, h) = (ground arith, weaken s h)

check_labels-chars :
    (labels : List Text) → check_labels labels ≡ ok tt → All (All IsDomainChar) labels
unfolding check_labels
check_labels-chars [] h = tt
check_labels-chars (label ∷ labels) h = elim (Result-cases (check_label label)) [
  | inl e ↦ (check_label-chars label e, check_labels-chars labels (simp e at h))
  | inr (f, e) ↦ absurd (ground arith)
]

dot_accepted : (c : ℕ) → nat_eq b'.' c ≡ true → IsDomainChar c
dot_accepted c e = ground arith

body-chars : (body : Text) → check_labels (split (nat_eq b'.') body) ≡ ok tt → All IsDomainChar body
body-chars body h =
    All-split (nat_eq b'.') IsDomainChar dot_accepted body
      (check_labels-chars (split (nat_eq b'.') body) h)

-- A domain that passes has, once trimmed, only ASCII letters and digits, dashes, dots and stars: no
-- space, brace or line end can come with it.
pub validate_domain-IsSafe :
    (domain : Text) → validate_domain domain ≡ ok tt → All IsDomainChar (trim domain)
unfolding validate_domain
validate_domain-IsSafe domain h = elim (Option-cases (strip_prefix (codes "*.") (trim domain))) [
  | inl whole ↦ body-chars (trim domain) (ground arith)
  | inr (body, wild) ↦
      simp (strip_prefix-eq-some (codes "*.") (trim domain) {r = body} wild)
        (ground arith, (ground arith, body-chars body (ground arith)))
]

abbrev pub IsPathChar : ℕ → Type 0
IsPathChar c = is_path_char c ≡ true

starts_with-with_slash : (s : Text) → starts_with (codes "/") (with_slash s) ≡ true
unfolding starts_with
starts_with-with_slash [] = refl
starts_with-with_slash (c ∷ s) = ground arith

checked_path-IsSafe :
    (p : Text) {q : Text}
    → checked_path p ≡ ok q
    → (q ≡ p)
      × (has_infix (codes "..") q ≡ false)
      × (has_infix (codes "//") q ≡ false)
      × All IsPathChar q
checked_path-IsSafe p {q} h =
    let same : q ≡ p = ground arith in
    simp same (refl, ground arith, ground arith, all-All is_path_char p (ground arith))

-- A path that passes is normal: it is empty, or it starts with a slash, has no `..` and no empty
-- segment, and only characters that end no word and no block of the configuration.
pub normalize_path-IsSafe :
    (path : Text) {q : Text}
    → normalize_path path ≡ ok q
    → (q ≡ [])
      ⊎ ((starts_with (codes "/") q ≡ true)
          × (has_infix (codes "..") q ≡ false)
          × (has_infix (codes "//") q ≡ false)
          × All IsPathChar q)
unfolding normalize_path
normalize_path-IsSafe path {q} h =
    elim (Bool-cases (is_empty (trim path) || trim path == codes "/")) [
      | inl whole ↦ inl (ground arith)
      | inr e ↦
          let s = with_slash (trim_end_matches (nat_eq b'/') (trim path)) in
          let (same, dots, segments, chars) = checked_path-IsSafe s {q = q} (simp e at h) in
          inr (slashed same, dots, segments, chars)
    ]
  where
    slashed :
        q ≡ with_slash (trim_end_matches (nat_eq b'/') (trim path))
        → starts_with (codes "/") q ≡ true
    slashed same = simp same (starts_with-with_slash (trim_end_matches (nat_eq b'/') (trim path)))
