-- ===== src/Text/Decimal.antt =====
-- `to_string` and `parse` of unsigned integers.
use nudo.Prelude.{
  ℕ, zero, suc, ◌+◌, ◌-◌, ◌*◌, ◌/◌, ◌%◌, ◌≤◌, ◌<◌, ◌≡◌, refl, ◌≢◌, Bool, true, ◌&&◌, [], ◌∷◌,
  Option, none, some, arith, Text, if◌then◌else◌, ltb, leb, nat_eq, All, Bool-cases, inl, inr, ◌∙◌,
}
use nudo.Text.Trim.{trim, is_whitespace, trim_of_IsTrimmed, FirstFails, LastFails}

abbrev pub is_ascii_digit : ℕ → Bool
is_ascii_digit c = leb b'0' c && leb c b'9'

-- `u64::MAX` and `u32::MAX`
abbrev pub max_u64 : ℕ
max_u64 = 0xffff_ffff_ffff_ffff

abbrev pub max_u32 : ℕ
max_u32 = 0xffff_ffff

-- The digits of `n` in front of `out`; the fuel counts digits, and `suc n` of it is enough.
digits : ℕ → ℕ → Text → Text
digits zero n out = out
digits (suc f) n out =
    let longer = (b'0' + n % 10) ∷ out in
    let rest = digits f (n / 10) longer in if ltb n 10 then longer else rest

unfoldable pub to_string : ℕ → Text
unfolding digits
to_string n = digits (suc n) n []

-- `checked_mul` and `checked_add` at each digit
scan : ℕ → Text → ℕ → Option ℕ
scan most [] n = some n
scan most (c ∷ s) n =
    let rest = scan most s (n * 10 + (c - b'0')) in
    if is_ascii_digit c && leb (n * 10 + (c - b'0')) most then rest else none

-- `str::parse` for an unsigned type with the given greatest value: one leading `+` is accepted.
unfoldable pub parse : ℕ → Text → Option ℕ
unfolding scan
parse most [] = none
parse most (c ∷ []) = scan most (c ∷ []) 0
parse most (c ∷ d ∷ s) = if nat_eq c b'+' then scan most (d ∷ s) 0 else scan most (c ∷ d ∷ s) 0

scan-digits :
    (most f n : ℕ) (out : Text) → n < f → n ≤ most → scan most (digits f n out) 0 ≡ scan most out n
unfolding digits scan
scan-digits most zero n out h fits = elim h [ ]
scan-digits most (suc f) n out h fits = elim (Bool-cases (ltb n 10)) [
  | inl e ↦ ground arith
  | inr e ↦ rw e (
      scan-digits most f (n / 10) ((b'0' + n % 10) ∷ out) (ground arith) (ground arith)
      ∙ ground arith)
]

-- Every character that is printed is a digit, and there is one.
digits-All :
    (f n : ℕ) (out : Text)
    → All (λ c. is_ascii_digit c ≡ true) out
    → All (λ c. is_ascii_digit c ≡ true) (digits f n out)
unfolding digits
digits-All zero n out h = h
digits-All (suc f) n out h = elim (Bool-cases (ltb n 10)) [
  | inl e ↦ rw e (ground arith, h)
  | inr e ↦ rw e (digits-All f (n / 10) ((b'0' + n % 10) ∷ out) (ground arith, h))
]

pub to_string-All : (n : ℕ) → All (λ c. is_ascii_digit c ≡ true) (to_string n)
unfolding to_string
to_string-All n = digits-All (suc n) n [] tt

parse-scan :
    (most : ℕ) (s : Text)
    → s ≢ []
    → All (λ c. is_ascii_digit c ≡ true) s
    → parse most s ≡ scan most s 0
unfolding parse
parse-scan most [] h _ = absurd (h refl)
parse-scan most (c ∷ []) h _ = refl
parse-scan most (c ∷ d ∷ s) h (digit, _) = ground arith

digits-ne-nil : (f n : ℕ) (out : Text) → out ≢ [] → digits f n out ≢ []
unfolding digits
digits-ne-nil zero n out h = h
digits-ne-nil (suc f) n out h = elim (Bool-cases (ltb n 10)) [
  | inl e ↦ rw e (λ q. ground arith)
  | inr e ↦ rw e (digits-ne-nil f (n / 10) ((b'0' + n % 10) ∷ out) (λ q. ground arith))
]

pub to_string-ne-nil : (n : ℕ) → to_string n ≢ []
unfolding to_string digits
to_string-ne-nil n = elim (Bool-cases (ltb n 10)) [
  | inl e ↦ rw e (λ q. ground arith)
  | inr e ↦ rw e (digits-ne-nil n (n / 10) ((b'0' + n % 10) ∷ []) (λ q. ground arith))
]

-- A number that fits the type is read back from its print.
pub parse-to_string : (most n : ℕ) → n ≤ most → parse most (to_string n) ≡ some n
parse-to_string most n fits =
    parse-scan most (to_string n) (to_string-ne-nil n) (to_string-All n)
    ∙ unfold to_string in unfold scan in scan-digits most (suc n) n [] (omega arith) fits

digits-LastFails : (s : Text) → All (λ c. is_ascii_digit c ≡ true) s → LastFails is_whitespace s
unfolding is_whitespace
digits-LastFails [] h = tt
digits-LastFails (c ∷ []) (digit, _) = ground arith
digits-LastFails (c ∷ d ∷ s) (_, h) = digits-LastFails (d ∷ s) h

digits-FirstFails : (s : Text) → All (λ c. is_ascii_digit c ≡ true) s → FirstFails is_whitespace s
unfolding is_whitespace
digits-FirstFails [] h = tt
digits-FirstFails (c ∷ s) (digit, _) = ground arith

-- A printed number has no white space to trim.
pub trim-to_string : (n : ℕ) → trim (to_string n) ≡ to_string n
trim-to_string n = trim_of_IsTrimmed (to_string n) (
  digits-FirstFails (to_string n) (to_string-All n),
  digits-LastFails (to_string n) (to_string-All n),
)
