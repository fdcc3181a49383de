-- ===== src/Text/Split.antt =====
-- `split`, `split_once`, `lines`, `join`, `contains` and `replace` with character tests.
use nudo.Prelude.{
  true, Bool-cases, inl, inr, ℕ, ◌≡◌, refl, ap, ◌≢◌, Bool, List, [], ◌∷◌, ◌++◌, Option, none, some,
  arith, Text, if◌then◌else◌, nat_eq, All, All-append, append-nil, append_assoc, any, ◌∙◌,
}

abbrev pub newline : ℕ
newline = 10

abbrev pub carriage_return : ℕ
carriage_return = 13

abbrev pub Lacks : ℕ → Text → Type 0
Lacks c = All (λ d. d ≢ c)

abbrev pub contains : ℕ → Text → Bool
contains c = any (nat_eq c)

module _ (p : ℕ → Bool) where
  abbrev extend_first : ℕ → List Text → List Text
  extend_first c [] = (c ∷ []) ∷ []
  extend_first c (s ∷ ss) = (c ∷ s) ∷ ss

  -- `str::split` with a character test; there is always a part.
  unfoldable pub split : Text → List Text
  split [] = [] ∷ []
  split (c ∷ s) = let rest = split s in if p c then [] ∷ rest else extend_first c rest

  -- What the test accepts, and what every part has, the whole text has.
  module _ (Q : ℕ → Type 0) (accepted : (c : ℕ) → p c ≡ true → Q c) where
    All-extend_first :
        (c : ℕ) (ss : List Text) → All (All Q) (extend_first c ss) → Q c × All (All Q) ss
    All-extend_first c [] ((q, _), _) = (q, tt)
    All-extend_first c (s ∷ ss) ((q, h), hs) = (q, (h, hs))

    pub All-split : (s : Text) → All (All Q) (split s) → All Q s
    unfolding split
    All-split [] h = tt
    All-split (c ∷ s) h = elim (Bool-cases (p c)) [
      | inl e ↦ (accepted c e, All-split s (simp e at h).1)
      | inr e ↦ let (q, hs) = All-extend_first c (split s) (simp e at h) in (q, All-split s hs)
    ]

-- `[String]::join`
unfoldable pub join : Text → List Text → Text
join sep [] = []
join sep (s ∷ []) = s
join sep (s ∷ t ∷ ss) = s ++ sep ++ join sep (t ∷ ss)

-- `str::split_once`, at the first occurrence of a character.
unfoldable pub split_once : ℕ → Text → Option (Text × Text)
split_once c [] = none
split_once c (d ∷ s) =
    if nat_eq d c
    then some ([], s)
    else elim (split_once c s) [ none ↦ none | some (before, after) ↦ some (d ∷ before, after) ]

pub split_once-append :
    (c : ℕ) (s rest : Text) → Lacks c s → split_once c (s ++ c ∷ rest) ≡ some (s, rest)
unfolding split_once
split_once-append c [] rest h = ground arith
split_once-append c (d ∷ s) rest (ne, h) = ground (arith, split_once-append c s rest h)

-- One carriage return before a newline belongs to the line end.
unfoldable pub strip_cr : Text → Text
strip_cr [] = []
strip_cr (c ∷ []) = if nat_eq c carriage_return then [] else c ∷ []
strip_cr (c ∷ d ∷ s) = c ∷ strip_cr (d ∷ s)

lines_from : Text → Text → List Text
lines_from [] [] = []
lines_from (c ∷ cur) [] = (c ∷ cur) ∷ []
lines_from cur (c ∷ s) =
    let closed = strip_cr cur ∷ lines_from [] s in
    let longer = lines_from (cur ++ c ∷ []) s in if nat_eq c newline then closed else longer

-- `str::lines`
unfoldable pub lines : Text → List Text
unfolding lines_from strip_cr
lines s = lines_from [] s

lines_from-cons :
    (cur : Text) (c : ℕ) (s : Text)
    → lines_from cur (c ∷ s)
      ≡ (if nat_eq c newline then strip_cr cur ∷ lines_from [] s else lines_from (cur ++ c ∷ []) s)
unfolding lines_from
lines_from-cons [] c s = refl
lines_from-cons (d ∷ cur) c s = refl

lines_from-append :
    (cur s rest : Text)
    → Lacks newline s
    → lines_from cur (s ++ newline ∷ rest) ≡ strip_cr (cur ++ s) ∷ lines_from [] rest
lines_from-append cur [] rest h = rw (lines_from-cons cur newline rest, append-nil)
lines_from-append cur (c ∷ s) rest (ne, h) =
    rw (lines_from-cons cur c (s ++ newline ∷ rest))
      (ground (arith, lines_from-append (cur ++ c ∷ []) s rest h, append_assoc cur (c ∷ []) s))

-- A text that `lines` gives back whole when a newline ends it.
abbrev pub IsLine : Text → Type 0
IsLine s = Lacks newline s × (strip_cr s ≡ s)

pub lines-append : (s rest : Text) → IsLine s → lines (s ++ newline ∷ rest) ≡ s ∷ lines rest
lines-append s rest (h, e) = unfold lines in rw (lines_from-append [] s rest h, e)

strip_cr_of_Lacks : (s : Text) → Lacks carriage_return s → strip_cr s ≡ s
unfolding strip_cr
strip_cr_of_Lacks [] h = refl
strip_cr_of_Lacks (c ∷ []) (ne, h) = ground arith
strip_cr_of_Lacks (c ∷ d ∷ s) (ne, h) = ap (λ t. c ∷ t) (strip_cr_of_Lacks (d ∷ s) h)

pub IsLine-of_Lacks : (s : Text) → Lacks newline s → Lacks carriage_return s → IsLine s
IsLine-of_Lacks s h k = (h, strip_cr_of_Lacks s k)

strip_cr-cons : (c : ℕ) (s : Text) → s ≢ [] → strip_cr (c ∷ s) ≡ c ∷ strip_cr s
unfolding strip_cr
strip_cr-cons c [] h = absurd (h refl)
strip_cr-cons c (d ∷ s) h = refl

strip_cr-append_ne : (p s : Text) → s ≢ [] → strip_cr (p ++ s) ≡ p ++ strip_cr s
strip_cr-append_ne [] s h = refl
strip_cr-append_ne (c ∷ p) [] h = absurd (h refl)
strip_cr-append_ne (c ∷ []) (d ∷ s) h = strip_cr-cons c (d ∷ s) h
strip_cr-append_ne (c ∷ b ∷ p) (d ∷ s) h =
    strip_cr-cons c ((b ∷ p) ++ d ∷ s) (λ e. ground arith)
    ∙ ap (λ t. c ∷ t) (strip_cr-append_ne (b ∷ p) (d ∷ s) h)

-- A line stays a line behind a prefix with no line end in it.
pub IsLine-append :
    (p s : Text) → Lacks newline p → Lacks carriage_return p → IsLine s → IsLine (p ++ s)
IsLine-append p [] h k e = rw append-nil (IsLine-of_Lacks p h k)
IsLine-append p (c ∷ s) h k (l, e) = (
  All-append _ p (c ∷ s) h l,
  strip_cr-append_ne p (c ∷ s) (λ q. ground arith) ∙ ap (λ t. p ++ t) e,
)

pub lines-nil : lines [] ≡ []
unfolding lines
lines-nil = refl
