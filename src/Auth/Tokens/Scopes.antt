-- ===== src/Auth/Tokens/Scopes.antt =====
-- The scopes of a new token, whatever was asked for.
use nudo.Prelude.{
  ℕ, zero, suc, ◌≡◌, refl, sym, ap, ◌∙◌, inl, inr, Bool, true, false, List, [], ◌∷◌, map, filter,
  any, Text, codes, text_eq, text_beq, ◌==◌, eq_of_==, if◌then◌else◌, Bool-cases, subst,
}
use nudo.Text.Trim.{trim}
use nudo.Auth.Tokens.{
  insert_sorted, sort, keep_first, dedup, is_scope, or_read, with_read, normalize_scopes,
}

abbrev read : Text
read = codes "read"

abbrev write : Text
write = codes "write"

-- Scopes in their order: some times `read`, then some times `write`.
abbrev repeat : ℕ → Text → List Text → List Text
repeat zero s ss = ss
repeat (suc n) s ss = s ∷ repeat n s ss

abbrev positive : ℕ → Bool
positive zero = false
positive (suc n) = true

abbrev sorted_of : ℕ → ℕ → List Text
sorted_of a b = repeat a read (repeat b write [])

insert_sorted-read : (a b : ℕ) → insert_sorted read (sorted_of a b) ≡ sorted_of (suc a) b
insert_sorted-read zero zero = refl
insert_sorted-read zero (suc b) = refl
insert_sorted-read (suc a) b = refl

insert_sorted-write : (a b : ℕ) → insert_sorted write (sorted_of a b) ≡ sorted_of a (suc b)
insert_sorted-write zero zero = refl
insert_sorted-write zero (suc b) = refl
insert_sorted-write (suc a) b = ap (λ ss. read ∷ ss) (insert_sorted-write a b)

abbrev asks : Text → List Text → Bool
asks scope ss = any (λ s. s == scope) ss

-- The scopes of a request in their order.
abbrev IsSplit : List Text → Type 0
IsSplit ss =
    (a : ℕ) × (b : ℕ) × (sort (filter is_scope ss) ≡ sorted_of a b)
    × (positive a ≡ asks read ss)
    × (positive b ≡ asks write ss)

IsSplit-read : (ss : List Text) → IsSplit ss → IsSplit (read ∷ ss)
unfolding text_beq
IsSplit-read ss (a, b, e, is_a, is_b) =
    (suc a, b, ap (insert_sorted read) e ∙ insert_sorted-read a b, refl, is_b)

IsSplit-write : (ss : List Text) → IsSplit ss → IsSplit (write ∷ ss)
unfolding text_beq
IsSplit-write ss (a, b, e, is_a, is_b) =
    (a, suc b, ap (insert_sorted write) e ∙ insert_sorted-write a b, is_a, refl)

sort-IsSplit : (ss : List Text) → IsSplit ss
sort-IsSplit [] = (0, 0, refl, refl, refl)
sort-IsSplit (s ∷ ss) = elim (Bool-cases (s == read)) [
  | inl e ↦
      subst (λ x. IsSplit (x ∷ ss)) (sym (eq_of_== s read e)) (IsSplit-read ss (sort-IsSplit ss))
  | inr not_read ↦ elim (Bool-cases (s == write)) [
    | inl e ↦
        subst (λ x. IsSplit (x ∷ ss)) (sym (eq_of_== s write e))
          (IsSplit-write ss (sort-IsSplit ss))
    | inr not_write ↦ simp (not_read, not_write) (sort-IsSplit ss)
  ]
]

dedup-write : (b : ℕ) → dedup (repeat (suc b) write []) ≡ write ∷ []
unfolding text_beq
dedup-write zero = refl
dedup-write (suc b) = ap (keep_first write) (dedup-write b)

dedup-read : (a b : ℕ) → dedup (sorted_of (suc a) b) ≡ keep_first read (dedup (sorted_of 0 b))
unfolding text_beq
dedup-read zero b = refl
dedup-read (suc a) zero = ap (keep_first read) (dedup-read a zero)
dedup-read (suc a) (suc b) =
    ap (keep_first read) (dedup-read a (suc b))
    ∙ ap (λ ss. keep_first read (keep_first read ss)) (dedup-write b)
    ∙ ap (keep_first read) (sym (dedup-write b))

-- What is kept of sorted scopes: `read` always, and `write` when it is there.
normalized :
    (a b : ℕ)
    → with_read (or_read (dedup (sorted_of a b)))
      ≡ (if positive b then read ∷ write ∷ [] else read ∷ [])
unfolding text_beq
normalized zero zero = refl
normalized zero (suc b) = ap (λ ss. with_read (or_read ss)) (dedup-write b)
normalized (suc a) zero = ap (λ ss. with_read (or_read ss)) (dedup-read a zero)
normalized (suc a) (suc b) =
    ap (λ ss. with_read (or_read ss)) (dedup-read a (suc b))
    ∙ ap (λ ss. with_read (or_read (keep_first read ss))) (dedup-write b)

-- Whatever is asked for, in whatever order and however often, a token is given `read`, and `write`
-- exactly if it is asked for.
pub normalize_scopes-asked :
    (scopes : List Text)
    → normalize_scopes scopes
      ≡ (if any (λ s. s == write) (map trim scopes) then read ∷ write ∷ [] else read ∷ [])
unfolding normalize_scopes
normalize_scopes-asked scopes =
    let (a, b, e, is_a, is_b) = sort-IsSplit (map trim scopes) in
    ap (λ ss. with_read (or_read (dedup ss))) e
    ∙ normalized a b
    ∙ ap (λ c. if c then read ∷ write ∷ [] else read ∷ []) is_b
