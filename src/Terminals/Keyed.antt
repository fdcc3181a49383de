-- ===== src/Terminals/Keyed.antt =====
-- Tables in which an id stands once, and ids that cannot be redeemed any more.
use nudo.Prelude.{
  ℕ, ◌≡◌, refl, sym, ap, ◌∙◌, Bool, true, false, not, ◌&&◌, List, [], ◌∷◌, ◌++◌, map, filter, find,
  any, none, some, Text, text_eq, ◌==◌, eq_of_==, ==_of_ne, ne_of_==, All, arith, Bool-cases, inl,
  inr,
}
use nudo.Terminals.{TerminalRow, has_id, consumed, redeems, spent}

abbrev pub IsKeyed : List TerminalRow → Type 0
IsKeyed [] = Unit
IsKeyed (r ∷ rs) = (any (has_id r.id) rs ≡ false) × IsKeyed rs

-- No row of an id is left to redeem.
abbrev pub IsSpent : Text → List TerminalRow → Type 0
IsSpent id = All (λ r. (has_id id r && not (consumed r)) ≡ false)

spent-id : (id hash : Text) (now : ℕ) (r : TerminalRow) → (spent id hash now r).id ≡ r.id
spent-id id hash now r = elim (Bool-cases (redeems id hash now r)) [
  | inl e ↦ simp e refl
  | inr e ↦ simp e refl
]

any-spent :
    (id hash : Text) (now : ℕ) (other : Text) (rs : List TerminalRow)
    → any (has_id other) (map (spent id hash now) rs) ≡ any (has_id other) rs
any-spent id hash now other [] = refl
any-spent id hash now other (r ∷ rs) =
    rw (ap (λ i. i == other) (spent-id id hash now r)) (rw (any-spent id hash now other rs) refl)

pub IsKeyed-spent :
    (id hash : Text) (now : ℕ) (rs : List TerminalRow)
    → IsKeyed rs
    → IsKeyed (map (spent id hash now) rs)
IsKeyed-spent id hash now [] h = tt
IsKeyed-spent id hash now (r ∷ rs) (only, h) = (
  any-spent id hash now (spent id hash now r).id rs
      ∙ ap (λ i. any (has_id i) rs) (spent-id id hash now r)
      ∙ only,
  IsKeyed-spent id hash now rs h,
)

-- Equality of ids does not depend on their order.
not_same : (a b : Text) → (a == b) ≡ false → (b == a) ≡ false
not_same a b h = ==_of_ne b a λ e. ne_of_== a b h (sym e)

any-append :
    (id : Text) (rs : List TerminalRow) (r : TerminalRow)
    → any (has_id id) rs ≡ false
    → has_id id r ≡ false
    → any (has_id id) (rs ++ (r ∷ [])) ≡ false
any-append id [] r h e = ground (arith, e)
any-append id (s ∷ rs) r h e =
    let later = any-append id rs r (ground (arith, h)) e in ground (arith, h, later)

pub IsKeyed-append :
    (rs : List TerminalRow) (r : TerminalRow)
    → IsKeyed rs
    → any (has_id r.id) rs ≡ false
    → IsKeyed (rs ++ (r ∷ []))
IsKeyed-append [] r h free = (refl, tt)
IsKeyed-append (s ∷ rs) r (only, h) free = (
  any-append s.id rs r only (not_same s.id r.id (ground (arith, free))),
  IsKeyed-append rs r h (ground (arith, free)),
)

any-filter :
    (p : TerminalRow → Bool) (id : Text) (rs : List TerminalRow)
    → any (has_id id) rs ≡ false
    → any (has_id id) (filter p rs) ≡ false
any-filter p id [] h = refl
any-filter p id (r ∷ rs) h =
    let later = any-filter p id rs (ground (arith, h)) in
    elim (Bool-cases (p r)) [
      | inl kept ↦ simp kept (ground (arith, h, later))
      | inr gone ↦ simp gone later
    ]

pub IsKeyed-filter :
    (p : TerminalRow → Bool) (rs : List TerminalRow) → IsKeyed rs → IsKeyed (filter p rs)
IsKeyed-filter p [] h = tt
IsKeyed-filter p (r ∷ rs) (only, h) = elim (Bool-cases (p r)) [
  | inl kept ↦ simp kept (any-filter p r.id rs only, IsKeyed-filter p rs h)
  | inr gone ↦ simp gone (IsKeyed-filter p rs h)
]

pub IsSpent-filter :
    (p : TerminalRow → Bool) (id : Text) (rs : List TerminalRow)
    → IsSpent id rs
    → IsSpent id (filter p rs)
IsSpent-filter p id [] h = tt
IsSpent-filter p id (r ∷ rs) (done, h) = elim (Bool-cases (p r)) [
  | inl kept ↦ simp kept (done, IsSpent-filter p id rs h)
  | inr gone ↦ simp gone (IsSpent-filter p id rs h)
]

spent_row :
    (i : Text) (id hash : Text) (now : ℕ) (r : TerminalRow)
    → (has_id i r && not (consumed r)) ≡ false
    → (has_id i (spent id hash now r) && not (consumed (spent id hash now r))) ≡ false
unfolding consumed
spent_row i id hash now r h = elim (Bool-cases (redeems id hash now r)) [
  | inl e ↦ simp e (ground arith)
  | inr e ↦ simp e h
]

pub IsSpent-spent :
    (i : Text) (id hash : Text) (now : ℕ) (rs : List TerminalRow)
    → IsSpent i rs
    → IsSpent i (map (spent id hash now) rs)
IsSpent-spent i id hash now [] h = tt
IsSpent-spent i id hash now (r ∷ rs) (done, h) =
    (spent_row i id hash now r done, IsSpent-spent i id hash now rs h)

absent-IsSpent : (id : Text) (rs : List TerminalRow) → any (has_id id) rs ≡ false → IsSpent id rs
absent-IsSpent id [] h = tt
absent-IsSpent id (r ∷ rs) h = (ground (arith, h), absent-IsSpent id rs (ground (arith, h)))

find-any :
    (id hash : Text) (now : ℕ) (rs : List TerminalRow) (g : TerminalRow)
    → find (redeems id hash now) rs ≡ some g
    → any (has_id id) rs ≡ true
find-any id hash now [] g e = absurd (ground (arith, e))
find-any id hash now (r ∷ rs) g e = elim (Bool-cases (redeems id hash now r)) [
  | inl here ↦ ground (arith, here)
  | inr other ↦ let later = find-any id hash now rs g (simp other at e) in ground (arith, later)
]

spent_here :
    (id hash : Text) (now : ℕ) (r : TerminalRow)
    → redeems id hash now r ≡ true
    → (has_id id (spent id hash now r) && not (consumed (spent id hash now r))) ≡ false
unfolding consumed
spent_here id hash now r e = simp e (ground arith)

-- Redeeming leaves no row of the id to redeem.
pub IsSpent-redeemed :
    (id hash : Text) (now : ℕ) (rs : List TerminalRow) (g : TerminalRow)
    → IsKeyed rs
    → find (redeems id hash now) rs ≡ some g
    → IsSpent id (map (spent id hash now) rs)
IsSpent-redeemed id hash now [] g k e = absurd (ground (arith, e))
IsSpent-redeemed id hash now (r ∷ rs) g (only, k) e = elim (Bool-cases (redeems id hash now r)) [
  | inl here ↦
      let same : r.id ≡ id = eq_of_== r.id id (ground (arith, here)) in
      (
        spent_here id hash now r here,
        IsSpent-spent id id hash now rs
            (absent-IsSpent id rs (ap (λ i. any (has_id i) rs) (sym same) ∙ only)),
      )
  | inr other ↦
      let found = simp other at e in
      let listed = find-any id hash now rs g found in
      let apart : has_id id r ≡ false =
        ==_of_ne r.id id
          λ same. absurd (ground (arith, listed, ap (λ i. any (has_id i) rs) (sym same) ∙ only)) in
      (
        spent_row id id hash now r (ground (arith, apart)),
        IsSpent-redeemed id hash now rs g k found,
      )
]

pub find_spent :
    (id hash : Text) (now : ℕ) (rs : List TerminalRow)
    → IsSpent id rs
    → find (redeems id hash now) rs ≡ none
find_spent id hash now [] h = refl
find_spent id hash now (r ∷ rs) (done, h) =
    let not_here : redeems id hash now r ≡ false = ground (arith, done) in
    simp not_here (find_spent id hash now rs h)

-- A new row is found when no row before it has its id.
pub find_new :
    (id hash : Text) (now : ℕ) (rs : List TerminalRow) (r : TerminalRow)
    → any (has_id id) rs ≡ false
    → redeems id hash now r ≡ true
    → find (redeems id hash now) (rs ++ (r ∷ [])) ≡ some r
find_new id hash now [] r free here = simp here refl
find_new id hash now (s ∷ rs) r free here =
    let other : redeems id hash now s ≡ false = ground (arith, free) in
    simp other (find_new id hash now rs r (ground (arith, free)) here)
