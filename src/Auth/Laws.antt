-- ===== src/Auth/Laws.antt =====
-- What the check in front of a call guarantees.
use nudo.Prelude.{
  ℕ, ◌≡◌, refl, ◌⊎◌, inl, inr, Bool, true, false, List, Option, none, some, Text, text_eq, find,
  find-eq-some, eq_of_==, Elem, is_empty, ok, arith, Bool-cases, subst,
}
use nudo.Text.Trim.{trim}
use nudo.Auth.Tokens.{ApiToken, revoked, can_write, has_hash, authenticated, authenticate_api_token}
use nudo.Auth.{is_read_only, is_public, judge_token, check_token, check}

-- A token of the table that was presented and is not revoked, with the scope that a method needs.
abbrev pub IsAdmitted : (Text → Text) → Option Text → Text → List ApiToken → Type 0
IsAdmitted sha token method rows =
    (plaintext : Text) × (t : ApiToken) × (token ≡ some plaintext)
    × Elem t rows
    × (t.token_hash ≡ sha (trim plaintext))
    × (revoked t ≡ false)
    × ((is_read_only method ≡ true) ⊎ (can_write t ≡ true))

authenticated-some :
    (now : ℕ) (rows : List ApiToken) (o : Option ApiToken) (t : ApiToken)
    → (authenticated now rows o).1 ≡ some t
    → (o ≡ some t) × (revoked t ≡ false)
unfolding authenticated
authenticated-some now rows none t e = absurd (ground (arith, e))
authenticated-some now rows (some u) t e = elim (Bool-cases (revoked u)) [
  | inl r ↦ absurd (ground (arith, simp r at e))
  | inr r ↦
      let same : u ≡ t = ground (arith, simp r at e) in
      (ground (arith, same), subst (λ x. revoked x ≡ false) same r)
]

authenticate_api_token-some :
    (sha : Text → Text) (now : ℕ) (plaintext : Text) (rows : List ApiToken) (t : ApiToken)
    → (authenticate_api_token sha now plaintext rows).1 ≡ some t
    → Elem t rows × (t.token_hash ≡ sha (trim plaintext)) × (revoked t ≡ false)
unfolding authenticate_api_token
authenticate_api_token-some sha now plaintext rows t e =
    elim (Bool-cases (is_empty (trim plaintext))) [
      | inl blank ↦ absurd (ground (arith, simp blank at e))
      | inr given ↦
          let (found, active) =
            authenticated-some now rows (find (has_hash (sha (trim plaintext))) rows) t
              (simp given at e) in
          let (listed, same) = find-eq-some (has_hash (sha (trim plaintext))) rows found in
          (listed, eq_of_== t.token_hash (sha (trim plaintext)) same, active)
    ]

judge_token-ok :
    (method : Text) (o : Option ApiToken) (name : Option Text)
    → judge_token method o ≡ ok name
    → (t : ApiToken) × (o ≡ some t)
      × (name ≡ some t.name)
      × ((is_read_only method ≡ true) ⊎ (can_write t ≡ true))
unfolding judge_token
judge_token-ok method none name e = absurd (ground (arith, e))
judge_token-ok method (some t) name e = (t, refl, ground (arith, e), ground (arith, e))

module _ (sha : Text → Text) (answers : Bool) (now : ℕ) (method : Text) (rows : List ApiToken) where
  check_token-IsAdmitted :
      (token : Option Text) (name : Option Text)
      → (check_token sha answers now token method rows).1 ≡ ok name
      → (answers ≡ true) × IsAdmitted sha token method rows
  unfolding check_token
  check_token-IsAdmitted none name e = absurd (ground (arith, e))
  check_token-IsAdmitted (some plaintext) name e = elim (Bool-cases answers) [
    | inr silent ↦ absurd (ground (arith, simp silent at e))
    | inl replies ↦
        let (t, found, _, may) =
          judge_token-ok method (authenticate_api_token sha now plaintext rows).1 name
            (simp replies at e) in
        let (listed, same, active) = authenticate_api_token-some sha now plaintext rows t found in
        (replies, (plaintext, t, refl, listed, same, active, may))
  ]

  -- A call that passes is one of the public methods, or it presented a token whose digest is stored and
  -- which is not revoked, and the method only reads or the token may write. A database that does not
  -- answer lets no other call pass.
  pub check-IsAdmitted :
      (token : Option Text) (name : Option Text)
      → (check sha answers now token method rows).1 ≡ ok name
      → (is_public method ≡ true) ⊎ ((answers ≡ true) × IsAdmitted sha token method rows)
  unfolding check
  check-IsAdmitted token name e = elim (Bool-cases (is_public method)) [
    | inl public ↦ inl public
    | inr private ↦ inr (check_token-IsAdmitted token name (simp private at e))
  ]
