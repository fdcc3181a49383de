-- ===== src/Auth/Tokens/Minted.antt =====
-- A token that was just created, and what it may do.
use nudo.Prelude.{
  ℕ, ◌≡◌, refl, sym, ap, ◌∙◌, Bool, true, false, List, [], ◌∷◌, ◌++◌, map, find, any, some, Text,
  codes, text_eq, text_beq, ◌==◌, ==_refl, if◌then◌else◌, is_empty, Result, ok, nat_eq, arith,
  Bool-cases, inl, inr, subst,
}
use nudo.Text.Trim.{trim, trim_start_matches, trim_end_matches, is_whitespace}
use nudo.Text.Split.{split, join}
use nudo.Auth.Tokens.{
  ApiToken, revoked, can_write, create_api_token, clashes, new_token, plaintext_of, has_hash,
  authenticated, authenticate_api_token, TokenError,
}
use nudo.Auth.Tokens.Scopes.{normalize_scopes-asked}

find_new :
    (id hash : Text) (rows : List ApiToken) (t : ApiToken)
    → clashes id hash rows ≡ false
    → t.token_hash ≡ hash
    → find (has_hash hash) (rows ++ (t ∷ [])) ≡ some t
find_new id hash [] t free same = simp (ap (λ h. h == hash) same ∙ ==_refl hash) refl
find_new id hash (r ∷ rows) t free same =
    let other : (r.token_hash == hash) ≡ false = ground (arith, free) in
    simp other (find_new id hash rows t (ground (arith, free)) same)

can_write-scopes :
    (b : Bool)
    → any
        (λ s. trim s == codes "write")
        (split
          (nat_eq b',')
          (join (codes ",") (if b then codes "read" ∷ codes "write" ∷ [] else codes "read" ∷ [])))
      ≡ b
unfolding split join trim trim_start_matches trim_end_matches is_whitespace text_beq
can_write-scopes true = refl
can_write-scopes false = refl

ok_inj : {A : Type 0} {x y : A} → Path (Result TokenError A) (ok x) (ok y) → x ≡ y
ok_inj e = ground (arith, e)

module _ (sha : Text → Text) (id secret : Text) (now : ℕ) (name : Text) (scopes : List Text)
    (created_by : Text) (rows : List ApiToken) where
  abbrev minted : ApiToken
  minted = new_token id (sha (plaintext_of secret)) now name scopes created_by

  abbrev Made : Type 0
  Made = List ApiToken × ApiToken × Text

  create_api_token-made :
      (made : Made)
      → create_api_token sha id secret now name scopes created_by rows ≡ ok made
      → (clashes id (sha (plaintext_of secret)) rows ≡ false)
        × ((rows ++ (minted ∷ []), minted, plaintext_of secret) ≡ made)
  unfolding create_api_token
  create_api_token-made made e = elim (Bool-cases (is_empty (trim name))) [
    | inl blank ↦ absurd (ground (arith, simp blank at e))
    | inr named ↦ elim (Bool-cases (clashes id (sha (plaintext_of secret)) rows)) [
      | inl clash ↦ absurd (ground (arith, simp (named, clash) at e))
      | inr free ↦ (free, ok_inj (simp (named, free) at e))
    ]
  ]

  found_new :
      (later : ℕ)
      → clashes id (sha (plaintext_of secret)) rows ≡ false
      → (authenticated later
          (rows ++ (minted ∷ []))
          (find (has_hash (sha (plaintext_of secret))) (rows ++ (minted ∷ [])))).1
        ≡ some minted
  unfolding authenticated revoked
  found_new later free =
      ap (λ o. (authenticated later (rows ++ (minted ∷ [])) o).1)
        (find_new id (sha (plaintext_of secret)) rows minted free refl)

  authenticate_new :
      (later : ℕ)
      → clashes id (sha (plaintext_of secret)) rows ≡ false
      → trim (plaintext_of secret) ≡ plaintext_of secret
      → (authenticate_api_token sha later (plaintext_of secret) (rows ++ (minted ∷ []))).1
        ≡ some minted
  unfolding authenticate_api_token
  authenticate_new later free trimmed = rw trimmed (found_new later free)

  minted-can_write : can_write minted ≡ any (λ s. s == codes "write") (map trim scopes)
  unfolding can_write
  minted-can_write =
      ap (λ ss. any (λ s. trim s == codes "write") (split (nat_eq b',') (join (codes ",") ss)))
        (normalize_scopes-asked scopes)
      ∙ can_write-scopes (any (λ s. s == codes "write") (map trim scopes))

  -- A token that was created authenticates with the secret that was handed out, as the row that was
  -- written, and it may write exactly if that scope was asked for. The secret is one that trimming
  -- leaves alone.
  pub create_api_token-authenticates :
      (later : ℕ) (after : List ApiToken) (token : ApiToken) (plaintext : Text)
      → create_api_token sha id secret now name scopes created_by rows
        ≡ ok (after, token, plaintext)
      → trim plaintext ≡ plaintext
      → ((authenticate_api_token sha later plaintext after).1 ≡ some token)
        × (can_write token ≡ any (λ s. s == codes "write") (map trim scopes))
  create_api_token-authenticates later after token plaintext e trimmed =
      let (free, made) = create_api_token-made (after, token, plaintext) e in
      let same_text = ap (λ r. r.2) made in
      (
        subst (λ r. (authenticate_api_token sha later r.2 r.0).1 ≡ some r.1) made
            (authenticate_new later free (subst (λ p. trim p ≡ p) (sym same_text) trimmed)),
        sym (ap (λ r. can_write r.1) made) ∙ minted-can_write,
      )
