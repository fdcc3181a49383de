-- ===== src/Auth/Tokens/Revoked.antt =====
-- A token that was revoked, whatever is done to the tokens behind it.
use nudo.Prelude.{
  ℕ, ◌≡◌, refl, ap, ◌∙◌, Bool, true, false, List, [], ◌∷◌, ◌++◌, map, find, any, Option, none, some,
  Text, text_eq, ◌==◌, ==_refl, if◌then◌else◌, is_empty, Result, ok, err, arith, Bool-cases, inl,
  inr, subst,
}
use nudo.Text.Trim.{trim}
use nudo.Auth.Tokens.{
  ApiToken, revoked, create_api_token, clashes, plaintext_of, has_hash, used, authenticated,
  authenticate_api_token, is_active, stamped, revoke_api_token, TokenError,
}

-- A call on the tokens; one that fails leaves them.
pub data TokenCall : Type 0 where
  creating : Text → Text → ℕ → Text → List Text → Text → TokenCall
  authenticating : ℕ → Text → TokenCall
  revoking : Text → ℕ → TokenCall

abbrev tokens_after :
    List ApiToken → Result TokenError (List ApiToken × ApiToken × Text) → List ApiToken
tokens_after rows (err e) = rows
tokens_after rows (ok (after, token, plaintext)) = after

abbrev revoked_after : List ApiToken → Result TokenError (List ApiToken) → List ApiToken
revoked_after rows (err e) = rows
revoked_after rows (ok after) = after

unfoldable pub token_call : (Text → Text) → TokenCall → List ApiToken → List ApiToken
token_call sha (creating id secret now name scopes created_by) rows =
    tokens_after rows (create_api_token sha id secret now name scopes created_by rows)
token_call sha (authenticating now plaintext) rows =
    (authenticate_api_token sha now plaintext rows).0
token_call sha (revoking id now) rows = revoked_after rows (revoke_api_token id now rows)

unfoldable pub token_calls : (Text → Text) → List TokenCall → List ApiToken → List ApiToken
unfolding token_call
token_calls sha [] rows = rows
token_calls sha (c ∷ cs) rows = token_calls sha cs (token_call sha c rows)

-- The token that is found by a digest is revoked.
abbrev pub IsRevoked : Text → List ApiToken → Type 0
IsRevoked hash rows = (r : ApiToken) × (find (has_hash hash) rows ≡ some r) × (revoked r ≡ true)

find-map :
    (f : ApiToken → ApiToken) (hash : Text) (rows : List ApiToken) (r : ApiToken)
    → ((t : ApiToken) → (f t).token_hash ≡ t.token_hash)
    → find (has_hash hash) rows ≡ some r
    → find (has_hash hash) (map f rows) ≡ some (f r)
find-map f hash [] r same e = absurd (ground (arith, e))
find-map f hash (t ∷ ts) r same e =
    let kept : (has_hash hash (f t)) ≡ (has_hash hash t) = ap (λ x. x == hash) (same t) in
    elim (Bool-cases (has_hash hash t)) [
      | inl here ↦
          let is_r : some t ≡ some r = simp here at e in
          simp (kept ∙ here) (ap some (ap f (ground (arith, is_r))))
      | inr other ↦ simp (kept ∙ other) (find-map f hash ts r same (simp other at e))
    ]

pub find-append_found :
    (hash : Text) (rows : List ApiToken) (t r : ApiToken)
    → find (has_hash hash) rows ≡ some r
    → find (has_hash hash) (rows ++ (t ∷ [])) ≡ some r
find-append_found hash [] t r e = absurd (ground (arith, e))
find-append_found hash (x ∷ xs) t r e = elim (Bool-cases (has_hash hash x)) [
  | inl here ↦ simp here (simp here at e)
  | inr other ↦ simp other (find-append_found hash xs t r (simp other at e))
]

used-hash : (id : Text) (now : ℕ) (t : ApiToken) → (used id now t).token_hash ≡ t.token_hash
used-hash id now t = elim (Bool-cases (t.id == id)) [ inl e ↦ simp e refl | inr e ↦ simp e refl ]

used-revoked : (id : Text) (now : ℕ) (t : ApiToken) → revoked (used id now t) ≡ revoked t
unfolding revoked
used-revoked id now t = elim (Bool-cases (t.id == id)) [ inl e ↦ simp e refl | inr e ↦ simp e refl ]

stamped-hash : (id : Text) (now : ℕ) (t : ApiToken) → (stamped id now t).token_hash ≡ t.token_hash
stamped-hash id now t = elim (Bool-cases (is_active id t)) [
  | inl e ↦ simp e refl
  | inr e ↦ simp e refl
]

stamped-revoked :
    (id : Text) (now : ℕ) (t : ApiToken) → revoked t ≡ true → revoked (stamped id now t) ≡ true
stamped-revoked id now t h = ground (arith, h)

stamped_done :
    (id : Text) (now : ℕ) (t : ApiToken) → (t.id == id) ≡ true → revoked (stamped id now t) ≡ true
unfolding revoked
stamped_done id now t h = ground (arith, h)

authenticated-IsRevoked :
    (now : ℕ) (rows : List ApiToken) (o : Option ApiToken) (hash : Text)
    → IsRevoked hash rows
    → IsRevoked hash (authenticated now rows o).0
unfolding authenticated
authenticated-IsRevoked now rows none hash h = h
authenticated-IsRevoked now rows (some t) hash (r, found, h) = elim (Bool-cases (revoked t)) [
  | inl e ↦ simp e (r, found, h)
  | inr e ↦ simp e (
    used t.id now r,
    find-map (used t.id now) hash rows r (used-hash t.id now) found,
    used-revoked t.id now r ∙ h,
  )
]

looked_up-IsRevoked :
    (blank : Bool) (now : ℕ) (rows : List ApiToken) (o : Option ApiToken) (hash : Text)
    → IsRevoked hash rows
    → IsRevoked hash (if blank then (rows, none) else authenticated now rows o).0
looked_up-IsRevoked true now rows o hash h = h
looked_up-IsRevoked false now rows o hash h = authenticated-IsRevoked now rows o hash h

token_call-IsRevoked :
    (sha : Text → Text) (c : TokenCall) (rows : List ApiToken) (hash : Text)
    → IsRevoked hash rows
    → IsRevoked hash (token_call sha c rows)
unfolding token_call create_api_token authenticate_api_token revoke_api_token
token_call-IsRevoked sha (creating id secret now name scopes by) rows hash (r, found, h) =
    elim (Bool-cases (is_empty (trim name))) [
      | inl blank ↦ simp blank (r, found, h)
      | inr named ↦ elim (Bool-cases (clashes id (sha (plaintext_of secret)) rows)) [
        | inl clash ↦ simp (named, clash) (r, found, h)
        | inr free ↦ simp (named, free) (r, find-append_found hash rows _ r found, h)
      ]
    ]
token_call-IsRevoked sha (authenticating now plaintext) rows hash h =
    looked_up-IsRevoked (is_empty (trim plaintext)) now rows _ hash h
token_call-IsRevoked sha (revoking id now) rows hash (r, found, h) =
    elim (Bool-cases (any (is_active id) rows)) [
      | inl some_active ↦ simp some_active (
        stamped id now r,
        find-map (stamped id now) hash rows r (stamped-hash id now) found,
        stamped-revoked id now r h,
      )
      | inr none_active ↦ simp none_active (r, found, h)
    ]

token_calls-IsRevoked :
    (sha : Text → Text) (cs : List TokenCall) (rows : List ApiToken) (hash : Text)
    → IsRevoked hash rows
    → IsRevoked hash (token_calls sha cs rows)
unfolding token_calls
token_calls-IsRevoked sha [] rows hash h = h
token_calls-IsRevoked sha (c ∷ cs) rows hash h =
    token_calls-IsRevoked sha cs (token_call sha c rows) hash
      (token_call-IsRevoked sha c rows hash h)

revoke_api_token-IsRevoked :
    (id : Text) (now : ℕ) (rows after : List ApiToken) (hash : Text) (r : ApiToken)
    → find (has_hash hash) rows ≡ some r
    → r.id ≡ id
    → revoke_api_token id now rows ≡ ok after
    → IsRevoked hash after
unfolding revoke_api_token revoked
revoke_api_token-IsRevoked id now rows after hash r found same e =
    elim (Bool-cases (any (is_active id) rows)) [
      | inr none_active ↦ absurd (ground (arith, simp none_active at e))
      | inl some_active ↦
          let rows_are : map (stamped id now) rows ≡ after =
            ground (arith, simp some_active at e) in
          subst (IsRevoked hash) rows_are (
            stamped id now r,
            find-map (stamped id now) hash rows r (stamped-hash id now) found,
            stamped_done id now r (ap (λ x. x == id) same ∙ ==_refl id),
          )
    ]

-- A token that was revoked never authenticates again, whatever tokens are created, used or revoked
-- behind that.
pub revoke-authenticate :
    (sha : Text → Text) (id plaintext : Text) (now later : ℕ) (cs : List TokenCall)
    → (rows after : List ApiToken) (r : ApiToken)
    → find (λ t. t.token_hash == sha (trim plaintext)) rows ≡ some r
    → r.id ≡ id
    → revoke_api_token id now rows ≡ ok after
    → (authenticate_api_token sha later plaintext (token_calls sha cs after)).1 ≡ none
unfolding authenticate_api_token authenticated
revoke-authenticate sha id plaintext now later cs rows after r found same e =
    let (t, there, h) =
      token_calls-IsRevoked sha cs after (sha (trim plaintext))
        (revoke_api_token-IsRevoked id now rows after (sha (trim plaintext)) r found same e) in
    elim (Bool-cases (is_empty (trim plaintext))) [
      | inl blank ↦ ground (arith, blank)
      | inr given ↦ ground (arith, given, there, h)
    ]
