-- ===== src/Auth/Sessions/Live.antt =====
-- A session from its opening to its end.
use nudo.Prelude.{
  ℕ, ◌+◌, ◌≤◌, ◌<◌, ◌≡◌, refl, ap, ◌∙◌, inl, inr, Bool, false, not, List, [], ◌∷◌, ◌++◌, filter,
  find, any, none, some, Text, text_eq, ◌==◌, ==_refl, if◌then◌else◌, is_empty, ltb, lt→ltb, ok,
  arith, Bool-cases, subst,
}
use nudo.Text.Trim.{trim}
use nudo.Auth.Sessions.{
  UserRow, SessionRow, Accounts, Crypto, get_user, create_session, delete_session, session_user,
  session_ttl, resolve, lookup_session,
}

abbrev has_id : Text → SessionRow → Bool
has_id digest s = s.id == digest

find_opened :
    (digest : Text) (rows : List SessionRow) (s : SessionRow)
    → any (has_id digest) rows ≡ false
    → s.id ≡ digest
    → find (has_id digest) (rows ++ (s ∷ [])) ≡ some s
find_opened digest [] s free same = simp (ap (λ d. d == digest) same ∙ ==_refl digest) refl
find_opened digest (r ∷ rows) s free same =
    let other : has_id digest r ≡ false = ground (arith, free) in
    simp other (find_opened digest rows s (ground (arith, free)) same)

find_closed :
    (digest : Text) (rows : List SessionRow)
    → find (has_id digest) (filter (λ s. not (has_id digest s)) rows) ≡ none
find_closed digest [] = refl
find_closed digest (r ∷ rows) = elim (Bool-cases (has_id digest r)) [
  | inl gone ↦ simp gone (find_closed digest rows)
  | inr stays ↦ simp stays (find_closed digest rows)
]

module _ (crypto : Crypto) (user_id cookie csrf : Text) (now : ℕ) (accounts : Accounts) where
  abbrev digest : Text
  digest = crypto.sha256_hex cookie

  abbrev opened : SessionRow
  opened = record {
    id = digest;
    user_id = user_id;
    csrf_token = csrf;
    expires_at = some (now + session_ttl);
  }

  abbrev with_opened : Accounts
  with_opened = record accounts { sessions = accounts.sessions ++ (opened ∷ []) }

  create_session-opened :
      (after : Accounts)
      → create_session crypto user_id cookie csrf now accounts ≡ ok after
      → (any (has_id digest) accounts.sessions ≡ false) × (with_opened ≡ after)
  unfolding create_session
  create_session-opened after e = elim (Bool-cases (any (has_id digest) accounts.sessions)) [
    | inl taken ↦ absurd (ground (arith, simp taken at e))
    | inr free ↦ (free, ground (arith, simp free at e))
  ]

  lookup_opened :
      (later : ℕ)
      → any (has_id digest) accounts.sessions ≡ false
      → is_empty (trim cookie) ≡ false
      → lookup_session crypto later cookie with_opened ≡ (
          if ltb (now + session_ttl) later
          then (delete_session crypto cookie with_opened, none)
          else (with_opened, session_user opened (get_user user_id accounts)))
  unfolding lookup_session resolve get_user
  lookup_opened later free given = simp given (
      ap (λ o. resolve crypto later cookie o with_opened)
        (find_opened digest accounts.sessions opened free refl))

  -- For thirty days from its opening, to the second, a session is resolved to its user and its CSRF
  -- token by its cookie, and resolving it changes nothing.
  pub create_session-lookup :
      (later : ℕ) (after : Accounts) (u : UserRow)
      → create_session crypto user_id cookie csrf now accounts ≡ ok after
      → is_empty (trim cookie) ≡ false
      → get_user user_id accounts ≡ some u
      → later ≤ now + session_ttl
      → lookup_session crypto later cookie after ≡ (after, some (u, csrf))
  create_session-lookup later after u e given is_u in_time =
      let (free, made) = create_session-opened after e in
      let lives : ltb (now + session_ttl) later ≡ false = ground (arith, in_time) in
      subst (λ a. lookup_session crypto later cookie a ≡ (a, some (u, csrf))) made
        (lookup_opened later free given
          ∙ simp lives (ap (λ o. (with_opened, session_user opened o)) is_u))

  lookup_closed :
      (time : ℕ) (a : Accounts)
      → (lookup_session crypto time cookie (delete_session crypto cookie a)).1 ≡ none
  unfolding lookup_session resolve delete_session
  lookup_closed time a = elim (Bool-cases (is_empty (trim cookie))) [
    | inl blank ↦ simp blank refl
    | inr given ↦ simp (given, find_closed digest a.sessions) refl
  ]

  -- Behind that, the first use of the cookie resolves to nobody and deletes the session, so that no
  -- later use of the cookie resolves to anybody, whatever time the clock shows.
  pub create_session-expired :
      (later again : ℕ) (after : Accounts)
      → create_session crypto user_id cookie csrf now accounts ≡ ok after
      → is_empty (trim cookie) ≡ false
      → now + session_ttl < later
      → let (swept, found) = lookup_session crypto later cookie after in
        (found ≡ none) × ((lookup_session crypto again cookie swept).1 ≡ none)
  create_session-expired later again after e given over =
      let (free, made) = create_session-opened after e in
      let looked =
        lookup_opened later free given ∙ simp (lt→ltb (now + session_ttl) later over) refl in
      subst
        (λ a.
          ((lookup_session crypto later cookie a).1 ≡ none)
          × ((lookup_session crypto again cookie (lookup_session crypto later cookie a).0).1
              ≡ none))
        made
        (
          ap (λ r. r.1) looked,
          ap (λ r. (lookup_session crypto again cookie r.0).1) looked
              ∙ lookup_closed again with_opened,
        )
