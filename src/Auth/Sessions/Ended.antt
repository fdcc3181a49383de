-- ===== src/Auth/Sessions/Ended.antt =====
-- Sessions that a change of the password ends.
use nudo.Prelude.{
  ℕ, ◌≡◌, ◌≢◌, ◌⊎◌, Option-cases, refl, sym, ◌∙◌, inl, inr, true, false, not, filter, find, Option,
  none, some, Text, text_eq, ◌==◌, eq_of_==, ne_of_==, Elem, Elem-filter, find-eq-some, is_empty,
  ok, arith, Bool-cases, subst,
}
use nudo.Text.Trim.{trim}
use nudo.Auth.Sessions.{
  UserRow, SessionRow, Accounts, Crypto, user_of, get_user, long_enough, replaced, changed_by,
  change_password, session_user, resolve, lookup_session, is_over,
}

-- What a lookup that succeeds has found.
session_user-some :
    (s : SessionRow) (o : Option UserRow) (u : UserRow) (csrf : Text)
    → session_user s o ≡ some (u, csrf)
    → (o ≡ some u) × (s.csrf_token ≡ csrf)
session_user-some s none u csrf e = absurd (ground (arith, e))
session_user-some s (some v) u csrf e = (ground (arith, e), ground (arith, e))

resolve-some :
    (crypto : Crypto) (now : ℕ) (cookie : Text) (o : Option SessionRow) (accounts : Accounts)
    → (u : UserRow) (csrf : Text) → (resolve crypto now cookie o accounts).1 ≡ some (u, csrf)
    → (s : SessionRow) × (o ≡ some s)
      × (is_over s.expires_at now ≡ false)
      × (get_user s.user_id accounts ≡ some u)
      × (s.csrf_token ≡ csrf)
unfolding resolve
resolve-some crypto now cookie none accounts u csrf e = absurd (ground (arith, e))
resolve-some crypto now cookie (some s) accounts u csrf e =
    elim (Bool-cases (is_over s.expires_at now)) [
      | inl over ↦ absurd (ground (arith, simp over at e))
      | inr lives ↦
          let (found, same) =
            session_user-some s (get_user s.user_id accounts) u csrf (simp lives at e) in
          (s, refl, lives, found, same)
    ]

pub lookup_session-some :
    (crypto : Crypto) (now : ℕ) (cookie : Text) (accounts : Accounts) (u : UserRow) (csrf : Text)
    → (lookup_session crypto now cookie accounts).1 ≡ some (u, csrf)
    → (s : SessionRow) × Elem s accounts.sessions
      × (s.id ≡ crypto.sha256_hex cookie)
      × (is_over s.expires_at now ≡ false)
      × (get_user s.user_id accounts ≡ some u)
      × (s.csrf_token ≡ csrf)
unfolding lookup_session
lookup_session-some crypto now cookie accounts u csrf e =
    elim (Bool-cases (is_empty (trim cookie))) [
      | inl blank ↦ absurd (ground (arith, simp blank at e))
      | inr given ↦
          let (s, found, lives, is_u, same) =
            resolve-some crypto now cookie
              (find (λ s. s.id == crypto.sha256_hex cookie) accounts.sessions) accounts u csrf
              (simp given at e) in
          let (listed, by_id) =
            find-eq-some (λ s. s.id == crypto.sha256_hex cookie) accounts.sessions found in
          (s, listed, eq_of_== s.id (crypto.sha256_hex cookie) by_id, lives, is_u, same)
    ]

get_user-id :
    (id : Text) (accounts : Accounts) (u : UserRow) → get_user id accounts ≡ some u → u.id ≡ id
unfolding get_user
get_user-id id accounts u e = eq_of_== u.id id (find-eq-some (user_of id) accounts.users e).1

replaced-sessions :
    (id : Text) (o : Option Text) (accounts after : Accounts)
    → replaced id o accounts ≡ ok after
    → after.sessions ≡ filter (λ s. not (s.user_id == id)) accounts.sessions
replaced-sessions id none accounts after e = absurd (ground (arith, e))
replaced-sessions id (some hash) accounts after e = ground (arith, e)

changed_by-sessions :
    (crypto : Crypto) (id current password : Text) (o : Option UserRow) (accounts after : Accounts)
    → changed_by crypto id current password o accounts ≡ ok after
    → (after.sessions ≡ filter (λ s. not (s.user_id == id)) accounts.sessions)
      × ((u : UserRow) × (o ≡ some u) × (crypto.verify_password current u.password_hash ≡ true))
changed_by-sessions crypto id current password none accounts after e = absurd (ground (arith, e))
changed_by-sessions crypto id current password (some u) accounts after e =
    elim (Bool-cases (crypto.verify_password current u.password_hash)) [
      | inr wrong ↦ absurd (ground (arith, simp wrong at e))
      | inl right ↦ elim (Bool-cases (long_enough password)) [
        | inr short ↦ absurd (ground (arith, simp (right, short) at e))
        | inl long ↦ (
          replaced-sessions id (crypto.hash_password password) accounts after
              (simp (right, long) at e),
          (u, refl, right),
        )
      ]
    ]

-- A lookup that finds someone in the state after the change finds another user.
lookup_changed :
    (crypto : Crypto) (id : Text) (accounts after : Accounts) (now : ℕ) (cookie : Text)
    → (u : UserRow) (csrf : Text)
    → after.sessions ≡ filter (λ s. not (s.user_id == id)) accounts.sessions
    → (lookup_session crypto now cookie after).1 ≡ some (u, csrf)
    → u.id ≢ id
lookup_changed crypto id accounts after now cookie u csrf left found =
    let (s, listed, _, _, is_u, _) = lookup_session-some crypto now cookie after u csrf found in
    let kept =
      (Elem-filter (λ s. not (s.user_id == id)) s accounts.sessions).0
        (subst (Elem s) left listed) in
    λ same. absurd (
      ne_of_== s.user_id id (ground (arith, kept.1))
        (sym (get_user-id s.user_id after u is_u) ∙ same))

-- A change of the password that goes through was given the current password of a user that is there,
-- and it ends every session of that user: in the state that it leaves, before anyone logs in again, no
-- cookie, at any time, is resolved to that user.
pub change_password-ends :
    (crypto : Crypto) (id current password : Text) (accounts after : Accounts)
    → (now : ℕ) (cookie : Text) → change_password crypto id current password accounts ≡ ok after
    → ((owner : UserRow) × (get_user id accounts ≡ some owner)
        × (crypto.verify_password current owner.password_hash ≡ true))
      × (((lookup_session crypto now cookie after).1 ≡ none)
          ⊎ ((u : UserRow) × (csrf : Text) × ((lookup_session crypto now cookie after).1
                ≡ some (u, csrf))
              × (u.id ≢ id)))
unfolding change_password
change_password-ends crypto id current password accounts after now cookie e =
    let (left, owner) =
      changed_by-sessions crypto id current password (get_user id accounts) accounts after e in
    (
      owner,
      elim (Option-cases (lookup_session crypto now cookie after).1) [
        | inl nobody ↦ inl nobody
        | inr ((u, csrf), found) ↦
            inr
              (u, csrf, found, lookup_changed crypto id accounts after now cookie u csrf left found)
      ],
    )
