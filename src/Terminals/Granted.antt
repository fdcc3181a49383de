-- ===== src/Terminals/Granted.antt =====
-- A grant that was created is redeemed by its id and token.
use nudo.Prelude.{
  ℕ, ◌+◌, ◌≤◌, ◌<◌, ◌≡◌, refl, ap, ◌∙◌, Bool, true, false, List, [], ◌∷◌, ◌++◌, find, any, some,
  Text, text_eq, ◌==◌, lt→ltb, ==_refl, is_empty, ok, arith, Bool-cases, inl, inr,
}
use nudo.Text.Trim.{trim}
use nudo.Terminals.{
  TerminalRow, TerminalGrant, has_id, consumed, redeems, grant_of, granted, create_terminal_session,
  consume_terminal_session, token_ttl, clamped,
}
use nudo.Terminals.Keyed.{find_new}

created_ok :
    (sha : Text → Text) (has_target : Bool) (id token : Text) (now : ℕ) (target_id command : Text)
    → (cols rows : ℕ) (table after : List TerminalRow)
    → create_terminal_session sha has_target id token now target_id command cols rows table
      ≡ ok after
    → (any (has_id id) table ≡ false)
      × (after ≡ table ++ (granted id (sha token) now target_id command cols rows ∷ []))
unfolding create_terminal_session
created_ok sha has_target id token now target_id command cols rows table after e =
    elim (Bool-cases has_target) [
      | inr missing ↦ absurd (ground (arith, simp missing at e))
      | inl found ↦ elim (Bool-cases (any (has_id id) table)) [
        | inl taken ↦ absurd (ground (arith, simp (found, taken) at e))
        | inr free ↦ elim (Bool-cases (any (λ r. r.token_hash == sha token) table)) [
          | inl clash ↦ absurd (ground (arith, simp (found, free, clash) at e))
          | inr fresh ↦ (free, ground (arith, simp (found, free, fresh) at e))
        ]
      ]
    ]

clamped-bounds :
    (default n : ℕ)
    → 1 ≤ default
    → default ≤ 1000
    → (1 ≤ clamped default n) × (clamped default n ≤ 1000)
unfolding clamped
clamped-bounds default n low high = ground (arith, low, high)

redeems_new :
    (id hash : Text) (now later : ℕ) (target_id command : Text) (cols rows : ℕ)
    → later < now + token_ttl
    → redeems id hash later (granted id hash now target_id command cols rows) ≡ true
unfolding consumed
redeems_new id hash now later target_id command cols rows in_time =
    simp (==_refl id, ==_refl hash, lt→ltb later (now + token_ttl) in_time) refl

consume_given :
    (sha : Text → Text) (id token : Text) (now : ℕ) (table : List TerminalRow)
    → trim id ≡ id
    → trim token ≡ token
    → is_empty token ≡ false
    → (consume_terminal_session sha id token now table).1
      ≡ grant_of (find (redeems id (sha token) now) table)
unfolding consume_terminal_session
consume_given sha id token now table is_id is_token given = rw (is_id, is_token) (simp given refl)

-- A grant that was created is redeemed by its id and token before a minute has passed, for the target
-- and the command that it was created for, with a size between one and a thousand. Trimming leaves
-- the id and the token alone.
pub create-consume :
    (sha : Text → Text) (has_target : Bool) (id token : Text) (now later : ℕ)
    (target_id command : Text)
    → (cols rows : ℕ) (table after : List TerminalRow)
    → create_terminal_session sha has_target id token now target_id command cols rows table
      ≡ ok after
    → trim id ≡ id
    → trim token ≡ token
    → is_empty token ≡ false
    → later < now + token_ttl
    → (g : TerminalGrant) × ((consume_terminal_session sha id token later after).1 ≡ some g)
      × (g.target_id ≡ target_id)
      × (g.initial_command ≡ trim command)
      × (1 ≤ g.cols)
      × (g.cols ≤ 1000)
      × (1 ≤ g.rows)
      × (g.rows ≤ 1000)
create-consume sha has_target id token now later target_id command cols rows table after e is_id
      is_token given in_time =
    let (free, made) =
      created_ok sha has_target id token now target_id command cols rows table after e in
    let row = granted id (sha token) now target_id command cols rows in
    let (wide, narrow) = clamped-bounds 80 cols (omega arith) (omega arith) in
    let (tall, short) = clamped-bounds 24 rows (omega arith) (omega arith) in
    (
      _,
      consume_given sha id token later after is_id is_token given
          ∙ ap (λ t. grant_of (find (redeems id (sha token) later) t)) made
          ∙ ap grant_of (
              find_new id (sha token) later table row free
                (redeems_new id (sha token) now later target_id command cols rows in_time)),
      refl,
      refl,
      wide,
      narrow,
      tall,
      short,
    )
