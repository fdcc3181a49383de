-- ===== src/Terminals/Once.antt =====
-- A grant is redeemed at most once.
use nudo.Prelude.{
  ℕ, ◌≡◌, ◌⊎◌, refl, sym, Bool, false, not, ◌&&◌, List, [], ◌∷◌, ◌++◌, map, find, any, Option, none,
  some, Text, text_eq, ◌==◌, is_empty, All, All-append, Result, ok, err, arith, Bool-cases, inl,
  inr, subst,
}
use nudo.Text.Trim.{trim}
use nudo.Terminals.{
  TerminalRow, TerminalGrant, TerminalError, has_id, consumed, redeems, spent, grant_of, granted,
  create_terminal_session, consume_terminal_session, sweep_terminal_sessions,
}
use nudo.Terminals.Keyed.{
  IsKeyed, IsSpent, IsKeyed-spent, IsKeyed-append, IsKeyed-filter, IsSpent-filter, IsSpent-spent,
  IsSpent-redeemed, find_spent,
}

-- A call on the grants; one that fails leaves them.
pub data TerminalCall : Type 0 where
  creating : Bool → Text → Text → ℕ → Text → Text → ℕ → ℕ → TerminalCall
  consuming : Text → Text → ℕ → TerminalCall
  sweeping : ℕ → TerminalCall

abbrev table_after : List TerminalRow → Result TerminalError (List TerminalRow) → List TerminalRow
table_after table (err e) = table
table_after table (ok after) = after

unfoldable pub terminal_call : (Text → Text) → TerminalCall → List TerminalRow → List TerminalRow
terminal_call sha (creating has_target id token now target_id command cols rows) table =
    table_after table
      (create_terminal_session sha has_target id token now target_id command cols rows table)
terminal_call sha (consuming session_id token now) table =
    (consume_terminal_session sha session_id token now table).0
terminal_call sha (sweeping now) table = sweep_terminal_sessions now table

unfoldable pub terminal_calls :
    (Text → Text) → List TerminalCall → List TerminalRow → List TerminalRow
unfolding terminal_call
terminal_calls sha [] table = table
terminal_calls sha (c ∷ cs) table = terminal_calls sha cs (terminal_call sha c table)

-- A call that hands out another id.
abbrev pub IsOther : Text → TerminalCall → Type 0
IsOther id (creating has_target i token now target_id command cols rows) = (i == id) ≡ false
IsOther id (consuming session_id token now) = Unit
IsOther id (sweeping now) = Unit

created-table :
    (sha : Text → Text) (has_target : Bool) (id token : Text) (now : ℕ) (target_id command : Text)
    → (cols rows : ℕ) (table : List TerminalRow)
    → let after =
        table_after table
          (create_terminal_session sha has_target id token now target_id command cols rows table) in
      (after ≡ table)
      ⊎ ((any (has_id id) table ≡ false)
          × (after ≡ table ++ (granted id (sha token) now target_id command cols rows ∷ [])))
unfolding create_terminal_session
created-table sha has_target id token now target_id command cols rows table =
    elim (Bool-cases has_target) [
      | inr missing ↦ simp missing (inl refl)
      | inl found ↦ elim (Bool-cases (any (has_id id) table)) [
        | inl taken ↦ simp (found, taken) (inl refl)
        | inr free ↦ elim (Bool-cases (any (λ r. r.token_hash == sha token) table)) [
          | inl clash ↦ simp (found, free, clash) (inl refl)
          | inr fresh ↦ simp (found, free, fresh) (inr (refl, refl))
        ]
      ]
    ]

consumed-table :
    (sha : Text → Text) (session_id token : Text) (now : ℕ) (table : List TerminalRow)
    → ((consume_terminal_session sha session_id token now table).0 ≡ table)
      ⊎ ((consume_terminal_session sha session_id token now table).0
          ≡ map (spent (trim session_id) (sha (trim token)) now) table)
unfolding consume_terminal_session
consumed-table sha session_id token now table = elim (Bool-cases (is_empty (trim token))) [
  | inl blank ↦ simp blank (inl refl)
  | inr given ↦ simp given (inr refl)
]

redeemed_found :
    (id hash : Text) (now : ℕ) (table : List TerminalRow) (o : Option TerminalRow)
    → IsKeyed table
    → find (redeems id hash now) table ≡ o
    → (g : TerminalGrant) → grant_of o ≡ some g
    → IsSpent id (map (spent id hash now) table)
redeemed_found id hash now table none k found g e = absurd (ground (arith, e))
redeemed_found id hash now table (some r) k found g e = IsSpent-redeemed id hash now table r k found

module _ (sha : Text → Text) where
  terminal_call-IsKeyed :
      (c : TerminalCall) (table : List TerminalRow)
      → IsKeyed table
      → IsKeyed (terminal_call sha c table)
  unfolding terminal_call sweep_terminal_sessions
  terminal_call-IsKeyed (creating has_target id token now target_id command cols rows) table h =
      elim (created-table sha has_target id token now target_id command cols rows table) [
        | inl same ↦ subst IsKeyed (sym same) h
        | inr (free, more) ↦ subst IsKeyed (sym more) (IsKeyed-append table _ h free)
      ]
  terminal_call-IsKeyed (consuming session_id token now) table h =
      elim (consumed-table sha session_id token now table) [
        | inl same ↦ subst IsKeyed (sym same) h
        | inr marked ↦ subst IsKeyed (sym marked) (IsKeyed-spent _ _ now table h)
      ]
  terminal_call-IsKeyed (sweeping now) table h = IsKeyed-filter _ table h

  terminal_calls-IsKeyed :
      (cs : List TerminalCall) (table : List TerminalRow)
      → IsKeyed table
      → IsKeyed (terminal_calls sha cs table)
  unfolding terminal_calls
  terminal_calls-IsKeyed [] table h = h
  terminal_calls-IsKeyed (c ∷ cs) table h =
      terminal_calls-IsKeyed cs (terminal_call sha c table) (terminal_call-IsKeyed c table h)

  terminal_call-IsSpent :
      (id : Text) (c : TerminalCall) (table : List TerminalRow)
      → IsOther id c
      → IsSpent id table
      → IsSpent id (terminal_call sha c table)
  unfolding terminal_call sweep_terminal_sessions
  terminal_call-IsSpent id (creating has_target i token now target_id command cols rows) table other
        h =
      elim (created-table sha has_target i token now target_id command cols rows table) [
        | inl same ↦ subst (IsSpent id) (sym same) h
        | inr (free, more) ↦ subst (IsSpent id) (sym more) (
            All-append (λ r. (has_id id r && not (consumed r)) ≡ false) table _ h
              (ground (arith, other), tt))
      ]
  terminal_call-IsSpent id (consuming session_id token now) table other h =
      elim (consumed-table sha session_id token now table) [
        | inl same ↦ subst (IsSpent id) (sym same) h
        | inr marked ↦ subst (IsSpent id) (sym marked) (IsSpent-spent id _ _ now table h)
      ]
  terminal_call-IsSpent id (sweeping now) table other h = IsSpent-filter _ id table h

  terminal_calls-IsSpent :
      (id : Text) (cs : List TerminalCall) (table : List TerminalRow)
      → All (IsOther id) cs
      → IsSpent id table
      → IsSpent id (terminal_calls sha cs table)
  unfolding terminal_calls
  terminal_calls-IsSpent id [] table others h = h
  terminal_calls-IsSpent id (c ∷ cs) table (other, others) h =
      terminal_calls-IsSpent id cs (terminal_call sha c table) others
        (terminal_call-IsSpent id c table other h)

  redeemed-IsSpent :
      (session_id token : Text) (now : ℕ) (table : List TerminalRow) (g : TerminalGrant)
      → IsKeyed table
      → (consume_terminal_session sha session_id token now table).1 ≡ some g
      → IsSpent (trim session_id) (consume_terminal_session sha session_id token now table).0
  unfolding consume_terminal_session
  redeemed-IsSpent session_id token now table g k e = elim (Bool-cases (is_empty (trim token))) [
    | inl blank ↦ absurd (ground (arith, simp blank at e))
    | inr given ↦
        simp given (
          redeemed_found (trim session_id) (sha (trim token)) now table _ k refl g
            (simp given at e))
  ]

  -- A grant is redeemed at most once: after a redemption, whoever else redeems the same session id,
  -- with whatever token and at whatever time, gets nothing, whatever is created, redeemed or swept
  -- in between. No later grant is created with the same id.
  pub consume-consume :
      (before between : List TerminalCall) (session_id token other : Text) (now later : ℕ)
      → (g : TerminalGrant)
      → (consume_terminal_session sha session_id token now (terminal_calls sha before [])).1
        ≡ some g
      → All (IsOther (trim session_id)) between
      → (consume_terminal_session sha session_id other later (
          terminal_calls sha between
            (consume_terminal_session sha session_id token now (terminal_calls sha before [])).0)).1
        ≡ none
  unfolding consume_terminal_session
  consume-consume before between session_id token other now later g e others =
      let table = terminal_calls sha before [] in
      let done =
        terminal_calls-IsSpent (trim session_id) between
          (consume_terminal_session sha session_id token now table).0 others
          (redeemed-IsSpent session_id token now table g (terminal_calls-IsKeyed before [] tt) e) in
      elim (Bool-cases (is_empty (trim other))) [
        | inl blank ↦ ground (arith, blank)
        | inr given ↦
            ground (arith, given, find_spent (trim session_id) (sha (trim other)) later _ done)
      ]
