-- ===== src/Guardrail/Retries.antt =====
-- What a retried call finds under its idempotency key.
use nudo.Prelude.{
  ◌≡◌, ◌≢◌, refl, ap, ◌∙◌, Bool, true, false, ◌&&◌, List, [], ◌∷◌, ◌++◌, none, some, Text, text_eq,
  ◌==◌, ==_refl, ==_of_ne, if◌then◌else◌, is_empty, any, find, arith, Bool-cases, inl, inr, subst,
}
use nudo.Text.Trim.{trim}
use nudo.Guardrail.{KeyRow, Ledger, check_idempotency, record_idempotency, matches_key, result_of}

-- Calls that were recorded, in their order.
unfoldable pub records : List KeyRow → Ledger → Ledger
records [] ledger = ledger
records (r ∷ rs) ledger = records rs (record_idempotency r.key r.action r.result_id ledger)

abbrev pub has_key : Text → List KeyRow → Bool
has_key key rows = any (λ row. row.key == key) rows

-- The first row of a key decides, and no later row changes it.
find-append :
    (key action : Text) (r : KeyRow) (rows : List KeyRow)
    → (r.key == key) ≡ false
    → find (matches_key key action) (rows ++ (r ∷ [])) ≡ find (matches_key key action) rows
find-append key action r [] h = simp h refl
find-append key action r (row ∷ rows) h =
    elim (Bool-cases (row.key == key && row.action == action)) [
      | inl e ↦ simp e refl
      | inr e ↦ simp e (find-append key action r rows h)
    ]

pub find_absent :
    (key action : Text) (rows : List KeyRow)
    → has_key key rows ≡ false
    → find (matches_key key action) rows ≡ none
find_absent key action [] h = refl
find_absent key action (row ∷ rows) h = elim (Bool-cases (row.key == key)) [
  | inl e ↦ absurd (ground (arith, e))
  | inr e ↦ simp e (find_absent key action rows (simp e at h))
]

has_key-append :
    (key : Text) (r : KeyRow) (rows : List KeyRow)
    → has_key key rows ≡ true
    → has_key key (rows ++ (r ∷ [])) ≡ true
has_key-append key r [] h = absurd (ground arith)
has_key-append key r (row ∷ rows) h = elim (Bool-cases (row.key == key)) [
  | inl e ↦ simp e refl
  | inr e ↦ simp e (has_key-append key r rows (simp e at h))
]

-- Recording any call leaves what is found under a key that has a row.
pub record_idempotency-keeps :
    (key action : Text) (r : KeyRow) (ledger : Ledger)
    → has_key key ledger.idempotency_keys ≡ true
    → let after = record_idempotency r.key r.action r.result_id ledger in
      (has_key key after.idempotency_keys ≡ true)
      × (find (matches_key key action) after.idempotency_keys
          ≡ find (matches_key key action) ledger.idempotency_keys)
unfolding record_idempotency
record_idempotency-keeps key action r ledger h = elim (Bool-cases (is_empty (trim r.key))) [
  | inl blank ↦ simp blank (h, refl)
  | inr named ↦ elim (Bool-cases (has_key r.key ledger.idempotency_keys)) [
    | inl taken ↦ simp (named, taken) (h, refl)
    | inr free ↦
        simp (named, free)
          (
            has_key-append key _ ledger.idempotency_keys h,
            find-append key action _ ledger.idempotency_keys (
                ==_of_ne r.key key λ e.
                  ground (arith, subst (λ k. has_key k ledger.idempotency_keys ≡ false) e free, h)),
          )
  ]
]

records-keeps :
    (key action : Text) (rs : List KeyRow) (ledger : Ledger)
    → has_key key ledger.idempotency_keys ≡ true
    → find (matches_key key action) (records rs ledger).idempotency_keys
      ≡ find (matches_key key action) ledger.idempotency_keys
unfolding records
records-keeps key action [] ledger h = refl
records-keeps key action (r ∷ rs) ledger h =
    let (kept, same) = record_idempotency-keeps key action r ledger h in
    records-keeps key action rs (record_idempotency r.key r.action r.result_id ledger) kept ∙ same

pub find_recorded :
    (r : KeyRow) (action : Text) (rows : List KeyRow)
    → has_key r.key rows ≡ false
    → (has_key r.key (rows ++ (r ∷ [])) ≡ true)
      × (find (matches_key r.key action) (rows ++ (r ∷ []))
          ≡ (if r.action == action then some r else none))
find_recorded r action [] h = simp (==_refl r.key) (refl, refl)
find_recorded r action (row ∷ rows) h = elim (Bool-cases (row.key == r.key)) [
  | inl e ↦ absurd (ground (arith, e))
  | inr e ↦ simp e (find_recorded r action rows (simp e at h))
]

pub record_idempotency_free :
    (r : KeyRow) (ledger : Ledger)
    → is_empty (trim r.key) ≡ false
    → has_key r.key ledger.idempotency_keys ≡ false
    → (record_idempotency r.key r.action r.result_id ledger).idempotency_keys
      ≡ ledger.idempotency_keys ++ (r ∷ [])
unfolding record_idempotency
record_idempotency_free r ledger named free = simp (named, free) refl

pub check_idempotency_named :
    (key action : Text) (ledger : Ledger)
    → is_empty (trim key) ≡ false
    → check_idempotency key action ledger
      ≡ result_of (find (matches_key key action) ledger.idempotency_keys)
unfolding check_idempotency
check_idempotency_named key action ledger named = simp named refl

-- What a key that was free until one call was recorded under it gives for an action, whatever is
-- recorded behind that call.
record_idempotency-found :
    (r : KeyRow) (action : Text) (rs : List KeyRow) (ledger : Ledger)
    → is_empty (trim r.key) ≡ false
    → has_key r.key ledger.idempotency_keys ≡ false
    → check_idempotency r.key action
        (records rs (record_idempotency r.key r.action r.result_id ledger))
      ≡ result_of (if r.action == action then some r else none)
record_idempotency-found r action rs ledger named free =
    let after = record_idempotency r.key r.action r.result_id ledger in
    let (taken, found) = find_recorded r action ledger.idempotency_keys free in
    let rows = record_idempotency_free r ledger named free in
    check_idempotency_named r.key action (records rs after) named
    ∙ ap result_of (
        records-keeps r.key action rs after (ap (has_key r.key) rows ∙ taken)
        ∙ ap (find (matches_key r.key action)) rows
        ∙ found)

-- The first call that is recorded under a key decides: whatever is recorded later, a retry of that
-- call finds its result.
pub check_idempotency-records :
    (r : KeyRow) (rs : List KeyRow) (ledger : Ledger)
    → is_empty (trim r.key) ≡ false
    → any (λ row. row.key == r.key) ledger.idempotency_keys ≡ false
    → check_idempotency r.key r.action
        (records rs (record_idempotency r.key r.action r.result_id ledger))
      ≡ some r.result_id
check_idempotency-records r rs ledger named free =
    record_idempotency-found r r.action rs ledger named free ∙ simp (==_refl r.action) refl

-- A key serves one action: once a call was recorded under it, a retry of a call of another action
-- finds nothing, even when that call was recorded under the same key as well.
pub check_idempotency-other_action :
    (r : KeyRow) (action result_id : Text) (ledger : Ledger)
    → is_empty (trim r.key) ≡ false
    → any (λ row. row.key == r.key) ledger.idempotency_keys ≡ false
    → r.action ≢ action
    → check_idempotency r.key action (
        record_idempotency r.key action result_id
          (record_idempotency r.key r.action r.result_id ledger))
      ≡ none
unfolding records
check_idempotency-other_action r action result_id ledger named free other =
    record_idempotency-found r action
      (record { key = r.key; action = action; result_id = result_id } ∷ []) ledger named free
    ∙ simp (==_of_ne r.action action other) refl

-- What a retry finds depends on the keys alone.
pub check_idempotency-keys :
    (key action : Text) (ledger other : Ledger)
    → ledger.idempotency_keys ≡ other.idempotency_keys
    → check_idempotency key action ledger ≡ check_idempotency key action other
unfolding check_idempotency
check_idempotency-keys key action ledger other e =
    ap
      (λ rows. if is_empty (trim key) then none else result_of (find (matches_key key action) rows))
      e
