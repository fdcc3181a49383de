-- ===== src/Guardrail/Laws.antt =====
-- When a mutation passes the guard, and what the audit log keeps of it.
use nudo.Prelude.{
  ◌≡◌, refl, ◌↔◌, Bool, true, false, not, ◌&&◌, [], ◌∷◌, ◌++◌, Option, none, some, Text, is_ok,
  or_else, arith, Bool-cases, inl, inr, ok, err, Result, sym, if◌then◌else◌, append-nil,
}
use nudo.Guardrail.{
  Mutation, Guarded, NewAuditEntry, Ledger, Authorized, Status, authorize_guarded, decide, guards,
  audit, no_mutation, actor_or_system,
}

-- The host is latency-critical and the call does not say that it may be touched.
abbrev pub IsStopped : Option Mutation → Option Guarded → Type 0
IsStopped mutation none = ⊥
IsStopped mutation (some host) =
    (host.latency_critical ≡ true) × ((or_else mutation no_mutation).allow_latency_critical ≡ false)

-- The entry of a call: who, on what, and whether it was a dry run.
abbrev pub IsEntry : Option Mutation → Text → NewAuditEntry → Type 0
IsEntry mutation subject_id entry =
    (entry.actor ≡ actor_or_system (or_else mutation no_mutation))
    × (entry.subject_id ≡ subject_id)
    × (entry.dry_run ≡ (or_else mutation no_mutation).dry_run)

-- A call that passes goes on as the actor of its entry, and is a dry run if the entry says so.
abbrev pub IsActing : NewAuditEntry → Result Status Authorized → Type 0
IsActing entry (ok a) = (a.actor ≡ entry.actor) × (a.dry_run ≡ entry.dry_run)
IsActing entry (err refusal) = Unit

audit-appends :
    (writes : Bool) (entry : NewAuditEntry) (ledger : Ledger)
    → ((audit writes entry ledger).audit_entries
        ≡ ledger.audit_entries ++ (if writes then entry ∷ [] else []))
      × ((audit writes entry ledger).idempotency_keys ≡ ledger.idempotency_keys)
unfolding audit
audit-appends true entry ledger = (refl, refl)
audit-appends false entry ledger = (sym (append-nil ledger.audit_entries), refl)

module _ (mutation : Option Mutation) (action subject_id summary : Text) where
  -- A mutation is refused exactly if its host is latency-critical and the call did not allow for that.
  -- A call without a mutation did not.
  pub authorize_guarded-is_ok :
      (writes : Bool) (subject : Option Guarded) (ledger : Ledger)
      → (is_ok (authorize_guarded writes mutation action subject_id subject summary ledger).1
          ≡ false)
        ↔ IsStopped mutation subject
  unfolding authorize_guarded decide guards
  authorize_guarded-is_ok writes none ledger = ground arith
  authorize_guarded-is_ok writes (some host) ledger = ground arith

  -- Whether it passes or is refused, and in a dry run too, a mutation adds one entry to the audit
  -- log if the log can be written, and none if it cannot. The entry names its actor, or the system when
  -- it named none, and its subject. A call that passes acts as the actor of the entry, whether or not
  -- the entry could be written. Nothing that was in the log is lost, and no idempotency key changes.
  pub authorize_guarded-IsEntry :
      (writes : Bool) (subject : Option Guarded) (ledger : Ledger)
      → let (after, verdict) =
          authorize_guarded writes mutation action subject_id subject summary ledger in
        (entry : NewAuditEntry) × (after.audit_entries
          ≡ ledger.audit_entries ++ (if writes then entry ∷ [] else []))
        × IsEntry mutation subject_id entry
        × IsActing entry verdict
        × (after.idempotency_keys ≡ ledger.idempotency_keys)
  unfolding authorize_guarded decide guards audit
  authorize_guarded-IsEntry writes none ledger =
      let (log, keys) = audit-appends writes _ ledger in
      (_, log, (refl, refl, refl), (refl, refl), keys)
  authorize_guarded-IsEntry writes (some host) ledger =
      elim (Bool-cases
        (host.latency_critical && not (or_else mutation no_mutation).allow_latency_critical)) [
          | inl e ↦
              let (log, keys) = audit-appends writes _ ledger in
              simp e (_, log, (refl, refl, refl), tt, keys)
          | inr e ↦
              let (log, keys) = audit-appends writes _ ledger in
              simp e (_, log, (refl, refl, refl), (refl, refl), keys)
        ]

abbrev pub authorized_by : Mutation → Authorized
authorized_by m = record {
  actor = actor_or_system m;
  dry_run = m.dry_run;
  idempotency_key = m.idempotency_key;
}

-- A mutation that passes acts as its actor, and the guard let it pass.
pub authorize_guarded-ok :
    (writes : Bool) (mutation : Option Mutation) (action subject_id summary : Text) (host : Guarded)
    → (ledger : Ledger) (a : Authorized)
    → (authorize_guarded writes mutation action subject_id (some host) summary ledger).1 ≡ ok a
    → (authorized_by (or_else mutation no_mutation) ≡ a)
      × ((host.latency_critical && not (or_else mutation no_mutation).allow_latency_critical)
          ≡ false)
unfolding authorize_guarded decide guards
authorize_guarded-ok writes mutation action subject_id summary host ledger a e =
    elim (Bool-cases
      (host.latency_critical && not (or_else mutation no_mutation).allow_latency_critical)) [
        | inl stops ↦ absurd (ground (arith, simp stops at e))
        | inr passes ↦ (ground (arith, simp passes at e), passes)
      ]

pub authorize_guarded_open :
    (writes : Bool) (mutation : Option Mutation) (action subject_id summary : Text) (host : Guarded)
    → (ledger : Ledger)
    → (host.latency_critical && not (or_else mutation no_mutation).allow_latency_critical) ≡ false
    → (authorize_guarded writes mutation action subject_id (some host) summary ledger).1
      ≡ ok (authorized_by (or_else mutation no_mutation))
unfolding authorize_guarded decide guards
authorize_guarded_open writes mutation action subject_id summary host ledger passes =
    simp passes refl

pub authorize_guarded-keys :
    (writes : Bool) (mutation : Option Mutation) (action subject_id summary : Text) (host : Guarded)
    → (ledger : Ledger)
    → (authorize_guarded writes mutation action subject_id
        (some host)
        summary
        ledger).0.idempotency_keys
      ≡ ledger.idempotency_keys
unfolding authorize_guarded decide guards audit
authorize_guarded-keys writes mutation action subject_id summary host ledger = ground arith
