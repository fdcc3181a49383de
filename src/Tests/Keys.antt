-- ===== src/Tests/Keys.antt =====
-- Hosts whose keys are two texts, and calls on them.
use nudo.Prelude.{
  ◌≡◌, refl, true, false, [], ◌∷◌, ◌++◌, ◌⊎◌, if◌then◌else◌, Option, none, some, Text, codes,
  text_eq, ◌==◌, ok, text_beq, List, inl, inr, arith,
}
use nudo.Text.Trim.{trim, trim_start_matches, trim_end_matches, is_whitespace}
use nudo.Guardrail.{Mutation, Ledger}
use nudo.HostKeys.{Format, matched, host_key_is_pinned, parse_host_key, verdict_for, judged, judge}
use nudo.HostKeys.Store.{
  target, build_host, HostRow, Hosts, update_host, same_host, pin_host_key, without_pending,
}
use nudo.HostKeys.Connect.{
  Attempt, SshHostRef, ssh_connect, connect, connect_prepared, verdict_on, shake, accepts,
  authenticate, write_back, record_host_key, host_ref,
}
use nudo.HostKeys.Api.{KeyRequest, accept_host_key}
use nudo.HostKeys.Answered.{answered}
use nudo.HostKeys.Ops.{Op, connecting, perform}
use nudo.HostKeys.Pins.{perform-MayPin}
use nudo.HostKeys.Trust.{visits-IsTrusted, visits}
use nudo.HostKeys.Review.{accept_host_key-matched}
use nudo.HostKeys.Race.{connect-repins}

-- A key is its own material and its own text, and a text that starts with `k` is a key.
abbrev read_key : Text → Option Text
read_key [] = none
read_key (c ∷ s) = some (c ∷ s)

abbrev plain : Format Text Text
plain = record {
  from_openssh = read_key;
  key_data = λ k. k;
  same_data = λ a b. a == b;
  fingerprint = λ k. codes "fp-" ++ k;
  to_openssh = λ d. some d;
}

abbrev key_a : Text
key_a = codes "a"

abbrev key_b : Text
key_b = codes "b"

abbrev row_of : Text → HostRow
row_of key = record {
  name = codes "box";
  latency_critical = false;
  host_key = key;
  host_key_fingerprint = codes "fp-" ++ key;
  host_key_pinned_at = some 1;
  pending_host_key = [];
  pending_host_key_fingerprint = [];
  pending_host_key_seen_at = none;
}

abbrev box : Text
box = codes "tgt_1"

-- One host in each table.
abbrev with_key : Text → Hosts
with_key key kind id = if id == box then some (row_of key) else none

abbrev mutation : Mutation
mutation = record {
  actor = none;
  dry_run = false;
  allow_latency_critical = false;
  idempotency_key = [];
}

abbrev empty_ledger : Ledger
empty_ledger = record { audit_entries = []; idempotency_keys = [] }

abbrev fresh_ref : SshHostRef
fresh_ref = record { kind = target; id = box; pinned_key = [] }

abbrev pinned_ref : SshHostRef
pinned_ref = record { kind = target; id = box; pinned_key = key_a }

connect-repins_example :
    let (one, offered, _) = connect plain fresh_ref (answered key_a 5) (with_key []) in
    let (two, offered_too, _) = connect plain fresh_ref (answered key_b 6) one in
    (offered ≡ true)
    × (offered_too ≡ true)
    × ((r : HostRow) × (one target box ≡ some r) × (r.host_key ≡ key_a))
    × ((r : HostRow) × (two target box ≡ some r) × (r.host_key ≡ key_b))
unfolding text_beq host_key_is_pinned trim trim_start_matches trim_end_matches
connect-repins_example =
    connect-repins plain fresh_ref key_a key_b key_a key_b 5 6 (with_key []) (row_of []) refl refl
      refl refl

-- A first connection pins the key that it has seen.
abbrev first_use : Op Text
first_use = connecting fresh_ref (answered key_a 5)

abbrev pinned_at_5 : HostRow
pinned_at_5 = record (row_of key_a) { host_key_pinned_at = some 5 }

perform-MayPin_example :
    (key_a ≡ [])
    ⊎ ((target ≡ target)
        × (box ≡ box)
        × (host_key_is_pinned [] ≡ false)
        × ((k : Text) × (some key_a ≡ some k) × (plain.to_openssh (plain.key_data k) ≡ some key_a)))
unfolding perform connect connect_prepared ssh_connect verdict_on verdict_for judged judge shake
    accepts authenticate write_back record_host_key pin_host_key update_host same_host
    without_pending parse_host_key host_key_is_pinned trim trim_start_matches trim_end_matches
    is_whitespace text_beq
perform-MayPin_example =
    perform-MayPin plain first_use (record { hosts = with_key []; ledger = empty_ledger }) target
      box (row_of []) pinned_at_5 refl refl

-- The host answers with another key, and another host is connected to for the first time.
abbrev runs : List (SshHostRef × Attempt Text)
runs =
    (pinned_ref, answered key_b 7)
    ∷ (record { kind = build_host; id = box; pinned_key = [] }, answered key_b 8)
    ∷ []

visits-IsTrusted_example :
    (after : HostRow) × (visits plain runs (with_key key_a) target box ≡ some after)
    × (after.host_key ≡ key_a)
    × (((connect plain
            (host_ref target box after)
            (answered key_a 9)
            (visits plain runs (with_key key_a))).1
          ≡ false)
        ⊎ ((k : Text) × (known : Text) × (some key_a ≡ some k)
            × (parse_host_key plain key_a ≡ some known)
            × (plain.same_data (plain.key_data known) (plain.key_data k) ≡ true)))
unfolding host_key_is_pinned trim trim_start_matches trim_end_matches is_whitespace text_beq
visits-IsTrusted_example =
    visits-IsTrusted plain target box runs (with_key key_a) (row_of key_a) (answered key_a 9) refl
      refl (inl refl, (inr (inl (λ e. ground (arith, e))), tt))

abbrev accepting_b : KeyRequest
accepting_b = record { id = box; fingerprint = codes " fp-b"; mutation = some mutation }

accept_host_key-matched_example :
    let (seen, offered, refused) =
      connect plain (host_ref target box (row_of key_a)) (answered key_b 7) (with_key key_a) in
    let server =
      (accept_host_key
        (record { audit_writes = true; now = 8 })
        target
        accepting_b
        (record { hosts = seen; ledger = empty_ledger })).0 in
    (offered ≡ false)
    × ((before : HostRow) × (seen target box ≡ some before) × (before.host_key ≡ key_a))
    × ((after : HostRow) × (server.hosts target box ≡ some after)
        × (after.host_key ≡ key_b)
        × (ssh_connect plain (host_ref target box after).pinned_key (answered key_b 9)
            ≡ (true, ok (matched (codes "fp-b")))))
unfolding parse_host_key trim trim_start_matches trim_end_matches is_whitespace text_beq
accept_host_key-matched_example =
    accept_host_key-matched plain (record { audit_writes = true; now = 8 }) key_b key_b target
      accepting_b mutation (with_key key_a) empty_ledger (row_of key_a) key_a key_b 7 9 refl refl
      refl refl refl refl refl refl refl refl refl
