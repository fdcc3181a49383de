-- ===== src/BootGuard/Journal.antt =====
-- The journal and its text form, of crates/bootguard/src/lib.rs.
pub mod RoundTrip
use nudo.Prelude.{
  ℕ, ◌≡◌, refl, Bool, true, false, List, [], ◌∷◌, ◌++◌, Option, none, some, Text, codes, text_eq,
  ◌==◌, text_beq, if◌then◌else◌, nat_eq,
}
use nudo.Text.Split.{split_once, lines, newline, carriage_return}
use nudo.Text.Decimal.{max_u64, to_string, parse}

pub data JournalState : Type 0 where
  staged swapped confirmed exec_failed rolled_back failed : JournalState

unfoldable pub as_str : JournalState → Text
as_str staged = codes "staged"
as_str swapped = codes "swapped"
as_str confirmed = codes "confirmed"
as_str exec_failed = codes "exec-failed"
as_str rolled_back = codes "rolled-back"
as_str failed = codes "failed"

unfoldable pub parse_state : Text → Option JournalState
unfolding text_beq
parse_state raw =
    if raw == codes "staged"
    then some staged
    else if raw == codes "swapped"
    then some swapped
    else if raw == codes "confirmed"
    then some confirmed
    else if raw == codes "exec-failed"
    then some exec_failed
    else if raw == codes "rolled-back"
    then some rolled_back
    else if raw == codes "failed"
    then some failed
    else none

pub record Journal : Type 0 where
  pub state : JournalState
  pub from_version : Text
  pub to_version : Text
  pub previous : Text
  pub target : Text
  pub updated_at : ℕ
  pub error : Text

-- The variables of the loop in `load`: `state`, and the journal that is filled in.
pub record Partial : Type 0 where
  pub seen : Option JournalState
  pub journal : Journal

abbrev blank : Journal
blank = record {
  state = failed;
  from_version = [];
  to_version = [];
  previous = [];
  target = [];
  updated_at = 0;
  error = [];
}

abbrev unwrap_or_zero : Option ℕ → ℕ
unwrap_or_zero none = 0
unwrap_or_zero (some n) = n

-- The `match key` of the loop.
apply_field : Text → Text → Partial → Partial
unfolding text_beq parse_state
apply_field key value p =
    if key == codes "state"
    then record p { seen = parse_state value }
    else if key == codes "from_version"
    then record p { journal = record p.journal { from_version = value } }
    else if key == codes "to_version"
    then record p { journal = record p.journal { to_version = value } }
    else if key == codes "previous"
    then record p { journal = record p.journal { previous = value } }
    else if key == codes "target"
    then record p { journal = record p.journal { target = value } }
    else if key == codes "updated_at"
    then record p {
      journal = record p.journal { updated_at = unwrap_or_zero (parse max_u64 value) };
    }
    else if key == codes "error"
    then record p { journal = record p.journal { error = value } }
    else p

apply_split : Option (Text × Text) → Partial → Partial
unfolding apply_field
apply_split none p = p
apply_split (some (key, value)) p = apply_field key value p

-- One round of the loop: a line with no `=` is passed over.
apply_line : Partial → Text → Partial
unfolding apply_split
apply_line p line = apply_split (split_once b'=' line) p

read_lines : Partial → List Text → Partial
unfolding apply_line
read_lines p [] = p
read_lines p (line ∷ rest) = read_lines (apply_line p line) rest

finish_load : Partial → Option Journal
finish_load p = elim p.seen [ none ↦ none | some state ↦ some (record p.journal { state = state }) ]

-- `Journal::load` on the text of the file.
pub parse_journal : Text → Option Journal
unfolding read_lines finish_load
parse_journal raw = finish_load (read_lines (record { seen = none; journal = blank }) (lines raw))

-- The error must stay on one line: `replace(['\n', '\r'], "; ")`.
unfoldable pub one_line : Text → Text
one_line [] = []
one_line (c ∷ s) =
    let rest = one_line s in
    if nat_eq c newline
    then b';' ∷ 32 ∷ rest
    else if nat_eq c carriage_return
    then b';' ∷ 32 ∷ rest
    else c ∷ rest

abbrev field_line : Text → Text → Text → Text
field_line key value rest = key ++ b'=' ∷ (value ++ newline ∷ rest)

-- The text that `Journal::store` writes.
pub render_journal : Journal → Text
render_journal j = field_line (codes "state") (as_str j.state) (
    field_line (codes "from_version") j.from_version (
      field_line (codes "to_version") j.to_version (
        field_line (codes "previous") j.previous (
          field_line (codes "target") j.target (
            field_line (codes "updated_at") (to_string j.updated_at)
              (field_line (codes "error") (one_line j.error) []))))))
