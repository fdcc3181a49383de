-- ===== src/BootGuard/Journal/RoundTrip.antt =====
-- The journal that is read is the journal that was written.
use nudo.Prelude.{
  ℕ, ◌≤◌, ◌≡◌, refl, ap, true, false, [], ◌∷◌, ◌++◌, some, Text, codes, arith, All, append_assoc,
}
use nudo.Text.Split.{
  split_once-append, lines, lines-append, lines-nil, newline, carriage_return, Lacks, IsLine,
  IsLine-of_Lacks, IsLine-append,
}
use nudo.Text.Decimal.{max_u64, to_string, to_string-All, parse-to_string, is_ascii_digit}
use nudo.BootGuard.Journal.{
  JournalState, staged, swapped, confirmed, exec_failed, rolled_back, failed, as_str, parse_state,
  Journal, Partial, apply_field, apply_split, apply_line, read_lines, parse_journal, one_line,
  field_line, render_journal,
}

-- Every state is read back from its name.
pub parse_state-as_str : (s : JournalState) → parse_state (as_str s) ≡ some s
unfolding parse_state as_str
parse_state-as_str staged = refl
parse_state-as_str swapped = refl
parse_state-as_str confirmed = refl
parse_state-as_str exec_failed = refl
parse_state-as_str rolled_back = refl
parse_state-as_str failed = refl

as_str-IsLine : (s : JournalState) → IsLine (as_str s)
unfolding as_str
as_str-IsLine staged = IsLine-of_Lacks (codes "staged") (omega arith) (omega arith)
as_str-IsLine swapped = IsLine-of_Lacks (codes "swapped") (omega arith) (omega arith)
as_str-IsLine confirmed = IsLine-of_Lacks (codes "confirmed") (omega arith) (omega arith)
as_str-IsLine exec_failed = IsLine-of_Lacks (codes "exec-failed") (omega arith) (omega arith)
as_str-IsLine rolled_back = IsLine-of_Lacks (codes "rolled-back") (omega arith) (omega arith)
as_str-IsLine failed = IsLine-of_Lacks (codes "failed") (omega arith) (omega arith)

digits-Lacks :
    (c : ℕ) (s : Text)
    → (is_ascii_digit c ≡ false)
    → All (λ d. is_ascii_digit d ≡ true) s
    → Lacks c s
digits-Lacks c [] no_digit _ = tt
digits-Lacks c (d ∷ s) no_digit (h, hs) = ((λ e. ground arith), digits-Lacks c s no_digit hs)

to_string-IsLine : (n : ℕ) → IsLine (to_string n)
to_string-IsLine n =
    IsLine-of_Lacks (to_string n) (digits-Lacks newline _ refl (to_string-All n))
      (digits-Lacks carriage_return _ refl (to_string-All n))

one_line-Lacks : (s : Text) → Lacks newline (one_line s) × Lacks carriage_return (one_line s)
unfolding one_line
one_line-Lacks [] = (tt, tt)
one_line-Lacks (c ∷ s) = ground (arith, one_line-Lacks s)

one_line-IsLine : (s : Text) → IsLine (one_line s)
one_line-IsLine s = let (h, k) = one_line-Lacks s in IsLine-of_Lacks (one_line s) h k

-- An error that is one line is kept as it is.
pub one_line_of_Lacks : (s : Text) → Lacks newline s → Lacks carriage_return s → one_line s ≡ s
unfolding one_line
one_line_of_Lacks [] h k = refl
one_line_of_Lacks (c ∷ s) (h, hs) (k, ks) = ground (arith, one_line_of_Lacks s hs ks)

abbrev IsKey : Text → Type 0
IsKey key = Lacks b'=' key × Lacks newline key × Lacks carriage_return key

IsLine-cons : (value : Text) → IsLine value → IsLine (b'=' ∷ value)
IsLine-cons value h = IsLine-append (b'=' ∷ []) value (omega arith) (omega arith) h

apply_line-field :
    (p : Partial) (key value : Text)
    → Lacks b'=' key
    → apply_line p (key ++ b'=' ∷ value) ≡ apply_field key value p
unfolding apply_line
apply_line-field p key value no_eq =
    ap (λ o. apply_split o p) (split_once-append b'=' key value no_eq)

-- Reading one line of the file is one `match` on its key.
read_field :
    (p : Partial) (key value rest : Text)
    → IsKey key
    → IsLine value
    → read_lines p (lines (field_line key value rest))
      ≡ read_lines (apply_field key value p) (lines rest)
unfolding read_lines
read_field p key value rest (no_eq, no_newline, no_return) h =
    rw
      (
        ← append_assoc key (b'=' ∷ value) (newline ∷ rest),
        lines-append (key ++ b'=' ∷ value) rest
            (IsLine-append key (b'=' ∷ value) no_newline no_return (IsLine-cons value h)),
      )
      (ap (λ q. read_lines q (lines rest)) (apply_line-field p key value no_eq))

-- The values of a journal that can be written on a line each.
pub record IsWritable (j : Journal) : Type 0 where
  pub from_version : IsLine j.from_version
  pub to_version : IsLine j.to_version
  pub previous : IsLine j.previous
  pub target : IsLine j.target
  pub updated_at : j.updated_at ≤ max_u64

abbrev pub sanitized : Journal → Journal
sanitized j = record j { error = one_line j.error }

pub parse_journal-render_journal :
    (j : Journal) → IsWritable j → parse_journal (render_journal j) ≡ some (sanitized j)
unfolding parse_journal render_journal
parse_journal-render_journal j w =
    rw
      (
        read_field _ (codes "state") (as_str j.state) _ (omega arith) (as_str-IsLine j.state),
        read_field _ (codes "from_version") j.from_version _ (omega arith) w.from_version,
        read_field _ (codes "to_version") j.to_version _ (omega arith) w.to_version,
        read_field _ (codes "previous") j.previous _ (omega arith) w.previous,
        read_field _ (codes "target") j.target _ (omega arith) w.target,
        read_field _ (codes "updated_at") (to_string j.updated_at) _ (omega arith)
            (to_string-IsLine j.updated_at),
        read_field _ (codes "error") (one_line j.error) _ (omega arith) (one_line-IsLine j.error),
      )
      (rw
        (parse_state-as_str j.state, parse-to_string max_u64 j.updated_at w.updated_at, lines-nil))
