-- ===== src/BootGuard/Dir.antt =====
-- The self directory and the file operations on it, of crates/bootguard/src/lib.rs. The temporary
-- names that the atomic writes go through are read by nothing and are left out.
use nudo.Prelude.{
  ℕ, ◌≤◌, ◌≡◌, Bool, true, false, Option, none, some, Text, if◌then◌else◌, Result, ok, err, ap,
}
use nudo.Text.Trim.{trim}
use nudo.Text.Decimal.{trim-to_string, max_u32, to_string, parse, parse-to_string}
use nudo.BootGuard.Journal.{Journal, parse_journal, render_journal}
use nudo.BootGuard.Journal.RoundTrip.{IsWritable, sanitized, parse_journal-render_journal}

pub record Dir : Type 0 where
  pub journal : Option Text
  pub attempts : Option Text
  pub current : Option Text

-- An operation succeeds, fails before its rename, or fails at the directory sync behind it.
pub data Fault : Type 0 where
  fine early late : Fault

-- The directory afterwards, and whether the caller sees success.
abbrev pub attempt : Fault → Dir → Dir → Dir × Bool
attempt fine before after = (after, true)
attempt early before after = (before, false)
attempt late before after = (after, false)

abbrev pub parsed : Option Text → Option Journal
parsed none = none
parsed (some raw) = parse_journal raw

-- `Journal::load`: a missing file is no journal, a file that cannot be read is an error.
unfoldable pub load : Bool → Dir → Result (Unit {0}) (Option Journal)
load readable d = if readable then ok (parsed d.journal) else err tt

unfoldable pub store : Journal → Fault → Dir → Dir × Bool
store j f d = attempt f d (record d { journal = some (render_journal j) })

abbrev unwrap_or_zero : Option ℕ → ℕ
unwrap_or_zero none = 0
unwrap_or_zero (some n) = n

abbrev count_in : Option Text → ℕ
count_in none = 0
count_in (some raw) = unwrap_or_zero (parse max_u32 (trim raw))

-- Whatever cannot be read counts as zero.
unfoldable pub read_attempts : Bool → Dir → ℕ
read_attempts readable d = if readable then count_in d.attempts else 0

unfoldable pub write_attempts : ℕ → Fault → Dir → Dir × Bool
write_attempts n f d = attempt f d (record d { attempts = some (to_string n) })

-- `clear_attempts` removes the file and does not sync the directory.
unfoldable pub clear_attempts : Bool → Dir → Dir
clear_attempts works d = if works then record d { attempts = none } else d

unfoldable pub swap_current : Text → Fault → Dir → Dir × Bool
swap_current release_rel f d = attempt f d (record d { current = some release_rel })

-- The counter that is written is the counter that is read.
pub read_attempts-write_attempts :
    (n : ℕ) (d : Dir) → n ≤ max_u32 → read_attempts true (write_attempts n fine d).0 ≡ n
unfolding read_attempts write_attempts
read_attempts-write_attempts n d fits = rw (trim-to_string n, parse-to_string max_u32 n fits)

-- A stored journal is loaded, unless the write failed before its rename.
pub load-store :
    (j : Journal) (d : Dir) → IsWritable j → load true (store j fine d).0 ≡ ok (some (sanitized j))
unfolding load store
load-store j d w = ap ok (parse_journal-render_journal j w)
