-- ===== src/Deploy/Status.antt =====
-- `deployment::Status`, of crates/proto/src/lib.rs.
use nudo.Prelude.{
  ◌≡◌, refl, ◌≢◌, Bool, true, false, not, Text, codes, if◌then◌else◌, ◌==◌, text_eq, text_beq,
}

pub data Status : Type 0 where
  unspecified queued building uploading activating health_checking succeeded failed rolled_back
        cancelled :
      Status

unfoldable pub is_terminal : Status → Bool
is_terminal succeeded = true
is_terminal failed = true
is_terminal rolled_back = true
is_terminal cancelled = true
is_terminal _ = false

unfoldable pub as_str : Status → Text
as_str unspecified = codes "unspecified"
as_str queued = codes "queued"
as_str building = codes "building"
as_str uploading = codes "uploading"
as_str activating = codes "activating"
as_str health_checking = codes "health_checking"
as_str succeeded = codes "succeeded"
as_str failed = codes "failed"
as_str rolled_back = codes "rolled_back"
as_str cancelled = codes "cancelled"

unfoldable pub parse : Text → Status
parse s =
    if s == codes "queued"
    then queued
    else if s == codes "building"
    then building
    else if s == codes "uploading"
    then uploading
    else if s == codes "activating"
    then activating
    else if s == codes "health_checking"
    then health_checking
    else if s == codes "succeeded"
    then succeeded
    else if s == codes "failed"
    then failed
    else if s == codes "rolled_back"
    then rolled_back
    else if s == codes "cancelled"
    then cancelled
    else unspecified

-- What is written to the database is read back as the same status.
pub parse-as_str : (s : Status) → parse (as_str s) ≡ s
unfolding parse as_str text_beq
parse-as_str unspecified = refl
parse-as_str queued = refl
parse-as_str building = refl
parse-as_str uploading = refl
parse-as_str activating = refl
parse-as_str health_checking = refl
parse-as_str succeeded = refl
parse-as_str failed = refl
parse-as_str rolled_back = refl
parse-as_str cancelled = refl

-- The statuses that `active_deployments` lists, by their names in the database.
unfoldable pub is_active : Text → Bool
is_active s =
    if s == codes "queued"
    then true
    else if s == codes "building"
    then true
    else if s == codes "uploading"
    then true
    else if s == codes "activating"
    then true
    else s == codes "health_checking"

-- A deployment whose status is not the placeholder is listed as active exactly while its status is
-- not terminal.
pub is_active-as_str : (s : Status) → s ≢ unspecified → is_active (as_str s) ≡ not (is_terminal s)
unfolding is_active as_str is_terminal text_beq
is_active-as_str unspecified ne = absurd (ne refl)
is_active-as_str queued ne = refl
is_active-as_str building ne = refl
is_active-as_str uploading ne = refl
is_active-as_str activating ne = refl
is_active-as_str health_checking ne = refl
is_active-as_str succeeded ne = refl
is_active-as_str failed ne = refl
is_active-as_str rolled_back ne = refl
is_active-as_str cancelled ne = refl
