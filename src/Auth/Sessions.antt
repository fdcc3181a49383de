-- ===== src/Auth/Sessions.antt =====
-- Users and dashboard sessions: `create_user`, `authenticate`, `change_password`, `create_session`,
-- `lookup_session` and `delete_session` of crates/server/src/store/auth.rs. Password hashes, digests,
-- random ids, lower case and the time are arguments. Queries are taken to go through, but for the
-- constraints of the tables.
pub mod Ended
pub mod Live
use nudo.Prelude.{
  ℕ, ◌+◌, Bool, true, false, not, ◌&&◌, ◌||◌, List, [], ◌∷◌, ◌++◌, map, filter, find, any, Option,
  none, some, Text, text_eq, ◌==◌, if◌then◌else◌, is_empty, ltb, length, nat_eq, Result, ok, err,
}
use nudo.Text.Trim.{trim}
use nudo.Text.Split.{contains}

pub record UserRow : Type 0 where
  pub id : Text
  pub email : Text
  pub password_hash : Text
  pub display_name : Text
  pub created_at : ℕ

pub record SessionRow : Type 0 where
  pub id : Text
  pub user_id : Text
  pub csrf_token : Text
  pub expires_at : Option ℕ

pub record Accounts : Type 0 where
  pub users : List UserRow
  pub sessions : List SessionRow

-- What is computed outside this code. `hash_password` is the hash with a new salt, unless it fails.
pub record Crypto : Type 0 where
  pub hash_password : Text → Option Text
  pub verify_password : Text → Text → Bool
  pub sha256_hex : Text → Text
  pub to_lowercase : Text → Text

pub data AccountError : Type 0 where
  bad_email short_password email_taken no_such_user wrong_password database : AccountError

-- `SESSION_TTL_DAYS` in seconds.
abbrev pub session_ttl : ℕ
session_ttl = 2592000

abbrev pub user_of : Text → UserRow → Bool
user_of id u = u.id == id

unfoldable pub get_user : Text → Accounts → Option UserRow
get_user id accounts = find (user_of id) accounts.users

unfoldable pub normal_email : Crypto → Text → Text
normal_email crypto email = crypto.to_lowercase (trim email)

abbrev pub valid_email : Text → Bool
valid_email email = not (is_empty email) && contains b'@' email

abbrev pub long_enough : Text → Bool
long_enough password = not (ltb (length password) 12)

abbrev pub inserted :
    Text → Text → ℕ → Text → Option Text → Accounts → Result AccountError (Accounts × UserRow)
inserted id email now display_name none accounts = err database
inserted id email now display_name (some hash) accounts =
    let user : UserRow = record {
      id = id;
      email = email;
      password_hash = hash;
      display_name = trim display_name;
      created_at = now;
    } in
    if any (λ u. u.id == id || u.email == email) accounts.users
    then err email_taken
    else ok (record accounts { users = accounts.users ++ (user ∷ []) }, user)

unfoldable pub create_user :
    Crypto → Text → ℕ → Text → Text → Text → Accounts → Result AccountError (Accounts × UserRow)
unfolding normal_email
create_user crypto id now email password display_name accounts =
    let normal = normal_email crypto email in
    if not (valid_email normal)
    then err bad_email
    else if not (long_enough password)
    then err short_password
    else inserted id normal now display_name (crypto.hash_password password) accounts

abbrev pub verified : Crypto → Text → Option UserRow → Option UserRow
verified crypto password none = none
verified crypto password (some u) =
    if crypto.verify_password password u.password_hash then some u else none

unfoldable pub authenticate : Crypto → Text → Text → Accounts → Option UserRow
unfolding normal_email
authenticate crypto email password accounts =
    verified crypto password (find (λ u. u.email == normal_email crypto email) accounts.users)

abbrev pub rehashed : Text → Text → UserRow → UserRow
rehashed id hash u = if u.id == id then record u { password_hash = hash } else u

abbrev pub replaced : Text → Option Text → Accounts → Result AccountError Accounts
replaced id none accounts = err database
replaced id (some hash) accounts = ok (record accounts {
  users = map (rehashed id hash) accounts.users;
  sessions = filter (λ s. not (s.user_id == id)) accounts.sessions;
})

abbrev pub changed_by :
    Crypto → Text → Text → Text → Option UserRow → Accounts → Result AccountError Accounts
changed_by crypto id current password none accounts = err no_such_user
changed_by crypto id current password (some u) accounts =
    if not (crypto.verify_password current u.password_hash)
    then err wrong_password
    else if not (long_enough password)
    then err short_password
    else replaced id (crypto.hash_password password) accounts

unfoldable pub change_password :
    Crypto → Text → Text → Text → Accounts → Result AccountError Accounts
unfolding get_user
change_password crypto id current password accounts =
    changed_by crypto id current password (get_user id accounts) accounts

-- A session's id is the digest of its cookie, and a primary key.
unfoldable pub create_session :
    Crypto → Text → Text → Text → ℕ → Accounts → Result AccountError Accounts
create_session crypto user_id cookie csrf now accounts =
    let digest = crypto.sha256_hex cookie in
    if any (λ s. s.id == digest) accounts.sessions
    then err database
    else ok (record accounts {
      sessions =
          accounts.sessions
          ++ (record {
            id = digest;
            user_id = user_id;
            csrf_token = csrf;
            expires_at = some (now + session_ttl);
          }
              ∷ []);
    })

unfoldable pub delete_session : Crypto → Text → Accounts → Accounts
delete_session crypto cookie accounts = record accounts {
  sessions = filter (λ s. not (s.id == crypto.sha256_hex cookie)) accounts.sessions;
}

-- A time that cannot be read is one that has passed.
abbrev pub is_over : Option ℕ → ℕ → Bool
is_over none now = true
is_over (some expires_at) now = ltb expires_at now

abbrev pub session_user : SessionRow → Option UserRow → Option (UserRow × Text)
session_user s none = none
session_user s (some u) = some (u, s.csrf_token)

unfoldable pub resolve :
    Crypto → ℕ → Text → Option SessionRow → Accounts → Accounts × Option (UserRow × Text)
unfolding delete_session get_user
resolve crypto now cookie none accounts = (accounts, none)
resolve crypto now cookie (some s) accounts =
    if is_over s.expires_at now
    then (delete_session crypto cookie accounts, none)
    else (accounts, session_user s (get_user s.user_id accounts))

-- The session is the user and the CSRF token.
unfoldable pub lookup_session : Crypto → ℕ → Text → Accounts → Accounts × Option (UserRow × Text)
unfolding resolve
lookup_session crypto now cookie accounts =
    if is_empty (trim cookie)
    then (accounts, none)
    else resolve crypto now cookie (find (λ s. s.id == crypto.sha256_hex cookie) accounts.sessions)
        accounts
