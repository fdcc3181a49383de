-- ===== src/Tests/Access.antt =====
-- Tokens and sessions under a digest that adds a character.
use nudo.Prelude.{
  ◌+◌, ◌≡◌, ◌≢◌, refl, true, [], ◌∷◌, ◌++◌, map, any, none, some, Text, codes, text_eq, text_beq,
  ◌==◌, ◌⊎◌,
}
use nudo.Text.Trim.{trim, trim_start_matches, trim_end_matches, is_whitespace, starts_with}
use nudo.Text.Split.{split, join}
use nudo.Auth.{check, check_token, judge_token, is_public, is_read_only, read_only_methods}
use nudo.Auth.Laws.{check-IsAdmitted, IsAdmitted}
use nudo.Auth.Tokens.{
  ApiToken, can_write, create_api_token, authenticate_api_token, authenticated, revoke_api_token,
  normalize_scopes, revoked,
}
use nudo.Auth.Tokens.Revoked.{token_calls, authenticating, revoke-authenticate}
use nudo.Auth.Tokens.Minted.{create_api_token-authenticates}
use nudo.Auth.Sessions.{
  UserRow, SessionRow, Accounts, Crypto, lookup_session, change_password, get_user, session_ttl,
}
use nudo.Auth.Sessions.Ended.{change_password-ends}

abbrev sha : Text → Text
sha s = b'#' ∷ s

abbrev admin : ApiToken
admin = record {
  id = codes "tok_1";
  name = codes "ci";
  token_hash = codes "#nudo_x";
  scopes = codes "read,write";
  created_by = codes "usr_1";
  last_used_at = none;
  revoked_at = none;
  created_at = 1;
}

abbrev deploy_method : Text
deploy_method = codes "/controlplane.v1.Deployments/Deploy"

check-IsAdmitted_example :
    (is_public deploy_method ≡ true)
    ⊎ ((true ≡ true) × IsAdmitted sha (some (codes "nudo_x")) deploy_method (admin ∷ []))
unfolding check check_token judge_token is_public is_read_only read_only_methods starts_with
    authenticate_api_token authenticated can_write revoked trim trim_start_matches trim_end_matches
    is_whitespace split text_beq
check-IsAdmitted_example =
    check-IsAdmitted sha true 5 deploy_method (admin ∷ []) (some (codes "nudo_x"))
      (some (codes "ci")) refl

revoke-authenticate_example :
    (authenticate_api_token sha 9 (codes "nudo_x") (
      token_calls sha
        (authenticating 8 (codes "nudo_x") ∷ [])
        (record admin { revoked_at = some 7 } ∷ []))).1
    ≡ none
unfolding revoke_api_token revoked trim trim_start_matches trim_end_matches is_whitespace text_beq
revoke-authenticate_example =
    revoke-authenticate sha (codes "tok_1") (codes "nudo_x") 7 9
      (authenticating 8 (codes "nudo_x") ∷ []) (admin ∷ [])
      (record admin { revoked_at = some 7 } ∷ []) admin refl refl refl

abbrev minted : ApiToken
minted = record {
  id = codes "tok_2";
  name = codes "agent";
  token_hash = codes "#nudo_y";
  scopes = codes "read";
  created_by = codes "usr_1";
  last_used_at = none;
  revoked_at = none;
  created_at = 2;
}

create_api_token-authenticates_example :
    ((authenticate_api_token sha 3 (codes "nudo_y") (admin ∷ minted ∷ [])).1 ≡ some minted)
    × (can_write minted ≡ any (λ s. s == codes "write") (map trim (codes "read" ∷ [])))
unfolding create_api_token normalize_scopes join trim trim_start_matches trim_end_matches
    is_whitespace text_beq
create_api_token-authenticates_example =
    create_api_token-authenticates sha (codes "tok_2") (codes "y") 2 (codes "agent")
      (codes "read" ∷ []) (codes "usr_1") (admin ∷ []) 3 (admin ∷ minted ∷ []) minted
      (codes "nudo_y") refl refl

abbrev crypto : Crypto
crypto = record {
  hash_password = λ p. some (codes "h" ++ p);
  verify_password = λ p h. h == (codes "h" ++ p);
  sha256_hex = sha;
  to_lowercase = λ s. s;
}

abbrev user : UserRow
user = record {
  id = codes "usr_1";
  email = codes "a@b";
  password_hash = codes "hold password 1";
  display_name = codes "A";
  created_at = 1;
}

abbrev other : UserRow
other = record user { id = codes "usr_2"; email = codes "c@d" }

abbrev session_of : Text → Text → SessionRow
session_of owner cookie = record {
  id = sha cookie;
  user_id = owner;
  csrf_token = codes "csrf";
  expires_at = some (100 + session_ttl);
}

abbrev accounts : Accounts
accounts = record {
  users = user ∷ other ∷ [];
  sessions = session_of (codes "usr_2") (codes "c2") ∷ [];
}

abbrev both : Accounts
both = record accounts {
  sessions = session_of (codes "usr_2") (codes "c2") ∷ session_of (codes "usr_1") (codes "c1") ∷ [];
}

abbrev rekeyed : Accounts
rekeyed = record {
  users = record user { password_hash = codes "hnew password 12" } ∷ other ∷ [];
  sessions = session_of (codes "usr_2") (codes "c2") ∷ [];
}

change_password-ends_example :
    ((owner : UserRow) × (get_user (codes "usr_1") both ≡ some owner)
      × (crypto.verify_password (codes "old password 1") owner.password_hash ≡ true))
    × (((lookup_session crypto 200 (codes "c2") rekeyed).1 ≡ none)
        ⊎ ((u : UserRow) × (csrf : Text) × ((lookup_session crypto 200 (codes "c2") rekeyed).1
              ≡ some (u, csrf))
            × (u.id ≢ codes "usr_1")))
unfolding change_password get_user trim trim_start_matches trim_end_matches is_whitespace text_beq
change_password-ends_example =
    change_password-ends crypto (codes "usr_1") (codes "old password 1") (codes "new password 12")
      both rekeyed 200 (codes "c2") refl
