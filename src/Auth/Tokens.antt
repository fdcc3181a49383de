-- ===== src/Auth/Tokens.antt =====
-- The tokens of the API: `ApiToken`, `create_api_token`, `authenticate_api_token` and `revoke_api_token` of
-- crates/server/src/store/auth.rs. The digest, the random ids and secrets and the time are arguments.
pub mod Scopes
pub mod Revoked
pub mod Minted
use nudo.Prelude.{
  ℕ, Bool, true, false, not, ◌&&◌, ◌||◌, List, [], ◌∷◌, ◌++◌, map, filter, find, any, Option, none,
  some, Text, codes, text_eq, ◌==◌, if◌then◌else◌, is_empty, Result, ok, err, nat_eq, leb,
}
use nudo.Text.Trim.{trim}
use nudo.Text.Split.{split, join}

pub record ApiToken : Type 0 where
  pub id : Text
  pub name : Text
  pub token_hash : Text
  pub scopes : Text
  pub created_by : Text
  pub last_used_at : Option ℕ
  pub revoked_at : Option ℕ
  pub created_at : ℕ

unfoldable pub revoked : ApiToken → Bool
revoked t = elim t.revoked_at [ none ↦ false | some _ ↦ true ]

unfoldable pub can_write : ApiToken → Bool
can_write t = any (λ s. trim s == codes "write") (split (nat_eq b',') t.scopes)

-- `str` order: the order of its code points.
abbrev text_leb : Text → Text → Bool
text_leb [] t = true
text_leb (c ∷ s) [] = false
text_leb (c ∷ s) (d ∷ t) = let rest = text_leb s t in if nat_eq c d then rest else leb c d

abbrev pub insert_sorted : Text → List Text → List Text
insert_sorted x [] = x ∷ []
insert_sorted x (y ∷ ys) =
    let rest = insert_sorted x ys in if text_leb x y then x ∷ y ∷ ys else y ∷ rest

-- `sort_unstable`
abbrev pub sort : List Text → List Text
sort [] = []
sort (x ∷ xs) = insert_sorted x (sort xs)

abbrev pub keep_first : Text → List Text → List Text
keep_first x [] = x ∷ []
keep_first x (y ∷ ys) = if x == y then y ∷ ys else x ∷ y ∷ ys

-- `dedup`: of equal neighbours, one.
abbrev pub dedup : List Text → List Text
dedup [] = []
dedup (x ∷ xs) = keep_first x (dedup xs)

abbrev pub is_scope : Text → Bool
is_scope s = s == codes "read" || s == codes "write"

abbrev pub or_read : List Text → List Text
or_read [] = codes "read" ∷ []
or_read (s ∷ ss) = s ∷ ss

abbrev pub with_read : List Text → List Text
with_read ss =
    if any (λ s. s == codes "write") ss && not (any (λ s. s == codes "read") ss)
    then codes "read" ∷ ss
    else ss

unfoldable pub normalize_scopes : List Text → List Text
normalize_scopes scopes = with_read (or_read (dedup (sort (filter is_scope (map trim scopes)))))

pub data TokenError : Type 0 where
  unnamed not_unique no_active_token : TokenError

-- The columns `id` and `token_hash` are unique.
abbrev pub clashes : Text → Text → List ApiToken → Bool
clashes id hash rows = any (λ r. r.id == id || r.token_hash == hash) rows

abbrev pub new_token : Text → Text → ℕ → Text → List Text → Text → ApiToken
new_token id hash now name scopes created_by = record {
  id = id;
  name = trim name;
  token_hash = hash;
  scopes = join (codes ",") (normalize_scopes scopes);
  created_by = created_by;
  last_used_at = none;
  revoked_at = none;
  created_at = now;
}

abbrev pub plaintext_of : Text → Text
plaintext_of secret = codes "nudo_" ++ secret

unfoldable pub create_api_token :
    (Text → Text)
    → Text
    → Text
    → ℕ
    → Text
    → List Text
    → Text
    → List ApiToken
    → Result TokenError (List ApiToken × ApiToken × Text)
create_api_token sha256_hex id secret now name scopes created_by rows =
    let hash = sha256_hex (plaintext_of secret) in
    let token = new_token id hash now name scopes created_by in
    if is_empty (trim name)
    then err unnamed
    else if clashes id hash rows
    then err not_unique
    else ok (rows ++ (token ∷ []), token, plaintext_of secret)

abbrev pub has_hash : Text → ApiToken → Bool
has_hash hash r = r.token_hash == hash

abbrev pub used : Text → ℕ → ApiToken → ApiToken
used id now r = if r.id == id then record r { last_used_at = some now } else r

unfoldable pub authenticated : ℕ → List ApiToken → Option ApiToken → List ApiToken × Option ApiToken
authenticated now rows none = (rows, none)
authenticated now rows (some token) =
    if revoked token then (rows, none) else (map (used token.id now) rows, some token)

unfoldable pub authenticate_api_token :
    (Text → Text) → ℕ → Text → List ApiToken → List ApiToken × Option ApiToken
unfolding authenticated
authenticate_api_token sha256_hex now plaintext rows =
    if is_empty (trim plaintext)
    then (rows, none)
    else authenticated now rows (find (has_hash (sha256_hex (trim plaintext))) rows)

abbrev pub is_active : Text → ApiToken → Bool
is_active id r = r.id == id && not (revoked r)

abbrev pub stamped : Text → ℕ → ApiToken → ApiToken
stamped id now r = if is_active id r then record r { revoked_at = some now } else r

unfoldable pub revoke_api_token : Text → ℕ → List ApiToken → Result TokenError (List ApiToken)
revoke_api_token id now rows =
    if any (is_active id) rows then ok (map (stamped id now) rows) else err no_active_token
