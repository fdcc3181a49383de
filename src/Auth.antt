-- ===== src/Auth.antt =====
-- The token check in front of every call of the API: crates/server/src/auth.rs. The HTTP layer that
-- calls it is not modelled; a header is its text, if it has one that can be read.
pub mod Tokens
pub mod Laws
pub mod Sessions
use nudo.Prelude.{
  ℕ, Bool, true, false, not, ◌&&◌, List, [], ◌∷◌, Option, none, some, Text, codes, text_eq, ◌==◌,
  if◌then◌else◌, any, is_empty, Result, ok, err,
}
use nudo.Text.Trim.{trim, starts_with, strip_prefix}
use nudo.Auth.Tokens.{ApiToken, can_write, authenticate_api_token}

unfoldable pub read_only_methods : List Text
read_only_methods =
    codes "/controlplane.v1.Targets/Get"
    ∷ codes "/controlplane.v1.Targets/List"
    ∷ codes "/controlplane.v1.Targets/Check"
    ∷ codes "/controlplane.v1.ServicesApi/Get"
    ∷ codes "/controlplane.v1.ServicesApi/List"
    ∷ codes "/controlplane.v1.ServicesApi/RenderUnit"
    ∷ codes "/controlplane.v1.ServicesApi/GetUnitStatus"
    ∷ codes "/controlplane.v1.ServicesApi/WatchUnitStatus"
    ∷ codes "/controlplane.v1.Deployments/Get"
    ∷ codes "/controlplane.v1.Deployments/List"
    ∷ codes "/controlplane.v1.Deployments/ListReleases"
    ∷ codes "/controlplane.v1.Deployments/Watch"
    ∷ codes "/controlplane.v1.Logs/Stream"
    ∷ codes "/controlplane.v1.Audit/List"
    ∷ []

unfoldable pub is_read_only : Text → Bool
unfolding read_only_methods
is_read_only method = any (λ m. m == method) read_only_methods

unfoldable pub is_public : Text → Bool
is_public method = any (λ prefix. starts_with prefix method) (codes "/grpc.health.v1.Health/" ∷ [])

abbrev either_prefix : Option Text → Option Text → Option Text
either_prefix (some s) other = some s
either_prefix none other = other

abbrev given : Option Text → Option Text
given none = none
given (some s) = if is_empty (trim s) then none else some (trim s)

-- `None` when there is no header, or none whose text can be read.
unfoldable pub bearer_token : Option Text → Option Text
bearer_token none = none
bearer_token (some raw) =
    given (either_prefix (strip_prefix (codes "Bearer ") raw) (strip_prefix (codes "bearer ") raw))

pub data Refusal : Type 0 where
  no_token unknown_token unverified : Refusal
  read_scope_only : Text → Text → Refusal

-- `Refusal::to_status`: whether a refusal is about who calls, and not about what the token may do.
unfoldable pub is_unauthenticated : Refusal → Bool
is_unauthenticated (read_scope_only _ _) = false
is_unauthenticated _ = true

unfoldable pub judge_token : Text → Option ApiToken → Result Refusal (Option Text)
judge_token method none = err unknown_token
judge_token method (some verified) =
    if not (is_read_only method) && not (can_write verified)
    then err (read_scope_only verified.name method)
    else ok (some verified.name)

-- `answers` is whether the database answers, `now` the time that a use is stamped with.
unfoldable pub check_token :
    (Text → Text)
    → Bool
    → ℕ
    → Option Text
    → Text
    → List ApiToken
    → List ApiToken × Result Refusal (Option Text)
unfolding judge_token
check_token sha256_hex answers now none method rows = (rows, err no_token)
check_token sha256_hex answers now (some token) method rows =
    if answers
    then (let (after, found) = authenticate_api_token sha256_hex now token rows in
        (after, judge_token method found))
    else (rows, err unverified)

unfoldable pub check :
    (Text → Text)
    → Bool
    → ℕ
    → Option Text
    → Text
    → List ApiToken
    → List ApiToken × Result Refusal (Option Text)
unfolding check_token
check sha256_hex answers now token method rows =
    if is_public method
    then (rows, ok none)
    else check_token sha256_hex answers now token method rows
