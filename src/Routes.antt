-- ===== src/Routes.antt =====
-- `validate_domain`, `validate_port` and `normalize_path` of crates/proto/src/lib.rs: what may stand in
-- a route. The message of an error is left out but for its reason.
pub mod Laws
use nudo.Prelude.{
  ℕ, ◌+◌, Bool, true, false, not, ◌&&◌, ◌||◌, List, [], ◌∷◌, ◌++◌, Option, none, some, Text, codes,
  if◌then◌else◌, is_empty, nat_eq, leb, ltb, any, all, ◌==◌, text_eq, utf8_len, Result, ok, err,
  ensure, ◌>>=◌, ◌>>◌,
}
use nudo.Text.Trim.{trim, trim_end_matches, starts_with, ends_with, strip_prefix}
use nudo.Text.Split.{split}

pub data RouteError : Type 0 where
  domain_required domain_too_long misplaced_wildcard bare_name empty_label label_too_long :
      RouteError
  label_edge label_char : RouteError
  port_required port_too_high : RouteError
  path_too_long path_dots path_empty_segment path_char : RouteError

unfoldable pub is_ascii_alphanumeric : ℕ → Bool
is_ascii_alphanumeric c =
    (leb b'0' c && leb c b'9') || (leb b'A' c && leb c b'Z') || (leb b'a' c && leb c b'z')

abbrev pub dash : Text
dash = b'-' ∷ []

unfoldable pub check_label : Text → Result RouteError (Unit {0})
check_label label = do
  ensure (not (is_empty label)) empty_label
  ensure (leb (utf8_len label) 63) label_too_long
  ensure (not (starts_with dash label || ends_with dash label)) label_edge
  ensure (all (λ c. is_ascii_alphanumeric c || nat_eq c b'-') label) label_char

unfoldable pub check_labels : List Text → Result RouteError (Unit {0})
check_labels [] = ok tt
check_labels (label ∷ labels) = check_label label >> check_labels labels

abbrev pub or_self : Text → Option Text → Text
or_self s none = s
or_self s (some t) = t

unfoldable pub validate_domain : Text → Result RouteError (Unit {0})
validate_domain raw = do
  let domain = trim raw
  let body = or_self domain (strip_prefix (codes "*.") domain)
  ensure (not (is_empty domain)) domain_required
  ensure (leb (utf8_len domain) 253) domain_too_long
  ensure (not (any (nat_eq b'*') body)) misplaced_wildcard
  ensure (any (nat_eq b'.') body) bare_name
  check_labels (split (nat_eq b'.') body)

unfoldable pub validate_port : ℕ → Result RouteError (Unit {0})
validate_port port =
    if nat_eq port 0 then err port_required else if leb port 65535 then ok tt else err port_too_high

-- `str::contains` with a string.
unfoldable pub has_infix : Text → Text → Bool
has_infix p [] = is_empty p
has_infix p (c ∷ s) = let later = has_infix p s in starts_with p (c ∷ s) || later

unfoldable pub is_path_char : ℕ → Bool
is_path_char c = is_ascii_alphanumeric c || any (nat_eq c) (codes "/-._~%+")

abbrev pub with_slash : Text → Text
with_slash s = if starts_with (codes "/") s then s else b'/' ∷ s

abbrev pub checked_path : Text → Result RouteError Text
checked_path p = do
  ensure (leb (utf8_len p) 255) path_too_long
  ensure (not (has_infix (codes "..") p)) path_dots
  ensure (not (has_infix (codes "//") p)) path_empty_segment
  ensure (all is_path_char p) path_char
  ok p

unfoldable pub normalize_path : Text → Result RouteError Text
normalize_path path =
    let p = trim path in
    if is_empty p || p == codes "/"
    then ok []
    else checked_path (with_slash (trim_end_matches (nat_eq b'/') p))
