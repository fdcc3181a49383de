-- ===== src/Api/Pages.antt =====
-- The pages of a list: crates/server/src/store/mod.rs, and a caller that follows the tokens as
-- `list` of crates/server/src/api/deployments.rs hands them out.
pub mod Walk
use nudo.Prelude.{
  ℕ, zero, suc, ◌+◌, ◌-◌, ◌++◌, Bool, true, false, List, [], ◌∷◌, Option, none, some, Text, codes,
  if◌then◌else◌, is_empty, ltb, leb, nat_eq, min, length, take, drop,
}
use nudo.Text.Trim.{trim}
use nudo.Text.Decimal.{to_string, parse}

unfoldable pub page_size : ℕ → ℕ
page_size requested = if nat_eq requested 0 then 50 else min requested 500

-- `i64::MAX`, and an `i64` by its sign.
abbrev pub max_i64 : ℕ
max_i64 = 0x7fff_ffff_ffff_ffff

pub data Offset : Type 0 where
  from : ℕ → Offset
  before : ℕ → Offset

abbrev offset_of : (ℕ → Offset) → Option ℕ → Offset
offset_of f none = from 0
offset_of f (some n) = f n

abbrev digits_only : Text → Option ℕ
digits_only [] = none
digits_only (c ∷ s) = if nat_eq c b'+' then none else parse (max_i64 + 1) (c ∷ s)

-- `parse::<i64>().unwrap_or(0)`
unfoldable pub parse_offset : Text → Offset
parse_offset [] = from 0
parse_offset (c ∷ s) =
    if nat_eq c b'-'
    then offset_of before (digits_only s)
    else offset_of from (parse max_i64 (c ∷ s))

unfoldable pub page_offset : Text → Offset
unfolding parse_offset
page_offset token = parse_offset (trim token)

-- `(offset + limit).to_string()`
abbrev advanced : Offset → ℕ → Text
advanced (from n) limit = to_string (n + limit)
advanced (before n) limit =
    if leb n limit then to_string (limit - n) else b'-' ∷ to_string (n - limit)

unfoldable pub next_page_token : Offset → ℕ → ℕ → Text
next_page_token offset returned limit = if ltb returned limit then [] else advanced offset limit

-- `LIMIT … OFFSET …`; an offset below zero is zero.
abbrev pub rows_from : Offset → ℕ
rows_from (from n) = n
rows_from (before _) = 0

unfoldable pub list_page {ℓ} : {A : Type ℓ} → List A → ℕ → Text → List A × Text
unfolding page_offset page_size next_page_token
list_page rows requested token =
    let limit = page_size requested in
    let offset = page_offset token in
    let page = take limit (drop (rows_from offset) rows) in
    (page, next_page_token offset (length page) limit)

abbrev pub gathered {ℓ} : {A : Type ℓ} → List A → Option (List A) → Option (List A)
gathered page none = none
gathered page (some rest) = some (page ++ rest)

-- A client that asks for page after page until it is given no token; `None` when that takes more
-- requests than it makes.
unfoldable pub walk {ℓ} : {A : Type ℓ} → ℕ → List A → ℕ → Text → Option (List A)
walk zero rows requested token = none
walk (suc requests) rows requested token =
    let (page, next) = list_page rows requested token in
    let rest = walk requests rows requested next in
    if is_empty next then some page else gathered page rest
