-- ===== src/Api/Pages/Walk.antt =====
-- A client that follows the tokens sees the list.
use nudo.Prelude.{
  ℕ, zero, suc, ◌+◌, ◌*◌, ltb→lt, ◌≤◌, ◌<◌, ◌≡◌, ◌≢◌, refl, sym, ap, ◌∙◌, inl, inr, true, false,
  List, [], ◌∷◌, ◌++◌, All, Option, some, Text, if◌then◌else◌, is_empty, ltb, nat_eq, min, length,
  length-drop, take, drop, drop-drop, arith, Bool-cases,
}
use nudo.Text.Trim.{trim}
use nudo.Text.Decimal.{
  to_string, parse, to_string-ne-nil, to_string-All, parse-to_string, trim-to_string,
  is_ascii_digit,
}
use nudo.Api.Pages.{
  from, rows_from, max_i64, page_size, parse_offset, page_offset, next_page_token, list_page,
  gathered, walk,
}

parse_offset-digits :
    (s : Text) (n : ℕ)
    → All (λ c. is_ascii_digit c ≡ true) s
    → parse max_i64 s ≡ some n
    → parse_offset s ≡ from n
unfolding parse_offset parse
parse_offset-digits [] n h e = absurd (ground (arith, e))
parse_offset-digits (c ∷ s) n (digit, _) e =
    let plain : nat_eq c b'-' ≡ false = ground (arith, digit) in simp (plain, e) refl

-- The token of an offset is read as that offset.
page_offset-to_string : (n : ℕ) → n ≤ max_i64 → page_offset (to_string n) ≡ from n
unfolding page_offset
page_offset-to_string n fits =
    ap parse_offset (trim-to_string n)
    ∙ parse_offset-digits (to_string n) n (to_string-All n) (parse-to_string max_i64 n fits)

page_size_pos : (requested : ℕ) → 1 ≤ page_size requested
unfolding page_size
page_size_pos requested = ground arith

non_empty : (s : Text) → s ≢ [] → is_empty s ≡ false
non_empty [] h = absurd (h refl)
non_empty (c ∷ s) h = refl

zero_mul : (n : ℕ) → 0 * n ≡ 0
zero_mul n = omega arith

suc_mul : (m n : ℕ) → suc m * n ≡ m * n + n
suc_mul m n = omega arith

to_string-is_empty : (n : ℕ) → is_empty (to_string n) ≡ false
to_string-is_empty n = non_empty (to_string n) (to_string-ne-nil n)

module _ {ℓ} {A : Type ℓ} where
  take-drop : (n : ℕ) (xs : List A) → take n xs ++ drop n xs ≡ xs
  take-drop zero xs = refl
  take-drop (suc n) [] = refl
  take-drop (suc n) (x ∷ xs) = ap (λ ys. x ∷ ys) (take-drop n xs)

  length-take : (n : ℕ) (xs : List A) → length (take n xs) ≡ min n (length xs)
  length-take zero xs = omega arith
  length-take (suc n) [] = omega arith
  length-take (suc n) (x ∷ xs) = omega (arith, length-take n xs)

  take_all : (n : ℕ) (xs : List A) → length xs ≤ n → take n xs ≡ xs
  take_all zero [] h = refl
  take_all zero (x ∷ xs) h = absurd (omega (arith, h))
  take_all (suc n) [] h = refl
  take_all (suc n) (x ∷ xs) h = ap (λ ys. x ∷ ys) (take_all n xs (omega (arith, h)))

module _ {ℓ} {A : Type ℓ} (rows : List A) (requested : ℕ) where
  -- One request of the client, by the page and the token that it is given.
  abbrev follow : ℕ → List A × Text → Option (List A)
  follow requests answer =
      if is_empty answer.1
      then some answer.0
      else gathered answer.0 (walk requests rows requested answer.1)

  abbrev page_at : ℕ → List A × Text
  page_at o =
      let page = take (page_size requested) (drop o rows) in
      (page, next_page_token (from o) (length page) (page_size requested))

  walk-follow :
      (requests : ℕ) (token : Text) (o : ℕ)
      → page_offset token ≡ from o
      → walk (suc requests) rows requested token ≡ follow requests (page_at o)
  unfolding walk list_page
  walk-follow requests token o e =
      ap
        (λ offset. follow requests (
          take (page_size requested) (drop (rows_from offset) rows),
          next_page_token offset
              (length (take (page_size requested) (drop (rows_from offset) rows)))
              (page_size requested),
        ))
        e

  follow_last :
      (requests o : ℕ)
      → length (take (page_size requested) (drop o rows)) < page_size requested
      → follow requests (page_at o) ≡ some (drop o rows)
  unfolding next_page_token
  follow_last requests o h =
      let short = length-take (page_size requested) (drop o rows) in
      let ends : ltb (length (take (page_size requested) (drop o rows))) (page_size requested)
          ≡ true =
        ground (arith, h) in
      simp ends (ap some (take_all (page_size requested) (drop o rows) (omega (arith, short, h))))

  follow_next :
      (requests o : ℕ)
      → page_size requested ≤ length (take (page_size requested) (drop o rows))
      → walk requests rows requested (to_string (o + page_size requested))
        ≡ some (drop (o + page_size requested) rows)
      → follow requests (page_at o) ≡ some (drop o rows)
  unfolding next_page_token
  follow_next requests o h rest =
      let full : ltb (length (take (page_size requested) (drop o rows))) (page_size requested)
          ≡ false =
        ground (arith, h) in
      simp (full, to_string-is_empty (o + page_size requested), rest)
        (ap (λ tail. some (take (page_size requested) (drop o rows) ++ tail))
            (sym (drop-drop (page_size requested) o rows))
          ∙ ap some (take-drop (page_size requested) (drop o rows)))

  -- Each request brings the client one page further.
  walk_from :
      (requests : ℕ) (token : Text) (o : ℕ)
      → page_offset token ≡ from o
      → length rows ≤ max_i64
      → o ≤ length rows
      → length rows < o + requests * page_size requested
      → walk requests rows requested token ≡ some (drop o rows)
  walk_from zero token o e fits within h =
      absurd (omega (arith, within, h, zero_mul (page_size requested)))
  walk_from (suc requests) token o e fits within h =
      let limit = page_size requested in
      let page = take limit (drop o rows) in
      let taken = length-take limit (drop o rows) in
      let left = length-drop o rows in
      walk-follow requests token o e ∙ elim (Bool-cases (ltb (length page) limit)) [
        | inl short ↦ follow_last requests o (ltb→lt (length page) limit short)
        | inr full ↦
            let whole : limit ≤ length page = ground (arith, full) in
            let inside : o + limit ≤ length rows =
              omega (arith, whole, taken, left, page_size_pos requested) in
            follow_next requests o whole (
              walk_from requests (to_string (o + limit)) (o + limit)
                (page_offset-to_string (o + limit) (omega (arith, inside, fits))) fits inside
                (omega (arith, h, suc_mul requests limit)))
      ]

  -- A client that asks for the first page and then follows the tokens is given every row once, in
  -- order, and is then given no token, whatever page size it asks for. As many requests are enough as
  -- it takes pages to hold one row more than there are.
  pub walk-rows :
      (requests : ℕ)
      → length rows ≤ max_i64
      → length rows < requests * page_size requested
      → walk requests rows requested [] ≡ some rows
  unfolding page_offset parse_offset trim
  walk-rows requests fits enough =
      walk_from requests [] 0 refl fits (omega arith) (omega (arith, enough))
