-- ===== src/Prelude/Tables.antt =====
-- Maps from names, as functions, and the ends of lists that queues keep.
use Prim.Native.Nat.{ℕ, zero, suc, ◌+◌, ◌-◌, ◌≤◌}
use mathlib.Core.Path.{◌≡◌, refl, ap, sym, ◌∙◌}
use mathlib.Core.List.{List, [], ◌∷◌, ◌++◌}
use mathlib.Core.Option.{Option, none, some}
use native.Mathlib.Omega.{arith}
use nudo.Prelude.Tests.{if◌then◌else◌, ◌==◌}
use nudo.Prelude.Lists.{length, drop, length-drop}
use nudo.Prelude.Codes.{Text, text_eq}

-- `HashMap<String, A>`
abbrev pub Table {ℓ} : Type ℓ → Type ℓ
Table A = Text → Option A

suc_add : (n m : ℕ) → suc (n + m) ≡ suc n + m
suc_add n m = omega arith

module _ {ℓ} {A : Type ℓ} where
  abbrev pub insert : Text → A → Table A → Table A
  insert key a table k = if key == k then some a else table k

  abbrev pub remove : Text → Table A → Table A
  remove key table k = if key == k then none else table k

  abbrev pub or_else : Option A → A → A
  or_else none a = a
  or_else (some b) a = b

  -- The last elements of a list, at most as many as asked for.
  abbrev pub last : ℕ → List A → List A
  last n xs = drop (length xs - n) xs

  pub drop-nil : (n : ℕ) → drop {A = A} n [] ≡ []
  drop-nil zero = refl
  drop-nil (suc n) = refl

  pub drop-drop : (m n : ℕ) (xs : List A) → drop m (drop n xs) ≡ drop (n + m) xs
  drop-drop m zero xs = ap (λ k. drop k xs) (omega arith)
  drop-drop m (suc n) [] = drop-nil m ∙ sym (drop-nil (suc n + m))
  drop-drop m (suc n) (x ∷ xs) = drop-drop m n xs ∙ ap (λ k. drop k (x ∷ xs)) (suc_add n m)

  pub drop-append : (n : ℕ) (xs ys : List A) → n ≤ length xs → drop n (xs ++ ys) ≡ drop n xs ++ ys
  drop-append zero xs ys h = refl
  drop-append (suc n) [] ys h = absurd (omega (arith, h))
  drop-append (suc n) (x ∷ xs) ys h = drop-append n xs ys (omega (arith, h))

  -- The last elements of the last elements.
  pub last-drop :
      (n m : ℕ) (xs : List A)
      → drop (length (drop n xs) - m) (drop n xs) ≡ drop (n + ((length xs - n) - m)) xs
  last-drop n m xs = rw (length-drop n xs) (drop-drop ((length xs - n) - m) n xs)
