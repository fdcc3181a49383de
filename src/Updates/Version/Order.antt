-- ===== src/Updates/Version/Order.antt =====
-- The comparison of component lists and of whole keys is a total preorder.
use Prim.Native.Nat.{compare, Ordering}
use nudo.Prelude.{ℕ, ◌≡◌, refl, List, [], ◌∷◌, arith}
use nudo.Updates.Version.{then_with, compare_parts}

-- `Ordering::reverse`
abbrev pub flip : Ordering → Ordering
flip Ordering.lt = Ordering.gt
flip Ordering.eq = Ordering.eq
flip Ordering.gt = Ordering.lt

pub compare_parts-flip : (xs ys : List ℕ) → compare_parts ys xs ≡ flip (compare_parts xs ys)
unfolding compare_parts
compare_parts-flip [] [] = refl
compare_parts-flip (x ∷ xs) [] = ground (arith, compare_parts-flip xs [])
compare_parts-flip [] (y ∷ ys) = ground (arith, compare_parts-flip [] ys)
compare_parts-flip (x ∷ xs) (y ∷ ys) = ground (arith, compare_parts-flip xs ys)

-- What two steps down compose to: at least as far, and strictly so if one step is strict.
abbrev pub Composes : Ordering → Ordering → Ordering → Type 0
Composes Ordering.gt Ordering.gt o = o ≡ Ordering.gt
Composes Ordering.gt Ordering.eq o = o ≡ Ordering.gt
Composes Ordering.eq Ordering.gt o = o ≡ Ordering.gt
Composes Ordering.eq Ordering.eq o = o ≡ Ordering.eq
Composes Ordering.lt _ o = Unit
Composes _ Ordering.lt o = Unit

compare-Composes : (a b c : ℕ) → Composes (compare a b) (compare b c) (compare a c)
compare-Composes a b c = ground arith

pub then_with-Composes :
    (p q r p' q' r' : Ordering)
    → Composes p q r
    → Composes p' q' r'
    → Composes (then_with p p') (then_with q q') (then_with r r')
then_with-Composes p q r p' q' r' h k = ground arith

-- One component of each list, a missing one being zero.
step :
    (x y z : ℕ) (xs ys zs : List ℕ)
    → Composes (compare_parts xs ys) (compare_parts ys zs) (compare_parts xs zs)
    → Composes
        (then_with (compare x y) (compare_parts xs ys))
        (then_with (compare y z) (compare_parts ys zs))
        (then_with (compare x z) (compare_parts xs zs))
step x y z xs ys zs h =
    then_with-Composes (compare x y) (compare y z) (compare x z) (compare_parts xs ys)
      (compare_parts ys zs) (compare_parts xs zs) (compare-Composes x y z) h

pub compare_parts-Composes :
    (xs ys zs : List ℕ) → Composes (compare_parts xs ys) (compare_parts ys zs) (compare_parts xs zs)
unfolding compare_parts
compare_parts-Composes [] [] [] = refl
compare_parts-Composes [] [] (z ∷ zs) = step 0 0 z [] [] zs (compare_parts-Composes [] [] zs)
compare_parts-Composes [] (y ∷ ys) [] = step 0 y 0 [] ys [] (compare_parts-Composes [] ys [])
compare_parts-Composes [] (y ∷ ys) (z ∷ zs) = step 0 y z [] ys zs (compare_parts-Composes [] ys zs)
compare_parts-Composes (x ∷ xs) [] [] = step x 0 0 xs [] [] (compare_parts-Composes xs [] [])
compare_parts-Composes (x ∷ xs) [] (z ∷ zs) = step x 0 z xs [] zs (compare_parts-Composes xs [] zs)
compare_parts-Composes (x ∷ xs) (y ∷ ys) [] = step x y 0 xs ys [] (compare_parts-Composes xs ys [])
compare_parts-Composes (x ∷ xs) (y ∷ ys) (z ∷ zs) =
    step x y z xs ys zs (compare_parts-Composes xs ys zs)
