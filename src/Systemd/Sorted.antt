-- ===== src/Systemd/Sorted.antt =====
-- `sorted`: the entries of a map by key. Strings compare by bytes, which for UTF-8 is by code points.
use Prim.Native.Nat.{compare, Ordering}
use nudo.Prelude.{Bool, true, false, List, [], ◌∷◌, Text, if◌then◌else◌}

-- `str::cmp` in the form of its test for less or equal.
unfoldable pub text_le : Text → Text → Bool
text_le [] t = true
text_le (c ∷ s) [] = false
text_le (c ∷ s) (d ∷ t) = elim (compare c d) [
  | Ordering.lt ↦ true
  | Ordering.eq ↦ text_le s t
  | Ordering.gt ↦ false
]

insert : Text × Text → List (Text × Text) → List (Text × Text)
unfolding text_le
insert e [] = e ∷ []
insert e (f ∷ fs) = let rest = insert e fs in if text_le e.0 f.0 then e ∷ f ∷ fs else f ∷ rest

unfoldable pub sorted : List (Text × Text) → List (Text × Text)
unfolding insert
sorted [] = []
sorted (e ∷ es) = insert e (sorted es)
