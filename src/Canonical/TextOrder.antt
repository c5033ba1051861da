-- ===== src/Canonical/TextOrder.antt =====
-- The order of texts by their characters, as `sort` has it for the keys of an object.
use Prim.Native.Nat.{compare, Ordering}
use Prim.Native.Char.{code}
use Prim.Native.String.{[], ◌∷◌}
use text.Mathlib.TextEquality.{codes_equal}
use text.Mathlib.TextPositions.{compare_self}
use tpsr_v.Prelude.{◌≡◌, refl, subst, String, Bool, true, false, ltb, arith, if◌then◌else◌}
use tpsr_v.Canonical.Sorted.{IsOrder}

unfoldable pub text_le : String → String → Bool
text_le [] t = true
text_le (c ∷ s) [] = false
text_le (c ∷ s) (d ∷ t) =
    let rest = text_le s t in
    if ltb (code c) (code d) then true else if ltb (code d) (code c) then false else rest

text_le-total : (s t : String) → text_le s t ≡ false → text_le t s ≡ true
unfolding text_le
text_le-total [] t e = ground (arith, e)
text_le-total (c ∷ s) [] e = refl
text_le-total (c ∷ s) (d ∷ t) e = ground (arith, e, text_le-total s t)

text_le-transitive : (r s t : String) → text_le r s ≡ true → text_le s t ≡ true → text_le r t ≡ true
unfolding text_le
text_le-transitive [] s t a b = refl
text_le-transitive (c ∷ r) [] t a b = ground (arith, a)
text_le-transitive (c ∷ r) (d ∷ s) [] a b = ground (arith, b)
text_le-transitive (c ∷ r) (d ∷ s) (i ∷ t) a b = ground (arith, a, b, text_le-transitive r s t)

text_le-antisymmetric : (s t : String) → text_le s t ≡ true → text_le t s ≡ true → s ≡ t
unfolding text_le
text_le-antisymmetric [] [] a b = refl
text_le-antisymmetric [] (d ∷ t) a b = ground (arith, b)
text_le-antisymmetric (c ∷ s) [] a b = ground (arith, a)
text_le-antisymmetric (c ∷ s) (d ∷ t) a b = λ i.
    codes_equal c d same_code i
    ∷ text_le-antisymmetric s t (ground (arith, a)) (ground (arith, b)) i
  where
    le : code c ≡ code d
    le = ground (arith, a, b)

    same_code : compare (code c) (code d) ≡ Ordering.eq
    same_code = subst (λ n. compare (code c) n ≡ Ordering.eq) le (compare_self (code c))

pub text_le-IsOrder : IsOrder text_le
text_le-IsOrder = record {
  total = text_le-total;
  antisymmetric = text_le-antisymmetric;
  transitive = λ r s t. text_le-transitive r s t;
}
