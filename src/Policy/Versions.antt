-- ===== src/Policy/Versions.antt =====
-- `compareVersions` of api/src/utils/policy.js is an order on versions in which missing parts count
-- as 0.
use Prim.Native.Nat.{Ordering}
use tpsr_v.Prelude.{
  ◌≡◌, refl, ap, ◌∙◌, ◌↔◌, ◌⊎◌, inl, inr, ◌<◌, ℕ, zero, suc, List, [], ◌∷◌, arith, ltb, ltb→lt,
  Bool-cases,
}
use native.Mathlib.Decide.{dec_lt}
use tpsr_v.Policy.{compare_parts}

-- The part at a position, 0 beyond the end.
abbrev pub part : List ℕ → ℕ → ℕ
part [] i = 0
part (p ∷ ps) zero = p
part (p ∷ ps) (suc i) = part ps i

abbrev pub flip : Ordering → Ordering
flip Ordering.lt = Ordering.gt
flip Ordering.eq = Ordering.eq
flip Ordering.gt = Ordering.lt

-- Swapping the versions flips the result.
pub compare_parts-flip : (a b : List ℕ) → compare_parts b a ≡ flip (compare_parts a b)
unfolding compare_parts
compare_parts-flip [] [] = refl
compare_parts-flip [] (q ∷ qs) = ground (arith, compare_parts-flip [] qs)
compare_parts-flip (p ∷ ps) [] = ground (arith, compare_parts-flip ps [])
compare_parts-flip (p ∷ ps) (q ∷ qs) = ground (arith, compare_parts-flip ps qs)

-- One sequence of parts is below another: at the first position where they differ its part is the
-- smaller one.
abbrev pub Below : (ℕ → ℕ) → (ℕ → ℕ) → Type 0
Below f g = (i : ℕ) × (f i < g i) × ((j : ℕ) → j < i → f j ≡ g j)

Below-here : (f g : ℕ → ℕ) → f 0 < g 0 → Below f g
Below-here f g h = (0, h, λ j l. absurd (omega arith))

Below-next : (f g : ℕ → ℕ) → f 0 ≡ g 0 → Below (λ i. f (suc i)) (λ i. g (suc i)) → Below f g
Below-next f g e (i, h, k) = (suc i, h, go)
  where
    go : (j : ℕ) → j < suc i → f j ≡ g j
    go zero l = e
    go (suc j) l = k j (omega arith)

Below-cases :
    (f g : ℕ → ℕ)
    → Below f g
    → (f 0 < g 0) ⊎ ((f 0 ≡ g 0) × Below (λ i. f (suc i)) (λ i. g (suc i)))
Below-cases f g (zero, h, k) = inl h
Below-cases f g (suc i, h, k) = inr (k 0 (omega arith), (i, h, λ j l. k (suc j) (omega arith)))

compare_parts-Below : (a b : List ℕ) → compare_parts a b ≡ Ordering.lt → Below (part a) (part b)
unfolding compare_parts
compare_parts-Below [] [] h = cc
compare_parts-Below [] (q ∷ qs) h = elim (Bool-cases (ltb 0 q)) [
  | inl y ↦ Below-here _ _ (ltb→lt 0 q y)
  | inr n ↦
      Below-next (part []) (part (q ∷ qs)) (ground arith) (compare_parts-Below [] qs (ground arith))
]
compare_parts-Below (p ∷ ps) [] h = elim (Bool-cases (ltb 0 p)) [
  | inl y ↦ ground arith
  | inr n ↦
      Below-next (part (p ∷ ps)) (part []) (ground arith) (compare_parts-Below ps [] (ground arith))
]
compare_parts-Below (p ∷ ps) (q ∷ qs) h = elim (Bool-cases (ltb p q)) [
  | inl y ↦ Below-here _ _ (ltb→lt p q y)
  | inr n ↦
      Below-next (part (p ∷ ps)) (part (q ∷ qs)) (ground arith)
        (compare_parts-Below ps qs (ground arith))
]

Below-compare_parts : (a b : List ℕ) → Below (part a) (part b) → compare_parts a b ≡ Ordering.lt
unfolding compare_parts
Below-compare_parts [] [] (i, h, k) = absurd (omega arith)
Below-compare_parts [] (q ∷ qs) h = elim (Below-cases (part []) (part (q ∷ qs)) h) [
  | inl l ↦ ground arith
  | inr (e, t) ↦ ground (arith, Below-compare_parts [] qs t)
]
Below-compare_parts (p ∷ ps) [] h = elim (Below-cases (part (p ∷ ps)) (part []) h) [
  | inl l ↦ absurd (omega arith)
  | inr (e, t) ↦ ground (arith, Below-compare_parts ps [] t)
]
Below-compare_parts (p ∷ ps) (q ∷ qs) h = elim (Below-cases (part (p ∷ ps)) (part (q ∷ qs)) h) [
  | inl l ↦ ground arith
  | inr (e, t) ↦ ground (arith, Below-compare_parts ps qs t)
]

-- The first version is below the second exactly when, at the first position where they differ, its
-- part is the smaller one; a missing part counts as 0.
pub compare_parts-lt_iff :
    (a b : List ℕ) → (compare_parts a b ≡ Ordering.lt) ↔ Below (part a) (part b)
compare_parts-lt_iff a b = (compare_parts-Below a b, Below-compare_parts a b)

Below-trans : (f g h : ℕ → ℕ) → Below f g → Below g h → Below f h
Below-trans f g h (i, a, k) (j, b, l) = elim (dec_lt i j) [
  | yes p ↦ (i, omega (arith, l i p), λ n m. k n m ∙ l n (omega arith))
  | no p ↦ elim (dec_lt j i) [
    | yes q ↦ (j, omega (arith, k j q), λ n m. k n (omega arith) ∙ l n m)
    | no q ↦
        let e : i ≡ j = omega arith in
        (i, omega (arith, ap g e, ap h e), λ n m. k n m ∙ l n (omega arith))
  ]
]

-- The order is transitive, so a minimum safe version splits the versions into two ranges.
pub compare_parts_trans :
    (a b c : List ℕ)
    → compare_parts a b ≡ Ordering.lt
    → compare_parts b c ≡ Ordering.lt
    → compare_parts a c ≡ Ordering.lt
compare_parts_trans a b c h k =
    Below-compare_parts a c (
      Below-trans (part a) (part b) (part c) (compare_parts-Below a b h)
        (compare_parts-Below b c k))
