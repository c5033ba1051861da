-- ===== src/Prelude/Lists.antt =====
-- Lists over the native numbers, with the predicates that the components state their laws by.
use Prim.Native.Nat.{ℕ, zero, suc, ◌+◌}
use mathlib.Core.Path.{◌≡◌, ap, sym, ◌∙◌}
use mathlib.Core.Logic.{◌⊎◌, inl, inr}
use mathlib.Core.Bool.{Bool, true, false, ◌&&◌, ◌||◌}
use mathlib.Core.Option.{Option, none, some}
use mathlib.Core.List.{List, [], ◌∷◌, ◌++◌}
use native.Mathlib.Omega.{arith}
use tpsr_v.Prelude.Tests.{if◌then◌else◌, Bool-cases}

module _ {ℓ} {A : Type ℓ} where
  abbrev pub length : List A → ℕ
  length [] = 0
  length (x ∷ xs) = suc (length xs)

  abbrev pub is_empty : List A → Bool
  is_empty [] = true
  is_empty (x ∷ xs) = false

  -- `Array.prototype.some`, `every`, `filter` and `find`
  abbrev pub any : (A → Bool) → List A → Bool
  any p [] = false
  any p (x ∷ xs) = p x || any p xs

  abbrev pub all : (A → Bool) → List A → Bool
  all p [] = true
  all p (x ∷ xs) = p x && all p xs

  abbrev pub filter : (A → Bool) → List A → List A
  filter p [] = []
  filter p (x ∷ xs) = let rest = filter p xs in if p x then x ∷ rest else rest

  abbrev pub find : (A → Bool) → List A → Option A
  find p [] = none
  find p (x ∷ xs) = let rest = find p xs in if p x then some x else rest

  abbrev pub head? : List A → Option A
  head? [] = none
  head? (x ∷ xs) = some x

  abbrev pub take : ℕ → List A → List A
  take zero xs = []
  take (suc n) [] = []
  take (suc n) (x ∷ xs) = x ∷ take n xs

  pub length-append : (xs ys : List A) → length (xs ++ ys) ≡ length xs + length ys
  length-append [] ys = omega arith
  length-append (x ∷ xs) ys = omega (arith, length-append xs ys)

-- `P` holds of each element, or of some element.
module _ {ℓ κ} {A : Type ℓ} (P : A → Type κ) where
  abbrev pub All : List A → Type κ
  All [] = Unit
  All (x ∷ xs) = P x × All xs

  pub All-append : (xs ys : List A) → All xs → All ys → All (xs ++ ys)
  All-append [] ys hx hy = hy
  All-append (x ∷ xs) ys hx hy = (hx.0, All-append xs ys hx.1 hy)

module _ {ℓ} {A : Type ℓ} where
  -- Membership by position, which can be matched.
  pub data In (a : A) : List A → Type ℓ where
    here : {x : A} {xs : List A} → a ≡ x → In a (x ∷ xs)
    there : {x : A} {xs : List A} → In a xs → In a (x ∷ xs)

  pub In-append_left : {a : A} (xs ys : List A) → In a xs → In a (xs ++ ys)
  In-append_left [] ys h = elim h [ ]
  In-append_left (x ∷ xs) ys (here e) = here e
  In-append_left (x ∷ xs) ys (there h) = there (In-append_left xs ys h)

  pub In-append_right : {a : A} (xs ys : List A) → In a ys → In a (xs ++ ys)
  In-append_right [] ys h = h
  In-append_right (x ∷ xs) ys h = there (In-append_right xs ys h)

  some_eq : (a b : A) → some a ≡ some b → a ≡ b
  some_eq a b h = cc

  pub In-cons : {a x : A} {xs : List A} → In a (x ∷ xs) → (a ≡ x) ⊎ In a xs
  In-cons (here e) = inl e
  In-cons (there m) = inr m

  -- What `find` returns passes the test and is an element.
  pub find_holds : (p : A → Bool) (xs : List A) {w : A} → find p xs ≡ some w → p w ≡ true
  find_holds p [] e = cc
  find_holds p (x ∷ xs) {w} e = elim (Bool-cases (p x)) [
    | inl y ↦ ground (arith, ap p (some_eq x w (ground arith)))
    | inr n ↦ find_holds p xs (ground arith)
  ]

  pub find-In : (p : A → Bool) (xs : List A) {w : A} → find p xs ≡ some w → In w xs
  find-In p [] e = cc
  find-In p (x ∷ xs) {w} e = elim (Bool-cases (p x)) [
    | inl y ↦ here (sym (some_eq x w (ground arith)))
    | inr n ↦ there (find-In p xs (ground arith))
  ]

  pub find-none : (p : A → Bool) (xs : List A) {x : A} → find p xs ≡ none → In x xs → p x ≡ false
  find-none p [] e m = elim m [ ]
  find-none p (y ∷ xs) e (here q) = ground (arith, ap p q)
  find-none p (y ∷ xs) e (there m) = find-none p xs (ground arith) m

  pub any-In : (p : A → Bool) (xs : List A) {x : A} → In x xs → p x ≡ true → any p xs ≡ true
  any-In p [] m h = elim m [ ]
  any-In p (y ∷ xs) (here q) h = ground (arith, ap p q)
  any-In p (y ∷ xs) (there m) h = ground (arith, any-In p xs m h)

  pub filter-In : (p : A → Bool) (xs : List A) {x : A} → In x (filter p xs) → In x xs × (p x ≡ true)
  filter-In p [] m = elim m [ ]
  filter-In p (y ∷ xs) {x} m = elim (Bool-cases (p y)) [
    | inl h ↦ elim (In-cons (rw h at m)) [
      | inl e ↦ (here e, ap p e ∙ h)
      | inr n ↦ let (i, q) = filter-In p xs n in (there i, q)
    ]
    | inr h ↦ let (i, q) = filter-In p xs (rw h at m) in (there i, q)
  ]
