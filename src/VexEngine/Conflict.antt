-- ===== src/VexEngine/Conflict.antt =====
-- `resolveConflict`: the newest of the matching statements, and the gravest of those of one time. The
-- array is sorted by insertion; the order is total where each status has a rank.
use tpsr_v.Prelude.{
  ◌≡◌, refl, sym, ap, ◌∙◌, ℕ, ◌≤◌, ◌<◌, Bool, true, false, not, ◌&&◌, ◌||◌, Option, none, some,
  List, [], ◌∷◌, In, here, there, In-cons, or_text, text_eq, head?, inl, inr, Bool-cases, arith,
  subst, if◌then◌else◌, ltb, ◌==◌,
}
use tpsr_v.Evidence.{invalid_date, at}
use tpsr_v.VexEngine.{Statement}

-- `new Date(a.timestamp).getTime()`, or 0
unfoldable pub time_in : Statement → ℕ
time_in s = elim s.timestamp [ none ↦ 0 | some d ↦ elim d [ invalid_date ↦ 0 | at t ↦ t ] ]

-- `rank[status || 'not_affected']`; 0 stands for no rank, with which a comparison counts as equal.
unfoldable pub rank : Statement → ℕ
rank s =
    let status = or_text s.status "not_affected" in
    if text_eq status "affected"
    then 4
    else if text_eq status "under_investigation"
    then 3
    else if text_eq status "fixed"
    then 2
    else if text_eq status "not_affected"
    then 1
    else 0

-- Whether the comparison puts `a` before `b`.
unfoldable pub before : Statement → Statement → Bool
before a b =
    ltb (time_in b) (time_in a)
    || time_in a == time_in b && not (rank a == 0) && ltb (rank b) (rank a) && not (rank b == 0)

unfoldable pub insert : Statement → List Statement → List Statement
insert s [] = s ∷ []
insert s (x ∷ xs) = let rest = insert s xs in if before s x then s ∷ x ∷ xs else x ∷ rest

unfoldable pub sort_from : List Statement → List Statement → List Statement
sort_from sorted [] = sorted
sort_from sorted (s ∷ ss) = sort_from (insert s sorted) ss

-- `resolveConflict`
unfoldable pub resolve_conflict : List Statement → Option Statement
resolve_conflict ss = head? (sort_from [] ss)

-- The head of the sorted list is the best so far.
best : Statement → List Statement → Statement
best x [] = x
best x (s ∷ ss) = best (if before s x then s else x) ss

head-sort_from :
    (x : Statement) (xs ss : List Statement) → head? (sort_from (x ∷ xs) ss) ≡ some (best x ss)
unfolding best sort_from insert
head-sort_from x xs [] = refl
head-sort_from x xs (s ∷ ss) = elim (Bool-cases (before s x)) [
  | inl y ↦ rw (y, insert) (head-sort_from s (x ∷ xs) ss)
  | inr n ↦ rw (n, insert) (head-sort_from x (insert s xs) ss)
]

resolve-best : (s : Statement) (ss : List Statement) → resolve_conflict (s ∷ ss) ≡ some (best s ss)
unfolding resolve_conflict sort_from insert
resolve-best s ss = head-sort_from s [] ss

best-In : (x : Statement) (ss : List Statement) → In (best x ss) (x ∷ ss)
unfolding best
best-In x [] = here refl
best-In x (s ∷ ss) = elim (Bool-cases (before s x)) [
  | inl y ↦ rw y (there (best-In s ss))
  | inr n ↦ rw n (elim (In-cons (best-In x ss)) [ inl e ↦ here e | inr m ↦ there (there m) ])
]

-- `a` is not newer than `b`, and not graver than a statement of the same time.
pub record AtMost (a b : Statement) : Type 0 where
  pub older : time_in a ≤ time_in b
  pub milder : time_in a ≡ time_in b → rank a ≤ rank b

AtMost-refl : (a : Statement) → AtMost a a
AtMost-refl a = record { older = omega arith; milder = λ e. omega arith }

AtMost-trans : (a b c : Statement) → AtMost a b → AtMost b c → AtMost a c
AtMost-trans a b c h k = record {
  older = omega arith;
  milder = λ e. omega (arith, h.milder (omega arith), k.milder (omega arith));
}

before-AtMost : (a b : Statement) → 0 < rank a → 0 < rank b → before a b ≡ true → AtMost b a
unfolding before
before-AtMost a b p q h = record { older = ground arith; milder = λ e. ground arith }

not_before-AtMost : (a b : Statement) → 0 < rank a → 0 < rank b → before a b ≡ false → AtMost a b
unfolding before
not_before-AtMost a b p q h = record { older = ground arith; milder = λ e. ground arith }

choice-AtMost :
    (x s : Statement)
    → 0 < rank x
    → 0 < rank s
    → (0 < rank (if before s x then s else x))
      × AtMost x (if before s x then s else x)
      × AtMost s (if before s x then s else x)
choice-AtMost x s p q = elim (Bool-cases (before s x)) [
  | inl y ↦ rw y (q, before-AtMost s x q p y, AtMost-refl s)
  | inr n ↦ rw n (p, AtMost-refl x, not_before-AtMost s x q p n)
]

best-AtMost :
    (x : Statement) (ss : List Statement)
    → 0 < rank x
    → ((s : Statement) → In s ss → 0 < rank s)
    → (s : Statement) → In s (x ∷ ss)
    → AtMost s (best x ss)
unfolding best
best-AtMost x [] p q s (here e) = subst (λ y. AtMost y x) (sym e) (AtMost-refl x)
best-AtMost x [] p q s (there m) = elim m [ ]
best-AtMost x (y ∷ ss) p q s m =
    let (r, a, b) = choice-AtMost x y p (q y (here refl)) in
    let z : Statement = if before y x then y else x in
    let rest = best-AtMost z ss r (λ t k. q t (there k)) in
    elim m [
      | here e ↦
          subst (λ t. AtMost t (best z ss)) (sym e)
            (AtMost-trans x z (best z ss) a (rest z (here refl)))
      | there k ↦ elim (In-cons k) [
        | inl e ↦
            subst (λ t. AtMost t (best z ss)) (sym e)
              (AtMost-trans y z (best z ss) b (rest z (here refl)))
        | inr j ↦ rest s (there j)
      ]
    ]

some_statement : (a b : Statement) → some a ≡ some b → a ≡ b
some_statement a b e = ap (λ o. elim o [ none ↦ a | some x ↦ x ]) e

pub resolve_conflict-In :
    (ss : List Statement) {w : Statement} → resolve_conflict ss ≡ some w → In w ss
unfolding resolve_conflict sort_from
resolve_conflict-In [] e = absurd (ground arith)
resolve_conflict-In (s ∷ ss) {w} e =
    subst (λ x. In x (s ∷ ss)) (some_statement _ w (sym (resolve-best s ss) ∙ e)) (best-In s ss)

-- Of statements that all have a status with a rank, the one that is chosen is among them, none of the
-- others is newer, and none of the same time is graver.
pub resolve_conflict-AtMost :
    (ss : List Statement) {w : Statement}
    → ((s : Statement) → In s ss → 0 < rank s)
    → resolve_conflict ss ≡ some w
    → In w ss × ((s : Statement) → In s ss → AtMost s w)
unfolding resolve_conflict sort_from
resolve_conflict-AtMost [] r e = absurd (ground arith)
resolve_conflict-AtMost (s ∷ ss) {w} r e = (
  resolve_conflict-In (s ∷ ss) e,
  λ t m.
      subst (AtMost t) (some_statement _ w (sym (resolve-best s ss) ∙ e))
        (best-AtMost s ss (r s (here refl)) (λ u k. r u (there k)) t m),
)
