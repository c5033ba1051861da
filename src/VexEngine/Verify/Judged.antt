-- ===== src/VexEngine/Verify/Judged.antt =====
-- What `judge` makes of a statement, and which statements match.
use tpsr_v.Prelude.{
  ◌≡◌, refl, ◌⊎◌, inl, inr, ℕ, true, Option, List, [], ◌∷◌, In, here, there, In-cons, is,
  Bool-cases, arith, if-holds_given,
}
use tpsr_v.Evidence.{Date}
use tpsr_v.VexEngine.{Statement, VexPolicy, Target, accepts, stamped, matching}
use tpsr_v.VexEngine.Verify.{
  blocking, non_blocking, Result, with_code, accepted, is_justified, judge,
}

-- What `judge` makes of a statement.
abbrev pub Mitigates : VexPolicy → Statement → Result → Type 0
Mitigates p s r =
    r.blocking_status ≡ non_blocking
    → ((is s.status "not_affected" ≡ true) × (is_justified p s ≡ true))
      ⊎ (is s.status "fixed" ≡ true)

pub judge-Mitigates :
    (p : VexPolicy) (s : Statement) (r : Result)
    → r.blocking_status ≡ blocking
    → Mitigates p s (judge p s r)
unfolding judge accepted with_code
judge-Mitigates p s r b =
    if-holds_given (Mitigates p s) (is s.status "not_affected") _ _
      (λ y.
        if-holds_given (Mitigates p s) (is_justified p s) _ _ (λ j k. inl (y, j))
          (λ j k. absurd (ground arith)))
      (λ n.
        if-holds_given (Mitigates p s) (is s.status "under_investigation") _ _
          (λ y k. absurd (ground arith))
          (λ n.
            if-holds_given (Mitigates p s) (is s.status "affected") _ _
              (λ y k. absurd (ground arith))
              (λ n.
                if-holds_given (Mitigates p s) (is s.status "fixed") _ _ (λ y k. inr y)
                  (λ n k. absurd (ground arith)))))

pub status-judge : (p : VexPolicy) (s : Statement) (r : Result) → (judge p s r).status ≡ r.status
unfolding judge accepted with_code
status-judge p s r = ground arith

pub matching-In :
    (p : VexPolicy) (now : ℕ) (target : Option Target) (global : Option Date) (ss : List Statement)
    {w : Statement}
    → In w (matching p now target global ss)
    → (s : Statement) × In s ss × (accepts p now target global s ≡ true) × (w ≡ stamped global s)
unfolding matching
matching-In p now target global [] m = elim m [ ]
matching-In p now target global (s ∷ ss) {w} m = elim (Bool-cases (accepts p now target global s)) [
  | inl y ↦ elim (In-cons (rw y at m)) [
    | inl e ↦ (s, here refl, y, e)
    | inr k ↦ let (t, i, a, q) = matching-In p now target global ss k in (t, there i, a, q)
  ]
  | inr n ↦ let (t, i, a, q) = matching-In p now target global ss (rw n at m) in (t, there i, a, q)
]
