-- ===== src/ContextRisk/Evaluate/Loop.antt =====
-- What the loop of `evaluateContextRisk` computes from the verdicts, in any order of the
-- vulnerabilities.
use Prim.Native.Nat.{max}
use mathlib.Core.Bool.{Bool-set}
use mathlib.Core.List.{Perm, Permᴰ}
use mathlib.Core.Logic.{∥∥₁_elim}
use native.Mathlib.Nat.{ℕ_set}
use tpsr_v.Prelude.{◌≡◌, refl, ap, ◌∙◌, ℕ, Bool, ◌||◌, List, [], ◌∷◌, any, arith, if◌then◌else◌}
use tpsr_v.ContextRisk.{
  BlockingStatus, non_blocking, review_required, blocking, Risk, high, critical, unknown_risk,
  Vulnerability, RiskInput, exploit_of,
}
use tpsr_v.ContextRisk.Evaluate.{
  blocks, asks_review, verdict, raise_risk, LoopState, round, run_loop,
}

-- What each vulnerability contributes.
unfoldable pub vuln_blocks : RiskInput → Vulnerability → Bool
vuln_blocks input v = blocks (verdict input v).block

unfoldable pub vuln_asks_review : RiskInput → Vulnerability → Bool
vuln_asks_review input v = (exploit_of input v).review || asks_review (verdict input v).block

unfoldable pub vuln_excepted : RiskInput → Vulnerability → Bool
vuln_excepted input v = (verdict input v).exception

module _ (input : RiskInput) where
  pub run_loop-is_blocking :
      (s : LoopState) (vs : List Vulnerability)
      → (run_loop input s vs).is_blocking ≡ (s.is_blocking || any (vuln_blocks input) vs)
  unfolding run_loop round vuln_blocks
  run_loop-is_blocking s [] = ground arith
  run_loop-is_blocking s (v ∷ vs) = ground (arith, run_loop-is_blocking (round input s v) vs)

  pub run_loop-needs_review :
      (s : LoopState) (vs : List Vulnerability)
      → (run_loop input s vs).needs_review ≡ (s.needs_review || any (vuln_asks_review input) vs)
  unfolding run_loop round vuln_asks_review
  run_loop-needs_review s [] = ground arith
  run_loop-needs_review s (v ∷ vs) = ground (arith, run_loop-needs_review (round input s v) vs)

  pub run_loop-exception_needed :
      (s : LoopState) (vs : List Vulnerability)
      → (run_loop input s vs).exception_needed
        ≡ (s.exception_needed || any (vuln_excepted input) vs)
  unfolding run_loop round vuln_excepted
  run_loop-exception_needed s [] = ground arith
  run_loop-exception_needed s (v ∷ vs) =
      ground (arith, run_loop-exception_needed (round input s v) vs)

-- The rank of a risk, and the highest rank among the verdicts.
abbrev pub rank : Risk → ℕ
rank critical = 2
rank high = 1
rank _ = 0

abbrev pub worst_rank : RiskInput → List Vulnerability → ℕ
worst_rank input [] = 0
worst_rank input (v ∷ vs) = max (rank (verdict input v).risk) (worst_rank input vs)

-- A test for any element does not depend on the order.
any-Permᴰ {ℓ} : {A : Type ℓ} (p : A → Bool) {xs ys : List A} → Permᴰ xs ys → any p xs ≡ any p ys
any-Permᴰ p Permᴰ.nil = refl
any-Permᴰ p (Permᴰ.cons {l₁} e h) = cc (ap p e, any-Permᴰ p h)
any-Permᴰ p (Permᴰ.swap {a} {b} {a'} {b'} e f) = ground (arith, ap p e, ap p f)
any-Permᴰ p (Permᴰ.trans h k) = any-Permᴰ p h ∙ any-Permᴰ p k

worst_rank-Permᴰ :
    (input : RiskInput) {xs ys : List Vulnerability}
    → Permᴰ xs ys
    → worst_rank input xs ≡ worst_rank input ys
worst_rank-Permᴰ input Permᴰ.nil = refl
worst_rank-Permᴰ input (Permᴰ.cons e h) =
    cc (ap (λ v. rank (verdict input v).risk) e, worst_rank-Permᴰ input h)
worst_rank-Permᴰ input (Permᴰ.swap e f) =
    omega (arith, ap (λ v. rank (verdict input v).risk) e, ap (λ v. rank (verdict input v).risk) f)
worst_rank-Permᴰ input (Permᴰ.trans h k) = worst_rank-Permᴰ input h ∙ worst_rank-Permᴰ input k

pub any-perm {ℓ} : {A : Type ℓ} (p : A → Bool) {xs ys : List A} → Perm xs ys → any p xs ≡ any p ys
any-perm p h = ∥∥₁_elim h (Bool-set _ _) (any-Permᴰ p)

pub worst_rank-perm :
    (input : RiskInput) {xs ys : List Vulnerability}
    → Perm xs ys
    → worst_rank input xs ≡ worst_rank input ys
worst_rank-perm input h = ∥∥₁_elim h (ℕ_set _ _) (worst_rank-Permᴰ input)

-- `highest_risk` is never `unknown_risk`.
abbrev pub IsRanked : Risk → Type 0
IsRanked unknown_risk = ⊥
IsRanked _ = Unit

raise_risk-rank : (a b : Risk) → rank (raise_risk a b) ≡ max (rank a) (rank b)
unfolding raise_risk
raise_risk-rank a b = ground arith

raise_risk-IsRanked : (a b : Risk) → IsRanked a → IsRanked (raise_risk a b)
unfolding raise_risk
raise_risk-IsRanked a b h = ground arith

pub rank_injective : (a b : Risk) → IsRanked a → IsRanked b → rank a ≡ rank b → a ≡ b
rank_injective a b h k e = ground arith

-- The status that the verdicts call for: the worst one.
abbrev pub worst_status : Bool → Bool → BlockingStatus
worst_status blocked asked =
    if blocked then blocking else if asked then review_required else non_blocking

module _ (input : RiskInput) where
  pub run_loop-rank :
      (s : LoopState) (vs : List Vulnerability)
      → rank (run_loop input s vs).highest_risk ≡ max (rank s.highest_risk) (worst_rank input vs)
  unfolding run_loop round
  run_loop-rank s [] = omega arith
  run_loop-rank s (v ∷ vs) = omega (
    arith,
    run_loop-rank (round input s v) vs,
    raise_risk-rank s.highest_risk (verdict input v).risk,
  )

  pub run_loop-IsRanked :
      (s : LoopState) (vs : List Vulnerability)
      → IsRanked s.highest_risk
      → IsRanked (run_loop input s vs).highest_risk
  unfolding run_loop round
  run_loop-IsRanked s [] h = h
  run_loop-IsRanked s (v ∷ vs) h =
      run_loop-IsRanked (round input s v) vs
        (raise_risk-IsRanked s.highest_risk (verdict input v).risk h)
