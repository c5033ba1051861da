-- ===== src/ContextRisk/Evaluate/Order.antt =====
-- `evaluateContextRisk` does not depend on the order in which the vulnerabilities are listed.
use mathlib.Core.List.{Perm}
use tpsr_v.Prelude.{◌≡◌, refl, true, some, List, [], ◌∷◌, arith}
use tpsr_v.ContextRisk.{Vulnerability, RiskInput, exploit_of}
use tpsr_v.ContextRisk.Evaluate.{
  verdict, initial_state, examine, normalized, status_of, conclude, evaluate, unreliable, round,
  exception_applies, no_vulnerabilities, LoopState, run_loop,
}
use tpsr_v.ContextRisk.Evaluate.Loop.{
  vuln_blocks, vuln_asks_review, vuln_excepted, run_loop-is_blocking, run_loop-needs_review,
  run_loop-exception_needed, run_loop-rank, any-perm, worst_rank-perm, rank_injective,
  run_loop-IsRanked,
}

-- What the rest of the function reads of the loop's state, apart from its codes.
record SameOutcome (s t : LoopState) : Type 0 where
  same_blocking : s.is_blocking ≡ t.is_blocking
  same_review : s.needs_review ≡ t.needs_review
  same_exception : s.exception_needed ≡ t.exception_needed
  same_risk : s.highest_risk ≡ t.highest_risk

run_loop-perm :
    (input : RiskInput) (vs ws : List Vulnerability)
    → Perm vs ws
    → SameOutcome (run_loop input initial_state vs) (run_loop input initial_state ws)
run_loop-perm input vs ws h = record {
  same_blocking = ground (
    arith,
    run_loop-is_blocking input initial_state vs,
    run_loop-is_blocking input initial_state ws,
    any-perm (vuln_blocks input) h,
  );
  same_review = ground (
    arith,
    run_loop-needs_review input initial_state vs,
    run_loop-needs_review input initial_state ws,
    any-perm (vuln_asks_review input) h,
  );
  same_exception = ground (
    arith,
    run_loop-exception_needed input initial_state vs,
    run_loop-exception_needed input initial_state ws,
    any-perm (vuln_excepted input) h,
  );
  same_risk =
      rank_injective _ _ (run_loop-IsRanked input initial_state vs tt)
        (run_loop-IsRanked input initial_state ws tt)
        (omega (
          arith,
          run_loop-rank input initial_state vs,
          run_loop-rank input initial_state ws,
          worst_rank-perm input h,
        ));
}

examine-perm :
    (input : RiskInput) (vs ws : List Vulnerability)
    → Perm vs ws
    → SameOutcome (examine input vs) (examine input ws)
unfolding examine
examine-perm input [] [] h = ground arith
examine-perm input [] (w ∷ ws) h = cc (any-perm (λ (v : Vulnerability). true) h)
examine-perm input (v ∷ vs) [] h = cc (any-perm (λ (v : Vulnerability). true) h)
examine-perm input (v ∷ vs) (w ∷ ws) h = ground (arith, run_loop-perm input (v ∷ vs) (w ∷ ws) h)

-- The list of vulnerabilities is read nowhere else.
abbrev with_list : RiskInput → List Vulnerability → RiskInput
with_list input vs = record input { vulnerabilities = some vs }

run_loop-with_list :
    (input : RiskInput) (us : List Vulnerability) (s : LoopState) (vs : List Vulnerability)
    → run_loop (with_list input us) s vs ≡ run_loop input s vs
unfolding run_loop round verdict exploit_of
run_loop-with_list input us s [] = refl
run_loop-with_list input us s (v ∷ vs) = run_loop-with_list input us (round input s v) vs

examine-with_list :
    (input : RiskInput) (us vs : List Vulnerability)
    → examine (with_list input us) vs ≡ examine input vs
unfolding examine no_vulnerabilities
examine-with_list input us [] = refl
examine-with_list input us (v ∷ vs) = cc (run_loop-with_list input us initial_state (v ∷ vs))

-- Listing the vulnerabilities in another order changes neither the blocking status, nor the risk,
-- nor whether an exception is required, nor whether one contributes.
pub evaluate-perm :
    (input : RiskInput) (vs ws : List Vulnerability)
    → Perm vs ws
    → let r = evaluate (record input { vulnerabilities = some vs }) in
      let q = evaluate (record input { vulnerabilities = some ws }) in
      (r.policy_blocking_status ≡ q.policy_blocking_status)
      × (r.contextual_risk ≡ q.contextual_risk)
      × (r.exception_required ≡ q.exception_required)
      × (r.exception_contribution ≡ q.exception_contribution)
unfolding evaluate conclude status_of exception_applies unreliable normalized
evaluate-perm input vs ws h = ground (
  arith,
  examine-with_list input vs vs,
  examine-with_list input ws ws,
  examine-perm input vs ws h,
)
