-- ===== src/ContextRisk/Evaluate/Outcome.antt =====
-- What `evaluateContextRisk` concludes: its status, risk and exception flags, from the verdicts of
-- all the vulnerabilities and the reliability of the context.
use tpsr_v.Prelude.{
  ◌≡◌, refl, ap, ◌↔◌, Bool, not, ◌&&◌, or_else, true, false, List, [], ◌∷◌, any, arith, is, In,
  here, there,
}
use tpsr_v.ContextRisk.{
  non_blocking, review_required, blocking, Vulnerability, RiskInput, conditionally_accepted,
  exploit_of,
}
use tpsr_v.ContextRisk.{
  Exploitability, not_exploitable, is_not_exploitable, is_under_investigation,
  is_present_not_executed,
}
use tpsr_v.ContextRisk.Mitigation.{IsMitigated, exploit_of-IsMitigated}
use tpsr_v.ContextRisk.Blocking.{is_dangerous, blocks-verdict_of}
use tpsr_v.ContextRisk.Evaluate.{
  verdict, initial_state, examine, normalized, status_of, conclude, evaluate, unreliable,
  exception_applies, no_vulnerabilities,
}
use tpsr_v.ContextRisk.Evaluate.Loop.{
  vuln_blocks, vuln_asks_review, vuln_excepted, run_loop-is_blocking, run_loop-needs_review,
  run_loop-exception_needed, run_loop-rank, rank, worst_rank, worst_status,
}

-- A context that `evaluate` relies on: no conflict, valid, and present.
pub record IsReliable (input : RiskInput) : Type 0 where
  pub agrees : input.conflict ≡ false
  pub valid : input.invalid_context ≡ false
  pub present : input.missing_context ≡ false

examine-is_blocking :
    (input : RiskInput) (vs : List Vulnerability)
    → (examine input vs).is_blocking ≡ any (vuln_blocks input) vs
unfolding examine no_vulnerabilities
examine-is_blocking input [] = ground arith
examine-is_blocking input (v ∷ vs) = run_loop-is_blocking input initial_state (v ∷ vs)

examine-needs_review :
    (input : RiskInput) (vs : List Vulnerability)
    → (examine input vs).needs_review ≡ false
    → any (vuln_asks_review input) vs ≡ false
unfolding examine
examine-needs_review input [] h = refl
examine-needs_review input (v ∷ vs) h =
    ground (arith, run_loop-needs_review input initial_state (v ∷ vs))

-- In a reliable context without a class A failure, with at least one vulnerability, the status is
-- the worst that any vulnerability calls for, an exception is required exactly if some verdict
-- asks for one, and the risk has the highest rank among the verdicts, where UNKNOWN
-- ranks as LOW.
pub evaluate-worst :
    (input : RiskInput) (v : Vulnerability) (vs : List Vulnerability)
    → normalized input ≡ v ∷ vs
    → IsReliable input
    → input.class_a_failure ≡ false
    → let r = evaluate input in
      (r.policy_blocking_status
        ≡ worst_status (any (vuln_blocks input) (v ∷ vs)) (any (vuln_asks_review input) (v ∷ vs)))
      × (r.exception_required ≡ any (vuln_excepted input) (v ∷ vs))
      × (rank r.contextual_risk ≡ worst_rank input (v ∷ vs))
unfolding evaluate conclude examine status_of
evaluate-worst input v vs e ok a = ground (
  arith,
  run_loop-is_blocking input initial_state (v ∷ vs),
  run_loop-needs_review input initial_state (v ∷ vs),
  run_loop-exception_needed input initial_state (v ∷ vs),
  run_loop-rank input initial_state (v ∷ vs),
)

-- Fail closed: a status of NON_BLOCKING is given only in a reliable context, without a class A
-- failure, where no vulnerability blocks or asks for a review.
pub evaluate-non_blocking :
    (input : RiskInput)
    → (evaluate input).policy_blocking_status ≡ non_blocking
    → IsReliable input
      × (input.class_a_failure ≡ false)
      × (any (vuln_blocks input) (normalized input) ≡ false)
      × (any (vuln_asks_review input) (normalized input) ≡ false)
unfolding evaluate conclude status_of unreliable
evaluate-non_blocking input h = ground (
  arith,
  examine-is_blocking input (normalized input),
  examine-needs_review input (normalized input),
)

-- An exception contributes exactly when the context is reliable, there is no class A failure, an
-- ACTIVE exception is trusted, and some vulnerability blocks.
pub evaluate-conditionally_accepted_iff :
    (input : RiskInput)
    → ((evaluate input).exception_contribution ≡ conditionally_accepted) ↔ (
        IsReliable input
        × (input.class_a_failure ≡ false)
        × (is input.context_vector.exception_status "ACTIVE" ≡ true)
        × (input.exception_trusted ≡ true)
        × (any (vuln_blocks input) (normalized input) ≡ true))
unfolding evaluate conclude exception_applies status_of unreliable
evaluate-conditionally_accepted_iff input =
    ground (arith, examine-is_blocking input (normalized input))

not_mitigated :
    (e : Exploitability) → ¬ (e ≡ not_exploitable) → (not (is_not_exploitable e) && true) ≡ true
not_mitigated e h = ground arith

vuln_blocks_lem :
    (input : RiskInput) (v : Vulnerability)
    → is_dangerous input.context_vector (or_else v.original_severity v.severity) ≡ true
    → ¬ IsMitigated input v
    → is_under_investigation (exploit_of input v).exploitability ≡ false
    → is_present_not_executed (exploit_of input v).basis ≡ false
    → vuln_blocks input v ≡ true
unfolding vuln_blocks verdict
vuln_blocks_lem input v danger free ui pne =
    rw
      (blocks-verdict_of input.context_vector (exploit_of input v).exploitability
        (exploit_of input v).basis (or_else v.original_severity v.severity))
      (rw (danger, ui, pne) (not_mitigated _ (λ e. free ((exploit_of-IsMitigated input v).0 e))))

any-In :
    (p : Vulnerability → Bool) (v : Vulnerability) (vs : List Vulnerability)
    → In v vs
    → p v ≡ true
    → any p vs ≡ true
any-In p v [] m h = elim m [ ]
any-In p v (w ∷ vs) (here e) h = ground (arith, ap p e)
any-In p v (w ∷ vs) (there m) h = ground (arith, any-In p v vs m h)

-- No vulnerability slips through: in a reliable context that is dangerous for its severity, one that
-- is neither mitigated, nor under investigation, nor in a component that is present and not executed
-- makes the status BLOCKING, wherever it stands in the list and whatever stands beside it.
pub evaluate-blocks_dangerous :
    (input : RiskInput) (v : Vulnerability)
    → In v (normalized input)
    → IsReliable input
    → is_dangerous input.context_vector (or_else v.original_severity v.severity) ≡ true
    → ¬ IsMitigated input v
    → is_under_investigation (exploit_of input v).exploitability ≡ false
    → is_present_not_executed (exploit_of input v).basis ≡ false
    → (evaluate input).policy_blocking_status ≡ blocking
unfolding evaluate conclude status_of
evaluate-blocks_dangerous input v m ok danger free ui pne = ground (
  arith,
  examine-is_blocking input (normalized input),
  any-In (vuln_blocks input) v (normalized input) m (vuln_blocks_lem input v danger free ui pne),
)

pub evaluate-conflict :
    (input : RiskInput)
    → input.conflict ≡ true
    → (evaluate input).policy_blocking_status ≡ review_required
unfolding evaluate unreliable
evaluate-conflict input h = ground arith
