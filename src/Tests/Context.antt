-- ===== src/Tests/Context.antt =====
-- The evaluation of the contextual risk (`evaluateContextRisk`).
use tpsr_v.Prelude.{
  ◌≡◌, inl, inr, text_eq_iff, refl, String, true, false, none, some, List, [], ◌∷◌, any, In, here,
  text_eq, is, truthy, or_text, or_else, same_text, includes, arith,
}
use mathlib.Core.List.{Perm, Permᴰ}
use tpsr_v.ContextRisk.{
  RiskInput, Vulnerability, exploit_of, verdict_of, non_blocking, review_required, blocking,
  is_under_investigation, is_present_not_executed,
}
use tpsr_v.ContextRisk.Blocking.{is_dangerous}
use tpsr_v.ContextRisk.Mitigation.{IsMitigated}
use tpsr_v.ContextRisk.Evaluate.{
  normalized, round, run_loop, no_vulnerabilities, examine, unreliable, status_of,
  exception_applies, conclude, evaluate, evaluate_context_risk, raise_risk, verdict,
}
use tpsr_v.ContextRisk.Evaluate.Loop.{
  vuln_blocks, vuln_asks_review, vuln_excepted, rank, worst_rank, worst_status,
}
use tpsr_v.ContextRisk.Evaluate.Outcome.{
  IsReliable, evaluate-worst, evaluate-non_blocking, evaluate-blocks_dangerous,
}
use tpsr_v.ContextRisk.Evaluate.Order.{evaluate-perm}
use tpsr_v.Tests.Inputs.{vulnerable, minor, exposed, blocking_input, quiet_input}

quiet_run : (evaluate quiet_input).policy_blocking_status ≡ non_blocking
unfolding evaluate round run_loop no_vulnerabilities examine unreliable status_of exception_applies
    conclude raise_risk verdict exploit_of verdict_of text_eq is truthy or_text or_else same_text
    includes normalized
quiet_run = refl

-- No input is a review.
input_run : (evaluate_context_risk none).policy_blocking_status ≡ review_required
unfolding evaluate_context_risk
input_run = refl

blocking-IsReliable : IsReliable blocking_input
blocking-IsReliable = record { agrees = refl; valid = refl; present = refl }

blocking_list : normalized blocking_input ≡ vulnerable ∷ minor ∷ []
unfolding normalized
blocking_list = refl

vulnerable_listed : In vulnerable (normalized blocking_input)
unfolding normalized
vulnerable_listed = here refl

exposed_dangerous :
    is_dangerous exposed (or_else vulnerable.original_severity vulnerable.severity) ≡ true
unfolding is or_else truthy
exposed_dangerous = refl

differ : (s : String) → or_text none "UNKNOWN" ≡ s → text_eq "UNKNOWN" s ≡ false → ⊥
unfolding or_text text_eq
differ s e n = ground (arith, (text_eq_iff "UNKNOWN" s).1 e)

unmitigated : ¬ IsMitigated blocking_input vulnerable
unfolding text_eq
unmitigated h = elim h [
  | inl (a, b, c, d) ↦ differ "NOT_AFFECTED" a refl
  | inr (a, b, c, d) ↦ differ "NOT_PRESENT" c refl
]

not_investigated :
    is_under_investigation (exploit_of blocking_input vulnerable).exploitability ≡ false
unfolding exploit_of text_eq or_text
not_investigated = refl

executed : is_present_not_executed (exploit_of blocking_input vulnerable).basis ≡ false
unfolding exploit_of text_eq or_text
executed = refl

evaluate-worst_example :
    ((evaluate blocking_input).policy_blocking_status
      ≡ worst_status
          (any (vuln_blocks blocking_input) (vulnerable ∷ minor ∷ []))
          (any (vuln_asks_review blocking_input) (vulnerable ∷ minor ∷ [])))
    × ((evaluate blocking_input).exception_required
        ≡ any (vuln_excepted blocking_input) (vulnerable ∷ minor ∷ []))
    × (rank (evaluate blocking_input).contextual_risk
        ≡ worst_rank blocking_input (vulnerable ∷ minor ∷ []))
evaluate-worst_example =
    evaluate-worst blocking_input vulnerable (minor ∷ []) blocking_list blocking-IsReliable refl

evaluate-non_blocking_example :
    IsReliable quiet_input
    × (quiet_input.class_a_failure ≡ false)
    × (any (vuln_blocks quiet_input) (normalized quiet_input) ≡ false)
    × (any (vuln_asks_review quiet_input) (normalized quiet_input) ≡ false)
evaluate-non_blocking_example = evaluate-non_blocking quiet_input quiet_run

evaluate-blocks_dangerous_example : (evaluate blocking_input).policy_blocking_status ≡ blocking
evaluate-blocks_dangerous_example =
    evaluate-blocks_dangerous blocking_input vulnerable vulnerable_listed blocking-IsReliable
      exposed_dangerous unmitigated not_investigated executed

swapped : Perm (vulnerable ∷ minor ∷ []) (minor ∷ vulnerable ∷ [])
swapped = ∣ Permᴰ.swap refl refl ∣₁

abbrev listing : List Vulnerability → RiskInput
listing vs = record blocking_input { vulnerabilities = some vs }

evaluate-perm_example :
    ((evaluate (listing (vulnerable ∷ minor ∷ []))).policy_blocking_status
      ≡ (evaluate (listing (minor ∷ vulnerable ∷ []))).policy_blocking_status)
    × ((evaluate (listing (vulnerable ∷ minor ∷ []))).contextual_risk
        ≡ (evaluate (listing (minor ∷ vulnerable ∷ []))).contextual_risk)
    × ((evaluate (listing (vulnerable ∷ minor ∷ []))).exception_required
        ≡ (evaluate (listing (minor ∷ vulnerable ∷ []))).exception_required)
    × ((evaluate (listing (vulnerable ∷ minor ∷ []))).exception_contribution
        ≡ (evaluate (listing (minor ∷ vulnerable ∷ []))).exception_contribution)
evaluate-perm_example =
    evaluate-perm blocking_input (vulnerable ∷ minor ∷ []) (minor ∷ vulnerable ∷ []) swapped
