-- ===== src/ContextRisk/Evaluate.antt =====
-- `evaluateContextRisk` of api/src/utils/contextRiskEngine.js: the loop and what follows it.
pub mod Loop
pub mod Outcome
pub mod Order
use tpsr_v.Prelude.{
  ◌≡◌, arith, String, Bool, true, false, not, ◌&&◌, ◌||◌, Option, none, some, List, [], ◌∷◌, ◌++◌,
  is, truthy, or_else, if◌then◌else◌,
}
use tpsr_v.ContextRisk.{
  not_evaluated, verified_trusted, conflicting, invalid, missing, AssuranceState, Exploitability,
  unknown, Basis, by_default, Risk, low, high, critical, unknown_risk, BlockingStatus, non_blocking,
  review_required, blocking, no_contribution, conditionally_accepted, Vulnerability, ContextVector,
  RiskInput, RiskResult, add, add_if, exploit_of, Verdict, verdict_of,
}

abbrev flatten_components : List (Option (List Vulnerability)) → List Vulnerability
flatten_components [] = []
flatten_components (none ∷ cs) = flatten_components cs
flatten_components (some vs ∷ cs) = vs ++ flatten_components cs

-- `normalizedVulnerabilities`
unfoldable pub normalized : RiskInput → List Vulnerability
normalized input = elim input.vulnerabilities [
  | some vs ↦ vs
  | none ↦ elim input.vulns [
    | some vs ↦ vs
    | none ↦ elim input.vulnerability [
      | some v ↦ v ∷ []
      | none ↦ elim input.sbom_components [ some cs ↦ flatten_components cs | none ↦ [] ]
    ]
  ]
]

pub normalized-some :
    (input : RiskInput) (vs : List Vulnerability)
    → input.vulnerabilities ≡ some vs
    → normalized input ≡ vs
unfolding normalized
normalized-some input vs e = ground arith

-- The variables that the loop updates.
pub record LoopState : Type 0 where
  pub highest_risk : Risk
  pub is_blocking : Bool
  pub needs_review : Bool
  pub exception_needed : Bool
  pub triggered : List String
  pub reasons : List String
  pub exploitability : Exploitability
  pub basis : Basis

abbrev pub initial_state : LoopState
initial_state = record {
  highest_risk = low;
  is_blocking = false;
  needs_review = false;
  exception_needed = false;
  triggered = [];
  reasons = [];
  exploitability = unknown;
  basis = by_default;
}

abbrev pub is_critical : Risk → Bool
is_critical critical = true
is_critical _ = false

abbrev pub is_high : Risk → Bool
is_high high = true
is_high _ = false

abbrev pub blocks : BlockingStatus → Bool
blocks blocking = true
blocks _ = false

abbrev pub asks_review : BlockingStatus → Bool
asks_review review_required = true
asks_review _ = false

-- `highestRisk = risk === 'CRITICAL' ? … : …`
unfoldable pub raise_risk : Risk → Risk → Risk
raise_risk highest risk =
    if is_critical risk
    then critical
    else if is_high risk && not (is_critical highest)
    then high
    else highest

abbrev add_all : List String → List String → List String
add_all [] ys = ys
add_all (x ∷ xs) ys = add_all xs (add x ys)

-- The verdict that the loop forms for one vulnerability.
unfoldable pub verdict : RiskInput → Vulnerability → Verdict
verdict input vuln =
    let e = exploit_of input vuln in
    verdict_of input.context_vector e.exploitability e.basis
      (or_else vuln.original_severity vuln.severity)

-- One round of the loop.
unfoldable pub round : RiskInput → LoopState → Vulnerability → LoopState
round input s vuln =
    let e = exploit_of input vuln in
    let v = verdict input vuln in
    record {
      highest_risk = raise_risk s.highest_risk v.risk;
      is_blocking = s.is_blocking || blocks v.block;
      needs_review = s.needs_review || e.review || asks_review v.block;
      exception_needed = s.exception_needed || v.exception;
      triggered = add_all v.rules (add_if e.mitigated "CAECTD-R016" s.triggered);
      reasons = add_all v.reasons s.reasons;
      exploitability = e.exploitability;
      basis = e.basis;
    }

unfoldable pub run_loop : RiskInput → LoopState → List Vulnerability → LoopState
run_loop input s [] = s
run_loop input s (v ∷ vs) = run_loop input (round input s v) vs

-- The `else` of `if (normalizedVulnerabilities.length > 0)`.
unfoldable pub no_vulnerabilities : RiskInput → LoopState
no_vulnerabilities input =
    if input.context_required && not (truthy input.context_vector.environment)
    then record initial_state {
      needs_review = true;
      reasons = "CTX-005" ∷ [];
      triggered = "CAECTD-R024" ∷ [];
    }
    else if truthy input.context_vector.environment
    then record initial_state { triggered = "CAECTD-R031" ∷ [] }
    else initial_state

-- The vulnerabilities, and then the reason codes of the context vector.
unfoldable pub examine : RiskInput → List Vulnerability → LoopState
examine input vs = record s {
  reasons =
      add_if c.has_expired_exception "EXC-002"
        (add_if c.has_invalid_vex "VEX-010" (add_if c.has_stale_vex "VEX-007" s.reasons));
}
  where
    c : ContextVector
    c = input.context_vector

    s : LoopState
    s = elim vs [ [] ↦ no_vulnerabilities input | v ∷ r ↦ run_loop input initial_state (v ∷ r) ]

abbrev pub initial_assurance : RiskInput → AssuranceState
initial_assurance input =
    if not input.missing_context
      && not input.invalid_context
      && not input.conflict
      && truthy input.context_assertion_id
    then verified_trusted
    else not_evaluated

-- `const result = { … }`
abbrev pub initial_result : AssuranceState → RiskResult
initial_result a = record {
  context_assurance_state = a;
  exploitability = unknown;
  exploitability_basis = by_default;
  contextual_risk = unknown_risk;
  policy_blocking_status = review_required;
  review_required = true;
  exception_required = false;
  exception_contribution = no_contribution;
  triggered_rule_ids = [];
  reason_codes = [];
}

-- The three early returns for a context that cannot be relied on.
unfoldable pub unreliable : LoopState → AssuranceState → String → String → RiskResult
unreliable s a reason rule = record (initial_result a) {
  exploitability = s.exploitability;
  exploitability_basis = s.basis;
  triggered_rule_ids = rule ∷ [];
  reason_codes = reason ∷ [];
}

unfoldable pub status_of : LoopState → BlockingStatus
status_of s =
    if s.is_blocking then blocking else if s.needs_review then review_required else non_blocking

-- `excStatus === 'ACTIVE' && input.exceptionTrusted && … === 'BLOCKING'`
unfoldable pub exception_applies : RiskInput → LoopState → Bool
exception_applies input s =
    is input.context_vector.exception_status "ACTIVE"
    && input.exception_trusted
    && blocks (status_of s)

-- From the status to the class A override. `reviewRequired` starts as true and is never lowered.
unfoldable pub conclude : RiskInput → LoopState → RiskResult
conclude input s = record {
  context_assurance_state = initial_assurance input;
  exploitability = s.exploitability;
  exploitability_basis = s.basis;
  contextual_risk = s.highest_risk;
  policy_blocking_status = if input.class_a_failure then blocking else status_of s;
  review_required = true;
  exception_required = s.exception_needed;
  exception_contribution =
      if input.class_a_failure
      then no_contribution
      else if exception_applies input s
      then conditionally_accepted
      else no_contribution;
  triggered_rule_ids =
      if exception_applies input s then s.triggered ++ "CR-011" ∷ [] else s.triggered;
  reason_codes = s.reasons;
}

unfoldable pub evaluate : RiskInput → RiskResult
evaluate input =
    if input.conflict
    then unreliable s conflicting "CTX-017" "CAECTD-R025"
    else if input.invalid_context
    then unreliable s invalid "CTX-010" "CAECTD-R026"
    else if input.missing_context
    then unreliable s missing "CTX-005" "CAECTD-R024"
    else conclude input s
  where
    s : LoopState
    s = examine input (normalized input)

unfoldable pub evaluate_context_risk : Option RiskInput → RiskResult
evaluate_context_risk none = initial_result not_evaluated
evaluate_context_risk (some input) = evaluate input
