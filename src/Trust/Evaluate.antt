-- ===== src/Trust/Evaluate.antt =====
-- `evaluateTrust` of api/src/utils/trustEngine.js: the context evaluation and the decision. The trust
-- policy and the time are arguments.
pub mod Decision
pub mod Safety
use tpsr_v.Prelude.{
  String, Bool, true, false, not, ◌&&◌, ◌||◌, Option, none, some, List, [], ◌∷◌, ◌++◌, ℕ, is,
  truthy, or_else, or_text, includes, is_empty, if◌then◌else◌, find, any, map,
}
use tpsr_v.ContextRisk.{
  AssuranceState, verified_trusted, not_applicable, BlockingStatus, Contribution, RiskInput,
  RiskResult, add,
}
use tpsr_v.ContextRisk.Evaluate.{evaluate}
use tpsr_v.Evidence.{
  Provenance, Signature, ContextAssertion, PolicyException, SbomDocument, TrustPolicy,
}
use tpsr_v.Evidence.Assurance.{map_signature}
use tpsr_v.Evidence.Assembler.{Bundle, assemble}
use tpsr_v.Trust.{
  TrustStatus, trusted, conditionally_accepted, review_required, rejected, EvidenceBundle,
  Dependency, ContextDependency, TrustResult, finalize,
}
use tpsr_v.Trust.Mandatory.{
  dep_context, mandatory, missing_document, is_valid_provenance, is_valid_signature,
  reject_provenance, with_provenance, reject_signature,
}

-- `policy.requireDeploymentContext === true || …operations.includes('verify')`
unfoldable pub required_for_verify : TrustPolicy → Bool
required_for_verify policy =
    policy.require_deployment_context
    || elim policy.operations [ none ↦ false | some ops ↦ includes ops "verify" ]

unfoldable pub bundle_of : EvidenceBundle → SbomDocument → Bundle
bundle_of b doc = record {
  document = doc;
  assertions = elim b.all_active_context_assertions [
    | some listed ↦ listed
    | none ↦ elim (dep_context b) [ none ↦ [] | some a ↦ a ∷ [] ]
  ];
  statements = b.vex_statements;
  exceptions = b.policy_exceptions;
}

-- `exceptionId: exceptionStatus === 'ACTIVE' ? policyExceptions[0].id : null`
unfoldable pub first_exception_id : RiskInput → List PolicyException → Option String
first_exception_id input [] = none
first_exception_id input (e ∷ es) = if input.exception_trusted then e.id else none

unfoldable pub context_dependency :
    TrustPolicy → EvidenceBundle → RiskInput → RiskResult → ContextDependency
context_dependency policy b input c = record {
  required = required_for_verify policy;
  context_assertion_id = input.context_assertion_id;
  context_assurance_state = c.context_assurance_state;
  exploitability = c.exploitability;
  contextual_risk = c.contextual_risk;
  policy_blocking_status = c.policy_blocking_status;
  review_required = elim c.policy_blocking_status [
    | BlockingStatus.review_required ↦ true
    | _ ↦ false
  ];
  exception_required = c.exception_required;
  exception_id = first_exception_id input b.policy_exceptions;
  vex_evidence_ids = map (λ v. v.id) b.vex_statements;
  triggered_context_rule_ids = c.triggered_rule_ids;
  context_reason_codes = c.reason_codes;
}

abbrev pub has_status : String → PolicyException → Bool
has_status t e = is e.status t

-- The outcome of the last `if`: the status, reason code and description, and the rule that is both
-- evaluated and triggered, if there is one.
pub record Verdict : Type 0 where
  pub status : TrustStatus
  pub code : String
  pub description : String
  pub rule : List String

-- `reasonCode` before the decision.
unfoldable pub context_code : RiskResult → String
context_code c = elim c.reason_codes [ [] ↦ "GOV-003" | r ∷ rs ↦ r ]

unfoldable pub accept_conditionally : Verdict
accept_conditionally = record {
  status = conditionally_accepted;
  code = "EXC-001";
  description =
      "Active governed policy exception(s) cover the remaining policy violation. Trust is conditionally accepted.";
  rule = "CAECTD-R027" ∷ [];
}

unfoldable pub decide : RiskResult → List PolicyException → Verdict
decide c exceptions = elim c.policy_blocking_status [
  | BlockingStatus.blocking ↦ elim c.exception_contribution [
    | Contribution.conditionally_accepted ↦ accept_conditionally
    | _ ↦ record {
      status = rejected;
      code = context_code c;
      description = "Unmitigated blocking context risk.";
      rule = "CAECTD-R017" ∷ [];
    }
  ]
  | BlockingStatus.review_required ↦ record {
    status = review_required;
    code = context_code c;
    description = "Context risk review required.";
    rule = [];
  }
  | BlockingStatus.non_blocking ↦
      if any (has_status "ACTIVE") exceptions
      then record {
        status = review_required;
        code = "GOV-003";
        description = "All controls pass but an exception remains active unnecessarily.";
        rule = "CAECTD-R027" ∷ [];
      }
      else record {
        status = trusted;
        code = "GOV-001";
        description = "Full TPSR v3 trust evaluation passed all mandatory governance criteria.";
        rule = "CAECTD-R031" ∷ [];
      }
]

abbrev when : Bool → String → List String
when b rule = if b then rule ∷ [] else []

abbrev add_all : List String → List String → List String
add_all [] ys = ys
add_all (x ∷ xs) ys = add_all xs (add x ys)

-- The rules that are triggered, in the order in which they are pushed.
unfoldable pub triggered : RiskResult → List PolicyException → List String
triggered c exceptions =
    c.triggered_rule_ids
    ++ when (any (has_status "EXPIRED") exceptions) "CAECTD-R028"
    ++ when (any (has_status "REVOKED") exceptions) "CAECTD-R029"
    ++ (decide c exceptions).rule

-- The stages after the mandatory checks.
unfoldable pub with_signature :
    TrustPolicy → ℕ → EvidenceBundle → SbomDocument → Provenance → Signature → TrustResult
with_signature policy now b doc p s =
    finalize
      (record (with_provenance b doc p) {
        trust_status = v.status;
        reason_code = v.code;
        reason_description = v.description;
        policy_version = or_text (or_else policy.schema_version policy.version) "3.0";
        trust_policy_hash = or_text policy.hash "unknown";
        triggered_rule_ids = triggered c b.policy_exceptions;
        signature = mandatory (map_signature (some s)).normalized (s.id ∷ []);
        context_risk = some (context_dependency policy b input c);
        exception = some (record {
          required = false;
          assurance_state = if c.exception_required then verified_trusted else not_applicable;
          evidence_ids = [];
        });
        context_result = some c;
      })
      (add_all (triggered c b.policy_exceptions) ("CAECTD-R001" ∷ []))
  where
    input : RiskInput
    input = assemble policy now (bundle_of b doc)

    c : RiskResult
    c = evaluate input

    v : Verdict
    v = decide c b.policy_exceptions

unfoldable pub check_signature :
    TrustPolicy → ℕ → EvidenceBundle → SbomDocument → Provenance → TrustResult
check_signature policy now b doc p = elim (find is_valid_signature b.signatures) [
  | none ↦ reject_signature b doc p
  | some s ↦ with_signature policy now b doc p s
]

unfoldable pub check_provenance : TrustPolicy → ℕ → EvidenceBundle → SbomDocument → TrustResult
check_provenance policy now b doc = elim (find is_valid_provenance b.provenance) [
  | none ↦ reject_provenance b doc
  | some p ↦ check_signature policy now b doc p
]

unfoldable pub evaluate_trust : TrustPolicy → ℕ → EvidenceBundle → TrustResult
evaluate_trust policy now b = elim b.sbom_document [
  | none ↦ missing_document
  | some doc ↦ if truthy doc.sbom_id then check_provenance policy now b doc else missing_document
]
