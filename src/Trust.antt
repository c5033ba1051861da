-- ===== src/Trust.antt =====
-- api/src/utils/trustEngine.js: the records that `evaluateTrust` reads and returns, and its
-- explanation (`finalizeExplanation`).
pub mod Mandatory
pub mod Evaluate
use tpsr_v.Prelude.{
  String, Bool, true, false, not, ◌&&◌, Option, none, some, List, [], ◌∷◌, ◌++◌, ℕ, text_eq,
  is_empty, if◌then◌else◌,
}
use tpsr_v.ContextRisk.{AssuranceState, Exploitability, Risk, BlockingStatus, RiskResult}
use tpsr_v.Evidence.{
  Provenance, Signature, VexStatement, ContextAssertion, PolicyException, SbomDocument,
}

pub data TrustStatus : Type 0 where
  trusted conditionally_accepted review_required rejected : TrustStatus

-- `evidenceBundle`; a field that is no array is read as the empty list.
pub record EvidenceBundle : Type 0 where
  pub sbom_document : Option SbomDocument
  pub provenance : List Provenance
  pub signatures : List Signature
  pub vex_statements : List VexStatement
  pub active_context_assertion : Option ContextAssertion
  pub deployment_context : Option ContextAssertion
  pub all_active_context_assertions : Option (List ContextAssertion)
  pub policy_exceptions : List PolicyException

pub record Dependency : Type 0 where
  pub required : Bool
  pub assurance_state : AssuranceState
  pub evidence_ids : List (Option String)

pub record ContextDependency : Type 0 where
  pub required : Bool
  pub context_assertion_id : Option String
  pub context_assurance_state : AssuranceState
  pub exploitability : Exploitability
  pub contextual_risk : Risk
  pub policy_blocking_status : BlockingStatus
  pub review_required : Bool
  pub exception_required : Bool
  pub exception_id : Option String
  pub vex_evidence_ids : List (Option String)
  pub triggered_context_rule_ids : List String
  pub context_reason_codes : List String

pub record EvidenceSummary : Type 0 where
  pub provenance_count : ℕ
  pub signature_count : ℕ
  pub vex_count : ℕ
  pub has_deployment_context : Bool
  pub active_exception_count : ℕ

pub record RequiredChecks : Type 0 where
  pub triggered_rules_present : Bool
  pub reason_codes_mapped : Bool
  pub mandatory_dependencies_evaluated : Bool
  pub policy_version_present : Bool
  pub trust_policy_hash_present : Bool
  pub lifecycle_effect_present : Bool
  pub context_policy_result_present : Bool
  pub context_assertion_evaluated : Bool
  pub required_vex_evaluated : Bool
  pub exception_evaluated : Bool

pub record Explanation : Type 0 where
  pub complete : Bool
  pub required_checks : RequiredChecks
  pub missing_fields : List String

pub record TrustResult : Type 0 where
  pub trust_status : TrustStatus
  pub reason_code : String
  pub reason_description : String
  pub evidence_summary : EvidenceSummary
  pub policy_version : String
  pub trust_policy_hash : String
  pub triggered_rule_ids : List String
  pub evaluated_rule_ids : List String
  pub integrity : Option Dependency
  pub provenance : Option Dependency
  pub signature : Option Dependency
  pub context_risk : Option ContextDependency
  pub exception : Option Dependency
  pub context_result : Option RiskResult
  pub explanation : Explanation

abbrev pub present {ℓ} : {A : Type ℓ} → Option A → Bool
present none = false
present (some _) = true

unfoldable pub context_is_required : Option ContextDependency → Bool
context_is_required none = false
context_is_required (some c) = c.required

unfoldable pub required_checks_of : TrustResult → RequiredChecks
required_checks_of r = record {
  triggered_rules_present = not (is_empty r.triggered_rule_ids);
  reason_codes_mapped = not (text_eq r.reason_code "");
  mandatory_dependencies_evaluated =
      present r.integrity && present r.provenance && present r.signature;
  policy_version_present = not (text_eq r.policy_version "");
  trust_policy_hash_present =
      not (text_eq r.trust_policy_hash "") && not (text_eq r.trust_policy_hash "unknown");
  lifecycle_effect_present = true;
  context_policy_result_present =
      if context_is_required r.context_risk then present r.context_result else true;
  context_assertion_evaluated = true;
  required_vex_evaluated = true;
  exception_evaluated = if context_is_required r.context_risk then present r.exception else true;
}

unfoldable pub all_checks : RequiredChecks → Bool
all_checks c =
    c.triggered_rules_present && c.reason_codes_mapped && c.mandatory_dependencies_evaluated
    && c.policy_version_present && c.trust_policy_hash_present && c.lifecycle_effect_present
    && c.context_policy_result_present && c.context_assertion_evaluated && c.required_vex_evaluated
    && c.exception_evaluated

abbrev unless : Bool → String → List String
unless b name = if b then [] else name ∷ []

unfoldable pub missing_of : RequiredChecks → List String
missing_of c =
    unless c.triggered_rules_present "triggeredRuleIds"
    ++ unless c.mandatory_dependencies_evaluated "evidenceDependencies"
    ++ unless c.context_policy_result_present "contextResult"

-- `finalizeExplanation`. The assurance state of a context dependency is never an empty text, so
-- `contextAssertionEvaluated` is true.
unfoldable pub finalize : TrustResult → List String → TrustResult
finalize r evaluated = record r {
  evaluated_rule_ids = evaluated;
  explanation = record {
    complete = all_checks (required_checks_of r);
    required_checks = required_checks_of r;
    missing_fields = missing_of (required_checks_of r);
  };
}
