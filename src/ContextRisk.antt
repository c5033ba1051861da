-- ===== src/ContextRisk.antt =====
-- api/src/utils/contextRiskEngine.js: the exploitability of a vulnerability, its verdict in the
-- declared context, the loop over the vulnerabilities and the outcome of `evaluateContextRisk`.
-- A field that the source reads only by truthiness, `||` or `===` is an `Option String`.
pub mod Evaluate
pub mod Mitigation
pub mod Blocking
use tpsr_v.Prelude.{
  String, Bool, true, false, not, ◌&&◌, ◌||◌, Option, List, [], ◌∷◌, ◌++◌, is, truthy, or_text,
  includes, text_eq, if◌then◌else◌,
}

-- `ASSURANCE_STATES` of evidenceAssuranceMapper.js
pub data AssuranceState : Type 0 where
  verified_trusted verified_untrusted invalid missing stale replayed : AssuranceState
  conflicting not_applicable not_evaluated : AssuranceState

pub data Exploitability : Type 0 where
  exploitable not_exploitable under_investigation unknown : Exploitability

-- The texts of `exploitabilityBasis`.
pub data Basis : Type 0 where
  by_default trusted_affected_executed trusted_not_affected untrusted_not_affected : Basis
  under_investigation_vex component_not_present component_present_not_executed : Basis
  component_present_executed : Basis

pub data Risk : Type 0 where
  low high critical unknown_risk : Risk

pub data BlockingStatus : Type 0 where
  non_blocking review_required blocking : BlockingStatus

pub data Contribution : Type 0 where
  no_contribution conditionally_accepted : Contribution

pub record Vulnerability : Type 0 where
  pub id : Option String
  pub cve : Option String
  pub vulnerability_id : Option String
  pub component_id : Option String
  pub original_severity : Option String
  pub severity : Option String
  pub vex_applicability : Option String

pub record ContextVector : Type 0 where
  pub environment : Option String
  pub internet_exposure : Option String
  pub asset_criticality : Option String
  pub privilege_level : Option String
  pub data_sensitivity : Option String
  pub runtime_execution : Option String
  pub component_presence : Option String
  pub exception_status : Option String
  pub has_stale_vex : Bool
  pub has_invalid_vex : Bool
  pub has_expired_exception : Bool

-- `vulns`, `vulnerability` and the components of `sbomDocument` are the alternatives that are read
-- when `vulnerabilities` is no array. `sbom_components` is what the parsed document's components
-- list, `none` if it has no array of components or does not parse.
pub record RiskInput : Type 0 where
  pub conflict : Bool
  pub invalid_context : Bool
  pub missing_context : Bool
  pub class_a_failure : Bool
  pub context_required : Bool
  pub vex_trusted : Bool
  pub vex_current : Bool
  pub vex_exact_scope : Bool
  pub exception_trusted : Bool
  pub component_presence_trusted : Bool
  pub context_assertion_id : Option String
  pub vulnerabilities : Option (List Vulnerability)
  pub vulns : Option (List Vulnerability)
  pub vulnerability : Option Vulnerability
  pub sbom_components : Option (List (Option (List Vulnerability)))
  pub context_vector : ContextVector

pub record RiskResult : Type 0 where
  pub context_assurance_state : AssuranceState
  pub exploitability : Exploitability
  pub exploitability_basis : Basis
  pub contextual_risk : Risk
  pub policy_blocking_status : BlockingStatus
  pub review_required : Bool
  pub exception_required : Bool
  pub exception_contribution : Contribution
  pub triggered_rule_ids : List String
  pub reason_codes : List String

-- `Set.prototype.add`, in insertion order
abbrev pub add : String → List String → List String
add x xs = if includes xs x then xs else xs ++ x ∷ []

abbrev pub add_if : Bool → String → List String → List String
add_if b x xs = if b then add x xs else xs

-- How far a vulnerability can be exploited: the exploitability, its basis, whether CAECTD-R016
-- fires and whether a review is needed for it.
pub record Exploit : Type 0 where
  pub exploitability : Exploitability
  pub basis : Basis
  pub mitigated : Bool
  pub review : Bool

abbrev exploit_as : Exploitability → Basis → Exploit
exploit_as e b = record { exploitability = e; basis = b; mitigated = false; review = false }

unfoldable pub exploit_of : RiskInput → Vulnerability → Exploit
exploit_of input vuln =
    if text_eq vex "AFFECTED"
      && (text_eq present "PRESENT" || text_eq present "PARTIAL")
      && text_eq run "EXECUTED"
    then exploit_as exploitable trusted_affected_executed
    else if text_eq vex "NOT_AFFECTED"
    then if input.vex_trusted && input.vex_current && input.vex_exact_scope
      then record {
        exploitability = not_exploitable;
        basis = trusted_not_affected;
        mitigated = true;
        review = false;
      }
      else record {
        exploitability = unknown;
        basis = untrusted_not_affected;
        mitigated = false;
        review = true;
      }
    else if text_eq vex "UNDER_INVESTIGATION"
    then exploit_as under_investigation under_investigation_vex
    else if text_eq present "NOT_PRESENT" && input.component_presence_trusted
    then exploit_as not_exploitable component_not_present
    else if text_eq present "PRESENT" && text_eq run "PRESENT_NOT_EXECUTED"
    then exploit_as unknown component_present_not_executed
    else if text_eq present "PRESENT" && text_eq run "EXECUTED"
    then exploit_as exploitable component_present_executed
    else exploit_as unknown by_default
  where
    vex : String
    vex = or_text vuln.vex_applicability "UNKNOWN"

    present : String
    present = or_text input.context_vector.component_presence "UNKNOWN"

    run : String
    run = or_text input.context_vector.runtime_execution "UNKNOWN"

-- What the context makes of one vulnerability.
pub record Verdict : Type 0 where
  pub risk : Risk
  pub block : BlockingStatus
  pub exception : Bool
  pub rules : List String
  pub reasons : List String

abbrev verdict_as : Risk → BlockingStatus → Verdict
verdict_as r b = record { risk = r; block = b; exception = false; rules = []; reasons = [] }

abbrev pub is_under_investigation : Exploitability → Bool
is_under_investigation under_investigation = true
is_under_investigation _ = false

abbrev pub is_not_exploitable : Exploitability → Bool
is_not_exploitable not_exploitable = true
is_not_exploitable _ = false

abbrev pub is_exploitable : Exploitability → Bool
is_exploitable exploitable = true
is_exploitable _ = false

abbrev pub is_present_not_executed : Basis → Bool
is_present_not_executed component_present_not_executed = true
is_present_not_executed _ = false

unfoldable pub verdict_of : ContextVector → Exploitability → Basis → Option String → Verdict
verdict_of c expl basis sev =
    if is_under_investigation expl || is_present_not_executed basis
    then record {
      risk = unknown_risk;
      block = review_required;
      exception = false;
      rules =
          if is_under_investigation expl then "GOV-003" ∷ "CAECTD-R019" ∷ [] else "GOV-003" ∷ [];
      reasons = "GOV-003" ∷ [];
    }
    else if is env "PRODUCTION"
        && (is exp "PUBLIC" || is exp "RESTRICTED_PUBLIC")
        && not (is_not_exploitable expl)
        && is sev "CRITICAL"
    then record {
      risk = critical;
      block = blocking;
      exception = true;
      rules = "CR-001" ∷ [];
      reasons = "CTX-001" ∷ [];
    }
    else if is env "PRODUCTION"
        && is c.asset_criticality "CRITICAL"
        && not (is_not_exploitable expl)
    then verdict_as high blocking
    else if is c.privilege_level "SYSTEM" && not (is_not_exploitable expl)
    then verdict_as high blocking
    else if is c.data_sensitivity "RESTRICTED" && not (is_not_exploitable expl)
    then verdict_as high blocking
    else if is env "DEVELOPMENT"
        && (is exp "NONE" || is exp "INTERNAL")
        && not (is_exploitable expl)
    then verdict_as low non_blocking
    else if not (truthy env) && is sev "CRITICAL" && not (is_not_exploitable expl)
    then record {
      risk = critical;
      block = blocking;
      exception = true;
      rules = "CAECTD-R017" ∷ [];
      reasons = "CTX-002" ∷ [];
    }
    else verdict_as low non_blocking
  where
    env : Option String
    env = c.environment

    exp : Option String
    exp = c.internet_exposure
