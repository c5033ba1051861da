-- ===== src/Governance.antt =====
-- api/src/utils/policyExceptionEngine.js: the approval of an exception from the trust policy. The
-- clock, the rules of docs/models/caectd-model.v0.1.json and `isRevoked` of the trust policy (at the
-- time of the approval, false where the policy has none) are arguments.
pub mod Approval
mod Tests
use tpsr_v.Prelude.{
  ℕ, ◌+◌, ◌-◌, ◌*◌, String, Bool, true, false, not, ◌&&◌, ◌||◌, Option, none, some, List, [], ◌∷◌,
  text_eq, is, truthy, or_text, same_text, includes, trim, is_empty, if◌then◌else◌, leb, ltb,
}
use tpsr_v.ContextRisk.{AssuranceState}
use tpsr_v.Evidence.{Date, invalid_date, at, date_le}

-- `exceptionData`; `compensating_controls` is none where it is no array.
pub record ExceptionRequest : Type 0 where
  pub sbom_id : Option String
  pub digest_manifest_digest : Option String
  pub policy_rule_id : Option String
  pub reason_code : Option String
  pub justification : Option String
  pub valid_from : Option Date
  pub valid_until : Option Date
  pub residual_risk : Option String
  pub remediation_plan : Option String
  pub compensating_controls : Option (List String)
  pub requested_by : Option String
  pub requested_by_role : Option String
  pub owned_by : Option String
  pub owner_role : Option String

pub record ApprovalData : Type 0 where
  pub approved_by : Option String
  pub approver_role : Option String

-- `policy.exceptionGovernance`
pub record ExceptionGovernance : Type 0 where
  pub allowed_requester_roles : List String
  pub allowed_owner_roles : List String
  pub allowed_approver_roles : List String
  pub require_independent_approver : Bool
  pub require_requester_different_from_approver : Bool
  pub require_owner_different_from_approver : Bool
  pub allow_critical_risk_exceptions : Bool
  pub require_remediation_plan : Bool
  pub require_compensating_controls_for_high_risk : Bool
  pub maximum_validity_hours_by_risk : List (String × ℕ)

-- `text && text.trim().length > 0`
unfoldable pub has_content : Option String → Bool
has_content none = false
has_content (some s) = not (text_eq s "") && not (text_eq (trim s) "")

abbrev is_invalid_date : Date → Bool
is_invalid_date invalid_date = true
is_invalid_date (at t) = false

-- `list.includes(value)`, where the value may be absent
abbrev pub lists : List String → Option String → Bool
lists xs none = false
lists xs (some s) = includes xs s

-- `until <= from` on two dates
abbrev ends_first : Date → Date → Bool
ends_first (at u) (at f) = leb u f
ends_first _ _ = false

abbrev bad_start : Option Date → Date → Bool
bad_start none until = false
bad_start (some f) until = is_invalid_date f || ends_first until f

-- `validateExceptionStructure`
unfoldable pub validate_structure : ExceptionRequest → Bool
validate_structure e =
    (truthy e.sbom_id
      && truthy e.digest_manifest_digest
      && truthy e.policy_rule_id
      && truthy e.reason_code)
    && has_content e.justification
    && elim e.valid_until [
      | none ↦ false
      | some until ↦ not (is_invalid_date until) && not (bad_start e.valid_from until)
    ]
    && lists ("LOW" ∷ "MEDIUM" ∷ "HIGH" ∷ "CRITICAL" ∷ []) e.residual_risk

-- `validateSeparationOfDuties`
unfoldable pub validate_separation :
    Option String → Option String → Option String → ExceptionGovernance → Bool
validate_separation requester owner approver g =
    not (g.require_independent_approver && not (truthy approver))
    && not (g.require_requester_different_from_approver && same_text requester approver)
    && not (g.require_owner_different_from_approver && same_text owner approver)

-- `bindExceptionToRelease`
unfoldable pub bind_to_release : ExceptionRequest → Option String → Option String → Bool
bind_to_release e sbom digest =
    same_text e.sbom_id sbom && same_text e.digest_manifest_digest digest

-- `validatePolicyRuleScope`: the first rule with the id, and its `exceptionPolicy`.
unfoldable pub rule_valid : List (String × String) → Option String → Bool
rule_valid [] rule = false
rule_valid ((id, scope) ∷ rest) rule =
    let later = rule_valid rest rule in
    if is rule id
    then not (text_eq scope "NON_EXCEPTIONABLE") && not (text_eq scope "REVIEW_ONLY")
    else later

-- `validateResidualRisk`
unfoldable pub validate_residual_risk : Option String → ExceptionGovernance → Bool
validate_residual_risk risk g = not (is risk "CRITICAL" && not g.allow_critical_risk_exceptions)

-- `validateRemediationPlan`
unfoldable pub validate_remediation : Option String → ExceptionGovernance → Bool
validate_remediation plan g = if g.require_remediation_plan then has_content plan else true

abbrev is_present_list : Option (List String) → Bool
is_present_list none = false
is_present_list (some xs) = not (is_empty xs)

-- `validateCompensatingControls`
unfoldable pub validate_controls : Option (List String) → Option String → ExceptionGovernance → Bool
validate_controls controls risk g =
    if g.require_compensating_controls_for_high_risk && (is risk "HIGH" || is risk "CRITICAL")
    then is_present_list controls
    else true

-- `maximumValidityHoursByRisk[risk] || 0`
unfoldable pub max_validity : List (String × ℕ) → Option String → ℕ
max_validity [] risk = 0
max_validity ((r, h) ∷ rest) risk =
    let later = max_validity rest risk in if is risk r then h else later

-- `validateValidityPeriod`; a comparison with an invalid date is false, so the last one fails.
unfoldable pub validate_period : ℕ → Date → Date → Option String → ExceptionGovernance → Bool
validate_period now (at from) (at until) risk g =
    not (leb until from)
    && not (ltb (now + 86400000) from)
    && leb (until - from) (max_validity g.maximum_validity_hours_by_risk risk * 3600000)
validate_period now _ _ risk g = false

pub data ExceptionStatus : Type 0 where
  invalid_status rejected expired active requested revoked conflicting_status : ExceptionStatus

-- `evalResult`; `approved` is `!!approvedBy`.
pub record Evaluation : Type 0 where
  pub structure_valid : Bool
  pub release_binding_passed : Bool
  pub policy_scope_passed : Bool
  pub governance_valid : Bool
  pub separation_of_duties_passed : Bool
  pub validity_passed : Bool
  pub is_expired : Bool
  pub approved : Bool

-- `deriveExceptionStatus`
unfoldable pub derive_status : Evaluation → ExceptionStatus
derive_status e =
    if not e.structure_valid
      || not e.policy_scope_passed
      || not e.release_binding_passed
      || not e.validity_passed
    then invalid_status
    else if not e.governance_valid || not e.separation_of_duties_passed
    then rejected
    else if e.is_expired
    then expired
    else if e.approved
    then active
    else requested

abbrev of_status : ExceptionStatus → AssuranceState
of_status revoked = AssuranceState.invalid
of_status conflicting_status = AssuranceState.conflicting
of_status active = AssuranceState.verified_trusted
of_status _ = AssuranceState.not_evaluated

-- `deriveExceptionAssuranceState`
unfoldable pub derive_assurance : Evaluation → ExceptionStatus → AssuranceState
derive_assurance e status =
    if not e.structure_valid
    then AssuranceState.invalid
    else if not e.governance_valid
    then AssuranceState.verified_untrusted
    else if not e.policy_scope_passed
    then AssuranceState.invalid
    else if not e.release_binding_passed
    then AssuranceState.invalid
    else if not e.separation_of_duties_passed
    then AssuranceState.invalid
    else if not e.validity_passed
    then AssuranceState.invalid
    else if e.is_expired
    then AssuranceState.stale
    else of_status status

pub record ApprovalResult : Type 0 where
  pub verified : Bool
  pub assurance_state : AssuranceState
  pub evaluation : Evaluation
  pub reason_codes : List String
  pub derived_status : ExceptionStatus

abbrev is_active : ExceptionStatus → Bool
is_active active = true
is_active _ = false

abbrev reasons_of : ExceptionStatus → List String
reasons_of active = "EXC-001" ∷ []
reasons_of invalid_status = "EXC-003" ∷ "EXC-004" ∷ []
reasons_of rejected = "EXC-003" ∷ "EXC-004" ∷ []
reasons_of _ = []

abbrev pub from_or_now : Option Date → ℕ → Date
from_or_now none now = at now
from_or_now (some d) now = d

-- `new Date(validUntil)`
abbrev pub until_date : Option Date → Date
until_date none = invalid_date
until_date (some d) = d

abbrev pub is_revoked_text : (String → Bool) → Option String → Bool
is_revoked_text is_revoked none = false
is_revoked_text is_revoked (some s) = not (text_eq s "") && is_revoked s

module _ (now : ℕ) (rules : List (String × String)) (is_revoked : String → Bool)
    (g : ExceptionGovernance) where
  -- `approverValid`
  unfoldable pub approver_valid : ApprovalData → Bool
  approver_valid a =
      lists g.allowed_approver_roles a.approver_role
      && not (is_revoked_text is_revoked a.approver_role)
      && not (is_revoked_text is_revoked a.approved_by)

  unfoldable pub evaluation_of :
      ExceptionRequest → ApprovalData → Option String → Option String → Evaluation
  evaluation_of e a sbom digest = record {
    structure_valid = validate_structure e;
    release_binding_passed = bind_to_release e sbom digest;
    policy_scope_passed = rule_valid rules e.policy_rule_id;
    governance_valid =
        lists g.allowed_requester_roles e.requested_by_role
        && lists g.allowed_owner_roles e.owner_role
        && approver_valid a;
    separation_of_duties_passed = validate_separation e.requested_by e.owned_by a.approved_by g;
    validity_passed =
        validate_period now (from_or_now e.valid_from now) (until_date e.valid_until)
          e.residual_risk g
        && validate_residual_risk e.residual_risk g
        && has_content e.justification
        && validate_remediation e.remediation_plan g
        && validate_controls e.compensating_controls e.residual_risk g;
    is_expired = date_le (until_date e.valid_until) now;
    approved = truthy a.approved_by;
  }

  -- `evaluateExceptionApproval`
  unfoldable pub evaluate_approval :
      ExceptionRequest → ApprovalData → Option String → Option String → ApprovalResult
  evaluate_approval e a sbom digest =
      let v = evaluation_of e a sbom digest in
      record {
        verified = is_active (derive_status v);
        assurance_state = derive_assurance v (derive_status v);
        evaluation = v;
        reason_codes = reasons_of (derive_status v);
        derived_status = derive_status v;
      }
