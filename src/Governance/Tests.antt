-- ===== src/Governance/Tests.antt =====
-- An approval at a concrete policy.
use tpsr_v.Prelude.{
  ◌≡◌, refl, String, Bool, true, false, some, List, [], ◌∷◌, text_eq, is, truthy, same_text,
  includes, trim,
}
use tpsr_v.Evidence.{at}
use tpsr_v.Governance.{
  ExceptionRequest, ApprovalData, ExceptionGovernance, active, rejected, has_content,
  validate_structure, validate_separation, bind_to_release, rule_valid, validate_residual_risk,
  validate_remediation, validate_controls, max_validity, validate_period, derive_status,
  derive_assurance, approver_valid, evaluation_of, evaluate_approval,
}
use tpsr_v.Governance.Approval.{IsApproved, evaluate_approval-IsApproved}

abbrev governance : ExceptionGovernance
governance = record {
  allowed_requester_roles = "developer" ∷ [];
  allowed_owner_roles = "developer" ∷ [];
  allowed_approver_roles = "security" ∷ [];
  require_independent_approver = true;
  require_requester_different_from_approver = true;
  require_owner_different_from_approver = true;
  allow_critical_risk_exceptions = false;
  require_remediation_plan = true;
  require_compensating_controls_for_high_risk = true;
  maximum_validity_hours_by_risk = ("HIGH", 1) ∷ [];
}

abbrev request : ExceptionRequest
request = record {
  sbom_id = some "sbom-1";
  digest_manifest_digest = some "d";
  policy_rule_id = some "CAECTD-R017";
  reason_code = some "EXC-001";
  justification = some "needed";
  valid_from = some (at 1000);
  valid_until = some (at 9000);
  residual_risk = some "HIGH";
  remediation_plan = some "upgrade";
  compensating_controls = some ("firewall" ∷ []);
  requested_by = some "ann";
  requested_by_role = some "developer";
  owned_by = some "cleo";
  owner_role = some "developer";
}

abbrev by : String → ApprovalData
by name = record { approved_by = some name; approver_role = some "security" }

abbrev rules : List (String × String)
rules = ("CAECTD-R017", "EXCEPTIONABLE") ∷ []

abbrev nobody : String → Bool
nobody name = false

active_run :
    (evaluate_approval 2000 rules nobody governance request
      (by "bob")
      (some "sbom-1")
      (some "d")).derived_status
    ≡ active
unfolding evaluate_approval evaluation_of approver_valid derive_status derive_assurance
    validate_period max_validity validate_controls validate_remediation validate_residual_risk
    rule_valid bind_to_release validate_separation validate_structure has_content text_eq is truthy
    same_text includes trim
active_run = refl

-- A requester does not approve the own exception.
own_run :
    (evaluate_approval 2000 rules nobody governance request
      (by "ann")
      (some "sbom-1")
      (some "d")).derived_status
    ≡ rejected
unfolding evaluate_approval evaluation_of approver_valid derive_status derive_assurance
    validate_period max_validity validate_controls validate_remediation validate_residual_risk
    rule_valid bind_to_release validate_separation validate_structure has_content text_eq is truthy
    same_text includes trim
own_run = refl

evaluate_approval-IsApproved_example :
    IsApproved rules nobody governance 2000 request (by "bob") (some "sbom-1")
evaluate_approval-IsApproved_example =
    evaluate_approval-IsApproved 2000 rules nobody governance request (by "bob") (some "sbom-1")
      (some "d") active_run
