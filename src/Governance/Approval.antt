-- ===== src/Governance/Approval.antt =====
-- When an approval makes an exception ACTIVE.
use tpsr_v.Prelude.{
  ◌≡◌, ◌≢◌, ◌↔◌, refl, ap, ℕ, ◌+◌, ◌*◌, ◌≤◌, ◌<◌, String, Bool, true, false, Option, List, truthy,
  same_text_iff, arith, leb,
}
use tpsr_v.ContextRisk.{AssuranceState}
use tpsr_v.Evidence.{Date, invalid_date, at, date_le}
use tpsr_v.Governance.{
  ExceptionRequest, ApprovalData, ExceptionGovernance, active, Evaluation, derive_status,
  derive_assurance, validate_separation, validate_period, max_validity, evaluation_of,
  evaluate_approval, until_date, lists, approver_valid, bind_to_release, rule_valid,
  is_revoked_text, from_or_now,
}

derive_status-active_iff :
    (e : Evaluation)
    → (derive_status e ≡ active) ↔ (
        (e.structure_valid ≡ true)
        × (e.policy_scope_passed ≡ true)
        × (e.release_binding_passed ≡ true)
        × (e.validity_passed ≡ true)
        × (e.governance_valid ≡ true)
        × (e.separation_of_duties_passed ≡ true)
        × (e.is_expired ≡ false)
        × (e.approved ≡ true))
unfolding derive_status
derive_status-active_iff e = ground arith

derive_assurance-trusted_iff :
    (e : Evaluation)
    → (derive_assurance e (derive_status e) ≡ AssuranceState.verified_trusted)
      ↔ (derive_status e ≡ active)
unfolding derive_status derive_assurance
derive_assurance-trusted_iff e = ground arith

-- The period of an exception that may become ACTIVE.
pub record ValidPeriod (now : ℕ) (from until : Date) (max : ℕ) : Type 0 where
  pub start : ℕ
  pub end : ℕ
  pub starts : from ≡ at start
  pub ends : until ≡ at end
  pub ordered : start < end
  pub bounded : end ≤ start + max * 3600000

validate_period-ValidPeriod :
    (now : ℕ) (from until : Date) (risk : Option String) (g : ExceptionGovernance)
    → validate_period now from until risk g ≡ true
    → ValidPeriod now from until (max_validity g.maximum_validity_hours_by_risk risk)
unfolding validate_period
validate_period-ValidPeriod now invalid_date until risk g h = cc
validate_period-ValidPeriod now (at f) invalid_date risk g h = cc
validate_period-ValidPeriod now (at f) (at u) risk g h = record {
  start = f;
  end = u;
  starts = refl;
  ends = refl;
  ordered = ground arith;
  bounded = ground arith;
}

-- What governs an ACTIVE exception.
pub record IsApproved (rules : List (String × String)) (is_revoked : String → Bool)
    (g : ExceptionGovernance) (now : ℕ) (e : ExceptionRequest) (a : ApprovalData)
    (sbom : Option String) : Type 0 where
  pub same_release : e.sbom_id ≡ sbom
  pub approver_present : truthy a.approved_by ≡ true
  pub approver_allowed : lists g.allowed_approver_roles a.approver_role ≡ true
  pub approver_unrevoked : is_revoked_text is_revoked a.approved_by ≡ false
  pub exceptionable : rule_valid rules e.policy_rule_id ≡ true
  pub requester_apart :
      g.require_requester_different_from_approver ≡ true → e.requested_by ≢ a.approved_by
  pub owner_apart : g.require_owner_different_from_approver ≡ true → e.owned_by ≢ a.approved_by
  pub period :
      ValidPeriod now
        (from_or_now e.valid_from now)
        (until_date e.valid_until)
        (max_validity g.maximum_validity_hours_by_risk e.residual_risk)
  pub unexpired : (t : ℕ) → until_date e.valid_until ≡ at t → now < t

separation-requester :
    (r o a : Option String) (g : ExceptionGovernance)
    → validate_separation r o a g ≡ true
    → g.require_requester_different_from_approver ≡ true
    → r ≢ a
unfolding validate_separation
separation-requester r o a g h q e = ground (arith, same_text_iff r a)

separation-owner :
    (r o a : Option String) (g : ExceptionGovernance)
    → validate_separation r o a g ≡ true
    → g.require_owner_different_from_approver ≡ true
    → o ≢ a
unfolding validate_separation
separation-owner r o a g h q e = ground (arith, same_text_iff o a)

module _ (now : ℕ) (rules : List (String × String)) (is_revoked : String → Bool)
    (g : ExceptionGovernance) (e : ExceptionRequest) (a : ApprovalData)
    (sbom digest : Option String) where
  -- An approval counts as VERIFIED_TRUSTED exactly when the exception becomes ACTIVE.
  pub evaluate_approval-trusted_iff :
      ((evaluate_approval now rules is_revoked g e a sbom digest).assurance_state
        ≡ AssuranceState.verified_trusted)
      ↔ ((evaluate_approval now rules is_revoked g e a sbom digest).derived_status ≡ active)
  unfolding evaluate_approval
  evaluate_approval-trusted_iff =
      derive_assurance-trusted_iff (evaluation_of now rules is_revoked g e a sbom digest)

  -- An exception becomes ACTIVE only for its release and an exceptionable rule, by an approver with an
  -- allowed role who is not revoked and, where the policy asks for it, is neither the requester nor the
  -- owner, for a period that has not passed and is no longer than its risk allows.
  pub evaluate_approval-IsApproved :
      (evaluate_approval now rules is_revoked g e a sbom digest).derived_status ≡ active
      → IsApproved rules is_revoked g now e a sbom
  unfolding evaluate_approval evaluation_of approver_valid bind_to_release
  evaluate_approval-IsApproved h =
      let (s, p, b, v, gv, sd, x, approver) =
        (derive_status-active_iff (evaluation_of now rules is_revoked g e a sbom digest)).0 h in
      record {
        same_release = (same_text_iff e.sbom_id sbom).0 (ground arith);
        approver_present = approver;
        approver_allowed = ground arith;
        approver_unrevoked = ground arith;
        exceptionable = p;
        requester_apart = separation-requester e.requested_by e.owned_by a.approved_by g sd;
        owner_apart = separation-owner e.requested_by e.owned_by a.approved_by g sd;
        period =
            validate_period-ValidPeriod now (from_or_now e.valid_from now)
              (until_date e.valid_until) e.residual_risk g (ground arith);
        unexpired = λ t q. not_passed t (ap (λ d. date_le d now) q) x;
      }
    where
      not_passed :
          (t : ℕ)
          → date_le (until_date e.valid_until) now ≡ leb t now
          → date_le (until_date e.valid_until) now ≡ false
          → now < t
      not_passed t q x = ground arith
