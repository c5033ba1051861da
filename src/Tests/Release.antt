-- ===== src/Tests/Release.antt =====
-- The evaluation of a release (`evaluateTrust`).
use tpsr_v.Prelude.{
  ◌≡◌, refl, sym, subst, ◌↔◌, true, false, some, [], ◌∷◌, any, In, here, filter, text_eq, is,
  truthy, or_text, or_else, same_text, includes, trim, to_upper_case,
}
use tpsr_v.ContextRisk.{BlockingStatus, exploit_of, verdict_of}
use tpsr_v.ContextRisk.Evaluate.{
  round, run_loop, no_vulnerabilities, examine, unreliable, status_of, exception_applies, conclude,
  evaluate, raise_risk, verdict,
}
use tpsr_v.ContextRisk.Evaluate.Loop.{vuln_blocks, vuln_asks_review}
use tpsr_v.ContextRisk.Evaluate.Outcome.{IsReliable}
use tpsr_v.ContextRisk.Evaluate
use tpsr_v.Evidence.{SbomDocument, ContextAssertion, PolicyException}
use tpsr_v.Evidence.Context
use tpsr_v.Evidence.Vex
use tpsr_v.Evidence.Exceptions.{
  differs, rule_allowed, environment_differs, names, all_found, all_components_found,
  version_differs, max_hours, exceeds, too_long, starts_later, from_date, ends_badly, blank,
  in_force, IsGoverned,
}
use tpsr_v.Evidence.Assembler.{
  vulnerabilities, selection, base_vector, active_exceptions, exception_active, id_of, assemble,
}
use tpsr_v.Trust.{
  EvidenceBundle, trusted, conditionally_accepted, review_required, rejected, finalize,
  required_checks_of, all_checks, missing_of, context_is_required,
}
use tpsr_v.Trust.Mandatory.{
  dep_context, summary_of, is_valid_provenance, is_valid_signature, with_document, with_provenance,
  missing_document, reject_provenance, provenance_failure, provenance_rule, fail, reject_signature,
  signature_failure, signature_rule,
}
use tpsr_v.Trust.Evaluate.{
  bundle_of, context_code, context_dependency, required_for_verify, first_exception_id,
  accept_conditionally, decide, triggered, with_signature, check_signature, check_provenance,
  evaluate_trust,
}
use tpsr_v.Trust.Evaluate.Decision.{HasMandatory, context_of}
use tpsr_v.Trust.Evaluate.Safety.{
  evaluate_trust-trusted_iff, evaluate_trust-trusted_safe, evaluate_trust-rejected_of_missing,
  evaluate_trust-conditionally_accepted, evaluate_trust-several_vex,
}
use tpsr_v.Tests.Inputs.{
  release, attestation, seal, trust_policy, excepted_bundle, trusted_bundle, disputed_bundle,
  empty_bundle, unproven_bundle, forged_bundle,
}

trusted_run : (evaluate_trust trust_policy 50 trusted_bundle).trust_status ≡ trusted
unfolding evaluate_trust check_provenance check_signature with_signature finalize decide
    context_code accept_conditionally bundle_of dep_context summary_of is_valid_provenance
    is_valid_signature with_document with_provenance evaluate Evaluate.normalized round run_loop
    no_vulnerabilities examine unreliable status_of exception_applies conclude raise_risk verdict
    exploit_of verdict_of assemble vulnerabilities selection base_vector active_exceptions
    exception_active id_of Context.context_required Context.expired Context.is_active
    Context.is_conflicting Context.choose Context.select_listed Context.select
    Context.missing_context Context.vector_of Context.empty_vector Context.normalize_environment
    Context.normalize_exposure Context.canonical_environment Context.canonical_exposure
    Vex.mapped_severity Vex.normalize_vulnerability Vex.of_component Vex.of_components Vex.top_level
    Vex.collect Vex.is_active Vex.stated Vex.upper_or_unknown Vex.concerns Vex.overlay Vex.is_stale
    Vex.is_invalid Vex.is_single Vex.is_several differs rule_allowed environment_differs names
    all_found all_components_found version_differs max_hours exceeds too_long starts_later from_date
    ends_badly blank in_force text_eq is truthy or_text or_else same_text includes trim
    to_upper_case
trusted_run = refl

accepted_run :
    (evaluate_trust trust_policy 50 excepted_bundle).trust_status ≡ conditionally_accepted
unfolding evaluate_trust check_provenance check_signature with_signature finalize decide
    context_code accept_conditionally bundle_of dep_context summary_of is_valid_provenance
    is_valid_signature with_document with_provenance evaluate Evaluate.normalized round run_loop
    no_vulnerabilities examine unreliable status_of exception_applies conclude raise_risk verdict
    exploit_of verdict_of assemble vulnerabilities selection base_vector active_exceptions
    exception_active id_of Context.context_required Context.expired Context.is_active
    Context.is_conflicting Context.choose Context.select_listed Context.select
    Context.missing_context Context.vector_of Context.empty_vector Context.normalize_environment
    Context.normalize_exposure Context.canonical_environment Context.canonical_exposure
    Vex.mapped_severity Vex.normalize_vulnerability Vex.of_component Vex.of_components Vex.top_level
    Vex.collect Vex.is_active Vex.stated Vex.upper_or_unknown Vex.concerns Vex.overlay Vex.is_stale
    Vex.is_invalid Vex.is_single Vex.is_several differs rule_allowed environment_differs names
    all_found all_components_found version_differs max_hours exceeds too_long starts_later from_date
    ends_badly blank in_force text_eq is truthy or_text or_else same_text includes trim
    to_upper_case
accepted_run = refl

-- The explanation of a trusted release is complete.
explained_run : (evaluate_trust trust_policy 50 trusted_bundle).explanation.complete ≡ true
unfolding evaluate_trust check_provenance check_signature with_signature finalize decide
    context_code accept_conditionally bundle_of dep_context summary_of is_valid_provenance
    is_valid_signature with_document with_provenance evaluate Evaluate.normalized round run_loop
    no_vulnerabilities examine unreliable status_of exception_applies conclude raise_risk verdict
    exploit_of verdict_of assemble vulnerabilities selection base_vector active_exceptions
    exception_active id_of Context.context_required Context.expired Context.is_active
    Context.is_conflicting Context.choose Context.select_listed Context.select
    Context.missing_context Context.vector_of Context.empty_vector Context.normalize_environment
    Context.normalize_exposure Context.canonical_environment Context.canonical_exposure
    Vex.mapped_severity Vex.normalize_vulnerability Vex.of_component Vex.of_components Vex.top_level
    Vex.collect Vex.is_active Vex.stated Vex.upper_or_unknown Vex.concerns Vex.overlay Vex.is_stale
    Vex.is_invalid Vex.is_single Vex.is_several differs rule_allowed environment_differs names
    all_found all_components_found version_differs max_hours exceeds too_long starts_later from_date
    ends_badly blank in_force text_eq is truthy or_text or_else same_text includes trim
    to_upper_case required_checks_of all_checks missing_of context_is_required context_dependency
    required_for_verify first_exception_id triggered
explained_run = refl

missing_run : (evaluate_trust trust_policy 50 empty_bundle).reason_code ≡ "INT-002"
unfolding evaluate_trust missing_document finalize
missing_run = refl

unproven_run :
    (evaluate_trust trust_policy 50 unproven_bundle).triggered_rule_ids ≡ "CAECTD-R007" ∷ []
unfolding evaluate_trust check_provenance truthy reject_provenance provenance_failure
    provenance_rule fail finalize with_document
unproven_run = refl

forged_run : (evaluate_trust trust_policy 50 forged_bundle).triggered_rule_ids ≡ "CAECTD-R005" ∷ []
unfolding evaluate_trust check_provenance check_signature is_valid_provenance is_valid_signature is
    truthy reject_signature signature_failure signature_rule fail finalize with_document
    with_provenance text_eq or_text
forged_run = refl

mandatory_of :
    (b : EvidenceBundle)
    → b.sbom_document ≡ some release
    → b.provenance ≡ attestation ∷ []
    → b.signatures ≡ seal ∷ []
    → HasMandatory b release
unfolding is_valid_provenance is_valid_signature is truthy
mandatory_of b d p s = record {
  listed = d;
  identified = refl;
  provenance = attestation;
  provenance_listed = subst (In attestation) (sym p) (here refl);
  provenance_valid = refl;
  signature = seal;
  signature_listed = subst (In seal) (sym s) (here refl);
  signature_valid = refl;
}

several : Vex.is_several (filter Vex.is_active disputed_bundle.vex_statements) ≡ true
unfolding Vex.is_several Vex.is_active truthy is
several = refl

unlisted : (doc : SbomDocument) → ¬ HasMandatory empty_bundle doc
unlisted doc h = clash h.listed
  where
    clash : empty_bundle.sbom_document ≡ some doc → ⊥
    clash e = cc

evaluate_trust-trusted_iff_example :
    ((evaluate_trust trust_policy 50 trusted_bundle).trust_status ≡ trusted) ↔ (
      (doc : SbomDocument) × HasMandatory trusted_bundle doc
      × ((context_of trust_policy 50 trusted_bundle doc).policy_blocking_status
          ≡ BlockingStatus.non_blocking)
      × (any (λ e. is e.status "ACTIVE") trusted_bundle.policy_exceptions ≡ false))
evaluate_trust-trusted_iff_example = evaluate_trust-trusted_iff trust_policy 50 trusted_bundle

evaluate_trust-trusted_safe_example :
    (doc : SbomDocument) × HasMandatory trusted_bundle doc
    × IsReliable (assemble trust_policy 50 (bundle_of trusted_bundle doc))
    × (any
          (vuln_blocks (assemble trust_policy 50 (bundle_of trusted_bundle doc)))
          (vulnerabilities (bundle_of trusted_bundle doc))
        ≡ false)
    × (any
          (vuln_asks_review (assemble trust_policy 50 (bundle_of trusted_bundle doc)))
          (vulnerabilities (bundle_of trusted_bundle doc))
        ≡ false)
    × (Context.context_required trust_policy ≡ true
        → (a : ContextAssertion) × ((selection trust_policy 50
              (bundle_of trusted_bundle doc)).active_context
            ≡ some a)
          × Context.IsInForce 50 a)
evaluate_trust-trusted_safe_example =
    evaluate_trust-trusted_safe trust_policy 50 trusted_bundle trusted_run

evaluate_trust-rejected_of_missing_example :
    (evaluate_trust trust_policy 50 empty_bundle).trust_status ≡ rejected
evaluate_trust-rejected_of_missing_example =
    evaluate_trust-rejected_of_missing trust_policy 50 empty_bundle unlisted

evaluate_trust-conditionally_accepted_example :
    (doc : SbomDocument) × HasMandatory excepted_bundle doc
    × IsReliable (assemble trust_policy 50 (bundle_of excepted_bundle doc))
    × (any
          (vuln_blocks (assemble trust_policy 50 (bundle_of excepted_bundle doc)))
          (vulnerabilities (bundle_of excepted_bundle doc))
        ≡ true)
    × ((e : PolicyException) × In e excepted_bundle.policy_exceptions
        × IsGoverned doc (vulnerabilities (bundle_of excepted_bundle doc)) 50 e)
evaluate_trust-conditionally_accepted_example =
    evaluate_trust-conditionally_accepted trust_policy 50 excepted_bundle accepted_run

evaluate_trust-several_vex_example :
    (evaluate_trust trust_policy 50 disputed_bundle).trust_status ≡ review_required
evaluate_trust-several_vex_example =
    evaluate_trust-several_vex trust_policy 50 disputed_bundle release
      (mandatory_of disputed_bundle refl refl refl) several
