-- ===== src/Tests/Evaluation.antt =====
-- Evaluations over HTTP, and of a submitted SBOM.
use tpsr_v.Prelude.{
  ◌≡◌, ◌≢◌, refl, String, true, Option, some, List, [], ◌∷◌, ◌++◌, text_eq, is, truthy, or_text,
  or_else, same_text, includes, trim, to_upper_case,
}
use tpsr_v.ContextRisk.{exploit_of, verdict_of}
use tpsr_v.ContextRisk.Evaluate.{
  round, run_loop, no_vulnerabilities, examine, unreliable, status_of, exception_applies, conclude,
  evaluate, raise_risk, verdict,
}
use tpsr_v.ContextRisk.Evaluate
use tpsr_v.Evidence.Context
use tpsr_v.Evidence.Vex
use tpsr_v.Evidence.Assembler.{
  vulnerabilities, selection, base_vector, active_exceptions, exception_active, id_of, assemble,
}
use tpsr_v.Trust.{TrustStatus, finalize}
use tpsr_v.Trust.Mandatory.{
  dep_context, summary_of, is_valid_provenance, is_valid_signature, with_document, with_provenance,
}
use tpsr_v.Trust.Evaluate.{
  bundle_of, context_code, accept_conditionally, decide, with_signature, check_signature,
  check_provenance, evaluate_trust,
}
use tpsr_v.Evaluation.{
  Env, Loaded, Store, created, conflict, Decision, evidence_of, is_listed, decision_of,
  decision_payload, outbox_row, write, evaluate_document, evaluate_new, decision_by_key,
  trimmed_key, with_cache, evaluate_route,
}
use tpsr_v.Evaluation.Submitted.{
  approve, manual_review_required, analysis_incomplete, map_recommendation, incomplete, advice_of,
  submitted_result, submitted_payload, submit_document, evaluate_submitted,
}
use tpsr_v.Evaluation.Queue.{NeverSubmitted, evaluate_route-NeverSubmitted}
use tpsr_v.Evaluation.Repeat.{evaluate_route-repeated}
use tpsr_v.Evaluation.Recommended.{Advised, evaluate_submitted-Advised}
use tpsr_v.Tests.Inputs.{attestation, seal, laboratory, release, trust_policy}

abbrev loaded : Loaded
loaded = record {
  provenance = attestation ∷ [];
  signatures = seal ∷ [];
  vex_statements = [];
  deployment_contexts = [];
  exceptions = [];
  assertions = laboratory ∷ [];
}

abbrev server : String → Env
server id = record {
  document_of = λ sbom. some release;
  loads = λ sbom. loaded;
  policy = trust_policy;
  now = 50;
  decision_id = id;
  outbox_id = "o";
  hash_of = λ l. "h";
  reads_cache = true;
  reads = true;
  inserts_decision = true;
  inserts_outbox = true;
  snapshots = true;
}

abbrev empty : Store
empty = record { decisions = []; outbox = [] }

approve_run : (evaluate_submitted (server "1") "sbom-1" empty).1.recommendation ≡ approve
unfolding evaluate_submitted submit_document submitted_result submitted_payload decision_of
    decision_payload write outbox_row advice_of map_recommendation incomplete evidence_of
    evaluate_trust check_provenance check_signature with_signature finalize decide context_code
    accept_conditionally bundle_of dep_context summary_of is_valid_provenance is_valid_signature
    with_document with_provenance evaluate Evaluate.normalized round run_loop no_vulnerabilities
    examine unreliable status_of exception_applies conclude raise_risk verdict exploit_of verdict_of
    assemble vulnerabilities selection base_vector active_exceptions exception_active id_of
    Context.context_required Context.expired Context.is_active Context.is_conflicting Context.choose
    Context.select_listed Context.select Context.missing_context Context.vector_of
    Context.empty_vector Context.normalize_environment Context.normalize_exposure
    Context.canonical_environment Context.canonical_exposure Vex.mapped_severity
    Vex.normalize_vulnerability Vex.of_component Vex.of_components Vex.top_level Vex.collect
    Vex.is_active Vex.stated Vex.upper_or_unknown Vex.concerns Vex.overlay Vex.is_stale
    Vex.is_invalid Vex.is_single Vex.is_several text_eq is truthy or_text or_else same_text includes
    trim to_upper_case
approve_run = refl

rejected_twice : map_recommendation TrustStatus.rejected "CTX-017" ≡ manual_review_required
unfolding map_recommendation text_eq
rejected_twice = refl

complete_run :
    (evaluate_submitted (server "1") "sbom-1" empty).1.recommendation ≢ analysis_incomplete
complete_run e = cc (approve_run)

evaluate_submitted-Advised_example :
    Advised
      (server "1")
      "sbom-1"
      empty
      (evaluate_submitted (server "1") "sbom-1" empty).0
      (evaluate_submitted (server "1") "sbom-1" empty).1
evaluate_submitted-Advised_example =
    evaluate_submitted-Advised (server "1") "sbom-1" empty complete_run

abbrev first_decision : Option String → Decision
first_decision key =
    decision_of (server "1") "sbom-1" key
      (evaluate_trust trust_policy 50 (evidence_of is_listed release loaded))

abbrev after_first : Option String → List String → Store
after_first key fields = record {
  decisions = first_decision key ∷ [];
  outbox =
      outbox_row (server "1") (
        decision_payload "sbom-1" "1"
          (evaluate_trust trust_policy 50 (evidence_of is_listed release loaded))
        ++ fields)
      ∷ [];
}

keyed_run :
    evaluate_route (server "1") " sbom-1 " (some "k ") empty
    ≡ (after_first (some "k") ("idempotencyKey" ∷ []), created (first_decision (some "k")))
unfolding evaluate_route with_cache evaluate_new evaluate_document trimmed_key write decision_by_key
    truthy trim text_eq
keyed_run = refl

evaluate_route-NeverSubmitted_example :
    NeverSubmitted empty (after_first (some "k") ("idempotencyKey" ∷ []))
evaluate_route-NeverSubmitted_example =
    evaluate_route-NeverSubmitted (server "1") " sbom-1 " (some "k ") empty keyed_run

evaluate_route-repeated_example :
    evaluate_route
      (server "2")
      "sbom-2"
      (some "k ")
      (after_first (some "k") ("idempotencyKey" ∷ []))
    ≡ (after_first (some "k") ("idempotencyKey" ∷ []), conflict)
unfolding text_eq trim truthy
evaluate_route-repeated_example =
    evaluate_route-repeated (server "1") (server "2") " sbom-1 " "sbom-2" "k " empty refl keyed_run
      refl refl
