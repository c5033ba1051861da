-- ===== src/Trust/Mandatory.antt =====
-- The mandatory checks of `evaluateTrust` in api/src/utils/trustEngine.js: the document, its
-- provenance and its signature. The instants `evaluatedAt` are left out.
use tpsr_v.Prelude.{
  ◌≡◌, refl, String, Bool, true, false, not, ◌&&◌, ◌||◌, Option, none, some, List, [], ◌∷◌, is,
  truthy, or_else, or_text, text_eq, if◌then◌else◌, map, head?, length,
}
use tpsr_v.ContextRisk.{AssuranceState, verified_trusted, missing}
use tpsr_v.Evidence.{Provenance, Signature, ContextAssertion, SbomDocument}
use tpsr_v.Evidence.Assurance.{map_provenance, map_signature}
use tpsr_v.Trust.{
  rejected, EvidenceBundle, Dependency, EvidenceSummary, TrustResult, present, finalize,
}

-- `depContext`
unfoldable pub dep_context : EvidenceBundle → Option ContextAssertion
dep_context b = elim b.active_context_assertion [ some a ↦ some a | none ↦ b.deployment_context ]

abbrev initial_summary : EvidenceSummary
initial_summary = record {
  provenance_count = 0;
  signature_count = 0;
  vex_count = 0;
  has_deployment_context = false;
  active_exception_count = 0;
}

unfoldable pub summary_of : EvidenceBundle → EvidenceSummary
summary_of b = record {
  provenance_count = length b.provenance;
  signature_count = length b.signatures;
  vex_count = length b.vex_statements;
  has_deployment_context = present (dep_context b);
  active_exception_count = length b.policy_exceptions;
}

-- `const result = { … }`
abbrev initial_result : TrustResult
initial_result = record {
  trust_status = rejected;
  reason_code = "GOV-003";
  reason_description = "Trust evaluation failed or unverified";
  evidence_summary = initial_summary;
  policy_version = "3.0";
  trust_policy_hash = "unknown";
  triggered_rule_ids = [];
  evaluated_rule_ids = [];
  integrity = none;
  provenance = none;
  signature = none;
  context_risk = none;
  exception = none;
  context_result = none;
  explanation = record {
    complete = false;
    required_checks = record {
      triggered_rules_present = false;
      reason_codes_mapped = false;
      mandatory_dependencies_evaluated = false;
      policy_version_present = false;
      trust_policy_hash_present = false;
      lifecycle_effect_present = false;
      context_policy_result_present = false;
      context_assertion_evaluated = false;
      required_vex_evaluated = false;
      exception_evaluated = false;
    };
    missing_fields = [];
  };
}

abbrev pub mandatory : AssuranceState → List (Option String) → Option Dependency
mandatory state ids = some (record { required = true; assurance_state = state; evidence_ids = ids })

-- The early return for a document that is missing or has no `sbom_id`.
unfoldable pub missing_document : TrustResult
missing_document =
    finalize
      (record initial_result {
        reason_code = "INT-002";
        reason_description =
            "SBOM document record is missing or invalid — mandatory integrity check failed.";
        triggered_rule_ids = "CAECTD-R001" ∷ [];
        integrity = mandatory missing [];
      })
      ("CAECTD-R001" ∷ [])

unfoldable pub is_valid_provenance : Provenance → Bool
is_valid_provenance p = is p.status "VALID" && not (is p.slsa_level "SLSA_BUILD_LEVEL_0")

unfoldable pub is_valid_signature : Signature → Bool
is_valid_signature s = is s.verification_status "VERIFIED"

-- The rule that a failed provenance check triggers, by the code of its first record.
unfoldable pub provenance_rule : String → String
provenance_rule code =
    if text_eq code "PRV-003"
    then "CAECTD-R009"
    else if text_eq code "PRV-006" || text_eq code "PRV-002"
    then "CAECTD-R008"
    else if text_eq code "BND-002"
    then "CAECTD-R012"
    else "CAECTD-R007"

unfoldable pub signature_rule : String → String
signature_rule code =
    if text_eq code "SIG-003"
    then "CAECTD-R005"
    else if text_eq code "BND-003"
    then "CAECTD-R006"
    else "CAECTD-R004"

-- What a failed mandatory check reports: its code, description and rule.
pub record Failure : Type 0 where
  code : String
  description : String
  rule : String

unfoldable pub provenance_failure : Option Provenance → Failure
provenance_failure first = elim first [
  | none ↦ absent
  | some p ↦
      if truthy p.reason_code
      then record {
        code = or_text p.reason_code "";
        description =
            or_text (or_else p.reason_description p.failure_reason) "Provenance validation failed.";
        rule = provenance_rule (or_text p.reason_code "");
      }
      else absent
]
  where
    absent : Failure
    absent = record {
      code = "PRV-005";
      description =
          "No valid build provenance attestation found — mandatory provenance check failed.";
      rule = "CAECTD-R007";
    }

unfoldable pub signature_failure : Option Signature → Failure
signature_failure first = elim first [
  | none ↦ absent
  | some s ↦
      if truthy s.reason_code
      then record {
        code = or_text s.reason_code "";
        description =
            or_text (or_else s.reason_description s.failure_reason)
              "Cosign signature verification failed.";
        rule = signature_rule (or_text s.reason_code "");
      }
      else absent
]
  where
    absent : Failure
    absent = record {
      code = "SIG-002";
      description = "No valid signature bundle found — mandatory signature check failed.";
      rule = "CAECTD-R004";
    }

unfoldable pub fail : TrustResult → Failure → TrustResult
fail r f = record r {
  trust_status = rejected;
  reason_code = f.code;
  reason_description = f.description;
  triggered_rule_ids = f.rule ∷ [];
}

-- The result once the document is known to be there.
unfoldable pub with_document : EvidenceBundle → SbomDocument → TrustResult
with_document b doc = record initial_result {
  evidence_summary = summary_of b;
  integrity = mandatory verified_trusted (doc.id ∷ []);
}

unfoldable pub reject_provenance : EvidenceBundle → SbomDocument → TrustResult
reject_provenance b doc =
    finalize
      (record (fail (with_document b doc) f) {
        provenance =
            mandatory (map_provenance (head? b.provenance)).normalized
              (map (λ p. p.id) b.provenance);
      })
      ("CAECTD-R001" ∷ f.rule ∷ [])
  where
    f : Failure
    f = provenance_failure (head? b.provenance)

unfoldable pub with_provenance : EvidenceBundle → SbomDocument → Provenance → TrustResult
with_provenance b doc p = record (with_document b doc) {
  provenance = mandatory (map_provenance (some p)).normalized (p.id ∷ []);
}

unfoldable pub reject_signature : EvidenceBundle → SbomDocument → Provenance → TrustResult
reject_signature b doc p =
    finalize
      (record (fail (with_provenance b doc p) f) {
        signature =
            mandatory (map_signature (head? b.signatures)).normalized
              (map (λ s. s.id) b.signatures);
      })
      ("CAECTD-R001" ∷ f.rule ∷ [])
  where
    f : Failure
    f = signature_failure (head? b.signatures)

-- The three early returns reject.
pub missing_document-rejected : missing_document.trust_status ≡ rejected
unfolding missing_document finalize
missing_document-rejected = refl

pub reject_provenance-rejected :
    (b : EvidenceBundle) (doc : SbomDocument) → (reject_provenance b doc).trust_status ≡ rejected
unfolding reject_provenance fail finalize
reject_provenance-rejected b doc = refl

pub reject_signature-rejected :
    (b : EvidenceBundle) (doc : SbomDocument) (p : Provenance)
    → (reject_signature b doc p).trust_status ≡ rejected
unfolding reject_signature fail finalize
reject_signature-rejected b doc p = refl
