-- ===== src/Tests/Inputs.antt =====
-- A release, its evidence and a policy, which the runs share.
use tpsr_v.Prelude.{true, false, none, some, [], ◌∷◌}
use tpsr_v.ContextRisk.{Vulnerability, ContextVector, RiskInput}
use tpsr_v.Evidence.{
  at, Provenance, Signature, VexStatement, ContextAssertion, PolicyException, RawVulnerability,
  SbomDocument, TrustPolicy,
}
use tpsr_v.Trust.{EvidenceBundle}

abbrev pub flaw : RawVulnerability
flaw = record {
  id = some "CVE-1";
  cve = none;
  vulnerability_id = none;
  bom_ref = none;
  original_severity = none;
  severity = some "CRITICAL";
  vex_applicability = none;
  ratings = [];
}

abbrev pub release : SbomDocument
release = record {
  id = some "7";
  sbom_id = some "sbom-1";
  sbom_hash = none;
  components = [];
  vulnerabilities = flaw ∷ [];
}

abbrev pub attestation : Provenance
attestation = record {
  id = some "p";
  status = some "VALID";
  slsa_level = some "SLSA_3";
  reason_code = none;
  reason_codes = [];
  reason_description = none;
  failure_reason = none;
}

abbrev pub seal : Signature
seal = record {
  id = some "s";
  verification_status = some "VERIFIED";
  reason_code = none;
  reason_description = none;
  failure_reason = none;
}

abbrev pub production : ContextAssertion
production = record {
  id = some "c";
  status = some "ACTIVE";
  verification_status = some "VERIFIED";
  assurance_state = some "VERIFIED_TRUSTED";
  valid_until = none;
  environment = some "PRODUCTION";
  deployment_tier = none;
  internet_exposure = some "PUBLIC";
  asset_criticality = none;
  privilege_level = none;
  data_sensitivity = none;
  runtime_execution = some "EXECUTED";
  component_presence = some "PRESENT";
}

abbrev pub laboratory : ContextAssertion
laboratory = record {
  id = some "c";
  status = some "ACTIVE";
  verification_status = some "VERIFIED";
  assurance_state = some "VERIFIED_TRUSTED";
  valid_until = none;
  environment = some "STAGING";
  deployment_tier = none;
  internet_exposure = some "NONE";
  asset_criticality = none;
  privilege_level = none;
  data_sensitivity = none;
  runtime_execution = some "EXECUTED";
  component_presence = some "PRESENT";
}

abbrev pub waiver : PolicyException
waiver = record {
  id = some "x";
  status = some "ACTIVE";
  assurance_state = some "VERIFIED_TRUSTED";
  sbom_id = some "sbom-1";
  policy_rule_id = some "CAECTD-R017";
  digest_manifest_digest = none;
  environment = some "PRODUCTION";
  vulnerability_ids = "CVE-1" ∷ [];
  component_identifiers = [];
  policy_version = none;
  valid_from = some (at 10);
  valid_until = some (at 90);
  residual_risk = some "HIGH";
  requested_by = some "ann";
  approved_by = some "bob";
  remediation_plan = some "upgrade";
  compensating_controls = "firewall" ∷ [];
}

abbrev pub statement : VexStatement
statement = record {
  id = some "v";
  vex_authoritative = true;
  signature_status = some "VERIFIED";
  public_key_fingerprint = some "k";
  policy_version = some "3";
  target_binding = some "t";
  canonical_payload_digest = some "d";
  is_deleted = false;
  applicability_disposition = none;
  assurance_state = none;
  applicability_status = none;
  status = some "NOT_AFFECTED";
  applicability = none;
  vulnerability_id = some "CVE-1";
  cve = none;
}

abbrev pub other_statement : VexStatement
other_statement = record {
  id = some "u";
  vex_authoritative = true;
  signature_status = some "VERIFIED";
  public_key_fingerprint = some "k";
  policy_version = some "3";
  target_binding = some "t";
  canonical_payload_digest = some "d";
  is_deleted = false;
  applicability_disposition = none;
  assurance_state = none;
  applicability_status = none;
  status = some "NOT_AFFECTED";
  applicability = none;
  vulnerability_id = some "CVE-2";
  cve = none;
}

abbrev pub trust_policy : TrustPolicy
trust_policy = record {
  schema_version = none;
  version = some "3";
  hash = some "h";
  require_deployment_context = true;
  operations = none;
  max_validity_hours = [];
}

abbrev pub excepted_bundle : EvidenceBundle
excepted_bundle = record {
  sbom_document = some release;
  provenance = attestation ∷ [];
  signatures = seal ∷ [];
  vex_statements = [];
  active_context_assertion = some production;
  deployment_context = none;
  all_active_context_assertions = none;
  policy_exceptions = waiver ∷ [];
}

abbrev pub trusted_bundle : EvidenceBundle
trusted_bundle = record {
  sbom_document = some release;
  provenance = attestation ∷ [];
  signatures = seal ∷ [];
  vex_statements = [];
  active_context_assertion = some laboratory;
  deployment_context = none;
  all_active_context_assertions = none;
  policy_exceptions = [];
}

abbrev pub disputed_bundle : EvidenceBundle
disputed_bundle = record {
  sbom_document = some release;
  provenance = attestation ∷ [];
  signatures = seal ∷ [];
  vex_statements = statement ∷ other_statement ∷ [];
  active_context_assertion = some laboratory;
  deployment_context = none;
  all_active_context_assertions = none;
  policy_exceptions = [];
}

abbrev pub empty_bundle : EvidenceBundle
empty_bundle = record {
  sbom_document = none;
  provenance = [];
  signatures = [];
  vex_statements = [];
  active_context_assertion = none;
  deployment_context = none;
  all_active_context_assertions = none;
  policy_exceptions = [];
}

abbrev pub vulnerable : Vulnerability
vulnerable = record {
  id = some "CVE-1";
  cve = none;
  vulnerability_id = none;
  component_id = none;
  original_severity = none;
  severity = some "CRITICAL";
  vex_applicability = none;
}

abbrev pub minor : Vulnerability
minor = record {
  id = some "CVE-2";
  cve = none;
  vulnerability_id = none;
  component_id = none;
  original_severity = none;
  severity = some "LOW";
  vex_applicability = none;
}

abbrev pub exposed : ContextVector
exposed = record {
  environment = some "PRODUCTION";
  internet_exposure = some "PUBLIC";
  asset_criticality = none;
  privilege_level = none;
  data_sensitivity = none;
  runtime_execution = none;
  component_presence = none;
  exception_status = some "ACTIVE";
  has_stale_vex = false;
  has_invalid_vex = false;
  has_expired_exception = false;
}

abbrev pub secluded : ContextVector
secluded = record {
  environment = some "DEVELOPMENT";
  internet_exposure = some "NONE";
  asset_criticality = none;
  privilege_level = none;
  data_sensitivity = none;
  runtime_execution = none;
  component_presence = none;
  exception_status = none;
  has_stale_vex = false;
  has_invalid_vex = false;
  has_expired_exception = false;
}

abbrev pub blocking_input : RiskInput
blocking_input = record {
  conflict = false;
  invalid_context = false;
  missing_context = false;
  class_a_failure = false;
  context_required = false;
  vex_trusted = false;
  vex_current = false;
  vex_exact_scope = false;
  exception_trusted = true;
  component_presence_trusted = false;
  context_assertion_id = none;
  vulnerabilities = some (vulnerable ∷ minor ∷ []);
  vulns = none;
  vulnerability = none;
  sbom_components = none;
  context_vector = exposed;
}

abbrev pub quiet_input : RiskInput
quiet_input = record {
  conflict = false;
  invalid_context = false;
  missing_context = false;
  class_a_failure = false;
  context_required = false;
  vex_trusted = false;
  vex_current = false;
  vex_exact_scope = false;
  exception_trusted = false;
  component_presence_trusted = false;
  context_assertion_id = none;
  vulnerabilities = some (minor ∷ []);
  vulns = none;
  vulnerability = none;
  sbom_components = none;
  context_vector = secluded;
}

abbrev pub unproven_bundle : EvidenceBundle
unproven_bundle = record {
  sbom_document = some release;
  provenance = [];
  signatures = seal ∷ [];
  vex_statements = [];
  active_context_assertion = none;
  deployment_context = none;
  all_active_context_assertions = none;
  policy_exceptions = [];
}

abbrev pub forgery : Signature
forgery = record {
  id = some "f";
  verification_status = some "FAILED";
  reason_code = some "SIG-003";
  reason_description = none;
  failure_reason = none;
}

abbrev pub forged_bundle : EvidenceBundle
forged_bundle = record {
  sbom_document = some release;
  provenance = attestation ∷ [];
  signatures = forgery ∷ [];
  vex_statements = [];
  active_context_assertion = none;
  deployment_context = none;
  all_active_context_assertions = none;
  policy_exceptions = [];
}
