-- ===== src/Evidence.antt =====
-- The records that the evidence modules of api/src/utils and api/src/services read. A field that the
-- source reads under two spellings (`valid_until`, `validUntil`) is one field here.
pub mod Assurance
pub mod Context
pub mod Vex
pub mod Exceptions
pub mod Assembler
use tpsr_v.Prelude.{String, Bool, true, false, Option, none, some, List, ℕ, ltb, leb}

-- `new Date(value)`: milliseconds, or the invalid date, with which every comparison is false.
pub data Date : Type 0 where
  invalid_date : Date
  at : ℕ → Date

-- `date <= now` and `date > now`
abbrev pub date_le : Date → ℕ → Bool
date_le invalid_date now = false
date_le (at t) now = leb t now

abbrev pub date_gt : Date → ℕ → Bool
date_gt invalid_date now = false
date_gt (at t) now = ltb now t

pub record Provenance : Type 0 where
  pub id : Option String
  pub status : Option String
  pub slsa_level : Option String
  pub reason_code : Option String
  pub reason_codes : List String
  pub reason_description : Option String
  pub failure_reason : Option String

pub record Signature : Type 0 where
  pub id : Option String
  pub verification_status : Option String
  pub reason_code : Option String
  pub reason_description : Option String
  pub failure_reason : Option String

pub record VexStatement : Type 0 where
  pub id : Option String
  pub vex_authoritative : Bool
  pub signature_status : Option String
  pub public_key_fingerprint : Option String
  pub policy_version : Option String
  pub target_binding : Option String
  pub canonical_payload_digest : Option String
  pub is_deleted : Bool
  pub applicability_disposition : Option String
  pub assurance_state : Option String
  pub applicability_status : Option String
  pub status : Option String
  pub applicability : Option String
  pub vulnerability_id : Option String
  pub cve : Option String

pub record ContextAssertion : Type 0 where
  pub id : Option String
  pub status : Option String
  pub verification_status : Option String
  pub assurance_state : Option String
  pub valid_until : Option Date
  pub environment : Option String
  pub deployment_tier : Option String
  pub internet_exposure : Option String
  pub asset_criticality : Option String
  pub privilege_level : Option String
  pub data_sensitivity : Option String
  pub runtime_execution : Option String
  pub component_presence : Option String

pub record PolicyException : Type 0 where
  pub id : Option String
  pub status : Option String
  pub assurance_state : Option String
  pub sbom_id : Option String
  pub policy_rule_id : Option String
  pub digest_manifest_digest : Option String
  pub environment : Option String
  pub vulnerability_ids : List String
  pub component_identifiers : List String
  pub policy_version : Option String
  pub valid_from : Option Date
  pub valid_until : Option Date
  pub residual_risk : Option String
  pub requested_by : Option String
  pub approved_by : Option String
  pub remediation_plan : Option String
  pub compensating_controls : List String

-- A vulnerability as the SBOM lists it; `ratings` holds the severities of its ratings.
pub record RawVulnerability : Type 0 where
  pub id : Option String
  pub cve : Option String
  pub vulnerability_id : Option String
  pub bom_ref : Option String
  pub original_severity : Option String
  pub severity : Option String
  pub vex_applicability : Option String
  pub ratings : List (Option String)

pub record Component : Type 0 where
  pub bom_ref : Option String
  pub name : Option String
  pub vulnerabilities : List RawVulnerability

-- `components` and `vulnerabilities` are read from the parsed `sbom_json`, and empty if it does not
-- parse.
pub record SbomDocument : Type 0 where
  pub id : Option String
  pub sbom_id : Option String
  pub sbom_hash : Option String
  pub components : List Component
  pub vulnerabilities : List RawVulnerability

-- The fields of docs/TRUST_POLICY.json that these modules read. `operations` are those of
-- `contextRiskPolicy`, if there is one; `max_validity_hours` is `maximumValidityHoursByRisk`.
pub record TrustPolicy : Type 0 where
  pub schema_version : Option String
  pub version : Option String
  pub hash : Option String
  pub require_deployment_context : Bool
  pub operations : Option (List String)
  pub max_validity_hours : List (String × ℕ)
