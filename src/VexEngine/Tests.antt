-- ===== src/VexEngine/Tests.antt =====
-- A document that is verified, some that are not, and an overlay.
use tpsr_v.Prelude.{
  ◌≡◌, refl, ℕ, ◌<◌, String, true, false, Option, none, some, List, [], ◌∷◌, In, here, there, arith,
  subst, sym, text_eq, is, truthy, or_text, includes, map, All, to_upper_case,
}
use tpsr_v.Evidence.{at}
use tpsr_v.VexEngine.{
  Envelope, Statement, Document, Crypto, VexPolicy, Target, verify_dsse, time_of, is_timely,
  is_expired, expires_well, names_vulnerability, names_product, has_digest, where_given, in_scope,
  accepts, matching,
}
use tpsr_v.VexEngine.Diagnosis.{
  untimely, expiry_fails, diagnose_scope, diagnose, diagnose_all, time_code, start, rejection_code,
}
use tpsr_v.VexEngine.Conflict.{
  time_in, rank, before, insert, sort_from, resolve_conflict, AtMost, resolve_conflict-AtMost,
}
use tpsr_v.VexEngine.Verify.{
  Result, unverified, with_code, accepted, is_justified, judge, has_authority, choose,
  check_document, check_issuer, check_signature, verify_document,
}
use tpsr_v.VexEngine.Verify.Outcome.{IsConsistent, verify_document-IsConsistent}
use tpsr_v.VexEngine.Verify.Guarantee.{IsBacked, verify_document-IsBacked}
use tpsr_v.VexEngine.Overlay.{
  VexRecord, Vulnerability, is_authoritative, evaluate_statement, concerns, applies, add_ids,
  active_ids, apply_overlays,
}
use tpsr_v.VexEngine.Overlay.Mitigated.{Explained, vulnerability_of, apply_overlays-Explained}

abbrev statement : String → ℕ → Statement
statement status t = record {
  timestamp = some (at t);
  expires_at = some (at 900);
  vulnerability_name = some "CVE-1";
  vulnerability_id = none;
  products = record { id = some "pkg:app@1"; hashes = "d" ∷ [] } ∷ [];
  status = some status;
  justification = some "code_not_reachable";
  impact_statement = some "none";
}

abbrev document : Document
document = record {
  predicate_type = some "https://openvex.dev/ns/v0.2.0";
  timestamp = none;
  statements = statement "affected" 200 ∷ statement "not_affected" 300 ∷ [];
}

abbrev crypto : Crypto
crypto = record {
  fingerprint = λ key. some "f";
  verifies = λ key type payload sig. text_eq sig "good";
  parse = λ payload. some document;
}

abbrev envelope : String → Envelope
envelope sig = record {
  payload_type = some "application/vnd.in-toto+json";
  payload = some "e30=";
  signatures = "bad" ∷ sig ∷ [];
}

abbrev policy : VexPolicy
policy = record {
  allowed_justifications = "code_not_reachable" ∷ [];
  authorized_issuers =
      record {
        identity = "vendor";
        fingerprint = "f";
        global_authority = false;
        allowed_products = "pkg:app@1" ∷ [];
      }
      ∷ [];
  clock_skew_seconds = 600;
  max_validity_days = 365;
  expiry_required = true;
  require_impact_statement = true;
  is_revoked = λ name. false;
}

abbrev target : String → Option Target
target vulnerability = some (record {
  vulnerability_id = some vulnerability;
  product_identifier = some "pkg:app@1";
  digest = some "d";
})

abbrev run : String → ℕ → String → Result
run sig now vulnerability =
    verify_document crypto (some policy) now (envelope sig) "OFFLINE_KEYED" "key"
      (target vulnerability)

-- The newest statement decides.
valid_run : (run "good" 400 "CVE-1").is_valid ≡ true
unfolding verify_document verify_dsse check_signature check_issuer check_document choose matching
    accepts time_of is_timely expires_well is_expired in_scope where_given names_vulnerability
    names_product has_digest resolve_conflict sort_from insert before rank time_in judge
    is_justified accepted with_code has_authority unverified text_eq is truthy or_text includes
valid_run = refl

unsigned_run : (run "worse" 400 "CVE-1").reason_code ≡ "VEX-010"
unfolding verify_document verify_dsse check_signature unverified with_code text_eq is
unsigned_run = refl

other_run : (run "good" 400 "CVE-2").reason_code ≡ "VEX-005"
unfolding verify_document verify_dsse check_signature check_issuer check_document choose matching
    accepts time_of is_timely expires_well is_expired in_scope where_given names_vulnerability
    names_product has_digest resolve_conflict sort_from rejection_code diagnose_all diagnose
    diagnose_scope untimely expiry_fails start time_code with_code has_authority unverified text_eq
    is truthy includes
other_run = refl

expired_run : (run "good" 1000 "CVE-1").reason_code ≡ "VEX-015"
unfolding verify_document verify_dsse check_signature check_issuer check_document choose matching
    accepts time_of is_timely expires_well is_expired in_scope where_given names_vulnerability
    names_product has_digest resolve_conflict sort_from rejection_code diagnose_all diagnose
    diagnose_scope untimely expiry_fails start time_code with_code has_authority unverified text_eq
    is truthy includes
expired_run = refl

future_run : time_code policy 100 none "VEX-013" (statement "fixed" 700000 ∷ []) ≡ "VEX-014"
unfolding time_code time_of
future_run = refl

verify_document-IsConsistent_example : IsConsistent (run "good" 400 "CVE-1")
verify_document-IsConsistent_example =
    verify_document-IsConsistent crypto (some policy) 400 (envelope "good") "OFFLINE_KEYED" "key"
      (target "CVE-1")

verify_document-IsBacked_example :
    IsBacked crypto policy 400
      (envelope "good")
      "OFFLINE_KEYED"
      "key"
      (target "CVE-1")
      (run "good" 400 "CVE-1")
verify_document-IsBacked_example =
    verify_document-IsBacked crypto policy 400 (envelope "good") "OFFLINE_KEYED" "key"
      (target "CVE-1") valid_run

abbrev tied : List Statement
tied = statement "not_affected" 300 ∷ statement "affected" 300 ∷ []

tied_run : resolve_conflict tied ≡ some (statement "affected" 300)
unfolding resolve_conflict sort_from insert before rank time_in text_eq or_text
tied_run = refl

ranks : (s : Statement) → In s tied → 0 < rank s
unfolding rank text_eq or_text
ranks s (here e) = subst (λ x. 0 < rank x) (sym e) (omega arith)
ranks s (there (here e)) = subst (λ x. 0 < rank x) (sym e) (omega arith)
ranks s (there (there m)) = elim m [ ]

resolve_conflict-AtMost_example :
    In (statement "affected" 300) tied
    × ((s : Statement) → In s tied → AtMost s (statement "affected" 300))
resolve_conflict-AtMost_example = resolve_conflict-AtMost tied ranks tied_run

abbrev record_of : String → VexRecord
record_of status = record {
  id = some "v";
  vulnerability_id = some "cve-1";
  vex_authoritative = true;
  signature_status = some "VERIFIED";
  public_key_fingerprint = some "f";
  policy_version = some "1";
  target_binding = some "t";
  canonical_payload_digest = some "d";
  valid = none;
  status = some status;
  justification = none;
}

abbrev vulnerabilities : List Vulnerability
vulnerabilities = record { id = some "CVE-1" } ∷ record { id = some "CVE-2" } ∷ []

overlay_run : (apply_overlays to_upper_case vulnerabilities (record_of "fixed" ∷ [])).1 ≡ "v" ∷ []
unfolding apply_overlays active_ids add_ids applies concerns is_authoritative to_upper_case text_eq
    is truthy or_text includes
overlay_run = refl

blocked_run : (evaluate_statement (record_of "affected")).reason_code ≡ "VEX-003"
unfolding evaluate_statement is_authoritative is truthy
blocked_run = refl

apply_overlays-Explained_example :
    (map vulnerability_of (apply_overlays to_upper_case vulnerabilities (record_of "fixed" ∷ [])).0
      ≡ vulnerabilities)
    × All
        (Explained to_upper_case (record_of "fixed" ∷ []))
        (apply_overlays to_upper_case vulnerabilities (record_of "fixed" ∷ [])).0
apply_overlays-Explained_example =
    apply_overlays-Explained to_upper_case vulnerabilities (record_of "fixed" ∷ [])
