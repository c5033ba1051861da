-- ===== src/VexEngine/Verify.antt =====
-- `verifyVexDocument`. Hashes, times and copies of the statement's texts in the result are left out.
pub mod Outcome
pub mod Judged
pub mod Signed
pub mod Guarantee
use tpsr_v.Prelude.{
  ℕ, String, Bool, true, false, not, ◌&&◌, ◌||◌, Option, none, some, List, [], ◌∷◌, is, truthy,
  text_eq, includes, find, is_empty, if◌then◌else◌,
}
use tpsr_v.Evidence.{Date}
use tpsr_v.VexEngine.{
  Envelope, Statement, Document, Crypto, Issuer, VexPolicy, Target, Dsse, verified, failed,
  verify_dsse, matching,
}
use tpsr_v.VexEngine.Diagnosis.{rejection_code}
use tpsr_v.VexEngine.Conflict.{resolve_conflict}

pub data Applicability : Type 0 where
  vex_invalid not_affected under_investigation applicable fixed_for_release : Applicability

pub data Blocking : Type 0 where
  blocking review_required non_blocking : Blocking

-- `result`; `status` and `issuer` are `vexStatus` and `verifiedIssuerIdentity`, and `is_bound` says
-- whether there is a `targetBinding`.
pub record Result : Type 0 where
  pub is_valid : Bool
  pub disposition : Applicability
  pub blocking_status : Blocking
  pub reason_code : String
  pub reason_codes : List String
  pub vex_authoritative : Bool
  pub signature_verified : Bool
  pub fingerprint : Option String
  pub status : Option String
  pub issuer : Option String
  pub is_bound : Bool

unfoldable pub unverified : Result
unverified = record {
  is_valid = false;
  disposition = vex_invalid;
  blocking_status = blocking;
  reason_code = "VEX-012";
  reason_codes = [];
  vex_authoritative = false;
  signature_verified = false;
  fingerprint = none;
  status = none;
  issuer = none;
  is_bound = false;
}

-- `result.reasonCode = …; result.reasonCodes.push(…); return result`
unfoldable pub with_code : Result → String → Result
with_code r code = record r { reason_code = code; reason_codes = code ∷ [] }

-- The assignments of a branch that accepts the statement, and the end of the function.
unfoldable pub accepted : Result → Applicability → Blocking → String → Result
accepted r a b code = record (with_code r code) {
  is_valid = true;
  disposition = a;
  blocking_status = b;
  vex_authoritative = true;
  is_bound = true;
}

-- `allowedJustifications.includes(…)`
abbrev pub is_allowed : List String → Option String → Bool
is_allowed allowed none = false
is_allowed allowed (some j) = includes allowed j

-- The checks of `not_affected`.
unfoldable pub is_justified : VexPolicy → Statement → Bool
is_justified p s =
    is_allowed p.allowed_justifications s.justification
    && not (p.require_impact_statement && not (truthy s.impact_statement))

-- The semantic validation of the statement that is chosen.
unfoldable pub judge : VexPolicy → Statement → Result → Result
judge p s r =
    if is s.status "not_affected"
    then if is_justified p s
      then accepted r not_affected non_blocking "VEX-001"
      else with_code r "VEX-006"
    else if is s.status "under_investigation"
    then accepted r under_investigation review_required "VEX-002"
    else if is s.status "affected"
    then accepted r applicable blocking "VEX-008"
    else if is s.status "fixed"
    then accepted r fixed_for_release non_blocking "VEX-001"
    else with_code r "VEX-021"

-- `issuerConfig.globalAuthority`, or a product that the issuer may speak for.
unfoldable pub has_authority : Issuer → Option Target → Bool
has_authority i none = true
has_authority i (some t) =
    i.global_authority
    || not (truthy t.product_identifier)
    || is_allowed i.allowed_products t.product_identifier

abbrev pub has_fingerprint : String → Issuer → Bool
has_fingerprint print i = text_eq i.fingerprint print

module _ (p : VexPolicy) (now : ℕ) (target : Option Target) where
  -- The choice of the statement among those that match.
  unfoldable pub choose : Result → Issuer → Document → Result
  choose r i d = elim (resolve_conflict (matching p now target d.timestamp d.statements)) [
    | none ↦ with_code r (rejection_code p now target d.timestamp d.statements)
    | some s ↦ judge p s (record r { status = s.status; issuer = some i.identity })
  ]

  unfoldable pub check_document : Result → Issuer → Option Document → Result
  check_document r i none = with_code r "VEX-011"
  check_document r i (some d) =
      if is d.predicate_type "https://openvex.dev/ns/v0.2.0"
      then if is_empty d.statements then with_code r "VEX-012" else choose r i d
      else with_code r "VEX-011"

  -- The issuer with the key's fingerprint, its revocation and its authority.
  unfoldable pub check_issuer : Result → String → Option Document → Result
  check_issuer r print d = elim (find (has_fingerprint print) p.authorized_issuers) [
    | none ↦ with_code r "VEX-009"
    | some i ↦
        if p.is_revoked i.identity
        then with_code r "VEX-022"
        else if has_authority i target
        then check_document r i d
        else with_code r "VEX-009"
  ]

  unfoldable pub check_signature : Dsse → Option Document → Result
  check_signature (failed code) d = with_code unverified code
  check_signature (verified print) d =
      check_issuer (record unverified { signature_verified = true; fingerprint = some print }) print
        d

abbrev pub document_of : Crypto → Envelope → Option Document
document_of crypto e = elim e.payload [ none ↦ none | some payload ↦ crypto.parse payload ]

-- `verifyVexDocument`; the policy is none where it cannot be loaded.
unfoldable pub verify_document :
    Crypto → Option VexPolicy → ℕ → Envelope → String → String → Option Target → Result
verify_document crypto none now e type key target = with_code unverified "VEX-010"
verify_document crypto (some p) now e type key target =
    if text_eq type "OFFLINE_KEYED"
    then check_signature p now target (verify_dsse crypto e key) (document_of crypto e)
    else with_code unverified "VEX-010"
