-- ===== src/VexEngine.antt =====
-- api/src/utils/vexEngine.js: the records, the signature of the envelope, and which statements of a
-- document are accepted. The cryptography, base64 and JSON are parameters. A time stamp is none where
-- the field is falsy, and lies after 1970.
pub mod Diagnosis
pub mod Conflict
pub mod Verify
pub mod Overlay
mod Tests
use tpsr_v.Prelude.{
  ℕ, ◌+◌, ◌*◌, String, Bool, true, false, not, ◌&&◌, ◌||◌, Option, none, some, List, [], ◌∷◌, ◌++◌,
  is, truthy, text_eq, includes, any, is_empty, if◌then◌else◌, leb, ltb,
}
use tpsr_v.Evidence.{Date, invalid_date, at}

-- A DSSE envelope; the signatures are the `sig` fields.
pub record Envelope : Type 0 where
  pub payload_type : Option String
  pub payload : Option String
  pub signatures : List String

-- A product of a statement: its `@id`, and the hashes of its subcomponents.
pub record Product : Type 0 where
  pub id : Option String
  pub hashes : List String

pub record Statement : Type 0 where
  pub timestamp : Option Date
  pub expires_at : Option Date
  pub vulnerability_name : Option String
  pub vulnerability_id : Option String
  pub products : List Product
  pub status : Option String
  pub justification : Option String
  pub impact_statement : Option String

-- The parsed payload.
pub record Document : Type 0 where
  pub predicate_type : Option String
  pub timestamp : Option Date
  pub statements : List Statement

-- `crypto` and the decoding: the fingerprint of a public key, if it can be read; whether a signature
-- verifies over the pre-authentication encoding of a type and a payload; the payload's document.
pub record Crypto : Type 0 where
  pub fingerprint : String → Option String
  pub verifies : String → String → String → String → Bool
  pub parse : String → Option Document

-- An entry of `authorizedIssuers`; its public key can be read.
pub record Issuer : Type 0 where
  pub identity : String
  pub fingerprint : String
  pub global_authority : Bool
  pub allowed_products : List String

-- What the trust policy says of VEX, with the defaults of 600 seconds and 365 days, and its
-- `isRevoked('VEX_ISSUER', …)` at the time of the check.
pub record VexPolicy : Type 0 where
  pub allowed_justifications : List String
  pub authorized_issuers : List Issuer
  pub clock_skew_seconds : ℕ
  pub max_validity_days : ℕ
  pub expiry_required : Bool
  pub require_impact_statement : Bool
  pub is_revoked : String → Bool

-- `targetContext`
pub record Target : Type 0 where
  pub vulnerability_id : Option String
  pub product_identifier : Option String
  pub digest : Option String

pub data Dsse : Type 0 where
  verified : String → Dsse
  failed : String → Dsse

-- The check of the envelope, whose payload is not absent.
abbrev pub is_malformed : Envelope → String → Bool
is_malformed e payload =
    not (is e.payload_type "application/vnd.in-toto+json")
    || text_eq payload ""
    || is_empty e.signatures

-- The loop over the signatures.
abbrev pub is_signed : Crypto → Envelope → String → String → Bool
is_signed crypto e key payload =
    any (crypto.verifies key "application/vnd.in-toto+json" payload) e.signatures

abbrev pub key_result : Bool → String → Dsse
key_result b print = if b then verified print else failed "VEX-010"

abbrev pub payload_result : Crypto → Envelope → String → String → Dsse
payload_result crypto e key payload = elim (crypto.fingerprint key) [
  | none ↦ failed "VEX-021"
  | some print ↦ key_result (is_signed crypto e key payload) print
]

-- `verifyDSSE`: the fingerprint of the key, or the reason code that is thrown.
unfoldable pub verify_dsse : Crypto → Envelope → String → Dsse
verify_dsse crypto e key = elim e.payload [
  | none ↦ failed "VEX-011"
  | some payload ↦
      if is_malformed e payload then failed "VEX-011" else payload_result crypto e key payload
]

-- `stmt.timestamp || globalTimestamp`
unfoldable pub time_of : Option Date → Statement → Option Date
time_of global s = elim s.timestamp [ some d ↦ some d | none ↦ global ]

-- Not in the future, but for the skew, and not too old.
unfoldable pub is_timely : VexPolicy → ℕ → ℕ → Bool
is_timely p now t =
    not (ltb (now + p.clock_skew_seconds * 1000) t)
    && not (ltb (t + p.max_validity_days * 86400000) now)

-- `isNaN(exp) || exp <= issuedAt || exp < Date.now()`
unfoldable pub is_expired : ℕ → ℕ → Date → Bool
is_expired now t invalid_date = true
is_expired now t (at e) = leb e t || ltb e now

unfoldable pub expires_well : VexPolicy → ℕ → ℕ → Option Date → Bool
expires_well p now t none = not p.expiry_required
expires_well p now t (some e) = not (is_expired now t e)

-- `[name, id].filter(Boolean).includes(wanted)`, where `wanted` is a text that is not empty
unfoldable pub names_vulnerability : Statement → String → Bool
names_vulnerability s wanted = is s.vulnerability_name wanted || is s.vulnerability_id wanted

unfoldable pub names_product : Statement → String → Bool
names_product s wanted = any (λ (p : Product). is p.id wanted) s.products

unfoldable pub has_digest : Statement → String → Bool
has_digest s wanted = any (λ (p : Product). includes p.hashes wanted) s.products

-- A test that applies where the target has the field.
unfoldable pub where_given : Option String → (String → Bool) → Bool
where_given none test = true
where_given (some s) test = text_eq s "" || test s

unfoldable pub in_scope : Option Target → Statement → Bool
in_scope none s = true
in_scope (some t) s =
    where_given t.vulnerability_id (names_vulnerability s)
    && where_given t.product_identifier (names_product s)
    && where_given t.digest (has_digest s)

-- The body of the loop over the statements, up to `matchingStmts.push`.
unfoldable pub accepts : VexPolicy → ℕ → Option Target → Option Date → Statement → Bool
accepts p now target global s = elim (time_of global s) [
  | none ↦ false
  | some d ↦ elim d [
    | invalid_date ↦ false
    | at t ↦ is_timely p now t && expires_well p now t s.expires_at && in_scope target s
  ]
]

-- `{ ...stmt, timestamp: tStampStr }`
abbrev pub stamped : Option Date → Statement → Statement
stamped global s = record s { timestamp = time_of global s }

-- `matchingStmts`
unfoldable pub matching :
    VexPolicy → ℕ → Option Target → Option Date → List Statement → List Statement
matching p now target global [] = []
matching p now target global (s ∷ ss) =
    let rest = matching p now target global ss in
    if accepts p now target global s then stamped global s ∷ rest else rest
