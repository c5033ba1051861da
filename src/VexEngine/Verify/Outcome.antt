-- ===== src/VexEngine/Verify/Outcome.antt =====
-- What holds of every result of `verifyVexDocument`.
use tpsr_v.Prelude.{
  ◌≡◌, refl, ℕ, String, true, false, Option, none, some, [], ◌∷◌, is, text_eq, find, is_empty,
  arith, if-holds, option-holds,
}
use tpsr_v.VexEngine.{
  Envelope, Statement, Document, Crypto, Issuer, VexPolicy, Target, Dsse, verified, failed,
  verify_dsse, matching,
}
use tpsr_v.VexEngine.Diagnosis.{rejection_code}
use tpsr_v.VexEngine.Conflict.{resolve_conflict}
use tpsr_v.VexEngine.Verify.{
  Applicability, vex_invalid, not_affected, under_investigation, applicable, fixed_for_release,
  Blocking, blocking, review_required, non_blocking, Result, unverified, with_code, accepted,
  is_justified, judge, has_authority, has_fingerprint, choose, check_document, check_issuer,
  check_signature, verify_document,
}

-- One reason code; a result that is not valid blocks, has no authority and no binding; a valid one has
-- authority, a binding and a verified signature.
pub record IsConsistent (r : Result) : Type 0 where
  pub one_code : r.reason_codes ≡ r.reason_code ∷ []
  pub authority : r.vex_authoritative ≡ r.is_valid
  pub binding : r.is_bound ≡ r.is_valid
  pub closed : r.is_valid ≡ false → (r.disposition ≡ vex_invalid) × (r.blocking_status ≡ blocking)
  pub signed : r.is_valid ≡ true → r.signature_verified ≡ true

-- A result on its way to the decision.
record IsOpen (r : Result) : Type 0 where
  invalid : r.is_valid ≡ false
  unauthoritative : r.vex_authoritative ≡ false
  unbound : r.is_bound ≡ false
  undecided : r.disposition ≡ vex_invalid
  blocks : r.blocking_status ≡ blocking

with_code-IsConsistent : (r : Result) (code : String) → IsOpen r → IsConsistent (with_code r code)
unfolding with_code
with_code-IsConsistent r code o = record {
  one_code = refl;
  authority = ground arith;
  binding = ground arith;
  closed = λ i. (o.undecided, o.blocks);
  signed = λ v. ground arith;
}

accepted-IsConsistent :
    (r : Result) (a : Applicability) (b : Blocking) (code : String)
    → r.signature_verified ≡ true
    → IsConsistent (accepted r a b code)
unfolding accepted with_code
accepted-IsConsistent r a b code s = record {
  one_code = refl;
  authority = refl;
  binding = refl;
  closed = λ i. absurd (ground arith);
  signed = λ v. s;
}

judge-IsConsistent :
    (p : VexPolicy) (s : Statement) (r : Result)
    → IsOpen r
    → r.signature_verified ≡ true
    → IsConsistent (judge p s r)
unfolding judge
judge-IsConsistent p s r o v =
    if-holds IsConsistent (is s.status "not_affected") _ _
      (if-holds IsConsistent (is_justified p s) _ _
        (accepted-IsConsistent r not_affected non_blocking "VEX-001" v)
        (with_code-IsConsistent r "VEX-006" o))
      (if-holds IsConsistent (is s.status "under_investigation") _ _
        (accepted-IsConsistent r under_investigation review_required "VEX-002" v)
        (if-holds IsConsistent (is s.status "affected") _ _
          (accepted-IsConsistent r applicable blocking "VEX-008" v)
          (if-holds IsConsistent (is s.status "fixed") _ _
            (accepted-IsConsistent r fixed_for_release non_blocking "VEX-001" v)
            (with_code-IsConsistent r "VEX-021" o))))

module _ (p : VexPolicy) (now : ℕ) (target : Option Target) (r : Result) (o : IsOpen r)
    (v : r.signature_verified ≡ true) where
  choose-IsConsistent : (i : Issuer) (d : Document) → IsConsistent (choose p now target r i d)
  unfolding choose
  choose-IsConsistent i d =
      option-holds IsConsistent (resolve_conflict (matching p now target d.timestamp d.statements))
        _ _ (with_code-IsConsistent r (rejection_code p now target d.timestamp d.statements) o)
        (λ s e.
          judge-IsConsistent p s (record r { status = s.status; issuer = some i.identity })
            (record {
              invalid = o.invalid;
              unauthoritative = o.unauthoritative;
              unbound = o.unbound;
              undecided = o.undecided;
              blocks = o.blocks;
            })
            v)

  document-IsConsistent :
      (i : Issuer) (d : Option Document) → IsConsistent (check_document p now target r i d)
  unfolding check_document
  document-IsConsistent i none = with_code-IsConsistent r "VEX-011" o
  document-IsConsistent i (some d) =
      if-holds IsConsistent (is d.predicate_type "https://openvex.dev/ns/v0.2.0") _ _
        (if-holds IsConsistent (is_empty d.statements) _ _ (with_code-IsConsistent r "VEX-012" o)
          (choose-IsConsistent i d))
        (with_code-IsConsistent r "VEX-011" o)

  issuer-IsConsistent :
      (print : String) (d : Option Document) → IsConsistent (check_issuer p now target r print d)
  unfolding check_issuer
  issuer-IsConsistent print d =
      option-holds IsConsistent (find (has_fingerprint print) p.authorized_issuers) _ _
        (with_code-IsConsistent r "VEX-009" o)
        (λ i e.
          if-holds IsConsistent (p.is_revoked i.identity) _ _ (with_code-IsConsistent r "VEX-022" o)
            (if-holds IsConsistent (has_authority i target) _ _ (document-IsConsistent i d)
              (with_code-IsConsistent r "VEX-009" o)))

unverified-IsOpen : IsOpen unverified
unfolding unverified
unverified-IsOpen = record {
  invalid = refl;
  unauthoritative = refl;
  unbound = refl;
  undecided = refl;
  blocks = refl;
}

signature-IsConsistent :
    (p : VexPolicy) (now : ℕ) (target : Option Target) (s : Dsse) (d : Option Document)
    → IsConsistent (check_signature p now target s d)
unfolding check_signature
signature-IsConsistent p now target (failed code) d =
    with_code-IsConsistent unverified code unverified-IsOpen
signature-IsConsistent p now target (verified print) d =
    issuer-IsConsistent p now target
      (record unverified { signature_verified = true; fingerprint = some print })
      (record {
        invalid = unverified-IsOpen.invalid;
        unauthoritative = unverified-IsOpen.unauthoritative;
        unbound = unverified-IsOpen.unbound;
        undecided = unverified-IsOpen.undecided;
        blocks = unverified-IsOpen.blocks;
      })
      refl print d

-- A verification ends with exactly one reason code; a statement counts as authoritative and bound to
-- its target exactly when the result is valid; an invalid result is VEX_INVALID and BLOCKING; and a
-- valid one has a verified signature.
pub verify_document-IsConsistent :
    (crypto : Crypto) (p : Option VexPolicy) (now : ℕ) (e : Envelope) (type key : String)
    (target : Option Target)
    → IsConsistent (verify_document crypto p now e type key target)
unfolding verify_document
verify_document-IsConsistent crypto none now e type key target =
    with_code-IsConsistent unverified "VEX-010" unverified-IsOpen
verify_document-IsConsistent crypto (some p) now e type key target =
    if-holds IsConsistent (text_eq type "OFFLINE_KEYED") _ _
      (signature-IsConsistent p now target (verify_dsse crypto e key) _)
      (with_code-IsConsistent unverified "VEX-010" unverified-IsOpen)
