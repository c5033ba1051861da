-- ===== src/VexEngine/Verify/Signed.antt =====
-- What `verifyDSSE` finds of a signature.
use tpsr_v.Prelude.{
  ◌≡◌, String, true, some, is_iff, any, arith, if◌then◌else◌, if-holds_given, option-holds,
}
use tpsr_v.VexEngine.{
  Envelope, Crypto, Dsse, verified, failed, verify_dsse, is_malformed, is_signed, key_result,
  payload_result,
}

-- A signature over the payload, made with the key of a fingerprint.
pub record Signed (crypto : Crypto) (e : Envelope) (key print : String) : Type 0 where
  pub payload : String
  pub carried : e.payload ≡ some payload
  pub typed : e.payload_type ≡ some "application/vnd.in-toto+json"
  pub key_read : crypto.fingerprint key ≡ some print
  pub verifies :
      any (crypto.verifies key "application/vnd.in-toto+json" payload) e.signatures ≡ true

abbrev pub SignedBy : Crypto → Envelope → String → Dsse → Type 0
SignedBy crypto e key (verified print) = Signed crypto e key print
SignedBy crypto e key (failed code) = Unit {0}

pub verify_dsse-SignedBy :
    (crypto : Crypto) (e : Envelope) (key : String)
    → SignedBy crypto e key (verify_dsse crypto e key)
unfolding verify_dsse
verify_dsse-SignedBy crypto e key =
    option-holds P e.payload (failed "VEX-011")
      (λ payload.
        if is_malformed e payload then failed "VEX-011" else payload_result crypto e key payload)
      tt
      (λ payload c.
        if-holds_given P (is_malformed e payload) (failed "VEX-011")
          (payload_result crypto e key payload) (λ y. tt)
          (λ n.
            option-holds P (crypto.fingerprint key) (failed "VEX-021")
              (key_result (is_signed crypto e key payload)) tt
              (λ print k.
                if-holds_given P (is_signed crypto e key payload) (verified print)
                  (failed "VEX-010")
                  (λ v. record {
                    payload = payload;
                    carried = c;
                    typed = (is_iff e.payload_type "application/vnd.in-toto+json").0 (ground arith);
                    key_read = k;
                    verifies = v;
                  })
                  (λ v. tt))))
  where
    P : Dsse → Type 0
    P = SignedBy crypto e key
