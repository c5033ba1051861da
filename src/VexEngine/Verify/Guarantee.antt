-- ===== src/VexEngine/Verify/Guarantee.antt =====
-- What stands behind a valid result.
use tpsr_v.Prelude.{
  ◌≡◌, refl, ap, ◌∙◌, ◌⊎◌, ℕ, String, true, false, Option, none, some, In, is, text_eq, text_eq_iff,
  find, find_holds, find-In, is_empty, arith, subst, if-holds_given, option-holds,
}
use tpsr_v.Evidence.{Date}
use tpsr_v.VexEngine.{
  Envelope, Statement, Document, Crypto, Issuer, VexPolicy, Target, Dsse, verified, failed,
  verify_dsse, accepts, stamped, matching,
}
use tpsr_v.VexEngine.Diagnosis.{rejection_code}
use tpsr_v.VexEngine.Conflict.{resolve_conflict, resolve_conflict-In}
use tpsr_v.VexEngine.Verify.{
  blocking, Result, unverified, with_code, is_justified, judge, has_authority, has_fingerprint,
  choose, check_document, check_issuer, check_signature, verify_document, document_of,
}
use tpsr_v.VexEngine.Verify.Judged.{Mitigates, judge-Mitigates, status-judge, matching-In}
use tpsr_v.VexEngine.Verify.Signed.{Signed, SignedBy, verify_dsse-SignedBy}

-- The statement behind a valid result.
pub record Chosen (p : VexPolicy) (now : ℕ) (target : Option Target) (d : Document) (r : Result)
    : Type 0 where
  pub statement : Statement
  pub stated : In statement d.statements
  pub fresh : accepts p now target d.timestamp statement ≡ true
  pub status : r.status ≡ statement.status
  pub mitigates : Mitigates p statement r

-- The document and the issuer behind it.
pub record Issued (p : VexPolicy) (now : ℕ) (target : Option Target) (print : String)
    (parsed : Option Document) (r : Result) : Type 0 where
  pub issuer : Issuer
  pub listed : In issuer p.authorized_issuers
  pub own_key : issuer.fingerprint ≡ print
  pub unrevoked : p.is_revoked issuer.identity ≡ false
  pub authorized : has_authority issuer target ≡ true
  pub document : Document
  pub read : parsed ≡ some document
  pub chosen : Chosen p now target document r

Mitigates-stamped :
    (p : VexPolicy) (global : Option Date) (s w : Statement) (r : Result)
    → w ≡ stamped global s
    → Mitigates p w r
    → Mitigates p s r
unfolding is_justified
Mitigates-stamped p global s w r e h k =
    subst
      (λ (x : Statement).
        ((is x.status "not_affected" ≡ true) × (is_justified p x ≡ true))
        ⊎ (is x.status "fixed" ≡ true))
      e (h k)

refused {ℓ} :
    {A : Type ℓ} (r : Result) (code : String)
    → r.is_valid ≡ false
    → (with_code r code).is_valid ≡ true
    → A
unfolding with_code
refused r code i v = absurd (ground arith)

module _ (p : VexPolicy) (now : ℕ) (target : Option Target) (r : Result)
    (open_result : r.is_valid ≡ false) (blocks : r.blocking_status ≡ blocking) where
  choose-Chosen :
      (i : Issuer) (d : Document)
      → (choose p now target r i d).is_valid ≡ true
      → Chosen p now target d (choose p now target r i d)
  unfolding choose
  choose-Chosen i d =
      option-holds (λ (x : Result). x.is_valid ≡ true → Chosen p now target d x)
        (resolve_conflict (matching p now target d.timestamp d.statements)) _ _
        (refused r (rejection_code p now target d.timestamp d.statements) open_result)
        (λ w e v.
          let (s, m, a, q) =
            matching-In p now target d.timestamp d.statements
              (resolve_conflict-In (matching p now target d.timestamp d.statements) e) in
          let stated : w.status ≡ s.status = ap (λ (x : Statement). x.status) q in
          record {
            statement = s;
            stated = m;
            fresh = a;
            status = status-judge p w _ ∙ stated;
            mitigates =
                Mitigates-stamped p d.timestamp s w
                  (judge p w (record r { status = w.status; issuer = some i.identity })) q
                  (judge-Mitigates p w (record r { status = w.status; issuer = some i.identity })
                    blocks);
          })

  document-Issued :
      (print : String) (i : Issuer) (d : Option Document)
      → In i p.authorized_issuers
      → i.fingerprint ≡ print
      → p.is_revoked i.identity ≡ false
      → has_authority i target ≡ true
      → (check_document p now target r i d).is_valid ≡ true
      → Issued p now target print d (check_document p now target r i d)
  unfolding check_document
  document-Issued print i none l o u a = refused r "VEX-011" open_result
  document-Issued print i (some d) l o u a =
      if-holds_given Goal (is d.predicate_type "https://openvex.dev/ns/v0.2.0") _ _
        (λ y.
          if-holds_given Goal (is_empty d.statements) _ _ (λ e. refused r "VEX-012" open_result)
            (λ n v. record {
              issuer = i;
              listed = l;
              own_key = o;
              unrevoked = u;
              authorized = a;
              document = d;
              read = refl;
              chosen = choose-Chosen i d v;
            }))
        (λ n. refused r "VEX-011" open_result)
    where
      Goal : Result → Type 0
      Goal x = x.is_valid ≡ true → Issued p now target print (some d) x

  issuer-Issued :
      (print : String) (d : Option Document)
      → (check_issuer p now target r print d).is_valid ≡ true
      → Issued p now target print d (check_issuer p now target r print d)
  unfolding check_issuer
  issuer-Issued print d =
      option-holds Goal (find (has_fingerprint print) p.authorized_issuers) _ _
        (refused r "VEX-009" open_result)
        (λ i e.
          if-holds_given Goal (p.is_revoked i.identity) _ _ (λ y. refused r "VEX-022" open_result)
            (λ u.
              if-holds_given Goal (has_authority i target) _ _
                (document-Issued print i d (find-In (has_fingerprint print) p.authorized_issuers e)
                  ((text_eq_iff i.fingerprint print).0
                    (find_holds (has_fingerprint print) p.authorized_issuers e))
                  u)
                (λ n. refused r "VEX-009" open_result)))
    where
      Goal : Result → Type 0
      Goal x = x.is_valid ≡ true → Issued p now target print d x

-- A valid result is backed by evidence of the policy.
pub record IsBacked (crypto : Crypto) (p : VexPolicy) (now : ℕ) (e : Envelope) (type key : String)
    (target : Option Target) (r : Result) : Type 0 where
  pub keyed : type ≡ "OFFLINE_KEYED"
  pub print : String
  pub signed : Signed crypto e key print
  pub issued : Issued p now target print (document_of crypto e) r

signature-IsBacked :
    (crypto : Crypto) (p : VexPolicy) (now : ℕ) (e : Envelope) (type key : String)
    (target : Option Target) (s : Dsse)
    → type ≡ "OFFLINE_KEYED"
    → SignedBy crypto e key s
    → (check_signature p now target s (document_of crypto e)).is_valid ≡ true
    → IsBacked crypto p now e type key target
        (check_signature p now target s (document_of crypto e))
unfolding check_signature unverified
signature-IsBacked crypto p now e type key target (failed code) t h v =
    refused unverified code refl v
signature-IsBacked crypto p now e type key target (verified print) t h v = record {
  keyed = t;
  print = print;
  signed = h;
  issued =
      issuer-Issued p now target
        (record unverified { signature_verified = true; fingerprint = some print }) refl refl print
        (document_of crypto e) v;
}

-- A VEX document counts as valid only if one of its signatures verifies over its payload with the given
-- key, the key is that of an issuer whom the policy lists, has not revoked, and lets speak for the
-- product, and the payload has a statement that is timely, not expired and in the scope of the target.
-- The result has the status of that statement, and is NON_BLOCKING only if it says `not_affected` with
-- an allowed justification, and an impact statement where the policy asks for one, or says `fixed`.
pub verify_document-IsBacked :
    (crypto : Crypto) (p : VexPolicy) (now : ℕ) (e : Envelope) (type key : String)
    (target : Option Target)
    → (verify_document crypto (some p) now e type key target).is_valid ≡ true
    → IsBacked crypto p now e type key target
        (verify_document crypto (some p) now e type key target)
unfolding verify_document unverified
verify_document-IsBacked crypto p now e type key target =
    if-holds_given (λ (r : Result). r.is_valid ≡ true → IsBacked crypto p now e type key target r)
      (text_eq type "OFFLINE_KEYED") _ (with_code unverified "VEX-010")
      (λ t.
        signature-IsBacked crypto p now e type key target (verify_dsse crypto e key)
          ((text_eq_iff type "OFFLINE_KEYED").0 t) (verify_dsse-SignedBy crypto e key))
      (λ n. refused unverified "VEX-010" refl)
