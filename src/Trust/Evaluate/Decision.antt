-- ===== src/Trust/Evaluate/Decision.antt =====
-- What `evaluateTrust` decides, from the evidence bundle.
use tpsr_v.Prelude.{
  ◌≡◌, refl, ◌≢◌, inl, inr, Bool, true, false, some, ℕ, truthy, find, In, find_holds, find-In,
  find-none, Option-cases, Bool-cases,
}
use tpsr_v.ContextRisk.{RiskResult}
use tpsr_v.ContextRisk.Evaluate.{evaluate}
use tpsr_v.Evidence.{Provenance, Signature, SbomDocument, TrustPolicy}
use tpsr_v.Evidence.Assembler.{assemble}
use tpsr_v.Trust.{rejected, EvidenceBundle, finalize}
use tpsr_v.Trust.Mandatory.{
  is_valid_provenance, is_valid_signature, missing_document-rejected, reject_provenance-rejected,
  reject_signature-rejected,
}
use tpsr_v.Trust.Evaluate.{
  bundle_of, decide, with_signature, check_signature, check_provenance, evaluate_trust,
}

-- The mandatory evidence: a document with an id, valid provenance above level 0, and a verified
-- signature.
pub record HasMandatory (b : EvidenceBundle) (doc : SbomDocument) : Type 0 where
  pub listed : b.sbom_document ≡ some doc
  pub identified : truthy doc.sbom_id ≡ true
  pub provenance : Provenance
  pub provenance_listed : In provenance b.provenance
  pub provenance_valid : is_valid_provenance provenance ≡ true
  pub signature : Signature
  pub signature_listed : In signature b.signatures
  pub signature_valid : is_valid_signature signature ≡ true

module _ (policy : TrustPolicy) (now : ℕ) (b : EvidenceBundle) where
  -- The context result that the decision rests on.
  abbrev pub context_of : SbomDocument → RiskResult
  context_of doc = evaluate (assemble policy now (bundle_of b doc))

  with_signature-status :
      (doc : SbomDocument) (p : Provenance) (s : Signature)
      → (with_signature policy now b doc p s).trust_status
        ≡ (decide (context_of doc) b.policy_exceptions).status
  unfolding with_signature finalize
  with_signature-status doc p s = refl

  -- A status other than REJECTED rests on all the mandatory evidence, and is the decision on the
  -- context.
  check_signature-passed :
      (doc : SbomDocument) (p : Provenance)
      → (check_signature policy now b doc p).trust_status ≢ rejected
      → (s : Signature) × In s b.signatures
        × (is_valid_signature s ≡ true)
        × ((check_signature policy now b doc p).trust_status
            ≡ (decide (context_of doc) b.policy_exceptions).status)
  unfolding check_signature
  check_signature-passed doc p h = elim (Option-cases (find is_valid_signature b.signatures)) [
    | inl n ↦ absurd (h (rw (n, check_signature) (reject_signature-rejected b doc p)))
    | inr (s, e) ↦ (
      s,
      find-In is_valid_signature b.signatures e,
      find_holds is_valid_signature b.signatures e,
      rw (e, check_signature) (with_signature-status doc p s),
    )
  ]

  check_provenance-passed :
      (doc : SbomDocument)
      → (check_provenance policy now b doc).trust_status ≢ rejected
      → (p : Provenance) × In p b.provenance
        × (is_valid_provenance p ≡ true)
        × (check_provenance policy now b doc ≡ check_signature policy now b doc p)
  unfolding check_provenance
  check_provenance-passed doc h = elim (Option-cases (find is_valid_provenance b.provenance)) [
    | inl n ↦ absurd (h (rw (n, check_provenance) (reject_provenance-rejected b doc)))
    | inr (p, e) ↦ (
      p,
      find-In is_valid_provenance b.provenance e,
      find_holds is_valid_provenance b.provenance e,
      rw (e, check_provenance) refl,
    )
  ]

  check_document-passed :
      (doc : SbomDocument)
      → b.sbom_document ≡ some doc
      → truthy doc.sbom_id ≡ true
      → (check_provenance policy now b doc).trust_status ≢ rejected
      → HasMandatory b doc
        × ((check_provenance policy now b doc).trust_status
            ≡ (decide (context_of doc) b.policy_exceptions).status)
  check_document-passed doc e t h =
      let (p, pi, pv, q) = check_provenance-passed doc h in
      let (s, si, sv, r) = check_signature-passed doc p (rw q at h) in
      (
        record {
          listed = e;
          identified = t;
          provenance = p;
          provenance_listed = pi;
          provenance_valid = pv;
          signature = s;
          signature_listed = si;
          signature_valid = sv;
        },
        rw q r,
      )

  pub evaluate_trust-passed :
      (evaluate_trust policy now b).trust_status ≢ rejected
      → (doc : SbomDocument) × HasMandatory b doc
        × ((evaluate_trust policy now b).trust_status
            ≡ (decide (context_of doc) b.policy_exceptions).status)
  unfolding evaluate_trust bundle_of
  evaluate_trust-passed h = elim (Option-cases b.sbom_document) [
    | inl n ↦ absurd (h (rw (n, evaluate_trust) missing_document-rejected))
    | inr (doc, e) ↦ elim (Bool-cases (truthy doc.sbom_id)) [
      | inl t ↦
          let (m, s) = check_document-passed doc e t (rw (e, t, evaluate_trust) at h) in
          (doc, m, rw (e, t, evaluate_trust) s)
      | inr f ↦ absurd (h (rw (e, f, evaluate_trust) missing_document-rejected))
    ]
  ]

  -- With the mandatory evidence, the status is the decision on the context.
  pub evaluate_trust-of_HasMandatory :
      (doc : SbomDocument)
      → HasMandatory b doc
      → (evaluate_trust policy now b).trust_status
        ≡ (decide (context_of doc) b.policy_exceptions).status
  unfolding evaluate_trust check_provenance check_signature bundle_of
  evaluate_trust-of_HasMandatory doc m =
      rw (m.listed, m.identified, evaluate_trust)
        (elim (Option-cases (find is_valid_provenance b.provenance)) [
          | inl n ↦ absurd (clash m.provenance_valid (find-none _ _ n m.provenance_listed))
          | inr (p, e) ↦
              rw (e, check_provenance)
                (elim (Option-cases (find is_valid_signature b.signatures)) [
                  | inl n ↦ absurd (clash m.signature_valid (find-none _ _ n m.signature_listed))
                  | inr (s, f) ↦ rw (f, check_signature) (with_signature-status doc p s)
                ])
        ])
    where
      clash : {c : Bool} → c ≡ true → c ≡ false → ⊥
      clash t f = cc
