-- ===== src/Trust/Evaluate/Safety.antt =====
-- What each trust status of `evaluateTrust` guarantees, down to the evidence.
use tpsr_v.Prelude.{
  ◌≡◌, refl, sym, ◌∙◌, ◌≢◌, ◌↔◌, true, false, some, List, ℕ, any, filter, arith, In,
}
use tpsr_v.ContextRisk.{BlockingStatus, Contribution, RiskResult}
use tpsr_v.ContextRisk.Evaluate.Loop.{vuln_blocks, vuln_asks_review}
use tpsr_v.ContextRisk.Evaluate.Outcome.{
  IsReliable, evaluate-conflict, evaluate-non_blocking, evaluate-conditionally_accepted_iff,
}
use tpsr_v.Evidence.{PolicyException, SbomDocument, TrustPolicy, ContextAssertion}
use tpsr_v.Evidence.Context
use tpsr_v.Evidence.Vex
use tpsr_v.Evidence.Exceptions.{IsGoverned}
use tpsr_v.Evidence.Assembler.{assemble, vulnerabilities, selection}
use tpsr_v.Evidence.Assembler.Laws.{
  assemble-exception_trusted, assemble-IsReliable, assemble-conflict, normalized-assemble,
}
use tpsr_v.Trust.{
  TrustStatus, trusted, conditionally_accepted, review_required, rejected, EvidenceBundle,
}
use tpsr_v.Trust.Evaluate.{bundle_of, has_status, decide, evaluate_trust, accept_conditionally}
use tpsr_v.Trust.Evaluate.Decision.{
  HasMandatory, context_of, evaluate_trust-passed, evaluate_trust-of_HasMandatory,
}

decide-trusted_iff :
    (c : RiskResult) (es : List PolicyException)
    → ((decide c es).status ≡ trusted) ↔ (
        (c.policy_blocking_status ≡ BlockingStatus.non_blocking)
        × (any (has_status "ACTIVE") es ≡ false))
unfolding decide accept_conditionally
decide-trusted_iff c es = ground arith

decide-conditionally_accepted_iff :
    (c : RiskResult) (es : List PolicyException)
    → ((decide c es).status ≡ conditionally_accepted) ↔ (
        (c.policy_blocking_status ≡ BlockingStatus.blocking)
        × (c.exception_contribution ≡ Contribution.conditionally_accepted))
unfolding decide accept_conditionally
decide-conditionally_accepted_iff c es = ground arith

decide-rejected_iff :
    (c : RiskResult) (es : List PolicyException)
    → ((decide c es).status ≡ rejected) ↔ (
        (c.policy_blocking_status ≡ BlockingStatus.blocking)
        × (c.exception_contribution ≡ Contribution.no_contribution))
unfolding decide accept_conditionally
decide-rejected_iff c es = ground arith

decide-review_required :
    (c : RiskResult) (es : List PolicyException)
    → c.policy_blocking_status ≡ BlockingStatus.review_required
    → (decide c es).status ≡ review_required
unfolding decide
decide-review_required c es h = ground arith

not_other : (t : TrustStatus) → ¬ (t ≢ rejected) → t ≡ rejected
not_other trusted h = absurd (h (λ e. cc))
not_other conditionally_accepted h = absurd (h (λ e. cc))
not_other review_required h = absurd (h (λ e. cc))
not_other rejected h = refl

module _ (policy : TrustPolicy) (now : ℕ) (b : EvidenceBundle) where
  -- A release is TRUSTED exactly when all the mandatory evidence is there, the context evaluation
  -- is NON_BLOCKING, and no exception of the bundle is ACTIVE.
  pub evaluate_trust-trusted_iff : ((evaluate_trust policy now b).trust_status ≡ trusted) ↔ (
      (doc : SbomDocument) × HasMandatory b doc
      × ((context_of policy now b doc).policy_blocking_status ≡ BlockingStatus.non_blocking)
      × (any (has_status "ACTIVE") b.policy_exceptions ≡ false))
  evaluate_trust-trusted_iff = (
    λ e.
        let (doc, m, s) = evaluate_trust-passed policy now b (λ r. ground arith) in
        let (n, a) = (decide-trusted_iff _ _).0 (sym s ∙ e) in (doc, m, n, a),
    λ (doc, m, n, a).
        evaluate_trust-of_HasMandatory policy now b doc m ∙ (decide-trusted_iff _ _).1 (n, a),
  )

  -- A failed mandatory check is final: without a document with an id, valid provenance and a
  -- verified signature the status is REJECTED, whatever the context, the VEX statements and the
  -- exceptions say.
  pub evaluate_trust-rejected_of_missing :
      ((doc : SbomDocument) → ¬ HasMandatory b doc)
      → (evaluate_trust policy now b).trust_status ≡ rejected
  evaluate_trust-rejected_of_missing h =
      not_other (evaluate_trust policy now b).trust_status
        (λ other. let (doc, m, s) = evaluate_trust-passed policy now b other in h doc m)

  -- A release is CONDITIONALLY_ACCEPTED only with all the mandatory evidence, in a reliable context
  -- in which some vulnerability blocks, and with a governed exception of the bundle: ACTIVE,
  -- trusted, for this release, not expired, and not approved by its requester.
  pub evaluate_trust-conditionally_accepted :
      (evaluate_trust policy now b).trust_status ≡ conditionally_accepted
      → (doc : SbomDocument) × HasMandatory b doc
        × IsReliable (assemble policy now (bundle_of b doc))
        × (any
              (vuln_blocks (assemble policy now (bundle_of b doc)))
              (vulnerabilities (bundle_of b doc))
            ≡ true)
        × ((e : PolicyException) × In e b.policy_exceptions
            × IsGoverned doc (vulnerabilities (bundle_of b doc)) now e)
  unfolding bundle_of
  evaluate_trust-conditionally_accepted h =
      let (doc, m, s) = evaluate_trust-passed policy now b (λ r. ground arith) in
      let (blocked, contributes) = (decide-conditionally_accepted_iff _ _).0 (sym s ∙ h) in
      let (reliable, no_class_a, active, exception, blocks) =
        (evaluate-conditionally_accepted_iff _).0 contributes in
      (
        doc,
        m,
        reliable,
        rw (normalized-assemble policy now (bundle_of b doc)) at blocks,
        assemble-exception_trusted policy now (bundle_of b doc) exception,
      )

  -- What TRUSTED rests on: a context that agrees, is valid and present, no second active VEX
  -- statement, an assertion in force where the policy requires a context, and no vulnerability that
  -- blocks or asks for a review.
  pub evaluate_trust-trusted_safe :
      (evaluate_trust policy now b).trust_status ≡ trusted
      → (doc : SbomDocument) × HasMandatory b doc
        × IsReliable (assemble policy now (bundle_of b doc))
        × (any
              (vuln_blocks (assemble policy now (bundle_of b doc)))
              (vulnerabilities (bundle_of b doc))
            ≡ false)
        × (any
              (vuln_asks_review (assemble policy now (bundle_of b doc)))
              (vulnerabilities (bundle_of b doc))
            ≡ false)
        × (Context.context_required policy ≡ true
            → (a : ContextAssertion) × ((selection policy now (bundle_of b doc)).active_context
                ≡ some a)
              × Context.IsInForce now a)
  evaluate_trust-trusted_safe h =
      let (doc, m, n, a) = evaluate_trust-trusted_iff.0 h in
      let (reliable, no_class_a, unblocked, unasked) = evaluate-non_blocking _ n in
      (
        doc,
        m,
        reliable,
        rw (normalized-assemble policy now (bundle_of b doc)) at unblocked,
        rw (normalized-assemble policy now (bundle_of b doc)) at unasked,
        (assemble-IsReliable policy now (bundle_of b doc) reliable).1,
      )

  -- Two active VEX statements are taken for a conflict, whichever vulnerabilities they are about:
  -- with all the mandatory evidence the status is then REVIEW_REQUIRED.
  pub evaluate_trust-several_vex :
      (doc : SbomDocument)
      → HasMandatory b doc
      → Vex.is_several (filter Vex.is_active b.vex_statements) ≡ true
      → (evaluate_trust policy now b).trust_status ≡ review_required
  unfolding bundle_of
  evaluate_trust-several_vex doc m h =
      evaluate_trust-of_HasMandatory policy now b doc m
      ∙ decide-review_required _ b.policy_exceptions
          (evaluate-conflict _ (assemble-conflict policy now (bundle_of b doc) h))
