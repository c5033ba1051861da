-- ===== src/Evaluation/Recommended.antt =====
-- What the advice of an automatic evaluation says of the decision that is stored.
use tpsr_v.Prelude.{
  ◌≡◌, ◌≢◌, ◌↔◌, refl, sym, ◌∙◌, String, Bool, true, false, none, some, List, ◌∷◌, any, arith,
  if◌then◌else◌, if-holds, option-holds,
}
use tpsr_v.ContextRisk.{BlockingStatus}
use tpsr_v.Evidence.{SbomDocument}
use tpsr_v.Trust.{trusted, review_required, rejected, TrustResult}
use tpsr_v.Trust.Evaluate.{has_status}
use tpsr_v.Trust.Evaluate.Decision.{HasMandatory, context_of}
use tpsr_v.Trust.Evaluate.Safety.{evaluate_trust-trusted_iff}
use tpsr_v.Evaluation.{Env, Store, Decision, evidence_of, is_listed, decision_of, write}
use tpsr_v.Evaluation.Submitted.{
  Advice, Recommendation, approve, analysis_incomplete, map_recommendation, incomplete, advice_of,
  submitted_result, submitted_payload, submit_document, evaluate_submitted,
}

-- The advice agrees with the decision that it names.
pub record Agrees (d : Decision) (a : Advice) : Type 0 where
  pub names : a.decision_id ≡ some d.id
  pub approves : (a.recommendation ≡ approve) ↔ (d.trust_status ≡ trusted)
  pub reviews : (a.human_review_required ≡ true) ↔ (d.trust_status ≡ review_required)
  pub refuses : (a.exception_permitted ≡ false) ↔ (d.trust_status ≡ rejected)

-- There is a new decision, for evidence of the document of the SBOM, with which the advice agrees.
abbrev pub Advised : Env → String → Store → Store → Advice → Type 0
Advised env sbom s s' a =
    (d : Decision) × (doc : SbomDocument) × (s'.decisions ≡ d ∷ s.decisions)
    × (env.document_of sbom ≡ some doc)
    × (d.trust_status ≡ (submitted_result env doc sbom).trust_status)
    × Agrees d a

advice-Agrees :
    (env : Env) (sbom : String) (r : TrustResult)
    → Agrees (decision_of env sbom none r) (advice_of env r)
unfolding decision_of advice_of map_recommendation
advice-Agrees env sbom r = record {
  names = refl;
  approves = ground arith;
  reviews = ground arith;
  refuses = ground arith;
}

abbrev Advises : Env → String → Store → Store × Advice → Type 0
Advises env sbom s w = w.1.recommendation ≢ analysis_incomplete → Advised env sbom s w.0 w.1

incomplete-Advises :
    (env : Env) (sbom : String) (s s' : Store) → Advises env sbom s (s', incomplete)
unfolding incomplete
incomplete-Advises env sbom s s' h = absurd (h refl)

decisions-write :
    (env : Env) (d : Decision) (fields : List String) (s : Store)
    → (write env d fields s).1 ≡ true
    → (write env d fields s).0.decisions ≡ d ∷ s.decisions
unfolding write
decisions-write env d fields s h = ground arith

document-Advises :
    (env : Env) (doc : SbomDocument) (sbom : String) (s : Store)
    → env.document_of sbom ≡ some doc
    → Advises env sbom s (submit_document env doc sbom s)
unfolding submit_document decision_of
document-Advises env doc sbom s e =
    let r = submitted_result env doc sbom in
    let d = decision_of env sbom none r in
    let w = write env d (submitted_payload env doc sbom) s in
    written w.1 (decisions-write env d (submitted_payload env doc sbom) s)
  where
    r : TrustResult
    r = submitted_result env doc sbom

    s' : Store
    s' = (write env (decision_of env sbom none r) (submitted_payload env doc sbom) s).0

    written :
        (b : Bool)
        → (b ≡ true → s'.decisions ≡ decision_of env sbom none r ∷ s.decisions)
        → Advises env sbom s (s', if b then advice_of env r else incomplete)
    written true h k = (decision_of env sbom none r, doc, h refl, e, refl, advice-Agrees env sbom r)
    written false h k = incomplete-Advises env sbom s s' k

-- Unless its result says that the analysis is incomplete, an automatic evaluation has stored a decision
-- with the status of the trust evaluation of the SBOM's document and evidence, and its advice names
-- that decision: it recommends approval exactly when the status is TRUSTED, asks for a human review
-- exactly when it is REVIEW_REQUIRED, and excludes an exception exactly when it is REJECTED.
pub evaluate_submitted-Advised :
    (env : Env) (sbom : String) (s : Store)
    → (evaluate_submitted env sbom s).1.recommendation ≢ analysis_incomplete
    → Advised env sbom s (evaluate_submitted env sbom s).0 (evaluate_submitted env sbom s).1
unfolding evaluate_submitted
evaluate_submitted-Advised env sbom s =
    if-holds (Advises env sbom s) env.reads _ _
      (option-holds (Advises env sbom s) (env.document_of sbom) _ _
        (incomplete-Advises env sbom s s) (λ doc e. document-Advises env doc sbom s e))
      (incomplete-Advises env sbom s s)

approve_not_incomplete : (r : Recommendation) → r ≡ approve → r ≢ analysis_incomplete
approve_not_incomplete r e i = cc

-- Approval is recommended only for an SBOM whose document has all the mandatory evidence, in a context
-- that is NON_BLOCKING, and with no ACTIVE exception.
pub evaluate_submitted-HasMandatory :
    (env : Env) (sbom : String) (s : Store)
    → (evaluate_submitted env sbom s).1.recommendation ≡ approve
    → (doc : SbomDocument) × (env.document_of sbom ≡ some doc)
      × ((own : SbomDocument) × HasMandatory (evidence_of is_listed doc (env.loads sbom)) own
          × ((context_of env.policy env.now
                (evidence_of is_listed doc (env.loads sbom))
                own).policy_blocking_status
              ≡ BlockingStatus.non_blocking)
          × (any (has_status "ACTIVE") (env.loads sbom).exceptions ≡ false))
unfolding submitted_result evidence_of
evaluate_submitted-HasMandatory env sbom s h =
    let (d, doc, n, e, t, a) = evaluate_submitted-Advised env sbom s (approve_not_incomplete _ h) in
    (
      doc,
      e,
      (evaluate_trust-trusted_iff env.policy env.now (evidence_of is_listed doc (env.loads sbom))).0
          (sym t ∙ a.approves.0 h),
    )
