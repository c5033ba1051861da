-- ===== src/Evaluation/Submitted.antt =====
-- `evaluateSubmittedSbom` of api/src/services/automaticEvaluationService.js: the automatic evaluation
-- after a submission, and its advice.
use tpsr_v.Prelude.{
  String, Bool, true, false, not, Option, none, some, List, ◌++◌, text_eq, if◌then◌else◌,
}
use tpsr_v.Evidence.{SbomDocument}
use tpsr_v.Trust.{
  TrustStatus, trusted, conditionally_accepted, review_required, rejected, TrustResult,
}
use tpsr_v.Trust.Evaluate.{evaluate_trust}
use tpsr_v.Evaluation.{
  Env, Store, evidence_of, is_listed, decision_of, decision_payload, field, write,
}

pub data Recommendation : Type 0 where
  approve approve_with_conditions manual_review_required reject analysis_incomplete : Recommendation

-- `mapRecommendation`
unfoldable pub map_recommendation : TrustStatus → String → Recommendation
map_recommendation trusted code = approve
map_recommendation conditionally_accepted code = approve_with_conditions
map_recommendation review_required code = manual_review_required
map_recommendation rejected code = if text_eq code "CTX-017" then manual_review_required else reject

-- The result of `evaluateSubmittedSbom`; texts and copies of the evaluation are left out.
pub record Advice : Type 0 where
  pub recommendation : Recommendation
  pub decision_id : Option String
  pub human_review_required : Bool
  pub exception_permitted : Bool

unfoldable pub incomplete : Advice
incomplete = record {
  recommendation = analysis_incomplete;
  decision_id = none;
  human_review_required = false;
  exception_permitted = false;
}

abbrev pub is_review : TrustStatus → Bool
is_review review_required = true
is_review _ = false

abbrev pub is_rejection : TrustStatus → Bool
is_rejection rejected = true
is_rejection _ = false

unfoldable pub advice_of : Env → TrustResult → Advice
advice_of env r = record {
  recommendation = map_recommendation r.trust_status r.reason_code;
  decision_id = some env.decision_id;
  human_review_required = is_review r.trust_status;
  exception_permitted = not (is_rejection r.trust_status);
}

unfoldable pub submitted_result : Env → SbomDocument → String → TrustResult
submitted_result env doc sbom =
    evaluate_trust env.policy env.now (evidence_of is_listed doc (env.loads sbom))

-- The payload has the hash of the evidence bundle here.
unfoldable pub submitted_payload : Env → SbomDocument → String → List String
submitted_payload env doc sbom =
    decision_payload sbom env.decision_id (submitted_result env doc sbom)
    ++ field "evidenceBundleHash" (env.hash_of (env.loads sbom))

unfoldable pub submit_document : Env → SbomDocument → String → Store → Store × Advice
submit_document env doc sbom s =
    let r = submitted_result env doc sbom in
    let w = write env (decision_of env sbom none r) (submitted_payload env doc sbom) s in
    (w.0, if w.1 then advice_of env r else incomplete)

-- `evaluateSubmittedSbom`
unfoldable pub evaluate_submitted : Env → String → Store → Store × Advice
evaluate_submitted env sbom s =
    if env.reads
    then elim (env.document_of sbom) [
      | none ↦ (s, incomplete)
      | some doc ↦ submit_document env doc sbom s
    ]
    else (s, incomplete)
