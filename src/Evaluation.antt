-- ===== src/Evaluation.antt =====
-- `handleEvaluateTrust` of api/src/routes/trust.routes.js and `triggerReevaluationForSbom` of
-- api/src/workers/exceptionExpiryWorker.js: an evaluation, its decision, and the row of the outbox.
-- Snapshots are written or not; their content, random ids and times in messages are left out.
pub mod Submitted
pub mod Queue
pub mod Repeat
pub mod Recommended
use tpsr_v.Prelude.{
  ℕ, String, Bool, true, false, not, ◌&&◌, ◌||◌, Option, none, some, List, [], ◌∷◌, ◌++◌, is,
  truthy, text_eq, or_text, trim, find, head?, filter, is_empty, if◌then◌else◌,
}
use tpsr_v.Evidence.{
  Provenance, Signature, VexStatement, ContextAssertion, PolicyException, SbomDocument, TrustPolicy,
}
use tpsr_v.Trust.{
  TrustStatus, trusted, conditionally_accepted, review_required, rejected, EvidenceBundle,
  TrustResult,
}
use tpsr_v.Trust.Evaluate.{evaluate_trust}
use tpsr_v.Outbox.{OutboxRecord, pending}

-- The evidence that is read for an SBOM.
pub record Loaded : Type 0 where
  pub provenance : List Provenance
  pub signatures : List Signature
  pub vex_statements : List VexStatement
  pub deployment_contexts : List ContextAssertion
  pub exceptions : List PolicyException
  pub assertions : List ContextAssertion

abbrev pub is_active_assertion : ContextAssertion → Bool
is_active_assertion a = is a.status "ACTIVE"

-- `a.status === 'ACTIVE' || (a.status === 'INVALID' && a.assurance_state === 'CONFLICTING')`
abbrev pub is_listed : ContextAssertion → Bool
is_listed a = is a.status "ACTIVE" || is a.status "INVALID" && is a.assurance_state "CONFLICTING"

-- The argument of `evaluateTrust`. The expiry worker lists the ACTIVE assertions only.
unfoldable pub evidence_of : (ContextAssertion → Bool) → SbomDocument → Loaded → EvidenceBundle
evidence_of lists doc l = record {
  sbom_document = some doc;
  provenance = l.provenance;
  signatures = l.signatures;
  vex_statements = l.vex_statements;
  active_context_assertion = find is_active_assertion l.assertions;
  deployment_context = head? l.deployment_contexts;
  all_active_context_assertions = some (filter lists l.assertions);
  policy_exceptions = l.exceptions;
}

-- A row of `trust_decision_history`.
pub record Decision : Type 0 where
  pub id : String
  pub sbom_id : String
  pub trust_status : TrustStatus
  pub reason_code : String
  pub reason_description : String
  pub policy_version : String
  pub idempotency_key : Option String

-- The decisions, the latest first, and the outbox, the oldest row first.
pub record Store : Type 0 where
  pub decisions : List Decision
  pub outbox : List OutboxRecord

-- What an evaluation finds: the documents and the evidence, the trust policy, the time and the new
-- ids, the hash of the evidence bundle (a library function), and which reads and writes succeed.
pub record Env : Type 0 where
  pub document_of : String → Option SbomDocument
  pub loads : String → Loaded
  pub policy : TrustPolicy
  pub now : ℕ
  pub decision_id : String
  pub outbox_id : String
  pub hash_of : Loaded → String
  pub reads_cache : Bool
  pub reads : Bool
  pub inserts_decision : Bool
  pub inserts_outbox : Bool
  pub snapshots : Bool

-- `insertTrustDecision`
unfoldable pub decision_of : Env → String → Option String → TrustResult → Decision
decision_of env sbom key r = record {
  id = env.decision_id;
  sbom_id = sbom;
  trust_status = r.trust_status;
  reason_code = or_text (some r.reason_code) "TRST-000";
  reason_description = or_text (some r.reason_description) "Trust evaluation recorded";
  policy_version = or_text (some r.policy_version) "3.0";
  idempotency_key = elim key [ none ↦ none | some k ↦ if truthy (some k) then some k else none ];
}

-- A field of the payload counts where it has a truthy value.
abbrev pub field : String → String → List String
field name value = if truthy (some value) then name ∷ [] else []

abbrev pub key_field : Option String → List String
key_field none = []
key_field (some k) = field "idempotencyKey" k

-- The fields of the payload that all three evaluations write.
unfoldable pub decision_payload : String → String → TrustResult → List String
decision_payload sbom decision r =
    "version" ∷ field "sbomID" sbom
    ++ field "decisionId" decision
    ++ "trustStatus" ∷ field "reasonCode" r.reason_code
    ++ field "reasonDescription" r.reason_description
    ++ "policyVersion" ∷ "evidenceSummary" ∷ []

-- `insertOutboxRecord`
unfoldable pub outbox_row : Env → List String → OutboxRecord
outbox_row env fields = record {
  id = env.outbox_id;
  action = some "RECORD_TRUST_DECISION";
  payload = some fields;
  status = pending;
  retry_count = 0;
  next_attempt_at = env.now;
  is_locked = false;
  is_deleted = false;
  fabric_tx_id = none;
}

-- What the writes of an evaluation leave, and whether all of them succeed.
unfoldable pub write : Env → Decision → List String → Store → Store × Bool
write env d fields s =
    if env.inserts_decision
    then if env.inserts_outbox
      then (
        record { decisions = d ∷ s.decisions; outbox = s.outbox ++ outbox_row env fields ∷ [] },
        env.snapshots,
      )
      else (record s { decisions = d ∷ s.decisions }, false)
    else (s, false)

pub data Response : Type 0 where
  bad_request not_found conflict server_error : Response
  cached : Decision → Response
  created : Decision → Response

abbrev pub answer : Decision → Bool → Response
answer d ok = if ok then created d else server_error

unfoldable pub evaluate_document :
    Env → String → Option String → SbomDocument → Store → Store × Response
evaluate_document env sbom key doc s =
    let r = evaluate_trust env.policy env.now (evidence_of is_listed doc (env.loads sbom)) in
    let d = decision_of env sbom key r in
    let w = write env d (decision_payload sbom env.decision_id r ++ key_field key) s in
    (w.0, answer d w.1)

-- The evaluation after the look at the cache.
unfoldable pub evaluate_new : Env → String → Option String → Store → Store × Response
evaluate_new env sbom key s =
    if env.reads
    then elim (env.document_of sbom) [
      | none ↦ (s, not_found)
      | some doc ↦ evaluate_document env sbom key doc s
    ]
    else (s, server_error)

abbrev pub has_key : String → Decision → Bool
has_key k d = is d.idempotency_key k

-- `getTrustDecisionByIdempotencyKey`
unfoldable pub decision_by_key : String → List Decision → Option Decision
decision_by_key k ds = if truthy (some k) then find (has_key k) ds else none

-- `idempotencyKey ? idempotencyKey.trim() : null`
unfoldable pub trimmed_key : Option String → Option String
trimmed_key none = none
trimmed_key (some k) = if truthy (some k) then some (trim k) else none

unfoldable pub with_cache : Env → String → Option String → Store → Store × Response
with_cache env sbom none s = evaluate_new env sbom none s
with_cache env sbom (some k) s =
    if env.reads_cache
    then elim (decision_by_key k s.decisions) [
      | none ↦ evaluate_new env sbom (some k) s
      | some d ↦ (s, if text_eq d.sbom_id sbom then cached d else conflict)
    ]
    else (s, server_error)

-- `handleEvaluateTrust`
unfoldable pub evaluate_route : Env → String → Option String → Store → Store × Response
evaluate_route env path key s =
    if text_eq (trim path) ""
    then (s, bad_request)
    else with_cache env (trim path) (trimmed_key key) s

-- `triggerReevaluationForSbom`; false where it throws.
unfoldable pub reevaluate_document : Env → String → SbomDocument → Store → Store × Bool
reevaluate_document env sbom doc s =
    let r =
      evaluate_trust env.policy env.now (evidence_of is_active_assertion doc (env.loads sbom)) in
    write (record env { snapshots = true }) (decision_of env sbom none r)
      (decision_payload sbom env.decision_id r) s

unfoldable pub reevaluate : Env → String → Store → Store × Bool
reevaluate env sbom s =
    if env.reads
    then elim (env.document_of sbom) [
      | none ↦ (s, false)
      | some doc ↦ reevaluate_document env sbom doc s
    ]
    else (s, false)
