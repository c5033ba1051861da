-- ===== src/Evaluation/Queue.antt =====
-- Whether the outbox worker accepts what an evaluation queues.
use tpsr_v.Prelude.{
  ◌≡◌, ◌↔◌, refl, ℕ, String, Bool, true, false, Option, none, some, List, [], ◌∷◌, ◌++◌, is, truthy,
  text_eq, includes, trim, arith, subst, if◌then◌else◌, if-holds, option-holds,
}
use tpsr_v.Evidence.{SbomDocument}
use tpsr_v.Trust.{TrustResult}
use tpsr_v.Trust.Evaluate.{evaluate_trust}
use tpsr_v.Outbox
use tpsr_v.Outbox.{
  OutboxRecord, failed_requires_review, failed, mismatch, attempt, valid_payload, fault_status,
}
use tpsr_v.Evaluation.{
  Env, Store, Decision, created, evidence_of, is_listed, decision_of, key_field, decision_payload,
  outbox_row, write, evaluate_new, evaluate_document, reevaluate_document, answer, cached, conflict,
  with_cache, evaluate_route, reevaluate, Response, trimmed_key, decision_by_key,
}
use tpsr_v.Evaluation.Submitted.{submitted_payload, submitted_result}

lacks_hash :
    (sbom decision : String) (r : TrustResult) (key : Option String)
    → includes (decision_payload sbom decision r ++ key_field key) "evidenceBundleHash" ≡ false
unfolding decision_payload text_eq includes
lacks_hash sbom decision r none = ground (arith)
lacks_hash sbom decision r (some k) = ground (arith)

lacks_hash_alone :
    (sbom decision : String) (r : TrustResult)
    → includes (decision_payload sbom decision r) "evidenceBundleHash" ≡ false
unfolding decision_payload text_eq includes
lacks_hash_alone sbom decision r = ground arith

refused :
    (e : Outbox.Env) (env : Env) (fields : List String)
    → includes fields "evidenceBundleHash" ≡ false
    → attempt e (outbox_row env fields) ≡ failed mismatch
unfolding attempt valid_payload outbox_row is
refused e env fields h = ground arith

gives_up : (max : ℕ) (r : OutboxRecord) → fault_status max r mismatch ≡ failed_requires_review
unfolding fault_status
gives_up max r = ground arith

-- The outbox has one more row, which no batch of the worker ever submits.
abbrev pub NeverSubmitted : Store → Store → Type 0
NeverSubmitted s s' =
    (r : OutboxRecord) × (s'.outbox ≡ s.outbox ++ r ∷ [])
    × ((e : Outbox.Env) → attempt e r ≡ failed mismatch)
    × ((max : ℕ) → fault_status max r mismatch ≡ failed_requires_review)

outbox-write :
    (env : Env) (d : Decision) (fields : List String) (s : Store)
    → (write env d fields s).1 ≡ true
    → (write env d fields s).0.outbox ≡ s.outbox ++ outbox_row env fields ∷ []
unfolding write
outbox-write env d fields s h = ground arith

write-NeverSubmitted :
    (env : Env) (d : Decision) (fields : List String) (s : Store)
    → includes fields "evidenceBundleHash" ≡ false
    → (write env d fields s).1 ≡ true
    → NeverSubmitted s (write env d fields s).0
write-NeverSubmitted env d fields s n h = (
  outbox_row env fields,
  outbox-write env d fields s h,
  λ e. refused e env fields n,
  λ max. gives_up max (outbox_row env fields),
)

-- What is shown of an outcome that reports a new decision.
abbrev Created : (Store → Type 0) → Store × Response → Type 0
Created P (s', created d) = P s'
Created P (s', other) = Unit {0}

answer-Created :
    (P : Store → Type 0) (s' : Store) (d : Decision) (b : Bool)
    → (b ≡ true → P s')
    → Created P (s', answer d b)
answer-Created P s' d true h = h refl
answer-Created P s' d false h = tt

document-NeverSubmitted :
    (env : Env) (sbom : String) (key : Option String) (doc : SbomDocument) (s : Store)
    → Created (NeverSubmitted s) (evaluate_document env sbom key doc s)
unfolding evaluate_document
document-NeverSubmitted env sbom key doc s =
    let r = evaluate_trust env.policy env.now (evidence_of is_listed doc (env.loads sbom)) in
    let d = decision_of env sbom key r in
    let w = write env d (decision_payload sbom env.decision_id r ++ key_field key) s in
    answer-Created (NeverSubmitted s) w.0 d w.1
      (write-NeverSubmitted env d _ s (lacks_hash sbom env.decision_id r key))

new-NeverSubmitted :
    (env : Env) (sbom : String) (key : Option String) (s : Store)
    → Created (NeverSubmitted s) (evaluate_new env sbom key s)
unfolding evaluate_new
new-NeverSubmitted env sbom key s =
    if-holds (Created (NeverSubmitted s)) env.reads _ _
      (option-holds (Created (NeverSubmitted s)) (env.document_of sbom) _ _ tt
        (λ doc e. document-NeverSubmitted env sbom key doc s))
      tt

cache-NeverSubmitted :
    (env : Env) (sbom : String) (key : Option String) (s : Store)
    → Created (NeverSubmitted s) (with_cache env sbom key s)
unfolding with_cache
cache-NeverSubmitted env sbom none s = new-NeverSubmitted env sbom none s
cache-NeverSubmitted env sbom (some k) s =
    if-holds (Created (NeverSubmitted s)) env.reads_cache _ _
      (option-holds (Created (NeverSubmitted s)) (decision_by_key k s.decisions) _ _
        (new-NeverSubmitted env sbom (some k) s) (λ d e. not_created (text_eq d.sbom_id sbom) d))
      tt
  where
    not_created :
        (b : Bool) (d : Decision) → Created (NeverSubmitted s) (s, if b then cached d else conflict)
    not_created true d = tt
    not_created false d = tt

-- A decision that POST trust-evaluation creates is put into the outbox with a payload that the worker
-- refuses for want of evidenceBundleHash: no attempt at it ever submits a transaction, and the first
-- failure leaves it for review.
pub evaluate_route-NeverSubmitted :
    (env : Env) (path : String) (key : Option String) (s : Store) {s' : Store} {d : Decision}
    → evaluate_route env path key s ≡ (s', created d)
    → NeverSubmitted s s'
unfolding evaluate_route
evaluate_route-NeverSubmitted env path key s {s'} {d} e = subst (Created (NeverSubmitted s)) e (
    if-holds (Created (NeverSubmitted s)) (text_eq (trim path) "") _ _ tt
      (cache-NeverSubmitted env (trim path) (trimmed_key key) s))

-- The same holds of a decision of the re-evaluation after an exception has expired.
reevaluate-NeverSubmitted :
    (env : Env) (sbom : String) (s : Store)
    → (reevaluate env sbom s).1 ≡ true
    → NeverSubmitted s (reevaluate env sbom s).0
unfolding reevaluate reevaluate_document
reevaluate-NeverSubmitted env sbom s =
    if-holds Written env.reads _ _
      (option-holds Written (env.document_of sbom) _ _ (λ h. absurd (ground arith))
        (λ doc e.
          write-NeverSubmitted (record env { snapshots = true }) _ _ s
            (lacks_hash_alone sbom env.decision_id _)))
      (λ h. absurd (ground arith))
  where
    Written : Store × Bool → Type 0
    Written w = w.1 ≡ true → NeverSubmitted s w.0

-- The decision of an automatic evaluation, whose payload has the hash, is fit for the worker exactly
-- when the ids, the reason and the hash are texts that are not empty.
pub submitted_payload-valid_iff :
    (env : Env) (doc : SbomDocument) (sbom : String)
    → (valid_payload (some "RECORD_TRUST_DECISION") (submitted_payload env doc sbom) ≡ true) ↔ (
        (truthy (some sbom) ≡ true)
        × (truthy (some env.decision_id) ≡ true)
        × (truthy (some (submitted_result env doc sbom).reason_code) ≡ true)
        × (truthy (some (submitted_result env doc sbom).reason_description) ≡ true)
        × (truthy (some (env.hash_of (env.loads sbom))) ≡ true))
unfolding submitted_payload decision_payload valid_payload is text_eq includes
submitted_payload-valid_iff env doc sbom = ground arith
