-- ===== src/Lifecycle/Routes.antt =====
-- The routes of api/src/routes/: review-pending.js, security-reviewed.js, approve.js, activate.js,
-- reject.js and supersede.js. The texts of the messages and the timings are left out.
pub mod Store
pub mod Walk
pub mod Trail
pub mod Closed
pub mod Gate
pub mod Answer
pub mod Release
mod Tests
use tpsr_v.Prelude.{
  ℕ, String, Bool, true, false, not, ◌&&◌, ◌||◌, Option, none, some, List, [], ◌∷◌, is, text_eq,
  trim, take, if◌then◌else◌,
}
use tpsr_v.Policy.{Registry}
use tpsr_v.Lifecycle.{
  Status, registered, review_pending, security_reviewed, compliant, approved, active, superseded,
  rejected, same_status, Document, Call, move_to_review_pending, move_to_security_reviewed,
  mark_compliant, approve_sbom, activate_sbom, supersede_sbom, reject_sbom, target, World, Env,
  document_of, TrustDecision, trusted, conditionally_accepted, review_required, untrusted_rejected,
  unevaluated, normalize_trust_status, latest_decision, submitter, commit, policy_of,
}

-- `sbom_id` and `reason` are none where the field is no text.
pub record Body : Type 0 where
  pub is_object : Bool
  pub sbom_id : Option String
  pub reason : Option String

pub data Denial : Type 0 where
  wrong_state : Status → Denial
  policy_blocked : Denial
  trust_blocked : TrustDecision → Denial

pub data Response : Type 0 where
  bad_request not_found server_error : Response
  conflict : Denial → Response
  done : Status → String → Response

pub record Outcome : Type 0 where
  pub world : World
  pub response : Response

abbrev pub respond : World → Response → Outcome
respond w r = record { world = w; response = r }

-- The trimmed `sbomID` of the body, where it is a text that is not blank.
pub requested_id : Body → Option String
requested_id b =
    if b.is_object
    then elim b.sbom_id [
      | none ↦ none
      | some s ↦ if text_eq (trim s) "" then none else some (trim s)
    ]
    else none

-- The opening of every route: the body, then the document.
pub with_document : Env → Body → World → (String → Document → Outcome) → Outcome
with_document env b w k = elim (requested_id b) [
  | none ↦ respond w bad_request
  | some id ↦
      if env.reads
      then elim (document_of w id) [ none ↦ respond w not_found | some d ↦ k id d ]
      else respond w server_error
]

-- The close of the routes that make one transition.
pub transition : Env → Call → String → Option String → World → Outcome
transition env call id who w =
    if env.connects
    then respond (commit env call id who w).0 (
        if (commit env call id who w).1
        then done (target call) (env.transaction_id call id)
        else server_error)
    else respond w server_error

-- `POST /review-pending`
pub review_pending_route : Env → Body → World → Outcome
review_pending_route env b w = with_document env b w (λ id d.
    if same_status d.status registered
    then transition env move_to_review_pending id none w
    else respond w (conflict (wrong_state d.status)))

-- `POST /reject`
pub reject_route : Env → Body → World → Outcome
reject_route env b w = with_document env b w (λ id d.
    if same_status d.status superseded || same_status d.status rejected
    then respond w (conflict (wrong_state d.status))
    else transition env reject_sbom id none w)

-- `POST /supersede`
pub supersede_route : Env → Body → World → Outcome
supersede_route env b w =
    with_document env b w (λ id d. transition env supersede_sbom id (submitter env id) w)

-- The decisions that stop a transition.
abbrev pub blocks : TrustDecision → Bool
blocks untrusted_rejected = true
blocks review_required = true
blocks conditionally_accepted = true
blocks trusted = false
blocks unevaluated = false

pub latest_trust : World → String → Option TrustDecision
latest_trust w id = elim (latest_decision w id) [
  | none ↦ none
  | some d ↦ some (normalize_trust_status d.trust_status).trust_decision
]

-- The test of the latest trust decision that `approve` and `activate` share.
pub with_trust : Env → String → World → Outcome → Outcome
with_trust env id w k =
    if env.decision_reads
    then elim (latest_trust w id) [
      | none ↦ k
      | some t ↦ if blocks t then respond w (conflict (trust_blocked t)) else k
    ]
    else respond w server_error

-- One round of the loop that supersedes earlier releases; a failure is logged.
pub supersede_round : Env → String → Document → Option String → Document → World → World
supersede_round env id d who previous w =
    if not (text_eq previous.sbom_id id)
      && text_eq previous.software_name d.software_name
      && same_status previous.status active
    then (commit env supersede_sbom previous.sbom_id who w).0
    else w

pub supersede_others : Env → String → Document → Option String → List Document → World → World
supersede_others env id d who [] w = w
supersede_others env id d who (p ∷ ps) w =
    supersede_others env id d who ps (supersede_round env id d who p w)

-- What `activate` does once the new release is ACTIVE; `listSBOMDocuments(500)` takes the latest rows.
pub supersede_previous : Env → String → Document → World → World
supersede_previous env id d w =
    if env.lists then supersede_others env id d (submitter env id) (take 500 w.documents) w else w

pub activation : Env → String → Document → World → Outcome
activation env id d w =
    if env.connects
    then if (commit env activate_sbom id (submitter env id) w).1
      then respond
          (supersede_previous env id d (commit env activate_sbom id (submitter env id) w).0)
          (done active (env.transaction_id activate_sbom id))
      else respond (commit env activate_sbom id (submitter env id) w).0 server_error
    else respond w server_error

-- `POST /activate`
pub activate_route : Env → Body → World → Outcome
activate_route env b w = with_document env b w (λ id d.
    if same_status d.status approved
    then with_trust env id w (activation env id d w)
    else respond w (conflict (wrong_state d.status)))

-- The routes of the lifecycle.
pub data Request : Type 0 where
  to_review_pending to_security_reviewed to_approved to_active to_superseded to_rejected : Request

module _ (parts : String → List ℕ) (registry : Registry) where
  -- `POST /approve`
  pub approve_route : Env → Body → World → Outcome
  approve_route env b w = with_document env b w (λ id d.
      if same_status d.status compliant
      then if is (policy_of parts registry d) "FAIL"
        then respond w (conflict policy_blocked)
        else with_trust env id w (transition env approve_sbom id (submitter env id) w)
      else respond w (conflict (wrong_state d.status)))

  -- `compliancePassed`
  pub compliance_passed : Env → String → Document → Bool
  compliance_passed env id d = elim (env.verify_integrity id) [
    | none ↦ false
    | some ok ↦ ok && is (policy_of parts registry d) "PASS"
  ]

  -- The automatic transition that follows; a failure is logged and the status stays.
  pub automatic : Env → String → Document → World → Outcome
  automatic env id d w =
      let call = (if compliance_passed env id d then mark_compliant else reject_sbom) in
      respond (commit env call id none w).0 (
        done (if (commit env call id none w).1 then target call else security_reviewed)
          (env.transaction_id move_to_security_reviewed id))

  pub reviewed : Env → String → Document → World → Outcome
  reviewed env id d w =
      if env.connects
      then if (commit env move_to_security_reviewed id none w).1
        then automatic env id d (commit env move_to_security_reviewed id none w).0
        else respond (commit env move_to_security_reviewed id none w).0 server_error
      else respond w server_error

  -- `POST /security-reviewed`
  pub security_reviewed_route : Env → Body → World → Outcome
  security_reviewed_route env b w = with_document env b w (λ id d.
      if same_status d.status review_pending
      then reviewed env id d w
      else respond w (conflict (wrong_state d.status)))

  pub handle : Request → Env → Body → World → Outcome
  handle to_review_pending = review_pending_route
  handle to_security_reviewed = security_reviewed_route
  handle to_approved = approve_route
  handle to_active = activate_route
  handle to_superseded = supersede_route
  handle to_rejected = reject_route
