-- ===== src/Exceptions/Routes.antt =====
-- api/src/routes/exceptions.routes.js: the handlers that write. Each is split where it first waits for
-- the update, since other requests may run there. The reads before it answer.
use tpsr_v.Prelude.{
  ℕ, String, Bool, ◌||◌, Option, none, some, List, [], ◌∷◌, truthy, trim, or_text, if◌then◌else◌,
}
use tpsr_v.Governance.{
  ExceptionRequest, ExceptionGovernance, ExceptionStatus, ApprovalResult, lists, validate_structure,
  evaluate_approval,
}
use tpsr_v.Exceptions.{
  RowStatus, requested, active, same_row_status, Row, Event, row_of, insert_row, Change, approve_by,
  reject_by, revoke_by, supersede_by, from_of, to_of, update_rows,
}

-- `req.auth`
pub record Auth : Type 0 where
  pub user_id : Option String
  pub role : Option String

-- The SBOM document that the handlers read.
pub record Release : Type 0 where
  pub sbom_id : Option String
  pub sbom_hash : Option String

-- The keys of `policy.contextAuthorizationRules` that the handlers use.
pub data Action : Type 0 where
  request_exception approve_exception reject_exception revoke_exception supersede_exception : Action

-- What a handler finds: the documents, the trust policy and the rules, the clock, a new id, and
-- whether the two writes succeed. `allowed` is none where the policy has no such rule or roles.
pub record Env : Type 0 where
  pub release_of : String → Option Release
  pub allowed : Action → Option (List String)
  pub is_revoked : String → Bool
  pub now : ℕ
  pub fresh_id : String
  pub updates : Bool
  pub records_event : Bool

-- The requests with the fields of the path and of the body that they read.
pub data Request : Type 0 where
  request : String → ExceptionRequest → Request
  approve : String → String → Option String → Request
  reject : String → Option String → Request
  revoke : String → Option String → Request
  supersede : String → Option String → Option String → Request

pub data Response : Type 0 where
  unauthenticated forbidden not_found bad_request server_error : Response
  created : Response
  done : Option Row → Response

-- What is left to do after the checks.
pub data Plan : Type 0 where
  insert : String → ExceptionRequest → Event → Plan
  update : String → Change → Event → Plan

pub data Check : Type 0 where
  answer : Response → Check
  proceed : Plan → Check

-- `!req.auth || !req.auth.userId`, then the role of the action.
unfoldable pub with_role : Env → Option Auth → Action → (Auth → Check) → Check
with_role env none a k = answer unauthenticated
with_role env (some auth) a k =
    if truthy auth.user_id
    then elim (env.allowed a) [
      | none ↦ answer forbidden
      | some roles ↦ if lists roles auth.role then k auth else answer forbidden
    ]
    else answer unauthenticated

-- The event of an update.
abbrev pub event_of : String → String → RowStatus → Change → Auth → Option String → Event
event_of id type previous c auth why = record {
  exception_id = id;
  event_type = type;
  previous_status = some previous;
  new_status = to_of c;
  actor_id = auth.user_id;
  actor_role = auth.role;
  reason = why;
}

abbrev pub requested_event : String → Auth → Event
requested_event id auth = record {
  exception_id = id;
  event_type = "REQUESTED";
  previous_status = none;
  new_status = requested;
  actor_id = auth.user_id;
  actor_role = auth.role;
  reason = none;
}

-- `compensatingControls || []`
abbrev or_no_controls : Option (List String) → Option (List String)
or_no_controls none = some []
or_no_controls (some xs) = some xs

-- `parsed`
unfoldable pub parsed : ExceptionRequest → String → Auth → Release → ExceptionRequest
parsed body sbom auth d = record body {
  sbom_id = some sbom;
  digest_manifest_digest = d.sbom_hash;
  compensating_controls = or_no_controls body.compensating_controls;
  requested_by = auth.user_id;
  requested_by_role = auth.role;
  owned_by = auth.user_id;
  owner_role = auth.role;
}

-- `ensureSbomExists`
unfoldable pub with_release : Env → String → (Release → Check) → Check
with_release env sbom k = elim (env.release_of sbom) [ none ↦ answer not_found | some d ↦ k d ]

-- `requestException`, which looks for the document first.
unfoldable pub check_request : Env → Option Auth → String → ExceptionRequest → Check
check_request env auth path body =
    let sbom = trim path in
    with_release env sbom (λ d. with_role env auth request_exception (λ a.
      if validate_structure (parsed body sbom a d)
      then proceed (insert env.fresh_id (parsed body sbom a d) (requested_event env.fresh_id a))
      else answer bad_request))

-- `getExceptionById`, and the test of the status.
unfoldable pub with_row : List Row → String → (RowStatus → Bool) → (Row → Check) → Check
with_row rows id fits k = elim (row_of rows id) [
  | none ↦ answer not_found
  | some r ↦ if fits r.status then k r else answer bad_request
]

-- A text that has to be in the body.
unfoldable pub with_text : Option String → (String → Check) → Check
with_text none k = answer bad_request
with_text (some s) k = if truthy (some s) then k s else answer bad_request

-- `rejectException`
unfoldable pub check_reject : Env → List Row → Option Auth → String → Option String → Check
check_reject env rows auth path why =
    let id = trim path in
    with_role env auth reject_exception (λ a. with_text why (λ reason.
      with_row rows id (same_row_status requested) (λ r.
        let c = reject_by a.user_id a.role in
        proceed (update id c (event_of id "REJECTED" requested c a (some reason))))))

-- `revokeException`
unfoldable pub check_revoke : Env → List Row → Option Auth → String → Option String → Check
check_revoke env rows auth path why =
    let id = trim path in
    with_role env auth revoke_exception (λ a. with_text why (λ reason.
      with_row rows id (same_row_status active) (λ r.
        let c = revoke_by a.user_id reason in
        proceed (update id c (event_of id "REVOKED" active c a (some reason))))))

abbrev pub is_open : RowStatus → Bool
is_open s = same_row_status active s || same_row_status requested s

-- `supersedeException`
unfoldable pub check_supersede :
    Env → List Row → Option Auth → String → Option String → Option String → Check
check_supersede env rows auth path new why =
    let id = trim path in
    with_role env auth supersede_exception (λ a. with_text new (λ successor.
      with_row rows id is_open (λ r.
        let c = supersede_by successor in
        proceed
          (update id c (event_of id "SUPERSEDED" r.status c a (some (or_text why "Superseded")))))))

-- The two tests of `evalResult`, the first of them for the answer 403.
unfoldable pub check_approval : ApprovalResult → Plan → Check
check_approval v p =
    if v.evaluation.separation_of_duties_passed
    then elim v.derived_status [ ExceptionStatus.active ↦ proceed p | _ ↦ answer bad_request ]
    else answer forbidden

module _ (rules : List (String × String)) (g : ExceptionGovernance) where
  -- `evalResult`
  unfoldable pub approval_of : Env → Row → Auth → Release → ApprovalResult
  approval_of env r a d =
      evaluate_approval env.now rules env.is_revoked g r.request
        (record { approved_by = a.user_id; approver_role = a.role }) d.sbom_id d.sbom_hash

  -- `approveException`
  unfoldable pub check_approve :
      Env → List Row → Option Auth → String → String → Option String → Check
  check_approve env rows auth sbom path comment =
      let id = trim path in
      with_role env auth approve_exception (λ a. with_release env (trim sbom) (λ d.
        with_row rows id (same_row_status requested) (λ r.
          let v = approval_of env r a d in
          let c = approve_by a.user_id a.role v.assurance_state in
          check_approval v (
            update id c
              (event_of id "APPROVED" requested c a (some (or_text comment "Approved")))))))

  unfoldable pub check : Env → List Row → Option Auth → Request → Check
  check env rows auth (request sbom body) = check_request env auth sbom body
  check env rows auth (approve sbom id comment) = check_approve env rows auth sbom id comment
  check env rows auth (reject id why) = check_reject env rows auth id why
  check env rows auth (revoke id why) = check_revoke env rows auth id why
  check env rows auth (supersede id new why) = check_supersede env rows auth id new why

-- The two tables.
pub record Tables : Type 0 where
  pub rows : List Row
  pub events : List Event

-- `recordExceptionEvent`, and the answer; the newest event comes first.
unfoldable pub concluded : Env → Event → Response → Tables → Tables × Response
concluded env e ok t =
    if env.records_event then (record t { events = e ∷ t.events }, ok) else (t, server_error)

-- `RETURNING *`: the row, if it had the status that the update wants.
unfoldable pub returned : Change → String → List Row → Option Row
returned c id rows = elim (row_of rows id) [
  | none ↦ none
  | some r ↦
      if same_row_status r.status (from_of c) then row_of (update_rows c id rows) id else none
]

-- The `try` block of a handler.
unfoldable pub commit : Env → Plan → Tables → Tables × Response
commit env (insert id e event) t =
    if env.updates
    then elim (insert_row id e t.rows) [
      | none ↦ (t, server_error)
      | some rows ↦ concluded env event created (record t { rows = rows })
    ]
    else (t, server_error)
commit env (update id c event) t =
    if env.updates
    then concluded env event (done (returned c id t.rows))
        (record t { rows = update_rows c id t.rows })
    else (t, server_error)

module _ (rules : List (String × String)) (g : ExceptionGovernance) where
  abbrev conclude_check : Env → Check → Tables → Tables × Response
  conclude_check env (answer r) t = (t, r)
  conclude_check env (proceed p) t = commit env p t

  -- A handler that nothing interrupts.
  unfoldable pub handle : Env → Option Auth → Request → Tables → Tables × Response
  handle env auth q t = conclude_check env (check rules g env t.rows auth q) t
