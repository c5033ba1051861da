-- ===== src/Lifecycle/Routes/Answer.antt =====
-- What a route answers is what the database holds.
use tpsr_v.Prelude.{
  ◌≡◌, refl, ap, ◌∙◌, subst, ℕ, String, Bool, true, false, ◌||◌, Option, none, some, List, [], ◌∷◌,
  text_eq, arith, if◌then◌else◌, is, take,
}
use tpsr_v.Policy.{Registry}
use tpsr_v.Lifecycle.{
  Status, registered, review_pending, security_reviewed, compliant, approved, active, superseded,
  rejected, same_status, Document, Call, supersede_sbom, reject_sbom, mark_compliant, approve_sbom,
  activate_sbom, move_to_review_pending, move_to_security_reviewed, target, World, Env, document_of,
  submitter, commit, policy_of,
}
use tpsr_v.Lifecycle.Routes.Walk.{choice-holds, document-holds, trust-holds, IsFailure}
use tpsr_v.Lifecycle.Routes.Store.{
  status_of, status_of-committed, status_of-document, status_of-commit_other,
}
use tpsr_v.Lifecycle.Routes.{
  Body, Outcome, Response, server_error, done, conflict, wrong_state, policy_blocked, respond,
  requested_id, transition, with_trust, supersede_round, supersede_others, supersede_previous,
  activation, review_pending_route, reject_route, supersede_route, activate_route, approve_route,
  compliance_passed, automatic, reviewed, security_reviewed_route, Request, to_review_pending,
  to_security_reviewed, to_approved, to_active, to_superseded, to_rejected, handle,
}

-- A commit that was not done leaves the statuses.
status_of-uncommitted :
    (env : Env) (call : Call) (id : String) (who : Option String) (w : World) (j : String)
    → (commit env call id who w).1 ≡ false
    → status_of (commit env call id who w).0 j ≡ status_of w j
unfolding commit
status_of-uncommitted env call id who w j h = ground arith

-- The answer is the status of the document of the request.
abbrev Truthful : Body → Outcome → Type 0
Truthful b o =
    (s : Status) (tx : String)
    → o.response ≡ done s tx
    → (id : String) × (requested_id b ≡ some id) × (status_of o.world id ≡ some s)

done_status : (s t : Status) (x y : String) → done s x ≡ done t y → some s ≡ some t
done_status s t x y e = ap status_answered e
  where
    status_answered : Response → Option Status
    status_answered (done u z) = some u
    status_answered _ = none

failure-Truthful : (b : Body) (w : World) (r : Response) → IsFailure r → Truthful b (respond w r)
failure-Truthful b w r f s tx e = absurd (subst IsFailure e f)

done-Truthful :
    (b : Body) (w : World) (t : Status) (y : String) (id : String)
    → requested_id b ≡ some id
    → status_of w id ≡ some t
    → Truthful b (respond w (done t y))
done-Truthful b w t y id q h s tx e = (id, q, h ∙ done_status t s y tx e)

transition-Truthful :
    (env : Env) (call : Call) (b : Body) (id : String) (who : Option String) (w : World)
    (d : Document)
    → requested_id b ≡ some id
    → document_of w id ≡ some d
    → Truthful b (transition env call id who w)
unfolding transition
transition-Truthful env call b id who w d q e =
    choice-holds (Truthful b) env.connects _ _ (λ _. answered (commit env call id who w).1 refl)
      (λ _. failure-Truthful b w server_error tt)
  where
    answered :
        (c : Bool)
        → (commit env call id who w).1 ≡ c
        → Truthful b (
            respond
              (commit env call id who w).0
              (if c then done (target call) (env.transaction_id call id) else server_error))
    answered true h =
        done-Truthful b (commit env call id who w).0 (target call) (env.transaction_id call id) id q
          (status_of-committed env call id who w (status_of-document w id e) h)
    answered false h = failure-Truthful b (commit env call id who w).0 server_error tt

supersede_round-other :
    (env : Env) (id : String) (d : Document) (who : Option String) (p : Document) (w : World)
    → status_of (supersede_round env id d who p w) id ≡ status_of w id
unfolding supersede_round
supersede_round-other env id d who p w = ground (
  arith,
  λ (h : text_eq p.sbom_id id ≡ false).
      status_of-commit_other env supersede_sbom p.sbom_id id who w h,
)

supersede_others-other :
    (env : Env) (id : String) (d : Document) (who : Option String) (ps : List Document) (w : World)
    → status_of (supersede_others env id d who ps w) id ≡ status_of w id
unfolding supersede_others
supersede_others-other env id d who [] w = refl
supersede_others-other env id d who (p ∷ ps) w =
    supersede_others-other env id d who ps (supersede_round env id d who p w)
    ∙ supersede_round-other env id d who p w

pub supersede_previous-other :
    (env : Env) (id : String) (d : Document) (w : World)
    → status_of (supersede_previous env id d w) id ≡ status_of w id
unfolding supersede_previous
supersede_previous-other env id d w =
    ground (arith, supersede_others-other env id d (submitter env id) (take 500 w.documents) w)

activation-Truthful :
    (env : Env) (b : Body) (id : String) (w : World) (d : Document)
    → requested_id b ≡ some id
    → document_of w id ≡ some d
    → Truthful b (activation env id d w)
unfolding activation
activation-Truthful env b id w d q e =
    let next : World = (commit env activate_sbom id (submitter env id) w).0 in
    choice-holds (Truthful b) env.connects _ _
      (λ _.
        choice-holds (Truthful b) _ _ _
          (λ c.
            done-Truthful b (supersede_previous env id d next) active
              (env.transaction_id activate_sbom id) id q
              (supersede_previous-other env id d next
                ∙ status_of-committed env activate_sbom id (submitter env id) w
                    (status_of-document w id e) c))
          (λ _. failure-Truthful b next server_error tt))
      (λ _. failure-Truthful b w server_error tt)

module _ (parts : String → List ℕ) (registry : Registry) where
  automatic-Truthful :
      (env : Env) (b : Body) (id : String) (w : World) (d : Document)
      → requested_id b ≡ some id
      → status_of w id ≡ some security_reviewed
      → Truthful b (automatic parts registry env id d w)
  unfolding automatic
  automatic-Truthful env b id w d q e =
      let call : Call =
        (if compliance_passed parts registry env id d then mark_compliant else reject_sbom) in
      answered call (commit env call id none w).1 refl
    where
      answered :
          (call : Call) (c : Bool)
          → (commit env call id none w).1 ≡ c
          → Truthful b (
              respond (commit env call id none w).0 (
                done
                  (if c then target call else security_reviewed)
                  (env.transaction_id move_to_security_reviewed id)))
      answered call true h =
          done-Truthful b (commit env call id none w).0 (target call) _ id q
            (status_of-committed env call id none w e h)
      answered call false h =
          done-Truthful b (commit env call id none w).0 security_reviewed _ id q
            (status_of-uncommitted env call id none w id h ∙ e)

  reviewed-Truthful :
      (env : Env) (b : Body) (id : String) (w : World) (d : Document)
      → requested_id b ≡ some id
      → document_of w id ≡ some d
      → Truthful b (reviewed parts registry env id d w)
  unfolding reviewed
  reviewed-Truthful env b id w d q e =
      let next : World = (commit env move_to_security_reviewed id none w).0 in
      choice-holds (Truthful b) env.connects _ _
        (λ _.
          choice-holds (Truthful b) _ _ _
            (λ c. automatic-Truthful env b id next d q (
              status_of-committed env move_to_security_reviewed id none w
                (status_of-document w id e) c))
            (λ _. failure-Truthful b next server_error tt))
        (λ _. failure-Truthful b w server_error tt)

  approval-Truthful :
      (env : Env) (b : Body) (id : String) (w : World) (d : Document)
      → requested_id b ≡ some id
      → document_of w id ≡ some d
      → Truthful b (
          if is (policy_of parts registry d) "FAIL"
          then respond w (conflict policy_blocked)
          else with_trust env id w (transition env approve_sbom id (submitter env id) w))
  approval-Truthful env b id w d q e =
      choice-holds (Truthful b) (is (policy_of parts registry d) "FAIL")
        (respond w (conflict policy_blocked))
        (with_trust env id w (transition env approve_sbom id (submitter env id) w))
        (λ _. failure-Truthful b w (conflict policy_blocked) tt)
        (λ _.
          trust-holds (Truthful b) w (failure-Truthful b w) env id
            (transition env approve_sbom id (submitter env id) w)
            (λ _. transition-Truthful env approve_sbom b id (submitter env id) w d q e))

  handle-Truthful :
      (r : Request) (env : Env) (b : Body) (w : World)
      → Truthful b (handle parts registry r env b w)
  unfolding handle review_pending_route security_reviewed_route approve_route activate_route
      supersede_route reject_route
  handle-Truthful to_review_pending env b w =
      document-holds (Truthful b) w (failure-Truthful b w) env b _ (λ id d q e.
        choice-holds (Truthful b) (same_status d.status registered) _ _
          (λ _. transition-Truthful env move_to_review_pending b id none w d q e)
          (λ _. failure-Truthful b w (conflict (wrong_state d.status)) tt))
  handle-Truthful to_security_reviewed env b w =
      document-holds (Truthful b) w (failure-Truthful b w) env b _ (λ id d q e.
        choice-holds (Truthful b) (same_status d.status review_pending) _ _
          (λ _. reviewed-Truthful env b id w d q e)
          (λ _. failure-Truthful b w (conflict (wrong_state d.status)) tt))
  handle-Truthful to_approved env b w =
      document-holds (Truthful b) w (failure-Truthful b w) env b _ (λ id d q e.
        choice-holds (Truthful b) (same_status d.status compliant) _ _
          (λ _. approval-Truthful env b id w d q e)
          (λ _. failure-Truthful b w (conflict (wrong_state d.status)) tt))
  handle-Truthful to_active env b w =
      document-holds (Truthful b) w (failure-Truthful b w) env b _ (λ id d q e.
        choice-holds (Truthful b) (same_status d.status approved) _ _
          (λ _.
            trust-holds (Truthful b) w (failure-Truthful b w) env id (activation env id d w)
              (λ _. activation-Truthful env b id w d q e))
          (λ _. failure-Truthful b w (conflict (wrong_state d.status)) tt))
  handle-Truthful to_superseded env b w =
      document-holds (Truthful b) w (failure-Truthful b w) env b _
        (λ id d q e. transition-Truthful env supersede_sbom b id (submitter env id) w d q e)
  handle-Truthful to_rejected env b w =
      document-holds (Truthful b) w (failure-Truthful b w) env b _ (λ id d q e.
        choice-holds (Truthful b) (same_status d.status superseded || same_status d.status rejected)
          _ _ (λ _. failure-Truthful b w (conflict (wrong_state d.status)) tt)
          (λ _. transition-Truthful env reject_sbom b id none w d q e))

  -- When a request is answered by a transition to a status, the document of the request has that status
  -- in the database, also when an automatic transition after it failed.
  pub handle-answer :
      (r : Request) (env : Env) (b : Body) (w : World) (s : Status) (tx : String)
      → (handle parts registry r env b w).response ≡ done s tx
      → (id : String) × (requested_id b ≡ some id)
        × (status_of (handle parts registry r env b w).world id ≡ some s)
  handle-answer r env b w s tx e = handle-Truthful r env b w s tx e
