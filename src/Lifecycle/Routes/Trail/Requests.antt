-- ===== src/Lifecycle/Routes/Trail/Requests.antt =====
-- What each route makes of the documents.
use tpsr_v.Prelude.{
  ◌≡◌, refl, sym, ◌∙◌, subst, ℕ, String, Bool, true, false, ◌||◌, none, some, List, arith,
  if◌then◌else◌, is, text_eq, text_eq_iff, ap,
}
use tpsr_v.Policy.{Registry}
use tpsr_v.Lifecycle.{
  Status, registered, review_pending, security_reviewed, compliant, approved, active, superseded,
  rejected, same_status, Document, supersede_sbom, reject_sbom, mark_compliant, approve_sbom,
  activate_sbom, move_to_review_pending, move_to_security_reviewed, World, Env, document_of,
  submitter, commit, policy_of,
}
use tpsr_v.Lifecycle.Routes.Store.{status_of, status_of-committed, status_of-document}
use tpsr_v.Lifecycle.Routes.Walk.{commit_branch-holds, document-holds, with_trust-holds}
use tpsr_v.Lifecycle.Routes.{
  Body, Outcome, requested_id, with_document, transition, with_trust, activation,
  supersede_previous, review_pending_route, reject_route, supersede_route, activate_route,
  approve_route, compliance_passed, automatic, reviewed, security_reviewed_route, Request,
  to_review_pending, to_security_reviewed, to_approved, to_active, to_superseded, to_rejected,
  handle, conflict, policy_blocked, respond,
}
use tpsr_v.Lifecycle.Routes.Trail.{
  asks_for, Edge, submitted, examined, passed, failed, approval, activation_edge, rejection,
  retirement, Follows, Follows-refl, Follows-trans, Permitted, commit-Follows, transition-Follows,
  Permitted-from, some_eq,
}
use tpsr_v.Lifecycle.Routes.Trail.Loop.{DistinctIds, IsActive, previous-IsActive-Follows}

asked : (b : Body) (id j : String) → requested_id b ≡ some id → asks_for b j ≡ text_eq id j
asked b id j q = ap (λ o. elim o [ none ↦ false | some i ↦ text_eq i j ]) q

asked_own : (b : Body) (id : String) → requested_id b ≡ some id → asks_for b id ≡ true
asked_own b id q = asked b id id q ∙ (text_eq_iff id id).1 refl

pub asked_other :
    (b : Body) (id : String)
    → requested_id b ≡ some id
    → (j : String) → text_eq j id ≡ false
    → asks_for b j ≡ false
asked_other b id q j n = asked b id j q ∙ ground (arith, text_eq_iff id j, text_eq_iff j id)

-- What the loop of an activation has to do.
abbrev pub Loops : (Status → Type 0) → Env → Body → World → Type 0
Loops From env b w =
    (id : String) (d : Document)
    → requested_id b ≡ some id
    → let next : World = (commit env activate_sbom id (submitter env id) w).0 in
      Follows From to_active (asks_for b) next (supersede_previous env id d next)

module _ (From : Status → Type 0) (env : Env) (b : Body) (w : World) where
  abbrev Goes : Request → World → Type 0
  Goes r v = Follows From r (asks_for b) w v

  keeps : (r : Request) → Goes r w
  keeps r = Follows-refl From r (asks_for b) w

  -- An edge of the document that is asked for.
  own_edge :
      (r : Request) (id : String) (s t : Status)
      → requested_id b ≡ some id
      → Edge From r true s t
      → Edge From r (asks_for b id) s t
  own_edge r id s t q e = subst (λ o. Edge From r o s t) (sym (asked_own b id q)) e

  document-Goes :
      (r : Request) (k : String → Document → Outcome)
      → ((id : String) (d : Document)
          → requested_id b ≡ some id
          → document_of w id ≡ some d
          → Goes r (k id d).world)
      → Goes r (with_document env b w k).world
  document-Goes r k g = document-holds (λ o. Goes r o.world) w (λ x f. keeps r) env b k g

  review_pending_route-Follows : Goes to_review_pending (review_pending_route env b w).world
  unfolding review_pending_route
  review_pending_route-Follows = document-Goes to_review_pending _ (λ id d q e.
      commit_branch-holds (Goes to_review_pending) (same_status d.status registered) _ _
        (λ h.
          transition-Follows From to_review_pending (asks_for b) env move_to_review_pending id none
            w
            (Permitted-from From to_review_pending (asks_for b) w id d move_to_review_pending
              registered e h (own_edge to_review_pending id registered review_pending q submitted)))
        (λ _. keeps to_review_pending))

  supersede_route-Follows : Goes to_superseded (supersede_route env b w).world
  unfolding supersede_route
  supersede_route-Follows = document-Goes to_superseded _ (λ id d q e.
      transition-Follows From to_superseded (asks_for b) env supersede_sbom id (submitter env id) w
        (λ s f. own_edge to_superseded id s superseded q retirement))

  Permitted-rejection :
      (id : String) (d : Document)
      → requested_id b ≡ some id
      → document_of w id ≡ some d
      → (same_status d.status superseded || same_status d.status rejected) ≡ false
      → Permitted From to_rejected (asks_for b) w id reject_sbom
  Permitted-rejection id d q e h s f =
      subst (λ x. Edge From to_rejected (asks_for b id) x rejected)
        (some_eq d.status s (sym (status_of-document w id e) ∙ f))
        (own_edge to_rejected id d.status rejected q (rejection (ground arith) (ground arith)))

  reject_route-Follows : Goes to_rejected (reject_route env b w).world
  unfolding reject_route
  reject_route-Follows = document-Goes to_rejected _ (λ id d q e.
      commit_branch-holds (Goes to_rejected)
        (same_status d.status superseded || same_status d.status rejected) _ _
        (λ _. keeps to_rejected)
        (λ h.
          transition-Follows From to_rejected (asks_for b) env reject_sbom id none w
            (Permitted-rejection id d q e h)))

  activation-Follows :
      (id : String) (d : Document)
      → requested_id b ≡ some id
      → Permitted From to_active (asks_for b) w id activate_sbom
      → Loops From env b w
      → Goes to_active (activation env id d w).world
  unfolding activation
  activation-Follows id d q h loop =
      let next : World = (commit env activate_sbom id (submitter env id) w).0 in
      let own =
        commit-Follows From to_active (asks_for b) env activate_sbom id (submitter env id) w h in
      commit_branch-holds (Goes to_active) env.connects _ _
        (λ _.
          commit_branch-holds (Goes to_active) _ _ _
            (λ _.
              Follows-trans From to_active (asks_for b) w next (supersede_previous env id d next)
                own (loop id d q))
            (λ _. own))
        (λ _. keeps to_active)

  activate_route-Follows : Loops From env b w → Goes to_active (activate_route env b w).world
  unfolding activate_route
  activate_route-Follows loop = document-Goes to_active _ (λ id d q e.
      commit_branch-holds (Goes to_active) (same_status d.status approved) _ _
        (λ h. with_trust-holds (Goes to_active) env id w _ (keeps to_active) (
          activation-Follows id d q
            (Permitted-from From to_active (asks_for b) w id d activate_sbom approved e h
              (own_edge to_active id approved active q activation_edge))
            loop))
        (λ _. keeps to_active))

  Permitted-automatic :
      (v : World) (id : String) (c : Bool)
      → requested_id b ≡ some id
      → status_of v id ≡ some security_reviewed
      → Permitted From to_security_reviewed
          (asks_for b)
          v
          id
          (if c then mark_compliant else reject_sbom)
  Permitted-automatic v id true q e s f =
      subst (λ x. Edge From to_security_reviewed (asks_for b id) x compliant)
        (some_eq security_reviewed s (sym e ∙ f))
        (own_edge to_security_reviewed id security_reviewed compliant q passed)
  Permitted-automatic v id false q e s f =
      subst (λ x. Edge From to_security_reviewed (asks_for b id) x rejected)
        (some_eq security_reviewed s (sym e ∙ f))
        (own_edge to_security_reviewed id security_reviewed rejected q failed)

module _ (From : Status → Type 0) (parts : String → List ℕ) (registry : Registry) (env : Env)
    (b : Body) (w : World) where
  approve_route-Follows : Goes From env b w to_approved (approve_route parts registry env b w).world
  unfolding approve_route
  approve_route-Follows = document-Goes From env b w to_approved _ (λ id d q e.
      commit_branch-holds (Goes From env b w to_approved) (same_status d.status compliant) _ _
        (λ h.
          commit_branch-holds (Goes From env b w to_approved)
            (is (policy_of parts registry d) "FAIL") (respond w (conflict policy_blocked))
            (with_trust env id w (transition env approve_sbom id (submitter env id) w))
            (λ _. keeps From env b w to_approved)
            (λ _.
              with_trust-holds (Goes From env b w to_approved) env id w
                (transition env approve_sbom id (submitter env id) w)
                (keeps From env b w to_approved)
                (transition-Follows From to_approved (asks_for b) env approve_sbom id
                  (submitter env id) w
                  (Permitted-from From to_approved (asks_for b) w id d approve_sbom compliant e h
                    (own_edge From env b w to_approved id compliant approved q approval)))))
        (λ _. keeps From env b w to_approved))

  automatic-Follows :
      (id : String) (d : Document) (v : World)
      → requested_id b ≡ some id
      → status_of v id ≡ some security_reviewed
      → Follows From to_security_reviewed (asks_for b) v (automatic parts registry env id d v).world
  unfolding automatic
  automatic-Follows id d v q e =
      commit-Follows From to_security_reviewed (asks_for b) env
        (if compliance_passed parts registry env id d then mark_compliant else reject_sbom) id none
        v (Permitted-automatic From env b w v id (compliance_passed parts registry env id d) q e)

  reviewed-Follows :
      (id : String) (d : Document)
      → requested_id b ≡ some id
      → document_of w id ≡ some d
      → same_status d.status review_pending ≡ true
      → Goes From env b w to_security_reviewed (reviewed parts registry env id d w).world
  unfolding reviewed
  reviewed-Follows id d q e h =
      let next : World = (commit env move_to_security_reviewed id none w).0 in
      let own =
        commit-Follows From to_security_reviewed (asks_for b) env move_to_security_reviewed id none
          w
          (Permitted-from From to_security_reviewed (asks_for b) w id d move_to_security_reviewed
            review_pending e h
            (own_edge From env b w to_security_reviewed id review_pending security_reviewed q
              examined)) in
      commit_branch-holds (Goes From env b w to_security_reviewed) env.connects _ _
        (λ _.
          commit_branch-holds (Goes From env b w to_security_reviewed) _ _ _
            (λ c.
              Follows-trans From to_security_reviewed (asks_for b) w next
                (automatic parts registry env id d next).world own
                (automatic-Follows id d next q (
                  status_of-committed env move_to_security_reviewed id none w
                    (status_of-document w id e) c)))
            (λ _. own))
        (λ _. keeps From env b w to_security_reviewed)

  security_reviewed_route-Follows :
      Goes From env b w to_security_reviewed (security_reviewed_route parts registry env b w).world
  unfolding security_reviewed_route
  security_reviewed_route-Follows = document-Goes From env b w to_security_reviewed _ (λ id d q e.
      commit_branch-holds (Goes From env b w to_security_reviewed)
        (same_status d.status review_pending) _ _ (λ h. reviewed-Follows id d q e h)
        (λ _. keeps From env b w to_security_reviewed))

  -- A request, whatever its loop does.
  pub request-Follows :
      (r : Request)
      → Loops From env b w
      → Follows From r (asks_for b) w (handle parts registry r env b w).world
  unfolding handle
  request-Follows to_review_pending loop = review_pending_route-Follows From env b w
  request-Follows to_security_reviewed loop = security_reviewed_route-Follows
  request-Follows to_approved loop = approve_route-Follows
  request-Follows to_active loop = activate_route-Follows From env b w loop
  request-Follows to_superseded loop = supersede_route-Follows From env b w
  request-Follows to_rejected loop = reject_route-Follows From env b w

-- With distinct ids, and whatever the database, the ledger and the network answer, failures included, a
-- request moves the document that it asks for only along the transitions of its own route, in order:
-- REGISTERED to REVIEW_PENDING, REVIEW_PENDING to SECURITY_REVIEWED and on to COMPLIANT or REJECTED,
-- COMPLIANT to APPROVED, APPROVED to ACTIVE, any status but REJECTED and SUPERSEDED to REJECTED, and any
-- status at all to SUPERSEDED. It moves another document only if it is an activation, and then only
-- from ACTIVE to SUPERSEDED.
pub handle-Follows :
    (parts : String → List ℕ) (registry : Registry) (r : Request) (env : Env) (b : Body) (w : World)
    → DistinctIds w.documents
    → Follows IsActive r (asks_for b) w (handle parts registry r env b w).world
handle-Follows parts registry r env b w u =
    request-Follows IsActive parts registry env b w r (λ id d q.
      previous-IsActive-Follows (asks_for b) id (asked_other b id q) env d activate_sbom
        (submitter env id) w u)
