-- ===== src/Lifecycle/Routes/Closed.antt =====
-- What every commit keeps, every route keeps: the ledger has the transaction behind each status.
use tpsr_v.Prelude.{
  ◌≡◌, refl, sym, ◌⊎◌, inl, inr, ℕ, String, Bool, true, false, ◌||◌, Option, none, some, List, [],
  ◌∷◌, text_eq, text_eq_iff, Bool-cases, if◌then◌else◌, is, take, In, here, there, All,
}
use tpsr_v.Policy.{Registry}
use tpsr_v.Lifecycle.{
  registered, review_pending, compliant, approved, superseded, rejected, same_status, Document,
  Call, supersede_sbom, reject_sbom, mark_compliant, approve_sbom, activate_sbom,
  move_to_review_pending, move_to_security_reviewed, target, Transaction, World, Env, submitter,
  commit, policy_of, update_status,
}
use tpsr_v.Lifecycle.Routes.Walk.{if-holds, with_document-holds, with_trust-holds, transition-holds}
use tpsr_v.Lifecycle.Routes.{
  Body, transition, with_trust, supersede_round, supersede_others, supersede_previous, activation,
  review_pending_route, reject_route, supersede_route, activate_route, approve_route,
  compliance_passed, automatic, reviewed, security_reviewed_route, Request, to_review_pending,
  to_security_reviewed, to_approved, to_active, to_superseded, to_rejected, handle, conflict,
  policy_blocked, respond,
}

module _ (P : World → Type 0)
    (keeps : (env : Env) (call : Call) (id : String) (who : Option String) (w : World)
      → P w
      → P (commit env call id who w).0) where
  kept_transition :
      (env : Env) (call : Call) (id : String) (who : Option String) (w : World)
      → P w
      → P (transition env call id who w).world
  kept_transition env call id who w h =
      transition-holds P env call id who w h (keeps env call id who w h)

  if_world : (c : Bool) (x y : World) → P x → P y → P (if c then x else y)
  if_world true x y h k = h
  if_world false x y h k = k

  kept_round :
      (env : Env) (id : String) (d : Document) (who : Option String) (p : Document) (w : World)
      → P w
      → P (supersede_round env id d who p w)
  unfolding supersede_round
  kept_round env id d who p w h = if_world _ _ w (keeps env supersede_sbom p.sbom_id who w h) h

  kept_others :
      (env : Env) (id : String) (d : Document) (who : Option String) (ps : List Document)
      (w : World)
      → P w
      → P (supersede_others env id d who ps w)
  unfolding supersede_others
  kept_others env id d who [] w h = h
  kept_others env id d who (p ∷ ps) w h =
      kept_others env id d who ps (supersede_round env id d who p w) (kept_round env id d who p w h)

  kept_previous :
      (env : Env) (id : String) (d : Document) (w : World) → P w → P (supersede_previous env id d w)
  unfolding supersede_previous
  kept_previous env id d w h =
      if_world env.lists _ w (kept_others env id d (submitter env id) (take 500 w.documents) w h) h

  kept_activation :
      (env : Env) (id : String) (d : Document) (w : World) → P w → P (activation env id d w).world
  unfolding activation
  kept_activation env id d w h =
      let next = keeps env activate_sbom id (submitter env id) w h in
      if-holds P env.connects _ _
        (if-holds P _ _ _
          (kept_previous env id d (commit env activate_sbom id (submitter env id) w).0 next) next)
        h

  module _ (parts : String → List ℕ) (registry : Registry) where
    kept_reviewed :
        (env : Env) (id : String) (d : Document) (w : World)
        → P w
        → P (reviewed parts registry env id d w).world
    unfolding reviewed automatic
    kept_reviewed env id d w h =
        let next = keeps env move_to_security_reviewed id none w h in
        if-holds P env.connects _ _
          (if-holds P _ _ _
            (keeps env
              (if compliance_passed parts registry env id d then mark_compliant else reject_sbom) id
              none (commit env move_to_security_reviewed id none w).0 next)
            next)
          h

    kept_approval :
        (env : Env) (id : String) (d : Document) (w : World)
        → P w
        → P
            (if is (policy_of parts registry d) "FAIL"
              then respond w (conflict policy_blocked)
              else with_trust env id w (transition env approve_sbom id (submitter env id) w)).world
    kept_approval env id d w h =
        if-holds P (is (policy_of parts registry d) "FAIL") (respond w (conflict policy_blocked))
          (with_trust env id w (transition env approve_sbom id (submitter env id) w)) h
          (with_trust-holds P env id w (transition env approve_sbom id (submitter env id) w) h
            (kept_transition env approve_sbom id (submitter env id) w h))

    pub handle-closed :
        (r : Request) (env : Env) (b : Body) (w : World)
        → P w
        → P (handle parts registry r env b w).world
    unfolding handle review_pending_route security_reviewed_route approve_route activate_route
        supersede_route reject_route
    handle-closed to_review_pending env b w h = with_document-holds P env b w _ h (λ id d e.
        if-holds P (same_status d.status registered) _ _
          (kept_transition env move_to_review_pending id none w h) h)
    handle-closed to_security_reviewed env b w h = with_document-holds P env b w _ h (λ id d e.
        if-holds P (same_status d.status review_pending) _ _ (kept_reviewed env id d w h) h)
    handle-closed to_approved env b w h =
        with_document-holds P env b w _ h
          (λ id d e. if-holds P (same_status d.status compliant) _ _ (kept_approval env id d w h) h)
    handle-closed to_active env b w h = with_document-holds P env b w _ h (λ id d e.
        if-holds P (same_status d.status approved) _ _
          (with_trust-holds P env id w _ h (kept_activation env id d w h)) h)
    handle-closed to_superseded env b w h =
        with_document-holds P env b w _ h
          (λ id d e. kept_transition env supersede_sbom id (submitter env id) w h)
    handle-closed to_rejected env b w h = with_document-holds P env b w _ h (λ id d e.
        if-holds P (same_status d.status superseded || same_status d.status rejected) _ _ h
          (kept_transition env reject_sbom id none w h))

-- The ledger has a transaction that wrote the status of a document.
abbrev pub HasTransaction : List Transaction → Document → Type 0
HasTransaction ts d =
    (t : Transaction) × In t ts × (t.sbom_id ≡ d.sbom_id) × (target t.call ≡ d.status)

-- A status other than the first one is on the ledger too.
abbrev pub AnchoredDocument : List Transaction → Document → Type 0
AnchoredDocument ts d = (d.status ≡ registered) ⊎ HasTransaction ts d

abbrev pub IsAnchored : World → Type 0
IsAnchored w = All (AnchoredDocument w.ledger) w.documents

AnchoredDocument-later :
    (t : Transaction) (ts : List Transaction) (ds : List Document)
    → All (AnchoredDocument ts) ds
    → All (AnchoredDocument (t ∷ ts)) ds
AnchoredDocument-later t ts [] h = h
AnchoredDocument-later t ts (d ∷ ds) (inl e, k) = (inl e, AnchoredDocument-later t ts ds k)
AnchoredDocument-later t ts (d ∷ ds) (inr (u, m, i, s), k) =
    (inr (u, there m, i, s), AnchoredDocument-later t ts ds k)

update_status-AnchoredDocument :
    (t : Transaction) (ts : List Transaction) (tx who : Option String) (ds : List Document)
    → All (AnchoredDocument (t ∷ ts)) ds
    → All (AnchoredDocument (t ∷ ts)) (update_status t.sbom_id (target t.call) tx who ds)
unfolding update_status
update_status-AnchoredDocument t ts tx who [] h = h
update_status-AnchoredDocument t ts tx who (d ∷ ds) (h, k) = (
  elim (Bool-cases (text_eq d.sbom_id t.sbom_id)) [
    | inl y ↦ rw y (inr (t, here refl, sym ((text_eq_iff d.sbom_id t.sbom_id).0 y), refl))
    | inr n ↦ rw n h
  ],
  update_status-AnchoredDocument t ts tx who ds k,
)

commit-IsAnchored :
    (env : Env) (call : Call) (id : String) (who : Option String) (w : World)
    → IsAnchored w
    → IsAnchored (commit env call id who w).0
unfolding commit
commit-IsAnchored env call id who w h = elim (Bool-cases (env.accepts call id)) [
  | inl y ↦
      let t : Transaction = record { call = call; sbom_id = id; id = env.transaction_id call id } in
      let later = AnchoredDocument-later t w.ledger w.documents h in
      elim (Bool-cases (env.updates id (target call))) [
        | inl u ↦
            rw (y, u, commit)
              (update_status-AnchoredDocument t w.ledger (some (env.transaction_id call id)) who
                w.documents later)
        | inr u ↦ rw (y, u, commit) later
      ]
  | inr n ↦ rw (n, commit) h
]

-- If the ledger has a transaction behind the status of each document that is not REGISTERED, so it has
-- after any request, whatever fails on the way.
pub handle-IsAnchored :
    (parts : String → List ℕ) (registry : Registry) (r : Request) (env : Env) (b : Body) (w : World)
    → IsAnchored w
    → IsAnchored (handle parts registry r env b w).world
handle-IsAnchored parts registry = handle-closed IsAnchored commit-IsAnchored parts registry
