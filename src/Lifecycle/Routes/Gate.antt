-- ===== src/Lifecycle/Routes/Gate.antt =====
-- What `approve` and `activate` ask for before they change anything.
use tpsr_v.Prelude.{◌≡◌, refl, ◌⊎◌, inl, inr, ℕ, String, false, some, List, is}
use tpsr_v.Policy.{Registry}
use tpsr_v.Lifecycle.{
  Status, compliant, approved, same_status, Document, approve_sbom, World, Env, document_of,
  submitter, TrustDecision, policy_of,
}
use tpsr_v.Lifecycle.Routes.Walk.{choice-holds, document-holds, trust-holds}
use tpsr_v.Lifecycle.Routes.Store.{same_status_eq}
use tpsr_v.Lifecycle.Routes.{
  Body, Outcome, transition, with_trust, activation, activate_route, approve_route, conflict,
  policy_blocked, respond, requested_id, latest_trust, blocks,
}

-- The latest trust decision does not stop the transition.
abbrev pub Trusts : World → String → Type 0
Trusts w id = (t : TrustDecision) → latest_trust w id ≡ some t → blocks t ≡ false

-- The request names a document with a status and a property whose latest trust decision passes.
abbrev pub Gate : World → Body → Status → (Document → Type 0) → Type 0
Gate w b s P =
    (id : String) × (d : Document) × (requested_id b ≡ some id)
    × (document_of w id ≡ some d)
    × (d.status ≡ s)
    × P d
    × Trusts w id

-- The route left the world alone, or its gate was passed.
abbrev Guarded : World → Type 0 → Outcome → Type 0
Guarded w G o = (o.world ≡ w) ⊎ G

-- An activation leaves the world alone, or the request names an APPROVED document whose latest trust
-- decision, if it has one, is not REJECTED, REVIEW_REQUIRED or CONDITIONALLY_ACCEPTED.
pub activate_route-Gate :
    (env : Env) (b : Body) (w : World)
    → ((activate_route env b w).world ≡ w) ⊎ Gate w b approved (λ d. Unit)
unfolding activate_route
activate_route-Gate env b w =
    document-holds (Guarded w (Gate w b approved (λ d. Unit))) w (λ r h. inl refl) env b _
      (λ id d q e.
        choice-holds (Guarded w (Gate w b approved (λ d. Unit))) (same_status d.status approved)
          (with_trust env id w (activation env id d w)) _
          (λ h.
            trust-holds (Guarded w (Gate w b approved (λ d. Unit))) w (λ r h. inl refl) env id
              (activation env id d w)
              (λ t. inr (id, d, q, e, same_status_eq d.status approved h, tt, t)))
          (λ _. inl refl))

module _ (parts : String → List ℕ) (registry : Registry) where
  abbrev pub PassesPolicy : Document → Type 0
  PassesPolicy d = is (policy_of parts registry d) "FAIL" ≡ false

  -- An approval leaves the world alone, or the request names a COMPLIANT document that does not fail the
  -- policy and whose latest trust decision, if it has one, is not REJECTED, REVIEW_REQUIRED or
  -- CONDITIONALLY_ACCEPTED.
  pub approve_route-Gate :
      (env : Env) (b : Body) (w : World)
      → ((approve_route parts registry env b w).world ≡ w) ⊎ Gate w b compliant PassesPolicy
  unfolding approve_route
  approve_route-Gate env b w =
      let G = Gate w b compliant PassesPolicy in
      document-holds (Guarded w G) w (λ r h. inl refl) env b _
        (λ id d q e.
          choice-holds (Guarded w G) (same_status d.status compliant) _ _
            (λ h.
              choice-holds (Guarded w G) (is (policy_of parts registry d) "FAIL")
                (respond w (conflict policy_blocked))
                (with_trust env id w (transition env approve_sbom id (submitter env id) w))
                (λ _. inl refl)
                (λ p.
                  trust-holds (Guarded w G) w (λ r h. inl refl) env id
                    (transition env approve_sbom id (submitter env id) w)
                    (λ t. inr (id, d, q, e, same_status_eq d.status compliant h, p, t))))
            (λ _. inl refl))
