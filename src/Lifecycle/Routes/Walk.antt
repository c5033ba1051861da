-- ===== src/Lifecycle/Routes/Walk.antt =====
-- What holds of the world of an outcome is shown on each way through a route.
use tpsr_v.Prelude.{
  ◌≡◌, refl, sym, ◌∙◌, subst, inl, inr, String, Bool, true, false, Option, none, some, Bool-cases,
  Option-cases, if◌then◌else◌,
}
use tpsr_v.Lifecycle.{Document, Call, World, Env, document_of, commit, TrustDecision}
use tpsr_v.Lifecycle.Routes.{
  Body, Outcome, Response, bad_request, not_found, server_error, conflict, trust_blocked, done,
  respond, requested_id, with_document, transition, latest_trust, with_trust, blocks,
}

-- The responses that report no transition.
abbrev pub IsFailure : Response → Type 0
IsFailure bad_request = Unit
IsFailure not_found = Unit
IsFailure server_error = Unit
IsFailure (conflict d) = Unit
IsFailure (done s tx) = ⊥

pub choice-holds :
    (P : Outcome → Type 0) (c : Bool) (x y : Outcome)
    → (c ≡ true → P x)
    → (c ≡ false → P y)
    → P (if c then x else y)
choice-holds P true x y h k = h refl
choice-holds P false x y h k = k refl

same_decision : (t u : TrustDecision) → some t ≡ some u → blocks t ≡ false → blocks u ≡ false
same_decision t u e h = subst (λ o. elim o [ none ↦ true | some x ↦ blocks x ] ≡ false) e h

module _ (P : Outcome → Type 0) (w : World)
    (fails : (r : Response) → IsFailure r → P (respond w r)) where
  pub document-holds :
      (env : Env) (b : Body) (k : String → Document → Outcome)
      → ((id : String) (d : Document)
          → requested_id b ≡ some id
          → document_of w id ≡ some d
          → P (k id d))
      → P (with_document env b w k)
  unfolding with_document
  document-holds env b k g = elim (Option-cases (requested_id b)) [
    | inl n ↦ rw (n, with_document) (fails bad_request tt)
    | inr (id, e) ↦ elim (Bool-cases env.reads) [
      | inl r ↦ elim (Option-cases (document_of w id)) [
        | inl n ↦ rw (e, r, n, with_document) (fails not_found tt)
        | inr (d, f) ↦ rw (e, r, f, with_document) (g id d e f)
      ]
      | inr r ↦ rw (e, r, with_document) (fails server_error tt)
    ]
  ]

  pub trust-holds :
      (env : Env) (id : String) (k : Outcome)
      → (((t : TrustDecision) → latest_trust w id ≡ some t → blocks t ≡ false) → P k)
      → P (with_trust env id w k)
  unfolding with_trust
  trust-holds env id k g = elim (Bool-cases env.decision_reads) [
    | inl r ↦ elim (Option-cases (latest_trust w id)) [
      | inl n ↦ rw (r, n, with_trust) (g (λ t e. cc))
      | inr (t, e) ↦ elim (Bool-cases (blocks t)) [
        | inl y ↦ rw (r, e, y, with_trust) (fails (conflict (trust_blocked t)) tt)
        | inr y ↦ rw (r, e, y, with_trust) (g (λ u f. same_decision t u (sym e ∙ f) y))
      ]
    ]
    | inr r ↦ rw (r, with_trust) (fails server_error tt)
  ]

module _ (P : World → Type 0) where
  pub if-holds : (c : Bool) (x y : Outcome) → P x.world → P y.world → P (if c then x else y).world
  if-holds true x y h k = h
  if-holds false x y h k = k

  pub with_document-holds :
      (env : Env) (b : Body) (w : World) (k : String → Document → Outcome)
      → P w
      → ((id : String) (d : Document) → document_of w id ≡ some d → P (k id d).world)
      → P (with_document env b w k).world
  with_document-holds env b w k h g =
      document-holds (λ o. P o.world) w (λ r _. h) env b k (λ id d _ e. g id d e)

  pub with_trust-holds :
      (env : Env) (id : String) (w : World) (k : Outcome)
      → P w
      → P k.world
      → P (with_trust env id w k).world
  with_trust-holds env id w k h g = trust-holds (λ o. P o.world) w (λ r _. h) env id k (λ _. g)

  pub transition-holds :
      (env : Env) (call : Call) (id : String) (who : Option String) (w : World)
      → P w
      → P (commit env call id who w).0
      → P (transition env call id who w).world
  unfolding transition commit
  transition-holds env call id who w h g = elim (Bool-cases env.connects) [
    | inl r ↦ rw (r, transition) g
    | inr r ↦ rw (r, transition) h
  ]

  pub commit_branch-holds :
      (c : Bool) (x y : Outcome)
      → (c ≡ true → P x.world)
      → (c ≡ false → P y.world)
      → P (if c then x else y).world
  commit_branch-holds c x y h k = choice-holds (λ o. P o.world) c x y h k
