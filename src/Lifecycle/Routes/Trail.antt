-- ===== src/Lifecycle/Routes/Trail.antt =====
-- The transitions that the routes make of a document.
pub mod Loop
pub mod Requests
pub mod Ended
use tpsr_v.Prelude.{
  ◌≡◌, refl, sym, ap, ◌∙◌, subst, ◌⊎◌, inl, inr, ℕ, String, Bool, true, false, not, ◌||◌, ◌&&◌,
  Option, none, some, List, [], ◌∷◌, text_eq, text_eq_iff, Bool-cases, Option-cases, arith,
  if◌then◌else◌, take,
}
use tpsr_v.Policy.{Registry}
use tpsr_v.Lifecycle.{
  Status, registered, review_pending, security_reviewed, compliant, approved, active, superseded,
  rejected, same_status, Document, Call, supersede_sbom, reject_sbom, mark_compliant, approve_sbom,
  activate_sbom, move_to_review_pending, move_to_security_reviewed, target, World, Env, document_of,
  submitter, commit,
}
use tpsr_v.Lifecycle.Routes.Store.{
  same_status_eq, status_of, status_of-commit_other, status_of-commit_own, status_of-committed,
  status_of-document,
}
use tpsr_v.Lifecycle.Routes.Walk.{
  commit_branch-holds, with_document-holds, with_trust-holds, transition-holds,
}
use tpsr_v.Lifecycle.Routes.{
  Body, Outcome, with_document, transition, with_trust, supersede_round, supersede_others,
  supersede_previous, activation, review_pending_route, reject_route, supersede_route,
  activate_route, approve_route, compliance_passed, automatic, reviewed, security_reviewed_route,
  Request, to_review_pending, to_security_reviewed, to_approved, to_active, to_superseded,
  to_rejected, handle, requested_id, latest_trust, blocks,
}

-- `sbomID` of the body is this one.
abbrev pub asks_for : Body → String → Bool
asks_for b j = elim (requested_id b) [ none ↦ false | some id ↦ text_eq id j ]

-- The transitions that a request makes of the document that it asks for (`true`), and of the others. An
-- activation replaces other documents, from the statuses in `From`. `supersede.js` asks for no status.
pub data Edge (From : Status → Type 0) : Request → Bool → Status → Status → Type 0 where
  submitted : Edge From to_review_pending true registered review_pending
  examined : Edge From to_security_reviewed true review_pending security_reviewed
  passed : Edge From to_security_reviewed true security_reviewed compliant
  failed : Edge From to_security_reviewed true security_reviewed rejected
  approval : Edge From to_approved true compliant approved
  activation_edge : Edge From to_active true approved active
  rejection :
      {s : Status}
      → same_status s superseded ≡ false
      → same_status s rejected ≡ false
      → Edge From to_rejected true s rejected
  retirement : {s : Status} → Edge From to_superseded true s superseded
  replacement : {s : Status} → From s → Edge From to_active false s superseded

pub some_eq : (s t : Status) → some s ≡ some t → s ≡ t
some_eq s t h = cc

module _ (From : Status → Type 0) (r : Request) where
  -- A sequence of transitions of one document.
  pub data Moves (own : Bool) (a : Option Status) : Option Status → Type 0 where
    stay : Moves own a a
    move : {s t : Status} → Moves own a (some s) → Edge From r own s t → Moves own a (some t)

  pub Moves-trans :
      {own : Bool} {a b c : Option Status} → Moves own a b → Moves own b c → Moves own a c
  Moves-trans h stay = h
  Moves-trans h (move k e) = move (Moves-trans h k) e

module _ (From : Status → Type 0) (r : Request) (own : String → Bool) where
  -- Each document of a world moves to its status in another one.
  abbrev pub Follows : World → World → Type 0
  Follows w v = (j : String) → Moves From r (own j) (status_of w j) (status_of v j)

  pub Follows-refl : (w : World) → Follows w w
  Follows-refl w j = stay

  pub Follows-trans : (u v w : World) → Follows u v → Follows v w → Follows u w
  Follows-trans u v w h k j = Moves-trans From r (h j) (k j)

  -- A commit follows where its transaction is a transition from the document's status.
  abbrev pub Permitted : World → String → Call → Type 0
  Permitted w id call =
      (s : Status) → status_of w id ≡ some s → Edge From r (own id) s (target call)

  pub commit-Follows :
      (env : Env) (call : Call) (id : String) (who : Option String) (w : World)
      → Permitted w id call
      → Follows w (commit env call id who w).0
  commit-Follows env call id who w h j = elim (Bool-cases (text_eq id j)) [
    | inl y ↦
        subst (λ i. Moves From r (own i) (status_of w i) (status_of (commit env call id who w).0 i))
          ((text_eq_iff id j).0 y)
          (elim (status_of-commit_own env call id who w) [
            | inl e ↦ subst (Moves From r (own id) (status_of w id)) (sym e) stay
            | inr (s, e, k) ↦
                subst (Moves From r (own id) (status_of w id)) (sym k)
                  (move (subst (Moves From r (own id) (status_of w id)) e stay) (h s e))
          ])
    | inr n ↦
        subst (Moves From r (own j) (status_of w j))
          (sym (status_of-commit_other env call id j who w n)) stay
  ]

  pub transition-Follows :
      (env : Env) (call : Call) (id : String) (who : Option String) (w : World)
      → Permitted w id call
      → Follows w (transition env call id who w).world
  transition-Follows env call id who w h =
      transition-holds (Follows w) env call id who w (Follows-refl w)
        (commit-Follows env call id who w h)

  -- A transition is permitted where the document that was read has the status it starts from.
  pub Permitted-from :
      (w : World) (id : String) (d : Document) (call : Call) (s : Status)
      → document_of w id ≡ some d
      → same_status d.status s ≡ true
      → Edge From r (own id) s (target call)
      → Permitted w id call
  Permitted-from w id d call s e h k t f =
      subst (λ x. Edge From r (own id) x (target call))
        (some_eq s t
          (ap some (sym (same_status_eq d.status s h)) ∙ sym (status_of-document w id e) ∙ f))
        k
