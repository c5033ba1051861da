-- ===== src/Lifecycle/Routes/Trail/Ended.antt =====
-- What is REJECTED or SUPERSEDED stays so.
use tpsr_v.Prelude.{
  ◌≡◌, refl, sym, subst, ◌⊎◌, inl, inr, ℕ, String, Bool, true, ◌||◌, Option, none, some, List,
  arith,
}
use tpsr_v.Policy.{Registry}
use tpsr_v.Lifecycle.{
  Status, registered, review_pending, security_reviewed, compliant, approved, active, superseded,
  rejected, same_status, status_index, activate_sbom, World, Env, submitter, commit,
}
use tpsr_v.Lifecycle.Routes.Store.{status_of}
use tpsr_v.Lifecycle.Routes.{Body, Request, handle}
use tpsr_v.Lifecycle.Routes.Trail.{
  asks_for, Edge, submitted, examined, passed, failed, approval, activation_edge, rejection,
  retirement, replacement, Moves, stay, move,
}
use tpsr_v.Lifecycle.Routes.Trail.Loop.{previous-Follows}
use tpsr_v.Lifecycle.Routes.Trail.Requests.{request-Follows, asked_other}

is_terminal : Status → Bool
is_terminal s = same_status s superseded || same_status s rejected

-- The edges where any status may be replaced.
abbrev Any : Status → Type 0
Any s = Unit

Edge-terminal :
    (r : Request) (o : Bool) (s t : Status)
    → Edge Any r o s t
    → is_terminal s ≡ true
    → t ≡ superseded
unfolding same_status status_index is_terminal
Edge-terminal r o s t submitted h = cc
Edge-terminal r o s t examined h = cc
Edge-terminal r o s t passed h = cc
Edge-terminal r o s t failed h = cc
Edge-terminal r o s t approval h = cc
Edge-terminal r o s t activation_edge h = cc
Edge-terminal r o s t (rejection p q) h = ground arith
Edge-terminal r o s t retirement h = refl
Edge-terminal r o s t (replacement f) h = refl

Ended : Option Status → Type 0
Ended none = ⊥
Ended (some s) = is_terminal s ≡ true

Moves-Ended : (r : Request) (o : Bool) (a b : Option Status) → Moves Any r o a b → Ended a → Ended b
unfolding Ended is_terminal same_status status_index
Moves-Ended r o a b stay h = h
Moves-Ended r o a b (move {s} {t} k e) h =
    ground (arith, Edge-terminal r o s t e (Moves-Ended r o a (some s) k h))

Ended-cases : (o : Option Status) → Ended o → (o ≡ some rejected) ⊎ (o ≡ some superseded)
unfolding Ended is_terminal same_status status_index
Ended-cases none h = absurd h
Ended-cases (some rejected) h = inl refl
Ended-cases (some superseded) h = inr refl
Ended-cases (some registered) h = cc
Ended-cases (some review_pending) h = cc
Ended-cases (some security_reviewed) h = cc
Ended-cases (some compliant) h = cc
Ended-cases (some approved) h = cc
Ended-cases (some active) h = cc

Ended-of : (o : Option Status) → (o ≡ some rejected) ⊎ (o ≡ some superseded) → Ended o
unfolding Ended is_terminal same_status status_index
Ended-of o (inl e) = subst Ended (sym e) refl
Ended-of o (inr e) = subst Ended (sym e) refl

-- A document that is REJECTED or SUPERSEDED is so after any request.
pub handle-ended :
    (parts : String → List ℕ) (registry : Registry) (r : Request) (env : Env) (b : Body) (w : World)
    (id : String)
    → (status_of w id ≡ some rejected) ⊎ (status_of w id ≡ some superseded)
    → (status_of (handle parts registry r env b w).world id ≡ some rejected)
      ⊎ (status_of (handle parts registry r env b w).world id ≡ some superseded)
handle-ended parts registry r env b w id h =
    Ended-cases (status_of (handle parts registry r env b w).world id) (
      Moves-Ended r (asks_for b id) (status_of w id)
        (status_of (handle parts registry r env b w).world id)
        (request-Follows Any parts registry env b w r
          (λ i d q.
            previous-Follows Any (asks_for b) i (asked_other b i q) env d
              (commit env activate_sbom i (submitter env i) w).0 (λ s. tt))
          id)
        (Ended-of (status_of w id) h))
