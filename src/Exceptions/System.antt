-- ===== src/Exceptions/System.antt =====
-- The handlers and the expiry worker side by side: a request is checked in one step and carried out in
-- a later one, with any other steps between.
pub mod Moves
use tpsr_v.Prelude.{◌≡◌, String, Option, none, some, List, [], ◌∷◌}
use tpsr_v.Governance.{ExceptionGovernance}
use tpsr_v.Exceptions.{RowStatus, row_of}
use tpsr_v.Exceptions.Routes.{Env, Auth, Request, Plan, proceed, check, Tables, commit}
use tpsr_v.Exceptions.Expiry.{ExpiryEnv, Worker, tick}

-- The worker with its tables, and the requests that wait for their update.
pub record System : Type 0 where
  pub worker : Worker
  pub pending : List Plan

-- `Picks p ps qs`: `ps` without one `p` is `qs`.
pub data Picks (p : Plan) : List Plan → List Plan → Type 0 where
  first : {ps : List Plan} → Picks p (p ∷ ps) ps
  later : {q : Plan} {ps qs : List Plan} → Picks p ps qs → Picks p (q ∷ ps) (q ∷ qs)

module _ (rules : List (String × String)) (g : ExceptionGovernance) where
  pub data Step : System → System → Type 0 where
    checks :
        {s : System} (env : Env) (auth : Option Auth) (q : Request) (p : Plan)
        → check rules g env s.worker.tables.rows auth q ≡ proceed p
        → Step s (record s { pending = p ∷ s.pending })
    commits :
        {s : System} (env : Env) (p : Plan) (rest : List Plan)
        → Picks p s.pending rest
        → Step s (record {
          worker = record s.worker { tables = (commit env p s.worker.tables).0 };
          pending = rest;
        })
    ticks : {s : System} (env : ExpiryEnv) → Step s (record s { worker = tick env s.worker })

  pub data Reach (s : System) : System → Type 0 where
    here : Reach s s
    next : {t u : System} → Reach s t → Step t u → Reach s u

-- The status of the exception under an id.
abbrev pub status_of : System → String → Option RowStatus
status_of s id = elim (row_of s.worker.tables.rows id) [ none ↦ none | some r ↦ some r.status ]
