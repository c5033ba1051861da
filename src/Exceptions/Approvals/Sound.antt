-- ===== src/Exceptions/Approvals/Sound.antt =====
-- Every step keeps what is known of the approvals.
use tpsr_v.Prelude.{
  ◌≡◌, ◌⊎◌, refl, sym, inl, inr, String, Option, some, List, [], All, trim, Bool-cases,
  Option-cases, arith, subst,
}
use tpsr_v.Governance.{ExceptionGovernance}
use tpsr_v.Governance.Approval.{IsApproved, evaluate_approval-IsApproved}
use tpsr_v.Exceptions.{active, Row, row_of, insert_row}
use tpsr_v.Exceptions.Routes.{
  Env, Auth, Release, Request, approve, Plan, insert, update, Tables, commit,
}
use tpsr_v.Exceptions.Expiry.{due_ids}
use tpsr_v.Exceptions.Expiry.Rows.{tick-rows}
use tpsr_v.Exceptions.System.{System, Step, checks, commits, ticks, Reach, here, next}
use tpsr_v.Exceptions.System.Moves.{rows-concluded}
use tpsr_v.Exceptions.Approvals.{
  RowsApproved, Promise, IsSound, Keeps, promises-Keeps, All-Picks, Keeps-mark, mark-RowsApproved,
  update-RowsApproved, Keeps-update, insert-RowsApproved, Keeps-insert,
}
use tpsr_v.Exceptions.Approvals.Checks.{check-HasPromise, plan_of}

module _ (rules : List (String × String)) (g : ExceptionGovernance)
    (Seen : Env → Option Auth → Request → Type 0) where
  abbrev Rows : List Row → Type 0
  Rows = RowsApproved rules g Seen

  -- What a commit keeps: the approvals, and the rows.
  commit-Keeps :
      (env : Env) (p : Plan) (t : Tables)
      → Rows t.rows
      → Promise rules g Seen t.rows p
      → Rows (commit env p t).0.rows × Keeps rules g Seen t.rows (commit env p t).0.rows
  unfolding commit
  commit-Keeps env (insert id e event) t h p = elim (Bool-cases env.updates) [
    | inl u ↦ elim (Option-cases (insert_row id e t.rows)) [
      | inl n ↦ rw (u, n, commit) (h, λ j r k. (r, k, refl))
      | inr (rows, k) ↦
          rw (u, k, commit, rows-concluded)
            (
              insert-RowsApproved rules g Seen t.rows id e k h,
              Keeps-insert rules g Seen t.rows id e k,
            )
    ]
    | inr u ↦ rw (u, commit) (h, λ j r k. (r, k, refl))
  ]
  commit-Keeps env (update id c event) t h p = elim (Bool-cases env.updates) [
    | inl u ↦
        rw (u, commit, rows-concluded)
          (
            update-RowsApproved rules g Seen t.rows id c event p h,
            Keeps-update rules g Seen t.rows id c,
          )
    | inr u ↦ rw (u, commit) (h, λ j r k. (r, k, refl))
  ]

-- The checks that a step makes, and those of a run.
abbrev pub ChecksIn :
    {rules : List (String × String)} {g : ExceptionGovernance} {s t : System}
    → Step rules g s t
    → Env
    → Option Auth
    → Request
    → Type 0
ChecksIn (checks e a r p c) env auth q = (e ≡ env) × (a ≡ auth) × (r ≡ q)
ChecksIn (commits e p rest pick) env auth q = ⊥
ChecksIn (ticks e) env auth q = ⊥

abbrev pub Checked :
    {rules : List (String × String)} {g : ExceptionGovernance} {s t : System}
    → Reach rules g s t
    → Env
    → Option Auth
    → Request
    → Type 0
Checked here env auth q = ⊥
Checked (next way step) env auth q = ChecksIn step env auth q ⊎ Checked way env auth q

module _ {rules : List (String × String)} {g : ExceptionGovernance}
    (Seen : Env → Option Auth → Request → Type 0) where
  -- Every step keeps it true that the ACTIVE exceptions were approved and that the pending approvals
  -- have passed their checks.
  Step-IsSound :
      {s t : System} (step : Step rules g s t)
      → ((env : Env) (auth : Option Auth) (q : Request)
          → ChecksIn step env auth q
          → Seen env auth q)
      → IsSound rules g Seen s
      → IsSound rules g Seen t
  Step-IsSound {s} (checks env auth q p e) seen h = record {
    rows = h.rows;
    plans = (
      plan_of _ p (Promise rules g Seen s.worker.tables.rows)
          (check-HasPromise rules g Seen env s.worker.tables.rows auth q
            (seen env auth q (refl, refl, refl)))
          e,
      h.plans,
    );
  }
  Step-IsSound {s} (commits env p rest pick) seen h =
      let (mine, others) = All-Picks rules g Seen s.worker.tables.rows pick h.plans in
      let (a, k) = commit-Keeps rules g Seen env p s.worker.tables h.rows mine in
      record { rows = a; plans = promises-Keeps rules g Seen _ _ k rest others }
  Step-IsSound {s} (ticks env) seen h =
      let (a, k) =
        tick-rows (λ rows. Rows rules g Seen rows × Keeps rules g Seen s.worker.tables.rows rows)
          env s.worker (h.rows, λ j r e. (r, e, refl))
          (
            mark-RowsApproved rules g Seen (due_ids env.now s.worker.tables.rows)
                s.worker.tables.rows h.rows,
            Keeps-mark rules g Seen (due_ids env.now s.worker.tables.rows) s.worker.tables.rows,
          ) in
      record { rows = a; plans = promises-Keeps rules g Seen _ _ k s.pending h.plans }

  Reach-IsSound :
      {s t : System} (way : Reach rules g s t)
      → ((env : Env) (auth : Option Auth) (q : Request) → Checked way env auth q → Seen env auth q)
      → IsSound rules g Seen s
      → IsSound rules g Seen t
  Reach-IsSound here seen h = h
  Reach-IsSound (next way step) seen h =
      Step-IsSound step (λ env auth q c. seen env auth q (inl c))
        (Reach-IsSound way (λ env auth q c. seen env auth q (inr c)) h)

  start-IsSound : (s : System) → s.worker.tables.rows ≡ [] → s.pending ≡ [] → IsSound rules g Seen s
  start-IsSound s empty idle = record {
    rows = subst (RowsApproved rules g Seen) (sym empty) (λ j r k. absurd (ground arith));
    plans = subst (All (Promise rules g Seen s.worker.tables.rows)) (sym idle) tt;
  }

-- What stands behind an ACTIVE exception of a run: a request to approve, which was checked in it.
pub record IsGranted {rules : List (String × String)} {g : ExceptionGovernance} {s t : System}
    (way : Reach rules g s t) (r : Row) : Type 0 where
  pub env : Env
  pub actor : Auth
  pub sbom : String
  pub path : String
  pub comment : Option String
  pub document : Release
  pub checked : Checked way env (some actor) (approve sbom path comment)
  pub found : env.release_of (trim sbom) ≡ some document
  pub by_actor : (actor.user_id ≡ r.approved_by) × (actor.role ≡ r.approver_role)
  pub is_approved :
      IsApproved rules env.is_revoked g env.now r.request
        (record { approved_by = r.approved_by; approver_role = r.approver_role })
        document.sbom_id

-- In every system that can be reached from empty tables, an ACTIVE exception is backed by a request to
-- approve that was checked on the way, by the actor whom its row names as approver: the exception is
-- for the release that this request found under the SBOM id of its path, the approver has an allowed
-- role, is not revoked at that time, and, where the policy asks for it, is neither its requester nor
-- its owner, the rule is exceptionable, and the period is bounded and has not passed at that time. This
-- holds whatever other requests and ticks run between the checks of a request and its update.
pub Reach-IsApproved :
    {rules : List (String × String)} {g : ExceptionGovernance} {s t : System}
    (way : Reach rules g s t) (j : String) (r : Row)
    → s.worker.tables.rows ≡ []
    → s.pending ≡ []
    → row_of t.worker.tables.rows j ≡ some r
    → r.status ≡ active
    → IsGranted way r
Reach-IsApproved {rules} {g} {s} way j r empty idle e a =
    let w =
      (Reach-IsSound (Checked way) way (λ env auth q c. c)
          (start-IsSound (Checked way) s empty idle)).rows
        j r e a in
    record {
      env = w.env;
      actor = w.actor;
      sbom = w.sbom;
      path = w.path;
      comment = w.comment;
      document = w.document;
      checked = w.seen;
      found = w.found;
      by_actor = w.by_actor;
      is_approved =
          evaluate_approval-IsApproved w.env.now rules w.env.is_revoked g r.request
            (record { approved_by = r.approved_by; approver_role = r.approver_role })
            w.document.sbom_id w.document.sbom_hash w.passed;
    }
