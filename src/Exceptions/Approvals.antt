-- ===== src/Exceptions/Approvals.antt =====
-- An exception is ACTIVE only after an approval that passed the checks, whatever runs at the same time.
pub mod Checks
pub mod Sound
use tpsr_v.Prelude.{
  ◌≡◌, ◌≢◌, refl, sym, ap, ◌∙◌, ◌⊎◌, inl, inr, ℕ, String, Bool, true, false, ◌&&◌, Option, none,
  some, List, [], ◌∷◌, All, text_eq, text_eq_iff, trim, includes, Bool-cases, Option-cases, arith,
  subst, if◌then◌else◌,
}
use tpsr_v.ContextRisk.{AssuranceState}
use tpsr_v.Governance.{
  ExceptionRequest, ApprovalData, ExceptionGovernance, ExceptionStatus, ApprovalResult,
  evaluate_approval, lists,
}
use tpsr_v.Governance.Approval.{IsApproved, evaluate_approval-IsApproved}
use tpsr_v.Exceptions.{
  RowStatus, requested, active, rejected, revoked, superseded, expired, same_row_status, Row, Event,
  row_of, new_row, insert_row, Change, approve_by, reject_by, revoke_by, supersede_by, from_of,
  to_of, changed, applied, update_rows, mark_expired,
}
use tpsr_v.Exceptions.Store.{
  same_row_status_eq, map_row, request-applied, row_of-update, marked, row_of-mark, row_of-insert,
}
use tpsr_v.Exceptions.Routes.{
  Env, Auth, Release, Request, approve, Plan, insert, update, Check, answer, proceed, Tables,
  commit, check, check_request, check_approve, check_reject, check_revoke, check_supersede,
  check_approval, approval_of, with_role, with_row, with_text, concluded,
}
use tpsr_v.Exceptions.Expiry.{Worker, tick, due_ids}
use tpsr_v.Exceptions.Expiry.Rows.{tick-rows}
use tpsr_v.Exceptions.System.{
  System, Picks, first, later, Step, checks, commits, ticks, Reach, here, next,
}
use tpsr_v.Exceptions.System.Moves.{rows-concluded}

-- `Seen` holds of the checks that were made: what a handler found, the actor and the request.
module _ (rules : List (String × String)) (g : ExceptionGovernance)
    (Seen : Env → Option Auth → Request → Type 0) where
  -- A request to approve, which was seen, passed its checks: `document` is the release that was found
  -- under the SBOM id of its path.
  pub record WasApproved (e : ExceptionRequest) (who role : Option String) : Type 0 where
    pub env : Env
    pub actor : Auth
    pub sbom : String
    pub path : String
    pub comment : Option String
    pub document : Release
    pub seen : Seen env (some actor) (approve sbom path comment)
    pub found : env.release_of (trim sbom) ≡ some document
    pub by_actor : (actor.user_id ≡ who) × (actor.role ≡ role)
    pub passed :
        (evaluate_approval env.now rules env.is_revoked g e
          (record { approved_by = who; approver_role = role })
          document.sbom_id
          document.sbom_hash).derived_status
        ≡ ExceptionStatus.active

  -- A row that is ACTIVE has its approval.
  abbrev pub Approved : Row → Type 0
  Approved r = r.status ≡ active → WasApproved r.request r.approved_by r.approver_role

  abbrev pub RowsApproved : List Row → Type 0
  RowsApproved rows = (j : String) (r : Row) → row_of rows j ≡ some r → Approved r

  -- A pending approval has passed its checks for the row under its id.
  abbrev pub Promise : List Row → Plan → Type 0
  Promise rows (insert id e event) = Unit {0}
  Promise rows (update id (approve_by who role a) event) =
      (r : Row) × (row_of rows id ≡ some r) × WasApproved r.request who role
  Promise rows (update id (reject_by who role) event) = Unit {0}
  Promise rows (update id (revoke_by who why) event) = Unit {0}
  Promise rows (update id (supersede_by new) event) = Unit {0}

  pub record IsSound (s : System) : Type 0 where
    pub rows : RowsApproved s.worker.tables.rows
    pub plans : All (Promise s.worker.tables.rows) s.pending

  -- No row disappears, and its request stays.
  abbrev pub Keeps : List Row → List Row → Type 0
  Keeps rows rows' =
      (j : String) (r : Row)
      → row_of rows j ≡ some r
      → (r' : Row) × (row_of rows' j ≡ some r') × (r'.request ≡ r.request)

  pub Promise-Keeps :
      (rows rows' : List Row) → Keeps rows rows' → (p : Plan) → Promise rows p → Promise rows' p
  Promise-Keeps rows rows' k (insert id e event) h = tt
  Promise-Keeps rows rows' k (update id (approve_by who role a) event) (r, e, h) =
      let (r', e', q) = k id r e in (r', e', subst (λ x. WasApproved x who role) (sym q) h)
  Promise-Keeps rows rows' k (update id (reject_by who role) event) h = tt
  Promise-Keeps rows rows' k (update id (revoke_by who why) event) h = tt
  Promise-Keeps rows rows' k (update id (supersede_by new) event) h = tt

  pub promises-Keeps :
      (rows rows' : List Row)
      → Keeps rows rows'
      → (ps : List Plan) → All (Promise rows) ps
      → All (Promise rows') ps
  promises-Keeps rows rows' k [] h = tt
  promises-Keeps rows rows' k (p ∷ ps) (h, t) =
      (Promise-Keeps rows rows' k p h, promises-Keeps rows rows' k ps t)

  pub All-Picks :
      (rows : List Row) {p : Plan} {ps qs : List Plan}
      → Picks p ps qs
      → All (Promise rows) ps
      → Promise rows p × All (Promise rows) qs
  All-Picks rows first (h, t) = (h, t)
  All-Picks rows (later m) (h, t) = let (x, y) = All-Picks rows m t in (x, (h, y))

  -- What `map_row f` returns comes from a row.
  from_map :
      (f : Row → Row) (o : Option Row) {r' : Row}
      → map_row f o ≡ some r'
      → (r : Row) × (o ≡ some r) × (r' ≡ f r)
  from_map f none e = absurd (ground arith)
  from_map f (some r) e = (r, refl, ground arith)

  pub Keeps-mark : (ids : List String) (rows : List Row) → Keeps rows (mark_expired ids rows)
  Keeps-mark ids rows j r e =
      (marked ids r, row_of-mark ids j rows ∙ ap (map_row (marked ids)) e, ground arith)

  pub mark-RowsApproved :
      (ids : List String) (rows : List Row)
      → RowsApproved rows
      → RowsApproved (mark_expired ids rows)
  mark-RowsApproved ids rows h j r' e =
      let (r, q, k) = from_map (marked ids) (row_of rows j) (sym (row_of-mark ids j rows) ∙ e) in
      subst Approved (sym k) (marked-Approved ids r (h j r q))
    where
      marked-Approved : (ids : List String) (r : Row) → Approved r → Approved (marked ids r)
      marked-Approved ids r h =
          elim (Bool-cases (includes ids r.id && same_row_status r.status active)) [
            | inl y ↦ rw y (λ q. absurd (ground arith))
            | inr n ↦ rw n h
          ]

  -- The row that an update changes keeps its approval, or gets the one that was checked.
  applied-Approved :
      (c : Change) (r : Row)
      → ((who role : Option String) (a : AssuranceState)
          → c ≡ approve_by who role a
          → WasApproved r.request who role)
      → Approved r
      → Approved (applied c r)
  applied-Approved (approve_by who role a) r w h =
      elim (Bool-cases (same_row_status r.status requested)) [
        | inl y ↦ rw y (λ q. w who role a refl)
        | inr n ↦ rw n h
      ]
  applied-Approved (reject_by who role) r w h =
      elim (Bool-cases (same_row_status r.status requested)) [
        | inl y ↦ rw y (λ q. absurd (ground arith))
        | inr n ↦ rw n h
      ]
  applied-Approved (revoke_by who why) r w h = elim (Bool-cases (same_row_status r.status active)) [
    | inl y ↦ rw y (λ q. absurd (ground arith))
    | inr n ↦ rw n h
  ]
  applied-Approved (supersede_by new) r w h = elim (Bool-cases (same_row_status r.status active)) [
    | inl y ↦ rw y (λ q. absurd (ground arith))
    | inr n ↦ rw n h
  ]

  promised :
      (rows : List Row) (id : String) (c : Change) (event : Event)
      → Promise rows (update id c event)
      → (who role : Option String) (a : AssuranceState) → c ≡ approve_by who role a
      → (r : Row) × (row_of rows id ≡ some r) × WasApproved r.request who role
  promised rows id c event h who role a e = subst (λ x. Promise rows (update id x event)) e h

  some_row : (r r' : Row) → some r ≡ some r' → r ≡ r'
  some_row r r' e = ap (λ o. elim o [ none ↦ r | some x ↦ x ]) e

  pub update-RowsApproved :
      (rows : List Row) (id : String) (c : Change) (event : Event)
      → Promise rows (update id c event)
      → RowsApproved rows
      → RowsApproved (update_rows c id rows)
  update-RowsApproved rows id c event p h j r' e = elim (Bool-cases (text_eq id j)) [
    | inl y ↦
        let (r, q, k) =
          from_map (applied c) (row_of rows j)
            (sym (row_of-update c id j rows ∙ (rw y refl)) ∙ e) in
        subst Approved (sym k) (
          applied-Approved c r
            (λ who role a ce.
              let (r0, q0, w) = promised rows id c event p who role a ce in
              subst (λ x. WasApproved x.request who role)
                (some_row r0 r (sym q0 ∙ ap (row_of rows) ((text_eq_iff id j).0 y) ∙ q)) w)
            (h j r q))
    | inr n ↦ h j r' (sym (row_of-update c id j rows ∙ (rw n refl)) ∙ e)
  ]

  pub Keeps-update :
      (rows : List Row) (id : String) (c : Change) → Keeps rows (update_rows c id rows)
  Keeps-update rows id c j r e = elim (Bool-cases (text_eq id j)) [
    | inl y ↦ (applied c r, row_of-update c id j rows ∙ (rw (y, e) refl), request-applied c r)
    | inr n ↦ (r, row_of-update c id j rows ∙ (rw (n, e) refl), refl)
  ]

  pub insert-RowsApproved :
      (rows : List Row) (id : String) (e : ExceptionRequest) {rows' : List Row}
      → insert_row id e rows ≡ some rows'
      → RowsApproved rows
      → RowsApproved rows'
  unfolding new_row
  insert-RowsApproved rows id e q h j r k = elim (row_of-insert id j e rows q) [
    | inl same ↦ h j r (sym same ∙ k)
    | inr (n, s) ↦ subst Approved (some_row _ r (sym s ∙ k)) (λ a. absurd (ground arith))
  ]

  pub Keeps-insert :
      (rows : List Row) (id : String) (e : ExceptionRequest) {rows' : List Row}
      → insert_row id e rows ≡ some rows'
      → Keeps rows rows'
  Keeps-insert rows id e q j r k = elim (row_of-insert id j e rows q) [
    | inl same ↦ (r, same ∙ k, refl)
    | inr (n, s) ↦ absurd (ground arith)
  ]
