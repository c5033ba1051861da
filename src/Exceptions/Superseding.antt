-- ===== src/Exceptions/Superseding.antt =====
-- What `supersedeException` does with an exception that is still REQUESTED.
use tpsr_v.Prelude.{
  ◌≡◌, refl, sym, ap, ◌∙◌, String, Bool, true, Option, none, some, List, ◌∷◌, truthy, trim, or_text,
  text_eq, text_eq_iff, inl, inr, Bool-cases, arith,
}
use tpsr_v.Governance.{ExceptionGovernance, lists}
use tpsr_v.Exceptions.{RowStatus, requested, Row, Event, row_of, Change, supersede_by, update_rows}
use tpsr_v.Exceptions.Store.{row_of-update}
use tpsr_v.Exceptions.Routes.{
  Env, Auth, supersede_exception, supersede, done, update, Check, proceed, check, check_supersede,
  with_role, with_row, with_text, is_open, event_of, Tables, concluded, returned, commit, handle,
}

-- An actor who may supersede exceptions.
pub record MaySupersede (env : Env) (a : Auth) : Type 0 where
  pub known : truthy a.user_id ≡ true
  pub roles : List String
  pub rule : env.allowed supersede_exception ≡ some roles
  pub listed : lists roles a.role ≡ true

allowed-role :
    (env : Env) (a : Auth) (k : Auth → Check)
    → MaySupersede env a
    → with_role env (some a) supersede_exception k ≡ k a
unfolding with_role
allowed-role env a k m = ground (arith, m.rule, m.listed, m.known)

found-row :
    (rows : List Row) (id : String) (fits : RowStatus → Bool) (k : Row → Check) {r : Row}
    → row_of rows id ≡ some r
    → fits r.status ≡ true
    → with_row rows id fits k ≡ k r
unfolding with_row
found-row rows id fits k e f = ground arith

given-text : (s : String) (k : String → Check) → truthy (some s) ≡ true → with_text (some s) k ≡ k s
unfolding with_text
given-text s k h = ground arith

commit-update :
    (env : Env) (id : String) (c : Change) (e : Event) (t : Tables)
    → env.updates ≡ true
    → env.records_event ≡ true
    → commit env (update id c e) t ≡ (
      record { rows = update_rows c id t.rows; events = e ∷ t.events },
      done (returned c id t.rows),
    )
unfolding commit concluded
commit-update env id c e t u k = ground arith

returned-requested :
    (new id : String) (rows : List Row) {r : Row}
    → row_of rows id ≡ some r
    → r.status ≡ requested
    → returned (supersede_by new) id rows ≡ none
unfolding returned
returned-requested new id rows e q = ground arith

-- The update finds no ACTIVE row.
unchanged :
    (new id j : String) (rows : List Row) {r : Row}
    → row_of rows id ≡ some r
    → r.status ≡ requested
    → row_of (update_rows (supersede_by new) id rows) j ≡ row_of rows j
unchanged new id j rows {r} e q = elim (Bool-cases (text_eq id j)) [
  | inl y ↦
      let k : row_of rows j ≡ some r = sym (ap (row_of rows) ((text_eq_iff id j).0 y)) ∙ e in
      row_of-update (supersede_by new) id j rows ∙ ground arith
  | inr n ↦ row_of-update (supersede_by new) id j rows ∙ ground arith
]

module _ (rules : List (String × String)) (g : ExceptionGovernance) (env : Env) (a : Auth)
    (path new : String) (why : Option String) (t : Tables) (r : Row) (may : MaySupersede env a)
    (given : truthy (some new) ≡ true) (found : row_of t.rows (trim path) ≡ some r)
    (open_request : r.status ≡ requested) where
  abbrev event : Event
  event =
      event_of (trim path) "SUPERSEDED" r.status (supersede_by new) a
        (some (or_text why "Superseded"))

  check-supersede :
      check rules g env t.rows (some a) (supersede path (some new) why)
      ≡ proceed (update (trim path) (supersede_by new) event)
  unfolding check check_supersede
  check-supersede =
      allowed-role env a _ may
      ∙ given-text new _ given
      ∙ found-row t.rows (trim path) is_open _ found (ap is_open open_request)

  -- A REQUESTED exception that is superseded stays REQUESTED, as does every other row, yet an event says
  -- that it has become SUPERSEDED and the answer reports success, with no row.
  pub handle-supersede :
      env.updates ≡ true
      → env.records_event ≡ true
      → let (t', answer) = handle rules g env (some a) (supersede path (some new) why) t in
        ((j : String) → row_of t'.rows j ≡ row_of t.rows j)
        × (t'.events ≡ event ∷ t.events)
        × (answer ≡ done none)
  unfolding handle
  handle-supersede u e =
      rw
        (
          check-supersede,
          commit-update env (trim path) (supersede_by new) event t u e,
          returned-requested new (trim path) t.rows found open_request,
        )
        (λ j. unchanged new (trim path) j t.rows found open_request, refl, refl)
