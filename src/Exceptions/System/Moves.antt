-- ===== src/Exceptions/System/Moves.antt =====
-- How the status of one exception moves, whatever runs at the same time.
use tpsr_v.Prelude.{
  includes, ◌≡◌, refl, sym, ap, ◌∙◌, ◌⊎◌, inl, inr, String, ◌&&◌, Option, none, some, List, text_eq,
  Bool-cases, Option-cases, arith, subst,
}
use tpsr_v.Governance.{ExceptionGovernance, ExceptionRequest}
use tpsr_v.Exceptions.{
  RowStatus, requested, active, rejected, revoked, superseded, expired, same_row_status, Row, Event,
  row_of, new_row, insert_row, Change, approve_by, reject_by, revoke_by, supersede_by, from_of,
  to_of, changed, applied, update_rows, mark_expired,
}
use tpsr_v.Exceptions.Store.{
  same_row_status_eq, map_row, row_of-update, marked, row_of-mark, row_of-insert,
}
use tpsr_v.Exceptions.Routes.{Env, Plan, insert, update, Response, Tables, concluded, commit}
use tpsr_v.Exceptions.Expiry.{ExpiryEnv, Worker, tick, due_ids}
use tpsr_v.Exceptions.Expiry.Rows.{tick-rows}
use tpsr_v.Exceptions.System.{System, Step, checks, commits, ticks, Reach, here, next, status_of}

-- The moves of the state machine.
pub data Follows : RowStatus → RowStatus → Type 0 where
  approval : Follows requested active
  rejection : Follows requested rejected
  revocation : Follows active revoked
  supersession : Follows active superseded
  expiry : Follows active expired

abbrev pub status_in : List Row → String → Option RowStatus
status_in rows id = elim (row_of rows id) [ none ↦ none | some r ↦ some r.status ]

-- The status stays, the exception is new, or it makes one move.
abbrev pub Moves : Option RowStatus → Option RowStatus → Type 0
Moves o o' =
    (o' ≡ o)
    ⊎ (((o ≡ none) × (o' ≡ some requested))
        ⊎ (s : RowStatus) × (t : RowStatus) × (o ≡ some s) × (o' ≡ some t) × Follows s t)

abbrev status_part : Option Row → Option RowStatus
status_part none = none
status_part (some r) = some r.status

status_part-row_of : (rows : List Row) (j : String) → status_part (row_of rows j) ≡ status_in rows j
status_part-row_of rows j = ground arith

change-Follows : (c : Change) → Follows (from_of c) (to_of c)
change-Follows (approve_by who role a) = approval
change-Follows (reject_by who role) = rejection
change-Follows (revoke_by who why) = revocation
change-Follows (supersede_by new) = supersession

status-changed : (c : Change) (r : Row) → (changed c r).status ≡ to_of c
status-changed (approve_by who role a) r = refl
status-changed (reject_by who role) r = refl
status-changed (revoke_by who why) r = refl
status-changed (supersede_by new) r = refl

applied-Moves :
    (c : Change) (o : Option Row) → Moves (status_part o) (status_part (map_row (applied c) o))
applied-Moves c none = inl refl
applied-Moves c (some r) = elim (Bool-cases (same_row_status r.status (from_of c))) [
  | inl y ↦ inr (
      inr (
        from_of c,
        to_of c,
        ap some (same_row_status_eq r.status (from_of c) y),
        ap some (rw y (status-changed c r)),
        change-Follows c,
      ))
  | inr n ↦ inl (rw n)
]

update-Moves :
    (c : Change) (id j : String) (rows : List Row)
    → Moves (status_in rows j) (status_in (update_rows c id rows) j)
update-Moves c id j rows =
    subst (λ o. Moves (status_in rows j) (status_part o)) (sym (row_of-update c id j rows))
      (elim (Bool-cases (text_eq id j)) [
        | inl y ↦ rw y (applied-Moves c (row_of rows j))
        | inr n ↦ rw n (inl refl)
      ])

mark-Moves :
    (ids : List String) (o : Option Row)
    → Moves (status_part o) (status_part (map_row (marked ids) o))
mark-Moves ids none = inl refl
mark-Moves ids (some r) = elim (Bool-cases (includes ids r.id && same_row_status r.status active)) [
  | inl y ↦ inr (
      inr (
        active,
        expired,
        ap some (same_row_status_eq r.status active (ground arith)),
        ap some (rw y refl),
        expiry,
      ))
  | inr n ↦ inl (rw n refl)
]

mark_expired-Moves :
    (ids : List String) (j : String) (rows : List Row)
    → Moves (status_in rows j) (status_in (mark_expired ids rows) j)
mark_expired-Moves ids j rows =
    subst (λ o. Moves (status_in rows j) (status_part o)) (sym (row_of-mark ids j rows))
      (mark-Moves ids (row_of rows j))

insert-Moves :
    (id j : String) (e : ExceptionRequest) (rows : List Row) {rows' : List Row}
    → insert_row id e rows ≡ some rows'
    → Moves (status_in rows j) (status_in rows' j)
unfolding new_row
insert-Moves id j e rows {rows'} h = elim (row_of-insert id j e rows h) [
  | inl same ↦ inl (ap status_part same)
  | inr (n, s) ↦ inr (inl (ap status_part n, ap status_part s))
]

pub rows-concluded :
    (env : Env) (e : Event) (ok : Response) (t : Tables) → (concluded env e ok t).0.rows ≡ t.rows
unfolding concluded
rows-concluded env e ok t = ground arith

-- What a handler does after its checks, whatever the table has become.
commit-Moves :
    (env : Env) (p : Plan) (t : Tables) (j : String)
    → Moves (status_in t.rows j) (status_in (commit env p t).0.rows j)
unfolding commit
commit-Moves env (insert id e event) t j = elim (Bool-cases env.updates) [
  | inl u ↦ elim (Option-cases (insert_row id e t.rows)) [
    | inl n ↦ rw (u, n, commit) (inl refl)
    | inr (rows, k) ↦ rw (u, k, commit, rows-concluded) (insert-Moves id j e t.rows k)
  ]
  | inr u ↦ rw (u, commit) (inl refl)
]
commit-Moves env (update id c event) t j = elim (Bool-cases env.updates) [
  | inl u ↦ rw (u, commit, rows-concluded) (update-Moves c id j t.rows)
  | inr u ↦ rw (u, commit) (inl refl)
]

tick-Moves :
    (env : ExpiryEnv) (w : Worker) (j : String)
    → Moves (status_in w.tables.rows j) (status_in (tick env w).tables.rows j)
tick-Moves env w j =
    tick-rows (λ rows. Moves (status_in w.tables.rows j) (status_in rows j)) env w (inl refl)
      (mark_expired-Moves (due_ids env.now w.tables.rows) j w.tables.rows)

-- The statuses in which an exception ends.
abbrev IsFinal : RowStatus → Type 0
IsFinal requested = ⊥
IsFinal active = ⊥
IsFinal rejected = Unit
IsFinal revoked = Unit
IsFinal superseded = Unit
IsFinal expired = Unit

Follows-IsFinal : {r u : RowStatus} → Follows r u → IsFinal r → ⊥
Follows-IsFinal approval f = f
Follows-IsFinal rejection f = f
Follows-IsFinal revocation f = f
Follows-IsFinal supersession f = f
Follows-IsFinal expiry f = f

some_status : (r u : RowStatus) → some r ≡ some u → r ≡ u
some_status r u e = ap (λ o. elim o [ none ↦ r | some x ↦ x ]) e

Moves-IsFinal :
    {o o' : Option RowStatus} (r : RowStatus) → IsFinal r → o ≡ some r → Moves o o' → o' ≡ some r
Moves-IsFinal r f e (inl same) = same ∙ e
Moves-IsFinal r f e (inr (inl (n, _))) = cc
Moves-IsFinal r f e (inr (inr (s, t, q, _, move))) =
    absurd (Follows-IsFinal move (subst IsFinal (some_status r s (sym e ∙ q)) f))

module _ {rules : List (String × String)} {g : ExceptionGovernance} where
  -- Whatever requests and ticks run side by side, one step of any of them leaves the status of an
  -- exception, creates it as REQUESTED, or moves it from REQUESTED to ACTIVE or REJECTED, or from
  -- ACTIVE to REVOKED, SUPERSEDED or EXPIRED.
  pub Step-Moves :
      {s t : System} (j : String) → Step rules g s t → Moves (status_of s j) (status_of t j)
  Step-Moves j (checks env auth q p h) = inl refl
  Step-Moves {s} j (commits env p rest pick) = commit-Moves env p s.worker.tables j
  Step-Moves {s} j (ticks env) = tick-Moves env s.worker j

  -- A rejected, revoked, superseded or expired exception keeps its status in every system that can be
  -- reached, whatever requests and ticks run side by side.
  pub Reach-IsFinal :
      {s t : System} (j : String) (r : RowStatus)
      → Reach rules g s t
      → IsFinal r
      → status_of s j ≡ some r
      → status_of t j ≡ some r
  Reach-IsFinal j r here f e = e
  Reach-IsFinal j r (next way step) f e =
      Moves-IsFinal r f (Reach-IsFinal j r way f e) (Step-Moves j step)
