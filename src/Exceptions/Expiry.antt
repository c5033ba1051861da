-- ===== src/Exceptions/Expiry.antt =====
-- api/src/workers/exceptionExpiryWorker.js: one tick of the expiry worker, with the VEX statements of
-- api/src/repositories/sbomRepository.js. The log and the timer are left out.
pub mod Rows
pub mod Distinct
pub mod Listed
pub mod Swept
pub mod Stuck
use tpsr_v.Prelude.{
  ℕ, String, Bool, true, false, not, ◌&&◌, ◌||◌, Option, none, some, List, [], ◌∷◌, ◌++◌, map,
  filter, text_eq, includes, is_empty, if◌then◌else◌,
}
use tpsr_v.Evidence.{Date, date_le}
use tpsr_v.Governance.{until_date}
use tpsr_v.Exceptions.{
  RowStatus, active, expired, Row, Event, expiring_before, mark_expired, marked_rows,
}
use tpsr_v.Exceptions.Routes.{Tables}

-- The columns of `vex_statements` that the worker reads.
pub record VexRow : Type 0 where
  pub id : String
  pub sbom_id : String
  pub policy_impact : String
  pub policy_valid_until : Option Date

-- `findVexStatementsExpiringBefore`
abbrev pub vex_is_due : ℕ → VexRow → Bool
vex_is_due now v =
    not (text_eq v.policy_impact "EXPIRED")
    && not (text_eq v.policy_impact "REVOKED")
    && date_le (until_date v.policy_valid_until) now

-- `markExpiredVexStatements`
unfoldable pub mark_expired_vex : List String → List VexRow → List VexRow
mark_expired_vex ids [] = []
mark_expired_vex ids (v ∷ vs) =
    (if includes ids v.id then record v { policy_impact = "EXPIRED" } else v)
    ∷ mark_expired_vex ids vs

-- What the database answers in a tick: whether a connection is there, the update of the exceptions, the
-- event of each exception, the update of the statements, and COMMIT succeed.
pub record ExpiryEnv : Type 0 where
  pub now : ℕ
  pub connects : Bool
  pub marks : Bool
  pub records_event : String → Bool
  pub marks_vex : Bool
  pub commits : Bool

-- `isRunning`, the tables, and the SBOMs given to `triggerReevaluationForSbom` so far, the latest tick
-- last.
pub record Worker : Type 0 where
  pub is_running : Bool
  pub tables : Tables
  pub vex : List VexRow
  pub reevaluated : List (Option String)

abbrev pub row_id : Row → String
row_id r = r.id

abbrev pub vex_id : VexRow → String
vex_id v = v.id

abbrev pub expired_event : Row → Event
expired_event r = record {
  exception_id = r.id;
  event_type = "EXPIRED";
  previous_status = some active;
  new_status = expired;
  actor_id = some "system:exception-expiry-worker";
  actor_role = some "system";
  reason = some "Automatically expired due to validUntil threshold";
}

-- The loop over the marked rows; none where an event is not recorded.
unfoldable pub record_events : ExpiryEnv → List Row → List Event → Option (List Event)
record_events env [] events = some events
record_events env (r ∷ rs) events =
    let rest = record_events env rs (expired_event r ∷ events) in
    if env.records_event r.id then rest else none

abbrev pub same_sbom : Option String → Option String → Bool
same_sbom none none = true
same_sbom (some s) (some t) = text_eq s t
same_sbom _ _ = false

abbrev pub holds_sbom : List (Option String) → Option String → Bool
holds_sbom [] s = false
holds_sbom (x ∷ xs) s = same_sbom x s || holds_sbom xs s

-- `sbomIdsToReevaluate.add`
unfoldable pub add_sbom : Option String → List (Option String) → List (Option String)
add_sbom s xs = if holds_sbom xs s then xs else xs ++ s ∷ []

unfoldable pub add_rows : List Row → List (Option String) → List (Option String)
add_rows [] xs = xs
add_rows (r ∷ rs) xs = add_rows rs (add_sbom r.request.sbom_id xs)

unfoldable pub add_vex : List VexRow → List (Option String) → List (Option String)
add_vex [] xs = xs
add_vex (v ∷ vs) xs = add_vex vs (add_sbom (some v.sbom_id) xs)

-- The ids of the rows that are marked, in the first part of the transaction.
unfoldable pub due_ids : ℕ → List Row → List String
due_ids now rows = map row_id (expiring_before now rows)

unfoldable pub due_vex : ℕ → List VexRow → List VexRow
due_vex now vex = filter (vex_is_due now) vex

abbrev pub is_marked_vex : List String → VexRow → Bool
is_marked_vex ids v = includes ids v.id

-- What the transaction leaves, before COMMIT or ROLLBACK: the tables, the statements, and
-- `sbomIdsToReevaluate`.
pub record Sweep : Type 0 where
  pub tables : Tables
  pub vex : List VexRow
  pub sboms : List (Option String)

-- Step 1 to 4: the exceptions and their events.
unfoldable pub sweep_exceptions : ExpiryEnv → Tables → List VexRow → Option Sweep
sweep_exceptions env t vex =
    if is_empty (due_ids env.now t.rows)
    then some (record { tables = t; vex = vex; sboms = [] })
    else if env.marks
    then elim (record_events env (marked_rows (due_ids env.now t.rows) t.rows) t.events) [
      | none ↦ none
      | some events ↦ some (record {
        tables = record { rows = mark_expired (due_ids env.now t.rows) t.rows; events = events };
        vex = vex;
        sboms = add_rows (marked_rows (due_ids env.now t.rows) t.rows) [];
      })
    ]
    else none

-- The statements; the update of a statement does not look at its policy impact again.
unfoldable pub sweep_vex : ExpiryEnv → Sweep → Option Sweep
sweep_vex env s =
    let ids = map vex_id (due_vex env.now s.vex) in
    if is_empty ids
    then some s
    else if env.marks_vex
    then some (record s {
      vex = mark_expired_vex ids s.vex;
      sboms = add_vex (filter (is_marked_vex ids) s.vex) s.sboms;
    })
    else none

-- COMMIT, where there is something to evaluate again, then the evaluations. A failed one is logged.
unfoldable pub conclude : ExpiryEnv → Worker → Option Sweep → Worker
conclude env w none = w
conclude env w (some s) =
    if not (is_empty s.sboms) && env.commits
    then record {
      is_running = w.is_running;
      tables = s.tables;
      vex = s.vex;
      reevaluated = w.reevaluated ++ s.sboms;
    }
    else w

unfoldable pub sweep : ExpiryEnv → Tables → List VexRow → Option Sweep
sweep env t vex = elim (sweep_exceptions env t vex) [ none ↦ none | some s ↦ sweep_vex env s ]

-- `processExpiredExceptions`. The connection is asked for before the `try`, so that a failure leaves
-- `isRunning` set.
unfoldable pub tick : ExpiryEnv → Worker → Worker
tick env w =
    if w.is_running
    then w
    else if env.connects
    then conclude env w (sweep env w.tables w.vex)
    else record w { is_running = true }
