-- ===== src/Exceptions.antt =====
-- api/src/repositories/policyExceptionRepository.js: the rows of `policy_exceptions`, their events and
-- the updates. Policy versions, comments and time stamps of rows and events are left out.
pub mod Routes
pub mod Expiry
pub mod Store
pub mod System
pub mod Approvals
pub mod Superseding
mod Tests
use tpsr_v.Prelude.{
  ℕ, String, Bool, true, false, ◌&&◌, Option, none, some, List, [], ◌∷◌, ◌++◌, text_eq, includes,
  filter, if◌then◌else◌,
}
use tpsr_v.ContextRisk.{AssuranceState}
use tpsr_v.Evidence.{Date, date_le}
use tpsr_v.Governance.{ExceptionRequest, until_date}

-- `policy_exceptions.status`
pub data RowStatus : Type 0 where
  requested active rejected revoked superseded expired : RowStatus

abbrev pub same_row_status : RowStatus → RowStatus → Bool
same_row_status requested requested = true
same_row_status active active = true
same_row_status rejected rejected = true
same_row_status revoked revoked = true
same_row_status superseded superseded = true
same_row_status expired expired = true
same_row_status _ _ = false

-- A row; `request` holds the columns that the approval reads.
pub record Row : Type 0 where
  pub id : String
  pub request : ExceptionRequest
  pub status : RowStatus
  pub approved_by : Option String
  pub approver_role : Option String
  pub assurance_state : Option AssuranceState
  pub revoked_by : Option String
  pub revocation_reason : Option String
  pub supersedes : Option String

-- A row of `policy_exception_events`.
pub record Event : Type 0 where
  pub exception_id : String
  pub event_type : String
  pub previous_status : Option RowStatus
  pub new_status : RowStatus
  pub actor_id : Option String
  pub actor_role : Option String
  pub reason : Option String

-- `getExceptionById`
abbrev pub row_of : List Row → String → Option Row
row_of [] id = none
row_of (r ∷ rs) id = let rest = row_of rs id in if text_eq r.id id then some r else rest

-- `createExceptionRequest`: the status and the risk have their defaults already.
pub new_row : String → ExceptionRequest → Row
new_row id e = record {
  id = id;
  request = e;
  status = requested;
  approved_by = none;
  approver_role = none;
  assurance_state = none;
  revoked_by = none;
  revocation_reason = none;
  supersedes = none;
}

-- `INSERT`, which the primary key refuses for an id that is taken.
pub insert_row : String → ExceptionRequest → List Row → Option (List Row)
insert_row id e rows = elim (row_of rows id) [
  | none ↦ some (rows ++ new_row id e ∷ [])
  | some r ↦ none
]

-- The `UPDATE` statements of `approveException`, `rejectException`, `revokeException` and
-- `supersedeException`.
pub data Change : Type 0 where
  approve_by : Option String → Option String → AssuranceState → Change
  reject_by : Option String → Option String → Change
  revoke_by : Option String → String → Change
  supersede_by : String → Change

-- `WHERE status = …`
abbrev pub from_of : Change → RowStatus
from_of (approve_by who role a) = requested
from_of (reject_by who role) = requested
from_of (revoke_by who why) = active
from_of (supersede_by new) = active

-- `SET status = …`
abbrev pub to_of : Change → RowStatus
to_of (approve_by who role a) = active
to_of (reject_by who role) = rejected
to_of (revoke_by who why) = revoked
to_of (supersede_by new) = superseded

-- `SET …`
abbrev pub changed : Change → Row → Row
changed (approve_by who role a) r = record r {
  status = active;
  approved_by = who;
  approver_role = role;
  assurance_state = some a;
}
changed (reject_by who role) r = record r {
  status = rejected;
  approved_by = who;
  approver_role = role;
  assurance_state = some AssuranceState.invalid;
}
changed (revoke_by who why) r = record r {
  status = revoked;
  revoked_by = who;
  revocation_reason = some why;
}
changed (supersede_by new) r = record r { status = superseded; supersedes = some new }

abbrev pub applied : Change → Row → Row
applied c r = if same_row_status r.status (from_of c) then changed c r else r

pub update_rows : Change → String → List Row → List Row
update_rows c id [] = []
update_rows c id (r ∷ rs) = (if text_eq r.id id then applied c r else r) ∷ update_rows c id rs

-- `valid_until <= date`
abbrev pub is_past : ℕ → Row → Bool
is_past now r = date_le (until_date r.request.valid_until) now

abbrev pub is_due : ℕ → Row → Bool
is_due now r = same_row_status r.status active && is_past now r

-- `findExceptionsExpiringBefore`
pub expiring_before : ℕ → List Row → List Row
expiring_before now rows = filter (is_due now) rows

abbrev pub expired_row : Row → Row
expired_row r = record r { status = expired; assurance_state = some AssuranceState.stale }

abbrev pub is_marked : List String → Row → Bool
is_marked ids r = includes ids r.id && same_row_status r.status active

-- `markExpiredExceptions`: the rows, and those that it returns.
pub mark_expired : List String → List Row → List Row
mark_expired ids [] = []
mark_expired ids (r ∷ rs) = (if is_marked ids r then expired_row r else r) ∷ mark_expired ids rs

pub marked_rows : List String → List Row → List Row
marked_rows ids rows = filter (is_marked ids) rows
