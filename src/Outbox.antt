-- ===== src/Outbox.antt =====
-- The outbox of the ledger: `claimPendingOutboxRecords`, `updateOutboxRecordStatus` and
-- `adminRequeueOutboxRecord` of api/src/repositories/trustRepository.js, and `processOutboxBatch` of
-- api/src/workers/outboxWorker.js. The table is in the order of `created_at`; one worker runs at a
-- time. What the database, the network and the ledger answer is the record `Env`.
pub mod Retries
pub mod Records
pub mod Counts
mod Tests
use tpsr_v.Prelude.{
  ℕ, zero, suc, ◌+◌, ◌*◌, ◌^◌, String, Bool, true, false, not, ◌&&◌, ◌||◌, Option, none, some, List,
  [], ◌∷◌, text_eq, includes, is, if◌then◌else◌, leb, any, all, or_text,
}

pub data OutboxStatus : Type 0 where
  pending processing retry_pending completed failed_requires_review : OutboxStatus

-- A row of `ledger_outbox`. `payload` is the list of the payload's fields with a truthy value, and
-- none where it does not parse.
pub record OutboxRecord : Type 0 where
  pub id : String
  pub action : Option String
  pub payload : Option (List String)
  pub status : OutboxStatus
  pub retry_count : ℕ
  pub next_attempt_at : ℕ
  pub is_locked : Bool
  pub is_deleted : Bool
  pub fabric_tx_id : Option String

-- What ends an attempt: the JSON of the payload, the checks of the action and its fields, the
-- connection, or the transaction. `asks_review` says whether the message of a transaction's error has
-- one of the phrases that the worker looks for.
pub data Fault : Type 0 where
  bad_json mismatch configuration update_failed : Fault
  transaction_error : (asks_review : Bool) → Fault

pub data Submission : Type 0 where
  accepted : String → Submission
  refused : Bool → Submission

-- `claims`, `updates` and `connects` say whether the claim, an update of a row and the connection for
-- an action succeed; `submits` is the answer of the ledger.
pub record Env : Type 0 where
  pub claims : Bool
  pub updates : String → OutboxStatus → Bool
  pub connects : String → Bool
  pub submits : String → Submission

-- The table, the records that the ledger took, the statistics, and whether an update failed inside
-- the `catch`, which ends the batch with an exception.
pub record Batch : Type 0 where
  pub table : List OutboxRecord
  pub ledger : List String
  pub completed_count : ℕ
  pub review_count : ℕ
  pub retry_count : ℕ
  pub is_aborted : Bool

abbrev pub is_waiting : OutboxStatus → Bool
is_waiting pending = true
is_waiting retry_pending = true
is_waiting _ = false

-- The condition of the claim.
pub claimable : ℕ → OutboxRecord → Bool
claimable now r = is_waiting r.status && leb r.next_attempt_at now && not r.is_deleted

abbrev pub claimed : OutboxRecord → OutboxRecord
claimed r = record r { status = processing; is_locked = true; retry_count = r.retry_count + 1 }

-- The rows that the claim returns, the first `batchSize` claimable ones.
pub claim_rows : ℕ → ℕ → List OutboxRecord → List OutboxRecord
claim_rows n now [] = []
claim_rows zero now (r ∷ rs) = []
claim_rows (suc n) now (r ∷ rs) =
    let rest = claim_rows n now rs in
    let later = claim_rows (suc n) now rs in if claimable now r then claimed r ∷ rest else later

-- The table after the claim.
pub claim_table : ℕ → ℕ → List OutboxRecord → List OutboxRecord
claim_table n now [] = []
claim_table zero now (r ∷ rs) = r ∷ rs
claim_table (suc n) now (r ∷ rs) =
    let rest = claim_table n now rs in
    let later = claim_table (suc n) now rs in
    if claimable now r then claimed r ∷ rest else r ∷ later

abbrev pub decision_fields : List String
decision_fields =
    "version" ∷ "sbomID" ∷ "decisionId" ∷ "trustStatus" ∷ "reasonCode" ∷ "reasonDescription"
    ∷ "policyVersion" ∷ "evidenceBundleHash" ∷ []

abbrev pub evidence_fields : List String
evidence_fields = "version" ∷ "sbomID" ∷ "evidenceId" ∷ "evidenceType" ∷ "evidenceHash" ∷ []

-- The checks of the action and of the fields that it needs and excludes.
unfoldable pub valid_payload : Option String → List String → Bool
valid_payload action fields =
    if is action "RECORD_TRUST_DECISION"
    then all (includes fields) decision_fields && not (includes fields "evidenceType")
    else is action "RECORD_TRUST_EVIDENCE"
      && all (includes fields) evidence_fields
      && not (includes fields "trustStatus")

pub data Attempt : Type 0 where
  anchored : String → Attempt
  failed : Fault → Attempt

-- The body of the `try`, up to the submission.
unfoldable pub attempt : Env → OutboxRecord → Attempt
attempt env r = elim r.payload [
  | none ↦ failed bad_json
  | some fields ↦
      if valid_payload r.action fields
      then if env.connects (or_text r.action "")
        then elim (env.submits r.id) [
          | accepted tx ↦ anchored tx
          | refused b ↦ failed (transaction_error b)
        ]
        else failed configuration
      else failed mismatch
]

-- The faults that no retry mends.
abbrev pub reviewable : Fault → Bool
reviewable bad_json = false
reviewable mismatch = true
reviewable configuration = true
reviewable update_failed = false
reviewable (transaction_error b) = b

abbrev or_old {ℓ} : {A : Type ℓ} → Option A → A → A
or_old none old = old
or_old (some new) old = new

abbrev pub with_result : OutboxStatus → Option String → Option ℕ → OutboxRecord → OutboxRecord
with_result st tx next r = record r {
  status = st;
  is_locked = false;
  fabric_tx_id = elim tx [ none ↦ r.fabric_tx_id | some t ↦ some t ];
  next_attempt_at = or_old next r.next_attempt_at;
}

-- `updateOutboxRecordStatus`
pub write_row :
    String → OutboxStatus → Option String → Option ℕ → List OutboxRecord → List OutboxRecord
write_row id st tx next [] = []
write_row id st tx next (r ∷ rs) =
    (if text_eq r.id id then with_result st tx next r else r) ∷ write_row id st tx next rs

-- `Math.pow(2, retryCount) * 2000`
pub backoff : ℕ → ℕ
backoff retry = 2 ^ retry * 2000

-- The `catch`: the status that the record gets after a fault.
unfoldable pub fault_status : ℕ → OutboxRecord → Fault → OutboxStatus
fault_status max r f =
    if reviewable f
    then failed_requires_review
    else if leb max (r.retry_count + 1)
    then failed_requires_review
    else retry_pending

abbrev pub is_retrying : OutboxStatus → Bool
is_retrying retry_pending = true
is_retrying _ = false

abbrev pub next_attempt : OutboxStatus → ℕ → ℕ → Option ℕ
next_attempt st now retry = if is_retrying st then some (now + backoff retry) else none

abbrev count_if : Bool → ℕ → ℕ
count_if b n = if b then n + 1 else n

pub settle : Env → ℕ → ℕ → OutboxRecord → Fault → Batch → Batch
settle env max now r f s =
    let st = fault_status max r f in
    if env.updates r.id st
    then record s {
      table = write_row r.id st none (next_attempt st now (r.retry_count + 1)) s.table;
      review_count = count_if (not (is_retrying st)) s.review_count;
      retry_count = count_if (is_retrying st) s.retry_count;
    }
    else record s { is_aborted = true }

abbrev pub recorded : OutboxRecord → Batch → Batch
recorded r s = record s { ledger = r.id ∷ s.ledger }

-- What follows the `try`: the update of an anchored record, itself inside the `try`, or the `catch`.
pub conclude_attempt : Env → ℕ → ℕ → OutboxRecord → Attempt → Batch → Batch
conclude_attempt env max now r (failed f) s = settle env max now r f s
conclude_attempt env max now r (anchored tx) s =
    if env.updates r.id completed
    then record (recorded r s) {
      table = write_row r.id completed (some tx) none s.table;
      completed_count = s.completed_count + 1;
    }
    else settle env max now r update_failed (recorded r s)

-- One round of the loop over the records.
pub process_record : Env → ℕ → ℕ → OutboxRecord → Batch → Batch
process_record env max now r s = conclude_attempt env max now r (attempt env r) s

pub process_records : Env → ℕ → ℕ → List OutboxRecord → Batch → Batch
process_records env max now [] s = s
process_records env max now (r ∷ rs) s =
    let next = process_record env max now r s in
    let rest = process_records env max now rs next in if next.is_aborted then next else rest

abbrev pub start : List OutboxRecord → List String → Batch
start table ledger = record {
  table = table;
  ledger = ledger;
  completed_count = 0;
  review_count = 0;
  retry_count = 0;
  is_aborted = false;
}

-- `processOutboxBatch`
pub process_batch : Env → ℕ → ℕ → ℕ → List OutboxRecord → List String → Batch
process_batch env size max now table ledger =
    if env.claims
    then process_records env max now (claim_rows size now table)
        (start (claim_table size now table) ledger)
    else start table ledger

abbrev pub requeued : ℕ → OutboxRecord → OutboxRecord
requeued now r = record r { status = retry_pending; is_locked = false; next_attempt_at = now }

requeue_rows : String → ℕ → List OutboxRecord → List OutboxRecord
requeue_rows id now [] = []
requeue_rows id now (r ∷ rs) =
    (if text_eq r.id id then requeued now r else r) ∷ requeue_rows id now rs

-- `adminRequeueOutboxRecord`, none where no row has the id.
pub admin_requeue : String → ℕ → List OutboxRecord → Option (List OutboxRecord)
admin_requeue id now rows =
    if any (λ r. text_eq r.id id) rows then some (requeue_rows id now rows) else none
