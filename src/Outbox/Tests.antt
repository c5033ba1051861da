-- ===== src/Outbox/Tests.antt =====
-- Runs of the worker on three rows.
use tpsr_v.Prelude.{
  ◌≡◌, ◌≢◌, refl, inl, inr, ℕ, String, true, false, none, some, List, [], ◌∷◌, All, arith, here,
  length, text_eq, text_eq_iff, is, includes, or_text, if◌then◌else◌,
}
use tpsr_v.Outbox.{
  OutboxRecord, OutboxStatus, pending, retry_pending, completed, failed_requires_review, Env,
  accepted, refused, Fault, transaction_error, claimable, claim_rows, claim_table, valid_payload,
  attempt, write_row, backoff, fault_status, settle, conclude_attempt, process_record,
  process_records, process_batch, admin_requeue, requeue_rows,
}
use tpsr_v.Outbox.Counts.{handled, process_batch-handled}
use tpsr_v.Outbox.Records.{Recorded, IsRecorded, process_batch-IsRecorded}
use tpsr_v.Outbox.Retries.{Bounded, Unique, process_batch-Bounded}

abbrev evidence : List String
evidence = "version" ∷ "sbomID" ∷ "evidenceId" ∷ "evidenceType" ∷ "evidenceHash" ∷ []

abbrev row : String → OutboxStatus → ℕ → OutboxRecord
row id st n = record {
  id = id;
  action = some "RECORD_TRUST_EVIDENCE";
  payload = some evidence;
  status = st;
  retry_count = n;
  next_attempt_at = 0;
  is_locked = false;
  is_deleted = false;
  fabric_tx_id = none;
}

-- One row that the ledger takes, one that it refuses again and one that is done.
abbrev table : List OutboxRecord
table = row "a" pending 0 ∷ row "b" retry_pending 1 ∷ row "c" completed 1 ∷ []

abbrev network : Env
network = record {
  claims = true;
  updates = λ id st. true;
  connects = λ action. true;
  submits = λ id. if text_eq id "a" then accepted "tx" else refused false;
}

batch_run : (process_batch network 10 5 7 table ("c" ∷ [])).retry_count ≡ 1
unfolding process_batch process_records process_record conclude_attempt settle fault_status
    write_row backoff attempt valid_payload claim_rows claim_table claimable text_eq is includes
    or_text
batch_run = refl

claimed_run : length (claim_rows 10 7 table) ≡ 2
unfolding claim_rows claimable
claimed_run = refl

batch_ended : (process_batch network 10 5 7 table ("c" ∷ [])).is_aborted ≡ false
unfolding process_batch process_records process_record conclude_attempt settle fault_status
    write_row backoff attempt valid_payload claim_rows claim_table claimable text_eq is includes
    or_text
batch_ended = refl

-- A row that failed after five claims keeps its count when it is requeued.
requeued_run : admin_requeue "z" 9 (row "z" failed_requires_review 5 ∷ []) ≢ none
unfolding admin_requeue requeue_rows text_eq
requeued_run e = cc

abbrev transient : Fault
transient = transaction_error false

distinct : (s t : String) → text_eq s t ≡ false → s ≢ t
distinct s t h e = ground (arith, text_eq_iff s t)

table-Unique : Unique table
unfolding text_eq
table-Unique =
    ((distinct "b" "a" refl, (distinct "c" "a" refl, tt)), ((distinct "c" "b" refl, tt), (tt, tt)))

table-Bounded : All (Bounded 5) table
table-Bounded = (inl refl, (inr (omega arith), (inl refl, tt)))

table-Recorded : All (Recorded ("c" ∷ [])) table
table-Recorded = (inl refl, (inl refl, (inr (here refl), tt)))

process_batch-handled_example :
    handled (process_batch network 10 5 7 table ("c" ∷ [])) ≡ length (claim_rows 10 7 table)
process_batch-handled_example =
    process_batch-handled network 10 5 7 table ("c" ∷ []) refl batch_ended

process_batch-IsRecorded_example : IsRecorded (process_batch network 10 5 7 table ("c" ∷ []))
process_batch-IsRecorded_example =
    process_batch-IsRecorded network 10 5 7 table ("c" ∷ []) table-Recorded

process_batch-Bounded_example :
    All (Bounded 5) (process_batch network 10 5 7 table ("c" ∷ [])).table
process_batch-Bounded_example =
    process_batch-Bounded network 10 5 7 table ("c" ∷ []) table-Unique table-Bounded
