-- ===== src/Outbox/Counts.antt =====
-- The statistics of a batch.
use tpsr_v.Prelude.{
  ◌≡◌, inl, inr, ℕ, ◌+◌, String, true, false, List, [], ◌∷◌, length, arith, Bool-cases,
}
use tpsr_v.Outbox.{
  OutboxRecord, Env, Batch, Fault, update_failed, Attempt, anchored, failed, attempt, settle,
  recorded, process_record, conclude_attempt, process_records, process_batch, claim_rows,
  claim_table, start,
}

-- How many records have been dealt with.
abbrev pub handled : Batch → ℕ
handled s = s.completed_count + s.review_count + s.retry_count

settle-handled :
    (env : Env) (max now : ℕ) (r : OutboxRecord) (f : Fault) (s : Batch)
    → (settle env max now r f s).is_aborted ≡ false
    → handled (settle env max now r f s) ≡ handled s + 1
unfolding settle
settle-handled env max now r f s h = ground arith

conclude_attempt-handled :
    (env : Env) (max now : ℕ) (r : OutboxRecord) (a : Attempt) (s : Batch)
    → (conclude_attempt env max now r a s).is_aborted ≡ false
    → handled (conclude_attempt env max now r a s) ≡ handled s + 1
unfolding conclude_attempt
conclude_attempt-handled env max now r (failed f) s h = settle-handled env max now r f s h
conclude_attempt-handled env max now r (anchored tx) s h = ground (
  arith,
  λ (k : (settle env max now r update_failed (recorded r s)).is_aborted ≡ false).
      settle-handled env max now r update_failed (recorded r s) k,
)

process_records-handled :
    (env : Env) (max now : ℕ) (rs : List OutboxRecord) (s : Batch)
    → (process_records env max now rs s).is_aborted ≡ false
    → handled (process_records env max now rs s) ≡ handled s + length rs
unfolding process_records process_record
process_records-handled env max now [] s h = omega arith
process_records-handled env max now (r ∷ rs) s h =
    let next : Batch = conclude_attempt env max now r (attempt env r) s in
    elim (Bool-cases next.is_aborted) [
      | inl y ↦ absurd (ground arith)
      | inr n ↦ ground (
        arith,
        conclude_attempt-handled env max now r (attempt env r) s n,
        process_records-handled env max now rs next (ground arith),
      )
    ]

-- A batch that is claimed and ends counts each record of the claim once: as completed, as sent to
-- review or as retried.
pub process_batch-handled :
    (env : Env) (size max now : ℕ) (table : List OutboxRecord) (ledger : List String)
    → env.claims ≡ true
    → (process_batch env size max now table ledger).is_aborted ≡ false
    → handled (process_batch env size max now table ledger) ≡ length (claim_rows size now table)
unfolding process_batch
process_batch-handled env size max now table ledger c h = ground (
  arith,
  λ (k : (process_records env max now (claim_rows size now table)
          (start (claim_table size now table) ledger)).is_aborted
        ≡ false).
      process_records-handled env max now (claim_rows size now table)
        (start (claim_table size now table) ledger) k,
)
