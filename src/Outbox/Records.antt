-- ===== src/Outbox/Records.antt =====
-- What is COMPLETED in the outbox is on the ledger.
use tpsr_v.Prelude.{
  ◌≡◌, refl, sym, subst, ◌⊎◌, inl, inr, ℕ, zero, suc, String, Bool, true, false, Option, none, some,
  List, [], ◌∷◌, In, here, there, All, arith, Bool-cases, text_eq, text_eq_iff, if◌then◌else◌,
}
use tpsr_v.Outbox.{
  OutboxRecord, OutboxStatus, completed, Env, Batch, Fault, update_failed, Attempt, anchored,
  failed, attempt, fault_status, settle, recorded, process_record, conclude_attempt,
  process_records, process_batch, claim_rows, claim_table, claimable, start, write_row,
}

abbrev pub is_completed : OutboxStatus → Bool
is_completed completed = true
is_completed _ = false

-- A completed row has its record on the ledger.
abbrev pub Recorded : List String → OutboxRecord → Type 0
Recorded ledger r = (is_completed r.status ≡ false) ⊎ In r.id ledger

abbrev pub IsRecorded : Batch → Type 0
IsRecorded s = All (Recorded s.ledger) s.table

Recorded-later :
    (id : String) (ledger : List String) (rs : List OutboxRecord)
    → All (Recorded ledger) rs
    → All (Recorded (id ∷ ledger)) rs
Recorded-later id ledger [] h = h
Recorded-later id ledger (r ∷ rs) (inl e, k) = (inl e, Recorded-later id ledger rs k)
Recorded-later id ledger (r ∷ rs) (inr m, k) = (inr (there m), Recorded-later id ledger rs k)

write_row-Recorded :
    (id : String) (st : OutboxStatus) (tx : Option String) (next : Option ℕ) (ledger : List String)
    (rs : List OutboxRecord)
    → (is_completed st ≡ false) ⊎ In id ledger
    → All (Recorded ledger) rs
    → All (Recorded ledger) (write_row id st tx next rs)
unfolding write_row
write_row-Recorded id st tx next ledger [] c h = h
write_row-Recorded id st tx next ledger (r ∷ rs) c (h, k) = (
  elim (Bool-cases (text_eq r.id id)) [
    | inl y ↦ rw y (elim c [
      | inl e ↦ inl e
      | inr m ↦ inr (subst (λ i. In i ledger) (sym ((text_eq_iff r.id id).0 y)) m)
    ])
    | inr n ↦ rw n h
  ],
  write_row-Recorded id st tx next ledger rs c k,
)

fault_status-completed :
    (max : ℕ) (r : OutboxRecord) (f : Fault) → is_completed (fault_status max r f) ≡ false
unfolding fault_status
fault_status-completed max r f = ground arith

settle-IsRecorded :
    (env : Env) (max now : ℕ) (r : OutboxRecord) (f : Fault) (s : Batch)
    → IsRecorded s
    → IsRecorded (settle env max now r f s)
unfolding settle
settle-IsRecorded env max now r f s h =
    elim (Bool-cases (env.updates r.id (fault_status max r f))) [
      | inl y ↦
          rw (y, settle)
            (write_row-Recorded r.id (fault_status max r f) _ _ s.ledger s.table
              (inl (fault_status-completed max r f)) h)
      | inr n ↦ rw (n, settle) h
    ]

conclude_attempt-IsRecorded :
    (env : Env) (max now : ℕ) (r : OutboxRecord) (a : Attempt) (s : Batch)
    → IsRecorded s
    → IsRecorded (conclude_attempt env max now r a s)
unfolding conclude_attempt
conclude_attempt-IsRecorded env max now r (failed f) s h = settle-IsRecorded env max now r f s h
conclude_attempt-IsRecorded env max now r (anchored tx) s h =
    let later = Recorded-later r.id s.ledger s.table h in
    elim (Bool-cases (env.updates r.id completed)) [
      | inl y ↦
          rw (y, conclude_attempt)
            (write_row-Recorded r.id completed (some tx) none (r.id ∷ s.ledger) s.table
              (inr (here refl)) later)
      | inr n ↦
          rw (n, conclude_attempt)
            (settle-IsRecorded env max now r update_failed (recorded r s) later)
    ]

if-IsRecorded :
    (c : Bool) (s t : Batch) → IsRecorded s → IsRecorded t → IsRecorded (if c then s else t)
if-IsRecorded true s t h k = h
if-IsRecorded false s t h k = k

process_records-IsRecorded :
    (env : Env) (max now : ℕ) (rs : List OutboxRecord) (s : Batch)
    → IsRecorded s
    → IsRecorded (process_records env max now rs s)
unfolding process_records process_record
process_records-IsRecorded env max now [] s h = h
process_records-IsRecorded env max now (r ∷ rs) s h =
    let next : Batch = conclude_attempt env max now r (attempt env r) s in
    let kept = conclude_attempt-IsRecorded env max now r (attempt env r) s h in
    if-IsRecorded next.is_aborted next (process_records env max now rs next) kept
      (process_records-IsRecorded env max now rs next kept)

claim_table-Recorded :
    (size now : ℕ) (ledger : List String) (rs : List OutboxRecord)
    → All (Recorded ledger) rs
    → All (Recorded ledger) (claim_table size now rs)
unfolding claim_table
claim_table-Recorded size now ledger [] h = h
claim_table-Recorded zero now ledger (r ∷ rs) h = h
claim_table-Recorded (suc n) now ledger (r ∷ rs) (h, k) = elim (Bool-cases (claimable now r)) [
  | inl y ↦ rw y (inl refl, claim_table-Recorded n now ledger rs k)
  | inr x ↦ rw x (h, claim_table-Recorded (suc n) now ledger rs k)
]

-- If every COMPLETED row has its record on the ledger, so it is after a batch, whatever fails on the
-- way.
pub process_batch-IsRecorded :
    (env : Env) (size max now : ℕ) (table : List OutboxRecord) (ledger : List String)
    → All (Recorded ledger) table
    → IsRecorded (process_batch env size max now table ledger)
unfolding process_batch
process_batch-IsRecorded env size max now table ledger h =
    if-IsRecorded env.claims
      (process_records env max now (claim_rows size now table)
        (start (claim_table size now table) ledger))
      (start table ledger)
      (process_records-IsRecorded env max now (claim_rows size now table)
        (start (claim_table size now table) ledger) (claim_table-Recorded size now ledger table h))
      h
