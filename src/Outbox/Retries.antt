-- ===== src/Outbox/Retries.antt =====
-- How often the worker retries a record.
use tpsr_v.Prelude.{
  ◌≡◌, ◌≢◌, refl, sym, ◌⊎◌, inl, inr, ◌<◌, ◌+◌, ℕ, zero, suc, String, Bool, true, false, Option,
  none, some, List, [], ◌∷◌, All, arith, Bool-cases, text_eq, text_eq_iff, if◌then◌else◌, leb,
}
use tpsr_v.Outbox.{
  OutboxRecord, OutboxStatus, completed, failed_requires_review, Env, Batch, Fault, update_failed,
  Attempt, anchored, failed, attempt, fault_status, settle, recorded, process_record,
  conclude_attempt, process_records, process_batch, claim_rows, claim_table, claimable, claimed,
  requeued, start, write_row, is_retrying,
}

-- A row that waits for a retry has been claimed fewer than `max - 1` times.
abbrev pub Bounded : ℕ → OutboxRecord → Type 0
Bounded max x = (is_retrying x.status ≡ false) ⊎ (x.retry_count + 1 < max)

-- The ids are the primary key of the table.
abbrev pub Unique : List OutboxRecord → Type 0
Unique [] = Unit
Unique (r ∷ rs) = All (λ x. x.id ≢ r.id) rs × Unique rs

-- A claimed record and the row of the table with its id agree on the number of claims.
abbrev Matches : OutboxRecord → OutboxRecord → Type 0
Matches r x = x.id ≡ r.id → x.retry_count ≡ r.retry_count

abbrev Agrees : List OutboxRecord → List OutboxRecord → Type 0
Agrees rs table = All (λ r. All (Matches r) table) rs

write_row-Matches :
    (r : OutboxRecord) (id : String) (st : OutboxStatus) (tx : Option String) (next : Option ℕ)
    (rs : List OutboxRecord)
    → All (Matches r) rs
    → All (Matches r) (write_row id st tx next rs)
unfolding write_row
write_row-Matches r id st tx next [] h = h
write_row-Matches r id st tx next (x ∷ xs) (h, k) = (
  elim (Bool-cases (text_eq x.id id)) [ inl y ↦ rw y h | inr n ↦ rw n h ],
  write_row-Matches r id st tx next xs k,
)

write_row-Agrees :
    (rs : List OutboxRecord) (id : String) (st : OutboxStatus) (tx : Option String)
    (next : Option ℕ) (table : List OutboxRecord)
    → Agrees rs table
    → Agrees rs (write_row id st tx next table)
write_row-Agrees [] id st tx next table h = h
write_row-Agrees (r ∷ rs) id st tx next table (h, k) =
    (write_row-Matches r id st tx next table h, write_row-Agrees rs id st tx next table k)

write_row-Bounded :
    (max : ℕ) (r : OutboxRecord) (st : OutboxStatus) (tx : Option String) (next : Option ℕ)
    (rs : List OutboxRecord)
    → (is_retrying st ≡ false) ⊎ (r.retry_count + 1 < max)
    → All (Matches r) rs
    → All (Bounded max) rs
    → All (Bounded max) (write_row r.id st tx next rs)
unfolding write_row
write_row-Bounded max r st tx next [] c m h = h
write_row-Bounded max r st tx next (x ∷ xs) c (m, ms) (h, k) = (
  elim (Bool-cases (text_eq x.id r.id)) [
    | inl y ↦
        rw y (elim c [
          | inl e ↦ inl e
          | inr l ↦ inr (omega (arith, l, m ((text_eq_iff x.id r.id).0 y)))
        ])
    | inr n ↦ rw n h
  ],
  write_row-Bounded max r st tx next xs c ms k,
)

fault_status-bounded :
    (max : ℕ) (r : OutboxRecord) (f : Fault)
    → (is_retrying (fault_status max r f) ≡ false) ⊎ (r.retry_count + 1 < max)
unfolding fault_status
fault_status-bounded max r f = elim (Bool-cases (leb max (r.retry_count + 1))) [
  | inl y ↦ inl (ground arith)
  | inr n ↦ inr (ground arith)
]

-- What a round keeps, for the records that are left.
abbrev Kept : ℕ → List OutboxRecord → Batch → Type 0
Kept max rs s = Agrees rs s.table × All (Bounded max) s.table

settle-Kept :
    (env : Env) (max now : ℕ) (r : OutboxRecord) (rs : List OutboxRecord) (f : Fault) (s : Batch)
    → Kept max (r ∷ rs) s
    → Kept max rs (settle env max now r f s)
unfolding settle
settle-Kept env max now r rs f s ((m, a), b) =
    elim (Bool-cases (env.updates r.id (fault_status max r f))) [
      | inl y ↦
          rw (y, settle)
            (
              write_row-Agrees rs r.id (fault_status max r f) _ _ s.table a,
              write_row-Bounded max r (fault_status max r f) _ _ s.table
                  (fault_status-bounded max r f) m b,
            )
      | inr n ↦ rw (n, settle) (a, b)
    ]

conclude_attempt-Kept :
    (env : Env) (max now : ℕ) (r : OutboxRecord) (rs : List OutboxRecord) (o : Attempt) (s : Batch)
    → Kept max (r ∷ rs) s
    → Kept max rs (conclude_attempt env max now r o s)
unfolding conclude_attempt
conclude_attempt-Kept env max now r rs (failed f) s h = settle-Kept env max now r rs f s h
conclude_attempt-Kept env max now r rs (anchored tx) s ((m, a), b) =
    elim (Bool-cases (env.updates r.id completed)) [
      | inl y ↦
          rw (y, conclude_attempt)
            (
              write_row-Agrees rs r.id completed (some tx) none s.table a,
              write_row-Bounded max r completed (some tx) none s.table (inl refl) m b,
            )
      | inr n ↦
          rw (n, conclude_attempt)
            (settle-Kept env max now r rs update_failed (recorded r s) ((m, a), b))
    ]

if-Bounded :
    (max : ℕ) (c : Bool) (s t : Batch)
    → All (Bounded max) s.table
    → All (Bounded max) t.table
    → All (Bounded max) (if c then s else t).table
if-Bounded max true s t h k = h
if-Bounded max false s t h k = k

process_records-Bounded :
    (env : Env) (max now : ℕ) (rs : List OutboxRecord) (s : Batch)
    → Kept max rs s
    → All (Bounded max) (process_records env max now rs s).table
unfolding process_records process_record
process_records-Bounded env max now [] s h = h.1
process_records-Bounded env max now (r ∷ rs) s h =
    let next : Batch = conclude_attempt env max now r (attempt env r) s in
    let kept = conclude_attempt-Kept env max now r rs (attempt env r) s h in
    if-Bounded max next.is_aborted next (process_records env max now rs next) kept.1
      (process_records-Bounded env max now rs next kept)

claim_table-Bounded :
    (max size now : ℕ) (rs : List OutboxRecord)
    → All (Bounded max) rs
    → All (Bounded max) (claim_table size now rs)
unfolding claim_table
claim_table-Bounded max size now [] h = h
claim_table-Bounded max zero now (r ∷ rs) h = h
claim_table-Bounded max (suc n) now (r ∷ rs) (h, k) = elim (Bool-cases (claimable now r)) [
  | inl y ↦ rw y (inl refl, claim_table-Bounded max n now rs k)
  | inr x ↦ rw x (h, claim_table-Bounded max (suc n) now rs k)
]

-- No row has this id.
abbrev Fresh : String → List OutboxRecord → Type 0
Fresh id rs = All (λ x. x.id ≢ id) rs

claim_table-Fresh :
    (id : String) (size now : ℕ) (rs : List OutboxRecord)
    → Fresh id rs
    → Fresh id (claim_table size now rs)
unfolding claim_table
claim_table-Fresh id size now [] h = h
claim_table-Fresh id zero now (r ∷ rs) h = h
claim_table-Fresh id (suc n) now (r ∷ rs) (h, k) = elim (Bool-cases (claimable now r)) [
  | inl y ↦ rw y (h, claim_table-Fresh id n now rs k)
  | inr x ↦ rw x (h, claim_table-Fresh id (suc n) now rs k)
]

claim_rows-Fresh :
    (id : String) (size now : ℕ) (rs : List OutboxRecord)
    → Fresh id rs
    → Fresh id (claim_rows size now rs)
unfolding claim_rows
claim_rows-Fresh id size now [] h = h
claim_rows-Fresh id zero now (r ∷ rs) h = tt
claim_rows-Fresh id (suc n) now (r ∷ rs) (h, k) = elim (Bool-cases (claimable now r)) [
  | inl y ↦ rw y (h, claim_rows-Fresh id n now rs k)
  | inr x ↦ rw x (claim_rows-Fresh id (suc n) now rs k)
]

Fresh-Matches : (r : OutboxRecord) (rs : List OutboxRecord) → Fresh r.id rs → All (Matches r) rs
Fresh-Matches r [] h = h
Fresh-Matches r (x ∷ xs) (h, k) = ((λ e. absurd (h e)), Fresh-Matches r xs k)

Agrees-cons :
    (x : OutboxRecord) (rs table : List OutboxRecord)
    → Fresh x.id rs
    → Agrees rs table
    → Agrees rs (x ∷ table)
Agrees-cons x [] table h a = a
Agrees-cons x (r ∷ rs) table (h, k) (m, a) =
    (((λ e. absurd (h (sym e))), m), Agrees-cons x rs table k a)

claim-Agrees :
    (size now : ℕ) (rs : List OutboxRecord)
    → Unique rs
    → Agrees (claim_rows size now rs) (claim_table size now rs)
unfolding claim_rows claim_table
claim-Agrees size now [] u = tt
claim-Agrees zero now (r ∷ rs) u = tt
claim-Agrees (suc n) now (r ∷ rs) (f, u) = elim (Bool-cases (claimable now r)) [
  | inl y ↦ rw y (
    (
      (λ e. refl),
      Fresh-Matches (claimed r) (claim_table n now rs) (claim_table-Fresh r.id n now rs f),
    ),
    Agrees-cons (claimed r) (claim_rows n now rs) (claim_table n now rs)
        (claim_rows-Fresh r.id n now rs f) (claim-Agrees n now rs u),
  )
  | inr x ↦ rw x (
      Agrees-cons r (claim_rows (suc n) now rs) (claim_table (suc n) now rs)
        (claim_rows-Fresh r.id (suc n) now rs f) (claim-Agrees (suc n) now rs u))
]

-- With the ids of the table distinct, a batch keeps the bound on the retries: a row that waits for a
-- retry has been claimed fewer than `max - 1` times.
pub process_batch-Bounded :
    (env : Env) (size max now : ℕ) (table : List OutboxRecord) (ledger : List String)
    → Unique table
    → All (Bounded max) table
    → All (Bounded max) (process_batch env size max now table ledger).table
unfolding process_batch
process_batch-Bounded env size max now table ledger u b =
    if-Bounded max env.claims
      (process_records env max now (claim_rows size now table)
        (start (claim_table size now table) ledger))
      (start table ledger)
      (process_records-Bounded env max now (claim_rows size now table)
        (start (claim_table size now table) ledger)
        (claim-Agrees size now table u, claim_table-Bounded max size now table b))
      b

-- A row that the worker has given up after `max - 1` claims gets one attempt when it is requeued: the
-- count is not reset, so any fault in its next claim sends it to review again.
pub requeued-review :
    (max now : ℕ) (r : OutboxRecord) (f : Fault)
    → max < r.retry_count + 3
    → fault_status max (claimed (requeued now r)) f ≡ failed_requires_review
unfolding fault_status
requeued-review max now r f h = ground arith
