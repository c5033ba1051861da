-- ===== src/Lifecycle/Routes/Store.antt =====
-- What a commit of a route does to the documents and to the ledger.
use tpsr_v.Prelude.{
  ◌≡◌, refl, sym, ap, ◌∙◌, ◌⊎◌, inl, inr, ℕ, String, true, false, Option, none, some, List, [], ◌∷◌,
  text_eq, text_eq_iff, Bool-cases, Option-cases, find, arith, if◌then◌else◌, ◌==◌,
}
use tpsr_v.Lifecycle.{
  Status, registered, review_pending, security_reviewed, compliant, approved, active, superseded,
  rejected, status_index, same_status, Document, Call, target, World, Env, has_id, document_of,
  update_status, commit,
}

of_index : ℕ → Status
of_index n =
    if n == 0
    then registered
    else if n == 1
    then review_pending
    else if n == 2
    then security_reviewed
    else if n == 3
    then compliant
    else if n == 4
    then approved
    else if n == 5
    then active
    else if n == 6
    then superseded
    else rejected

of_index-status_index : (s : Status) → of_index (status_index s) ≡ s
unfolding of_index status_index
of_index-status_index registered = refl
of_index-status_index review_pending = refl
of_index-status_index security_reviewed = refl
of_index-status_index compliant = refl
of_index-status_index approved = refl
of_index-status_index active = refl
of_index-status_index superseded = refl
of_index-status_index rejected = refl

index_eq : (s t : Status) → same_status s t ≡ true → status_index s ≡ status_index t
unfolding same_status
index_eq s t h = ground arith

pub same_status_eq : (s t : Status) → same_status s t ≡ true → s ≡ t
same_status_eq s t h =
    sym (of_index-status_index s) ∙ ap of_index (index_eq s t h) ∙ of_index-status_index t

-- The status of the first row with an id.
abbrev pub status_in : List Document → String → Option Status
status_in [] j = none
status_in (d ∷ ds) j =
    let rest = status_in ds j in if text_eq d.sbom_id j then some d.status else rest

abbrev pub status_of : World → String → Option Status
status_of w j = status_in w.documents j

status_in-update :
    (id j : String) (s : Status) (tx who : Option String) (ds : List Document)
    → text_eq id j ≡ false
    → status_in (update_status id s tx who ds) j ≡ status_in ds j
unfolding update_status
status_in-update id j s tx who [] h = refl
status_in-update id j s tx who (d ∷ ds) h = ground (
  arith,
  status_in-update id j s tx who ds h,
  text_eq_iff d.sbom_id id,
  text_eq_iff id j,
  text_eq_iff d.sbom_id j,
)

-- A row with the id gets the new status, and none appears.
status_in-update_none :
    (id : String) (s : Status) (tx who : Option String) (ds : List Document)
    → status_in ds id ≡ none
    → status_in (update_status id s tx who ds) id ≡ none
unfolding update_status
status_in-update_none id s tx who [] e = refl
status_in-update_none id s tx who (d ∷ ds) e = ground (arith, status_in-update_none id s tx who ds)

status_in-update_some :
    (id : String) (s : Status) (tx who : Option String) (ds : List Document) {r : Status}
    → status_in ds id ≡ some r
    → status_in (update_status id s tx who ds) id ≡ some s
unfolding update_status
status_in-update_some id s tx who [] e = cc
status_in-update_some id s tx who (d ∷ ds) {r} e =
    ground (arith, λ (k : status_in ds id ≡ some r). status_in-update_some id s tx who ds k)

-- A commit leaves the status of the other documents.
pub status_of-commit_other :
    (env : Env) (call : Call) (id j : String) (who : Option String) (w : World)
    → text_eq id j ≡ false
    → status_of (commit env call id who w).0 j ≡ status_of w j
unfolding commit
status_of-commit_other env call id j who w h = ground (
  arith,
  status_in-update id j (target call) (some (env.transaction_id call id)) who w.documents h,
)

-- It leaves the status of its own document, or writes the target of the transaction over another one.
pub status_of-commit_own :
    (env : Env) (call : Call) (id : String) (who : Option String) (w : World)
    → (status_of (commit env call id who w).0 id ≡ status_of w id)
      ⊎ (s : Status) × (status_of w id ≡ some s)
        × (status_of (commit env call id who w).0 id ≡ some (target call))
unfolding commit
status_of-commit_own env call id who w = elim (Option-cases (status_of w id)) [
  | inl e ↦ inl (
      ground (
        arith,
        status_in-update_none id (target call) (some (env.transaction_id call id)) who w.documents
            e,
      ))
  | inr (s, e) ↦ elim (Bool-cases (env.accepts call id)) [
    | inl a ↦ elim (Bool-cases (env.updates id (target call))) [
      | inl u ↦ inr (
        s,
        e,
        ground (
          arith,
          status_in-update_some id (target call) (some (env.transaction_id call id)) who w.documents
              e,
        ),
      )
      | inr u ↦ inl (ground arith)
    ]
    | inr a ↦ inl (ground arith)
  ]
]

-- Where both steps are done, the document has the status that was written.
pub status_of-committed :
    (env : Env) (call : Call) (id : String) (who : Option String) (w : World) {s : Status}
    → status_of w id ≡ some s
    → (commit env call id who w).1 ≡ true
    → status_of (commit env call id who w).0 id ≡ some (target call)
unfolding commit
status_of-committed env call id who w {s} e h = ground (
  arith,
  status_in-update_some id (target call) (some (env.transaction_id call id)) who w.documents e,
)

-- What `with_document` hands on is the first row with the id.
abbrev status_part : Option Document → Option Status
status_part none = none
status_part (some d) = some d.status

status_in-find :
    (id : String) (ds : List Document) {d : Document}
    → find (has_id id) ds ≡ some d
    → status_in ds id ≡ some d.status
status_in-find id [] e = cc
status_in-find id (x ∷ xs) {d} e = elim (Bool-cases (text_eq x.sbom_id id)) [
  | inl y ↦ ground (arith, ap status_part e)
  | inr n ↦ ground (arith, status_in-find id xs {d = d} (ground arith))
]

pub status_of-document :
    (w : World) (id : String) {d : Document}
    → document_of w id ≡ some d
    → status_of w id ≡ some d.status
unfolding document_of
status_of-document w id e = status_in-find id w.documents e
