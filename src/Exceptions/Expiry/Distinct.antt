-- ===== src/Exceptions/Expiry/Distinct.antt =====
-- The update by ids marks exactly the exceptions that are due, since the ids are distinct.
use tpsr_v.Prelude.{
  ◌≡◌, refl, sym, ap, ◌∙◌, inl, inr, ℕ, String, Bool, true, false, List, [], ◌∷◌, map, filter, In,
  here, there, text_eq, text_eq_iff, includes, is_empty, Bool-cases, arith, filter-In,
  if◌then◌else◌,
}
use tpsr_v.Exceptions.{
  Row, is_due, is_marked, expiring_before, expired_row, mark_expired, marked_rows,
}
use tpsr_v.Exceptions.Expiry.{row_id, due_ids}

-- The ids are a primary key.
abbrev pub DistinctIds : List Row → Type 0
DistinctIds [] = Unit {0}
DistinctIds (r ∷ rs) = (includes (map row_id rs) r.id ≡ false) × DistinctIds rs

-- What is to become of a row at a time.
abbrev pub expire_if_due : ℕ → Row → Row
expire_if_due now r = if is_due now r then expired_row r else r

includes-In : (r : Row) (rows : List Row) → In r rows → includes (map row_id rows) r.id ≡ true
unfolding includes
includes-In r [] m = elim m [ ]
includes-In r (x ∷ xs) (here e) = ground (arith, ap row_id e, text_eq_iff x.id r.id)
includes-In r (x ∷ xs) (there m) = ground (arith, includes-In r xs m)

In-includes :
    (id : String) (rows : List Row)
    → includes (map row_id rows) id ≡ true
    → (r : Row) × In r rows × (r.id ≡ id)
unfolding includes
In-includes id [] h = absurd (ground arith)
In-includes id (x ∷ xs) h = elim (Bool-cases (text_eq x.id id)) [
  | inl y ↦ (x, here refl, (text_eq_iff x.id id).0 y)
  | inr n ↦ let (r, m, e) = In-includes id xs (ground arith) in (r, there m, e)
]

-- Two rows with one id are one row.
In-unique :
    (r s : Row) (rows : List Row) → DistinctIds rows → In r rows → In s rows → r.id ≡ s.id → r ≡ s
In-unique r s [] d m k e = elim m [ ]
In-unique r s (x ∷ xs) d (here a) (here b) e = a ∙ sym b
In-unique r s (x ∷ xs) (n, d) (here a) (there k) e = absurd (
    ground (
      arith,
      ap row_id a,
      includes-In s xs k,
      ap (includes (map row_id xs)) (sym (ap row_id a) ∙ e),
    ))
In-unique r s (x ∷ xs) (n, d) (there m) (here b) e = absurd (
    ground (
      arith,
      ap row_id b,
      includes-In r xs m,
      ap (includes (map row_id xs)) (sym (ap row_id b) ∙ sym e),
    ))
In-unique r s (x ∷ xs) (n, d) (there m) (there k) e = In-unique r s xs d m k e

In-filter {ℓ} :
    {A : Type ℓ} (p : A → Bool) (xs : List A) {x : A} → In x xs → p x ≡ true → In x (filter p xs)
In-filter p [] m h = elim m [ ]
In-filter p (y ∷ xs) {x} (here e) h = rw (sym (ap p e) ∙ h) (here e)
In-filter p (y ∷ xs) (there m) h = elim (Bool-cases (p y)) [
  | inl t ↦ rw t (there (In-filter p xs m h))
  | inr f ↦ rw f (In-filter p xs m h)
]

-- The update by ids reaches the rows that the query found, and no other.
is_marked-due :
    (now : ℕ) (rows : List Row) (r : Row)
    → DistinctIds rows
    → In r rows
    → is_marked (due_ids now rows) r ≡ is_due now r
unfolding due_ids expiring_before
is_marked-due now rows r d m = elim (Bool-cases (is_due now r)) [
  | inl y ↦
      ground (arith, includes-In r (filter (is_due now) rows) (In-filter (is_due now) rows m y))
  | inr n ↦ elim (Bool-cases (includes (due_ids now rows) r.id)) [
    | inl i ↦
        let (s, k, e) = In-includes r.id (filter (is_due now) rows) i in
        let (k', due) = filter-In (is_due now) rows k in
        absurd (ground (arith, ap (is_due now) (In-unique r s rows d m k' (sym e))))
    | inr i ↦ ground arith
  ]
]

mark-map :
    (now : ℕ) (ids : List String) (rows : List Row)
    → ((r : Row) → In r rows → is_marked ids r ≡ is_due now r)
    → mark_expired ids rows ≡ map (expire_if_due now) rows
unfolding mark_expired
mark-map now ids [] h = refl
mark-map now ids (r ∷ rs) h =
    ap (λ (b : Bool). (if b then expired_row r else r) ∷ mark_expired ids rs) (h r (here refl))
    ∙ ap (λ xs. expire_if_due now r ∷ xs) (mark-map now ids rs (λ x m. h x (there m)))

pub mark_expired-due :
    (now : ℕ) (rows : List Row)
    → DistinctIds rows
    → mark_expired (due_ids now rows) rows ≡ map (expire_if_due now) rows
mark_expired-due now rows d =
    mark-map now (due_ids now rows) rows (λ r m. is_marked-due now rows r d m)

-- Where nothing is due, nothing changes.
pub map-undue :
    (now : ℕ) (rows : List Row)
    → is_empty (due_ids now rows) ≡ true
    → map (expire_if_due now) rows ≡ rows
unfolding due_ids expiring_before
map-undue now [] h = refl
map-undue now (r ∷ rs) h = elim (Bool-cases (is_due now r)) [
  | inl y ↦ absurd (ground arith)
  | inr n ↦
      ap (λ (b : Bool). (if b then expired_row r else r) ∷ map (expire_if_due now) rs) n
      ∙ ap (λ xs. r ∷ xs) (map-undue now rs (ground arith))
]

pub marked_rows-In :
    (now : ℕ) (rows : List Row) (r : Row)
    → In r rows
    → is_due now r ≡ true
    → In r (marked_rows (due_ids now rows) rows)
unfolding due_ids expiring_before marked_rows
marked_rows-In now rows r m h =
    In-filter (is_marked (due_ids now rows)) rows m
      (ground (arith, includes-In r (filter (is_due now) rows) (In-filter (is_due now) rows m h)))
