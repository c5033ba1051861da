-- ===== src/Exceptions/Store.antt =====
-- What the inserts and updates do to the row that is stored under an id.
use tpsr_v.Prelude.{
  ◌≡◌, refl, sym, ap, ◌∙◌, ◌⊎◌, inl, inr, String, Bool, true, false, ◌&&◌, Option, none, some, List,
  [], ◌∷◌, ◌++◌, text_eq, text_eq_iff, includes, Bool-cases, Option-cases, arith, if◌then◌else◌,
}
use tpsr_v.Governance.{ExceptionRequest}
use tpsr_v.Exceptions.{
  RowStatus, active, same_row_status, Row, row_of, new_row, insert_row, Change, approve_by,
  reject_by, revoke_by, supersede_by, applied, update_rows, expired_row, mark_expired,
}

pub same_row_status_eq : (s t : RowStatus) → same_row_status s t ≡ true → s ≡ t
same_row_status_eq s t h = ground arith

pub same_row_status_refl : (s : RowStatus) → same_row_status s s ≡ true
same_row_status_refl s = ground arith

abbrev pub map_row : (Row → Row) → Option Row → Option Row
map_row f none = none
map_row f (some r) = some (f r)

id-applied : (c : Change) (r : Row) → (applied c r).id ≡ r.id
id-applied (approve_by who role a) r = ground arith
id-applied (reject_by who role) r = ground arith
id-applied (revoke_by who why) r = ground arith
id-applied (supersede_by new) r = ground arith

pub request-applied : (c : Change) (r : Row) → (applied c r).request ≡ r.request
request-applied (approve_by who role a) r = ground arith
request-applied (reject_by who role) r = ground arith
request-applied (revoke_by who why) r = ground arith
request-applied (supersede_by new) r = ground arith

row_of-choice :
    (b : Bool) (x y : Row) (rs : List Row) (j : String)
    → x.id ≡ y.id
    → row_of ((if b then x else y) ∷ rs) j
      ≡ (let rest = row_of rs j in if text_eq y.id j then some (if b then x else y) else rest)
row_of-choice true x y rs j e = rw e
row_of-choice false x y rs j e = refl

-- An update reaches the row under its id, and that one only.
pub row_of-update :
    (c : Change) (id j : String) (rows : List Row)
    → row_of (update_rows c id rows) j
      ≡ (if text_eq id j then map_row (applied c) (row_of rows j) else row_of rows j)
unfolding update_rows
row_of-update c id j [] = ground arith
row_of-update c id j (r ∷ rs) =
    row_of-choice (text_eq r.id id) (applied c r) r _ j (id-applied c r)
    ∙ ground
        (arith, row_of-update c id j rs, text_eq_iff r.id id, text_eq_iff id j, text_eq_iff r.id j)

abbrev pub marked : List String → Row → Row
marked ids r = if includes ids r.id && same_row_status r.status active then expired_row r else r

pub row_of-mark :
    (ids : List String) (j : String) (rows : List Row)
    → row_of (mark_expired ids rows) j ≡ map_row (marked ids) (row_of rows j)
unfolding mark_expired
row_of-mark ids j [] = refl
row_of-mark ids j (r ∷ rs) =
    row_of-choice (includes ids r.id && same_row_status r.status active) (expired_row r) r _ j refl
    ∙ ground (arith, row_of-mark ids j rs)

pub row_of-append :
    (rows : List Row) (r : Row) (j : String)
    → row_of (rows ++ r ∷ []) j
      ≡ elim (row_of rows j) [ none ↦ if text_eq r.id j then some r else none | some x ↦ some x ]
row_of-append [] r j = refl
row_of-append (x ∷ rows) r j = ground (arith, row_of-append rows r j)

-- An insert adds the row under an id that was free, and changes no other.
pub row_of-insert :
    (id j : String) (e : ExceptionRequest) (rows : List Row) {rows' : List Row}
    → insert_row id e rows ≡ some rows'
    → (row_of rows' j ≡ row_of rows j)
      ⊎ (row_of rows j ≡ none) × (row_of rows' j ≡ some (new_row id e))
unfolding insert_row
row_of-insert id j e rows {rows'} h = elim (Option-cases (row_of rows id)) [
  | inl free ↦
      let q : rows ++ new_row id e ∷ [] ≡ rows' = ground arith in
      elim (Option-cases (row_of rows j)) [
        | inl n ↦ elim (Bool-cases (text_eq (new_row id e).id j)) [
          | inl y ↦ inr (
            n,
            sym (ap (λ x. row_of x j) q) ∙ ground (arith, row_of-append rows (new_row id e) j),
          )
          | inr y ↦
              inl
                (sym (ap (λ x. row_of x j) q) ∙ ground (arith, row_of-append rows (new_row id e) j))
        ]
        | inr (r, k) ↦
            inl (sym (ap (λ x. row_of x j) q) ∙ ground (arith, row_of-append rows (new_row id e) j))
      ]
  | inr (r, k) ↦ absurd (ground arith)
]
