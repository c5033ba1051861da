-- ===== src/Canonical/Idempotent.antt =====
-- The canonical form of a canonical form is that form.
use tpsr_v.Prelude.{
  ◌≡◌, refl, ap, ℕ, suc, String, true, Option, none, some, Bool-cases, Option-cases, inl, inr,
  arith, subst,
}
use mathlib.Core.Option.{some-injective}
use tpsr_v.Canonical.{
  Value, null, bool, number, text, array, object, unsupported, Items, nil, item, Fields, end, field,
  Host, insert, add_field, canonicalize_value, canonicalize_items, canonicalize_fields,
}
use tpsr_v.Canonical.Sorted.{IsOrder}
use tpsr_v.Canonical.Trimmed.{IsStable, canonical_text_twice}

module _ (h : Host) (o : IsOrder h.le) where
  abbrev IsSorted : Fields → Type 0
  IsSorted end = Unit {0}
  IsSorted (field k v end) = Unit {0}
  IsSorted (field k v (field j w fs)) = (h.le k j ≡ true) × IsSorted (field j w fs)

  -- Each value is its own form.
  abbrev AreFixed : Fields → Type 0
  AreFixed end = Unit {0}
  AreFixed (field k v fs) = (canonicalize_value h k v ≡ some v) × AreFixed fs

  insert-AreFixed :
      (k : String) (v : Value) (fs : Fields)
      → canonicalize_value h k v ≡ some v
      → AreFixed fs
      → AreFixed (insert h k v fs)
  unfolding insert
  insert-AreFixed k v end e f = (e, tt)
  insert-AreFixed k v (field j w fs) e (g, f) = elim (Bool-cases (h.le k j)) [
    | inl y ↦ rw y (e, (g, f))
    | inr n ↦ rw n (g, insert-AreFixed k v fs e f)
  ]

  insert-IsSorted :
      (k : String) (v : Value) (fs : Fields) → IsSorted fs → IsSorted (insert h k v fs)
  unfolding insert
  insert-IsSorted k v end s = tt
  insert-IsSorted k v (field j w end) s = elim (Bool-cases (h.le k j)) [
    | inl y ↦ rw y (y, tt)
    | inr n ↦ rw n (o.total k j n, tt)
  ]
  insert-IsSorted k v (field j w (field i u fs)) (a, s) = elim (Bool-cases (h.le k j)) [
    | inl y ↦ rw y (y, (a, s))
    | inr n ↦ elim (Bool-cases (h.le k i)) [
      | inl z ↦ rw (n, z) (o.total k j n, (z, s))
      | inr m ↦ rw (n, m) (a, rw m at (insert-IsSorted k v (field i u fs) s))
    ]
  ]

  -- A sorted list of fixed fields is its own form.
  sorted_fixed : (fs : Fields) → IsSorted fs → AreFixed fs → canonicalize_fields h fs ≡ some fs
  unfolding canonicalize_fields insert
  sorted_fixed end s f = refl
  sorted_fixed (field k v end) s (e, f) = ground arith
  sorted_fixed (field k v (field j w fs)) (a, s) (e, f) =
      ground (arith, sorted_fixed (field j w fs) s f)

  add_field-AreFixed :
      (k : String) (a : Option Value) (b : Option Fields) {gs : Fields}
      → ((w : Value) → a ≡ some w → canonicalize_value h k w ≡ some w)
      → ((fs : Fields) → b ≡ some fs → AreFixed fs × IsSorted fs)
      → add_field h k a b ≡ some gs
      → AreFixed gs × IsSorted gs
  add_field-AreFixed k none b f g e = ground (arith, e)
  add_field-AreFixed k (some w) none f g e = ground (arith, e)
  add_field-AreFixed k (some w) (some fs) f g e =
      subst (λ x. AreFixed x × IsSorted x) (some-injective _ _ e)
        (insert-AreFixed k w fs (f w refl) (g fs refl).0, insert-IsSorted k w fs (g fs refl).1)

module _ (h : Host) (o : IsOrder h.le) (i : IsStable h.iso_date) where
  mutual
    unfolding canonicalize_value canonicalize_items canonicalize_fields

    value_fixed :
        (key : String) (v w : Value)
        → canonicalize_value h key v ≡ some w
        → canonicalize_value h key w ≡ some w
    value_fixed key null w e =
        subst (λ x. canonicalize_value h key x ≡ some x) (some-injective _ _ e) refl
    value_fixed key (bool b) w e = ground (arith, e)
    value_fixed key (number n) w e = cc
    value_fixed key (text s) w e =
        subst (λ x. canonicalize_value h key x ≡ some x) (some-injective _ _ e)
          (ap (λ t. some (text t)) (canonical_text_twice h i key s))
    value_fixed key (array xs) w e = elim (Option-cases (canonicalize_items h 0 xs)) [
      | inl n ↦ ground (arith, n, e)
      | inr (ys, m) ↦ ground (arith, e, m, items_fixed 0 xs ys m)
    ]
    value_fixed key (object fs) w e = elim (Option-cases (canonicalize_fields h fs)) [
      | inl n ↦ ground (arith, n, e)
      | inr (gs, m) ↦
          ground
            (arith, e, m, sorted_fixed h o gs (fields_fixed fs gs m).1 (fields_fixed fs gs m).0)
    ]
    value_fixed key unsupported w e = ground (arith, e)

    items_fixed :
        (n : ℕ) (xs ys : Items)
        → canonicalize_items h n xs ≡ some ys
        → canonicalize_items h n ys ≡ some ys
    items_fixed n nil ys e = ground (arith, e)
    items_fixed n (item v xs) ys e = elim (Option-cases (canonicalize_value h (h.index_text n) v)) [
      | inl m ↦ ground (arith, m, e)
      | inr (w, m) ↦ elim (Option-cases (canonicalize_items h (suc n) xs)) [
        | inl k ↦ ground (arith, m, k, e)
        | inr (zs, k) ↦
            ground (arith, m, k, e, value_fixed (h.index_text n) v w m, items_fixed (suc n) xs zs k)
      ]
    ]

    fields_fixed :
        (fs gs : Fields) → canonicalize_fields h fs ≡ some gs → AreFixed h o gs × IsSorted h o gs
    fields_fixed end gs e =
        subst (λ x. AreFixed h o x × IsSorted h o x) (some-injective _ _ e) (tt, tt)
    fields_fixed (field k v fs) gs e =
        add_field-AreFixed h o k (canonicalize_value h k v) (canonicalize_fields h fs)
          (λ w. value_fixed k v w) (λ hs. fields_fixed fs hs) e

-- A canonical form, with texts trimmed, dates in their ISO form and keys in order, is the canonical form of
-- itself: to take the form again changes nothing. It assumes an order of keys and that the ISO form of a
-- date is trimmed and its own ISO form.
pub canonicalize_value_twice :
    (h : Host) (o : IsOrder h.le) (i : IsStable h.iso_date) (key : String) (v w : Value)
    → canonicalize_value h key v ≡ some w
    → canonicalize_value h key w ≡ some w
canonicalize_value_twice h o i key v w e = value_fixed h o i key v w e
