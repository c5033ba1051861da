-- ===== src/Canonical/Reordered.antt =====
-- The canonical form does not depend on the order of the keys.
use tpsr_v.Prelude.{◌≡◌, ◌≢◌, refl, ap, ◌∙◌, ℕ, suc, String, Option, none, some, arith}
use tpsr_v.Canonical.{
  Value, array, object, Items, nil, item, Fields, end, field, Host, add_field, canonicalize_value,
  canonicalize_items, canonicalize_fields, parsed, is_structured, canonicalize_parsed,
  canonicalize_sbom,
}
use tpsr_v.Canonical.Sorted.{IsOrder, insert_comm}

-- The same value, but for the order of the keys at any depth.
mutual
  pub data Reordered : Value → Value → Type 0 where
    same : {v : Value} → Reordered v v
    arrays : {xs ys : Items} → ReorderedItems xs ys → Reordered (array xs) (array ys)
    objects : {fs gs : Fields} → ReorderedFields fs gs → Reordered (object fs) (object gs)

  pub data ReorderedItems : Items → Items → Type 0 where
    none_left : ReorderedItems nil nil
    items :
        {v w : Value} {xs ys : Items}
        → Reordered v w
        → ReorderedItems xs ys
        → ReorderedItems (item v xs) (item w ys)

  pub data ReorderedFields : Fields → Fields → Type 0 where
    at_end : ReorderedFields end end
    keep :
        {k : String} {v w : Value} {fs gs : Fields}
        → Reordered v w
        → ReorderedFields fs gs
        → ReorderedFields (field k v fs) (field k w gs)
    swap :
        {j k : String} {v w : Value} {fs : Fields}
        → j ≢ k
        → ReorderedFields (field j v (field k w fs)) (field k w (field j v fs))
    after :
        {fs gs hs : Fields} → ReorderedFields fs gs → ReorderedFields gs hs → ReorderedFields fs hs

swap_fields :
    (h : Host) (o : IsOrder h.le) (j k : String) (v w : Value) (fs : Fields)
    → j ≢ k
    → canonicalize_fields h (field j v (field k w fs))
      ≡ canonicalize_fields h (field k w (field j v fs))
unfolding canonicalize_fields
swap_fields h o j k v w fs ne =
    combine (canonicalize_value h j v) (canonicalize_value h k w) (canonicalize_fields h fs)
  where
    combine :
        (a b : Option Value) (c : Option Fields)
        → add_field h j a (add_field h k b c) ≡ add_field h k b (add_field h j a c)
    combine none none c = refl
    combine none (some y) none = refl
    combine none (some y) (some gs) = refl
    combine (some x) none none = refl
    combine (some x) none (some gs) = refl
    combine (some x) (some y) none = refl
    combine (some x) (some y) (some gs) = ap some (insert_comm h o j k x y gs ne)

mutual
  unfolding canonicalize_value canonicalize_items canonicalize_fields

  value-Reordered :
      (h : Host) (o : IsOrder h.le) (key : String) {v w : Value}
      → Reordered v w
      → canonicalize_value h key v ≡ canonicalize_value h key w
  value-Reordered h o key same = refl
  value-Reordered h o key (arrays r) = ground (arith, items-Reordered h o 0 r)
  value-Reordered h o key (objects r) = ground (arith, fields-Reordered h o r)

  items-Reordered :
      (h : Host) (o : IsOrder h.le) (i : ℕ) {xs ys : Items}
      → ReorderedItems xs ys
      → canonicalize_items h i xs ≡ canonicalize_items h i ys
  items-Reordered h o i none_left = refl
  items-Reordered h o i (items r rs) =
      ground (arith, value-Reordered h o (h.index_text i) r, items-Reordered h o (suc i) rs)

  fields-Reordered :
      (h : Host) (o : IsOrder h.le) {fs gs : Fields}
      → ReorderedFields fs gs
      → canonicalize_fields h fs ≡ canonicalize_fields h gs
  fields-Reordered h o at_end = refl
  fields-Reordered h o (keep {k} r rs) =
      ground (arith, value-Reordered h o k r, fields-Reordered h o rs)
  fields-Reordered h o (swap {j} {k} {v} {w} {fs} ne) = swap_fields h o j k v w fs ne
  fields-Reordered h o (after r s) = fields-Reordered h o r ∙ fields-Reordered h o s

is_structured-Reordered : {v w : Value} → Reordered v w → is_structured v ≡ is_structured w
is_structured-Reordered same = refl
is_structured-Reordered (arrays r) = refl
is_structured-Reordered (objects r) = refl

-- Two SBOMs that differ only in the order of the keys of their objects, at any depth, have one canonical
-- form, and with it one hash.
pub canonicalize_sbom-Reordered :
    (h : Host) (o : IsOrder h.le) (parse : String → Option Value) (stringify : Value → String)
    {v w : Value}
    → Reordered v w
    → canonicalize_sbom h parse stringify (parsed v)
      ≡ canonicalize_sbom h parse stringify (parsed w)
unfolding canonicalize_sbom canonicalize_parsed
canonicalize_sbom-Reordered h o parse stringify {v} {w} r =
    ground (arith, is_structured-Reordered r, value-Reordered h o "" r)
