-- ===== src/Canonical.antt =====
-- api/src/utils/canonicalize.js: the canonical form of an SBOM, of which the hash is taken. `JSON`, the
-- dates and the text of an index are parameters, and so is the order in which `sort` puts keys. The
-- fields of an object stand in the order of `Object.keys`, with no key twice; keys that are array
-- indices, which JavaScript puts first, and `__proto__` are not told apart.
pub mod Sorted
pub mod TextOrder
pub mod Trimmed
pub mod Idempotent
pub mod Reordered
mod Tests
use tpsr_v.Prelude.{
  ℕ, zero, suc, String, Bool, true, false, ◌&&◌, ◌||◌, Option, none, some, text_eq, trim,
  if◌then◌else◌,
}

-- `unsupported` is a value that is none of JSON's, such as a function.
mutual
  pub data Value : Type 0 where
    null : Value
    bool : Bool → Value
    number : String → Value
    text : String → Value
    array : Items → Value
    object : Fields → Value
    unsupported : Value

  pub data Items : Type 0 where
    nil : Items
    item : Value → Items → Items

  pub data Fields : Type 0 where
    end : Fields
    field : String → Value → Fields → Fields

-- What the code takes from the language: `String(index)`, `key.endsWith('Timestamp')`, the ISO form of a
-- text that is a valid date, and `key <= other` in the order of `sort`.
pub record Host : Type 0 where
  pub index_text : ℕ → String
  pub ends_with_timestamp : String → Bool
  pub iso_date : String → Option String
  pub le : String → String → Bool

module _ (h : Host) where
  -- `isTimestampKey`
  unfoldable pub is_timestamp_key : String → Bool
  is_timestamp_key key = text_eq key "timestamp" || h.ends_with_timestamp key

  -- The form of a text; the key is looked at first.
  unfoldable pub canonical_text : String → String → String
  canonical_text key s =
      if is_timestamp_key key
      then elim (h.iso_date (trim s)) [ none ↦ trim s | some d ↦ d ]
      else trim s

  -- `sort` places a field before the first whose key does not come before its own.
  unfoldable pub insert : String → Value → Fields → Fields
  insert k v end = field k v end
  insert k v (field j w fs) =
      let rest = insert k v fs in if h.le k j then field k v (field j w fs) else field j w rest

  -- `result[k] = canonicalizeValue(…)`, where neither it nor what follows throws.
  abbrev pub add_field : String → Option Value → Option Fields → Option Fields
  add_field k none gs = none
  add_field k (some w) none = none
  add_field k (some w) (some gs) = some (insert k w gs)

  unfoldable mutual
    -- `canonicalizeValue`; none where it throws.
    pub canonicalize_value : String → Value → Option Value
    canonicalize_value key null = some null
    canonicalize_value key (bool b) = some (bool b)
    canonicalize_value key (number n) = some (number n)
    canonicalize_value key (text s) = some (text (canonical_text key s))
    canonicalize_value key (array xs) = elim (canonicalize_items 0 xs) [
      | none ↦ none
      | some ys ↦ some (array ys)
    ]
    canonicalize_value key (object fs) = elim (canonicalize_fields fs) [
      | none ↦ none
      | some gs ↦ some (object gs)
    ]
    canonicalize_value key unsupported = none

    -- The `map` over an array, from an index on.
    pub canonicalize_items : ℕ → Items → Option Items
    canonicalize_items i nil = some nil
    canonicalize_items i (item v xs) = elim (canonicalize_value (h.index_text i) v) [
      | none ↦ none
      | some w ↦ elim (canonicalize_items (suc i) xs) [ none ↦ none | some ys ↦ some (item w ys) ]
    ]

    -- `canonicalizeObject`
    pub canonicalize_fields : Fields → Option Fields
    canonicalize_fields end = some end
    canonicalize_fields (field k v fs) =
        add_field k (canonicalize_value k v) (canonicalize_fields fs)

-- The argument: absent, a text, or a value.
pub data Input : Type 0 where
  absent : Input
  raw : String → Input
  parsed : Value → Input

pub data Canonical : Type 0 where
  required invalid unsupported_type : Canonical
  canonical : String → Canonical

-- `!isPlainObject(parsed) && !Array.isArray(parsed)`
abbrev pub is_structured : Value → Bool
is_structured (array xs) = true
is_structured (object fs) = true
is_structured _ = false

module _ (h : Host) (parse : String → Option Value) (stringify : Value → String) where
  unfoldable pub canonicalize_parsed : Value → Canonical
  canonicalize_parsed v =
      if is_structured v
      then elim (canonicalize_value h "" v) [
        | none ↦ unsupported_type
        | some w ↦ canonical (stringify w)
      ]
      else invalid

  -- `canonicalizeSBOM`
  unfoldable pub canonicalize_sbom : Input → Canonical
  canonicalize_sbom absent = required
  canonicalize_sbom (raw s) =
      if text_eq (trim s) ""
      then required
      else elim (parse (trim s)) [ none ↦ invalid | some v ↦ canonicalize_parsed v ]
  canonicalize_sbom (parsed v) = canonicalize_parsed v
