-- ===== src/Canonical/Tests.antt =====
-- Concrete canonical forms.
use tpsr_v.Prelude.{
  ◌≡◌, ◌≢◌, refl, String, Option, none, some, text_eq, trim, ◌||◌, ◌==◌, if-holds, eq_iff, subst,
  arith, if◌then◌else◌,
}
use mathlib.Core.Bool.{false≢true}
use mathlib.Core.Option.{some-injective}
use tpsr_v.Canonical.{
  Value, number, text, array, object, nil, item, Fields, end, field, unsupported, Host, insert,
  canonical_text, is_timestamp_key, canonicalize_parsed, canonicalize_value, canonicalize_sbom,
  canonical, invalid, unsupported_type, raw, parsed,
}
use tpsr_v.Canonical.TextOrder.{text_le, text_le-IsOrder}
use tpsr_v.Canonical.Trimmed.{IsStable}
use tpsr_v.Canonical.Idempotent.{canonicalize_value_twice}
use tpsr_v.Canonical.Reordered.{
  objects, arrays, items, none_left, swap, canonicalize_sbom-Reordered,
}

unfoldable iso : String → Option String
iso s =
    if text_eq s "2024-01-01" || text_eq s "2024-01-01T00:00:00.000Z"
    then some "2024-01-01T00:00:00.000Z"
    else none

-- What is true of its one answer is true of every answer.
iso-holds :
    (P : String → Type 0) → P "2024-01-01T00:00:00.000Z" → (s d : String) → iso s ≡ some d → P d
unfolding iso
iso-holds P p s =
    if-holds (λ (o : Option String). (d : String) → o ≡ some d → P d)
      (text_eq s "2024-01-01" || text_eq s "2024-01-01T00:00:00.000Z")
      (some "2024-01-01T00:00:00.000Z") none (λ d e. subst P (some-injective _ _ e) p)
      (λ d e. ground (arith, e))

iso-IsStable : IsStable iso
unfolding iso text_eq trim
iso-IsStable = record {
  trimmed = iso-holds (λ d. trim d ≡ d) refl;
  stable = iso-holds (λ d. iso d ≡ some d) refl;
}

abbrev host : Host
host = record {
  index_text = λ i. if i == 0 then "0" else "1";
  ends_with_timestamp = λ k. text_eq k "buildTimestamp";
  iso_date = iso;
  le = text_le;
}

-- { timestamp: ' 2024-01-01 ', name: ' b ' } as the only element of an array
abbrev component : Fields
component = field "timestamp" (text " 2024-01-01 ") (field "name" (text " b ") end)

abbrev component_form : Fields
component_form = field "name" (text "b") (field "timestamp" (text "2024-01-01T00:00:00.000Z") end)

abbrev sbom : Value
sbom = array (item (object component) nil)

abbrev sbom_form : Value
sbom_form = array (item (object component_form) nil)

form_run : canonicalize_value host "" sbom ≡ some sbom_form
unfolding canonicalize_value insert text_le canonical_text is_timestamp_key text_eq trim iso
form_run = refl

canonicalize_value_twice_example : canonicalize_value host "" sbom_form ≡ some sbom_form
canonicalize_value_twice_example =
    canonicalize_value_twice host text_le-IsOrder iso-IsStable "" sbom sbom_form form_run

abbrev component_reordered : Fields
component_reordered = field "name" (text " b ") (field "timestamp" (text " 2024-01-01 ") end)

abbrev parse : String → Option Value
parse s = if text_eq s "[]" then some (array nil) else none

abbrev stringify : Value → String
stringify (array nil) = "[]"
stringify v = "…"

keys_differ : ◌≢◌ {A = String} "timestamp" "name"
keys_differ e = false≢true ((eq_iff "timestamp" "name").1 e)

canonicalize_sbom-Reordered_example :
    canonicalize_sbom host parse stringify (parsed sbom)
    ≡ canonicalize_sbom host parse stringify
        (parsed (array (item (object component_reordered) nil)))
canonicalize_sbom-Reordered_example =
    canonicalize_sbom-Reordered host text_le-IsOrder parse stringify
      (arrays (items (objects (swap keys_differ)) none_left))

empty_run : canonicalize_sbom host parse stringify (raw " [] ") ≡ canonical "[]"
unfolding canonicalize_sbom canonicalize_parsed canonicalize_value text_eq trim
empty_run = refl

invalid_run : canonicalize_sbom host parse stringify (raw "{") ≡ invalid
unfolding canonicalize_sbom canonicalize_parsed canonicalize_value text_eq trim
invalid_run = refl

number_run : canonicalize_sbom host parse stringify (parsed (number "1")) ≡ invalid
unfolding canonicalize_sbom canonicalize_parsed canonicalize_value text_eq trim
number_run = refl

unsupported_run :
    canonicalize_sbom host parse stringify (parsed (object (field "f" unsupported end)))
    ≡ unsupported_type
unfolding canonicalize_sbom canonicalize_parsed canonicalize_value text_eq trim
unsupported_run = refl
