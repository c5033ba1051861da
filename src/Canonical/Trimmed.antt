-- ===== src/Canonical/Trimmed.antt =====
-- The form of a text is its own form.
use tpsr_v.Prelude.{
  ◌≡◌, ap, String, Option, some, trim, trim_twice, Bool-cases, Option-cases, inl, inr, arith,
}
use tpsr_v.Canonical.{Host, is_timestamp_key, canonical_text}

-- `toISOString` of a date: no white space about it, and the form of itself.
pub record IsStable (iso_date : String → Option String) : Type 0 where
  pub trimmed : (s d : String) → iso_date s ≡ some d → trim d ≡ d
  pub stable : (s d : String) → iso_date s ≡ some d → iso_date d ≡ some d

pub canonical_text_twice :
    (h : Host) (i : IsStable h.iso_date) (key s : String)
    → canonical_text h key (canonical_text h key s) ≡ canonical_text h key s
unfolding canonical_text
canonical_text_twice h i key s = elim (Bool-cases (is_timestamp_key h key)) [
  | inl y ↦ elim (Option-cases (h.iso_date (trim s))) [
    | inl n ↦ ground (arith, trim_twice s, ap h.iso_date (trim_twice s))
    | inr (d, e) ↦ ground (
      arith,
      i.trimmed (trim s) d e,
      i.stable (trim s) d e,
      ap h.iso_date (i.trimmed (trim s) d e),
    )
  ]
  | inr n ↦ ground (arith, trim_twice s)
]
