-- ===== src/ContextRisk/Mitigation.antt =====
-- When contextRiskEngine.js counts a vulnerability as not exploitable.
use tpsr_v.Prelude.{◌≡◌, ◌≢◌, ◌↔◌, ◌⊎◌, true, refl, String, arith, text_eq_iff, apart, or_text}
use tpsr_v.ContextRisk.{Vulnerability, RiskInput, not_exploitable, exploit_of}

-- A trusted, current and exactly scoped statement that the release is not affected, or a trusted
-- finding that the component is absent, with no statement of the first two kinds.
abbrev pub IsMitigated : RiskInput → Vulnerability → Type 0
IsMitigated input v =
    ((or_text v.vex_applicability "UNKNOWN" ≡ "NOT_AFFECTED")
      × (input.vex_trusted ≡ true)
      × (input.vex_current ≡ true)
      × (input.vex_exact_scope ≡ true))
    ⊎ ((or_text v.vex_applicability "UNKNOWN" ≢ "NOT_AFFECTED")
        × (or_text v.vex_applicability "UNKNOWN" ≢ "UNDER_INVESTIGATION")
        × (or_text input.context_vector.component_presence "UNKNOWN" ≡ "NOT_PRESENT")
        × (input.component_presence_trusted ≡ true))

-- A vulnerability is counted as not exploitable exactly when it is mitigated.
pub exploit_of-IsMitigated :
    (input : RiskInput) (v : Vulnerability)
    → ((exploit_of input v).exploitability ≡ not_exploitable) ↔ IsMitigated input v
unfolding exploit_of
exploit_of-IsMitigated input v = ground (
  arith,
  text_eq_iff vex "NOT_AFFECTED",
  text_eq_iff vex "UNDER_INVESTIGATION",
  text_eq_iff present "NOT_PRESENT",
  apart vex "AFFECTED" "NOT_AFFECTED" refl,
  apart vex "AFFECTED" "UNDER_INVESTIGATION" refl,
  apart vex "NOT_AFFECTED" "UNDER_INVESTIGATION" refl,
  apart present "NOT_PRESENT" "PRESENT" refl,
  apart present "NOT_PRESENT" "PARTIAL" refl,
)
  where
    vex : String
    vex = or_text v.vex_applicability "UNKNOWN"

    present : String
    present = or_text input.context_vector.component_presence "UNKNOWN"
