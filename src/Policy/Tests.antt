-- ===== src/Policy/Tests.antt =====
-- The automated policy (`evaluateSBOM`).
use tpsr_v.Prelude.{
  ◌≡◌, ◌↔◌, ◌⊎◌, refl, ℕ, String, true, false, some, List, [], ◌∷◌, any, text_eq, truthy, or_text,
  includes, if◌then◌else◌,
}
use Prim.Native.Nat.{Ordering}
use tpsr_v.Policy.{
  Sbom, Registry, fail, compare_parts, has_usable_data, embedded_violations, registry_violations,
  component_violations, rule_violations, rules_for, below, evaluate_sbom,
}
use tpsr_v.Policy.Verdict.{is_severe, is_banned, evaluate_sbom-fail_iff}
use tpsr_v.Policy.Versions.{part, Below, compare_parts-lt_iff}

-- The parts of the versions that the runs read.
abbrev parts : String → List ℕ
parts v =
    if text_eq v "4.17.20"
    then 4 ∷ 17 ∷ 20 ∷ []
    else if text_eq v "4.17.21"
    then 4 ∷ 17 ∷ 21 ∷ []
    else 0 ∷ []

abbrev registry : Registry
registry =
    ("lodash", record { blocked_versions = "4.17.19" ∷ []; minimum_safe_version = some "4.17.21" })
    ∷ []

abbrev old_library : Sbom
old_library = record {
  vulnerabilities = [];
  components = record { name = some "lodash"; version = some "4.17.20" } ∷ [];
}

-- A version below the minimum safe version fails.
old_library_run : (evaluate_sbom parts registry (some old_library)).policy_status ≡ fail
unfolding evaluate_sbom has_usable_data embedded_violations registry_violations component_violations
    rule_violations rules_for below compare_parts text_eq truthy or_text includes
old_library_run = refl

evaluate_sbom-fail_iff_example :
    ((evaluate_sbom parts registry (some old_library)).policy_status ≡ fail) ↔ (
      ((has_usable_data old_library.vulnerabilities ≡ true)
        × (any (λ v. any is_severe v.ratings) old_library.vulnerabilities ≡ true))
      ⊎ ((has_usable_data old_library.vulnerabilities ≡ false)
          × (any (is_banned parts registry) old_library.components ≡ true)))
evaluate_sbom-fail_iff_example = evaluate_sbom-fail_iff parts registry old_library

compare_parts-lt_iff_example :
    (compare_parts (1 ∷ 2 ∷ 9 ∷ []) (1 ∷ 3 ∷ []) ≡ Ordering.lt)
    ↔ Below (part (1 ∷ 2 ∷ 9 ∷ [])) (part (1 ∷ 3 ∷ []))
compare_parts-lt_iff_example = compare_parts-lt_iff (1 ∷ 2 ∷ 9 ∷ []) (1 ∷ 3 ∷ [])

earlier : compare_parts (1 ∷ 2 ∷ []) (1 ∷ 2 ∷ 1 ∷ []) ≡ Ordering.lt
unfolding compare_parts
earlier = refl

later : compare_parts (1 ∷ 2 ∷ 1 ∷ []) (2 ∷ []) ≡ Ordering.lt
unfolding compare_parts
later = refl
