-- ===== src/Policy.antt =====
-- api/src/utils/policy.js: the automated policy that an SBOM passes or fails. The registry of banned
-- packages is an argument, and so is `number`, the value of `Number(part) || 0` for a part of a
-- version. A CVSS score is counted in tenths.
pub mod Versions
pub mod Verdict
mod Tests
use tpsr_v.Prelude.{
  ℕ, String, Bool, true, false, not, ◌&&◌, ◌||◌, Option, none, some, List, [], ◌∷◌, ◌++◌, truthy,
  or_text, text_eq, includes, is_empty, if◌then◌else◌, ltb, leb, any,
}
use Prim.Native.Nat.{Ordering}

-- `rating.score` after `parseFloat`, in tenths.
pub data Score : Type 0 where
  absent not_a_number : Score
  tenths : ℕ → Score

-- `severity` is `rating.severity.trim().toLowerCase() === 'critical'`, where it is a text.
pub record Rating : Type 0 where
  pub score : Score
  pub severity : Option Bool

pub record Vuln : Type 0 where
  pub id : Option String
  pub ratings : List Rating

pub record Component : Type 0 where
  pub name : Option String
  pub version : Option String

pub record Sbom : Type 0 where
  pub vulnerabilities : List Vuln
  pub components : List Component

pub record PackageRules : Type 0 where
  pub blocked_versions : List String
  pub minimum_safe_version : Option String

abbrev pub Registry : Type 0
Registry = List (String × PackageRules)

pub data Violation : Type 0 where
  cvss_score : String → ℕ → Violation
  critical_severity : String → Violation
  blocked_version below_minimum : String → String → Violation

pub data Mode : Type 0 where
  unknown_mode embedded_vulnerability internal_package_policy : Mode

pub data PolicyStatus : Type 0 where
  pass fail : PolicyStatus

pub record PolicyResult : Type 0 where
  pub policy_status : PolicyStatus
  pub violations : List Violation
  pub evaluation_mode : Mode

-- `parts1[i] || 0` beyond the end, and the comparison of the parts one by one.
pub compare_parts : List ℕ → List ℕ → Ordering
compare_parts [] [] = Ordering.eq
compare_parts [] (q ∷ qs) = let rest = compare_parts [] qs in if ltb 0 q then Ordering.lt else rest
compare_parts (p ∷ ps) [] = let rest = compare_parts ps [] in if ltb 0 p then Ordering.gt else rest
compare_parts (p ∷ ps) (q ∷ qs) =
    let rest = compare_parts ps qs in
    if ltb q p then Ordering.gt else if ltb p q then Ordering.lt else rest

abbrev pub is_lt : Ordering → Bool
is_lt Ordering.lt = true
is_lt _ = false

-- `numericScore >= 8.0`
score_violations : String → Score → List Violation
score_violations id absent = []
score_violations id not_a_number = []
score_violations id (tenths n) = if leb 80 n then cvss_score id n ∷ [] else []

severity_violations : String → Option Bool → List Violation
severity_violations id none = []
severity_violations id (some b) = if b then critical_severity id ∷ [] else []

rating_violations : String → List Rating → List Violation
rating_violations id [] = []
rating_violations id (r ∷ rs) =
    (score_violations id r.score ++ severity_violations id r.severity) ++ rating_violations id rs

pub embedded_violations : List Vuln → List Violation
embedded_violations [] = []
embedded_violations (v ∷ vs) =
    rating_violations (or_text v.id "Unknown-Vuln") v.ratings ++ embedded_violations vs

-- `hasUsableVulnData`
abbrev pub is_usable : Rating → Bool
is_usable r =
    elim r.score [ absent ↦ false | _ ↦ true ] || elim r.severity [ none ↦ false | some _ ↦ true ]

pub has_usable_data : List Vuln → Bool
has_usable_data vs = any (λ v. any is_usable v.ratings) vs

pub rules_for : Registry → String → Option PackageRules
rules_for [] name = none
rules_for ((n, r) ∷ rest) name = if text_eq n name then some r else rules_for rest name

module _ (parts : String → List ℕ) (registry : Registry) where
  -- `compareVersions(version, minimum) === -1`
  pub below : String → String → Bool
  below v m = is_lt (compare_parts (parts v) (parts m))

  rule_violations : String → String → PackageRules → List Violation
  rule_violations name version r =
      (if includes r.blocked_versions version then blocked_version name version ∷ [] else [])
      ++ elim r.minimum_safe_version [
        | none ↦ []
        | some m ↦
            if not (text_eq m "") && below version m then below_minimum name version ∷ [] else []
      ]

  -- One round of the loop over the components; a component with no name or no version is skipped.
  component_violations : Component → List Violation
  component_violations c =
      if truthy c.name && truthy c.version
      then elim (rules_for registry (or_text c.name "")) [
        | none ↦ []
        | some r ↦ rule_violations (or_text c.name "") (or_text c.version "") r
      ]
      else []

  pub registry_violations : List Component → List Violation
  registry_violations [] = []
  registry_violations (c ∷ cs) = component_violations c ++ registry_violations cs

  abbrev outcome : Mode → List Violation → PolicyResult
  outcome mode vs = record {
    policy_status = if is_empty vs then pass else fail;
    violations = vs;
    evaluation_mode = mode;
  }

  pub evaluate_sbom : Option Sbom → PolicyResult
  evaluate_sbom none = record {
    policy_status = pass;
    violations = [];
    evaluation_mode = unknown_mode;
  }
  evaluate_sbom (some s) =
      if has_usable_data s.vulnerabilities
      then outcome embedded_vulnerability (embedded_violations s.vulnerabilities)
      else outcome internal_package_policy (registry_violations s.components)
