-- ===== src/Policy/Verdict.antt =====
-- When api/src/utils/policy.js fails an SBOM.
use tpsr_v.Prelude.{
  ◌≡◌, refl, ◌↔◌, ◌⊎◌, ℕ, String, Bool, true, false, ◌||◌, ◌&&◌, not, none, some, List, [], ◌∷◌,
  ◌++◌, any, arith, leb, is_empty, truthy, or_text, includes, text_eq,
}
use tpsr_v.Policy.{
  tenths, Rating, Vuln, Component, Sbom, Registry, fail, score_violations, severity_violations,
  rating_violations, embedded_violations, has_usable_data, rules_for, below, rule_violations,
  component_violations, registry_violations, evaluate_sbom,
}

-- A rating that violates: a score of 8.0 or more, or CRITICAL severity.
abbrev pub is_severe : Rating → Bool
is_severe r =
    elim r.score [ tenths n ↦ leb 80 n | _ ↦ false ]
    || elim r.severity [ some b ↦ b | none ↦ false ]

-- A component that its package's rules ban.
abbrev pub is_banned : (String → List ℕ) → Registry → Component → Bool
is_banned parts registry c =
    truthy c.name && truthy c.version && elim (rules_for registry (or_text c.name "")) [
      | none ↦ false
      | some r ↦ includes r.blocked_versions (or_text c.version "") || elim r.minimum_safe_version [
        | none ↦ false
        | some m ↦ not (text_eq m "") && below parts registry (or_text c.version "") m
      ]
    ]

is_empty-append {ℓ} :
    {A : Type ℓ} (xs ys : List A) → is_empty (xs ++ ys) ≡ (is_empty xs && is_empty ys)
is_empty-append [] ys = refl
is_empty-append (x ∷ xs) ys = refl

rating_violations-none :
    (id : String) (rs : List Rating) → is_empty (rating_violations id rs) ≡ not (any is_severe rs)
unfolding rating_violations score_violations severity_violations
rating_violations-none id [] = refl
rating_violations-none id (r ∷ rs) = ground (
  arith,
  is_empty-append (score_violations id r.score ++ severity_violations id r.severity)
      (rating_violations id rs),
  is_empty-append (score_violations id r.score) (severity_violations id r.severity),
  rating_violations-none id rs,
)

embedded_violations-none :
    (vs : List Vuln)
    → is_empty (embedded_violations vs) ≡ not (any (λ v. any is_severe v.ratings) vs)
unfolding embedded_violations
embedded_violations-none [] = refl
embedded_violations-none (v ∷ vs) = ground (
  arith,
  is_empty-append (rating_violations (or_text v.id "Unknown-Vuln") v.ratings)
      (embedded_violations vs),
  rating_violations-none (or_text v.id "Unknown-Vuln") v.ratings,
  embedded_violations-none vs,
)

module _ (parts : String → List ℕ) (registry : Registry) where
  component_violations-none :
      (c : Component)
      → is_empty (component_violations parts registry c) ≡ not (is_banned parts registry c)
  unfolding component_violations rule_violations
  component_violations-none c = ground arith

  registry_violations-none :
      (cs : List Component)
      → is_empty (registry_violations parts registry cs) ≡ not (any (is_banned parts registry) cs)
  unfolding registry_violations
  registry_violations-none [] = refl
  registry_violations-none (c ∷ cs) = ground (
    arith,
    is_empty-append (component_violations parts registry c) (registry_violations parts registry cs),
    component_violations-none c,
    registry_violations-none cs,
  )

  -- An SBOM fails exactly when its ratings are usable and one of them is severe, or none is usable
  -- and one of its components is banned. Usable ratings thus keep the registry from being read.
  pub evaluate_sbom-fail_iff :
      (s : Sbom)
      → ((evaluate_sbom parts registry (some s)).policy_status ≡ fail) ↔ (
          ((has_usable_data s.vulnerabilities ≡ true)
            × (any (λ v. any is_severe v.ratings) s.vulnerabilities ≡ true))
          ⊎ ((has_usable_data s.vulnerabilities ≡ false)
              × (any (is_banned parts registry) s.components ≡ true)))
  unfolding evaluate_sbom
  evaluate_sbom-fail_iff s =
      ground
        (arith, embedded_violations-none s.vulnerabilities, registry_violations-none s.components)
