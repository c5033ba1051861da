-- ===== src/Tests/Evidence.antt =====
-- The assembly of the evidence.
use tpsr_v.Prelude.{
  ◌≡◌, refl, true, false, some, [], ◌∷◌, text_eq, is, truthy, or_text, or_else, same_text, includes,
  trim,
}
use tpsr_v.ContextRisk.{verified_trusted, not_evaluated, verified_untrusted, invalid}
use tpsr_v.Evidence.Context.{
  select, select_listed, choose, is_active, is_conflicting, expired, missing_context,
}
use tpsr_v.Evidence.Exceptions.{
  differs, rule_allowed, environment_differs, names, all_found, all_components_found,
  version_differs, max_hours, exceeds, too_long, starts_later, from_date, ends_badly, blank,
  in_force,
}
use tpsr_v.Evidence.Assurance.{map_signature, map_provenance, map_vex, map_context, map_exception}
use tpsr_v.Tests.Inputs.{
  release, attestation, seal, production, waiver, statement, trust_policy, vulnerable,
}

governed : in_force release (some "PRODUCTION") (vulnerable ∷ []) trust_policy 50 waiver ≡ true
unfolding in_force differs rule_allowed environment_differs names all_found all_components_found
    version_differs max_hours exceeds too_long starts_later from_date ends_badly blank text_eq is
    truthy or_text same_text includes trim
governed = refl

selected : (select 50 true (production ∷ [])).conflict ≡ false
unfolding select select_listed choose is_active is_conflicting expired is truthy
selected = refl

selected_valid : (select 50 true (production ∷ [])).invalid_context ≡ false
unfolding select select_listed choose is_active is_conflicting expired is truthy
selected_valid = refl

selected_present : missing_context true (select 50 true (production ∷ [])) ≡ false
unfolding missing_context select select_listed choose is_active is_conflicting expired is truthy
selected_present = refl

vex_run : (map_vex (some statement)).normalized ≡ not_evaluated
unfolding map_vex or_else truthy is
vex_run = refl

context_run : (map_context (some production)).normalized ≡ verified_untrusted
unfolding map_context
context_run = refl

-- A waiver in force has the status ACTIVE, which the mapper does not take for APPROVED.
waiver_run : (map_exception 50 (some waiver)).normalized ≡ invalid
unfolding map_exception is truthy
waiver_run = refl

signature_run : (map_signature (some seal)).normalized ≡ verified_trusted
unfolding map_signature is truthy
signature_run = refl

provenance_run : (map_provenance (some attestation)).normalized ≡ verified_trusted
unfolding map_provenance is truthy includes
provenance_run = refl
