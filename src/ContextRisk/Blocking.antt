-- ===== src/ContextRisk/Blocking.antt =====
-- Which contexts make a vulnerability blocking in contextRiskEngine.js.
use tpsr_v.Prelude.{
  ◌≡◌, String, Bool, not, ◌&&◌, ◌||◌, Option, arith, is, truthy, truthy_of_is, is_apart, refl,
}
use tpsr_v.ContextRisk.{
  ContextVector, Exploitability, Basis, verdict_of, is_under_investigation, is_not_exploitable,
  is_present_not_executed,
}
use tpsr_v.ContextRisk.Evaluate.{blocks}

-- The five contexts in which a vulnerability that may be exploited must not ship.
abbrev pub is_dangerous : ContextVector → Option String → Bool
is_dangerous c sev =
    (is c.environment "PRODUCTION"
      && (is c.internet_exposure "PUBLIC" || is c.internet_exposure "RESTRICTED_PUBLIC")
      && is sev "CRITICAL")
    || (is c.environment "PRODUCTION" && is c.asset_criticality "CRITICAL")
    || is c.privilege_level "SYSTEM"
    || is c.data_sensitivity "RESTRICTED"
    || (not (truthy c.environment) && is sev "CRITICAL")

-- The verdict blocks exactly when the context is dangerous and the vulnerability is neither
-- mitigated, nor under investigation, nor in a component that is present and not executed.
pub blocks-verdict_of :
    (c : ContextVector) (e : Exploitability) (b : Basis) (sev : Option String)
    → blocks (verdict_of c e b sev).block ≡ (
        not (is_under_investigation e)
        && not (is_present_not_executed b)
        && not (is_not_exploitable e)
        && is_dangerous c sev)
unfolding verdict_of
blocks-verdict_of c e b sev = ground (
  arith,
  truthy_of_is c.environment "PRODUCTION" refl,
  truthy_of_is c.environment "DEVELOPMENT" refl,
  is_apart c.environment "DEVELOPMENT" "PRODUCTION" refl,
)
