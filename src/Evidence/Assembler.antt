-- ===== src/Evidence/Assembler.antt =====
-- `assembleContextRiskEvidence` of api/src/services/contextRiskEvidenceAssembler.js.
pub mod Laws
use tpsr_v.Prelude.{
  ◌≡◌, refl, ℕ, String, Bool, true, false, not, ◌&&◌, ◌||◌, Option, none, some, List, [], ◌∷◌,
  filter, any, map, is, truthy, is_empty, if◌then◌else◌, arith, head?,
}
use tpsr_v.ContextRisk.{Vulnerability, ContextVector, RiskInput}
use tpsr_v.Evidence.{ContextAssertion, VexStatement, PolicyException, SbomDocument, TrustPolicy}
use tpsr_v.Evidence.Context
use tpsr_v.Evidence.Vex
use tpsr_v.Evidence.Exceptions

pub record Bundle : Type 0 where
  pub document : SbomDocument
  pub assertions : List ContextAssertion
  pub statements : List VexStatement
  pub exceptions : List PolicyException

abbrev active_vex : Bundle → List VexStatement
active_vex b = filter Vex.is_active b.statements

-- `vulns` after the overlays
unfoldable pub vulnerabilities : Bundle → List Vulnerability
vulnerabilities b = map (Vex.overlay (active_vex b)) (Vex.collect b.document)

unfoldable pub selection : TrustPolicy → ℕ → Bundle → Context.Selection
selection policy now b = Context.select now (Context.context_required policy) b.assertions

unfoldable pub base_vector : TrustPolicy → ℕ → Bundle → ContextVector
base_vector policy now b = Context.vector_of (selection policy now b).active_context

unfoldable pub active_exceptions : TrustPolicy → ℕ → Bundle → List PolicyException
active_exceptions policy now b =
    filter
      (Exceptions.in_force b.document (base_vector policy now b).environment (vulnerabilities b)
        policy now)
      b.exceptions

abbrev is_expired : PolicyException → Bool
is_expired e = is e.status "EXPIRED" || is e.assurance_state "EXPIRED"

unfoldable pub exception_active : TrustPolicy → ℕ → Bundle → Bool
exception_active policy now b = not (is_empty (active_exceptions policy now b))

unfoldable pub id_of : Option ContextAssertion → Option String
id_of none = none
id_of (some a) = a.id

unfoldable pub assemble : TrustPolicy → ℕ → Bundle → RiskInput
assemble policy now b = record {
  conflict = s.conflict || Vex.is_several (active_vex b);
  invalid_context = s.invalid_context;
  missing_context = Context.missing_context (Context.context_required policy) s;
  class_a_failure = false;
  context_required = Context.context_required policy;
  vex_trusted = Vex.is_single (active_vex b);
  vex_current = true;
  vex_exact_scope = true;
  exception_trusted = exception_active policy now b;
  component_presence_trusted = true;
  context_assertion_id = id_of s.active_context;
  vulnerabilities = some (vulnerabilities b);
  vulns = none;
  vulnerability = none;
  sbom_components = none;
  context_vector = record (base_vector policy now b) {
    exception_status = some (if exception_active policy now b then "ACTIVE" else "NONE");
    has_stale_vex = any Vex.is_stale b.statements;
    has_invalid_vex = any Vex.is_invalid b.statements;
    has_expired_exception = any is_expired b.exceptions;
  };
}
  where
    s : Context.Selection
    s = selection policy now b
