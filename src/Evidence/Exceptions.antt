-- ===== src/Evidence/Exceptions.antt =====
-- The policy exceptions of api/src/services/contextRiskEvidenceAssembler.js: when an exception is in
-- force for a release.
use tpsr_v.Prelude.{
  ◌≡◌, ◌≢◌, ℕ, ◌*◌, ◌-◌, ◌<◌, String, Bool, true, false, not, ◌&&◌, ◌||◌, Option, none, some, List,
  [], ◌∷◌, any, all, is, truthy, or_text, same_text, includes, text_eq, trim, if◌then◌else◌,
  is_empty, arith, ltb, is_iff, same_text_iff,
}
use tpsr_v.ContextRisk.{Vulnerability}
use tpsr_v.Evidence.{PolicyException, SbomDocument, TrustPolicy, Date, at, date_le, date_gt}

-- `a && b && a !== b`
unfoldable pub differs : Option String → Option String → Bool
differs a b = truthy a && truthy b && not (same_text a b)

abbrev exceptionable_rules : List String
exceptionable_rules = "CAECTD-R017" ∷ "CAECTD-R024" ∷ "CR-001" ∷ []

unfoldable pub rule_allowed : Option String → Bool
rule_allowed none = true
rule_allowed (some r) = text_eq r "" || includes exceptionable_rules r

-- `e.environment && e.environment !== contextVector.environment`
unfoldable pub environment_differs : Option String → Option String → Bool
environment_differs e env = truthy e && not (same_text e env)

unfoldable pub names : String → Vulnerability → Bool
names vid v = is v.id vid || is v.cve vid || is v.vulnerability_id vid

unfoldable pub all_found : List String → List Vulnerability → Bool
all_found ids vulns = all (λ vid. any (names vid) vulns) ids

unfoldable pub all_components_found : List String → List Vulnerability → Bool
all_components_found cids vulns = all (λ cid. any (λ v. is v.component_id cid) vulns) cids

unfoldable pub version_differs : Option String → String → Bool
version_differs v version = truthy v && not (is v "unknown") && not (is v version)

-- `maximumValidityHoursByRisk[risk]`
unfoldable pub max_hours : List (String × ℕ) → String → Option ℕ
max_hours [] risk = none
max_hours ((r, h) ∷ rest) risk = if text_eq r risk then some h else max_hours rest risk

-- `maxHours && (until - from) / 3600000 > maxHours`
unfoldable pub exceeds : Option ℕ → Date → Date → Bool
exceeds (some h) (at from) (at until) = ltb 0 h && ltb (h * 3600000) (until - from)
exceeds _ _ _ = false

unfoldable pub too_long : TrustPolicy → Option String → Date → Date → Bool
too_long policy none from until = false
too_long policy (some risk) from until =
    not (text_eq risk "") && exceeds (max_hours policy.max_validity_hours risk) from until

unfoldable pub starts_later : Option Date → ℕ → Bool
starts_later none now = false
starts_later (some d) now = date_gt d now

unfoldable pub from_date : Option Date → ℕ → Date
from_date none now = at now
from_date (some d) now = d

-- The block for `valid_until`: it has passed, or lies too far from the start.
unfoldable pub ends_badly : TrustPolicy → ℕ → PolicyException → Bool
ends_badly policy now e = elim e.valid_until [
  | none ↦ false
  | some until ↦
      date_le until now || too_long policy e.residual_risk (from_date e.valid_from now) until
]

unfoldable pub blank : Option String → Bool
blank none = true
blank (some s) = text_eq s "" || text_eq (trim s) ""

-- The filter for `activeExceptions`, in the order of the source's early returns.
unfoldable pub in_force :
    SbomDocument → Option String → List Vulnerability → TrustPolicy → ℕ → PolicyException → Bool
in_force doc environment vulns policy now e =
    is e.status "ACTIVE"
    && is e.assurance_state "VERIFIED_TRUSTED"
    && not (differs e.sbom_id doc.sbom_id)
    && rule_allowed e.policy_rule_id
    && not (differs e.digest_manifest_digest doc.sbom_hash)
    && not (environment_differs e.environment environment)
    && all_found e.vulnerability_ids vulns
    && all_components_found e.component_identifiers vulns
    && not (version_differs e.policy_version (or_text policy.version "3.0"))
    && not (starts_later e.valid_from now)
    && not (ends_badly policy now e)
    && not (truthy e.requested_by && truthy e.approved_by && same_text e.requested_by e.approved_by)
    && not (blank e.remediation_plan)
    && not (is_empty e.compensating_controls)

-- What governs a release by an exception.
pub record IsGoverned (doc : SbomDocument) (vulns : List Vulnerability) (now : ℕ)
    (e : PolicyException) : Type 0 where
  pub active : e.status ≡ some "ACTIVE"
  pub trusted : e.assurance_state ≡ some "VERIFIED_TRUSTED"
  pub same_release : truthy e.sbom_id ≡ true → truthy doc.sbom_id ≡ true → e.sbom_id ≡ doc.sbom_id
  pub exceptionable : rule_allowed e.policy_rule_id ≡ true
  pub vulnerabilities_found : all_found e.vulnerability_ids vulns ≡ true
  pub unexpired : (t : ℕ) → e.valid_until ≡ some (at t) → now < t
  pub independent :
      truthy e.requested_by ≡ true → truthy e.approved_by ≡ true → e.requested_by ≢ e.approved_by
  pub has_controls : e.compensating_controls ≢ []

differs-false :
    (a b : Option String) → differs a b ≡ false → truthy a ≡ true → truthy b ≡ true → a ≡ b
unfolding differs
differs-false a b h p q = ground (arith, same_text_iff a b)

ends_badly-false :
    (policy : TrustPolicy) (now : ℕ) (e : PolicyException)
    → ends_badly policy now e ≡ false
    → (t : ℕ) → e.valid_until ≡ some (at t)
    → now < t
unfolding ends_badly
ends_badly-false policy now e h t u = ground arith

-- An exception that the filter lets through is ACTIVE and trusted, bound to this release where both
-- name one, for an exceptionable rule and for vulnerabilities that the release has; it has not
-- expired, its requester did not approve it, and it names a compensating control.
pub in_force-IsGoverned :
    (doc : SbomDocument) (environment : Option String) (vulns : List Vulnerability)
    (policy : TrustPolicy) (now : ℕ) (e : PolicyException)
    → in_force doc environment vulns policy now e ≡ true
    → IsGoverned doc vulns now e
unfolding in_force
in_force-IsGoverned doc environment vulns policy now e h = record {
  active = ground (arith, is_iff e.status "ACTIVE");
  trusted = ground (arith, is_iff e.assurance_state "VERIFIED_TRUSTED");
  same_release = λ p q. differs-false e.sbom_id doc.sbom_id (ground arith) p q;
  exceptionable = ground arith;
  vulnerabilities_found = ground arith;
  unexpired = λ t u. ends_badly-false policy now e (ground arith) t u;
  independent = λ p q s. ground (arith, same_text_iff e.requested_by e.approved_by);
  has_controls = λ n. ground arith;
}
