-- ===== src/Evidence/Context.antt =====
-- The context part of api/src/services/contextRiskEvidenceAssembler.js, with
-- api/src/utils/contextCompatibilityMapper.js: which context assertion is in force, and the context
-- vector that it gives.
use tpsr_v.Prelude.{
  ◌≡◌, refl, ◌⊎◌, ℕ, String, Bool, true, false, not, ◌&&◌, ◌||◌, Option, none, some, List, [], ◌∷◌,
  filter, any, is, truthy, or_else, or_text, includes, text_eq, to_upper_case, if◌then◌else◌, arith,
  Bool-cases, inl, inr, is_iff, Option-cases,
}
use tpsr_v.ContextRisk.{ContextVector}
use tpsr_v.Evidence.{ContextAssertion, Date, date_le, TrustPolicy}

-- contextRiskConstants.js
abbrev enum_environment : List String
enum_environment = "DEVELOPMENT" ∷ "TEST" ∷ "STAGING" ∷ "PRODUCTION" ∷ []

abbrev enum_internet_exposure : List String
enum_internet_exposure = "NONE" ∷ "INTERNAL" ∷ "RESTRICTED_PUBLIC" ∷ "PUBLIC" ∷ []

-- `canonicalValue` of the mappers, on the text in upper case
unfoldable pub canonical_environment : String → Option String
canonical_environment s =
    if includes enum_environment s
    then some s
    else if text_eq s "DEV"
    then some "DEVELOPMENT"
    else if text_eq s "PROD"
    then some "PRODUCTION"
    else if text_eq s "PROD_CRITICAL"
    then some "PRODUCTION"
    else none

unfoldable pub canonical_exposure : String → Option String
canonical_exposure s =
    if includes enum_internet_exposure s
    then some s
    else if text_eq s "INTERNET"
    then some "PUBLIC"
    else none

unfoldable pub normalize_environment : Option String → Option String
normalize_environment none = none
normalize_environment (some s) =
    if text_eq s "" then none else canonical_environment (to_upper_case s)

unfoldable pub normalize_exposure : Option String → Option String
normalize_exposure none = none
normalize_exposure (some s) = if text_eq s "" then none else canonical_exposure (to_upper_case s)

-- `contextRequired`
unfoldable pub context_required : TrustPolicy → Bool
context_required policy = elim policy.operations [
  | some _ ↦ true
  | none ↦ policy.require_deployment_context
]

unfoldable pub expired : Option Date → ℕ → Bool
expired none now = false
expired (some d) now = date_le d now

-- The filter for `active`.
unfoldable pub is_active : ℕ → ContextAssertion → Bool
is_active now a =
    is a.status "ACTIVE"
    && (is a.verification_status "VERIFIED" || is a.verification_status "AUTHORIZED")
    && not (expired a.valid_until now)

unfoldable pub is_conflicting : ContextAssertion → Bool
is_conflicting a = is a.status "INVALID" && is a.assurance_state "CONFLICTING"

pub record Selection : Type 0 where
  pub active_context : Option ContextAssertion
  pub conflict : Bool
  pub invalid_context : Bool

-- The choice from `active` and `conflicting`.
unfoldable pub choose : List ContextAssertion → Bool → Selection
choose (a ∷ []) false = record {
  active_context = some a;
  conflict = false;
  invalid_context = false;
}
choose [] false = record { active_context = none; conflict = false; invalid_context = false }
choose _ _ = record { active_context = none; conflict = true; invalid_context = false }

unfoldable pub select_listed : ℕ → List ContextAssertion → Selection
select_listed now listed = choose (filter (is_active now) listed) (any is_conflicting listed)

-- A single assertion with no status is the legacy form, which carries no authentication.
unfoldable pub select : ℕ → Bool → List ContextAssertion → Selection
select now required (a ∷ []) =
    if truthy a.status
    then select_listed now (a ∷ [])
    else record { active_context = some a; conflict = false; invalid_context = required }
select now required listed = select_listed now listed

abbrev is_none : Option ContextAssertion → Bool
is_none none = true
is_none (some _) = false

-- `missingContext`
unfoldable pub missing_context : Bool → Selection → Bool
missing_context required s = required && is_none s.active_context && not s.conflict

abbrev or_unknown : Option String → Option String
or_unknown o = some (or_text o "UNKNOWN")

unfoldable pub empty_vector : ContextVector
empty_vector = record {
  environment = none;
  internet_exposure = none;
  asset_criticality = none;
  privilege_level = none;
  data_sensitivity = none;
  runtime_execution = none;
  component_presence = none;
  exception_status = none;
  has_stale_vex = false;
  has_invalid_vex = false;
  has_expired_exception = false;
}

-- The vector of the active context; PROD_CRITICAL also makes the asset critical.
unfoldable pub vector_of : Option ContextAssertion → ContextVector
vector_of none = empty_vector
vector_of (some a) = record empty_vector {
  environment = or_unknown (normalize_environment (or_else a.environment a.deployment_tier));
  internet_exposure = or_unknown (normalize_exposure a.internet_exposure);
  asset_criticality =
      if is a.environment "PROD_CRITICAL" || is a.deployment_tier "PROD_CRITICAL"
      then some "CRITICAL"
      else or_unknown a.asset_criticality;
  privilege_level = or_unknown a.privilege_level;
  data_sensitivity = or_unknown a.data_sensitivity;
  runtime_execution = or_unknown a.runtime_execution;
  component_presence = or_unknown a.component_presence;
}

filter-one :
    (p : ContextAssertion → Bool) (listed : List ContextAssertion) {a : ContextAssertion}
    → filter p listed ≡ a ∷ []
    → p a ≡ true
filter-one p [] e = cc
filter-one p (x ∷ listed) e = elim (Bool-cases (p x)) [
  | inl y ↦ ground arith
  | inr n ↦ filter-one p listed (ground arith)
]

-- What makes an assertion the context in force when a context is required.
pub record IsInForce (now : ℕ) (a : ContextAssertion) : Type 0 where
  pub active : a.status ≡ some "ACTIVE"
  pub authenticated :
      (a.verification_status ≡ some "VERIFIED") ⊎ (a.verification_status ≡ some "AUTHORIZED")
  pub unexpired : expired a.valid_until now ≡ false

is_active-IsInForce : (now : ℕ) (a : ContextAssertion) → is_active now a ≡ true → IsInForce now a
unfolding is_active
is_active-IsInForce now a h = ground (
  arith,
  is_iff a.status "ACTIVE",
  is_iff a.verification_status "VERIFIED",
  is_iff a.verification_status "AUTHORIZED",
)

choose-IsInForce :
    (now : ℕ) (listed actives : List ContextAssertion) (conflicting : Bool) {a : ContextAssertion}
    → filter (is_active now) listed ≡ actives
    → (choose actives conflicting).active_context ≡ some a
    → IsInForce now a
unfolding choose
choose-IsInForce now listed (b ∷ []) false {a} e h =
    is_active-IsInForce now a (ground (arith, filter-one (is_active now) listed e))
choose-IsInForce now listed [] false e h = cc
choose-IsInForce now listed [] true e h = cc
choose-IsInForce now listed (b ∷ []) true e h = cc
choose-IsInForce now listed (b ∷ c ∷ bs) false e h = cc
choose-IsInForce now listed (b ∷ c ∷ bs) true e h = cc

select-IsInForce :
    (now : ℕ) (listed : List ContextAssertion) (a : ContextAssertion)
    → (select now true listed).invalid_context ≡ false
    → (select now true listed).active_context ≡ some a
    → IsInForce now a
unfolding select select_listed
select-IsInForce now [] a v h = choose-IsInForce now [] [] false refl h
select-IsInForce now (b ∷ []) a v h = elim (Bool-cases (truthy b.status)) [
  | inl t ↦
      choose-IsInForce now (b ∷ []) (filter (is_active now) (b ∷ [])) (any is_conflicting (b ∷ []))
        refl (rw (t, select) at h)
  | inr f ↦ ground arith
]
select-IsInForce now (b ∷ c ∷ bs) a v h =
    choose-IsInForce now (b ∷ c ∷ bs) (filter (is_active now) (b ∷ c ∷ bs))
      (any is_conflicting (b ∷ c ∷ bs)) refl h

-- Where a context is required, it is flagged as conflicting, invalid or missing, or there is one
-- assertion in force: ACTIVE, verified or authorized, and not expired.
pub select_required :
    (now : ℕ) (listed : List ContextAssertion)
    → (select now true listed).conflict ≡ false
    → (select now true listed).invalid_context ≡ false
    → missing_context true (select now true listed) ≡ false
    → (a : ContextAssertion) × ((select now true listed).active_context ≡ some a) × IsInForce now a
unfolding missing_context
select_required now listed c v m = elim (Option-cases (select now true listed).active_context) [
  | inl n ↦ ground arith
  | inr (a, e) ↦ (a, e, select-IsInForce now listed a v e)
]
