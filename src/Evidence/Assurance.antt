-- ===== src/Evidence/Assurance.antt =====
-- api/src/utils/evidenceAssuranceMapper.js: evidence of each kind is normalised to a formal
-- assurance state.
use tpsr_v.Prelude.{
  ◌≡◌, refl, ◌↔◌, String, Bool, false, not, ◌||◌, Option, none, some, is, truthy, includes, or_else,
  if◌then◌else◌, arith, is_iff, truthy_of_is, ℕ,
}
use tpsr_v.ContextRisk.{
  AssuranceState, verified_trusted, verified_untrusted, invalid, missing, stale, conflicting,
  not_evaluated,
}
use tpsr_v.Evidence.{
  Provenance, Signature, VexStatement, ContextAssertion, PolicyException, Date, at, invalid_date,
}
use tpsr_v.Prelude.{ltb}

pub record Mapped : Type 0 where
  pub original : Option String
  pub normalized : AssuranceState

abbrev mapped_as : Option String → AssuranceState → Mapped
mapped_as o n = record { original = o; normalized = n }

unfoldable pub map_signature : Option Signature → Mapped
map_signature none = mapped_as none missing
map_signature (some e) =
    if not (truthy e.verification_status)
    then mapped_as (some "UNKNOWN") not_evaluated
    else if is e.verification_status "VERIFIED"
    then mapped_as e.verification_status verified_trusted
    else if is e.verification_status "UNTRUSTED"
    then mapped_as e.verification_status verified_untrusted
    else mapped_as e.verification_status invalid

unfoldable pub map_provenance : Option Provenance → Mapped
map_provenance none = mapped_as none missing
map_provenance (some e) =
    if not (truthy e.status)
    then mapped_as (some "UNKNOWN") not_evaluated
    else if includes e.reason_codes "BND-002"
    then mapped_as e.status invalid
    else if is e.status "VALID"
    then mapped_as e.status verified_trusted
    else if is e.status "UNTRUSTED"
    then mapped_as e.status verified_untrusted
    else mapped_as e.status invalid

unfoldable pub map_vex : Option VexStatement → Mapped
map_vex none = mapped_as none missing
map_vex (some e) =
    if not (truthy original)
    then mapped_as (some "UNKNOWN") not_evaluated
    else if is original "not_affected" || is original "fixed"
    then mapped_as original verified_trusted
    else if is original "affected"
    then mapped_as original verified_trusted
    else if is original "under_investigation"
    then mapped_as original not_evaluated
    else if is original "CONFLICTING"
    then mapped_as original conflicting
    else if is original "STALE"
    then mapped_as original stale
    else if is original "INVALID"
    then mapped_as original invalid
    else mapped_as original not_evaluated
  where
    original : Option String
    original = or_else e.status e.applicability_status

unfoldable pub map_context : Option ContextAssertion → Mapped
map_context none = mapped_as none missing
map_context (some e) = mapped_as (some "UNAUTHENTICATED") verified_untrusted

-- `validUntil && validUntil < new Date()`
abbrev pub lapsed : Option Date → ℕ → Bool
lapsed none now = false
lapsed (some invalid_date) now = false
lapsed (some (at t)) now = ltb t now

unfoldable pub map_exception : ℕ → Option PolicyException → Mapped
map_exception now none = mapped_as none missing
map_exception now (some e) =
    if not (truthy e.status)
    then mapped_as (some "UNKNOWN") not_evaluated
    else if is e.status "APPROVED"
    then if lapsed e.valid_until now
      then mapped_as (some "EXPIRED") stale
      else mapped_as e.status verified_trusted
    else if is e.status "REVOKED"
    then mapped_as e.status invalid
    else mapped_as e.status invalid

-- Only a VERIFIED signature counts as trusted.
pub map_signature-trusted_iff :
    (e : Signature)
    → ((map_signature (some e)).normalized ≡ verified_trusted)
      ↔ (e.verification_status ≡ some "VERIFIED")
unfolding map_signature
map_signature-trusted_iff e = ground (
  arith,
  is_iff e.verification_status "VERIFIED",
  truthy_of_is e.verification_status "VERIFIED" refl,
)

-- Only VALID provenance with no subject mismatch counts as trusted.
pub map_provenance-trusted_iff :
    (e : Provenance)
    → ((map_provenance (some e)).normalized ≡ verified_trusted)
      ↔ ((e.status ≡ some "VALID") × (includes e.reason_codes "BND-002" ≡ false))
unfolding map_provenance
map_provenance-trusted_iff e =
    ground (arith, is_iff e.status "VALID", truthy_of_is e.status "VALID" refl)

-- An exception counts as trusted exactly when it is APPROVED and its end, if it has a valid one, has
-- not passed.
pub map_exception-trusted_iff :
    (now : ℕ) (e : PolicyException)
    → ((map_exception now (some e)).normalized ≡ verified_trusted)
      ↔ ((e.status ≡ some "APPROVED") × (lapsed e.valid_until now ≡ false))
unfolding map_exception
map_exception-trusted_iff now e =
    ground (arith, is_iff e.status "APPROVED", truthy_of_is e.status "APPROVED" refl)
