-- ===== src/Evidence/Vex.antt =====
-- The vulnerabilities and VEX statements of api/src/services/contextRiskEvidenceAssembler.js.
use tpsr_v.Prelude.{
  ◌≡◌, refl, ◌⊎◌, Option-cases, String, Bool, true, false, not, ◌&&◌, ◌||◌, Option, none, some,
  List, [], ◌∷◌, ◌++◌, find, find_holds, map, is, truthy, or_else, or_text, same_text, text_eq,
  to_upper_case, if◌then◌else◌, inl, inr,
}
use tpsr_v.ContextRisk.{Vulnerability}
use tpsr_v.Evidence.{VexStatement, RawVulnerability, Component, SbomDocument}

-- `mappedSev`
unfoldable pub mapped_severity : RawVulnerability → String
mapped_severity v = elim v.ratings [
  | [] ↦ declared
  | r ∷ rs ↦ elim r [
    | none ↦ declared
    | some s ↦ if text_eq s "" then declared else to_upper_case s
  ]
]
  where
    declared : String
    declared = or_text (or_else v.original_severity v.severity) "UNKNOWN"

-- `{ ...v, componentId, originalSeverity: mappedSev, severity: mappedSev }`
unfoldable pub normalize_vulnerability : Option String → RawVulnerability → Vulnerability
normalize_vulnerability component v = record {
  id = v.id;
  cve = v.cve;
  vulnerability_id = v.vulnerability_id;
  component_id = component;
  original_severity = some (mapped_severity v);
  severity = some (mapped_severity v);
  vex_applicability = v.vex_applicability;
}

unfoldable pub of_component : Component → List Vulnerability
of_component c =
    map (normalize_vulnerability (some (or_text (or_else c.bom_ref c.name) "unknown")))
      c.vulnerabilities

unfoldable pub of_components : List Component → List Vulnerability
of_components [] = []
of_components (c ∷ cs) = of_component c ++ of_components cs

-- `v['bom-ref'] || 'unknown'`
unfoldable pub top_level : RawVulnerability → Vulnerability
top_level v = normalize_vulnerability (some (or_text v.bom_ref "unknown")) v

-- `vulns`
unfoldable pub collect : SbomDocument → List Vulnerability
collect doc = of_components doc.components ++ map top_level doc.vulnerabilities

-- The filter for `activeVex`.
unfoldable pub is_active : VexStatement → Bool
is_active v =
    v.vex_authoritative
    && is v.signature_status "VERIFIED"
    && truthy v.public_key_fingerprint
    && truthy v.policy_version
    && truthy v.target_binding
    && truthy v.canonical_payload_digest
    && not v.is_deleted
    && not (is v.applicability_disposition "VEX_INVALID")
    && (not (truthy v.assurance_state) || is v.assurance_state "VERIFIED_TRUSTED")

unfoldable pub stated : VexStatement → Option String
stated v = or_else v.applicability_status (or_else v.status v.applicability)

-- `s ? s.toUpperCase() : 'UNKNOWN'`
unfoldable pub upper_or_unknown : Option String → String
upper_or_unknown none = "UNKNOWN"
upper_or_unknown (some s) = if text_eq s "" then "UNKNOWN" else to_upper_case s

-- `(vex.vulnerability_id || vex.cve) === (v.id || v.cve || v.vulnerabilityId)`
unfoldable pub concerns : Vulnerability → VexStatement → Bool
concerns v vex =
    same_text (or_else vex.vulnerability_id vex.cve)
      (or_else v.id (or_else v.cve v.vulnerability_id))

-- The overlay of one vulnerability by the first active statement about it.
unfoldable pub overlay : List VexStatement → Vulnerability → Vulnerability
overlay actives v = elim (find (concerns v) actives) [
  | none ↦ v
  | some vex ↦ record v { vex_applicability = some (upper_or_unknown (stated vex)) }
]

unfoldable pub is_stale : VexStatement → Bool
is_stale v = is v.assurance_state "STALE" || is v.status "STALE"

unfoldable pub is_invalid : VexStatement → Bool
is_invalid v =
    is v.assurance_state "INVALID" || is v.status "INVALID" || is v.signature_status "FAILED"

-- One active statement is trusted; more than one is a conflict.
unfoldable pub is_single : List VexStatement → Bool
is_single (v ∷ []) = true
is_single _ = false

unfoldable pub is_several : List VexStatement → Bool
is_several (v ∷ w ∷ vs) = true
is_several _ = false

-- An overlay keeps the identity and the severity of the vulnerability, and changes its
-- applicability only to what an active statement about it says.
pub overlay_lem :
    (actives : List VexStatement) (v : Vulnerability)
    → let o = overlay actives v in
      (o.id ≡ v.id)
      × (o.severity ≡ v.severity)
      × ((o ≡ v)
          ⊎ ((vex : VexStatement) × (concerns v vex ≡ true)
              × (o.vex_applicability ≡ some (upper_or_unknown (stated vex)))))
unfolding overlay
overlay_lem actives v = elim (Option-cases (find (concerns v) actives)) [
  | inl n ↦ rw (n, overlay) (refl, refl, inl refl)
  | inr (w, e) ↦ rw (e, overlay) (refl, refl, inr (w, find_holds (concerns v) actives e, refl))
]
