-- ===== src/VexEngine/Overlay.antt =====
-- `evaluateVexStatement` and `applyVexOverlays`. The two spellings of a field are one field; scores,
-- severities, descriptions and the time of the overlay are left out.
pub mod Mitigated
use tpsr_v.Prelude.{
  String, Bool, true, false, not, ◌&&◌, ◌||◌, Option, none, some, List, [], ◌∷◌, ◌++◌, is, truthy,
  or_else, or_text, text_eq, includes, find, map, if◌then◌else◌,
}
use tpsr_v.VexEngine.Verify.{
  Applicability, not_affected, under_investigation, applicable, Blocking, blocking, review_required,
  non_blocking,
}

-- A stored statement; `valid` is none unless a field says that it is valid or not.
pub record VexRecord : Type 0 where
  pub id : Option String
  pub vulnerability_id : Option String
  pub vex_authoritative : Bool
  pub signature_status : Option String
  pub public_key_fingerprint : Option String
  pub policy_version : Option String
  pub target_binding : Option String
  pub canonical_payload_digest : Option String
  pub valid : Option Bool
  pub status : Option String
  pub justification : Option String

pub record Vulnerability : Type 0 where
  pub id : Option String

-- What the overlay adds to a vulnerability.
pub record Overlaid : Type 0 where
  pub vulnerability : Vulnerability
  pub vex_status : Option String
  pub reason_code : Option String
  pub disposition : Applicability
  pub blocking_status : Blocking

-- The complete authoritative metadata.
unfoldable pub is_authoritative : VexRecord → Bool
is_authoritative v =
    v.vex_authoritative
    && is v.signature_status "VERIFIED"
    && truthy v.public_key_fingerprint
    && truthy v.policy_version
    && truthy v.target_binding
    && truthy v.canonical_payload_digest

pub record Evaluated : Type 0 where
  pub status : Option String
  pub reason_code : String
  pub disposition : Applicability
  pub blocking_status : Blocking

-- `evaluateVexStatement`
unfoldable pub evaluate_statement : VexRecord → Evaluated
evaluate_statement v =
    if not (is_authoritative v)
    then record {
      status = some "unevaluated";
      reason_code = "VEX-012";
      disposition = applicable;
      blocking_status = blocking;
    }
    else if is v.status "not_affected" || is v.status "fixed"
    then record {
      status = v.status;
      reason_code = "VEX-001";
      disposition = not_affected;
      blocking_status = non_blocking;
    }
    else if is v.status "under_investigation"
    then record {
      status = v.status;
      reason_code = "VEX-002";
      disposition = under_investigation;
      blocking_status = review_required;
    }
    else record {
      status = some "affected";
      reason_code = "VEX-003";
      disposition = applicable;
      blocking_status = blocking;
    }

abbrev says_invalid : Option Bool → Bool
says_invalid none = false
says_invalid (some b) = not b

abbrev id_of : Option VexRecord → List String
id_of none = []
id_of (some v) = elim v.id [ none ↦ [] | some i ↦ if text_eq i "" then [] else i ∷ [] ]

-- `Array.from(new Set(activeVexIds))`
unfoldable pub add_ids : List String → List String → List String
add_ids ids [] = ids
add_ids ids (x ∷ xs) = add_ids (if includes ids x then ids else ids ++ x ∷ []) xs

module _ (lower : String → String) where
  -- `targetId && targetId.toLowerCase() === (vulnId || '').toLowerCase()`
  unfoldable pub concerns : Vulnerability → VexRecord → Bool
  concerns u v = elim v.vulnerability_id [
    | none ↦ false
    | some target ↦ not (text_eq target "") && text_eq (lower target) (lower (or_text u.id ""))
  ]

  -- The predicate of `vexStatements.find`.
  unfoldable pub applies : Vulnerability → VexRecord → Bool
  applies u v = is_authoritative v && not (says_invalid v.valid) && concerns u v

  -- The body of the `map`.
  unfoldable pub overlay : List VexRecord → Vulnerability → Overlaid
  overlay vs u = elim (find (applies u) vs) [
    | none ↦ record {
      vulnerability = u;
      vex_status = some "unevaluated";
      reason_code = none;
      disposition = applicable;
      blocking_status = blocking;
    }
    | some v ↦
        let e = evaluate_statement v in
        record {
          vulnerability = u;
          vex_status = e.status;
          reason_code = some e.reason_code;
          disposition = e.disposition;
          blocking_status = e.blocking_status;
        }
  ]

  unfoldable pub active_ids : List VexRecord → List Vulnerability → List String → List String
  active_ids vs [] ids = ids
  active_ids vs (u ∷ us) ids = active_ids vs us (add_ids ids (id_of (find (applies u) vs)))

  -- `applyVexOverlays`
  unfoldable pub apply_overlays : List Vulnerability → List VexRecord → List Overlaid × List String
  apply_overlays us vs = (map (overlay vs) us, active_ids vs us [])
