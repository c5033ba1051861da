-- ===== src/VexEngine/Overlay/Mitigated.antt =====
-- When an overlay takes the block off a vulnerability.
use tpsr_v.Prelude.{
  ◌≡◌, refl, sym, ap, ◌∙◌, String, true, ◌||◌, List, [], ◌∷◌, In, find, find_holds, find-In, is,
  map, arith, All, subst, option-holds,
}
use tpsr_v.VexEngine.Verify.{non_blocking}
use tpsr_v.VexEngine.Overlay.{
  VexRecord, Vulnerability, Overlaid, is_authoritative, evaluate_statement, concerns, applies,
  overlay, apply_overlays,
}

-- Only an authoritative statement that says `not_affected` or `fixed` is NON_BLOCKING.
evaluate_statement-non_blocking :
    (v : VexRecord)
    → (evaluate_statement v).blocking_status ≡ non_blocking
    → (is_authoritative v ≡ true) × ((is v.status "not_affected" || is v.status "fixed") ≡ true)
unfolding evaluate_statement
evaluate_statement-non_blocking v h = ground arith

-- The statement that takes the block off.
pub record IsMitigated (lower : String → String) (vs : List VexRecord) (u : Vulnerability)
    : Type 0 where
  pub statement : VexRecord
  pub listed : In statement vs
  pub authoritative : is_authoritative statement ≡ true
  pub same : concerns lower u statement ≡ true
  pub says : (is statement.status "not_affected" || is statement.status "fixed") ≡ true

overlay-IsMitigated :
    (lower : String → String) (vs : List VexRecord) (u : Vulnerability)
    → (overlay lower vs u).blocking_status ≡ non_blocking
    → IsMitigated lower vs u
unfolding overlay applies
overlay-IsMitigated lower vs u =
    option-holds (λ (o : Overlaid). o.blocking_status ≡ non_blocking → IsMitigated lower vs u)
      (find (applies lower u) vs) _ _ (λ k. absurd (ground arith))
      (λ v e k.
        let (a, s) = evaluate_statement-non_blocking v k in
        record {
          statement = v;
          listed = find-In (applies lower u) vs e;
          authoritative = a;
          same = ground (arith, find_holds (applies lower u) vs e);
          says = s;
        })

-- What the overlay says of each vulnerability, in their order.
abbrev pub Explained : (String → String) → List VexRecord → Overlaid → Type 0
Explained lower vs o = o.blocking_status ≡ non_blocking → IsMitigated lower vs o.vulnerability

vulnerability-overlay :
    (lower : String → String) (vs : List VexRecord) (u : Vulnerability)
    → (overlay lower vs u).vulnerability ≡ u
unfolding overlay
vulnerability-overlay lower vs u = ground arith

overlays-Explained :
    (lower : String → String) (vs : List VexRecord) (us : List Vulnerability)
    → All (Explained lower vs) (map (overlay lower vs) us)
overlays-Explained lower vs [] = tt
overlays-Explained lower vs (u ∷ us) = (
  λ h.
      subst (IsMitigated lower vs) (sym (vulnerability-overlay lower vs u))
        (overlay-IsMitigated lower vs u h),
  overlays-Explained lower vs us,
)

abbrev pub vulnerability_of : Overlaid → Vulnerability
vulnerability_of o = o.vulnerability

overlays-same :
    (lower : String → String) (vs : List VexRecord) (us : List Vulnerability)
    → map vulnerability_of (map (overlay lower vs) us) ≡ us
overlays-same lower vs [] = refl
overlays-same lower vs (u ∷ us) =
    ap (λ x. x ∷ map vulnerability_of (map (overlay lower vs) us))
      (vulnerability-overlay lower vs u)
    ∙ ap (λ xs. u ∷ xs) (overlays-same lower vs us)

-- The overlay keeps every vulnerability in its place, and one is NON_BLOCKING only where the list has an
-- authoritative statement for its id, in any case, that says `not_affected` or `fixed`.
pub apply_overlays-Explained :
    (lower : String → String) (us : List Vulnerability) (vs : List VexRecord)
    → (map vulnerability_of (apply_overlays lower us vs).0 ≡ us)
      × All (Explained lower vs) (apply_overlays lower us vs).0
unfolding apply_overlays
apply_overlays-Explained lower us vs = (overlays-same lower vs us, overlays-Explained lower vs us)
