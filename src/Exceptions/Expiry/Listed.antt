-- ===== src/Exceptions/Expiry/Listed.antt =====
-- The SBOMs of a sweep: the list that stands for the Set of the worker.
use tpsr_v.Prelude.{
  ◌≡◌, refl, sym, ap, subst, inl, inr, String, true, Option, none, some, List, [], ◌∷◌, In, here,
  there, In-append_left, In-append_right, text_eq_iff, Bool-cases, arith,
}
use tpsr_v.Exceptions.{Row}
use tpsr_v.Exceptions.Expiry.{VexRow, same_sbom, holds_sbom, add_sbom, add_rows, add_vex}

pub same_sbom_eq : (a b : Option String) → same_sbom a b ≡ true → a ≡ b
same_sbom_eq none none h = refl
same_sbom_eq (some s) (some t) h = ap some ((text_eq_iff s t).0 h)
same_sbom_eq none (some t) h = cc
same_sbom_eq (some s) none h = cc

pub holds_sbom-In :
    (xs : List (Option String)) (s : Option String) → holds_sbom xs s ≡ true → In s xs
holds_sbom-In [] s h = cc
holds_sbom-In (x ∷ xs) s h = elim (Bool-cases (same_sbom x s)) [
  | inl y ↦ here (sym (same_sbom_eq x s y))
  | inr n ↦ there (holds_sbom-In xs s (ground arith))
]

pub add_sbom-In : (s : Option String) (xs : List (Option String)) → In s (add_sbom s xs)
unfolding add_sbom
add_sbom-In s xs = elim (Bool-cases (holds_sbom xs s)) [
  | inl y ↦ rw y (holds_sbom-In xs s y)
  | inr n ↦ rw n (In-append_right xs (s ∷ []) (here refl))
]

pub add_sbom-keeps :
    (s t : Option String) (xs : List (Option String)) → In t xs → In t (add_sbom s xs)
unfolding add_sbom
add_sbom-keeps s t xs m = elim (Bool-cases (holds_sbom xs s)) [
  | inl y ↦ rw y m
  | inr n ↦ rw n (In-append_left xs (s ∷ []) m)
]

pub add_rows-keeps :
    (rs : List Row) (t : Option String) (xs : List (Option String))
    → In t xs
    → In t (add_rows rs xs)
unfolding add_rows
add_rows-keeps [] t xs m = m
add_rows-keeps (r ∷ rs) t xs m = add_rows-keeps rs t _ (add_sbom-keeps r.request.sbom_id t xs m)

pub add_rows-In :
    (rs : List Row) (r : Row) (xs : List (Option String))
    → In r rs
    → In r.request.sbom_id (add_rows rs xs)
unfolding add_rows
add_rows-In [] r xs m = elim m [ ]
add_rows-In (x ∷ rs) r xs (here e) =
    subst (λ s. In s (add_rows (x ∷ rs) xs)) (sym (ap (λ (y : Row). y.request.sbom_id) e))
      (add_rows-keeps rs x.request.sbom_id _ (add_sbom-In x.request.sbom_id xs))
add_rows-In (x ∷ rs) r xs (there m) = add_rows-In rs r _ m

pub add_vex-keeps :
    (vs : List VexRow) (t : Option String) (xs : List (Option String))
    → In t xs
    → In t (add_vex vs xs)
unfolding add_vex
add_vex-keeps [] t xs m = m
add_vex-keeps (v ∷ vs) t xs m = add_vex-keeps vs t _ (add_sbom-keeps (some v.sbom_id) t xs m)
