-- ===== src/Diff/Same.antt =====
-- An SBOM does not differ from itself.
use tpsr_v.Prelude.{
  ◌≡◌, refl, String, true, false, List, [], ◌∷◌, All, arith, text_eq, text_eq_iff, same_text_iff,
}
use tpsr_v.Diff.{
  Component, ComponentMap, get, has, build_component_map, removals_of, take_version, match_versions,
  pair_up, additions_of, compare_many, compare_key, first_pass, second_pass, merge, third_pass,
  affected,
}
use tpsr_v.Diff.Balance.{Distinct, build_from-Distinct}

match_versions_self : (cs : List Component) → match_versions cs cs ≡ ([], [])
unfolding match_versions take_version
match_versions_self [] = refl
match_versions_self (c ∷ cs) =
    rw ((same_text_iff c.version c.version).1 refl, match_versions, take_version)
      (match_versions_self cs)

compare_key_self : (cs : List Component) → compare_key cs cs ≡ []
unfolding compare_key compare_many pair_up additions_of removals_of
compare_key_self [] = refl
compare_key_self (c ∷ []) = ground (arith, same_text_iff c.version c.version)
compare_key_self (c ∷ d ∷ cs) = rw (match_versions_self (c ∷ d ∷ cs)) refl

-- Each entry of the list is what the map has under its key.
abbrev Found : ComponentMap → ComponentMap → Type 0
Found m es = All (λ e. (get m e.0 ≡ e.1) × (has m e.0 ≡ true)) es

abbrev Other : String → ComponentMap → Type 0
Other k es = All (λ e. text_eq k e.0 ≡ false) es

has-Other : (m : ComponentMap) (k : String) → has m k ≡ false → Other k m
unfolding has
has-Other [] k h = tt
has-Other ((j, cs) ∷ rest) k h =
    (ground (arith, text_eq_iff j k, text_eq_iff k j), has-Other rest k (ground arith))

Found-later :
    (k : String) (cs : List Component) (m es : ComponentMap)
    → Other k es
    → Found m es
    → Found ((k, cs) ∷ m) es
unfolding get has
Found-later k cs m [] o f = tt
Found-later k cs m ((j, ds) ∷ es) (o, os) ((g, h), fs) =
    ((ground (arith, g), ground (arith, h)), Found-later k cs m es os fs)

Distinct-Found : (m : ComponentMap) → Distinct m → Found m m
unfolding get has
Distinct-Found [] u = tt
Distinct-Found ((k, cs) ∷ rest) (n, u) = (
  (ground (arith, text_eq_iff k k), ground (arith, text_eq_iff k k)),
  Found-later k cs rest rest (has-Other rest k n) (Distinct-Found rest u),
)

first_pass_self : (m es : ComponentMap) → Found m es → first_pass es m ≡ []
unfolding first_pass
first_pass_self m [] f = refl
first_pass_self m ((k, cs) ∷ es) ((g, h), fs) =
    rw (g, compare_key_self cs, first_pass_self m es fs) refl

second_pass_self : (m es : ComponentMap) → Found m es → second_pass m es ≡ []
unfolding second_pass
second_pass_self m [] f = refl
second_pass_self m ((k, cs) ∷ es) ((g, h), fs) = rw (h, second_pass_self m es fs) refl

-- No component change is reported for an SBOM and itself.
pub affected_self : (s : List (String × Component)) → affected s s ≡ []
unfolding affected build_component_map third_pass merge
affected_self s =
    let m : ComponentMap = build_component_map s in
    let f = Distinct-Found m (build_from-Distinct [] s tt) in
    rw (first_pass_self m m f, second_pass_self m m f) refl
