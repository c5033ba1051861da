-- ===== src/Diff.antt =====
-- api/src/utils/sbomDiffEngine.js: how the components of a submitted SBOM differ from those of the
-- original (`analyzeTampering`). The key of a component (`getStableKey`) and the changed metadata
-- fields (`diffMetadataFields`) are arguments.
pub mod Balance
pub mod Same
mod Tests
use tpsr_v.Prelude.{
  ℕ, String, Bool, true, false, not, ◌&&◌, ◌||◌, Option, none, some, List, [], ◌∷◌, ◌++◌, text_eq,
  same_text, any, filter, is_empty, if◌then◌else◌,
}

-- An entry of the map of components.
pub record Component : Type 0 where
  pub name : String
  pub version : Option String

pub data ChangeType : Type 0 where
  component_injection component_removal version_modification metadata_modification
        other_modification :
      ChangeType

-- An element of `affectedComponents`: removed from the original, added by the submission, or with
-- another version.
pub data Change : Type 0 where
  removed : String → Option String → Change
  added : String → Option String → Change
  modified : String → Option String → Option String → Change

-- A map from keys to lists of components, in insertion order.
abbrev pub ComponentMap : Type 0
ComponentMap = List (String × List Component)

-- `map.get(key) || []`
pub get : ComponentMap → String → List Component
get [] key = []
get ((k, cs) ∷ rest) key = let later = get rest key in if text_eq k key then cs else later

pub has : ComponentMap → String → Bool
has [] key = false
has ((k, cs) ∷ rest) key = text_eq k key || has rest key

-- `map.get(key).push(component)`, with a new entry at the end for a new key.
pub push : String → Component → ComponentMap → ComponentMap
push key c [] = (key, c ∷ []) ∷ []
push key c ((k, cs) ∷ rest) =
    let later = push key c rest in
    if text_eq k key then (k, cs ++ c ∷ []) ∷ rest else (k, cs) ∷ later

pub build_from : ComponentMap → List (String × Component) → ComponentMap
build_from m [] = m
build_from m ((key, c) ∷ rest) = build_from (push key c m) rest

-- `buildComponentMap`, on the components with their keys
pub build_component_map : List (String × Component) → ComponentMap
build_component_map cs = build_from [] cs

pub removals_of : List Component → List Change
removals_of [] = []
removals_of (c ∷ cs) = removed c.name c.version ∷ removals_of cs

pub additions_of : List Component → List Change
additions_of [] = []
additions_of (c ∷ cs) = added c.name c.version ∷ additions_of cs

-- `unmatchedSub` without its first component of the version, none if it has none.
pub take_version : Option String → List Component → Option (List Component)
take_version v [] = none
take_version v (c ∷ cs) =
    if same_text c.version v
    then some cs
    else elim (take_version v cs) [ none ↦ none | some rest ↦ some (c ∷ rest) ]

-- `unmatchedOrig` and what is left of `unmatchedSub`.
pub match_versions : List Component → List Component → List Component × List Component
match_versions [] sub = ([], sub)
match_versions (c ∷ cs) sub = elim (take_version c.version sub) [
  | some rest ↦ match_versions cs rest
  | none ↦ let (o, s) = match_versions cs sub in (c ∷ o, s)
]

-- The three loops: pairs are modified, the rest is removed or added.
pub pair_up : List Component → List Component → List Change
pair_up [] sub = additions_of sub
pair_up (o ∷ os) [] = removals_of (o ∷ os)
pair_up (o ∷ os) (s ∷ ss) = modified o.name o.version s.version ∷ pair_up os ss

pub compare_many : List Component → List Component → List Change
compare_many orig sub = pair_up (match_versions orig sub).0 (match_versions orig sub).1

-- One key of the original map.
pub compare_key : List Component → List Component → List Change
compare_key orig [] = removals_of orig
compare_key (o ∷ []) (s ∷ []) =
    if same_text o.version s.version then [] else modified o.name o.version s.version ∷ []
compare_key orig sub = compare_many orig sub

-- Pass 1
pub first_pass : ComponentMap → ComponentMap → List Change
first_pass [] sub = []
first_pass ((key, cs) ∷ rest) sub = compare_key cs (get sub key) ++ first_pass rest sub

-- Pass 2
pub second_pass : ComponentMap → ComponentMap → List Change
second_pass orig [] = []
second_pass orig ((key, cs) ∷ rest) =
    (if has orig key then [] else additions_of cs) ++ second_pass orig rest

-- The first injection with the name, and the injections without it.
pub take_named : String → List Change → Option (Option String × List Change)
take_named n [] = none
take_named n (added m v ∷ cs) =
    if text_eq m n
    then some (v, cs)
    else elim (take_named n cs) [ none ↦ none | some (u, rest) ↦ some (u, added m v ∷ rest) ]
take_named n (c ∷ cs) = elim (take_named n cs) [ none ↦ none | some (u, rest) ↦ some (u, c ∷ rest) ]

-- The pairs that pass 3 merges, the removals that are left, and the injections that are left.
pub record Merge : Type 0 where
  pub merged : List Change
  pub removals : List Change
  pub injections : List Change

pub merge : List Change → List Change → Merge
merge [] injections = record { merged = []; removals = []; injections = injections }
merge (removed n v ∷ rs) injections = elim (take_named n injections) [
  | some (u, rest) ↦ let m = merge rs rest in record m { merged = modified n v u ∷ m.merged }
  | none ↦ let m = merge rs injections in record m { removals = removed n v ∷ m.removals }
]
merge (c ∷ rs) injections = let m = merge rs injections in record m { removals = c ∷ m.removals }

abbrev pub is_removed : Change → Bool
is_removed (removed n v) = true
is_removed _ = false

abbrev pub is_added : Change → Bool
is_added (added n v) = true
is_added _ = false

abbrev pub is_modified : Change → Bool
is_modified (modified n v u) = true
is_modified _ = false

-- Pass 3
pub third_pass : List Change → List Change
third_pass cs =
    let m = merge (filter is_removed cs) (filter is_added cs) in
    if is_empty m.merged
    then cs
    else filter is_modified cs ++ m.merged ++ m.removals ++ m.injections

-- `affectedComponents`
pub affected : List (String × Component) → List (String × Component) → List Change
affected original submitted =
    let orig = build_component_map original in
    let sub = build_component_map submitted in
    third_pass (first_pass orig sub ++ second_pass orig sub)

-- `primaryType`, from the changes and whether a metadata field differs.
pub primary_type : List Change → Bool → ChangeType
primary_type cs metadata =
    if any is_added cs
    then component_injection
    else if any is_removed cs
    then component_removal
    else if any is_modified cs
    then version_modification
    else if metadata
    then metadata_modification
    else other_modification
