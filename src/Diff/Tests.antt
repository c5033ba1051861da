-- ===== src/Diff/Tests.antt =====
-- The differences between two small SBOMs.
use tpsr_v.Prelude.{◌≡◌, refl, ◌+◌, String, true, some, List, [], ◌∷◌, length, text_eq, same_text}
use tpsr_v.Diff.{
  Component, added, modified, component_injection, get, has, push, build_from, build_component_map,
  removals_of, additions_of, take_version, match_versions, pair_up, compare_many, compare_key,
  first_pass, second_pass, take_named, merge, third_pass, affected, primary_type,
}
use tpsr_v.Diff.Balance.{added_count, removed_count}
use tpsr_v.Diff.Balance.Account.{affected-count}
use tpsr_v.Diff.Same.{affected_self}

abbrev part : String → String → Component
part n v = record { name = n; version = some v }

-- Of `express` version 1 becomes 3, `left` changes its key, and `evil` is new.
abbrev original : List (String × Component)
original = ("a", part "express" "1") ∷ ("a", part "express" "2") ∷ ("b", part "left" "1") ∷ []

abbrev submitted : List (String × Component)
submitted =
    ("a", part "express" "2")
    ∷ ("a", part "express" "3")
    ∷ ("c", part "left" "2")
    ∷ ("d", part "evil" "1")
    ∷ []

affected_run :
    affected original submitted
    ≡ modified "express" (some "1") (some "3")
      ∷ modified "left" (some "1") (some "2")
      ∷ added "evil" (some "1")
      ∷ []
unfolding affected build_component_map build_from push get has first_pass second_pass third_pass
    merge take_named compare_key compare_many match_versions take_version pair_up removals_of
    additions_of text_eq same_text
affected_run = refl

primary_run : primary_type (added "evil" (some "1") ∷ []) true ≡ component_injection
unfolding primary_type
primary_run = refl

affected-count_example :
    length original + added_count (affected original submitted)
    ≡ length submitted + removed_count (affected original submitted)
affected-count_example = affected-count original submitted

affected_self_example : affected original original ≡ []
affected_self_example = affected_self original
