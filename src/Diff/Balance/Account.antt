-- ===== src/Diff/Balance/Account.antt =====
-- The third pass of `analyzeTampering` keeps the balance, and so does the whole.
use tpsr_v.Prelude.{
  ◌≡◌, refl, sym, ◌∙◌, inl, inr, suc, ◌+◌, String, Bool, true, false, Option, some, List, [], ◌∷◌,
  ◌++◌, length, filter, arith, Bool-cases, Option-cases, text_eq, is_empty, if◌then◌else◌,
}
use tpsr_v.Diff.{
  Component, ComponentMap, Change, removed, added, modified, build_component_map, first_pass,
  second_pass, take_named, Merge, merge, is_removed, is_added, is_modified, third_pass, affected,
}
use tpsr_v.Diff.Balance.{
  added_count, removed_count, added_count-append, removed_count-append, first_pass-Balanced,
  second_pass-Balanced, shared-fresh, build_from-Distinct, build_from-total,
}

take_named-count :
    (n : String) (cs : List Change) (u : Option String) (rest : List Change)
    → take_named n cs ≡ some (u, rest)
    → (added_count cs ≡ suc (added_count rest)) × (removed_count cs ≡ removed_count rest)
unfolding take_named
take_named-count n [] u rest e = cc
take_named-count n (added m v ∷ cs) u rest e = elim (Bool-cases (text_eq m n)) [
  | inl y ↦ ground arith
  | inr x ↦ elim (Option-cases (take_named n cs)) [
    | inl f ↦ ground arith
    | inr ((t, r), f) ↦ ground (arith, take_named-count n cs t r f)
  ]
]
take_named-count n (removed m v ∷ cs) u rest e = elim (Option-cases (take_named n cs)) [
  | inl f ↦ ground arith
  | inr ((t, r), f) ↦ ground (arith, take_named-count n cs t r f)
]
take_named-count n (modified m v w ∷ cs) u rest e = elim (Option-cases (take_named n cs)) [
  | inl f ↦ ground arith
  | inr ((t, r), f) ↦ ground (arith, take_named-count n cs t r f)
]

-- What a merge does to the counts.
record Counts (rs injections : List Change) (m : Merge) : Type 0 where
  pub removals_split : removed_count rs ≡ length m.merged + removed_count m.removals
  pub additions_split : added_count injections ≡ length m.merged + added_count m.injections
  pub merged_added : added_count m.merged ≡ 0
  pub merged_removed : removed_count m.merged ≡ 0
  pub removals_added : added_count m.removals ≡ added_count rs
  pub injections_removed : removed_count m.injections ≡ removed_count injections

merge-Counts : (rs injections : List Change) → Counts rs injections (merge rs injections)
unfolding merge
merge-Counts [] injections = record {
  removals_split = refl;
  additions_split = omega arith;
  merged_added = refl;
  merged_removed = refl;
  removals_added = refl;
  injections_removed = refl;
}
merge-Counts (removed n v ∷ rs) injections = elim (Option-cases (take_named n injections)) [
  | inl e ↦
      let c = merge-Counts rs injections in
      rw (e, merge)
        (record {
          removals_split = omega (arith, c.removals_split);
          additions_split = c.additions_split;
          merged_added = c.merged_added;
          merged_removed = c.merged_removed;
          removals_added = c.removals_added;
          injections_removed = c.injections_removed;
        })
  | inr ((u, rest), e) ↦
      let c = merge-Counts rs rest in
      let (a, r) = take_named-count n injections u rest e in
      rw (e, merge)
        (record {
          removals_split = omega (arith, c.removals_split);
          additions_split = omega (arith, c.additions_split, a);
          merged_added = c.merged_added;
          merged_removed = c.merged_removed;
          removals_added = c.removals_added;
          injections_removed = c.injections_removed ∙ sym r;
        })
]
merge-Counts (added n v ∷ rs) injections =
    let c = merge-Counts rs injections in
    record {
      removals_split = c.removals_split;
      additions_split = c.additions_split;
      merged_added = c.merged_added;
      merged_removed = c.merged_removed;
      removals_added = omega (arith, c.removals_added);
      injections_removed = c.injections_removed;
    }
merge-Counts (modified n v u ∷ rs) injections =
    let c = merge-Counts rs injections in
    record {
      removals_split = c.removals_split;
      additions_split = c.additions_split;
      merged_added = c.merged_added;
      merged_removed = c.merged_removed;
      removals_added = c.removals_added;
      injections_removed = c.injections_removed;
    }

filter-removed :
    (cs : List Change)
    → (removed_count (filter is_removed cs) ≡ removed_count cs)
      × (added_count (filter is_removed cs) ≡ 0)
filter-removed [] = (refl, refl)
filter-removed (added n v ∷ cs) = filter-removed cs
filter-removed (removed n v ∷ cs) = ground (arith, filter-removed cs)
filter-removed (modified n v u ∷ cs) = filter-removed cs

filter-added :
    (cs : List Change)
    → (added_count (filter is_added cs) ≡ added_count cs) × (removed_count (filter is_added cs) ≡ 0)
filter-added [] = (refl, refl)
filter-added (added n v ∷ cs) = ground (arith, filter-added cs)
filter-added (removed n v ∷ cs) = filter-added cs
filter-added (modified n v u ∷ cs) = filter-added cs

filter-modified :
    (cs : List Change)
    → (added_count (filter is_modified cs) ≡ 0) × (removed_count (filter is_modified cs) ≡ 0)
filter-modified [] = (refl, refl)
filter-modified (added n v ∷ cs) = filter-modified cs
filter-modified (removed n v ∷ cs) = filter-modified cs
filter-modified (modified n v u ∷ cs) = filter-modified cs

-- Another list of changes with the same surplus of additions over removals.
abbrev SameCount : List Change → List Change → Type 0
SameCount cs ds = added_count cs + removed_count ds ≡ added_count ds + removed_count cs

if-SameCount :
    (cs : List Change) (b : Bool) (x y : List Change)
    → SameCount cs x
    → SameCount cs y
    → SameCount cs (if b then x else y)
if-SameCount cs true x y h k = h
if-SameCount cs false x y h k = k

counts-append :
    (a b c d : List Change)
    → (added_count (a ++ b ++ c ++ d)
        ≡ added_count a + added_count b + added_count c + added_count d)
      × (removed_count (a ++ b ++ c ++ d)
          ≡ removed_count a + removed_count b + removed_count c + removed_count d)
counts-append a b c d = (
  omega (
    arith,
    added_count-append (a ++ b ++ c) d,
    added_count-append (a ++ b) c,
    added_count-append a b,
  ),
  omega (
    arith,
    removed_count-append (a ++ b ++ c) d,
    removed_count-append (a ++ b) c,
    removed_count-append a b,
  ),
)

third_pass-count :
    (cs : List Change)
    → added_count cs + removed_count (third_pass cs)
      ≡ added_count (third_pass cs) + removed_count cs
unfolding third_pass
third_pass-count cs =
    let m : Merge = merge (filter is_removed cs) (filter is_added cs) in
    let c = merge-Counts (filter is_removed cs) (filter is_added cs) in
    let (r, ra) = filter-removed cs in
    let (a, ar) = filter-added cs in
    let (ma, mr) = filter-modified cs in
    if-SameCount cs (is_empty m.merged) cs
      (filter is_modified cs ++ m.merged ++ m.removals ++ m.injections) (omega arith)
      (omega (
        arith,
        r,
        ra,
        a,
        ar,
        ma,
        mr,
        c.removals_split,
        c.additions_split,
        c.merged_added,
        c.merged_removed,
        c.removals_added,
        c.injections_removed,
        counts-append (filter is_modified cs) m.merged m.removals m.injections,
      ))

-- The report accounts for every component: the original's components and the added ones are as many
-- as the submission's and the removed ones, whatever keys and names they share.
pub affected-count :
    (original submitted : List (String × Component))
    → length original + added_count (affected original submitted)
      ≡ length submitted + removed_count (affected original submitted)
unfolding affected build_component_map
affected-count original submitted =
    let orig : ComponentMap = build_component_map original in
    let sub : ComponentMap = build_component_map submitted in
    let cs : List Change = first_pass orig sub ++ second_pass orig sub in
    omega (
      arith,
      third_pass-count cs,
      first_pass-Balanced orig sub,
      second_pass-Balanced orig sub,
      added_count-append (first_pass orig sub) (second_pass orig sub),
      removed_count-append (first_pass orig sub) (second_pass orig sub),
      shared-fresh orig sub (build_from-Distinct [] original tt)
          (build_from-Distinct [] submitted tt),
      build_from-total [] original,
      build_from-total [] submitted,
    )
