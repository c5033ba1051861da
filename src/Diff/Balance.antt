-- ===== src/Diff/Balance.antt =====
-- The changes that are reported account for every component.
pub mod Account
use tpsr_v.Prelude.{
  ◌≡◌, refl, sym, ap, ◌∙◌, ◌⊎◌, inl, inr, ℕ, zero, suc, ◌+◌, String, Bool, true, false, not, ◌&&◌,
  ◌||◌, Option, none, some, List, [], ◌∷◌, ◌++◌, length, length-append, filter, arith, Bool-cases,
  Option-cases, text_eq, text_eq_iff, same_text, is_empty, if◌then◌else◌,
}
use tpsr_v.Diff.{
  Component, ComponentMap, Change, removed, added, modified, get, has, push, build_from,
  build_component_map, removals_of, additions_of, take_version, match_versions, pair_up,
  compare_many, compare_key, first_pass, second_pass, take_named, merge, is_removed, is_added,
  is_modified, third_pass, affected,
}

-- How many changes add or remove a component.
abbrev pub added_count : List Change → ℕ
added_count [] = 0
added_count (added n v ∷ cs) = suc (added_count cs)
added_count (removed n v ∷ cs) = added_count cs
added_count (modified n v u ∷ cs) = added_count cs

abbrev pub removed_count : List Change → ℕ
removed_count [] = 0
removed_count (added n v ∷ cs) = removed_count cs
removed_count (removed n v ∷ cs) = suc (removed_count cs)
removed_count (modified n v u ∷ cs) = removed_count cs

pub added_count-append :
    (xs ys : List Change) → added_count (xs ++ ys) ≡ added_count xs + added_count ys
added_count-append [] ys = omega arith
added_count-append (added n v ∷ cs) ys = omega (arith, added_count-append cs ys)
added_count-append (removed n v ∷ cs) ys = added_count-append cs ys
added_count-append (modified n v u ∷ cs) ys = added_count-append cs ys

pub removed_count-append :
    (xs ys : List Change) → removed_count (xs ++ ys) ≡ removed_count xs + removed_count ys
removed_count-append [] ys = omega arith
removed_count-append (added n v ∷ cs) ys = removed_count-append cs ys
removed_count-append (removed n v ∷ cs) ys = omega (arith, removed_count-append cs ys)
removed_count-append (modified n v u ∷ cs) ys = removed_count-append cs ys

-- The changes from `m` components to `n` are balanced.
abbrev pub Balanced : ℕ → ℕ → List Change → Type 0
Balanced m n cs = m + added_count cs ≡ n + removed_count cs

removals_of-Balanced : (cs : List Component) → Balanced (length cs) 0 (removals_of cs)
unfolding removals_of
removals_of-Balanced [] = refl
removals_of-Balanced (c ∷ cs) = omega (arith, removals_of-Balanced cs)

additions_of-Balanced : (cs : List Component) → Balanced 0 (length cs) (additions_of cs)
unfolding additions_of
additions_of-Balanced [] = refl
additions_of-Balanced (c ∷ cs) = omega (arith, additions_of-Balanced cs)

pair_up-Balanced : (os ss : List Component) → Balanced (length os) (length ss) (pair_up os ss)
unfolding pair_up
pair_up-Balanced [] ss = additions_of-Balanced ss
pair_up-Balanced (o ∷ os) [] = removals_of-Balanced (o ∷ os)
pair_up-Balanced (o ∷ os) (s ∷ ss) = omega (arith, pair_up-Balanced os ss)

take_version-length :
    (v : Option String) (cs rest : List Component)
    → take_version v cs ≡ some rest
    → length cs ≡ suc (length rest)
unfolding take_version
take_version-length v [] rest e = cc
take_version-length v (c ∷ cs) rest e = elim (Bool-cases (same_text c.version v)) [
  | inl y ↦ ground arith
  | inr n ↦ elim (Option-cases (take_version v cs)) [
    | inl f ↦ ground arith
    | inr (r, f) ↦ ground (arith, take_version-length v cs r f)
  ]
]

match_versions-length :
    (os ss : List Component)
    → length os + length (match_versions os ss).1 ≡ length ss + length (match_versions os ss).0
unfolding match_versions
match_versions-length [] ss = omega arith
match_versions-length (o ∷ os) ss = elim (Option-cases (take_version o.version ss)) [
  | inl n ↦ rw (n, match_versions) (omega (arith, match_versions-length os ss))
  | inr (r, e) ↦
      rw (e, match_versions)
        (omega (arith, take_version-length o.version ss r e, match_versions-length os r))
]

compare_many-Balanced :
    (os ss : List Component) → Balanced (length os) (length ss) (compare_many os ss)
unfolding compare_many
compare_many-Balanced os ss = omega (
  arith,
  match_versions-length os ss,
  pair_up-Balanced (match_versions os ss).0 (match_versions os ss).1,
)

compare_key-Balanced :
    (os ss : List Component) → Balanced (length os) (length ss) (compare_key os ss)
unfolding compare_key
compare_key-Balanced os [] = removals_of-Balanced os
compare_key-Balanced (o ∷ []) (s ∷ []) = ground arith
compare_key-Balanced [] (s ∷ ss) = compare_many-Balanced [] (s ∷ ss)
compare_key-Balanced (o ∷ []) (s ∷ t ∷ ss) = compare_many-Balanced (o ∷ []) (s ∷ t ∷ ss)
compare_key-Balanced (o ∷ p ∷ os) (s ∷ ss) = compare_many-Balanced (o ∷ p ∷ os) (s ∷ ss)

-- How many components a map holds, and how many of another map stand under its keys.
abbrev pub total : ComponentMap → ℕ
total [] = 0
total ((k, cs) ∷ rest) = length cs + total rest

abbrev pub shared : ComponentMap → ComponentMap → ℕ
shared [] sub = 0
shared ((k, cs) ∷ rest) sub = length (get sub k) + shared rest sub

pub first_pass-Balanced :
    (orig sub : ComponentMap) → Balanced (total orig) (shared orig sub) (first_pass orig sub)
unfolding first_pass
first_pass-Balanced [] sub = refl
first_pass-Balanced ((k, cs) ∷ rest) sub = omega (
  arith,
  compare_key-Balanced cs (get sub k),
  first_pass-Balanced rest sub,
  added_count-append (compare_key cs (get sub k)) (first_pass rest sub),
  removed_count-append (compare_key cs (get sub k)) (first_pass rest sub),
)

-- The components under the keys that the original does not have.
abbrev pub fresh : ComponentMap → ComponentMap → ℕ
fresh orig [] = 0
fresh orig ((k, cs) ∷ rest) = (if has orig k then 0 else length cs) + fresh orig rest

pub second_pass-Balanced :
    (orig sub : ComponentMap) → Balanced 0 (fresh orig sub) (second_pass orig sub)
unfolding second_pass
second_pass-Balanced orig [] = refl
second_pass-Balanced orig ((k, cs) ∷ rest) = ground (
  arith,
  additions_of-Balanced cs,
  second_pass-Balanced orig rest,
  added_count-append (additions_of cs) (second_pass orig rest),
  removed_count-append (additions_of cs) (second_pass orig rest),
)

-- Each key of a map stands once.
abbrev pub Distinct : ComponentMap → Type 0
Distinct [] = Unit
Distinct ((k, cs) ∷ rest) = (has rest k ≡ false) × Distinct rest

get-unknown : (m : ComponentMap) (k : String) → has m k ≡ false → get m k ≡ []
unfolding get has
get-unknown [] k h = refl
get-unknown ((j, cs) ∷ rest) k h = ground (arith, get-unknown rest k)

-- A new entry of the submitted map is shared if the original has its key.
shared-absent :
    (orig : ComponentMap) (k : String) (cs : List Component) (rest : ComponentMap)
    → has orig k ≡ false
    → shared orig ((k, cs) ∷ rest) ≡ shared orig rest
unfolding has get
shared-absent [] k cs rest h = refl
shared-absent ((j, ds) ∷ orig) k cs rest h =
    ground (arith, shared-absent orig k cs rest, text_eq_iff j k, text_eq_iff k j)

shared-present :
    (orig : ComponentMap) (k : String) (cs : List Component) (rest : ComponentMap)
    → Distinct orig
    → has rest k ≡ false
    → has orig k ≡ true
    → shared orig ((k, cs) ∷ rest) ≡ length cs + shared orig rest
unfolding has get
shared-present [] k cs rest u f h = cc
shared-present ((j, ds) ∷ orig) k cs rest (n, u) f h = elim (Bool-cases (text_eq j k)) [
  | inl y ↦ ground (
    arith,
    (text_eq_iff j k).0 y,
    text_eq_iff k j,
    shared-absent orig k cs rest (ap (has orig) (sym ((text_eq_iff j k).0 y)) ∙ n),
    ap length (get-unknown rest k f),
    ap (get rest) ((text_eq_iff j k).0 y),
  )
  | inr x ↦
      ground
        (arith, text_eq_iff j k, text_eq_iff k j, shared-present orig k cs rest u f (ground arith))
]

shared-none : (orig : ComponentMap) → shared orig [] ≡ 0
unfolding get
shared-none [] = refl
shared-none ((j, ds) ∷ orig) = omega (arith, shared-none orig)

pub shared-fresh :
    (orig sub : ComponentMap)
    → Distinct orig
    → Distinct sub
    → shared orig sub + fresh orig sub ≡ total sub
shared-fresh orig [] u v = omega (arith, shared-none orig)
shared-fresh orig ((k, cs) ∷ rest) u (n, v) = elim (Bool-cases (has orig k)) [
  | inl y ↦ ground (arith, shared-fresh orig rest u v, shared-present orig k cs rest u n y)
  | inr x ↦ ground (arith, shared-fresh orig rest u v, shared-absent orig k cs rest x)
]

has-push :
    (key k : String) (c : Component) (m : ComponentMap)
    → has m k ≡ false
    → text_eq key k ≡ false
    → has (push key c m) k ≡ false
unfolding has push
has-push key k c [] h n = ground arith
has-push key k c ((j, cs) ∷ rest) h n = ground (arith, has-push key k c rest)

push-Distinct :
    (key : String) (c : Component) (m : ComponentMap) → Distinct m → Distinct (push key c m)
unfolding has push
push-Distinct key c [] u = (refl, tt)
push-Distinct key c ((j, cs) ∷ rest) (n, u) = elim (Bool-cases (text_eq j key)) [
  | inl y ↦ rw y (n, u)
  | inr x ↦ rw x (
    has-push key j c rest n (ground (arith, text_eq_iff j key, text_eq_iff key j)),
    push-Distinct key c rest u,
  )
]

push-total :
    (key : String) (c : Component) (m : ComponentMap) → total (push key c m) ≡ suc (total m)
unfolding push
push-total key c [] = omega arith
push-total key c ((j, cs) ∷ rest) = ground (arith, push-total key c rest, length-append cs (c ∷ []))

pub build_from-Distinct :
    (m : ComponentMap) (cs : List (String × Component)) → Distinct m → Distinct (build_from m cs)
unfolding build_from
build_from-Distinct m [] u = u
build_from-Distinct m ((k, c) ∷ cs) u = build_from-Distinct (push k c m) cs (push-Distinct k c m u)

pub build_from-total :
    (m : ComponentMap) (cs : List (String × Component))
    → total (build_from m cs) ≡ total m + length cs
unfolding build_from
build_from-total m [] = omega arith
build_from-total m ((k, c) ∷ cs) = omega (arith, build_from-total (push k c m) cs, push-total k c m)
