-- ===== src/Lifecycle/Routes/Trail/Loop.antt =====
-- The loop of an activation that supersedes the other documents of its software.
use tpsr_v.Prelude.{
  ◌≡◌, refl, sym, ap, ◌∙◌, subst, inl, inr, ℕ, String, Bool, false, Option, some, List, [], ◌∷◌,
  text_eq, text_eq_iff, Bool-cases, arith, if-holds_given, zero, suc, take,
}
use tpsr_v.Lifecycle.{
  Status, active, superseded, Document, Call, supersede_sbom, target, World, Env, submitter, commit,
}
use tpsr_v.Lifecycle.Routes.Store.{same_status_eq, status_of, status_of-commit_other}
use tpsr_v.Lifecycle.Routes.{supersede_round, supersede_others, supersede_previous, to_active}
use tpsr_v.Lifecycle.{update_status}
use tpsr_v.Prelude.{In, here, there}
use tpsr_v.Lifecycle.Routes.Store.{status_in}
use tpsr_v.Lifecycle.Routes.Trail.{
  Edge, replacement, Follows, Follows-refl, Follows-trans, commit-Follows, some_eq,
}

-- `sbom_id` is UNIQUE.
abbrev pub Differs : Document → List Document → Type 0
Differs d ds = (p : Document) → In p ds → text_eq d.sbom_id p.sbom_id ≡ false

abbrev pub DistinctIds : List Document → Type 0
DistinctIds [] = Unit {0}
DistinctIds (d ∷ ds) = Differs d ds × DistinctIds ds

In-take : (n : ℕ) (ds : List Document) (p : Document) → In p (take n ds) → In p ds
In-take zero ds p m = elim m [ ]
In-take (suc n) [] p m = elim m [ ]
In-take (suc n) (d ∷ ds) p (here e) = here e
In-take (suc n) (d ∷ ds) p (there m) = there (In-take n ds p m)

take-DistinctIds : (n : ℕ) (ds : List Document) → DistinctIds ds → DistinctIds (take n ds)
take-DistinctIds zero ds u = tt
take-DistinctIds (suc n) [] u = tt
take-DistinctIds (suc n) (d ∷ ds) (f, u) = (λ p m. f p (In-take n ds p m), take-DistinctIds n ds u)

-- An update keeps the ids.
update-In :
    (id : String) (s : Status) (tx who : Option String) (ds : List Document) (p : Document)
    → In p (update_status id s tx who ds)
    → (q : Document) × In q ds × (q.sbom_id ≡ p.sbom_id)
unfolding update_status
update-In id s tx who [] p m = elim m [ ]
update-In id s tx who (d ∷ ds) p (there m) =
    let (q, n, e) = update-In id s tx who ds p m in (q, there n, e)
update-In id s tx who (d ∷ ds) p (here e) = (d, here refl, ground (arith, ap (λ x. x.sbom_id) e))

update-DistinctIds :
    (id : String) (s : Status) (tx who : Option String) (ds : List Document)
    → DistinctIds ds
    → DistinctIds (update_status id s tx who ds)
unfolding update_status
update-DistinctIds id s tx who [] u = tt
update-DistinctIds id s tx who (d ∷ ds) (f, u) = (
  λ p m.
      let (q, n, e) = update-In id s tx who ds p m in
      ground (arith, f q n, ap (text_eq d.sbom_id) e),
  update-DistinctIds id s tx who ds u,
)

commit-DistinctIds :
    (env : Env) (call : Call) (id : String) (who : Option String) (w : World)
    → DistinctIds w.documents
    → DistinctIds (commit env call id who w).0.documents
unfolding commit
commit-DistinctIds env call id who w u = elim (Bool-cases (env.accepts call id)) [
  | inl a ↦ elim (Bool-cases (env.updates id (target call))) [
    | inl y ↦
        rw (a, y)
          (update-DistinctIds id (target call) (some (env.transaction_id call id)) who w.documents
            u)
    | inr n ↦ rw (a, n) u
  ]
  | inr a ↦ rw a u
]

-- Where ids are distinct, each row has the status of its id.
abbrev HaveStatus : World → List Document → Type 0
HaveStatus w ps = (p : Document) → In p ps → status_of w p.sbom_id ≡ some p.status

status_in-In :
    (ds : List Document) (p : Document)
    → DistinctIds ds
    → In p ds
    → status_in ds p.sbom_id ≡ some p.status
status_in-In [] p u m = elim m [ ]
status_in-In (d ∷ ds) p (f, u) (here e) =
    ground (arith, text_eq_iff d.sbom_id p.sbom_id, ap (λ x. x.sbom_id) e, ap (λ x. x.status) e)
status_in-In (d ∷ ds) p (f, u) (there m) = ground (arith, f p m, status_in-In ds p u m)

module _ (From : Status → Type 0) (own : String → Bool) (id : String)
    (others : (j : String) → text_eq j id ≡ false → own j ≡ false) where
  -- A round follows where the status of the other document may be replaced.
  round-Follows :
      (env : Env) (d : Document) (who : Option String) (p : Document) (w : World)
      → (p.status ≡ active → (s : Status) → status_of w p.sbom_id ≡ some s → From s)
      → Follows From to_active own w (supersede_round env id d who p w)
  unfolding supersede_round
  round-Follows env d who p w h =
      if-holds_given (Follows From to_active own w) _ _ w
        (λ y. commit-Follows From to_active own env supersede_sbom p.sbom_id who w (λ s e.
          subst (λ o. Edge From to_active o s superseded)
            (sym (others p.sbom_id (ground (arith, y))))
            (replacement (h (same_status_eq p.status active (ground (arith, y))) s e))))
        (λ n. Follows-refl From to_active own w)

  others-Follows :
      (env : Env) (d : Document) (who : Option String) (ps : List Document) (w : World)
      → ((s : Status) → From s)
      → Follows From to_active own w (supersede_others env id d who ps w)
  unfolding supersede_others
  others-Follows env d who [] w f = Follows-refl From to_active own w
  others-Follows env d who (p ∷ ps) w f =
      Follows-trans From to_active own w (supersede_round env id d who p w)
        (supersede_others env id d who ps (supersede_round env id d who p w))
        (round-Follows env d who p w (λ a s e. f s))
        (others-Follows env d who ps (supersede_round env id d who p w) f)

  -- Whatever may be replaced.
  pub previous-Follows :
      (env : Env) (d : Document) (w : World)
      → ((s : Status) → From s)
      → Follows From to_active own w (supersede_previous env id d w)
  unfolding supersede_previous
  previous-Follows env d w f =
      if-holds_given (Follows From to_active own w) env.lists _ w
        (λ _. others-Follows env d (submitter env id) (take 500 w.documents) w f)
        (λ _. Follows-refl From to_active own w)

round-other :
    (env : Env) (id : String) (d : Document) (who : Option String) (p : Document) (w : World)
    (j : String)
    → text_eq p.sbom_id j ≡ false
    → status_of (supersede_round env id d who p w) j ≡ status_of w j
unfolding supersede_round
round-other env id d who p w j n =
    ground (arith, status_of-commit_other env supersede_sbom p.sbom_id j who w n)

abbrev pub IsActive : Status → Type 0
IsActive s = s ≡ active

module _ (own : String → Bool) (id : String)
    (others : (j : String) → text_eq j id ≡ false → own j ≡ false) where
  IsActive-Follows :
      (env : Env) (d : Document) (who : Option String) (ps : List Document) (w : World)
      → DistinctIds ps
      → HaveStatus w ps
      → Follows IsActive to_active own w (supersede_others env id d who ps w)
  unfolding supersede_others
  IsActive-Follows env d who [] w u h = Follows-refl IsActive to_active own w
  IsActive-Follows env d who (p ∷ ps) w (f, u) h =
      Follows-trans IsActive to_active own w (supersede_round env id d who p w)
        (supersede_others env id d who ps (supersede_round env id d who p w))
        (round-Follows IsActive own id others env d who p w
          (λ a s e. some_eq s active (sym e ∙ h p (here refl) ∙ ap some a)))
        (IsActive-Follows env d who ps (supersede_round env id d who p w) u
          (λ q m. round-other env id d who p w q.sbom_id (f q m) ∙ h q (there m)))

  -- Only ACTIVE documents are superseded after an activation.
  pub previous-IsActive-Follows :
      (env : Env) (d : Document) (call : Call) (who : Option String) (w : World)
      → DistinctIds w.documents
      → let next : World = (commit env call id who w).0 in
        Follows IsActive to_active own next (supersede_previous env id d next)
  unfolding supersede_previous
  previous-IsActive-Follows env d call who w u =
      let next : World = (commit env call id who w).0 in
      let v = commit-DistinctIds env call id who w u in
      if-holds_given (Follows IsActive to_active own next) env.lists _ next
        (λ _.
          IsActive-Follows env d (submitter env id) (take 500 next.documents) next
            (take-DistinctIds 500 next.documents v)
            (λ p m. status_in-In next.documents p v (In-take 500 next.documents p m)))
        (λ _. Follows-refl IsActive to_active own next)
