-- ===== src/Lifecycle/Routes/Release.antt =====
-- An activation leaves its document ACTIVE, and no other one of its software.
use tpsr_v.Prelude.{
  ◌≡◌, refl, sym, ap, ◌∙◌, subst, ◌⊎◌, inl, inr, ℕ, String, Bool, true, false, not, ◌&&◌, length,
  ◌≤◌, zero, suc, Option, some, List, [], ◌∷◌, text_eq, text_eq_iff, Bool-cases, arith,
  if◌then◌else◌, take, In, here, there, In-cons,
}
use tpsr_v.Lifecycle.{
  Status, approved, active, superseded, same_status, Document, Call, supersede_sbom, activate_sbom,
  target, World, Env, document_of, submitter, commit, status_index, update_status,
}
use tpsr_v.Lifecycle.Routes.Walk.{choice-holds, document-holds, trust-holds, IsFailure}
use tpsr_v.Lifecycle.Routes.Store.{status_of, status_of-committed, status_of-document}
use tpsr_v.Lifecycle.Routes.Answer.{supersede_previous-other}
use tpsr_v.Lifecycle.Routes.{
  Body, Outcome, with_trust, supersede_round, supersede_others, supersede_previous, activation,
  activate_route, conflict, wrong_state, respond, requested_id, done, Response, server_error,
}

-- The test of the loop that supersedes earlier releases.
abbrev is_rival : String → Document → Document → Bool
is_rival id d p =
    not (text_eq p.sbom_id id)
    && text_eq p.software_name d.software_name
    && same_status p.status active

-- Each `SupersedeSBOM` and each of its updates succeeds.
abbrev pub Supersedes : Env → Type 0
Supersedes env =
    ((id : String) → env.accepts supersede_sbom id ≡ true)
    × ((id : String) → env.updates id superseded ≡ true)

update_status-In :
    (id : String) (s : Status) (tx who : Option String) (ds : List Document) (x : Document)
    → In x (update_status id s tx who ds)
    → (x.status ≡ s) ⊎ (In x ds × (text_eq x.sbom_id id ≡ false))
unfolding update_status
update_status-In id s tx who [] x m = elim m [ ]
update_status-In id s tx who (d ∷ ds) x (there m) = elim (update_status-In id s tx who ds x m) [
  | inl e ↦ inl e
  | inr (n, e) ↦ inr (there n, e)
]
update_status-In id s tx who (d ∷ ds) x (here e) = elim (Bool-cases (text_eq d.sbom_id id)) [
  | inl y ↦ inl (ap (λ z. z.status) (rw y at e))
  | inr n ↦ inr (here (rw n at e), ap (λ z. text_eq z.sbom_id id) (rw n at e) ∙ n)
]

superseded_no_rival :
    (id : String) (d x : Document) → x.status ≡ superseded → is_rival id d x ≡ true → ⊥
unfolding same_status status_index
superseded_no_rival id d x e h = ground (arith, ap (λ s. same_status s active) e)

supersede_round-In :
    (env : Env) (id : String) (d : Document) (who : Option String) (p : Document) (w : World)
    (x : Document)
    → Supersedes env
    → In x (supersede_round env id d who p w).documents
    → is_rival id d x ≡ true
    → In x w.documents × (is_rival id d p ≡ true → text_eq x.sbom_id p.sbom_id ≡ false)
unfolding supersede_round commit same_status status_index
supersede_round-In env id d who p w x (a, u) m r = elim (Bool-cases (is_rival id d p)) [
  | inl y ↦
      elim (update_status-In p.sbom_id superseded
        (some (env.transaction_id supersede_sbom p.sbom_id)) who w.documents x
        (rw (y, a p.sbom_id, u p.sbom_id) at m)) [
          | inl e ↦ absurd (superseded_no_rival id d x e r)
          | inr (n, e) ↦ (n, λ _. e)
        ]
  | inr n ↦ (rw n at m, λ h. cc)
]

supersede_others-In :
    (env : Env) (id : String) (d : Document) (who : Option String) (ps : List Document) (w : World)
    (x : Document)
    → Supersedes env
    → In x (supersede_others env id d who ps w).documents
    → is_rival id d x ≡ true
    → In x w.documents
      × ((p : Document) → In p ps → is_rival id d p ≡ true → text_eq x.sbom_id p.sbom_id ≡ false)
unfolding supersede_others
supersede_others-In env id d who [] w x s m r = (m, λ p n. elim n [ ])
supersede_others-In env id d who (q ∷ ps) w x s m r =
    let (n, k) = supersede_others-In env id d who ps (supersede_round env id d who q w) x s m r in
    let (i, c) = supersede_round-In env id d who q w x s n r in
    (
      i,
      λ p j h. elim (In-cons j) [
        | inl e ↦ ap (λ z. text_eq x.sbom_id z.sbom_id) e ∙ c (sym (ap (is_rival id d) e) ∙ h)
        | inr j' ↦ k p j' h
      ],
    )

take_all : (n : ℕ) (ds : List Document) → length ds ≤ n → take n ds ≡ ds
take_all zero [] h = refl
take_all (suc n) [] h = refl
take_all zero (d ∷ ds) h = absurd (omega arith)
take_all (suc n) (d ∷ ds) h = ap (λ r. d ∷ r) (take_all n ds (omega arith))

length-update_status :
    (id : String) (s : Status) (tx who : Option String) (ds : List Document)
    → length (update_status id s tx who ds) ≡ length ds
unfolding update_status
length-update_status id s tx who [] = refl
length-update_status id s tx who (d ∷ ds) = omega (arith, length-update_status id s tx who ds)

length-commit :
    (env : Env) (call : Call) (id : String) (who : Option String) (w : World)
    → length (commit env call id who w).0.documents ≡ length w.documents
unfolding commit
length-commit env call id who w = ground (
  arith,
  length-update_status id (target call) (some (env.transaction_id call id)) who w.documents,
)

-- The ACTIVE documents of a software have this id.
abbrev pub Sole : String → Document → World → Type 0
Sole id d w =
    (x : Document)
    → In x w.documents
    → x.software_name ≡ d.software_name
    → x.status ≡ active
    → x.sbom_id ≡ id

active_active : same_status active active ≡ true
unfolding same_status status_index
active_active = refl

rival_of :
    (id : String) (d x : Document)
    → x.software_name ≡ d.software_name
    → x.status ≡ active
    → text_eq x.sbom_id id ≡ false
    → is_rival id d x ≡ true
rival_of id d x n a h = ground (
  arith,
  text_eq_iff x.software_name d.software_name,
  active_active,
  ap (λ s. same_status s active) a,
)

supersede_previous-Sole :
    (env : Env) (id : String) (d : Document) (w : World)
    → Supersedes env
    → env.lists ≡ true
    → length w.documents ≤ 500
    → Sole id d (supersede_previous env id d w)
unfolding supersede_previous
supersede_previous-Sole env id d w s l k x m n a = elim (Bool-cases (text_eq x.sbom_id id)) [
  | inl y ↦ (text_eq_iff x.sbom_id id).0 y
  | inr h ↦
      let (i, c) =
        supersede_others-In env id d (submitter env id) (take 500 w.documents) w x s
          (subst
            (λ c.
              In x
                (if c
                  then supersede_others env id d (submitter env id) (take 500 w.documents) w
                  else w).documents)
            l m)
          (rival_of id d x n a h) in
      let contra =
        c x (subst (In x) (sym (take_all 500 w.documents k)) i) (rival_of id d x n a h) in
      absurd (ground (arith, text_eq_iff x.sbom_id x.sbom_id))
]

-- A request that is answered by a transition made its document ACTIVE, and the only ACTIVE one of its
-- software.
abbrev Released : World → Body → Outcome → Type 0
Released w b o =
    (s : Status) (tx : String)
    → o.response ≡ done s tx
    → (id : String) × (d : Document) × (requested_id b ≡ some id)
      × (document_of w id ≡ some d)
      × (status_of o.world id ≡ some active)
      × Sole id d o.world

failure-Released : (w : World) (b : Body) (r : Response) → IsFailure r → Released w b (respond w r)
failure-Released w b r f s tx e = absurd (subst IsFailure e f)

error-Released : (w v : World) (b : Body) → Released w b (respond v server_error)
error-Released w v b s tx e = absurd (subst IsFailure e tt)

module _ (env : Env) (supersedes : Supersedes env) (lists : env.lists ≡ true) (w : World)
    (few : length w.documents ≤ 500) where
  activation-Released :
      (b : Body) (id : String) (d : Document)
      → requested_id b ≡ some id
      → document_of w id ≡ some d
      → Released w b (activation env id d w)
  unfolding activation
  activation-Released b id d q e =
      let next : World = (commit env activate_sbom id (submitter env id) w).0 in
      choice-holds (Released w b) env.connects _ _
        (λ _.
          choice-holds (Released w b) _ _ _
            (λ c s tx f. (
              id,
              d,
              q,
              e,
              supersede_previous-other env id d next
                  ∙ status_of-committed env activate_sbom id (submitter env id) w
                      (status_of-document w id e) c,
              supersede_previous-Sole env id d next supersedes lists
                  (omega (arith, few, length-commit env activate_sbom id (submitter env id) w)),
            ))
            (λ _. error-Released w next b))
        (λ _. error-Released w w b)

  activate_route-Released : (b : Body) → Released w b (activate_route env b w)
  unfolding activate_route
  activate_route-Released b =
      document-holds (Released w b) w (failure-Released w b) env b _ (λ id d q e.
        choice-holds (Released w b) (same_status d.status approved)
          (with_trust env id w (activation env id d w)) _
          (λ _.
            trust-holds (Released w b) w (failure-Released w b) env id (activation env id d w)
              (λ _. activation-Released b id d q e))
          (λ _. failure-Released w b (conflict (wrong_state d.status)) tt))

  -- An activation that is answered by a transition leaves the document of the request ACTIVE, and the
  -- only ACTIVE one of its software, if the documents can be listed and are at most 500, and each `SupersedeSBOM`
  -- and the update after it succeed.
  pub activate_route-single :
      (b : Body) (s : Status) (tx : String)
      → (activate_route env b w).response ≡ done s tx
      → (id : String) × (d : Document) × (requested_id b ≡ some id)
        × (document_of w id ≡ some d)
        × (status_of (activate_route env b w).world id ≡ some active)
        × Sole id d (activate_route env b w).world
  activate_route-single b s tx e = activate_route-Released b s tx e
