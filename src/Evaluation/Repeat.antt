-- ===== src/Evaluation/Repeat.antt =====
-- A request that is repeated with its Idempotency-Key.
use tpsr_v.Prelude.{
  ◌≡◌, refl, sym, ap, ◌∙◌, String, Bool, true, false, Option, some, List, ◌∷◌, ◌++◌, is_iff, truthy,
  text_eq, trim, Bool-cases, inl, inr, arith, subst, if◌then◌else◌, if-holds, option-holds, eq_iff,
}
use tpsr_v.Evidence.{SbomDocument}
use tpsr_v.Trust.Evaluate.{evaluate_trust}
use tpsr_v.Evaluation.{
  Env, Store, Decision, Response, created, cached, conflict, bad_request, answer, evidence_of,
  is_listed, decision_of, key_field, decision_payload, write, evaluate_new, evaluate_document,
  with_cache, evaluate_route, trimmed_key, decision_by_key,
}

-- What a new decision is known by.
abbrev Recorded : Store → String → String → Store × Response → Type 0
Recorded s sbom k (s', created d) =
    (s'.decisions ≡ d ∷ s.decisions) × (d.sbom_id ≡ sbom) × (d.idempotency_key ≡ some k)
Recorded s sbom k (s', other) = Unit {0}

decisions-write :
    (env : Env) (d : Decision) (fields : List String) (s : Store)
    → (write env d fields s).1 ≡ true
    → (write env d fields s).0.decisions ≡ d ∷ s.decisions
unfolding write
decisions-write env d fields s h = ground arith

answer-Recorded :
    (s s' : Store) (sbom k : String) (d : Decision) (b : Bool)
    → (b ≡ true → s'.decisions ≡ d ∷ s.decisions)
    → d.sbom_id ≡ sbom
    → d.idempotency_key ≡ some k
    → Recorded s sbom k (s', answer d b)
answer-Recorded s s' sbom k d true h i j = (h refl, i, j)
answer-Recorded s s' sbom k d false h i j = tt

module _ (env : Env) (sbom k : String) (s : Store) (given : truthy (some k) ≡ true) where
  document-Recorded :
      (doc : SbomDocument) → Recorded s sbom k (evaluate_document env sbom (some k) doc s)
  unfolding evaluate_document decision_of
  document-Recorded doc =
      let r = evaluate_trust env.policy env.now (evidence_of is_listed doc (env.loads sbom)) in
      let d = decision_of env sbom (some k) r in
      let fields = decision_payload sbom env.decision_id r ++ key_field (some k) in
      let w = write env d fields s in
      answer-Recorded s w.0 sbom k d w.1 (decisions-write env d fields s) refl (rw given refl)

  new-Recorded : Recorded s sbom k (evaluate_new env sbom (some k) s)
  unfolding evaluate_new
  new-Recorded =
      if-holds (Recorded s sbom k) env.reads _ _
        (option-holds (Recorded s sbom k) (env.document_of sbom) _ _ tt
          (λ doc e. document-Recorded doc))
        tt

  cache-Recorded : Recorded s sbom k (with_cache env sbom (some k) s)
  unfolding with_cache
  cache-Recorded =
      if-holds (Recorded s sbom k) env.reads_cache _ _
        (option-holds (Recorded s sbom k) (decision_by_key k s.decisions) _ _ new-Recorded
          (λ d e. not_created (text_eq d.sbom_id sbom) d))
        tt
    where
      not_created :
          (b : Bool) (d : Decision) → Recorded s sbom k (s, if b then cached d else conflict)
      not_created true d = tt
      not_created false d = tt

-- The latest decision with a key is found by it.
found-latest :
    (k : String) (d : Decision) (ds ds' : List Decision)
    → truthy (some k) ≡ true
    → d.idempotency_key ≡ some k
    → ds' ≡ d ∷ ds
    → decision_by_key k ds' ≡ some d
unfolding decision_by_key
found-latest k d ds ds' given e q = rw (given, q) (ground (arith, is_iff d.idempotency_key k))

cached-latest :
    (env : Env) (sbom k : String) (s : Store) {d : Decision}
    → env.reads_cache ≡ true
    → decision_by_key k s.decisions ≡ some d
    → with_cache env sbom (some k) s ≡ (s, if text_eq d.sbom_id sbom then cached d else conflict)
unfolding with_cache
cached-latest env sbom k s r e = ground arith

trim_nothing : truthy (some (trim "")) ≡ false
unfolding truthy trim
trim_nothing = refl

truthy-false : (k : String) → truthy (some k) ≡ false → k ≡ ""
unfolding truthy
truthy-false k h = ground (arith, eq_iff k "")

truthy_of_trim : (k : String) → truthy (some (trim k)) ≡ true → truthy (some k) ≡ true
truthy_of_trim k h = elim (Bool-cases (truthy (some k))) [
  | inl y ↦ y
  | inr n ↦
      absurd (
        ground
          (arith, ap (λ (x : String). truthy (some (trim x))) (truthy-false k n), trim_nothing))
]

route-blank :
    (env : Env) (path : String) (key : Option String) (s : Store)
    → text_eq (trim path) "" ≡ true
    → evaluate_route env path key s ≡ (s, bad_request)
unfolding evaluate_route
route-blank env path key s y = ground arith

route-with_key :
    (env : Env) (path key : String) (s : Store)
    → truthy (some (trim key)) ≡ true
    → text_eq (trim path) "" ≡ false
    → evaluate_route env path (some key) s ≡ with_cache env (trim path) (some (trim key)) s
unfolding evaluate_route trimmed_key
route-with_key env path key s given named = ground (arith, truthy_of_trim key given)

route-Recorded :
    (env : Env) (path key : String) (s : Store)
    → truthy (some (trim key)) ≡ true
    → Recorded s (trim path) (trim key) (evaluate_route env path (some key) s)
route-Recorded env path key s given = elim (Bool-cases (text_eq (trim path) "")) [
  | inl y ↦ subst (Recorded s (trim path) (trim key)) (sym (route-blank env path (some key) s y)) tt
  | inr n ↦
      subst (Recorded s (trim path) (trim key)) (sym (route-with_key env path key s given n))
        (cache-Recorded env (trim path) (trim key) s given)
]

-- A request that is repeated with its key, when the decision that it created is stored, changes
-- nothing: it is answered with that decision if it names the same SBOM, whatever evidence and policy
-- have become since, and refused as a conflict if it names another one. A key of white space only is
-- excluded, since it is stored as no key.
pub evaluate_route-repeated :
    (env again : Env) (path path' key : String) (s : Store) {s' : Store} {d : Decision}
    → truthy (some (trim key)) ≡ true
    → evaluate_route env path (some key) s ≡ (s', created d)
    → again.reads_cache ≡ true
    → text_eq (trim path') "" ≡ false
    → evaluate_route again path' (some key) s'
      ≡ (s', if text_eq (trim path) (trim path') then cached d else conflict)
evaluate_route-repeated env again path path' key s {s'} {d} given e r named =
    let (new, sbom, k) =
      subst (Recorded s (trim path) (trim key)) e (route-Recorded env path key s given) in
    route-with_key again path' key s' given named
    ∙ cached-latest again (trim path') (trim key) s' r
        (found-latest (trim key) d s.decisions s'.decisions given k new)
    ∙ ap
        (λ (x : String).
          let o : Store × Response = (s', if text_eq x (trim path') then cached d else conflict) in
          o)
        sbom
