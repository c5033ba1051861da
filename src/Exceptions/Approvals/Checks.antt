-- ===== src/Exceptions/Approvals/Checks.antt =====
-- What the checks of a handler promise of its update.
use tpsr_v.Prelude.{
  ◌≡◌, refl, String, Bool, true, false, Option, none, some, List, truthy, trim, subst,
  if◌then◌else◌,
}
use tpsr_v.Governance.{
  ExceptionGovernance, ExceptionStatus, ApprovalResult, lists, validate_structure,
}
use tpsr_v.Exceptions.{RowStatus, Row, row_of}
use tpsr_v.Exceptions.Routes.{
  Env, Auth, Release, Action, Request, request, approve, reject, revoke, supersede, Plan, insert,
  Check, answer, proceed, check, check_request, check_approve, check_reject, check_revoke,
  check_supersede, Response, forbidden, not_found, bad_request, check_approval, approval_of, parsed,
  requested_event, with_release, with_role, with_row, with_text,
}
use tpsr_v.Exceptions.Approvals.{Promise}

-- `P` holds of the plan that a check leaves.
module _ (P : Plan → Type 0) where
  abbrev pub CheckHas : Check → Type 0
  CheckHas (answer r) = Unit {0}
  CheckHas (proceed p) = P p

  choice-CheckHas :
      (b : Bool) (x : Check) (r : Response) → CheckHas x → CheckHas (if b then x else answer r)
  choice-CheckHas true x r h = h
  choice-CheckHas false x r h = tt

  role-CheckHas :
      (env : Env) (auth : Option Auth) (a : Action) (k : Auth → Check)
      → ((x : Auth) → auth ≡ some x → CheckHas (k x))
      → CheckHas (with_role env auth a k)
  unfolding with_role
  role-CheckHas env none a k h = tt
  role-CheckHas env (some x) a k h =
      choice-CheckHas (truthy x.user_id) _ _ (allowed (env.allowed a))
    where
      allowed :
          (o : Option (List String))
          → CheckHas (elim o [
            | none ↦ answer forbidden
            | some roles ↦ if lists roles x.role then k x else answer forbidden
          ])
      allowed none = tt
      allowed (some roles) = choice-CheckHas (lists roles x.role) _ _ (h x refl)

  row-CheckHas :
      (rows : List Row) (id : String) (fits : RowStatus → Bool) (k : Row → Check)
      → ((r : Row) → row_of rows id ≡ some r → CheckHas (k r))
      → CheckHas (with_row rows id fits k)
  unfolding with_row
  row-CheckHas rows id fits k h = found (row_of rows id) h
    where
      found :
          (o : Option Row)
          → ((r : Row) → o ≡ some r → CheckHas (k r))
          → CheckHas (elim o [
            | none ↦ answer not_found
            | some r ↦ if fits r.status then k r else answer bad_request
          ])
      found none h = tt
      found (some r) h = choice-CheckHas (fits r.status) _ _ (h r refl)

  text-CheckHas :
      (why : Option String) (k : String → Check)
      → ((s : String) → CheckHas (k s))
      → CheckHas (with_text why k)
  unfolding with_text
  text-CheckHas none k h = tt
  text-CheckHas (some s) k h = choice-CheckHas (truthy (some s)) _ _ (h s)

  release-CheckHas :
      (env : Env) (sbom : String) (k : Release → Check)
      → ((d : Release) → env.release_of sbom ≡ some d → CheckHas (k d))
      → CheckHas (with_release env sbom k)
  unfolding with_release
  release-CheckHas env sbom k h = found (env.release_of sbom) h
    where
      found :
          (o : Option Release)
          → ((d : Release) → o ≡ some d → CheckHas (k d))
          → CheckHas (elim o [ none ↦ answer not_found | some d ↦ k d ])
      found none h = tt
      found (some d) h = h d refl

  status-CheckHas :
      (s : ExceptionStatus) (p : Plan)
      → (s ≡ ExceptionStatus.active → P p)
      → CheckHas (elim s [ ExceptionStatus.active ↦ proceed p | _ ↦ answer bad_request ])
  status-CheckHas ExceptionStatus.active p h = h refl
  status-CheckHas ExceptionStatus.invalid_status p h = tt
  status-CheckHas ExceptionStatus.rejected p h = tt
  status-CheckHas ExceptionStatus.expired p h = tt
  status-CheckHas ExceptionStatus.requested p h = tt
  status-CheckHas ExceptionStatus.revoked p h = tt
  status-CheckHas ExceptionStatus.conflicting_status p h = tt

  approval-CheckHas :
      (v : ApprovalResult) (p : Plan)
      → (v.derived_status ≡ ExceptionStatus.active → P p)
      → CheckHas (check_approval v p)
  unfolding check_approval
  approval-CheckHas v p h =
      choice-CheckHas v.evaluation.separation_of_duties_passed _ _
        (status-CheckHas v.derived_status p h)

module _ (rules : List (String × String)) (g : ExceptionGovernance)
    (Seen : Env → Option Auth → Request → Type 0) (env : Env) (rows : List Row) where
  abbrev pub HasPromise : Check → Type 0
  HasPromise = CheckHas (Promise rules g Seen rows)

  approve-HasPromise :
      (auth : Option Auth) (sbom path : String) (comment : Option String)
      → Seen env auth (approve sbom path comment)
      → HasPromise (check_approve rules g env rows auth sbom path comment)
  unfolding check_approve approval_of
  approve-HasPromise auth sbom path comment seen =
      role-CheckHas (Promise rules g Seen rows) env auth _ _ (λ a who.
        release-CheckHas (Promise rules g Seen rows) env (trim sbom) _ (λ d f.
          row-CheckHas (Promise rules g Seen rows) rows (trim path) _ _ (λ r e.
            approval-CheckHas (Promise rules g Seen rows) _ _ (λ q. (
              r,
              e,
              record {
                env = env;
                actor = a;
                sbom = sbom;
                path = path;
                comment = comment;
                document = d;
                seen = subst (λ x. Seen env x (approve sbom path comment)) who seen;
                found = f;
                by_actor = (refl, refl);
                passed = q;
              },
            )))))

  pub check-HasPromise :
      (auth : Option Auth) (q : Request)
      → Seen env auth q
      → HasPromise (check rules g env rows auth q)
  unfolding check check_request check_reject check_revoke check_supersede
  check-HasPromise auth (request path body) seen =
      release-CheckHas (Promise rules g Seen rows) env (trim path) _ (λ d f.
        role-CheckHas (Promise rules g Seen rows) env auth _ _ (λ a who.
          choice-CheckHas (Promise rules g Seen rows)
            (validate_structure (parsed body (trim path) a d))
            (proceed
              (insert env.fresh_id (parsed body (trim path) a d) (requested_event env.fresh_id a)))
            bad_request tt))
  check-HasPromise auth (approve sbom id comment) seen =
      approve-HasPromise auth sbom id comment seen
  check-HasPromise auth (reject path why) seen =
      role-CheckHas (Promise rules g Seen rows) env auth _ _ (λ a who.
        text-CheckHas (Promise rules g Seen rows) why _
          (λ reason. row-CheckHas (Promise rules g Seen rows) rows (trim path) _ _ (λ r e. tt)))
  check-HasPromise auth (revoke path why) seen =
      role-CheckHas (Promise rules g Seen rows) env auth _ _ (λ a who.
        text-CheckHas (Promise rules g Seen rows) why _
          (λ reason. row-CheckHas (Promise rules g Seen rows) rows (trim path) _ _ (λ r e. tt)))
  check-HasPromise auth (supersede path new why) seen =
      role-CheckHas (Promise rules g Seen rows) env auth _ _ (λ a who.
        text-CheckHas (Promise rules g Seen rows) new _
          (λ successor. row-CheckHas (Promise rules g Seen rows) rows (trim path) _ _ (λ r e. tt)))

pub plan_of : (c : Check) (p : Plan) → (P : Plan → Type 0) → CheckHas P c → c ≡ proceed p → P p
plan_of c p P h e = subst (CheckHas P) e h
