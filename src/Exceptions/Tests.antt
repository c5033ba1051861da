-- ===== src/Exceptions/Tests.antt =====
-- Runs of the handlers.
mod Inputs
mod Ticks
use tpsr_v.Prelude.{
  ◌≡◌, refl, ap, ◌∙◌, ℕ, String, Bool, true, false, Option, none, some, List, [], ◌∷◌, map, text_eq,
  is, truthy, same_text, includes, trim, or_text,
}
use tpsr_v.ContextRisk.{AssuranceState}
use tpsr_v.Evidence.{at}
use tpsr_v.Governance.{
  ExceptionRequest, ExceptionGovernance, has_content, validate_structure, validate_separation,
  bind_to_release, rule_valid, validate_residual_risk, validate_remediation, validate_controls,
  max_validity, validate_period, derive_status, derive_assurance, approver_valid, evaluation_of,
  evaluate_approval,
}
use tpsr_v.Governance.Approval.{IsApproved}
use tpsr_v.Exceptions.{
  RowStatus, requested, active, rejected, expired, Row, row_of, new_row, insert_row, update_rows,
  expiring_before, mark_expired, marked_rows, Change, approve_by, supersede_by,
}
use tpsr_v.Exceptions.Routes.{
  Env, Auth, Release, request, approve, reject, supersede, done, Plan, insert, update, proceed,
  forbidden, with_role, with_release, with_row, with_text, parsed, requested_event, event_of,
  check_request, check_approve, check_reject, check_approval, approval_of, check, Tables, concluded,
  returned, commit, handle,
}
use tpsr_v.Exceptions.Expiry.{
  ExpiryEnv, Worker, mark_expired_vex, record_events, add_sbom, add_rows, add_vex, due_ids, due_vex,
  sweep_exceptions, sweep_vex, sweep, conclude, tick,
}
use tpsr_v.Exceptions.Expiry.Stuck.{ticks, ticks-disconnected}
use tpsr_v.Exceptions.Expiry.Distinct.{DistinctIds}
use tpsr_v.Exceptions.Expiry.Swept.{Swept, tick-Swept}
use tpsr_v.Exceptions.System.{System, first, checks, commits, Reach, here, next, status_of}
use tpsr_v.Exceptions.System.Moves.{Moves, Step-Moves, Reach-IsFinal}
use tpsr_v.Exceptions.Approvals.Sound.{IsGranted, Reach-IsApproved}
use tpsr_v.Exceptions.Superseding.{handle-supersede}
use tpsr_v.Exceptions.Tests.Inputs.{
  governance, body, rules, env, ann, bob, empty, idle, release, ann_request, stored, with_row_of,
}

-- A request and its approval, one after the other.
requested_run :
    map
      (λ (r : Row). r.status)
      (handle rules governance env (some ann) (request " s" body) empty).0.rows
    ≡ requested ∷ []
unfolding handle check check_request with_release with_role parsed commit concluded insert_row
    new_row validate_structure has_content text_eq is truthy same_text includes trim
requested_run = refl

approved_run :
    map
      (λ (r : Row). r.status)
      (handle rules governance env (some bob) (approve "s" "e" none) (with_row_of requested)).0.rows
    ≡ active ∷ []
unfolding handle check check_approve with_release with_role with_row check_approval approval_of
    commit concluded returned update_rows evaluate_approval evaluation_of approver_valid
    derive_status derive_assurance validate_period max_validity validate_controls
    validate_remediation validate_residual_risk rule_valid bind_to_release validate_separation
    validate_structure has_content text_eq is truthy same_text includes trim
approved_run = refl

-- Nobody approves the own request.
own_run :
    (handle rules governance env (some ann) (approve "s" "e" none) (with_row_of requested)).1
    ≡ forbidden
unfolding handle check check_approve with_release with_role with_row check_approval approval_of
    commit concluded returned update_rows evaluate_approval evaluation_of approver_valid
    derive_status derive_assurance validate_period max_validity validate_controls
    validate_remediation validate_residual_risk rule_valid bind_to_release validate_separation
    validate_structure has_content text_eq is truthy same_text includes trim
own_run = refl

rejected_run :
    map
      (λ (r : Row). r.status)
      (handle rules governance env
        (some bob)
        (reject "e" (some "no"))
        (with_row_of requested)).0.rows
    ≡ rejected ∷ []
unfolding handle check check_reject with_role with_row with_text commit concluded returned
    update_rows text_eq truthy includes trim
rejected_run = refl

-- The request of Ann and the approval of Bob as steps of the system.
abbrev first_plan : Plan
first_plan = insert "e" (stored requested).request (requested_event "e" ann)

abbrev approval : Change
approval = approve_by (some "bob") (some "security") AssuranceState.verified_trusted

abbrev second_plan : Plan
second_plan = update "e" approval (event_of "e" "APPROVED" requested approval bob (some "Approved"))

abbrev system : Tables → List Plan → System
system t ps = record { worker = record idle { tables = t }; pending = ps }

first_check : check rules governance env [] (some ann) (request " s" body) ≡ proceed first_plan
unfolding check check_request with_release with_role parsed validate_structure has_content text_eq
    is truthy same_text includes trim
first_check = refl

second_check :
    check rules governance env (stored requested ∷ []) (some bob) (approve "s" "e" none)
    ≡ proceed second_plan
unfolding check check_approve with_release with_role with_row check_approval approval_of or_text
    evaluate_approval evaluation_of approver_valid derive_status derive_assurance validate_period
    max_validity validate_controls validate_remediation validate_residual_risk rule_valid
    bind_to_release validate_separation validate_structure has_content text_eq is truthy same_text
    includes trim
second_check = refl

abbrev created_tables : Tables
created_tables = (commit env first_plan empty).0

abbrev approved_tables : Tables
approved_tables = (commit env second_plan created_tables).0

created_rows : created_tables.rows ≡ stored requested ∷ []
unfolding commit concluded insert_row new_row
created_rows = refl

way : Reach rules governance (system empty []) (system approved_tables [])
way =
    next
      (next
        (next (next here (checks env (some ann) (request " s" body) first_plan first_check))
          (commits env first_plan [] first))
        (checks env (some bob) (approve "s" "e" none) second_plan (
          ap (λ rows. check rules governance env rows (some bob) (approve "s" "e" none))
            created_rows
          ∙ second_check)))
      (commits env second_plan [] first)

approved_row :
    row_of approved_tables.rows "e"
    ≡ some (record (stored active) {
      approved_by = some "bob";
      approver_role = some "security";
      assurance_state = some AssuranceState.verified_trusted;
    })
unfolding commit concluded insert_row new_row update_rows text_eq
approved_row = refl

abbrev approved_exception : Row
approved_exception = record (stored active) {
  approved_by = some "bob";
  approver_role = some "security";
  assurance_state = some AssuranceState.verified_trusted;
}

Reach-IsApproved_example : IsGranted way approved_exception
Reach-IsApproved_example = Reach-IsApproved way "e" approved_exception refl refl approved_row refl

Step-Moves_example :
    Moves
      (status_of (system (with_row_of requested) (second_plan ∷ [])) "e")
      (status_of (system (commit env second_plan (with_row_of requested)).0 []) "e")
Step-Moves_example =
    Step-Moves {rules = rules} {g = governance}
      {s = system (with_row_of requested) (second_plan ∷ [])} "e" (commits env second_plan [] first)

Reach-IsFinal_example :
    status_of (system (commit env second_plan (with_row_of rejected)).0 []) "e" ≡ some rejected
unfolding text_eq
Reach-IsFinal_example =
    Reach-IsFinal {rules = rules} {g = governance}
      {s = system (with_row_of rejected) (second_plan ∷ [])} "e" rejected
      (next here (commits env second_plan [] first)) tt refl

handle-supersede_example :
    let (t', reply) =
      handle rules governance env
        (some bob)
        (supersede "e" (some "f") none)
        (with_row_of requested) in
    ((j : String) → row_of t'.rows j ≡ row_of (stored requested ∷ []) j)
    × (t'.events
        ≡ event_of "e" "SUPERSEDED" requested (supersede_by "f") bob (some "Superseded") ∷ [])
    × (reply ≡ done none)
unfolding trim or_text truthy text_eq includes
handle-supersede_example =
    handle-supersede rules governance env bob "e" "f" none (with_row_of requested)
      (stored requested)
      (record { known = refl; roles = "developer" ∷ "security" ∷ []; rule = refl; listed = refl })
      refl refl refl refl refl
