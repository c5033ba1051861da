-- ===== src/Lifecycle/Routes/Tests.antt =====
-- Runs of the routes on five documents, with a network and a database that answer.
use tpsr_v.Prelude.{
  ◌≡◌, ◌⊎◌, inl, inr, refl, ◌≤◌, ℕ, String, true, false, none, some, List, [], ◌∷◌, length, here,
  any, ap, Bool, not, ◌&&◌, there, arith, text_eq, is, truthy, trim, to_upper_case,
}
use tpsr_v.Lifecycle.{
  Status, review_pending, compliant, approved, active, superseded, rejected, Document, Call,
  activate_sbom, reject_sbom, approve_sbom, mark_compliant, move_to_review_pending, Transaction,
  World, Env, document_of, update_status, same_status, status_index, submitter, latest_entry,
  commit, normalize_trust_status, normalize_upper, latest_decision, policy_of,
}
use tpsr_v.Lifecycle.Routes.{
  Body, done, requested_id, with_document, with_trust, latest_trust, supersede_round,
  supersede_others, supersede_previous, activation, activate_route, approve_route,
  security_reviewed_route, reviewed, automatic, compliance_passed, handle, to_active, to_superseded,
}
use tpsr_v.Lifecycle.Routes.Store.{status_of}
use tpsr_v.Lifecycle.Routes.Trail.{asks_for, Follows}
use tpsr_v.Lifecycle.Routes.Trail.Loop.{Differs, DistinctIds, IsActive}
use tpsr_v.Lifecycle.Routes.Trail.Requests.{handle-Follows}
use tpsr_v.Lifecycle.Routes.Trail.Ended.{handle-ended}
use tpsr_v.Lifecycle.Routes.Closed.{IsAnchored, handle-IsAnchored}
use tpsr_v.Lifecycle.Routes.Gate.{Gate, PassesPolicy, activate_route-Gate, approve_route-Gate}
use tpsr_v.Lifecycle.Routes.Answer.{handle-answer}
use tpsr_v.Lifecycle.Routes.Release.{Supersedes, Sole, activate_route-single}

abbrev row : String → Status → Document
row id s = record {
  sbom_id = id;
  software_name = "app";
  status = s;
  policy_status = some "PASS";
  sbom_json = none;
  fabric_tx_id = none;
  submitter_id = none;
}

abbrev written : Call → String → Transaction
written c id = record { call = c; sbom_id = id; id = "t" }

-- A new release that is APPROVED, the one in use, one that waits for approval, one
-- rejected and one under review.
abbrev store : World
store = record {
  documents =
      row "new" approved
      ∷ row "old" active
      ∷ row "next" compliant
      ∷ row "bad" rejected
      ∷ row "seen" review_pending
      ∷ [];
  decisions = record { sbom_id = "new"; trust_status = some "trusted"; is_deleted = false } ∷ [];
  ledger =
      written approve_sbom "new"
      ∷ written activate_sbom "old"
      ∷ written mark_compliant "next"
      ∷ written reject_sbom "bad"
      ∷ written move_to_review_pending "seen"
      ∷ [];
}

abbrev answering : Env
answering = record {
  reads = true;
  decision_reads = true;
  lists = true;
  connects = true;
  accepts = λ call id. true;
  updates = λ id status. true;
  transaction_id = λ call id. "tx";
  history = λ id. some (none ∷ some (record { timestamp = 3; submitter_id = some "ann" }) ∷ []);
  verify_integrity = λ id. some true;
}

abbrev asking : String → Body
asking id = record { is_object = true; sbom_id = some id; reason = none }

abbrev no_parts : String → List ℕ
no_parts v = 0 ∷ []

-- The id is trimmed, the stored decision is read in any case, and the old release is superseded.
activation_run : (activate_route answering (asking " new ") store).response ≡ done active "tx"
unfolding activate_route with_document requested_id with_trust latest_trust activation commit
    update_status supersede_previous supersede_others supersede_round submitter latest_entry
    document_of same_status status_index normalize_trust_status normalize_upper latest_decision
    text_eq truthy trim to_upper_case
activation_run = refl

superseded_run :
    status_of (activate_route answering (asking "new") store).world "old" ≡ some superseded
unfolding activate_route with_document requested_id with_trust latest_trust activation commit
    update_status supersede_previous supersede_others supersede_round submitter latest_entry
    document_of same_status status_index normalize_trust_status normalize_upper latest_decision
    text_eq truthy trim to_upper_case
superseded_run = refl

-- A review that passes the integrity check and the policy ends in COMPLIANT.
review_run :
    (security_reviewed_route no_parts [] answering (asking "seen") store).response
    ≡ done compliant "tx"
unfolding security_reviewed_route reviewed automatic compliance_passed policy_of with_document
    requested_id document_of commit update_status same_status status_index text_eq is truthy trim
review_run = refl

bad_rejected : status_of store "bad" ≡ some rejected
unfolding text_eq
bad_rejected = refl

anchored : IsAnchored store
anchored = (
  inr (written approve_sbom "new", here refl, refl, refl),
  (
    inr (written activate_sbom "old", there (here refl), refl, refl),
    (
      inr (written mark_compliant "next", there (there (here refl)), refl, refl),
      (
        inr (written reject_sbom "bad", there (there (there (here refl))), refl, refl),
        (
          inr (
            written move_to_review_pending "seen",
            there (there (there (there (here refl)))),
            refl,
            refl,
          ),
          tt,
        ),
      ),
    ),
  ),
)

few : length store.documents ≤ 500
few = omega arith

answering-Supersedes : Supersedes answering
answering-Supersedes = (λ id. refl, λ id. refl)

differs :
    (d : Document) (ds : List Document)
    → any (λ p. text_eq d.sbom_id p.sbom_id) ds ≡ false
    → Differs d ds
differs d [] h p m = elim m [ ]
differs d (x ∷ xs) h p (here e) = ground (arith, h, ap (λ y. text_eq d.sbom_id y.sbom_id) e)
differs d (x ∷ xs) h p (there m) = differs d xs (ground (arith, h)) p m

are_distinct : List Document → Bool
are_distinct [] = true
are_distinct (d ∷ ds) = not (any (λ p. text_eq d.sbom_id p.sbom_id) ds) && are_distinct ds

are_distinct-DistinctIds : (ds : List Document) → are_distinct ds ≡ true → DistinctIds ds
unfolding are_distinct
are_distinct-DistinctIds [] h = tt
are_distinct-DistinctIds (d ∷ ds) h =
    (differs d ds (ground arith), are_distinct-DistinctIds ds (ground arith))

store-DistinctIds : DistinctIds store.documents
unfolding are_distinct text_eq
store-DistinctIds = are_distinct-DistinctIds store.documents refl

handle-Follows_example :
    Follows IsActive to_active
      (asks_for (asking "new"))
      store
      (handle no_parts [] to_active answering (asking "new") store).world
handle-Follows_example =
    handle-Follows no_parts [] to_active answering (asking "new") store store-DistinctIds

handle-IsAnchored_example :
    IsAnchored (handle no_parts [] to_active answering (asking "new") store).world
handle-IsAnchored_example =
    handle-IsAnchored no_parts [] to_active answering (asking "new") store anchored

handle-ended_example :
    (status_of (handle no_parts [] to_superseded answering (asking "bad") store).world "bad"
      ≡ some rejected)
    ⊎ (status_of (handle no_parts [] to_superseded answering (asking "bad") store).world "bad"
        ≡ some superseded)
handle-ended_example =
    handle-ended no_parts [] to_superseded answering (asking "bad") store "bad" (inl bad_rejected)

activate_route-Gate_example :
    ((activate_route answering (asking "new") store).world ≡ store)
    ⊎ Gate store (asking "new") approved (λ d. Unit)
activate_route-Gate_example = activate_route-Gate answering (asking "new") store

approve_route-Gate_example :
    ((approve_route no_parts [] answering (asking "next") store).world ≡ store)
    ⊎ Gate store (asking "next") compliant (PassesPolicy no_parts [])
approve_route-Gate_example = approve_route-Gate no_parts [] answering (asking "next") store

activate_route-single_example :
    (id : String) × (d : Document) × (requested_id (asking " new ") ≡ some id)
    × (document_of store id ≡ some d)
    × (status_of (activate_route answering (asking " new ") store).world id ≡ some active)
    × Sole id d (activate_route answering (asking " new ") store).world
activate_route-single_example =
    activate_route-single answering answering-Supersedes refl store few (asking " new ") active "tx"
      activation_run

handle_run :
    (handle no_parts [] to_active answering (asking " new ") store).response ≡ done active "tx"
unfolding handle activate_route with_document requested_id with_trust latest_trust activation commit
    update_status supersede_previous supersede_others supersede_round submitter latest_entry
    document_of same_status status_index normalize_trust_status normalize_upper latest_decision
    text_eq truthy trim to_upper_case
handle_run = refl

handle-answer_example :
    (id : String) × (requested_id (asking " new ") ≡ some id)
    × (status_of (handle no_parts [] to_active answering (asking " new ") store).world id
        ≡ some active)
handle-answer_example =
    handle-answer no_parts [] to_active answering (asking " new ") store active "tx" handle_run
