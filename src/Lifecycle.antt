-- ===== src/Lifecycle.antt =====
-- The lifecycle of an SBOM document: the table of documents (api/src/repositories/sbomRepository.js),
-- the reading of a stored trust decision (`normalizeTrustStatus`, `getLatestTrustDecisionBySBOMID` of
-- api/src/repositories/trustRepository.js) and what the routes share. What the database, the ledger
-- and the network answer during a request is the record `Env`.
pub mod Routes
use tpsr_v.Prelude.{
  ℕ, String, Bool, true, false, not, ◌&&◌, ◌||◌, Option, none, some, List, [], ◌∷◌, ◌++◌, map, is,
  truthy, text_eq, find, to_upper_case, if◌then◌else◌, ltb, ◌==◌,
}
use tpsr_v.Policy.{Sbom, Registry, PolicyStatus, pass, fail, PolicyResult, evaluate_sbom}

pub data Status : Type 0 where
  registered review_pending security_reviewed compliant approved active superseded rejected : Status

pub status_index : Status → ℕ
status_index registered = 0
status_index review_pending = 1
status_index security_reviewed = 2
status_index compliant = 3
status_index approved = 4
status_index active = 5
status_index superseded = 6
status_index rejected = 7

-- `===` on two statuses
pub same_status : Status → Status → Bool
same_status s t = status_index s == status_index t

-- A row of `sbom_documents`; `software_name` is NOT NULL.
pub record Document : Type 0 where
  pub sbom_id : String
  pub software_name : String
  pub status : Status
  pub policy_status : Option String
  pub sbom_json : Option Sbom
  pub fabric_tx_id : Option String
  pub submitter_id : Option String

-- A row of `trust_decision_history`.
pub record Decision : Type 0 where
  pub sbom_id : String
  pub trust_status : Option String
  pub is_deleted : Bool

-- The transactions of the chaincode that move a document.
pub data Call : Type 0 where
  move_to_review_pending move_to_security_reviewed mark_compliant approve_sbom activate_sbom : Call
  supersede_sbom reject_sbom : Call

-- The status that a route writes with a transaction.
abbrev pub target : Call → Status
target move_to_review_pending = review_pending
target move_to_security_reviewed = security_reviewed
target mark_compliant = compliant
target approve_sbom = approved
target activate_sbom = active
target supersede_sbom = superseded
target reject_sbom = rejected

pub record Transaction : Type 0 where
  pub call : Call
  pub sbom_id : String
  pub id : String

-- The documents and the decisions with the latest one first, and the transactions that were committed.
pub record World : Type 0 where
  pub documents : List Document
  pub decisions : List Decision
  pub ledger : List Transaction

-- An element of the array that `GetHistory` returns; a missing timestamp is 0.
pub record HistoryEntry : Type 0 where
  pub timestamp : ℕ
  pub submitter_id : Option String

-- `reads`, `decision_reads`, `lists` and `updates` say whether that query succeeds, `connects` whether
-- `getContract` does, `accepts` whether `submit` does. `history` is none where `GetHistory` fails or
-- returns no array. `verify_integrity` is none where `VerifyIntegrity` (or the hash) fails, and
-- otherwise `match !== false`.
pub record Env : Type 0 where
  pub reads : Bool
  pub decision_reads : Bool
  pub lists : Bool
  pub connects : Bool
  pub accepts : Call → String → Bool
  pub updates : String → Status → Bool
  pub transaction_id : Call → String → String
  pub history : String → Option (List (Option HistoryEntry))
  pub verify_integrity : String → Option Bool

-- `getSBOMDocumentBySBOMID`
abbrev pub has_id : String → Document → Bool
has_id id d = text_eq d.sbom_id id

pub document_of : World → String → Option Document
document_of w id = find (has_id id) w.documents

-- `if (value) { setClauses.push(...) }`: a column keeps its value where there is no new one.
abbrev pub replace : Option String → Option String → Option String
replace new old = if truthy new then new else old

abbrev pub with_status : Status → Option String → Option String → Document → Document
with_status s tx who d = record {
  sbom_id = d.sbom_id;
  software_name = d.software_name;
  status = s;
  policy_status = d.policy_status;
  sbom_json = d.sbom_json;
  fabric_tx_id = replace tx d.fabric_tx_id;
  submitter_id = replace who d.submitter_id;
}

-- `updateSBOMStatus`, on the rows
pub update_status : String → Status → Option String → Option String → List Document → List Document
update_status id s tx who [] = []
update_status id s tx who (d ∷ ds) =
    (if text_eq d.sbom_id id then with_status s tx who d else d) ∷ update_status id s tx who ds

pub data TrustDecision : Type 0 where
  trusted conditionally_accepted review_required untrusted_rejected unevaluated : TrustDecision

pub record NormalizedTrust : Type 0 where
  pub trust_decision : TrustDecision
  pub legacy_normalized : Bool

abbrev normalized_to : TrustDecision → Bool → NormalizedTrust
normalized_to t b = record { trust_decision = t; legacy_normalized = b }

-- The test of `normalizeTrustStatus` on the upper-case text.
pub normalize_upper : String → NormalizedTrust
normalize_upper u =
    if text_eq u "UNTRUSTED"
    then normalized_to untrusted_rejected true
    else if text_eq u "TRUSTED"
    then normalized_to trusted false
    else if text_eq u "CONDITIONALLY_ACCEPTED"
    then normalized_to conditionally_accepted false
    else if text_eq u "REVIEW_REQUIRED"
    then normalized_to review_required false
    else if text_eq u "REJECTED"
    then normalized_to untrusted_rejected false
    else normalized_to unevaluated false

pub normalize_trust_status : Option String → NormalizedTrust
normalize_trust_status none = normalized_to unevaluated false
normalize_trust_status (some s) =
    if text_eq s "" then normalized_to unevaluated false else normalize_upper (to_upper_case s)

-- `getLatestTrustDecisionBySBOMID`
pub latest_decision : World → String → Option Decision
latest_decision w id = find (λ d. text_eq d.sbom_id id && not d.is_deleted) w.decisions

-- The loop over the history that the routes take the submitter of a transition from.
pub latest_entry : Option HistoryEntry → List (Option HistoryEntry) → Option HistoryEntry
latest_entry best [] = best
latest_entry best (none ∷ rest) = latest_entry best rest
latest_entry none (some e ∷ rest) = latest_entry (some e) rest
latest_entry (some b) (some e ∷ rest) =
    latest_entry (some (if ltb b.timestamp e.timestamp then e else b)) rest

pub submitter : Env → String → Option String
submitter env id = elim (env.history id) [
  | none ↦ none
  | some entries ↦ elim (latest_entry none entries) [ none ↦ none | some e ↦ e.submitter_id ]
]

-- A transaction submitted to the ledger and then written to the database, with whether both were
-- done: a failed update leaves the transaction on the ledger.
pub commit : Env → Call → String → Option String → World → World × Bool
commit env call id who w =
    if env.accepts call id
    then (
      record {
        documents =
            if env.updates id (target call)
            then update_status id (target call) (some (env.transaction_id call id)) who w.documents
            else w.documents;
        decisions = w.decisions;
        ledger = record { call = call; sbom_id = id; id = env.transaction_id call id } ∷ w.ledger;
      },
      env.updates id (target call),
    )
    else (w, false)

-- The policy status of a row, evaluated again where it has none.
pub policy_text : PolicyStatus → String
policy_text pass = "PASS"
policy_text fail = "FAIL"

pub policy_of : (String → List ℕ) → Registry → Document → Option String
policy_of parts registry d =
    if truthy d.policy_status
    then d.policy_status
    else some (policy_text (evaluate_sbom parts registry d.sbom_json).policy_status)
