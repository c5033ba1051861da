-- ===== src/Lib.antt =====
-- The decisions of the TPSR service: whether a release of software, described by its SBOM, may be
-- trusted, and how its document moves through its lifecycle. All paths are from the repository's
-- root.
--
-- The parts and how they meet. `POST /trust/...` gathers the evidence of a release and calls
-- `evaluateTrust` (api/src/utils/trustEngine.js). It checks the document, the provenance and the
-- signature, has `assembleContextRiskEvidence` (api/src/services/contextRiskEvidenceAssembler.js)
-- bring the context assertions, the VEX statements and the policy exceptions into one input, has
-- `evaluateContextRisk` (api/src/utils/contextRiskEngine.js) judge it, and answers one of four
-- states. The lifecycle routes (api/src/routes/) read the stored decision, submit a transaction to
-- the ledger and then write the new status to the database.
--
-- Files:
-- * Prelude, with Tests, Lists and Text: shared names, tests into Bool, lists over the native
--   numbers, and texts as JavaScript compares them (an absent or empty field is falsy).
-- * ContextRisk (exploitability and the ladder of conditions for one vulnerability) and
--   ContextRisk/Evaluate (the loop and the conclusion of `evaluateContextRisk`).
--   ContextRisk/Mitigation, ContextRisk/Blocking, Evaluate/Loop, Evaluate/Outcome and
--   Evaluate/Order hold their properties.
-- * Evidence (the records that come from the database), Evidence/Context, Evidence/Vex and
--   Evidence/Exceptions (the three filters of the assembler, with
--   api/src/utils/contextCompatibilityMapper.js), Evidence/Assembler (the whole input, with its laws
--   in Assembler/Laws) and Evidence/Assurance (api/src/utils/evidenceAssuranceMapper.js).
-- * Trust (the result and `finalizeExplanation`), Trust/Mandatory (the checks that reject at once)
--   and Trust/Evaluate (`evaluateTrust`); Evaluate/Decision and Evaluate/Safety hold
--   its properties.
-- * Policy (api/src/utils/policy.js: `evaluateSBOM` and `compareVersions`), with Policy/Verdict and
--   Policy/Versions.
-- * Lifecycle (the tables and the ledger, `updateSBOMStatus` of
--   api/src/repositories/sbomRepository.js, `normalizeTrustStatus` and
--   `getLatestTrustDecisionBySBOMID` of api/src/repositories/trustRepository.js) and
--   Lifecycle/Routes (approve.js, activate.js, reject.js, supersede.js, review-pending.js and
--   security-reviewed.js of api/src/routes/). Routes/Walk, Routes/Store, Routes/Trail with
--   Loop, Requests and Ended, Routes/Closed, Routes/Gate, Routes/Answer and Routes/Release hold their
--   properties.
-- * Outbox (`processOutboxBatch` of api/src/workers/outboxWorker.js with the queries of
--   api/src/repositories/trustRepository.js that it calls), with Outbox/Counts, Outbox/Records and
--   Outbox/Retries.
-- * Governance (api/src/utils/policyExceptionEngine.js: the approval of an exception), with
--   Governance/Approval.
-- * Diff (api/src/utils/sbomDiffEngine.js: the component changes of `analyzeTampering`), with
--   Diff/Balance, Balance/Account and Diff/Same.
-- * Exceptions (the rows, events and updates of api/src/repositories/policyExceptionRepository.js),
--   Exceptions/Routes (the handlers of api/src/routes/exceptions.routes.js that write),
--   Exceptions/Expiry (`processExpiredExceptions` of api/src/workers/exceptionExpiryWorker.js) and
--   Exceptions/System (the handlers and the worker side by side). Exceptions/Store, System/Moves,
--   Exceptions/Approvals with Checks and Sound, Exceptions/Superseding, and Rows, Distinct, Listed,
--   Swept and Stuck of Exceptions/Expiry hold their properties.
-- * Evaluation (`handleEvaluateTrust` of api/src/routes/trust.routes.js and
--   `triggerReevaluationForSbom` of the expiry worker) and Evaluation/Submitted
--   (`evaluateSubmittedSbom` of api/src/services/automaticEvaluationService.js), with
--   Evaluation/Queue, Evaluation/Repeat and Evaluation/Recommended.
-- * VexEngine (the records, the envelope and the statements that are accepted), VexEngine/Diagnosis,
--   VexEngine/Conflict, VexEngine/Verify (`verifyVexDocument`) and VexEngine/Overlay
--   (`applyVexOverlays`), all of api/src/utils/vexEngine.js; Outcome, Judged, Signed and Guarantee of
--   VexEngine/Verify, and Overlay/Mitigated, hold their properties.
-- * Canonical (api/src/utils/canonicalize.js), with Canonical/Sorted, Trimmed, Idempotent and
--   Reordered; Canonical/TextOrder is an order of keys.
-- * Tests, and the children of that name of Canonical, Diff, Governance, Outbox, Policy,
--   Lifecycle/Routes, Exceptions and VexEngine: runs at concrete inputs.
--
-- How state and effects are modelled. The clock and the trust policy are arguments. A route is a
-- function of a world (documents, decisions, committed transactions) and of an `Env`: what the
-- database, the ledger and the network answer to each call of the request, failures included. A
-- request or a batch of the outbox runs without others beside it, except for the exceptions: there a
-- handler is checked in one step and writes in a later one, with any steps of others between. Loops
-- run over lists; no fuel is used.
--
-- Bounds. A CVSS score is counted in tenths. `listSBOMDocuments(500)` takes the 500 latest rows, and
-- what depends on the rows behind them says so. Times are milliseconds; an invalid date is a value
-- of its own. `toUpperCase` is modelled on ASCII letters.
--
-- Not modelled: the texts of messages, timings and log lines, the camelCase spelling of a field
-- beside its snake_case one, the fields of a result that only copy its input, JSON parsing, the
-- connections to the database and to the ledger, the chaincode (seen as transactions that are
-- accepted or refused), `getStableKey` and `diffMetadataFields` of the diff engine, the dashboard,
-- the command line, scripts and deployment, the content of snapshots, and the context assertion,
-- provenance and signature engines.
pub mod Prelude
pub mod ContextRisk
pub mod Evidence
pub mod Exceptions
pub mod Trust
pub mod Policy
pub mod Canonical
pub mod Lifecycle
pub mod Outbox
pub mod Governance
pub mod Diff
pub mod Evaluation
pub mod VexEngine
pub mod Tests
