-- ===== src/Tests.antt =====
-- Runs at concrete inputs: the evaluation of a release and its record, of its context, its evidence and
-- of the policy.
mod Inputs
mod Release
mod Evidence
mod Context
mod Evaluation
