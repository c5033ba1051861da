-- ===== src/Exceptions/Tests/Inputs.antt =====
-- The inputs of the runs: a policy, two people, and an exception in any status.
use tpsr_v.Prelude.{String, true, false, none, some, List, [], ◌∷◌}
use tpsr_v.Evidence.{at}
use tpsr_v.Governance.{ExceptionRequest, ExceptionGovernance}
use tpsr_v.Exceptions.{RowStatus, Row}
use tpsr_v.Exceptions.Routes.{Env, Auth, Release, parsed, Tables}
use tpsr_v.Exceptions.Expiry.{Worker}

abbrev pub governance : ExceptionGovernance
governance = record {
  allowed_requester_roles = "developer" ∷ [];
  allowed_owner_roles = "developer" ∷ [];
  allowed_approver_roles = "security" ∷ [];
  require_independent_approver = true;
  require_requester_different_from_approver = true;
  require_owner_different_from_approver = true;
  allow_critical_risk_exceptions = false;
  require_remediation_plan = true;
  require_compensating_controls_for_high_risk = true;
  maximum_validity_hours_by_risk = ("HIGH", 1) ∷ [];
}

abbrev pub body : ExceptionRequest
body = record {
  sbom_id = none;
  digest_manifest_digest = none;
  policy_rule_id = some "CAECTD-R017";
  reason_code = some "EXC-001";
  justification = some "needed";
  valid_from = some (at 1000);
  valid_until = some (at 9000);
  residual_risk = some "HIGH";
  remediation_plan = some "upgrade";
  compensating_controls = some ("firewall" ∷ []);
  requested_by = none;
  requested_by_role = none;
  owned_by = none;
  owner_role = none;
}

abbrev pub rules : List (String × String)
rules = ("CAECTD-R017", "EXCEPTIONABLE") ∷ []

abbrev pub env : Env
env = record {
  release_of = λ id. some (record { sbom_id = some id; sbom_hash = some "d" });
  allowed = λ a. some ("developer" ∷ "security" ∷ []);
  is_revoked = λ name. false;
  now = 2000;
  fresh_id = "e";
  updates = true;
  records_event = true;
}

abbrev pub ann : Auth
ann = record { user_id = some "ann"; role = some "developer" }

abbrev pub bob : Auth
bob = record { user_id = some "bob"; role = some "security" }

abbrev pub empty : Tables
empty = record { rows = []; events = [] }

abbrev pub idle : Worker
idle = record { is_running = false; tables = empty; vex = []; reevaluated = [] }

abbrev pub release : Release
release = record { sbom_id = some "s"; sbom_hash = some "d" }

abbrev pub ann_request : ExceptionRequest
ann_request = parsed body "s" ann release

abbrev pub stored : RowStatus → Row
stored s = record {
  id = "e";
  request = record body {
    sbom_id = some "s";
    digest_manifest_digest = some "d";
    requested_by = some "ann";
    requested_by_role = some "developer";
    owned_by = some "ann";
    owner_role = some "developer";
  };
  status = s;
  approved_by = none;
  approver_role = none;
  assurance_state = none;
  revoked_by = none;
  revocation_reason = none;
  supersedes = none;
}

abbrev pub with_row_of : RowStatus → Tables
with_row_of s = record { rows = stored s ∷ []; events = [] }
