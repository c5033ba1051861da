-- ===== src/VexEngine/Diagnosis.antt =====
-- The reason code of a document of which no statement is accepted.
use tpsr_v.Prelude.{
  ℕ, ◌+◌, ◌*◌, String, Bool, true, false, not, ◌&&◌, ◌||◌, Option, none, some, List, [], ◌∷◌,
  if◌then◌else◌, ltb,
}
use tpsr_v.Evidence.{Date, invalid_date, at}
use tpsr_v.VexEngine.{
  Statement, VexPolicy, Target, time_of, is_timely, is_expired, names_vulnerability, names_product,
  has_digest, where_given,
}

-- The flags, and `result.reasonCode`.
pub record Diagnosis : Type 0 where
  pub timestamp_error : Bool
  pub expiry_error : Bool
  pub scope_error : Bool
  pub digest_error : Bool
  pub reason_code : String

unfoldable pub untimely : VexPolicy → ℕ → Option Date → Bool
untimely p now none = true
untimely p now (some invalid_date) = true
untimely p now (some (at t)) = not (is_timely p now t)

-- An expiry is compared with 1970 where there is no time stamp; a comparison with an invalid one is
-- false.
unfoldable pub expiry_fails : VexPolicy → ℕ → Option Date → Option Date → Bool
expiry_fails p now time none = p.expiry_required
expiry_fails p now none (some e) = is_expired now 0 e
expiry_fails p now (some (at t)) (some e) = is_expired now t e
expiry_fails p now (some invalid_date) (some invalid_date) = true
expiry_fails p now (some invalid_date) (some (at e)) = ltb e now

-- The part of a round that looks at the target.
unfoldable pub diagnose_scope : Target → Statement → Diagnosis → Diagnosis
diagnose_scope t s d =
    let vulnerability = where_given t.vulnerability_id (names_vulnerability s) in
    let product = where_given t.product_identifier (names_product s) in
    let scope = d.scope_error || not vulnerability || not product in
    record d {
      scope_error = scope;
      digest_error = d.digest_error || not (where_given t.digest (has_digest s));
      reason_code =
          if scope
          then if product && not vulnerability then "VEX-005" else "VEX-004"
          else d.reason_code;
    }

-- One round of the loop.
unfoldable pub diagnose :
    VexPolicy → ℕ → Option Target → Option Date → Statement → Diagnosis → Diagnosis
diagnose p now target global s d =
    let d' : Diagnosis = record d {
      timestamp_error = d.timestamp_error || untimely p now (time_of global s);
      expiry_error = d.expiry_error || expiry_fails p now (time_of global s) s.expires_at;
    } in
    elim target [ none ↦ d' | some t ↦ diagnose_scope t s d' ]

unfoldable pub diagnose_all :
    VexPolicy → ℕ → Option Target → Option Date → List Statement → Diagnosis → Diagnosis
diagnose_all p now target global [] d = d
diagnose_all p now target global (s ∷ ss) d =
    diagnose_all p now target global ss (diagnose p now target global s d)

-- The second loop, which stops at the first statement that has a code; its skew is always 600 seconds.
unfoldable pub time_code : VexPolicy → ℕ → Option Date → String → List Statement → String
time_code p now global code [] = code
time_code p now global code (s ∷ ss) =
    let rest = time_code p now global code ss in
    elim (time_of global s) [
      | none ↦ "VEX-013"
      | some d ↦ elim d [
        | invalid_date ↦ "VEX-013"
        | at t ↦
            if ltb (now + 600000) t
            then "VEX-014"
            else if ltb (t + p.max_validity_days * 86400000) now
            then "VEX-007"
            else rest
      ]
    ]

unfoldable pub start : Diagnosis
start = record {
  timestamp_error = false;
  expiry_error = false;
  scope_error = false;
  digest_error = false;
  reason_code = "VEX-012";
}

unfoldable pub rejection_code :
    VexPolicy → ℕ → Option Target → Option Date → List Statement → String
rejection_code p now target global ss =
    let d = diagnose_all p now target global ss start in
    if d.timestamp_error
    then time_code p now global "VEX-013" ss
    else if d.expiry_error
    then "VEX-015"
    else if d.digest_error
    then "VEX-019"
    else if d.scope_error
    then d.reason_code
    else "VEX-020"
