-- ===== src/Exceptions/Tests/Ticks.antt =====
-- Runs of the expiry worker.
use tpsr_v.Prelude.{◌≡◌, refl, String, Bool, true, false, [], ◌∷◌, map, text_eq, includes}
use tpsr_v.Exceptions.{active, expired, Row, expiring_before, mark_expired, marked_rows}
use tpsr_v.Exceptions.Expiry.{
  ExpiryEnv, Worker, mark_expired_vex, record_events, add_sbom, add_rows, add_vex, due_ids, due_vex,
  sweep_exceptions, sweep_vex, sweep, conclude, tick,
}
use tpsr_v.Exceptions.Expiry.Stuck.{ticks, ticks-disconnected}
use tpsr_v.Exceptions.Expiry.Distinct.{DistinctIds}
use tpsr_v.Exceptions.Expiry.Swept.{Swept, tick-Swept}
use tpsr_v.Exceptions.Tests.Inputs.{idle, stored, with_row_of}

includes_nothing : (s : String) → includes [] s ≡ false
unfolding includes
includes_nothing s = refl

abbrev database : Bool → ExpiryEnv
database connects = record {
  now = 9500;
  connects = connects;
  marks = true;
  records_event = λ id. true;
  marks_vex = true;
  commits = true;
}

abbrev worker : Worker
worker = record idle { tables = with_row_of active }

tick_run : map (λ (r : Row). r.status) (tick (database true) worker).tables.rows ≡ expired ∷ []
unfolding tick conclude sweep sweep_exceptions sweep_vex record_events add_rows add_sbom add_vex
    due_ids due_vex expiring_before mark_expired mark_expired_vex marked_rows text_eq includes
tick_run = refl

tick-Swept_example : Swept (database true) worker (tick (database true) worker)
tick-Swept_example =
    tick-Swept (database true) worker
      (record {
        connects = refl;
        marks = refl;
        records = λ id. refl;
        marks_vex = refl;
        commits = refl;
      })
      refl ids
  where
    ids : DistinctIds (stored active ∷ [])
    ids = (includes_nothing "e", tt)

ticks-disconnected_example :
    ticks (database false ∷ database true ∷ []) worker ≡ record worker { is_running = true }
ticks-disconnected_example =
    ticks-disconnected (database false) (database true ∷ []) worker refl refl
