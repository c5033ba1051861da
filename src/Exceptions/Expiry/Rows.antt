-- ===== src/Exceptions/Expiry/Rows.antt =====
-- The exceptions after a tick: as they were, or with those that were due marked as expired.
use tpsr_v.Prelude.{not, ◌&&◌, Option, none, some, List, [], map, is_empty, if-holds}
use tpsr_v.Exceptions.{Row, Event, mark_expired, marked_rows}
use tpsr_v.Exceptions.Routes.{Tables}
use tpsr_v.Exceptions.Expiry.{
  ExpiryEnv, Worker, VexRow, tick, conclude, Sweep, sweep, sweep_exceptions, sweep_vex, due_ids,
  record_events, add_rows, due_vex, vex_id,
}

module _ (P : List Row → Type 0) where
  abbrev SweepHas : Option Sweep → Type 0
  SweepHas none = Unit {0}
  SweepHas (some s) = P s.tables.rows

  module _ (env : ExpiryEnv) where
    sweep_exceptions-SweepHas :
        (t : Tables) (vex : List VexRow)
        → P t.rows
        → P (mark_expired (due_ids env.now t.rows) t.rows)
        → SweepHas (sweep_exceptions env t vex)
    unfolding sweep_exceptions
    sweep_exceptions-SweepHas t vex h m =
        if-holds SweepHas (is_empty (due_ids env.now t.rows)) _ _ h (
          if-holds SweepHas env.marks _ _
            (recorded (record_events env (marked_rows (due_ids env.now t.rows) t.rows) t.events))
            tt)
      where
        recorded :
            (o : Option (List Event))
            → SweepHas (elim o [
              | none ↦ none
              | some events ↦ some (record {
                tables = record {
                  rows = mark_expired (due_ids env.now t.rows) t.rows;
                  events = events;
                };
                vex = vex;
                sboms = add_rows (marked_rows (due_ids env.now t.rows) t.rows) [];
              })
            ])
        recorded none = tt
        recorded (some events) = m

    sweep_vex-SweepHas : (s : Sweep) → P s.tables.rows → SweepHas (sweep_vex env s)
    unfolding sweep_vex
    sweep_vex-SweepHas s h =
        if-holds SweepHas (is_empty (map vex_id (due_vex env.now s.vex))) _ _ h
          (if-holds SweepHas env.marks_vex _ _ h tt)

    sweep-SweepHas :
        (t : Tables) (vex : List VexRow)
        → P t.rows
        → P (mark_expired (due_ids env.now t.rows) t.rows)
        → SweepHas (sweep env t vex)
    unfolding sweep
    sweep-SweepHas t vex h m =
        from (sweep_exceptions env t vex) (sweep_exceptions-SweepHas t vex h m)
      where
        from :
            (o : Option Sweep)
            → SweepHas o
            → SweepHas (elim o [ none ↦ none | some s ↦ sweep_vex env s ])
        from none h = tt
        from (some s) h = sweep_vex-SweepHas s h

    conclude-rows :
        (w : Worker) (o : Option Sweep)
        → P w.tables.rows
        → SweepHas o
        → P (conclude env w o).tables.rows
    unfolding conclude
    conclude-rows w none h k = h
    conclude-rows w (some s) h k =
        if-holds (λ (x : Worker). P x.tables.rows) (not (is_empty s.sboms) && env.commits) _ w k h

    pub tick-rows :
        (w : Worker)
        → P w.tables.rows
        → P (mark_expired (due_ids env.now w.tables.rows) w.tables.rows)
        → P (tick env w).tables.rows
    unfolding tick
    tick-rows w h m =
        if-holds (λ (x : Worker). P x.tables.rows) w.is_running w _ h
          (if-holds (λ (x : Worker). P x.tables.rows) env.connects _ _
            (conclude-rows w (sweep env w.tables w.vex) h (sweep-SweepHas w.tables w.vex h m)) h)
