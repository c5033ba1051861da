-- ===== src/Exceptions/Expiry/Swept.antt =====
-- A tick in which the database answers expires exactly the exceptions that are due.
use tpsr_v.Prelude.{
  ◌≡◌, refl, sym, ap, ◌∙◌, subst, inl, inr, ℕ, String, true, false, Option, none, some, List, [],
  ◌∷◌, ◌++◌, map, filter, In, here, there, In-append_right, is_empty, Bool-cases, arith,
}
use tpsr_v.Exceptions.{Row, Event, is_due, expiring_before, mark_expired, marked_rows}
use tpsr_v.Exceptions.Routes.{Tables}
use tpsr_v.Exceptions.Expiry.{
  ExpiryEnv, Worker, VexRow, vex_id, due_ids, due_vex, expired_event, record_events, add_rows,
  add_vex, Sweep, sweep_exceptions, sweep_vex, sweep, conclude, tick, is_marked_vex,
  mark_expired_vex,
}
use tpsr_v.Exceptions.Expiry.Rows.{tick-rows}
use tpsr_v.Exceptions.Expiry.Distinct.{
  DistinctIds, expire_if_due, mark_expired-due, map-undue, marked_rows-In,
}
use tpsr_v.Exceptions.Expiry.Listed.{add_rows-In, add_vex-keeps}

-- The database does everything that it is asked for.
pub record Answers (env : ExpiryEnv) : Type 0 where
  pub connects : env.connects ≡ true
  pub marks : env.marks ≡ true
  pub records : (id : String) → env.records_event id ≡ true
  pub marks_vex : env.marks_vex ≡ true
  pub commits : env.commits ≡ true

-- The log of a loop over marked rows.
record Logged (env : ExpiryEnv) (rs : List Row) (old : List Event) : Type 0 where
  log : List Event
  records : record_events env rs old ≡ some log
  kept : (e : Event) → In e old → In e log
  added : (r : Row) → In r rs → In (expired_event r) log

record_events-Logged :
    (env : ExpiryEnv) (rs : List Row) (old : List Event)
    → ((id : String) → env.records_event id ≡ true)
    → Logged env rs old
unfolding record_events
record_events-Logged env [] old h = record {
  log = old;
  records = refl;
  kept = λ e m. m;
  added = λ r m. elim m [ ];
}
record_events-Logged env (x ∷ rs) old h =
    let l = record_events-Logged env rs (expired_event x ∷ old) h in
    record {
      log = l.log;
      records = rw (h x.id) l.records;
      kept = λ e m. l.kept e (there m);
      added = λ r m. elim m [
        | here e ↦
            subst (λ y. In (expired_event y) l.log) (sym e) (l.kept (expired_event x) (here refl))
        | there k ↦ l.added r k
      ];
    }

-- What the transaction has to achieve.
record Expires (now : ℕ) (t t' : Tables) (sboms : List (Option String)) : Type 0 where
  rows : t'.rows ≡ map (expire_if_due now) t.rows
  logged : (r : Row) → In r t.rows → is_due now r ≡ true → In (expired_event r) t'.events
  listed : (r : Row) → In r t.rows → is_due now r ≡ true → In r.request.sbom_id sboms

not_empty {ℓ} : {A : Type ℓ} {x : A} (xs : List A) → In x xs → is_empty xs ≡ false
not_empty [] m = elim m [ ]
not_empty (y ∷ ys) m = refl

-- A list of ids that is not empty has a row that is due.
due_row :
    (now : ℕ) (rows : List Row)
    → is_empty (due_ids now rows) ≡ false
    → (r : Row) × In r rows × (is_due now r ≡ true)
unfolding due_ids expiring_before
due_row now [] h = cc
due_row now (r ∷ rs) h = elim (Bool-cases (is_due now r)) [
  | inl y ↦ (r, here refl, y)
  | inr n ↦ let (s, m, k) = due_row now rs (ground arith) in (s, there m, k)
]

module _ (env : ExpiryEnv) (a : Answers env) (t : Tables) (d : DistinctIds t.rows) where
  exceptions-Expires :
      (vex : List VexRow)
      → is_empty (due_ids env.now t.rows) ≡ false
      → (s : Sweep) × (sweep_exceptions env t vex ≡ some s) × Expires env.now t s.tables s.sboms
  unfolding sweep_exceptions
  exceptions-Expires vex e =
      let l =
        record_events-Logged env (marked_rows (due_ids env.now t.rows) t.rows) t.events a.records in
      let s : Sweep = record {
        tables = record { rows = mark_expired (due_ids env.now t.rows) t.rows; events = l.log };
        vex = vex;
        sboms = add_rows (marked_rows (due_ids env.now t.rows) t.rows) [];
      } in
      (
        s,
        ground (arith, l.records, a.marks),
        record {
          rows = mark_expired-due env.now t.rows d;
          logged = λ r m h. l.added r (marked_rows-In env.now t.rows r m h);
          listed = λ r m h. add_rows-In _ r [] (marked_rows-In env.now t.rows r m h);
        },
      )

  vex-Expires :
      (s : Sweep)
      → Expires env.now t s.tables s.sboms
      → (s' : Sweep) × (sweep_vex env s ≡ some s') × Expires env.now t s'.tables s'.sboms
  unfolding sweep_vex
  vex-Expires s x = elim (Bool-cases (is_empty (map vex_id (due_vex env.now s.vex)))) [
    | inl e ↦ (s, ground arith, x)
    | inr e ↦ (
      record s {
        vex = mark_expired_vex (map vex_id (due_vex env.now s.vex)) s.vex;
        sboms = add_vex (filter (is_marked_vex (map vex_id (due_vex env.now s.vex))) s.vex) s.sboms;
      },
      ground (arith, a.marks_vex),
      record {
        rows = x.rows;
        logged = x.logged;
        listed = λ r m h. add_vex-keeps _ r.request.sbom_id s.sboms (x.listed r m h);
      },
    )
  ]

  sweep-Expires :
      (vex : List VexRow)
      → is_empty (due_ids env.now t.rows) ≡ false
      → (s : Sweep) × (sweep env t vex ≡ some s) × Expires env.now t s.tables s.sboms
  unfolding sweep
  sweep-Expires vex e =
      let (s, q, x) = exceptions-Expires vex e in
      let (s', q', x') = vex-Expires s x in
      (s', ap (λ o. elim o [ none ↦ none | some y ↦ sweep_vex env y ]) q ∙ q', x')

-- What a tick makes of a worker.
pub record Swept (env : ExpiryEnv) (w w' : Worker) : Type 0 where
  pub rows : w'.tables.rows ≡ map (expire_if_due env.now) w.tables.rows
  pub idle : w'.is_running ≡ false
  pub logged :
      (r : Row)
      → In r w.tables.rows
      → is_due env.now r ≡ true
      → In (expired_event r) w'.tables.events
  pub evaluated :
      (r : Row) → In r w.tables.rows → is_due env.now r ≡ true → In r.request.sbom_id w'.reevaluated

undue-In :
    (now : ℕ) (rows : List Row) (r : Row)
    → is_empty (due_ids now rows) ≡ true
    → In r rows
    → is_due now r ≡ true
    → ⊥
unfolding due_ids expiring_before
undue-In now [] r e m h = elim m [ ]
undue-In now (x ∷ rows) r e (here q) h = ground (arith, ap (is_due now) q)
undue-In now (x ∷ rows) r e (there m) h = undue-In now rows r (ground arith) m h

running-conclude :
    (env : ExpiryEnv) (w : Worker) (o : Option Sweep) → (conclude env w o).is_running ≡ w.is_running
unfolding conclude
running-conclude env w none = refl
running-conclude env w (some s) = ground arith

conclude-committed :
    (env : ExpiryEnv) (w : Worker) (s : Sweep)
    → is_empty s.sboms ≡ false
    → env.commits ≡ true
    → conclude env w (some s) ≡ record {
      is_running = w.is_running;
      tables = s.tables;
      vex = s.vex;
      reevaluated = w.reevaluated ++ s.sboms;
    }
unfolding conclude
conclude-committed env w s e c = ground arith

tick-connected :
    (env : ExpiryEnv) (w : Worker)
    → w.is_running ≡ false
    → env.connects ≡ true
    → tick env w ≡ conclude env w (sweep env w.tables w.vex)
unfolding tick
tick-connected env w i c = ground arith

-- A tick of an idle worker in which the database answers expires exactly the ACTIVE exceptions whose
-- period has passed and leaves all others, records an event for each, gives the SBOM of each to a new
-- evaluation, and leaves the worker idle.
pub tick-Swept :
    (env : ExpiryEnv) (w : Worker)
    → Answers env
    → w.is_running ≡ false
    → DistinctIds w.tables.rows
    → Swept env w (tick env w)
tick-Swept env w a i d = elim (Bool-cases (is_empty (due_ids env.now w.tables.rows))) [
  | inl e ↦ record {
    rows =
        tick-rows (λ rows. rows ≡ map (expire_if_due env.now) w.tables.rows) env w
          (sym (map-undue env.now w.tables.rows e)) (mark_expired-due env.now w.tables.rows d);
    idle =
        ap (λ (x : Worker). x.is_running) (tick-connected env w i a.connects)
        ∙ running-conclude env w (sweep env w.tables w.vex)
        ∙ i;
    logged = λ r m h. absurd (undue-In env.now w.tables.rows r e m h);
    evaluated = λ r m h. absurd (undue-In env.now w.tables.rows r e m h);
  }
  | inr e ↦
      let (s, q, x) = sweep-Expires env a w.tables d w.vex e in
      let (r, m, h) = due_row env.now w.tables.rows e in
      let final : tick env w ≡ record {
        is_running = w.is_running;
        tables = s.tables;
        vex = s.vex;
        reevaluated = w.reevaluated ++ s.sboms;
      } =
        tick-connected env w i a.connects
        ∙ ap (conclude env w) q
        ∙ conclude-committed env w s (not_empty s.sboms (x.listed r m h)) a.commits in
      subst (Swept env w) (sym final) (record {
        rows = x.rows;
        idle = i;
        logged = x.logged;
        evaluated = λ r m h. In-append_right w.reevaluated s.sboms (x.listed r m h);
      })
]
