-- ===== src/Service/Counted.antt =====
-- run_session.py: the counters of a session are those of its events in the tables.
use dbt_bigquery_ext.Prelude.{
  ℕ, ◌+◌, ◌<◌, ◌==◌, ==_iff, ◌≡◌, refl, sym, ap, subst, ◌∙◌, inl, inr, Bool, false, Bool-cases,
  ◌&&◌, Option, List, [], ◌∷◌, Text, codes, text_eq, text_eq_iff, upper, All, arith, or_else,
  if◌then◌else◌, Exn, Result, done, raised, none, some,
}
use dbt_bigquery_ext.Prelude.Results.{>>=-eq-done}
use dbt_bigquery_ext.Gateway.Db.{Postgres}
use dbt_bigquery_ext.Gateway.Registry.{cast_option}
use dbt_bigquery_ext.Gateway.Runs.{
  RunRow, RunEventRow, RunDb, EventArgs, start_pooler_run, append_pooler_run_event, new_event,
}
use dbt_bigquery_ext.Gateway.RunLog.{IsRun, IsFalling, IsValid, start_pooler_run-adds}
use dbt_bigquery_ext.Service.RunSession.{
  Session, SessionArgs, EventCall, open_session, on_event, stored_unless, count_level, with_tables,
  level_of, event_args, start_args, text_or,
}

abbrev of_level : ℕ → Text → RunEventRow → Bool
of_level run_id lvl e = (e.run_id == run_id) && text_eq e.level lvl

-- How many events of the run and the level are stored.
abbrev pub count_events : ℕ → Text → List RunEventRow → ℕ
count_events run_id lvl [] = 0
count_events run_id lvl (e ∷ es) =
    (if of_level run_id lvl e then 1 else 0) + count_events run_id lvl es

-- How many events of the level were lost.
abbrev pub count_lost : Text → List EventCall → ℕ
count_lost lvl [] = 0
count_lost lvl (e ∷ es) = (if text_eq (level_of e) lvl then 1 else 0) + count_lost lvl es

-- The session's run is recorded, and its counters are those of the events that are stored and of those
-- that are lost.
pub record IsCounted (lost : List EventCall) (s : Session) : Type 0 where
  pub recorded : IsRun s.run_id s.db.runs
  pub warnings :
      s.num_warnings
      ≡ count_events s.run_id (codes "WARNING") s.db.run_events + count_lost (codes "WARNING") lost
  pub errors :
      s.num_errors
      ≡ count_events s.run_id (codes "ERROR") s.db.run_events + count_lost (codes "ERROR") lost

IsRun-below : (bound id : ℕ) (rs : List RunRow) → IsFalling bound rs → IsRun id rs → id < bound
IsRun-below bound id [] f h = elim h [ ]
IsRun-below bound id (r ∷ rs) f (inl e) = omega (arith, f.0, e)
IsRun-below bound id (r ∷ rs) f (inr h) = omega (arith, f.0, IsRun-below r.id id rs f.1 h)

no_events :
    (bound : ℕ) (lvl : Text) (rs : List RunRow) (es : List RunEventRow)
    → IsFalling bound rs
    → All (λ (e : RunEventRow). IsRun e.run_id rs) es
    → count_events bound lvl es ≡ 0
no_events bound lvl rs [] f a = refl
no_events bound lvl rs (e ∷ es) f a =
    ground (arith, IsRun-below bound e.run_id rs f a.0, no_events bound lvl rs es f a.1)

pub done_inj : {A : Type 0} {a b : A} → ◌≡◌ {A = Result A} (done a) (done b) → a ≡ b
done_inj e = cc

open_session-IsCounted :
    (pg : Postgres) (t : Text) (a : SessionArgs) (db : RunDb) {s : Session}
    → IsValid db
    → open_session pg t a db ≡ done s
    → IsCounted [] s
unfolding open_session
open_session-IsCounted pg t a db {s} v h =
    let (db', e, h1) = >>=-eq-done (start_pooler_run pg (start_args t a) db) _ h in
    let (r, ri, rs, n, es) = start_pooler_run-adds pg db (start_args t a) e in
    subst (IsCounted []) (done_inj h1) (record {
      recorded = rw rs (inl ri);
      warnings = rw es (
          omega (
            arith,
            no_events db.next_run_id (codes "WARNING") db.runs db.run_events v.falling v.of_runs,
          ));
      errors = rw es (
          omega (
            arith,
            no_events db.next_run_id (codes "ERROR") db.runs db.run_events v.falling v.of_runs,
          ));
    })

upper-upper : (t : Text) → upper (upper t) ≡ upper t
unfolding upper
upper-upper [] = refl
upper-upper (c ∷ t) = ground (arith, upper-upper t)

append_adds :
    (pg : Postgres) (now : ℕ) (a : EventArgs) (db : RunDb) {db' : RunDb}
    → append_pooler_run_event pg now a db ≡ done db'
    → (t : ℕ) × (db'.runs ≡ db.runs)
      × (db'.run_events ≡ new_event a t db.next_event_id ∷ db.run_events)
unfolding append_pooler_run_event
append_adds pg now a db h =
    let (t, e, h1) = >>=-eq-done (cast_option pg a.logged_at) _ h in
    (or_else t now, ground arith, ground arith)

with_tables-inv :
    (s : Session) (r : Result RunDb) {s' : Session}
    → with_tables s r ≡ (done tt, s')
    → (db : RunDb) × (r ≡ done db) × (record s { db = db } ≡ s')
with_tables-inv s (done db) h = (db, refl, ap (λ (p : Result (Unit {0}) × Session). p.1) h)
with_tables-inv s (raised e) h = absurd (cc)

stored_inv :
    (f : Option Exn) (r : Result RunDb) {db : RunDb} → stored_unless f r ≡ done db → r ≡ done db
stored_inv none r h = h
stored_inv (some x) r h = absurd (cc)

-- One more for an event of the level.
abbrev more : Text → Text → ℕ → ℕ
more lvl l n = (if text_eq lvl l then 1 else 0) + n

count_level_lem :
    (lvl : Text) (s : Session)
    → ((count_level lvl s).run_id ≡ s.run_id)
      × ((count_level lvl s).num_warnings ≡ more lvl (codes "WARNING") s.num_warnings)
      × ((count_level lvl s).num_errors ≡ more lvl (codes "ERROR") s.num_errors)
      × ((count_level lvl s).db ≡ s.db)
unfolding count_level
count_level_lem lvl s = elim (Bool-cases (text_eq lvl (codes "WARNING"))) [
  | inl e ↦
      let q = (text_eq_iff lvl (codes "WARNING")).0 e in
      let z : text_eq lvl (codes "ERROR") ≡ false = rw q (unfold text_eq in refl) in
      rw e (refl, omega arith, rw z (omega arith), refl)
  | inr e ↦ elim (Bool-cases (text_eq lvl (codes "ERROR"))) [
    | inl z ↦ rw (e, z) (refl, omega arith, omega arith, refl)
    | inr z ↦ rw (e, z) (refl, omega arith, omega arith, refl)
  ]
]

count_new :
    (run_id : ℕ) (lvl : Text) (e : EventCall) (t id : ℕ) (es : List RunEventRow)
    → count_events run_id lvl (new_event (event_args run_id e) t id ∷ es)
      ≡ more (level_of e) lvl (count_events run_id lvl es)
count_new run_id lvl e t id es =
    rw ((==_iff run_id run_id).1 refl, upper-upper (text_or e.level (codes "INFO"))) refl

more_left : (lvl l : Text) (a b : ℕ) → more lvl l (a + b) ≡ more lvl l a + b
more_left lvl l a b = omega arith

more_right : (lvl l : Text) (a b : ℕ) → more lvl l (a + b) ≡ a + more lvl l b
more_right lvl l a b = omega arith

on_event-IsCounted :
    (pg : Postgres) (now : ℕ) (f : Option Exn) (e : EventCall) (lost : List EventCall) (s : Session)
    {s' : Session}
    → IsCounted lost s
    → on_event pg now f e s ≡ (done tt, s')
    → IsCounted lost s'
unfolding on_event
on_event-IsCounted pg now f e lost s c h =
    let (db, k, q) =
      with_tables-inv (count_level (level_of e) s)
        (stored_unless f (append_pooler_run_event pg now (event_args s.run_id e) s.db)) h in
    let (t, rs, es) = append_adds pg now (event_args s.run_id e) s.db (stored_inv f _ k) in
    let (i, w, er, d) = count_level_lem (level_of e) s in
    let id = s.db.next_event_id in
    let old = s.db.run_events in
    subst (IsCounted lost) q (record {
      recorded = rw (i, rs) c.recorded;
      warnings =
          rw (i, es)
            (w
              ∙ ap (more (level_of e) (codes "WARNING")) c.warnings
              ∙ more_left (level_of e) (codes "WARNING") _ _
              ∙ ap (λ n. n + count_lost (codes "WARNING") lost)
                  (sym (count_new s.run_id (codes "WARNING") e t id old)));
      errors =
          rw (i, es)
            (er
              ∙ ap (more (level_of e) (codes "ERROR")) c.errors
              ∙ more_left (level_of e) (codes "ERROR") _ _
              ∙ ap (λ n. n + count_lost (codes "ERROR") lost)
                  (sym (count_new s.run_id (codes "ERROR") e t id old)));
    })

with_tables-raised :
    (s : Session) (r : Result RunDb) {x : Exn} {s' : Session}
    → with_tables s r ≡ (raised x, s')
    → s ≡ s'
with_tables-raised s (done db) h = absurd (cc)
with_tables-raised s (raised e) h = ap (λ (p : Result (Unit {0}) × Session). p.1) h

-- The counters are moved before the insert, so that they count an event whose insert raises.
lost_event-IsCounted :
    (pg : Postgres) (now : ℕ) (f : Option Exn) (e : EventCall) (lost : List EventCall) (s : Session)
    {x : Exn} {s' : Session}
    → IsCounted lost s
    → on_event pg now f e s ≡ (raised x, s')
    → IsCounted (e ∷ lost) s'
unfolding on_event
lost_event-IsCounted pg now f e lost s c h =
    let q =
      with_tables-raised (count_level (level_of e) s)
        (stored_unless f (append_pooler_run_event pg now (event_args s.run_id e) s.db)) h in
    let (i, w, er, d) = count_level_lem (level_of e) s in
    subst (IsCounted (e ∷ lost)) q (record {
      recorded = rw (i, d) c.recorded;
      warnings =
          rw (i, d)
            (w
              ∙ ap (more (level_of e) (codes "WARNING")) c.warnings
              ∙ more_right (level_of e) (codes "WARNING") _ _);
      errors =
          rw (i, d)
            (er
              ∙ ap (more (level_of e) (codes "ERROR")) c.errors
              ∙ more_right (level_of e) (codes "ERROR") _ _);
    })

-- Events that arrive one after another: those whose insert returns are stored, and those whose insert
-- raises are lost.
pub data Receives (pg : Postgres) (s : Session) : List EventCall → Session → Type 0 where
  none_yet : Receives pg s [] s
  then_stored :
      {lost : List EventCall} {s1 s2 : Session} (now : ℕ) (f : Option Exn) (e : EventCall)
      → Receives pg s lost s1
      → on_event pg now f e s1 ≡ (done tt, s2)
      → Receives pg s lost s2
  then_lost :
      {lost : List EventCall} {s1 s2 : Session} (now : ℕ) (f : Option Exn) (e : EventCall) (x : Exn)
      → Receives pg s lost s1
      → on_event pg now f e s1 ≡ (raised x, s2)
      → Receives pg s (e ∷ lost) s2

-- In run tables that are valid, whatever events a session has received since it was opened, stored or
-- lost, its run is recorded, and each of its two counters is the number of the stored events of that level
-- and of the lost ones.
pub session-IsCounted :
    (pg : Postgres) (t : Text) (a : SessionArgs) (db : RunDb) {s : Session} {lost : List EventCall}
    {s' : Session}
    → IsValid db
    → open_session pg t a db ≡ done s
    → Receives pg s lost s'
    → IsCounted lost s'
session-IsCounted pg t a db v h none_yet = open_session-IsCounted pg t a db v h
session-IsCounted pg t a db v h (then_stored {lost = lost} {s1 = s1} now f e r k) =
    on_event-IsCounted pg now f e lost s1 (session-IsCounted pg t a db v h r) k
session-IsCounted pg t a db v h (then_lost {lost = lost} {s1 = s1} now f e x r k) =
    lost_event-IsCounted pg now f e lost s1 (session-IsCounted pg t a db v h r) k
