-- ===== src/Service/Finished.antt =====
-- run_session.py: the row of a run whose session was opened, received events and was finished.
use dbt_bigquery_ext.Prelude.{
  ℕ, zero, suc, ◌+◌, ◌≡◌, ◌≢◌, refl, ap, subst, ◌∙◌, ◌⊎◌, inl, inr, Bool, false, Bool-cases, Option,
  none, some, List, [], ◌∷◌, Text, codes, text_eq, length, select, In, All, ==_iff, arith, done,
  update_where,
}
use dbt_bigquery_ext.Prelude.Results.{>>=-eq-done}
use dbt_bigquery_ext.Gateway.Db.{Postgres}
use dbt_bigquery_ext.Gateway.Registry.{cast_option}
use dbt_bigquery_ext.Gateway.Runs.{RunRow, RunEventRow, RunDb, finish_pooler_run, has_id, finished}
use dbt_bigquery_ext.Gateway.RunLog.{IsRun, IsValid, update-IsRun}
use dbt_bigquery_ext.Service.RunSession.{
  Session, SessionArgs, EventCall, RunResult, open_session, finish_session, finish_args, closed,
  final_status, error_results,
}
use dbt_bigquery_ext.Service.Counted.{
  IsCounted, Receives, count_events, count_lost, done_inj, session-IsCounted,
}

-- The pooler reports the result as failed.
abbrev pub is_failed : RunResult → Bool
is_failed r = elim r.status [ none ↦ false | some t ↦ text_eq t (codes "error") ]

-- `error` if anything failed, else `warning` if there was a warning, else `ok`.
abbrev pub StatusSays : ℕ → ℕ → Text → Type 0
StatusSays errors warnings status =
    ((errors ≢ 0) × (status ≡ codes "error"))
    ⊎ ((errors ≡ 0) × (warnings ≢ 0) × (status ≡ codes "warning"))
    ⊎ ((errors ≡ 0) × (warnings ≡ 0) × (status ≡ codes "ok"))

final_status-says : (e w : ℕ) → StatusSays e w (final_status e w)
unfolding final_status
final_status-says (suc e) w = inl (λ h. absurd (omega (arith, h)), refl)
final_status-says zero (suc w) = inr (inl (refl, (λ h. absurd (omega (arith, h))), refl))
final_status-says zero zero = inr (inr (refl, refl, refl))

error_results-select : (rs : List RunResult) → error_results rs ≡ length (select is_failed rs)
unfolding error_results
error_results-select [] = refl
error_results-select (r ∷ rs) = go r.status refl (error_results-select rs)
  where
    go :
        (o : Option Text)
        → r.status ≡ o
        → error_results rs ≡ length (select is_failed rs)
        → error_results (r ∷ rs) ≡ length (select is_failed (r ∷ rs))
    go none e ih = rw (e, error_results) (unfold text_eq in ih)
    go (some []) e ih = rw (e, error_results) (unfold text_eq in ih)
    go (some (c ∷ s)) e ih = elim (Bool-cases (text_eq (c ∷ s) (codes "error"))) [
      | inl t ↦ rw (e, error_results, t) (ap (λ n. suc n) ih)
      | inr t ↦ rw (e, error_results, t) ih
    ]

-- The row of a finished run: its counters are its events, stored or lost, its failed results count as
-- errors, and its status says what the counters do.
pub record IsFinished (pg : Postgres) (completed : Text) (run_id : ℕ) (results : List RunResult)
    (lost : List EventCall) (es : List RunEventRow) (r : RunRow) : Type 0 where
  pub num_warnings :
      r.num_warnings ≡ count_events run_id (codes "WARNING") es + count_lost (codes "WARNING") lost
  pub num_errors :
      r.num_errors
      ≡ count_events run_id (codes "ERROR") es
        + count_lost (codes "ERROR") lost
        + length (select is_failed results)
  pub num_tables : r.num_tables ≡ length results
  pub status : StatusSays r.num_errors r.num_warnings r.status
  pub completed_at : (c : ℕ) × (pg.cast completed ≡ done c) × (r.completed_at ≡ some c)

module _ (pg : Postgres) (completed : Text) (results : List RunResult) (lost : List EventCall)
    (s : Session) (c : ℕ) (from to : Option ℕ) where
  abbrev finished_row : RunRow → RunRow
  finished_row = finished (finish_args completed results (closed results s)) c from to

  abbrev finished_runs : List RunRow → List RunRow
  finished_runs = update_where (has_id s.run_id) finished_row

  row-IsFinished :
      (r : RunRow)
      → pg.cast completed ≡ done c
      → IsCounted lost s
      → IsFinished pg completed s.run_id results lost s.db.run_events (finished_row r)
  unfolding finished
  row-IsFinished r e k = record {
    num_warnings = k.warnings;
    num_errors = λ i. k.errors i + error_results-select results i;
    num_tables = refl;
    status = final_status-says (s.num_errors + error_results results) s.num_warnings;
    completed_at = (c, e, refl);
  }

  rows-IsFinished :
      (rs : List RunRow)
      → pg.cast completed ≡ done c
      → IsCounted lost s
      → All
          (λ (r : RunRow).
            r.id ≡ s.run_id → IsFinished pg completed s.run_id results lost s.db.run_events r)
          (finished_runs rs)
  rows-IsFinished [] e k = tt
  rows-IsFinished (r ∷ rs) e k = elim (Bool-cases (has_id s.run_id r)) [
    | inl q ↦ rw q ((λ _. row-IsFinished r e k), rows-IsFinished rs e k)
    | inr q ↦ rw q ((λ i. absurd (cc (q, (==_iff r.id s.run_id).1 i))), rows-IsFinished rs e k)
  ]

  others_stay :
      (rs : List RunRow) (r : RunRow) → In r rs → r.id ≢ s.run_id → In r (finished_runs rs)
  others_stay [] r m n = absurd m
  others_stay (x ∷ rs) r (inl q) n = elim (Bool-cases (has_id s.run_id x)) [
    | inl e ↦ absurd (n (ap (λ (y : RunRow). y.id) q ∙ (==_iff x.id s.run_id).0 e))
    | inr e ↦ rw e (inl q)
  ]
  others_stay (x ∷ rs) r (inr m) n = inr (others_stay rs r m n)

-- What a finished session leaves in the run tables: its run, as it should be, the other runs and all
-- events as they were.
abbrev pub LeavesFinished :
    Postgres → Text → List RunResult → List EventCall → Session → RunDb → Type 0
LeavesFinished pg completed results lost s db =
    IsRun s.run_id db.runs
    × All
        (λ (r : RunRow).
          r.id ≡ s.run_id → IsFinished pg completed s.run_id results lost s.db.run_events r)
        db.runs
    × ((r : RunRow) → In r s.db.runs → r.id ≢ s.run_id → In r db.runs)
    × (db.run_events ≡ s.db.run_events)

finish-LeavesFinished :
    (pg : Postgres) (completed : Text) (results : List RunResult) (lost : List EventCall)
    (s : Session) {s' : Session}
    → IsCounted lost s
    → finish_session pg completed results s ≡ done s'
    → LeavesFinished pg completed results lost s s'.db
unfolding finish_session finish_pooler_run
finish-LeavesFinished pg completed results lost s k h =
    let a = finish_args completed results (closed results s) in
    let (db, e, q) = >>=-eq-done (finish_pooler_run pg a s.db) _ h in
    let (c, e1, h1) = >>=-eq-done (pg.cast completed) _ e in
    let (from, e2, h2) = >>=-eq-done (cast_option pg a.watermark_from) _ h1 in
    let (to, e3, h3) = >>=-eq-done (cast_option pg a.watermark_to) _ h2 in
    let P = LeavesFinished pg completed results lost s in
    subst (λ (x : Session). P x.db) (done_inj q)
      (subst P (done_inj h3) (
        update-IsRun a c from to s.run_id s.db.runs k.recorded,
        rows-IsFinished pg completed results lost s c from to s.db.runs e1 k,
        others_stay pg completed results lost s c from to s.db.runs,
        refl,
      ))

-- A session that was opened in valid run tables, received events, stored or lost, and was finished has its
-- run recorded. The run's row counts the warnings, counts the errors with the failed results among them,
-- and has the number of all results, the time of completion, and the status that these counts say: error
-- if there is an error, else warning if there is a warning, else ok. No other run and no event is changed.
pub finish_session-IsFinished :
    (pg : Postgres) (t : Text) (a : SessionArgs) (db : RunDb) (completed : Text)
    (results : List RunResult) (lost : List EventCall) {s s' s'' : Session}
    → IsValid db
    → open_session pg t a db ≡ done s
    → Receives pg s lost s'
    → finish_session pg completed results s' ≡ done s''
    → LeavesFinished pg completed results lost s' s''.db
finish_session-IsFinished pg t a db completed results lost {s} {s'} v o r h =
    finish-LeavesFinished pg completed results lost s' (session-IsCounted pg t a db v o r) h
