-- ===== src/Gateway/RunLog.antt =====
-- gateway/client.py: what the run tables keep to, in every order of the operations of `Runs`.
use dbt_bigquery_ext.Prelude.{
  ℕ, ◌+◌, ◌<◌, ◌≡◌, refl, sym, subst, false, Bool-cases, Option, List, [], ◌∷◌, arith, ==_iff,
  first, update_where, or_else, is_none, All, ◌⊎◌, inl, inr, done,
}
use dbt_bigquery_ext.Prelude.Results.{>>=-eq-done}
use dbt_bigquery_ext.Gateway.Db.{Postgres}
use dbt_bigquery_ext.Gateway.Registry.{cast_option}
use dbt_bigquery_ext.Gateway.Runs.{
  RunRow, RunEventRow, RunDb, StartArgs, EventArgs, FinishArgs, start_pooler_run,
  append_pooler_run_event, finish_pooler_run, finished, has_id, new_run, new_event,
}

-- A run of that id is recorded.
abbrev pub IsRun : ℕ → List RunRow → Type 0
IsRun id [] = ⊥
IsRun id (r ∷ rs) = (r.id ≡ id) ⊎ IsRun id rs

-- No two runs have the same id, as ids fall from row to row, and stay below the next one.
abbrev pub IsFalling : ℕ → List RunRow → Type 0
IsFalling bound [] = Unit
IsFalling bound (r ∷ rs) = (r.id < bound) × IsFalling r.id rs

pub record IsValid (db : RunDb) : Type 0 where
  pub falling : IsFalling db.next_run_id db.runs
  pub of_runs : All (λ (e : RunEventRow). IsRun e.run_id db.runs) db.run_events

-- One call that returns.
pub data RunStep (pg : Postgres) (db db' : RunDb) : Type 0 where
  starts : (a : StartArgs) → start_pooler_run pg a db ≡ done db' → RunStep pg db db'
  appends :
      (now : ℕ) (a : EventArgs) → append_pooler_run_event pg now a db ≡ done db' → RunStep pg db db'
  finishes : (a : FinishArgs) → finish_pooler_run pg a db ≡ done db' → RunStep pg db db'

pub data Reaches (pg : Postgres) (db : RunDb) : RunDb → Type 0 where
  here : Reaches pg db db
  later : {db1 db2 : RunDb} → Reaches pg db db1 → RunStep pg db1 db2 → Reaches pg db db2

All-weaken :
    (rs rs' : List RunRow)
    → ((id : ℕ) → IsRun id rs → IsRun id rs')
    → (es : List RunEventRow) → All (λ (e : RunEventRow). IsRun e.run_id rs) es
    → All (λ (e : RunEventRow). IsRun e.run_id rs') es
All-weaken rs rs' k [] h = tt
All-weaken rs rs' k (e ∷ es) h = (k e.run_id h.0, All-weaken rs rs' k es h.1)

first-IsRun : (id : ℕ) (rs : List RunRow) → is_none (first (has_id id) rs) ≡ false → IsRun id rs
first-IsRun id [] h = absurd (cc)
first-IsRun id (r ∷ rs) h = elim (Bool-cases (has_id id r)) [
  | inl e ↦ inl ((==_iff r.id id).0 e)
  | inr e ↦ inr (first-IsRun id rs (rw e at h))
]

IsFalling-cons :
    (r : RunRow) (n : ℕ) (rs : List RunRow) → r.id ≡ n → IsFalling n rs → IsFalling (n + 1) (r ∷ rs)
IsFalling-cons r n rs e h = (omega (arith, e), subst (λ k. IsFalling k rs) (sym e) h)

module _ (a : FinishArgs) (at : ℕ) (from to : Option ℕ) where
  pub update-IsRun :
      (id : ℕ) (rs : List RunRow)
      → IsRun id rs
      → IsRun id (update_where (has_id a.run_id) (finished a at from to) rs)
  unfolding finished
  update-IsRun id [] h = h
  update-IsRun id (r ∷ rs) (inl e) = inl (ground (arith, e))
  update-IsRun id (r ∷ rs) (inr h) = inr (update-IsRun id rs h)

  update-IsFalling :
      (bound : ℕ) (rs : List RunRow)
      → IsFalling bound rs
      → IsFalling bound (update_where (has_id a.run_id) (finished a at from to) rs)
  unfolding finished
  update-IsFalling bound [] h = h
  update-IsFalling bound (r ∷ rs) h = elim (Bool-cases (has_id a.run_id r)) [
    | inl e ↦ rw e (h.0, update-IsFalling r.id rs h.1)
    | inr e ↦ rw e (h.0, update-IsFalling r.id rs h.1)
  ]

module _ (pg : Postgres) (db : RunDb) {db' : RunDb} where
  pub start_pooler_run-adds :
      (a : StartArgs)
      → start_pooler_run pg a db ≡ done db'
      → (r : RunRow) × (r.id ≡ db.next_run_id)
        × (db'.runs ≡ r ∷ db.runs)
        × (db'.next_run_id ≡ db.next_run_id + 1)
        × (db'.run_events ≡ db.run_events)
  unfolding start_pooler_run
  start_pooler_run-adds a h =
      let (s, e, h1) = >>=-eq-done (pg.cast a.started_at) _ h in
      let (w, e1, h2) = >>=-eq-done (cast_option pg a.watermark_to) _ h1 in
      (new_run a s w db.next_run_id, refl, ground arith, ground arith, ground arith)

  append_event-adds :
      (now : ℕ) (a : EventArgs)
      → append_pooler_run_event pg now a db ≡ done db'
      → (is_none (first (has_id a.run_id) db.runs) ≡ false)
        × (db'.runs ≡ db.runs)
        × (db'.next_run_id ≡ db.next_run_id)
        × (e : RunEventRow) × (e.run_id ≡ a.run_id)
        × (db'.run_events ≡ e ∷ db.run_events)
  unfolding append_pooler_run_event
  append_event-adds now a h =
      let (t, e, h1) = >>=-eq-done (cast_option pg a.logged_at) _ h in
      (
        ground arith,
        ground arith,
        ground arith,
        new_event a (or_else t now) db.next_event_id,
        refl,
        ground arith,
      )

  finish_pooler_run-updates :
      (a : FinishArgs)
      → finish_pooler_run pg a db ≡ done db'
      → (at : ℕ) × (from : Option ℕ) × (to : Option ℕ) × (db'.runs
          ≡ update_where (has_id a.run_id) (finished a at from to) db.runs)
        × (db'.next_run_id ≡ db.next_run_id)
        × (db'.run_events ≡ db.run_events)
  unfolding finish_pooler_run
  finish_pooler_run-updates a h =
      let (at, e, h1) = >>=-eq-done (pg.cast a.completed_at) _ h in
      let (from, e1, h2) = >>=-eq-done (cast_option pg a.watermark_from) _ h1 in
      let (to, e2, h3) = >>=-eq-done (cast_option pg a.watermark_to) _ h2 in
      (at, from, to, ground arith, ground arith, ground arith)

  RunStep-IsValid : RunStep pg db db' → IsValid db → IsValid db'
  RunStep-IsValid (starts a h) v =
      let (r, i, runs, next, events) = start_pooler_run-adds a h in
      record {
        falling = rw (runs, next) (IsFalling-cons r db.next_run_id db.runs i v.falling);
        of_runs =
            rw (runs, events)
              (All-weaken db.runs (r ∷ db.runs) (λ id m. inr m) db.run_events v.of_runs);
      }
  RunStep-IsValid (appends now a h) v =
      let (found, runs, next, e, i, events) = append_event-adds now a h in
      record {
        falling = rw (runs, next) v.falling;
        of_runs =
            rw (runs, events)
              (
                subst (λ id. IsRun id db.runs) (sym i) (first-IsRun a.run_id db.runs found),
                v.of_runs,
              );
      }
  RunStep-IsValid (finishes a h) v =
      let (at, from, to, runs, next, events) = finish_pooler_run-updates a h in
      record {
        falling = rw (runs, next) (update-IsFalling a at from to db.next_run_id db.runs v.falling);
        of_runs =
            rw (runs, events)
              (All-weaken db.runs _ (λ id m. update-IsRun a at from to id db.runs m) db.run_events
                v.of_runs);
      }

-- In every order of calls that return, from valid run tables, the ids of the runs stay distinct and
-- below the next one, and every event belongs to a run that is recorded.
pub Reaches-IsValid :
    (pg : Postgres) {db db' : RunDb} → IsValid db → Reaches pg db db' → IsValid db'
Reaches-IsValid pg v here = v
Reaches-IsValid pg v (later r s) = RunStep-IsValid pg _ s (Reaches-IsValid pg v r)
