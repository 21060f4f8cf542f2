-- ===== src/Gateway/Runs.antt =====
-- gateway/client.py `start_pooler_run`, `append_pooler_run_event` and `finish_pooler_run`, over
-- `change_tracking_run` and `change_tracking_run_event`. `now` is CURRENT_TIMESTAMP.
use dbt_bigquery_ext.Prelude.{
  ℕ, ◌+◌, Bool, Option, none, some, List, ◌∷◌, Text, codes, upper, ◌==◌, first, update_where,
  coalesce, or_else, is_none, if◌then◌else◌, Exn, Result, done, raised,
}
use dbt_bigquery_ext.Prelude.Results.{◌>>=◌}
use dbt_bigquery_ext.Gateway.Db.{Postgres}
use dbt_bigquery_ext.Gateway.Registry.{cast_option}

-- `change_tracking_run`.
pub record RunRow : Type 0 where
  pub id : ℕ
  pub started_at : ℕ
  pub completed_at : Option ℕ
  pub status : Text
  pub watermark_from : Option ℕ
  pub watermark_to : Option ℕ
  pub num_tables : ℕ
  pub num_warnings : ℕ
  pub num_errors : ℕ
  pub invocation_id : Option Text
  pub trigger : Text
  pub schedule_group : Option Text
  pub summary : Option Text

-- `change_tracking_run_event`, whose `run_id` refers to a run.
pub record RunEventRow : Type 0 where
  pub id : ℕ
  pub run_id : ℕ
  pub logged_at : ℕ
  pub level : Text
  pub message : Text
  pub full_table_name : Option Text
  pub status : Option Text

pub record RunDb : Type 0 where
  pub runs : List RunRow
  pub run_events : List RunEventRow
  pub next_run_id : ℕ
  pub next_event_id : ℕ

pub record StartArgs : Type 0 where
  pub started_at : Text
  pub watermark_to : Option Text
  pub invocation_id : Option Text
  pub trigger : Text
  pub schedule_group : Option Text
  pub num_tables : ℕ

abbrev pub new_run : StartArgs → ℕ → Option ℕ → ℕ → RunRow
new_run a started_at watermark_to id = record {
  id = id;
  started_at = started_at;
  completed_at = none;
  status = codes "running";
  watermark_from = none;
  watermark_to = watermark_to;
  num_tables = a.num_tables;
  num_warnings = 0;
  num_errors = 0;
  invocation_id = a.invocation_id;
  trigger = a.trigger;
  schedule_group = a.schedule_group;
  summary = none;
}

-- The new tables; the id that is returned is the `next_run_id` of the old ones.
unfoldable pub start_pooler_run : Postgres → StartArgs → RunDb → Result RunDb
start_pooler_run pg a db = do
  started_at ← pg.cast a.started_at
  watermark_to ← cast_option pg a.watermark_to
  done (record db {
    runs = new_run a started_at watermark_to db.next_run_id ∷ db.runs;
    next_run_id = db.next_run_id + 1;
  })

abbrev pub has_id : ℕ → RunRow → Bool
has_id run_id r = r.id == run_id

pub record EventArgs : Type 0 where
  pub run_id : ℕ
  pub level : Text
  pub message : Text
  pub full_table_name : Option Text
  pub status : Option Text
  pub logged_at : Option Text

abbrev foreign_key_error : Exn
foreign_key_error = record {
  class_name = codes "IntegrityError";
  message = codes "insert violates foreign key constraint";
}

abbrev pub new_event : EventArgs → ℕ → ℕ → RunEventRow
new_event a logged_at id = record {
  id = id;
  run_id = a.run_id;
  logged_at = logged_at;
  level = upper a.level;
  message = a.message;
  full_table_name = a.full_table_name;
  status = a.status;
}

-- Without a run of that id the foreign key refuses the row.
unfoldable pub append_pooler_run_event : Postgres → ℕ → EventArgs → RunDb → Result RunDb
append_pooler_run_event pg now a db = do
  logged_at ← cast_option pg a.logged_at
  if is_none (first (has_id a.run_id) db.runs)
      then raised foreign_key_error
      else done (record db {
        run_events = new_event a (or_else logged_at now) db.next_event_id ∷ db.run_events;
        next_event_id = db.next_event_id + 1;
      })

pub record FinishArgs : Type 0 where
  pub run_id : ℕ
  pub completed_at : Text
  pub status : Text
  pub watermark_from : Option Text
  pub watermark_to : Option Text
  pub num_tables : ℕ
  pub num_warnings : ℕ
  pub num_errors : ℕ
  pub summary : Option Text

unfoldable pub finished : FinishArgs → ℕ → Option ℕ → Option ℕ → RunRow → RunRow
finished a completed_at from to r = record r {
  completed_at = some completed_at;
  status = a.status;
  watermark_from = coalesce from r.watermark_from;
  watermark_to = coalesce to r.watermark_to;
  num_tables = a.num_tables;
  num_warnings = a.num_warnings;
  num_errors = a.num_errors;
  summary = a.summary;
}

unfoldable pub finish_pooler_run : Postgres → FinishArgs → RunDb → Result RunDb
unfolding finished
finish_pooler_run pg a db = do
  completed_at ← pg.cast a.completed_at
  from ← cast_option pg a.watermark_from
  to ← cast_option pg a.watermark_to
  done (record db {
    runs = update_where (has_id a.run_id) (finished a completed_at from to) db.runs;
  })
