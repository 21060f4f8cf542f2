-- ===== src/Service/RunSession.antt =====
-- services/change_metadata_pooler/app/run_session.py `PoolRunSession`: the record of one run, on the
-- run tables of the gateway. The clock's answers are arguments.
use dbt_bigquery_ext.Prelude.{
  ℕ, zero, suc, ◌+◌, Option, none, some, List, [], ◌∷◌, ◌++◌, map, Text, codes, text_eq, text_ltb,
  upper, join, length, or_else, coalesce, Result, done, raised, if◌then◌else◌, Exn,
}
use dbt_bigquery_ext.Prelude.Results.{◌>>=◌}
use dbt_bigquery_ext.Prelude.Dicts.{Dict, lookup, insert}
use dbt_bigquery_ext.Gateway.Db.{Postgres}
use dbt_bigquery_ext.Gateway.Runs.{
  RunDb, StartArgs, EventArgs, FinishArgs, start_pooler_run, append_pooler_run_event,
  finish_pooler_run,
}
use dbt_bigquery_ext.Pooler.Mirror.{digits}

pub record Session : Type 0 where
  pub db : RunDb
  pub run_id : ℕ
  pub watermark_from : Option Text
  pub watermark_to : Text
  pub num_warnings : ℕ
  pub num_errors : ℕ

pub record SessionArgs : Type 0 where
  pub trigger : Text
  pub schedule_group : Option Text
  pub invocation_id : Option Text
  pub watermark_to : Option Text
  pub num_tables : ℕ

-- `x or d`.
abbrev pub text_or : Option Text → Text → Text
text_or none d = d
text_or (some []) d = d
text_or (some (c ∷ s)) d = c ∷ s

abbrev pub start_args : Text → SessionArgs → StartArgs
start_args started_at a = record {
  started_at = started_at;
  watermark_to = some (text_or a.watermark_to started_at);
  invocation_id = a.invocation_id;
  trigger = a.trigger;
  schedule_group = a.schedule_group;
  num_tables = a.num_tables;
}

-- `__init__`, with the time that the clock says.
unfoldable pub open_session : Postgres → Text → SessionArgs → RunDb → Result Session
open_session pg started_at a db = do
  db' ← start_pooler_run pg (start_args started_at a) db
  done (record {
    db = db';
    run_id = db.next_run_id;
    watermark_from = none;
    watermark_to = text_or a.watermark_to started_at;
    num_warnings = 0;
    num_errors = 0;
  })

pub record EventCall : Type 0 where
  pub level : Option Text
  pub message : Text
  pub full_table_name : Option Text
  pub status : Option Text

abbrev pub level_of : EventCall → Text
level_of e = upper (text_or e.level (codes "INFO"))

abbrev pub event_args : ℕ → EventCall → EventArgs
event_args run_id e = record {
  run_id = run_id;
  level = level_of e;
  message = e.message;
  full_table_name = e.full_table_name;
  status = e.status;
  logged_at = none;
}

-- The counters after an event of this level.
unfoldable pub count_level : Text → Session → Session
count_level lvl s =
    if text_eq lvl (codes "WARNING")
    then record s { num_warnings = s.num_warnings + 1 }
    else if text_eq lvl (codes "ERROR")
    then record s { num_errors = s.num_errors + 1 }
    else s

-- The tables are new only where the insert returns; the counters are moved before it.
abbrev pub with_tables : Session → Result RunDb → Result (Unit {0}) × Session
with_tables s (done db) = (done tt, record s { db = db })
with_tables s (raised e) = (raised e, s)

-- The insert's transaction, which may fail for the connection or the commit.
abbrev pub stored_unless : Option Exn → Result RunDb → Result RunDb
stored_unless none r = r
stored_unless (some x) r = raised x

unfoldable pub on_event :
    Postgres → ℕ → Option Exn → EventCall → Session → Result (Unit {0}) × Session
unfolding count_level
on_event pg now failure e s =
    with_tables (count_level (level_of e) s)
      (stored_unless failure (append_pooler_run_event pg now (event_args s.run_id e) s.db))

-- One result of the pooler, by what is read of it.
pub record RunResult : Type 0 where
  pub delta_start : Option Text
  pub status : Option Text

abbrev pub status_of : RunResult → Text
status_of r = text_or r.status (codes "unknown")

abbrev lesser : Option Text → Option Text → Option Text
lesser least none = least
lesser none (some t) = some t
lesser (some l) (some t) = some (if text_ltb t l then t else l)

-- The least of the starts, where there are any.
abbrev min_start : Option Text → List RunResult → Option Text
min_start least [] = least
min_start least (r ∷ rs) = min_start (lesser least r.delta_start) rs

unfoldable pub by_status : Dict ℕ → List RunResult → Dict ℕ
by_status d [] = d
by_status d (r ∷ rs) =
    by_status (insert (status_of r) (or_else (lookup (status_of r) d) 0 + 1) d) rs

unfoldable pub error_results : List RunResult → ℕ
error_results [] = 0
error_results (r ∷ rs) =
    let rest = error_results rs in if text_eq (status_of r) (codes "error") then suc rest else rest

-- `sorted(d.items())`: the keys differ.
unfoldable pub insert_key : Text × ℕ → Dict ℕ → Dict ℕ
insert_key (k, n) [] = (k, n) ∷ []
insert_key (k, n) ((j, m) ∷ d) =
    if text_ltb k j then (k, n) ∷ (j, m) ∷ d else (j, m) ∷ insert_key (k, n) d

unfoldable pub sorted_items : Dict ℕ → Dict ℕ
unfolding insert_key
sorted_items [] = []
sorted_items (x ∷ d) = insert_key x (sorted_items d)

abbrev item_text : Text × ℕ → Text
item_text (k, n) = k ++ (codes "=" ++ digits (n + 1) n)

abbrev some_text : Text → Option Text
some_text [] = none
some_text (c ∷ s) = some (c ∷ s)

unfoldable pub final_status : ℕ → ℕ → Text
final_status (suc n) warnings = codes "error"
final_status zero (suc n) = codes "warning"
final_status zero zero = codes "ok"

-- The session's fields as `finish` leaves them.
abbrev pub closed : List RunResult → Session → Session
closed results s = record s {
  watermark_from = coalesce (min_start none results) s.watermark_from;
  num_errors = s.num_errors + error_results results;
}

abbrev pub finish_args : Text → List RunResult → Session → FinishArgs
finish_args completed results s = record {
  run_id = s.run_id;
  completed_at = completed;
  status = final_status s.num_errors s.num_warnings;
  watermark_from = s.watermark_from;
  watermark_to = some s.watermark_to;
  num_tables = length results;
  num_warnings = s.num_warnings;
  num_errors = s.num_errors;
  summary = some_text (join (codes ", ") (map item_text (sorted_items (by_status [] results))));
}

-- `finish`, where its update returns; what it gives back are fields of `finish_args`.
unfoldable pub finish_session : Postgres → Text → List RunResult → Session → Result Session
unfolding by_status error_results sorted_items final_status
finish_session pg completed results s = do
  db ← finish_pooler_run pg (finish_args completed results (closed results s)) s.db
  done (record (closed results s) { db = db })
