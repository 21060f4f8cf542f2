-- ===== src/Tests/OfService.antt =====
-- The theorems on a run session, at a session with one warning and one failed result.
use dbt_bigquery_ext.Prelude.{
  refl, none, some, List, [], ◌∷◌, codes, Result, done, raised, text_eq, upper, text_ltb, join, Exn,
}
use dbt_bigquery_ext.Gateway.Runs.{
  RunDb, start_pooler_run, append_pooler_run_event, finish_pooler_run, finished,
}
use dbt_bigquery_ext.Gateway.RunLog.{IsValid}
use dbt_bigquery_ext.Pooler.Mirror.{digits}
use dbt_bigquery_ext.Service.RunSession.{
  Session, SessionArgs, EventCall, RunResult, open_session, on_event, count_level, finish_session,
  by_status, error_results, sorted_items, insert_key, final_status,
}
use dbt_bigquery_ext.Service.Counted.{
  IsCounted, Receives, none_yet, then_stored, then_lost, session-IsCounted,
}
use dbt_bigquery_ext.Service.Finished.{LeavesFinished, finish_session-IsFinished}
use dbt_bigquery_ext.Tests.Fixtures.{small_pg}

abbrev empty_runs : RunDb
empty_runs = record { runs = []; run_events = []; next_run_id = 1; next_event_id = 1 }

abbrev by_api : SessionArgs
by_api = record {
  trigger = codes "api";
  schedule_group = none;
  invocation_id = none;
  watermark_to = none;
  num_tables = 1;
}

abbrev no_session : Session
no_session = record {
  db = empty_runs;
  run_id = 0;
  watermark_from = none;
  watermark_to = [];
  num_warnings = 0;
  num_errors = 0;
}

session_of : Result Session → Session
session_of (done s) = s
session_of (raised e) = no_session

opened : Session
unfolding open_session start_pooler_run
opened = session_of (open_session small_pg (60 ∷ []) by_api empty_runs)

abbrev a_warning : EventCall
a_warning = record {
  level = some (codes "Warning");
  message = codes "slow";
  full_table_name = none;
  status = none;
}

warned : Session
warned = (on_event small_pg 61 none a_warning opened).1

-- The second event is lost: the connection fails.
abbrev refused : Exn
refused = record { class_name = codes "InterfaceError"; message = codes "refused" }

lost_one : Session
lost_one = (on_event small_pg 62 (some refused) a_warning warned).1

lost_one-Receives : Receives small_pg opened (a_warning ∷ []) lost_one
unfolding lost_one warned opened session_of open_session start_pooler_run on_event
    append_pooler_run_event count_level text_eq upper
lost_one-Receives =
    then_lost 62 (some refused) a_warning refused (then_stored 61 none a_warning none_yet refl) refl

no_runs_yet : IsValid empty_runs
no_runs_yet = record { falling = tt; of_runs = tt }

session-IsCounted_example : IsCounted (a_warning ∷ []) lost_one
unfolding opened session_of open_session start_pooler_run
session-IsCounted_example =
    session-IsCounted small_pg (60 ∷ []) by_api empty_runs no_runs_yet refl lost_one-Receives

abbrev one_failed : List RunResult
one_failed = record { delta_start = some (50 ∷ []); status = some (codes "error") } ∷ []

ended : Session
ended = session_of (finish_session small_pg (70 ∷ []) one_failed lost_one)

finish_session-IsFinished_example :
    LeavesFinished small_pg (70 ∷ []) one_failed (a_warning ∷ []) lost_one ended.db
unfolding ended lost_one warned opened session_of open_session start_pooler_run on_event
    append_pooler_run_event count_level text_eq upper finish_session finish_pooler_run finished
    by_status error_results sorted_items insert_key final_status join digits text_ltb
finish_session-IsFinished_example =
    finish_session-IsFinished small_pg (60 ∷ []) by_api empty_runs (70 ∷ []) one_failed
      (a_warning ∷ []) no_runs_yet refl lost_one-Receives refl
