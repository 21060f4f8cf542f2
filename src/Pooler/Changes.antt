-- ===== src/Pooler/Changes.antt =====
-- gateway/pooler_core.py `_run_changes`: what the CHANGES of one table between two times come to.
use dbt_bigquery_ext.Prelude.{
  ℕ, Option, none, some, List, [], Text, codes, text_ltb, length, not, ◌==◌, or_else, Exn, Result,
  done, raised, if◌then◌else◌,
}
use dbt_bigquery_ext.Tracking.Status.{Status, ok, out_of_range, error}
use dbt_bigquery_ext.Tracking.Meta.{PartitionMeta, build_changes_agg_sql}
use dbt_bigquery_ext.Tracking.Merge.{coerce_partition_ids_for_ok}
use dbt_bigquery_ext.Tracking.Errors.{
  is_outside_time_travel_error, is_change_history_not_enabled_error,
}
use dbt_bigquery_ext.Gateway.Db.{Counters}
use dbt_bigquery_ext.Pooler.World.{
  ChangesRow, Services, Action, pure, attempt, call, raise, ◌>>=◌, ◌>>◌,
}
use dbt_bigquery_ext.Pooler.History.{ensure_change_history}

-- The tuple that `_run_changes` returns.
pub record Outcome : Type 0 where
  pub status : Status
  pub partition_ids : Option (List Text)
  pub partitions_changed_cnt : Option ℕ
  pub counters : Counters
  pub error_text : Option Text

abbrev pub no_counters : Counters
no_counters = record {
  rows_changed = none;
  rows_insert = none;
  rows_update = none;
  rows_delete = none;
}

abbrev pub nothing_changed : Outcome
nothing_changed = record {
  status = ok;
  partition_ids = some [];
  partitions_changed_cnt = some 0;
  counters = record {
    rows_changed = some 0;
    rows_insert = some 0;
    rows_update = some 0;
    rows_delete = some 0;
  };
  error_text = none;
}

abbrev pub failed : Status → Exn → Outcome
failed status exc = record {
  status = status;
  partition_ids = none;
  partitions_changed_cnt = none;
  counters = no_counters;
  error_text = some exc.message;
}

-- The row of the query, if there is one.
unfoldable pub of_row : Option ChangesRow → Outcome
of_row none = nothing_changed
of_row (some row) =
    let rows_changed = or_else row.rows_changed 0 in
    let ids = if rows_changed == 0 then [] else coerce_partition_ids_for_ok row.partition_ids in
    record {
      status = ok;
      partition_ids = some ids;
      partitions_changed_cnt = some (length ids);
      counters = record {
        rows_changed = some rows_changed;
        rows_insert = some (or_else row.rows_insert 0);
        rows_update = some (or_else row.rows_update 0);
        rows_delete = some (or_else row.rows_delete 0);
      };
      error_text = none;
    }

-- The handler of a failed query that is not tried again.
unfoldable pub of_error : Exn → Outcome
of_error exc =
    if is_outside_time_travel_error exc then failed out_of_range exc else failed error exc

unfoldable pub of_answer : Result (Option ChangesRow) → Outcome
unfolding of_row of_error
of_answer (done row) = of_row row
of_answer (raised exc) = of_error exc

abbrev pub value_error : Exn
value_error = record {
  class_name = codes "ValueError";
  message = codes "build_changes_agg_sql requires a time-partitioned table";
}

module _ {E : Type 0} (sv : Services E) where
  -- Once more, after the change history has been enabled.
  unfoldable pub retry : Text → Text → Text → Text → Action E Outcome
  retry project dataset table sql = do
    ensure_change_history sv project dataset table
    answer ← attempt (call (sv.query_changes sql))
    pure (of_answer answer)

  unfoldable pub query : Text → Text → Text → Text → Result (Option ChangesRow) → Action E Outcome
  unfolding retry
  query project dataset table sql (done row) = pure (of_row row)
  query project dataset table sql (raised exc) =
      if is_change_history_not_enabled_error exc
      then retry project dataset table sql
      else pure (of_error exc)

  unfoldable pub run_changes : Text → Text → Text → PartitionMeta → Text → Text → Action E Outcome
  unfolding query
  run_changes project dataset table meta start_ts end_ts =
      if not (text_ltb start_ts end_ts)
      then pure nothing_changed
      else elim (build_changes_agg_sql project dataset table meta start_ts end_ts) [
        | none ↦ raise value_error
        | some sql ↦ do
          answer ← attempt (call (sv.query_changes sql))
          query project dataset table sql answer
      ]
