-- ===== src/Tests/OfPooler.antt =====
-- Poolings of the example table, and its names.
use dbt_bigquery_ext.Prelude.{
  ◌≡◌, refl, true, false, none, some, [], ◌∷◌, codes, done, arith, if◌then◌else◌, inl, ◌<◌,
  text_ltb, text_eq, strip, upper, lower, contains, member, join,
}
use dbt_bigquery_ext.Config.Names.{
  relation_full_name, full_target_table_name, pooler_checkpoint_parts, pooler_checkpoint_full_name,
}
use dbt_bigquery_ext.Tracking.Status.{
  ok, is_checkpoint_advance_status, is_affected_partition_status,
}
use dbt_bigquery_ext.Gateway.Checkpoints.{
  latest, checkpoint_row, get_checkpoint, get_pooler_checkpoint, set_checkpoint,
}
use dbt_bigquery_ext.Gateway.Coverage.{IsCovered}
use dbt_bigquery_ext.Pooler.World.{
  World, ask, pure, lift, attempt, call, raise, ◌>>=◌, transaction, emit,
}
use dbt_bigquery_ext.Pooler.Mirror.{PoolResult, digits}
use dbt_bigquery_ext.Pooler.PoolOne.{
  ts_compare_lt, pool_one, pool_one_locked, read_checkpoint, covered_by, get_table_meta,
  pool_answer, pool_known, window, commit, mirror,
}
use dbt_bigquery_ext.Tracking.Meta.{
  time, parse_bq_partition_meta, is_time_partitioned, build_changes_agg_sql, partition_id_sql_expr,
  normalize_grain,
}
use dbt_bigquery_ext.Pooler.History.{ensure_change_history, is_change_history_enabled, flag_of}
use dbt_bigquery_ext.Pooler.Changes.{run_changes, query, of_row}
use dbt_bigquery_ext.Gateway.ChangeLog.{
  insert_change_tracking_log, get_affected_partitions, affected_between, overlaps,
}
use dbt_bigquery_ext.Gateway.Registry.{upsert_change_tracking_registry}
use dbt_bigquery_ext.Gateway.Commit.{
  commit_change_tracking_pool_result, registry_args, checkpoint_args,
}
use dbt_bigquery_ext.Pooler.Events.{parts_of, parts_of-relation_full_name, emit_result_events}
use dbt_bigquery_ext.Pooler.PoolRelations.{pool_relations, run_jobs, report_all, counted}
use dbt_bigquery_ext.Pooler.Ensure.{
  EnsureRequest, Affected, ensure_affected_partitions, read_watermark, refresh, answer,
}
use dbt_bigquery_ext.Pooler.Fresh.{IsFresh, ensure_affected-IsFresh}
use dbt_bigquery_ext.Tracking.Dedupe.{dedupe_relation_dicts, normalize}
use dbt_bigquery_ext.Tracking.Merge.{
  coerce_partition_ids_for_ok, merge_affected_partition_ids, add_present, add,
}
use dbt_bigquery_ext.QueryParameters.WorkerPool.{resolve_worker_pool_size}
use dbt_bigquery_ext.Pooler.Steps.{Step}
use dbt_bigquery_ext.Pooler.Advance.{pool_one-Step}
use dbt_bigquery_ext.Pooler.Watermark.{pool_one-IsCovered}
use dbt_bigquery_ext.Tests.Fixtures.{
  small_pg, small_pg-IsFaithful, sales, shop, orders, checkpoint_10, log_5_10, pooled_db, calm,
  start, to_20,
}

pooled_db-IsCovered : IsCovered small_pg sales shop orders pooled_db 5 10
unfolding checkpoint_row latest text_eq pooler_checkpoint_full_name relation_full_name
    is_affected_partition_status
pooled_db-IsCovered = record {
  row = checkpoint_10;
  is_checkpoint = refl;
  watermark = refl;
  covered = λ t p q. (log_5_10, inl refl, refl, refl, p, q);
}

-- The result of the pooling to 20, and what it leaves behind.
abbrev pooled_result : PoolResult
pooled_result = record {
  full_table_name = codes "`sales`.`shop`.`orders`";
  status = ok;
  delta_start = some (10 ∷ []);
  delta_end = 20 ∷ [];
  partition_type = some time;
  partition_granularity = some (codes "day");
  partition_field = some (codes "created");
  partition_ids = some (codes "2026-01-02" ∷ []);
  partitions_changed_cnt = some 1;
  counters = record {
    rows_changed = some 3;
    rows_insert = some 2;
    rows_update = some 1;
    rows_delete = some 0;
  };
  error_text = none;
}

after : World (Unit {0})
after = (pool_one calm to_20 start).1

ran : pool_one calm to_20 start ≡ (done pooled_result, after)
unfolding after pool_one pool_one_locked read_checkpoint ask pure lift attempt call raise ◌>>=◌
    transaction get_pooler_checkpoint get_checkpoint checkpoint_row latest covered_by text_ltb
    text_eq get_table_meta parse_bq_partition_meta pool_answer pool_known pooler_checkpoint_parts
    full_target_table_name ensure_change_history is_change_history_enabled flag_of window
    is_time_partitioned run_changes query build_changes_agg_sql partition_id_sql_expr
    normalize_grain commit of_row commit_change_tracking_pool_result insert_change_tracking_log
    upsert_change_tracking_registry set_checkpoint mirror strip upper lower contains
    is_checkpoint_advance_status checkpoint_args registry_args relation_full_name
    coerce_partition_ids_for_ok
ran = refl

pool_one-IsCovered_example :
    IsCovered small_pg sales shop orders after.db 5
      (if is_checkpoint_advance_status pooled_result.status then 20 else 10)
    × (is_checkpoint_advance_status pooled_result.status ≡ true → 10 < 20)
pool_one-IsCovered_example =
    pool_one-IsCovered calm to_20 small_pg-IsFaithful 5 10 20 (omega arith) (omega arith) refl start
      (λ x. (500, omega arith, refl, (λ k e. ground arith, tt))) pooled_db-IsCovered ran

pool_one-Step_example : Step calm to_20 start.db after.db pooled_result.status
pool_one-Step_example = pool_one-Step calm to_20 start ran

parts_of-relation_full_name_example :
    parts_of (relation_full_name sales shop orders) ≡ sales ∷ shop ∷ orders ∷ []
parts_of-relation_full_name_example =
    parts_of-relation_full_name sales shop orders
      (record {
        database_lacks = ground arith;
        schema_lacks = ground arith;
        identifier_lacks = ground arith;
      })
      (ground arith) (ground arith) (ground arith)

-- Ask for the changes of `orders` from 6 to 20.
abbrev from_6_to_20 : EnsureRequest
from_6_to_20 = record {
  project = sales;
  dataset = shop;
  table = orders;
  start_ts = 6 ∷ [];
  end_ts = 20 ∷ [];
  ensure_fresh = true;
  invocation_id = none;
  default_threads = none;
}

abbrev both_days : Affected
both_days = record {
  partition_ids = some (codes "2026-01-01" ∷ codes "2026-01-02" ∷ []);
  watermark = some (20 ∷ []);
  pooled = true;
  is_complete = true;
  status_summary = some ok;
}

ensured : World (Unit {0})
ensured = (ensure_affected_partitions calm from_6_to_20 start).1

ensured_ran : ensure_affected_partitions calm from_6_to_20 start ≡ (done both_days, ensured)
unfolding ensured ensure_affected_partitions read_watermark refresh answer ts_compare_lt
    pool_relations run_jobs report_all emit_result_events resolve_worker_pool_size
    dedupe_relation_dicts normalize emit digits counted get_affected_partitions affected_between
    overlaps merge_affected_partition_ids add_present add is_affected_partition_status member join
    pool_one pool_one_locked read_checkpoint ask pure lift attempt call raise ◌>>=◌ transaction
    get_pooler_checkpoint get_checkpoint checkpoint_row latest covered_by text_ltb text_eq
    get_table_meta parse_bq_partition_meta pool_answer pool_known pooler_checkpoint_parts
    full_target_table_name ensure_change_history is_change_history_enabled flag_of window
    is_time_partitioned run_changes query build_changes_agg_sql partition_id_sql_expr
    normalize_grain commit of_row commit_change_tracking_pool_result insert_change_tracking_log
    upsert_change_tracking_registry set_checkpoint mirror strip upper lower contains
    is_checkpoint_advance_status checkpoint_args registry_args relation_full_name
    coerce_partition_ids_for_ok
ensured_ran = refl

ensure_affected-IsFresh_example :
    IsFresh calm from_6_to_20 both_days ensured.db
    × (both_days.pooled ≡ false → ensured.db ≡ start.db)
ensure_affected-IsFresh_example = ensure_affected-IsFresh calm from_6_to_20 start ensured_ran
