-- ===== src/Gateway/Commit.antt =====
-- gateway/client.py `commit_change_tracking_pool_result`: one transaction that inserts the log row,
-- upserts the registry row, and inserts a checkpoint where the status advances it. A step that
-- raises rolls the others back: the result carries no tables then.
use dbt_bigquery_ext.Prelude.{
  ℕ, Bool, true, false, Option, none, some, Text, ◌&&◌, if◌then◌else◌, Result, done,
}
use dbt_bigquery_ext.Prelude.Results.{◌>>=◌}
use dbt_bigquery_ext.Config.Names.{pooler_checkpoint_parts}
use dbt_bigquery_ext.Tracking.Status.{is_checkpoint_advance_status}
use dbt_bigquery_ext.Gateway.Db.{Db, Postgres}
use dbt_bigquery_ext.Gateway.Checkpoints.{CheckpointArgs, set_checkpoint}
use dbt_bigquery_ext.Gateway.Registry.{RegistryArgs, upsert_change_tracking_registry}
use dbt_bigquery_ext.Gateway.ChangeLog.{LogArgs, insert_change_tracking_log}

pub record CommitArgs : Type 0 where
  pub log : LogArgs
  pub change_history_enabled : Option Bool
  pub run_started_at : Text
  pub node_started_at : Text
  pub node_finished_at : Text
  pub advance_checkpoint : Bool

unfoldable pub registry_args : CommitArgs → RegistryArgs
registry_args a = record {
  project = a.log.project;
  dataset = a.log.dataset;
  table = a.log.table;
  partition_type = some a.log.meta.partition_type;
  partition_granularity = a.log.meta.partition_granularity;
  partition_field = a.log.meta.partition_field;
  change_history_enabled = a.change_history_enabled;
  last_status = some a.log.status;
  last_pooled_at = some a.log.pooled_at;
  mark_registered = false;
  schedule_group = none;
}

unfoldable pub checkpoint_args : CommitArgs → CheckpointArgs
checkpoint_args a =
    let (database, schema, identifier) =
      pooler_checkpoint_parts a.log.project a.log.dataset a.log.table in
    record {
      invocation_id = a.log.invocation_id;
      target_database = database;
      target_schema = schema;
      target_table_name = identifier;
      run_started_at = a.run_started_at;
      node_started_at = a.node_started_at;
      node_finished_at = a.node_finished_at;
      delta_start_time = a.log.delta_start_time;
      delta_end_time = a.log.delta_end_time;
      success = true;
      full_refresh = some false;
    }

unfoldable pub commit_change_tracking_pool_result : Postgres → ℕ → CommitArgs → Db → Result Db
commit_change_tracking_pool_result pg now a db = do
  db1 ← insert_change_tracking_log pg a.log db
  db2 ← upsert_change_tracking_registry pg now (registry_args a) db1
  if a.advance_checkpoint && is_checkpoint_advance_status a.log.status
      then set_checkpoint pg (checkpoint_args a) db2
      else done db2
