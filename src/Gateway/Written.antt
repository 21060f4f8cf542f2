-- ===== src/Gateway/Written.antt =====
-- gateway/client.py: the log row and the checkpoint that one `commit_change_tracking_pool_result` writes.
use dbt_bigquery_ext.Prelude.{◌≡◌, true, false, ◌⊎◌, some, ◌∷◌, ◌++◌, codes, done}
use dbt_bigquery_ext.Config.Names.{dot, full_target_table_name, relation_full_name}
use dbt_bigquery_ext.Tracking.Status.{Status, ok, initial, out_of_range, unpartitioned, error}
use dbt_bigquery_ext.Gateway.Db.{ModelLogRow, LogRow, Db, Postgres}
use dbt_bigquery_ext.Gateway.ChangeLog.{LogArgs}
use dbt_bigquery_ext.Gateway.Commit.{CommitArgs}

-- The row of the log says what was pooled, with the times as Postgres reads them.
pub record IsLogged (pg : Postgres) (a : LogArgs) (row : LogRow) : Type 0 where
  pub name : row.full_table_name ≡ relation_full_name a.project a.dataset a.table
  pub pooled : pg.cast a.pooled_at ≡ done row.pooled_at
  pub start : pg.cast a.delta_start_time ≡ done row.delta_start_time
  pub end_ : pg.cast a.delta_end_time ≡ done row.delta_end_time
  pub status : row.status ≡ a.status
  pub error_text : row.error ≡ a.error
  pub counters : row.counters ≡ a.counters
  pub invocation : row.invocation_id ≡ a.invocation_id

-- The checkpoint has the window of the log's row, under the pooler's own name for the table.
pub record IsCheckpointOf (a : LogArgs) (row : LogRow) (m : ModelLogRow) : Type 0 where
  pub name :
      m.full_target_table_name
      ≡ full_target_table_name (codes "gateway.pooler") a.project (a.dataset ++ dot ∷ a.table)
  pub start : m.delta_start_time ≡ some row.delta_start_time
  pub end_ : m.delta_end_time ≡ some row.delta_end_time
  pub success : m.success ≡ some true
  pub full_refresh : m.full_refresh ≡ some false
  pub invocation : m.invocation_id ≡ row.invocation_id

-- The commit is asked to advance the checkpoint, with one of the four statuses that may.
abbrev pub Advances : CommitArgs → Type 0
Advances a =
    (a.advance_checkpoint ≡ true)
    × ((a.log.status ≡ ok)
        ⊎ (a.log.status ≡ initial)
        ⊎ (a.log.status ≡ out_of_range)
        ⊎ (a.log.status ≡ unpartitioned))
