-- ===== src/Gateway/ChangeLog.antt =====
-- gateway/client.py: `insert_change_tracking_log` and `get_affected_partitions`, over
-- `change_tracking_log`.
use dbt_bigquery_ext.Prelude.{
  ℕ, ◌+◌, Bool, Option, none, some, List, ◌∷◌, Text, text_eq, ltb, map, select, ◌&&◌, Result, done,
}
use dbt_bigquery_ext.Prelude.Results.{◌>>=◌}
use dbt_bigquery_ext.Config.Names.{relation_full_name}
use dbt_bigquery_ext.Tracking.Status.{Status, is_affected_partition_status}
use dbt_bigquery_ext.Tracking.Meta.{PartitionMeta}
use dbt_bigquery_ext.Tracking.Merge.{Ids, merge_affected_partition_ids}
use dbt_bigquery_ext.Gateway.Db.{LogRow, Counters, Db, Postgres}

pub record LogArgs : Type 0 where
  pub project : Text
  pub dataset : Text
  pub table : Text
  pub pooled_at : Text
  pub delta_start_time : Text
  pub delta_end_time : Text
  pub meta : PartitionMeta
  pub counters : Counters
  pub partitions_changed_cnt : Option ℕ
  pub partition_ids : Option (List Text)
  pub status : Status
  pub error : Option Text
  pub invocation_id : Text

-- `list(partition_ids)`, or NULL.
abbrev pub ids_param : Option (List Text) → Option Ids
ids_param none = none
ids_param (some ids) = some (map (λ (t : Text). some t) ids)

unfoldable pub insert_change_tracking_log : Postgres → LogArgs → Db → Result Db
insert_change_tracking_log pg a db = do
  pooled_at ← pg.cast a.pooled_at
  delta_start_time ← pg.cast a.delta_start_time
  delta_end_time ← pg.cast a.delta_end_time
  let row : LogRow = record {
    id = db.next_log_id;
    full_table_name = relation_full_name a.project a.dataset a.table;
    pooled_at = pooled_at;
    delta_start_time = delta_start_time;
    delta_end_time = delta_end_time;
    partition_type = some a.meta.partition_type;
    partition_granularity = a.meta.partition_granularity;
    partition_field = a.meta.partition_field;
    counters = a.counters;
    partitions_changed_cnt = a.partitions_changed_cnt;
    partition_ids = ids_param a.partition_ids;
    status = a.status;
    error = a.error;
    invocation_id = a.invocation_id;
  }
  done (record db { change_log = row ∷ db.change_log; next_log_id = db.next_log_id + 1 })

-- `delta_start_time < end AND delta_end_time > start`, for the table and the statuses that count.
unfoldable pub overlaps : Text → ℕ → ℕ → LogRow → Bool
overlaps fqn start end_ r =
    text_eq r.full_table_name fqn
    && (ltb r.delta_start_time end_
        && (ltb start r.delta_end_time && is_affected_partition_status r.status))

abbrev pub ids_of : LogRow → Option Ids
ids_of r = r.partition_ids

-- The query with its two times read by Postgres, and the merge of the rows that it selects.
unfoldable pub affected_between : Text → ℕ → ℕ → List LogRow → Option (List Text)
unfolding overlaps
affected_between fqn start end_ log =
    merge_affected_partition_ids (map ids_of (select (overlaps fqn start end_) log))

unfoldable pub get_affected_partitions :
    Postgres → Text → Text → Text → Text → Text → Db → Result (Option (List Text))
unfolding affected_between
get_affected_partitions pg project dataset table start_ts end_ts db = do
  end_ ← pg.cast end_ts
  start ← pg.cast start_ts
  done (affected_between (relation_full_name project dataset table) start end_ db.change_log)
