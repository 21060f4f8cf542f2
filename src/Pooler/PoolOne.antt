-- ===== src/Pooler/PoolOne.antt =====
-- gateway/pooler_core.py `_pool_one` and `_pool_one_locked`: the pooling of one table, under the
-- advisory lock of its name, which keeps any other pooling of that table out.
use dbt_bigquery_ext.Prelude.{
  Bool, true, Option, none, some, [], ◌∷◌, Text, text_ltb, not, Result, done, raised, if◌then◌else◌,
}
use dbt_bigquery_ext.Config.Names.{relation_full_name}
use dbt_bigquery_ext.Tracking.Status.{
  Status, initial, unpartitioned, skipped, not_found, error, is_checkpoint_advance_status,
}
use dbt_bigquery_ext.Tracking.Meta.{PartitionMeta, parse_bq_partition_meta, is_time_partitioned}
use dbt_bigquery_ext.Tracking.Errors.{is_not_found_error, is_access_error}
use dbt_bigquery_ext.Gateway.Checkpoints.{Checkpoint, get_pooler_checkpoint}
use dbt_bigquery_ext.Gateway.Commit.{CommitArgs, commit_change_tracking_pool_result}
use dbt_bigquery_ext.Pooler.World.{
  Services, Action, pure, attempt, call, ask, raise, ◌>>=◌, ◌>>◌, transaction,
}
use dbt_bigquery_ext.Pooler.History.{ensure_change_history}
use dbt_bigquery_ext.Pooler.Changes.{Outcome, no_counters, run_changes}
use dbt_bigquery_ext.Pooler.Mirror.{PoolResult, maybe_write_bq_mirror}

-- `_ts_compare_lt`.
unfoldable pub ts_compare_lt : Option Text → Text → Bool
ts_compare_lt none b = true
ts_compare_lt (some a) b = text_ltb a b

-- What the caller fixes for one table.
pub record Job : Type 0 where
  pub project : Text
  pub dataset : Text
  pub table : Text
  pub end_ts : Text
  pub invocation_id : Text
  pub write_bq : Bool
  pub bq_mirror_table : Option Text

abbrev pub fqn_of : Job → Text
fqn_of j = relation_full_name j.project j.dataset j.table

-- A result that carries no partition metadata and no counts.
abbrev pub bare_result : Text → Status → Option Text → Text → Option Text → PoolResult
bare_result fqn status delta_start delta_end error_text = record {
  full_table_name = fqn;
  status = status;
  delta_start = delta_start;
  delta_end = delta_end;
  partition_type = none;
  partition_granularity = none;
  partition_field = none;
  partition_ids = none;
  partitions_changed_cnt = none;
  counters = no_counters;
  error_text = error_text;
}

abbrev pub delta_end_of : Option Checkpoint → Option Text
delta_end_of none = none
delta_end_of (some cp) = cp.delta_end_time

-- The watermark, where it is not before the end that is asked for.
unfoldable pub covered_by : Option Checkpoint → Text → Option Text
covered_by cp end_ts = elim (delta_end_of cp) [
  | none ↦ none
  | some existing ↦ if not (text_ltb existing end_ts) then some existing else none
]

-- `cp.get("delta_end_time") or end_ts`.
abbrev pub or_end : Option Text → Text → Text
or_end none end_ts = end_ts
or_end (some []) end_ts = end_ts
or_end (some (c ∷ s)) end_ts = c ∷ s

abbrev pub quiet : Status → Outcome
quiet status = record {
  status = status;
  partition_ids = none;
  partitions_changed_cnt = none;
  counters = no_counters;
  error_text = none;
}

-- The start of the window, and what happened in it.
pub record Window : Type 0 where
  pub delta_start : Text
  pub outcome : Outcome

abbrev pub commit_args : Job → PartitionMeta → Option Bool → Window → Text → Text → CommitArgs
commit_args j meta ch_enabled w pooled_at finished_at = record {
  log = record {
    project = j.project;
    dataset = j.dataset;
    table = j.table;
    pooled_at = pooled_at;
    delta_start_time = w.delta_start;
    delta_end_time = j.end_ts;
    meta = meta;
    counters = w.outcome.counters;
    partitions_changed_cnt = w.outcome.partitions_changed_cnt;
    partition_ids = w.outcome.partition_ids;
    status = w.outcome.status;
    error = w.outcome.error_text;
    invocation_id = j.invocation_id;
  };
  change_history_enabled = ch_enabled;
  run_started_at = pooled_at;
  node_started_at = pooled_at;
  node_finished_at = finished_at;
  advance_checkpoint = is_checkpoint_advance_status w.outcome.status;
}

abbrev pub full_result : Job → PartitionMeta → Window → PoolResult
full_result j meta w = record {
  full_table_name = fqn_of j;
  status = w.outcome.status;
  delta_start = some w.delta_start;
  delta_end = j.end_ts;
  partition_type = some meta.partition_type;
  partition_granularity = meta.partition_granularity;
  partition_field = meta.partition_field;
  partition_ids = w.outcome.partition_ids;
  partitions_changed_cnt = w.outcome.partitions_changed_cnt;
  counters = w.outcome.counters;
  error_text = w.outcome.error_text;
}

module _ {E : Type 0} (sv : Services E) (j : Job) where
  unfoldable pub read_checkpoint : Action E (Option Checkpoint)
  read_checkpoint =
      transaction sv (λ db. done (get_pooler_checkpoint sv.pg j.project j.dataset j.table db, db))

  -- First sight, no time partitions, or the CHANGES since the checkpoint.
  unfoldable pub window : Option Checkpoint → PartitionMeta → Action E Window
  window none meta = pure (record { delta_start = j.end_ts; outcome = quiet initial })
  window (some cp) meta =
      let delta_start = or_end cp.delta_end_time j.end_ts in
      if not (is_time_partitioned meta)
      then pure (record { delta_start = delta_start; outcome = quiet unpartitioned })
      else do
        outcome ← run_changes sv j.project j.dataset j.table meta delta_start j.end_ts
        pure (record { delta_start = delta_start; outcome = outcome })

  unfoldable pub commit : PartitionMeta → Option Bool → Window → Text → Action E (Unit {0})
  commit meta ch_enabled w pooled_at = do
    finished_at ← ask sv.utc_now
    now ← ask sv.db_now
    transaction sv (λ db.
        elim (commit_change_tracking_pool_result sv.pg now
          (commit_args j meta ch_enabled w pooled_at finished_at) db) [
            | raised exn ↦ raised exn
            | done db' ↦ done (tt, db')
          ])

  unfoldable pub mirror : PoolResult → Action E (Unit {0})
  mirror result = if j.write_bq then maybe_write_bq_mirror sv result j.bq_mirror_table else pure tt

  -- The table's metadata are known.
  unfoldable pub pool_known : Option Checkpoint → PartitionMeta → Text → Action E PoolResult
  unfolding window commit mirror
  pool_known cp meta pooled_at = do
    ch_enabled ← ensure_change_history sv j.project j.dataset j.table
    w ← window cp meta
    commit meta ch_enabled w pooled_at
    mirror (full_result j meta w)
    pure (full_result j meta w)

  -- What came of `get_table_meta`.
  unfoldable pub pool_answer : Option Checkpoint → Text → Result PartitionMeta → Action E PoolResult
  unfolding pool_known
  pool_answer cp pooled_at (done meta) = pool_known cp meta pooled_at
  pool_answer cp pooled_at (raised exc) =
      if is_not_found_error exc
      then pure (bare_result (fqn_of j) not_found none j.end_ts (some exc.message))
      else if is_access_error exc.message
      then pure (bare_result (fqn_of j) error none j.end_ts (some exc.message))
      else raise exc

  unfoldable pub get_table_meta : Action E PartitionMeta
  get_table_meta = do
    table ← call (sv.get_table j.project j.dataset j.table)
    pure (parse_bq_partition_meta table)

  unfoldable pub pool_one_locked : Text → Action E PoolResult
  unfolding read_checkpoint get_table_meta pool_answer
  pool_one_locked pooled_at = do
    cp ← read_checkpoint
    elim (covered_by cp j.end_ts) [
      | some existing ↦ pure (bare_result (fqn_of j) skipped (some existing) existing none)
      | none ↦ do answer ← attempt get_table_meta; pool_answer cp pooled_at answer
    ]

  -- The lock is taken in a session of its own, which may fail to open.
  unfoldable pub pool_one : Action E PoolResult
  unfolding pool_one_locked
  pool_one = do
    pooled_at ← ask sv.utc_now
    transaction sv (λ db. done (tt, db))
    pool_one_locked pooled_at
