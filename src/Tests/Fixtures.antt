-- ===== src/Tests/Fixtures.antt =====
-- A small Postgres, tables with one pooled relation, and services that answer without failing.
use dbt_bigquery_ext.Prelude.{
  ℕ, refl, true, false, none, some, [], ◌∷◌, Text, codes, arith, text_ltb, Result, done, raised,
}
use dbt_bigquery_ext.Tracking.Status.{initial, ok}
use dbt_bigquery_ext.Tracking.Meta.{PartitionMeta, BqTable, time}
use dbt_bigquery_ext.Tracking.Merge.{array}
use dbt_bigquery_ext.Gateway.Db.{
  ModelLogRow, RegistryRow, Counters, LogRow, Db, Postgres, IsFaithful,
}
use dbt_bigquery_ext.Gateway.Commit.{CommitArgs}
use dbt_bigquery_ext.Pooler.World.{ChangesRow, Services, World}
use dbt_bigquery_ext.Pooler.PoolOne.{Job}

-- A time is printed as the one character of its number.
abbrev read_time : Text → Result ℕ
read_time (t ∷ []) = done t
read_time _ = raised (record { class_name = codes "DataError"; message = codes "no time" })

abbrev pub small_pg : Postgres
small_pg = record { cast = read_time; to_char = λ t. t ∷ []; prefers = λ _ _. true }

pub small_pg-IsFaithful : IsFaithful small_pg 1000
unfolding text_ltb
small_pg-IsFaithful = record {
  to_char-nonempty = λ t e. cc;
  cast-to_char = λ t h. refl;
  to_char-ordered = λ a b _ _. ground arith;
}

abbrev pub sales : Text
sales = codes "sales"

abbrev pub shop : Text
shop = codes "shop"

abbrev pub orders : Text
orders = codes "orders"

abbrev pub orders_name : Text
orders_name = codes "`sales`.`shop`.`orders`"

abbrev pub invocation : Text
invocation = codes "run-1"

abbrev pub counted_none : Counters
counted_none = record {
  rows_changed = none;
  rows_insert = none;
  rows_update = none;
  rows_delete = none;
}

abbrev pub day : Text
day = codes "day"

-- The checkpoint of `orders` stands at 10.
abbrev pub checkpoint_10 : ModelLogRow
checkpoint_10 = record {
  invocation_id = invocation;
  target_database = codes "gateway.pooler";
  target_schema = sales;
  target_table_name = codes "shop.orders";
  full_target_table_name = codes "`gateway.pooler`.`sales`.`shop.orders`";
  run_started_at = some 10;
  node_started_at = some 10;
  node_finished_at = some 11;
  delta_start_time = some 5;
  delta_end_time = some 10;
  full_refresh = some false;
  success = some true;
}

abbrev pub log_5_10 : LogRow
log_5_10 = record {
  id = 1;
  full_table_name = orders_name;
  pooled_at = 10;
  delta_start_time = 5;
  delta_end_time = 10;
  partition_type = some time;
  partition_granularity = some day;
  partition_field = some (codes "created");
  counters = counted_none;
  partitions_changed_cnt = some 1;
  partition_ids = some (some (codes "2026-01-01") ∷ []);
  status = ok;
  error = none;
  invocation_id = invocation;
}

abbrev pub orders_row : RegistryRow
orders_row = record {
  full_table_name = orders_name;
  project = sales;
  dataset = shop;
  table_name = orders;
  partition_type = some time;
  partition_granularity = some day;
  partition_field = some (codes "created");
  change_history_enabled = some true;
  enabled = true;
  schedule_group = codes "default";
  registered_at = 3;
  unregistered_at = none;
  last_pooled_at = some 10;
  last_status = some initial;
  updated_at = 10;
}

abbrev pub pooled_db : Db
pooled_db = record {
  model_log = checkpoint_10 ∷ [];
  registry = orders_row ∷ [];
  change_log = log_5_10 ∷ [];
  issues = [];
  next_log_id = 2;
  next_issue_id = 1;
}

abbrev pub empty_db : Db
empty_db = record {
  model_log = [];
  registry = [];
  change_log = [];
  issues = [];
  next_log_id = 1;
  next_issue_id = 1;
}

abbrev pub by_day : BqTable
by_day = record {
  time_partitioning =
      some (record { raw_type = some (codes "DAY"); field = some (codes "created") });
  range_partitioning = none;
}

abbrev changes_row : ChangesRow
changes_row = record {
  partition_ids = array (some (codes "2026-01-02") ∷ none ∷ []);
  rows_changed = some 3;
  rows_insert = some 2;
  rows_update = some 1;
  rows_delete = some 0;
}

-- The clock always shows 500.
abbrev pub calm : Services (Unit {0})
calm = record {
  pg = small_pg;
  get_table = λ p d t e. (done by_day, e);
  query_changes = λ sql e. (done (some changes_row), e);
  query_flag = λ sql e. (done (some (some (codes "YES"))), e);
  execute_sql = λ sql e. (done tt, e);
  session = λ e. (none, e);
  db_now = λ e. (500, e);
  utc_now = λ e. (500 ∷ [], e);
  on_event = λ ev e. (done tt, e);
  pooler_sa_email = none;
}

abbrev pub start : World (Unit {0})
start = record { db = pooled_db; services = tt; events = [] }

-- Pool `orders` to 20.
abbrev pub to_20 : Job
to_20 = record {
  project = sales;
  dataset = shop;
  table = orders;
  end_ts = 20 ∷ [];
  invocation_id = invocation;
  write_bq = false;
  bq_mirror_table = none;
}

abbrev pub orders_meta : PartitionMeta
orders_meta = record {
  partition_type = time;
  partition_granularity = some day;
  partition_field = some (codes "created");
}

-- The commit of the window from 10 to 20.
abbrev pub commit_10_20 : CommitArgs
commit_10_20 = record {
  log = record {
    project = sales;
    dataset = shop;
    table = orders;
    pooled_at = 21 ∷ [];
    delta_start_time = 10 ∷ [];
    delta_end_time = 20 ∷ [];
    meta = orders_meta;
    counters = counted_none;
    partitions_changed_cnt = some 1;
    partition_ids = some (codes "2026-01-02" ∷ []);
    status = ok;
    error = none;
    invocation_id = invocation;
  };
  change_history_enabled = some true;
  run_started_at = 21 ∷ [];
  node_started_at = 21 ∷ [];
  node_finished_at = 22 ∷ [];
  advance_checkpoint = true;
}
