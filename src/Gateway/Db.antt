-- ===== src/Gateway/Db.antt =====
-- The tables of gateway/schema.py that the pooler writes, a row to a record, and what the code
-- relies on of Postgres.
use dbt_bigquery_ext.Prelude.{
  ℕ, Bool, Option, List, Text, Result, ◌≡◌, ◌≢◌, [], ltb, ◌<◌, done, text_ltb,
}
use dbt_bigquery_ext.Tracking.Status.{Status}
use dbt_bigquery_ext.Tracking.Meta.{PartitionType}
use dbt_bigquery_ext.Tracking.Merge.{Ids}

-- `dbt_model_log`. A TIMESTAMP is its microseconds.
pub record ModelLogRow : Type 0 where
  pub invocation_id : Text
  pub target_database : Text
  pub target_schema : Text
  pub target_table_name : Text
  pub full_target_table_name : Text
  pub run_started_at : Option ℕ
  pub node_started_at : Option ℕ
  pub node_finished_at : Option ℕ
  pub delta_start_time : Option ℕ
  pub delta_end_time : Option ℕ
  pub full_refresh : Option Bool
  pub success : Option Bool

-- `change_tracking_registry`, whose primary key is `full_table_name`.
pub record RegistryRow : Type 0 where
  pub full_table_name : Text
  pub project : Text
  pub dataset : Text
  pub table_name : Text
  pub partition_type : Option PartitionType
  pub partition_granularity : Option Text
  pub partition_field : Option Text
  pub change_history_enabled : Option Bool
  pub enabled : Bool
  pub schedule_group : Text
  pub registered_at : ℕ
  pub unregistered_at : Option ℕ
  pub last_pooled_at : Option ℕ
  pub last_status : Option Status
  pub updated_at : ℕ

-- The four counters of a pool result.
pub record Counters : Type 0 where
  pub rows_changed : Option ℕ
  pub rows_insert : Option ℕ
  pub rows_update : Option ℕ
  pub rows_delete : Option ℕ

-- `change_tracking_log`.
pub record LogRow : Type 0 where
  pub id : ℕ
  pub full_table_name : Text
  pub pooled_at : ℕ
  pub delta_start_time : ℕ
  pub delta_end_time : ℕ
  pub partition_type : Option PartitionType
  pub partition_granularity : Option Text
  pub partition_field : Option Text
  pub counters : Counters
  pub partitions_changed_cnt : Option ℕ
  pub partition_ids : Option Ids
  pub status : Status
  pub error : Option Text
  pub invocation_id : Text

-- `change_tracking_permission_issue`, unique on its first five columns after `id`.
pub record IssueRow : Type 0 where
  pub id : ℕ
  pub project : Text
  pub dataset : Text
  pub sa_email : Text
  pub required_role : Text
  pub scope : Text
  pub last_error : Option Text
  pub is_open : Bool
  pub first_seen_at : ℕ
  pub last_seen_at : ℕ
  pub resolved_at : Option ℕ

pub record Db : Type 0 where
  pub model_log : List ModelLogRow
  pub registry : List RegistryRow
  pub change_log : List LogRow
  pub issues : List IssueRow
  pub next_log_id : ℕ
  pub next_issue_id : ℕ

-- What Postgres does for the code: it reads a text as a TIMESTAMP or raises, it prints one by
-- `TO_CHAR(t, 'YYYY-MM-DD HH24:MI:SS.US')`, and it picks one of two rows that an ORDER BY leaves
-- equal.
pub record Postgres : Type 0 where
  pub cast : Text → Result ℕ
  pub to_char : ℕ → Text
  pub prefers : ModelLogRow → ModelLogRow → Bool

-- Postgres's documented behaviour: it prints no time as the empty text, what it prints it reads back,
-- and the printed texts of times before the year 10000 are ordered as the times. `horizon` is the first microsecond of that year.
pub record IsFaithful (pg : Postgres) (horizon : ℕ) : Type 0 where
  pub to_char-nonempty : (t : ℕ) → pg.to_char t ≢ []
  pub cast-to_char : (t : ℕ) → t < horizon → pg.cast (pg.to_char t) ≡ done t
  pub to_char-ordered :
      (a b : ℕ) → a < horizon → b < horizon → text_ltb (pg.to_char a) (pg.to_char b) ≡ ltb a b
