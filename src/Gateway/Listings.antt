-- ===== src/Gateway/Listings.antt =====
-- gateway/client.py: the listings and lookups that the service's page shows, over the change log, the
-- runs and the permission issues. `printed` is Python's `str` of a timestamp.
use dbt_bigquery_ext.Prelude.{
  ℕ, ltb, ◌==◌, Bool, true, false, Option, none, some, List, [], ◌∷◌, map, first, select, Text,
  codes, text_eq, if◌then◌else◌, Result,
}
use dbt_bigquery_ext.Prelude.Ints.{ℤ}
use dbt_bigquery_ext.Config.Names.{relation_full_name, pooler_checkpoint_parts}
use dbt_bigquery_ext.Tracking.Status.{Status}
use dbt_bigquery_ext.Tracking.Meta.{PartitionType}
use dbt_bigquery_ext.Tracking.Merge.{Ids}
use dbt_bigquery_ext.Gateway.Db.{LogRow, Counters, IssueRow, Db, Postgres}
use dbt_bigquery_ext.Gateway.Checkpoints.{set_checkpoint}
use dbt_bigquery_ext.Gateway.Runs.{RunRow, RunEventRow, RunDb}
use dbt_bigquery_ext.Gateway.Newest.{newest}

abbrev pub printed_option : (ℕ → Text) → Option ℕ → Option Text
printed_option printed none = none
printed_option printed (some t) = some (printed t)

pub record LogDict : Type 0 where
  pub id : ℕ
  pub full_table_name : Text
  pub pooled_at : Text
  pub delta_start_time : Text
  pub delta_end_time : Text
  pub partition_type : Option PartitionType
  pub partition_granularity : Option Text
  pub partition_field : Option Text
  pub counters : Counters
  pub partitions_changed_cnt : Option ℕ
  pub partition_ids : Option Ids
  pub status : Status
  pub error : Option Text
  pub invocation_id : Text

unfoldable pub log_dict : (ℕ → Text) → LogRow → LogDict
log_dict printed r = record {
  id = r.id;
  full_table_name = r.full_table_name;
  pooled_at = printed r.pooled_at;
  delta_start_time = printed r.delta_start_time;
  delta_end_time = printed r.delta_end_time;
  partition_type = r.partition_type;
  partition_granularity = r.partition_granularity;
  partition_field = r.partition_field;
  counters = r.counters;
  partitions_changed_cnt = r.partitions_changed_cnt;
  partition_ids = r.partition_ids;
  status = r.status;
  error = r.error;
  invocation_id = r.invocation_id;
}

abbrev pub is_of : Text → LogRow → Bool
is_of fqn r = text_eq r.full_table_name fqn

abbrev pub log_time : LogRow → ℕ
log_time r = r.pooled_at

abbrev pub log_id : LogRow → ℕ
log_id r = r.id

unfoldable pub list_change_tracking_log : (ℕ → Text) → Text → Text → Text → ℤ → Db → List LogDict
unfolding log_dict
list_change_tracking_log printed project dataset table limit db =
    map (log_dict printed) (
      newest log_time log_id limit (is_of (relation_full_name project dataset table)) db.change_log)

pub record RunDict : Type 0 where
  pub id : ℕ
  pub started_at : Text
  pub completed_at : Option Text
  pub status : Text
  pub watermark_from : Option Text
  pub watermark_to : Option Text
  pub num_tables : ℕ
  pub num_warnings : ℕ
  pub num_errors : ℕ
  pub invocation_id : Option Text
  pub trigger : Text
  pub schedule_group : Option Text
  pub summary : Option Text

unfoldable pub run_dict : (ℕ → Text) → RunRow → RunDict
run_dict printed r = record {
  id = r.id;
  started_at = printed r.started_at;
  completed_at = printed_option printed r.completed_at;
  status = r.status;
  watermark_from = printed_option printed r.watermark_from;
  watermark_to = printed_option printed r.watermark_to;
  num_tables = r.num_tables;
  num_warnings = r.num_warnings;
  num_errors = r.num_errors;
  invocation_id = r.invocation_id;
  trigger = r.trigger;
  schedule_group = r.schedule_group;
  summary = r.summary;
}

abbrev pub run_time : RunRow → ℕ
run_time r = r.started_at

abbrev pub id_of_run : RunRow → ℕ
id_of_run r = r.id

-- No WHERE clause.
abbrev pub every_run : RunRow → Bool
every_run r = true

unfoldable pub list_pooler_runs : (ℕ → Text) → ℤ → RunDb → List RunDict
unfolding run_dict
list_pooler_runs printed limit db =
    map (run_dict printed) (newest run_time id_of_run limit every_run db.runs)

unfoldable pub get_pooler_run : (ℕ → Text) → ℕ → RunDb → Option RunDict
unfolding run_dict
get_pooler_run printed id db = elim (first (λ r. r.id == id) db.runs) [
  | none ↦ none
  | some r ↦ some (run_dict printed r)
]

-- `ORDER BY id ASC`
unfoldable pub insert_event : RunEventRow → List RunEventRow → List RunEventRow
insert_event e [] = e ∷ []
insert_event e (f ∷ fs) =
    let rest = insert_event e fs in if ltb f.id e.id then f ∷ rest else e ∷ f ∷ fs

unfoldable pub by_id : List RunEventRow → List RunEventRow
unfolding insert_event
by_id [] = []
by_id (e ∷ es) = insert_event e (by_id es)

pub record EventDict : Type 0 where
  pub id : ℕ
  pub run_id : ℕ
  pub logged_at : Text
  pub level : Text
  pub message : Text
  pub full_table_name : Option Text
  pub status : Option Text

unfoldable pub event_dict : (ℕ → Text) → RunEventRow → EventDict
event_dict printed r = record {
  id = r.id;
  run_id = r.run_id;
  logged_at = printed r.logged_at;
  level = r.level;
  message = r.message;
  full_table_name = r.full_table_name;
  status = r.status;
}

unfoldable pub list_pooler_run_events : (ℕ → Text) → ℕ → RunDb → List EventDict
unfolding event_dict by_id
list_pooler_run_events printed id db =
    map (event_dict printed) (by_id (select (λ r. r.run_id == id) db.run_events))

pub record IssueDict : Type 0 where
  pub id : ℕ
  pub project : Text
  pub dataset : Text
  pub sa_email : Text
  pub required_role : Text
  pub scope : Text
  pub last_error : Option Text
  pub status : Text
  pub first_seen_at : Text
  pub last_seen_at : Text
  pub resolved_at : Option Text

-- The column `status` has one of two values.
abbrev pub issue_status : IssueRow → Text
issue_status r = if r.is_open then codes "open" else codes "resolved"

unfoldable pub issue_dict : (ℕ → Text) → IssueRow → IssueDict
issue_dict printed r = record {
  id = r.id;
  project = r.project;
  dataset = r.dataset;
  sa_email = r.sa_email;
  required_role = r.required_role;
  scope = r.scope;
  last_error = r.last_error;
  status = issue_status r;
  first_seen_at = printed r.first_seen_at;
  last_seen_at = printed r.last_seen_at;
  resolved_at = printed_option printed r.resolved_at;
}

abbrev pub has_status : Text → IssueRow → Bool
has_status status r = text_eq (issue_status r) status

abbrev pub issue_time : IssueRow → ℕ
issue_time r = r.last_seen_at

abbrev pub issue_id : IssueRow → ℕ
issue_id r = r.id

unfoldable pub list_permission_issues : (ℕ → Text) → Text → ℤ → Db → List IssueDict
unfolding issue_dict
list_permission_issues printed status limit db =
    map (issue_dict printed) (newest issue_time issue_id limit (has_status status) db.issues)

unfoldable pub get_permission_issue : (ℕ → Text) → ℕ → Db → Option IssueDict
unfolding issue_dict
get_permission_issue printed id db = elim (first (λ r. r.id == id) db.issues) [
  | none ↦ none
  | some r ↦ some (issue_dict printed r)
]

-- The checkpoint of the pooler, in place of a dbt node's.
unfoldable pub set_pooler_checkpoint :
    Postgres → Text → Text → Text → Text → Text → Text → Text → Text → Text → Bool → Db → Result Db
unfolding set_checkpoint
set_pooler_checkpoint pg invocation_id project dataset table run_started_at node_started_at
      node_finished_at delta_start_time delta_end_time success db =
    let (database, schema, identifier) = pooler_checkpoint_parts project dataset table in
    set_checkpoint pg
      (record {
        invocation_id = invocation_id;
        target_database = database;
        target_schema = schema;
        target_table_name = identifier;
        run_started_at = run_started_at;
        node_started_at = node_started_at;
        node_finished_at = node_finished_at;
        delta_start_time = delta_start_time;
        delta_end_time = delta_end_time;
        success = success;
        full_refresh = some false;
      })
      db
