-- ===== src/Tests/OfGateway.antt =====
-- Commits, registrations and reports on the example tables.
use dbt_bigquery_ext.Prelude.{
  ◌≡◌, ◌≢◌, refl, true, none, some, [], ◌∷◌, Text, codes, Result, done, raised, arith, In, inl, inr,
  text_eq, first, length, select, max, not, is_none, ◌↔◌,
}
use dbt_bigquery_ext.Config.Names.{relation_full_name, full_target_table_name}
use dbt_bigquery_ext.Tracking.Status.{is_checkpoint_advance_status, is_affected_partition_status}
use dbt_bigquery_ext.Gateway.Db.{RegistryRow, IssueRow, Db}
use dbt_bigquery_ext.Gateway.Checkpoints.{set_checkpoint}
use dbt_bigquery_ext.Gateway.Registry.{
  upsert_change_tracking_registry, get_change_tracking_registry_row, is_listed,
  list_change_tracking_registry, register_change_tracking_table, unregister_change_tracking_table,
  group_or_default,
}
use dbt_bigquery_ext.Gateway.ChangeLog.{insert_change_tracking_log, affected_between}
use dbt_bigquery_ext.Gateway.Commit.{
  registry_args, checkpoint_args, commit_change_tracking_pool_result,
}
use dbt_bigquery_ext.Gateway.Issues.{IssueArgs, same_issue, upsert_permission_issue}
use dbt_bigquery_ext.Gateway.Coverage.{IsCovered, CoveredFrom, commit-IsCovered}
use dbt_bigquery_ext.Gateway.Affected.{Includes, affected_complete, affected_before}
use dbt_bigquery_ext.Gateway.Registered.{
  register_lookup, unregister_lists, commit-keeps_registration,
}
use dbt_bigquery_ext.Gateway.Reported.{Shows, others, upsert_permission_issue_lem}
use dbt_bigquery_ext.Gateway.Runs.{
  RunDb, StartArgs, EventArgs, start_pooler_run, append_pooler_run_event,
}
use dbt_bigquery_ext.Gateway.RunLog.{IsValid, Reaches, starts, appends, Reaches-IsValid}
use dbt_bigquery_ext.Tests.Fixtures.{
  small_pg, sales, shop, orders, orders_name, log_5_10, orders_row, pooled_db, commit_10_20,
}

committed : Result Db
committed = commit_change_tracking_pool_result small_pg 30 commit_10_20 pooled_db

db_of : Result Db → Db
db_of (done db) = db
db_of (raised e) = pooled_db

committed_db : Db
committed_db = db_of committed

committed_done :
    commit_change_tracking_pool_result small_pg 30 commit_10_20 pooled_db ≡ done committed_db
unfolding committed_db committed db_of commit_change_tracking_pool_result insert_change_tracking_log
    upsert_change_tracking_registry registry_args checkpoint_args set_checkpoint
    is_checkpoint_advance_status
committed_done = refl

orders_covered : CoveredFrom (relation_full_name sales shop orders) 5 10 pooled_db.change_log
unfolding relation_full_name full_target_table_name is_affected_partition_status
orders_covered = λ t p q. (log_5_10, inl refl, refl, refl, p, q)

orders_found : get_change_tracking_registry_row sales shop orders pooled_db ≡ some orders_row
unfolding get_change_tracking_registry_row relation_full_name full_target_table_name text_eq
orders_found = refl

commit-IsCovered_example : IsCovered small_pg sales shop orders committed_db 5 20
commit-IsCovered_example =
    commit-IsCovered small_pg 30 commit_10_20 pooled_db 5 10 20 22 committed_done
      (unfold is_checkpoint_advance_status in refl) refl refl refl (λ k e. ground arith, tt)
      orders_covered

commit-keeps_registration_example :
    (row : RegistryRow) × (get_change_tracking_registry_row sales shop orders committed_db
      ≡ some row)
    × (row.enabled ≡ true)
    × (row.unregistered_at ≡ none)
    × (row.schedule_group ≡ codes "default")
    × (row.last_status ≡ some commit_10_20.log.status)
commit-keeps_registration_example =
    commit-keeps_registration small_pg 30 commit_10_20 pooled_db orders_row committed_done
      orders_found

affected_complete_example :
    Includes (codes "2026-01-01") (affected_between orders_name 6 9 pooled_db.change_log)
affected_complete_example =
    affected_complete orders_name (codes "2026-01-01") 7 6 9 pooled_db.change_log 5 10
      (λ t p q. (log_5_10, inl refl, refl, unfold is_affected_partition_status in refl, p, q))
      (omega arith) (omega arith) (omega arith) (omega arith)
      (λ r m n k lo hi. elim m [ inl e ↦ rw e (inl refl) | inr x ↦ elim x [ ] ])

affected_before_example : affected_between orders_name 2 5 pooled_db.change_log ≡ some []
affected_before_example =
    affected_before orders_name 2 5 pooled_db.change_log
      (λ r m n. elim m [ inl e ↦ rw e (omega arith) | inr x ↦ elim x [ ] ])

registered_db : Db
registered_db = db_of (
    register_change_tracking_table small_pg 40 sales shop (codes "items") (codes "hourly")
      pooled_db)

registered :
    register_change_tracking_table small_pg 40 sales shop (codes "items") (codes "hourly") pooled_db
    ≡ done registered_db
unfolding registered_db db_of register_change_tracking_table
registered = refl

register_lookup_example :
    ((row : RegistryRow) × (get_change_tracking_registry_row sales shop
          (codes "items")
          registered_db
        ≡ some row)
      × (is_listed true (some (group_or_default (some (codes "hourly")))) row ≡ true))
    × ((project dataset table : Text)
        → relation_full_name project dataset table ≢ relation_full_name sales shop (codes "items")
        → get_change_tracking_registry_row project dataset table registered_db
          ≡ get_change_tracking_registry_row project dataset table pooled_db)
register_lookup_example =
    register_lookup small_pg 40 sales shop (codes "items") (codes "hourly") pooled_db registered

unregister_lists_example :
    ((r : RegistryRow)
      → In r (
          list_change_tracking_registry true none
            (unregister_change_tracking_table 40 sales shop orders pooled_db).0)
        ↔ ((r.full_table_name ≢ relation_full_name sales shop orders)
            × In r (list_change_tracking_registry true none pooled_db)))
    × ((unregister_change_tracking_table 40 sales shop orders pooled_db).1
        ≡ not (is_none (get_change_tracking_registry_row sales shop orders pooled_db)))
unregister_lists_example = unregister_lists 40 sales shop orders pooled_db

abbrev denied : IssueArgs
denied = record {
  project = sales;
  dataset = shop;
  sa_email = codes "pooler@sales.iam.gserviceaccount.com";
  required_role = codes "roles/bigquery.dataViewer";
  scope = codes "dataset";
  last_error = some (codes "Access Denied");
}

upsert_permission_issue_example :
    ((r : IssueRow) × (first
          (same_issue denied)
          (upsert_permission_issue 50 denied pooled_db).issues
        ≡ some r)
      × Shows 50 denied r)
    × (length (select (same_issue denied) (upsert_permission_issue 50 denied pooled_db).issues)
        ≡ max 1 (length (select (same_issue denied) pooled_db.issues)))
    × (others denied (upsert_permission_issue 50 denied pooled_db).issues
        ≡ others denied pooled_db.issues)
upsert_permission_issue_example = upsert_permission_issue_lem 50 denied pooled_db

abbrev no_runs : RunDb
no_runs = record { runs = []; run_events = []; next_run_id = 1; next_event_id = 1 }

abbrev by_hand : StartArgs
by_hand = record {
  started_at = 60 ∷ [];
  watermark_to = none;
  invocation_id = none;
  trigger = codes "api";
  schedule_group = none;
  num_tables = 1;
}

abbrev greeting : EventArgs
greeting = record {
  run_id = 1;
  level = codes "info";
  message = codes "run started";
  full_table_name = none;
  status = none;
  logged_at = none;
}

runs_of : Result RunDb → RunDb
runs_of (done db) = db
runs_of (raised e) = no_runs

one_run : RunDb
one_run = runs_of (start_pooler_run small_pg by_hand no_runs)

one_event : RunDb
one_event = runs_of (append_pooler_run_event small_pg 61 greeting one_run)

run_log : Reaches small_pg no_runs one_event
unfolding one_event one_run runs_of start_pooler_run append_pooler_run_event
run_log =
    Reaches.later (Reaches.later Reaches.here (starts by_hand refl)) (appends 61 greeting refl)

Reaches-IsValid_example : IsValid one_event
Reaches-IsValid_example = Reaches-IsValid small_pg (record { falling = tt; of_runs = tt }) run_log
