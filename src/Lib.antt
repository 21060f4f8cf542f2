-- ===== src/Lib.antt =====
-- The change-metadata gateway and pooler of dbt-bigquery-ext, and decisions of its adapter.
--
-- The pooler keeps, for each registered BigQuery table, a checkpoint and a log of the partitions that
-- changed between checkpoints; a dbt run asks which partitions changed in a window of time, and runs
-- a statement over many sets of query parameters. The parts and the files that model them, with the
-- paths of the code:
--
-- - Prelude: Boolean tests on the native numbers, lists, texts as lists of character codes with the
--   string methods that the code calls, integers (Ints), dicts as lists of pairs, and results that are
--   a value or an exception (Results) or a value or an error of the component's own type (Checked).
-- - Config: dbt/adapters/bigquery/gateway/config.py `full_target_table_name` and
--   `iam_db_user_from_email`, and `pooler_sa_email` of
--   services/change_metadata_pooler/app/permissions.py.
-- - Tracking: dbt/adapters/bigquery/gateway/change_tracking.py. Status (the status strings), Meta
--   (partition metadata and the CHANGES query), Merge (`merge_affected_partition_ids`), Dedupe
--   (`dedupe_relation_dicts`), Errors (the classification of exceptions by their text).
-- - Gateway: dbt/adapters/bigquery/gateway/client.py over the tables of schema.py. Db has the tables as
--   lists of rows, newest first; Checkpoints, Registry, ChangeLog, Commit and Issues have the
--   operations by the names of the methods, Runs those of the run tables, and Listings the listings and
--   lookups, by the ORDER BY and LIMIT of Newest, a sort that stands for what Postgres does with them;
--   Listed, Effects, Written, Coverage, Affected, Registered, Reported and RunLog have what holds of them. A method that raises returns
--   no tables, as its transaction is rolled back.
--   Postgres is a parameter: how it reads and prints timestamps and which of two rows it prefers that
--   an ORDER BY leaves equal. Timestamps are natural numbers, printed ones are texts, and texts are
--   compared as texts where the code does so.
-- - QueryParameters: dbt/adapters/bigquery/query_parameters.py. WorkerPool (`resolve_worker_pool_size`),
--   Values (`build_query_parameters`, the Python values and the inference of their types), Sources
--   (where variable sets come from, `variable_sets_from_bq_rows`), Overwrite
--   (`validate_insert_overwrite_variable_sets`); Build, FromRows and OneBucket have what holds. Python's
--   values carry what the code reads of them, each `raise` is a constructor of an error type, and the
--   parsing and printing of dates are parameters.
-- - Execution: dbt/adapters/bigquery/connections.py `execute_ext`. Sets (the resolution of its variable
--   sets), Batch (the jobs, their outcomes and the total); what BigQuery answers to a job and the
--   order in which workers finish are parameters. AnyOrder, InTurn and FromRelation have what
--   holds.
-- - Pooler: dbt/adapters/bigquery/gateway/pooler_core.py. World is the state (tables, events, and
--   services with a state of their own, whose answers may differ at every call, the callback `on_event`
--   among them, which may raise) and the actions on it;
--   History, Changes, Mirror, PoolOne, Events, PoolRelations and Ensure have the methods of
--   `ChangeMetadataPoolerCore`; Keeps, Ends, Quiet, Steps, Advance, Watermark, Fresh and
--   Answers have what holds.
-- - Service: services/change_metadata_pooler/app/run_session.py. RunSession is `PoolRunSession` on the
--   run tables of the gateway, where the insert of an event may fail after the event was counted;
--   Counted and Finished have what holds.
-- - Columns: Fields is dbt/adapters/bigquery/struct_utils.py `find_missing_fields` on the fields of a
--   table, Sync is `sync_struct_columns` of dbt/adapters/bigquery/impl.py, Synced has what holds. Of
--   dbt/adapters/bigquery/column.py, StructType is `_parse_struct_fields`, Nested is
--   `get_nested_column_data_types` with the gathering and the printing of nested types, and Select is
--   `get_struct_select_expression`, Schema is `BigQueryColumn` with its type and leaves, and
--   `bool_setting` of dbt/adapters/bigquery/utility.py; Trimmed, Balanced, Parts, RoundTrip, Shorter,
--   Selected and InOrder have what holds of them.
-- - Adapter: Replaceable is `is_replaceable` of dbt/adapters/bigquery/impl.py with the two comparisons.
--   Partition is `PartitionConfig` of dbt/adapters/bigquery/relation_configs/_partition.py as it
--   renders, with the rendering of dbt/adapters/bigquery/relation.py; ViewChanges is
--   `materialized_view_config_changeset` of that file over relation_configs/_materialized_view.py, on
--   Python's `sorted` (Sorted). The options of a view are a parameter, with their comparison.
-- - Retry: dbt/adapters/bigquery/retry.py, the two predicates that decide whether an error is tried
--   again; `retry_calls` is a caller that follows their answers.
-- - Tests: a small Postgres, tables and services, on which the code runs and the theorems apply.
--
-- Loops are structural. The printing of decimals in Mirror is on fuel, the number and one more, which
-- is more than it has digits; so is `retry_calls`, with one attempt more than there are retries, and
-- the recursion of `get_struct_select_expression` on the types of a struct's fields, each of which is
-- shorter than the struct's.
--
-- Not modelled: the tasks of `pool_relations` run in the order of the list, not at once (each holds a
-- lock on its own table), so that the sort of its results by index is not in the model; the ordering of listings by the collation of the database; the layout of
-- white space in the INSERT of the mirror; connections, locks and DDL; the service's HTTP
-- endpoints; the rest of the adapter, its materializations
-- and macros.
pub mod Prelude
pub mod Config
pub mod Tracking
pub mod Execution
pub mod Retry
pub mod Columns
pub mod Adapter
pub mod Gateway
pub mod QueryParameters
pub mod Pooler
pub mod Service
pub mod Tests
