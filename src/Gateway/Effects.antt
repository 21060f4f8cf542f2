-- ===== src/Gateway/Effects.antt =====
-- What the gateway's writing operations do when they return: the rows that they add, in full.
use dbt_bigquery_ext.Prelude.{
  ℕ, ◌≡◌, ap, ◌∙◌, Bool-cases, inl, inr, Bool, Option, some, List, ◌∷◌, arith, Text, if◌then◌else◌,
  ◌&&◌, Result, done, raised,
}
use dbt_bigquery_ext.Prelude.Results.{>>=-eq-done}
use dbt_bigquery_ext.Config.Names.{full_target_table_name, relation_full_name}
use dbt_bigquery_ext.Tracking.Status.{is_checkpoint_advance_status}
use dbt_bigquery_ext.Gateway.Db.{ModelLogRow, LogRow, Db, Postgres}
use dbt_bigquery_ext.Gateway.Checkpoints.{CheckpointArgs, set_checkpoint}
use dbt_bigquery_ext.Gateway.Registry.{
  RegistryArgs, cast_option, upsert, on_conflict, new_row, upsert_change_tracking_registry,
}
use dbt_bigquery_ext.Gateway.ChangeLog.{LogArgs, ids_param, insert_change_tracking_log}
use dbt_bigquery_ext.Gateway.Commit.{
  CommitArgs, registry_args, checkpoint_args, commit_change_tracking_pool_result,
}

-- The time that a text stands for, where Postgres accepts it.
abbrev pub time_of : Result ℕ → ℕ
time_of (done n) = n
time_of (raised e) = 0

abbrev pub Accepts : Postgres → Text → Type 0
Accepts pg t = pg.cast t ≡ done (time_of (pg.cast t))

abbrev pub checkpoint_row_of : Postgres → CheckpointArgs → ModelLogRow
checkpoint_row_of pg a = record {
  invocation_id = a.invocation_id;
  target_database = a.target_database;
  target_schema = a.target_schema;
  target_table_name = a.target_table_name;
  full_target_table_name =
      full_target_table_name a.target_database a.target_schema a.target_table_name;
  run_started_at = some (time_of (pg.cast a.run_started_at));
  node_started_at = some (time_of (pg.cast a.node_started_at));
  node_finished_at = some (time_of (pg.cast a.node_finished_at));
  delta_start_time = some (time_of (pg.cast a.delta_start_time));
  delta_end_time = some (time_of (pg.cast a.delta_end_time));
  full_refresh = a.full_refresh;
  success = some a.success;
}

abbrev pub log_row_of : Postgres → ℕ → LogArgs → LogRow
log_row_of pg id a = record {
  id = id;
  full_table_name = relation_full_name a.project a.dataset a.table;
  pooled_at = time_of (pg.cast a.pooled_at);
  delta_start_time = time_of (pg.cast a.delta_start_time);
  delta_end_time = time_of (pg.cast a.delta_end_time);
  partition_type = some a.meta.partition_type;
  partition_granularity = a.meta.partition_granularity;
  partition_field = a.meta.partition_field;
  counters = a.counters;
  partitions_changed_cnt = a.partitions_changed_cnt;
  partition_ids = ids_param a.partition_ids;
  status = a.status;
  error = a.error;
  invocation_id = a.invocation_id;
}

module _ (pg : Postgres) {db' : Db} where
  set_checkpoint-done :
      (a : CheckpointArgs) (db : Db)
      → set_checkpoint pg a db ≡ done db'
      → (db'.model_log ≡ checkpoint_row_of pg a ∷ db.model_log)
        × (db'.change_log ≡ db.change_log)
        × (db'.registry ≡ db.registry)
  unfolding set_checkpoint
  set_checkpoint-done a db h = ground arith

  insert_log-done :
      (a : LogArgs) (db : Db)
      → insert_change_tracking_log pg a db ≡ done db'
      → (db'.change_log ≡ log_row_of pg db.next_log_id a ∷ db.change_log)
        × (db'.model_log ≡ db.model_log)
        × (db'.registry ≡ db.registry)
  unfolding insert_change_tracking_log
  insert_log-done a db h = ground arith

  upsert_registry-done :
      (now : ℕ) (a : RegistryArgs) (db : Db)
      → upsert_change_tracking_registry pg now a db ≡ done db'
      → (db'.change_log ≡ db.change_log)
        × (db'.model_log ≡ db.model_log)
        × (at : Option ℕ) × (db'.registry
            ≡ upsert
                (relation_full_name a.project a.dataset a.table)
                (on_conflict a at now)
                (new_row a at now)
                db.registry)
  unfolding upsert_change_tracking_registry
  upsert_registry-done now a db h =
      let (at, e, k) = >>=-eq-done (cast_option pg a.last_pooled_at) _ h in
      (ground arith, ground arith, at, ground arith)

-- The checkpoint moves with this commit.
abbrev pub advances : CommitArgs → Bool
advances a = a.advance_checkpoint && is_checkpoint_advance_status a.log.status

-- The last step of a commit.
advance_step : Postgres → CommitArgs → Db → Result Db
advance_step pg a db = if advances a then set_checkpoint pg (checkpoint_args a) db else done db

module _ (pg : Postgres) {db' : Db} where
  advance_step-done :
      (a : CommitArgs) (db : Db)
      → advance_step pg a db ≡ done db'
      → (db'.model_log ≡ (
          if advances a
          then checkpoint_row_of pg (checkpoint_args a) ∷ db.model_log
          else db.model_log))
        × (db'.change_log ≡ db.change_log)
        × (db'.registry ≡ db.registry)
  unfolding advance_step
  advance_step-done a db h = elim (Bool-cases (advances a)) [
    | inl e ↦ rw e (set_checkpoint-done pg (checkpoint_args a) db (rw e at h))
    | inr e ↦ rw e (ground (arith, rw e at h))
  ]

  -- A commit that returns has added its log row, and its checkpoint exactly where the flag and the
  -- status advance it; no other row of the two tables is touched.
  pub commit-adds :
      (now : ℕ) (a : CommitArgs) (db : Db)
      → commit_change_tracking_pool_result pg now a db ≡ done db'
      → (db'.change_log ≡ log_row_of pg db.next_log_id a.log ∷ db.change_log)
        × (db'.model_log ≡ (
            if advances a
            then checkpoint_row_of pg (checkpoint_args a) ∷ db.model_log
            else db.model_log))
  unfolding commit_change_tracking_pool_result advance_step
  commit-adds now a db h =
      let (db1, e1, h1) = >>=-eq-done (insert_change_tracking_log pg a.log db) _ h in
      let (db2, e2, h2) =
        >>=-eq-done (upsert_change_tracking_registry pg now (registry_args a) db1) _ h1 in
      let i1 = insert_log-done pg a.log db e1 in
      let i2 = upsert_registry-done pg now (registry_args a) db1 e2 in
      let i3 = advance_step-done a db2 h2 in
      (
        i3.1 ∙ i2.0 ∙ i1.0,
        i3.0
            ∙ ap
                (λ (l : List ModelLogRow).
                  if advances a then checkpoint_row_of pg (checkpoint_args a) ∷ l else l)
                (i2.1 ∙ i1.1),
      )

  -- What a commit does to the registry.
  pub commit-registry :
      (now : ℕ) (a : CommitArgs) (db : Db)
      → commit_change_tracking_pool_result pg now a db ≡ done db'
      → (at : Option ℕ) × (db'.registry
          ≡ upsert
              (relation_full_name
                (registry_args a).project
                (registry_args a).dataset
                (registry_args a).table)
              (on_conflict (registry_args a) at now)
              (new_row (registry_args a) at now)
              db.registry)
  unfolding commit_change_tracking_pool_result advance_step
  commit-registry now a db h =
      let (db1, e1, h1) = >>=-eq-done (insert_change_tracking_log pg a.log db) _ h in
      let (db2, e2, h2) =
        >>=-eq-done (upsert_change_tracking_registry pg now (registry_args a) db1) _ h1 in
      let i1 = insert_log-done pg a.log db e1 in
      let (c, m, at, i2) = upsert_registry-done pg now (registry_args a) db1 e2 in
      let i3 = advance_step-done a db2 h2 in (at, i3.2 ∙ i2 ∙ ap (upsert _ _ _) i1.2)
