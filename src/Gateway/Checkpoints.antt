-- ===== src/Gateway/Checkpoints.antt =====
-- gateway/client.py: `get_checkpoint`, `set_checkpoint` and their pooler forms, over
-- `dbt_model_log`.
use dbt_bigquery_ext.Prelude.{
  ℕ, Bool, true, false, Option, none, some, List, [], ◌∷◌, Text, text_eq, ltb, ◌==◌, select,
  if◌then◌else◌, ◌&&◌, ◌||◌, Result, done,
}
use dbt_bigquery_ext.Prelude.Results.{◌>>=◌}
use dbt_bigquery_ext.Config.Names.{full_target_table_name, pooler_checkpoint_parts}
use dbt_bigquery_ext.Gateway.Db.{ModelLogRow, Db, Postgres}

-- What `get_checkpoint` returns of a row, its times printed.
pub record Checkpoint : Type 0 where
  pub target_database : Text
  pub target_schema : Text
  pub target_table_name : Text
  pub full_target_table_name : Text
  pub invocation_id : Text
  pub delta_start_time : Option Text
  pub delta_end_time : Option Text
  pub node_finished_at : Option Text
  pub success : Option Bool

-- `WHERE full_target_table_name = %s AND success IS TRUE`.
abbrev pub is_success_of : Text → ModelLogRow → Bool
is_success_of fqn r =
    text_eq r.full_target_table_name fqn && (elim r.success [ some true ↦ true | _ ↦ false ])

-- `ORDER BY node_finished_at DESC NULLS LAST`: the first row comes before the second.
abbrev pub comes_before : Option ℕ → Option ℕ → Bool → Bool
comes_before none none tie = tie
comes_before none (some b) tie = false
comes_before (some a) none tie = true
comes_before (some a) (some b) tie = ltb b a || ((a == b) && tie)

unfoldable pub latest : Postgres → List ModelLogRow → Option ModelLogRow
latest pg [] = none
latest pg (r ∷ rs) = elim (latest pg rs) [
  | none ↦ some r
  | some q ↦
      if comes_before r.node_finished_at q.node_finished_at (pg.prefers r q) then some r else some q
]

abbrev pub printed : Postgres → Option ℕ → Option Text
printed pg none = none
printed pg (some t) = some (pg.to_char t)

abbrev pub checkpoint_of : Postgres → ModelLogRow → Checkpoint
checkpoint_of pg r = record {
  target_database = r.target_database;
  target_schema = r.target_schema;
  target_table_name = r.target_table_name;
  full_target_table_name = r.full_target_table_name;
  invocation_id = r.invocation_id;
  delta_start_time = printed pg r.delta_start_time;
  delta_end_time = printed pg r.delta_end_time;
  node_finished_at = printed pg r.node_finished_at;
  success = r.success;
}

-- The row that `get_checkpoint` selects.
unfoldable pub checkpoint_row : Postgres → Text → Db → Option ModelLogRow
checkpoint_row pg fqn db = latest pg (select (is_success_of fqn) db.model_log)

unfoldable pub get_checkpoint : Postgres → Text → Text → Text → Db → Option Checkpoint
get_checkpoint pg target_database target_schema target_table_name db =
    elim (checkpoint_row pg (full_target_table_name target_database target_schema target_table_name)
      db) [ none ↦ none | some r ↦ some (checkpoint_of pg r) ]

pub record CheckpointArgs : Type 0 where
  pub invocation_id : Text
  pub target_database : Text
  pub target_schema : Text
  pub target_table_name : Text
  pub run_started_at : Text
  pub node_started_at : Text
  pub node_finished_at : Text
  pub delta_start_time : Text
  pub delta_end_time : Text
  pub success : Bool
  pub full_refresh : Option Bool

unfoldable pub set_checkpoint : Postgres → CheckpointArgs → Db → Result Db
set_checkpoint pg a db = do
  run_started_at ← pg.cast a.run_started_at
  node_started_at ← pg.cast a.node_started_at
  node_finished_at ← pg.cast a.node_finished_at
  delta_start_time ← pg.cast a.delta_start_time
  delta_end_time ← pg.cast a.delta_end_time
  let row : ModelLogRow = record {
    invocation_id = a.invocation_id;
    target_database = a.target_database;
    target_schema = a.target_schema;
    target_table_name = a.target_table_name;
    full_target_table_name =
        full_target_table_name a.target_database a.target_schema a.target_table_name;
    run_started_at = some run_started_at;
    node_started_at = some node_started_at;
    node_finished_at = some node_finished_at;
    delta_start_time = some delta_start_time;
    delta_end_time = some delta_end_time;
    full_refresh = a.full_refresh;
    success = some a.success;
  }
  done (record db { model_log = row ∷ db.model_log })

unfoldable pub get_pooler_checkpoint : Postgres → Text → Text → Text → Db → Option Checkpoint
get_pooler_checkpoint pg project dataset table db =
    let (database, schema, identifier) = pooler_checkpoint_parts project dataset table in
    get_checkpoint pg database schema identifier db
