-- ===== src/Gateway/Registry.antt =====
-- gateway/client.py: `upsert_change_tracking_registry`, `register_change_tracking_table`,
-- `unregister_change_tracking_table`, `get_change_tracking_registry_row` and
-- `list_change_tracking_registry`, over `change_tracking_registry`. `now` is CURRENT_TIMESTAMP.
use dbt_bigquery_ext.Prelude.{
  ℕ, Bool, true, false, Option, none, some, List, [], ◌∷◌, Text, codes, text_eq, first, select,
  update_where, coalesce, if◌then◌else◌, ◌&&◌, is_none, not, Result, done,
}
use dbt_bigquery_ext.Prelude.Results.{◌>>=◌}
use dbt_bigquery_ext.Config.Names.{relation_full_name}
use dbt_bigquery_ext.Tracking.Status.{Status}
use dbt_bigquery_ext.Tracking.Meta.{PartitionType}
use dbt_bigquery_ext.Gateway.Db.{RegistryRow, Db, Postgres}

pub record RegistryArgs : Type 0 where
  pub project : Text
  pub dataset : Text
  pub table : Text
  pub partition_type : Option PartitionType
  pub partition_granularity : Option Text
  pub partition_field : Option Text
  pub change_history_enabled : Option Bool
  pub last_status : Option Status
  pub last_pooled_at : Option Text
  pub mark_registered : Bool
  pub schedule_group : Option Text

abbrev pub default_group : Text
default_group = codes "default"

-- `schedule_group or "default"`.
abbrev pub group_or_default : Option Text → Text
group_or_default none = default_group
group_or_default (some []) = default_group
group_or_default (some (c ∷ s)) = c ∷ s

abbrev pub has_name : Text → RegistryRow → Bool
has_name fqn r = text_eq r.full_table_name fqn

-- An optional time, read by Postgres.
abbrev pub cast_option : Postgres → Option Text → Result (Option ℕ)
cast_option pg none = done none
cast_option pg (some t) = pg.cast t >>= λ n. done (some n)

-- VALUES, with the column defaults of the DDL.
unfoldable pub new_row : RegistryArgs → Option ℕ → ℕ → RegistryRow
new_row a last_pooled_at now = record {
  full_table_name = relation_full_name a.project a.dataset a.table;
  project = a.project;
  dataset = a.dataset;
  table_name = a.table;
  partition_type = a.partition_type;
  partition_granularity = a.partition_granularity;
  partition_field = a.partition_field;
  change_history_enabled = a.change_history_enabled;
  enabled = true;
  schedule_group = if a.mark_registered then group_or_default a.schedule_group else default_group;
  registered_at = now;
  unregistered_at = none;
  last_pooled_at = last_pooled_at;
  last_status = a.last_status;
  updated_at = now;
}

-- ON CONFLICT (full_table_name) DO UPDATE SET, in its two forms.
unfoldable pub on_conflict : RegistryArgs → Option ℕ → ℕ → RegistryRow → RegistryRow
on_conflict a last_pooled_at now r =
    if a.mark_registered
    then record r {
      partition_type = coalesce a.partition_type r.partition_type;
      partition_granularity = coalesce a.partition_granularity r.partition_granularity;
      partition_field = coalesce a.partition_field r.partition_field;
      change_history_enabled = coalesce a.change_history_enabled r.change_history_enabled;
      enabled = true;
      schedule_group = group_or_default a.schedule_group;
      unregistered_at = none;
      last_status = coalesce a.last_status r.last_status;
      last_pooled_at = coalesce last_pooled_at r.last_pooled_at;
      updated_at = now;
    }
    else record r {
      partition_type = a.partition_type;
      partition_granularity = a.partition_granularity;
      partition_field = a.partition_field;
      change_history_enabled = a.change_history_enabled;
      last_status = coalesce a.last_status r.last_status;
      last_pooled_at = coalesce last_pooled_at r.last_pooled_at;
      updated_at = now;
    }

-- INSERT … ON CONFLICT: the row of that name is changed, or a new one is added.
unfoldable pub upsert :
    Text → (RegistryRow → RegistryRow) → RegistryRow → List RegistryRow → List RegistryRow
upsert fqn change row [] = row ∷ []
upsert fqn change row (r ∷ rs) =
    if has_name fqn r then change r ∷ rs else r ∷ upsert fqn change row rs

unfoldable pub upsert_change_tracking_registry : Postgres → ℕ → RegistryArgs → Db → Result Db
upsert_change_tracking_registry pg now a db = do
  last_pooled_at ← cast_option pg a.last_pooled_at
  done (record db {
    registry =
        upsert (relation_full_name a.project a.dataset a.table) (on_conflict a last_pooled_at now)
          (new_row a last_pooled_at now) db.registry;
  })

abbrev pub register_args : Text → Text → Text → Text → RegistryArgs
register_args project dataset table schedule_group = record {
  project = project;
  dataset = dataset;
  table = table;
  partition_type = none;
  partition_granularity = none;
  partition_field = none;
  change_history_enabled = none;
  last_status = none;
  last_pooled_at = none;
  mark_registered = true;
  schedule_group = some schedule_group;
}

unfoldable pub register_change_tracking_table :
    Postgres → ℕ → Text → Text → Text → Text → Db → Result Db
unfolding upsert_change_tracking_registry
register_change_tracking_table pg now project dataset table schedule_group =
    upsert_change_tracking_registry pg now (register_args project dataset table schedule_group)

-- The new tables, and whether a row was updated.
unfoldable pub unregister_change_tracking_table : ℕ → Text → Text → Text → Db → Db × Bool
unregister_change_tracking_table now project dataset table db =
    let fqn = relation_full_name project dataset table in
    (
      record db {
        registry =
            update_where (has_name fqn)
              (λ r. record r { enabled = false; unregistered_at = some now; updated_at = now })
              db.registry;
      },
      not (is_none (first (has_name fqn) db.registry)),
    )

unfoldable pub get_change_tracking_registry_row : Text → Text → Text → Db → Option RegistryRow
get_change_tracking_registry_row project dataset table db =
    first (has_name (relation_full_name project dataset table)) db.registry

-- `enabled = TRUE AND unregistered_at IS NULL`, and the group where one is asked for.
unfoldable pub is_listed : Bool → Option Text → RegistryRow → Bool
is_listed enabled_only schedule_group r =
    (if enabled_only then r.enabled && is_none r.unregistered_at else true)
    && (elim schedule_group [ none ↦ true | some g ↦ text_eq r.schedule_group g ])

-- The rows of the answer. ORDER BY full_table_name, by the database's collation, is not modelled.
unfoldable pub list_change_tracking_registry : Bool → Option Text → Db → List RegistryRow
list_change_tracking_registry enabled_only schedule_group db =
    select (is_listed enabled_only schedule_group) db.registry
