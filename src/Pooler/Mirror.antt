-- ===== src/Pooler/Mirror.antt =====
-- gateway/pooler_core.py `_maybe_write_bq_mirror`: the INSERT of one result into a BigQuery table. The
-- white space between the parts of the statement is not kept.
use dbt_bigquery_ext.Prelude.{
  ℕ, zero, suc, ◌+◌, ◌/◌, ◌%◌, Option, none, some, List, [], ◌∷◌, ◌++◌, map, Text, codes, ltb,
  replace_char, join, if◌then◌else◌,
}
use dbt_bigquery_ext.Tracking.Status.{
  Status, ok, initial, out_of_range, unpartitioned, skipped, not_found, error,
}
use dbt_bigquery_ext.Tracking.Meta.{PartitionType, time, ingestion, integer, unpartitioned_table}
use dbt_bigquery_ext.Gateway.Db.{Counters}
use dbt_bigquery_ext.Pooler.World.{Services, Action, pure, attempt, call, ◌>>◌}

-- The dict that `_pool_one` returns.
pub record PoolResult : Type 0 where
  pub full_table_name : Text
  pub status : Status
  pub delta_start : Option Text
  pub delta_end : Text
  pub partition_type : Option PartitionType
  pub partition_granularity : Option Text
  pub partition_field : Option Text
  pub partition_ids : Option (List Text)
  pub partitions_changed_cnt : Option ℕ
  pub counters : Counters
  pub error_text : Option Text

-- The strings that the enumerations stand for.
abbrev pub status_text : Status → Text
status_text ok = codes "ok"
status_text initial = codes "initial"
status_text out_of_range = codes "out_of_range"
status_text unpartitioned = codes "unpartitioned"
status_text skipped = codes "skipped"
status_text not_found = codes "not_found"
status_text error = codes "error"

abbrev pub type_text : PartitionType → Text
type_text time = codes "time"
type_text ingestion = codes "ingestion"
type_text integer = codes "integer"
type_text unpartitioned_table = codes "none"

-- `str(n)`, with as many rounds as the number allows.
unfoldable pub digits : ℕ → ℕ → Text
digits zero n = []
digits (suc f) n =
    let rest = digits f (n / 10) in if ltb n 10 then (48 + n) ∷ [] else rest ++ (48 + n % 10) ∷ []

abbrev pub quoted : Text → Text
quoted t = codes "'" ++ (replace_char b'\'' (codes "\\'") t ++ codes "'")

abbrev pub lit : Option Text → Text
lit none = codes "NULL"
lit (some t) = quoted t

unfoldable pub lit_number : Option ℕ → Text
unfolding digits
lit_number none = codes "NULL"
lit_number (some n) = digits (suc n) n

abbrev pub ids_sql : Option (List Text) → Text
ids_sql none = codes "CAST(NULL AS ARRAY<STRING>)"
ids_sql (some []) = codes "ARRAY<STRING>[]"
ids_sql (some (t ∷ ts)) = codes "[" ++ (join (codes ", ") (map quoted (t ∷ ts)) ++ codes "]")

abbrev pub type_option : Option PartitionType → Option Text
type_option none = none
type_option (some t) = some (type_text t)

unfoldable pub mirror_sql : PoolResult → Text → Text
unfolding lit_number
mirror_sql r bq_mirror_table =
    codes "INSERT INTO `"
    ++ (bq_mirror_table
        ++ (codes
              "` (full_table_name, status, delta_start, delta_end, partition_type, partition_granularity, partition_field, partition_ids, partitions_changed_cnt, rows_changed, rows_insert, rows_update, rows_delete, error, pooled_at) VALUES ("
            ++ (join (codes ", ") (
                  lit (some r.full_table_name)
                  ∷ lit (some (status_text r.status))
                  ∷ (codes "TIMESTAMP(" ++ (lit r.delta_start ++ codes ")"))
                  ∷ (codes "TIMESTAMP(" ++ (lit (some r.delta_end) ++ codes ")"))
                  ∷ lit (type_option r.partition_type)
                  ∷ lit r.partition_granularity
                  ∷ lit r.partition_field
                  ∷ ids_sql r.partition_ids
                  ∷ lit_number r.partitions_changed_cnt
                  ∷ lit_number r.counters.rows_changed
                  ∷ lit_number r.counters.rows_insert
                  ∷ lit_number r.counters.rows_update
                  ∷ lit_number r.counters.rows_delete
                  ∷ lit r.error_text
                  ∷ codes "CURRENT_TIMESTAMP()"
                  ∷ [])
                ++ codes ")")))

-- A failure of the INSERT is logged and dropped.
unfoldable pub maybe_write_bq_mirror :
    {E : Type 0} → Services E → PoolResult → Option Text → Action E (Unit {0})
unfolding mirror_sql
maybe_write_bq_mirror sv result bq_mirror_table = elim bq_mirror_table [
  | none ↦ pure tt
  | some name ↦ elim name [
    | [] ↦ pure tt
    | c ∷ r ↦ do attempt (call (sv.execute_sql (mirror_sql result (c ∷ r)))); pure tt
  ]
]
