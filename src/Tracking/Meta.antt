-- ===== src/Tracking/Meta.antt =====
-- gateway/change_tracking.py: `PartitionMeta`, `parse_bq_partition_meta`, `_normalize_grain`,
-- `partition_id_sql_expr` and `build_changes_agg_sql`. A `google.cloud.bigquery.Table` enters as
-- the attributes that the code reads of it.
use dbt_bigquery_ext.Prelude.{
  ◌≡◌, refl, Bool, true, false, Option, none, some, List, [], ◌∷◌, ◌++◌, arith, Text, codes,
  text_eq, contains, lower, strip, split, replace_char, ◌||◌, ◌&&◌, not, or_else, is_none,
  if◌then◌else◌,
}
use dbt_bigquery_ext.Config.Names.{relation_full_name, dot}

pub data PartitionType : Type 0 where
  time ingestion integer unpartitioned_table : PartitionType

pub record PartitionMeta : Type 0 where
  pub partition_type : PartitionType
  pub partition_granularity : Option Text
  pub partition_field : Option Text

-- `bool(x)` of an optional text: neither `None` nor empty.
abbrev pub truthy : Option Text → Bool
truthy none = false
truthy (some []) = false
truthy (some (c ∷ s)) = true

abbrev pub is_time_like : PartitionType → Bool
is_time_like time = true
is_time_like ingestion = true
is_time_like integer = false
is_time_like unpartitioned_table = false

unfoldable pub is_time_partitioned : PartitionMeta → Bool
is_time_partitioned m = is_time_like m.partition_type && truthy m.partition_granularity

-- `s.rsplit(".", 1)[-1]`: the last part.
abbrev pub last_part : List Text → Text
last_part [] = []
last_part (p ∷ []) = p
last_part (p ∷ q ∷ ps) = last_part (q ∷ ps)

-- `_normalize_grain`; `str(raw)` of a present value is its text.
unfoldable pub normalize_grain : Option Text → Text
normalize_grain none = codes "day"
normalize_grain (some raw) =
    let s = lower (strip raw) in
    let t = if contains s (codes ".") then last_part (split dot s) else s in
    elim t [ [] ↦ codes "day" | c ∷ r ↦ c ∷ r ]

-- `table.time_partitioning`: `raw_type` is `type_ or type`, `field` its `field`.
pub record TimePartitioning : Type 0 where
  pub raw_type : Option Text
  pub field : Option Text

pub record RangePartitioning : Type 0 where
  pub field : Option Text

pub record BqTable : Type 0 where
  pub time_partitioning : Option TimePartitioning
  pub range_partitioning : Option RangePartitioning

abbrev time_meta : TimePartitioning → PartitionMeta
time_meta t =
    let grain = normalize_grain t.raw_type in
    if truthy t.field
    then record {
      partition_type = time;
      partition_granularity = some grain;
      partition_field = t.field;
    }
    else record {
      partition_type = ingestion;
      partition_granularity = some grain;
      partition_field =
          some (
            if text_eq grain (codes "hour")
            then codes "_PARTITIONTIME"
            else codes "_PARTITIONDATE");
    }

unfoldable pub parse_bq_partition_meta : BqTable → PartitionMeta
parse_bq_partition_meta table = elim table.time_partitioning [
  | some t ↦ time_meta t
  | none ↦ elim table.range_partitioning [
    | some r ↦ record {
      partition_type = integer;
      partition_granularity = none;
      partition_field = r.field;
    }
    | none ↦ record {
      partition_type = unpartitioned_table;
      partition_granularity = none;
      partition_field = none;
    }
  ]
]

-- The expression for a field and a grain, the guard passed.
pub id_expr : Text → Text → Text
id_expr field grain =
    if text_eq field (codes "_PARTITIONDATE")
    then (if text_eq grain (codes "month")
        then codes "FORMAT_DATE('%Y-%m-%d', DATE_TRUNC(_PARTITIONDATE, MONTH))"
        else if text_eq grain (codes "year")
        then codes "FORMAT_DATE('%Y-%m-%d', DATE_TRUNC(_PARTITIONDATE, YEAR))"
        else codes "FORMAT_DATE('%Y-%m-%d', _PARTITIONDATE)")
    else let part_ts =
        if text_eq field (codes "_PARTITIONTIME")
        then codes "_PARTITIONTIME"
        else codes "CAST(" ++ (field ++ codes " AS TIMESTAMP)") in
      if text_eq grain (codes "hour")
      then codes "FORMAT_TIMESTAMP('%Y-%m-%d %H:00:00', TIMESTAMP_TRUNC("
        ++ (part_ts ++ codes ", HOUR))")
      else if text_eq grain (codes "month")
      then codes "FORMAT_DATE('%Y-%m-%d', DATE(TIMESTAMP_TRUNC(" ++ (part_ts ++ codes ", MONTH)))")
      else if text_eq grain (codes "year")
      then codes "FORMAT_DATE('%Y-%m-%d', DATE(TIMESTAMP_TRUNC(" ++ (part_ts ++ codes ", YEAR)))")
      else codes "FORMAT_DATE('%Y-%m-%d', DATE(" ++ (part_ts ++ codes "))")

-- `none` where the code returns `None`.
unfoldable pub partition_id_sql_expr : PartitionMeta → Option Text
unfolding is_time_partitioned
partition_id_sql_expr m =
    if not (is_time_partitioned m) || not (truthy m.partition_field)
    then none
    else some
        (id_expr (or_else m.partition_field []) (or_else m.partition_granularity (codes "day")))

abbrev escape_quotes : Text → Text
escape_quotes = replace_char b'\'' (codes "\\'")

-- `none` is the `ValueError`.
unfoldable pub build_changes_agg_sql :
    Text → Text → Text → PartitionMeta → Text → Text → Option Text
build_changes_agg_sql project dataset table meta start_ts end_ts =
    elim (partition_id_sql_expr meta) [
      | none ↦ none
      | some expr ↦ some (
          codes "SELECT\n  ARRAY_AGG(DISTINCT partition_id IGNORE NULLS) AS partition_ids,\n"
          ++ (codes "  COUNT(*) AS rows_changed,\n"
              ++ (codes "  COUNTIF(_CHANGE_TYPE = 'INSERT') AS rows_insert,\n"
                  ++ (codes "  COUNTIF(_CHANGE_TYPE = 'UPDATE') AS rows_update,\n"
                      ++ (codes
                            "  COUNTIF(_CHANGE_TYPE = 'DELETE') AS rows_delete\nFROM (\n  SELECT\n    _CHANGE_TYPE,\n    "
                          ++ (expr
                              ++ (codes " AS partition_id\n  FROM CHANGES(TABLE "
                                  ++ (relation_full_name project dataset table
                                      ++ (codes ", '"
                                          ++ (escape_quotes start_ts
                                              ++ (codes "', '"
                                                  ++ (escape_quotes end_ts
                                                      ++ codes "')\n)"))))))))))))
    ]

normalize_grain-truthy : (raw : Option Text) → truthy (some (normalize_grain raw)) ≡ true
unfolding normalize_grain
normalize_grain-truthy none = refl
normalize_grain-truthy (some raw) = ground arith

-- What the guard of `partition_id_sql_expr` finds in parsed metadata.
parse-truthy_field :
    (t : BqTable)
    → is_time_partitioned (parse_bq_partition_meta t) ≡ true
    → truthy (parse_bq_partition_meta t).partition_field ≡ true
unfolding parse_bq_partition_meta is_time_partitioned
parse-truthy_field t h = ground arith

-- Metadata is time-partitioned exactly where the table has a time partitioning.
parse-is_time :
    (t : BqTable)
    → is_time_partitioned (parse_bq_partition_meta t) ≡ not (is_none t.time_partitioning)
unfolding parse_bq_partition_meta is_time_partitioned
parse-is_time t = go t.time_partitioning refl t.range_partitioning refl
  where
    go :
        (o : Option TimePartitioning)
        → t.time_partitioning ≡ o
        → (r : Option RangePartitioning) → t.range_partitioning ≡ r
        → is_time_partitioned (parse_bq_partition_meta t) ≡ not (is_none t.time_partitioning)
    go none e none q = rw (e, q, parse_bq_partition_meta) refl
    go none e (some r) q = rw (e, q, parse_bq_partition_meta) refl
    go (some tp) e r q =
        rw (e, parse_bq_partition_meta) (ground (arith, normalize_grain-truthy tp.raw_type))

-- A table of BigQuery, by a column of time or by ingestion time, is taken to be partitioned by time
-- exactly where it has a time partitioning, and for the metadata that is parsed from it the CHANGES query
-- is built exactly there: the pooler's call never raises `ValueError`.
pub build-parse :
    (t : BqTable) (project dataset table start_ts end_ts : Text)
    → let meta = parse_bq_partition_meta t in
      let sql = build_changes_agg_sql project dataset table meta start_ts end_ts in
      (is_time_partitioned meta ≡ not (is_none t.time_partitioning))
      × (is_none sql ≡ is_none t.time_partitioning)
unfolding build_changes_agg_sql partition_id_sql_expr
build-parse t project dataset table start_ts end_ts =
    (parse-is_time t, ground (arith, parse-is_time t, parse-truthy_field t))
