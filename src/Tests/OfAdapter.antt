-- ===== src/Tests/OfAdapter.antt =====
-- The theorems on replaceable tables, at tables partitioned by a column and by ingestion time.
use dbt_bigquery_ext.Prelude.{◌≡◌, ◌↔◌, refl, true, false, none, some, [], ◌∷◌, codes, lower}
use dbt_bigquery_ext.Adapter.Replaceable.{
  ExistingTable, TimePartitioning, PartitionConfig, Cluster, column, cluster_list, is_replaceable,
  is_replaceable-by_column, ingestion_time-not_replaceable,
}

abbrev by_dt : TimePartitioning
by_dt = record { field = some (codes "Dt"); partitioning_type = codes "DAY" }

abbrev by_ingestion : TimePartitioning
by_ingestion = record { field = none; partitioning_type = codes "DAY" }

abbrev existing : TimePartitioning → ExistingTable
existing t = record {
  range_partitioning = none;
  time_partitioning = some t;
  clustering_fields = some (codes "shop" ∷ []);
}

abbrev daily : PartitionConfig
daily = record {
  field = codes "dt";
  data_type = codes "date";
  granularity = codes "day";
  range = none;
  time_ingestion_partitioning = false;
  copy_partitions = false;
}

abbrev by_shop : Cluster
by_shop = column (codes "shop")

is_replaceable-by_column_example :
    (is_replaceable (some (some (existing by_dt))) (some daily) by_shop ≡ true) ↔ (
      (lower (codes "Dt") ≡ lower daily.field)
      × (lower (codes "DAY") ≡ lower daily.granularity)
      × ((existing by_dt).clustering_fields ≡ cluster_list by_shop))
is_replaceable-by_column_example =
    is_replaceable-by_column (existing by_dt) by_dt b'D' (codes "t") daily by_shop refl refl refl

ingestion_time-not_replaceable_example :
    is_replaceable
      (some (some (existing by_ingestion)))
      (some (record daily { time_ingestion_partitioning = true }))
      by_shop
    ≡ false
ingestion_time-not_replaceable_example =
    ingestion_time-not_replaceable (existing by_ingestion) by_ingestion
      (some (record daily { time_ingestion_partitioning = true })) by_shop refl refl
