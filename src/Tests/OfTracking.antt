-- ===== src/Tests/OfTracking.antt =====
-- The theorems on names, merging, deduplication, metadata and worker pools, at concrete inputs.
use dbt_bigquery_ext.Prelude.{
  ℕ, ◌≡◌, ◌≢◌, ◌↔◌, ◌≤◌, ◌<◌, refl, Option, none, some, List, [], ◌∷◌, Text, codes, done, arith,
  ends_with, max, ◌⊎◌, not, is_none,
}
use dbt_bigquery_ext.Config.Names.{IsQuotable, full_target_table_name-injective}
use dbt_bigquery_ext.Config.Users.{
  iam_db_user_from_email, pooler_sa_email, sa_email-of_iam_user, sa_email-of_developer,
}
use dbt_bigquery_ext.Tracking.Meta.{
  is_time_partitioned, parse_bq_partition_meta, build_changes_agg_sql, build-parse,
}
use dbt_bigquery_ext.Tracking.Merge.{
  IsMerge, merge_affected_partition_ids, merge_affected_partition_ids-IsMerge,
}
use dbt_bigquery_ext.Tracking.Dedupe.{
  RelationDict, IsDedupe, dedupe_relation_dicts, dedupe_relation_dicts-IsDedupe,
}
use dbt_bigquery_ext.QueryParameters.WorkerPool.{
  pos, negsuc, max_worker_pool_size, resolve_worker_pool_size, resolve_bounds, resolve_accepts,
}
use dbt_bigquery_ext.Tests.Fixtures.{sales, shop, orders, by_day}

orders-IsQuotable : IsQuotable sales shop orders
orders-IsQuotable = record {
  database_lacks = ground arith;
  schema_lacks = ground arith;
  identifier_lacks = ground arith;
}

full_target_table_name-injective_example : (sales ≡ sales) × (shop ≡ shop) × (orders ≡ orders)
full_target_table_name-injective_example =
    full_target_table_name-injective sales shop orders sales shop orders orders-IsQuotable
      orders-IsQuotable refl

user_of_iam :
    iam_db_user_from_email (codes "pooler@sales.iam.gserviceaccount.com")
    ≡ some (codes "pooler@sales.iam")
unfolding iam_db_user_from_email ends_with
user_of_iam = refl

user_of_developer :
    iam_db_user_from_email (codes "12@developer.gserviceaccount.com") ≡ some (codes "12@developer")
unfolding iam_db_user_from_email ends_with
user_of_developer = refl

sa_email-of_iam_user_example :
    pooler_sa_email (codes "pooler@sales.iam") sales ≡ codes "pooler@sales.iam.gserviceaccount.com"
sa_email-of_iam_user_example =
    sa_email-of_iam_user (codes "pooler@sales") sales (codes "pooler@sales.iam") (ground arith)
      user_of_iam

sa_email-of_developer_example :
    (pooler_sa_email (codes "12@developer") sales ≡ codes "12@developer")
    × (pooler_sa_email (codes "12@developer") sales ≢ codes "12@developer.gserviceaccount.com")
sa_email-of_developer_example =
    sa_email-of_developer (codes "12") sales (codes "12@developer") (ground arith) user_of_developer

build-parse_example :
    (is_time_partitioned (parse_bq_partition_meta by_day) ≡ not (is_none by_day.time_partitioning))
    × (is_none (
          build_changes_agg_sql sales shop orders
            (parse_bq_partition_meta by_day)
            (codes "1")
            (codes "2"))
        ≡ is_none by_day.time_partitioning)
build-parse_example = build-parse by_day sales shop orders (codes "1") (codes "2")

abbrev two_rows : List (Option (List (Option Text)))
two_rows =
    some (some (codes "b") ∷ none ∷ some (codes "a") ∷ []) ∷ some (some (codes "b") ∷ []) ∷ []

merge_affected_partition_ids-IsMerge_example :
    IsMerge two_rows (merge_affected_partition_ids two_rows)
merge_affected_partition_ids-IsMerge_example = merge_affected_partition_ids-IsMerge two_rows

abbrev orders_dict : RelationDict
orders_dict = record {
  database = some sales;
  project = none;
  schema = some shop;
  dataset = none;
  identifier = some orders;
  table = none;
  table_name = none;
  node_id = none;
}

abbrev twice : List RelationDict
twice = orders_dict ∷ orders_dict ∷ []

dedupe_relation_dicts-IsDedupe_example : IsDedupe twice (dedupe_relation_dicts twice)
dedupe_relation_dicts-IsDedupe_example = dedupe_relation_dicts-IsDedupe twice

resolve_bounds_example :
    (1 ≤ 3) × (3 ≤ max max_worker_pool_size 3) × (pos 0 ≡ pos 0 → 0 < 3 → 3 ≤ 3)
resolve_bounds_example = resolve_bounds (pos 0) 3 none 3 (unfold resolve_worker_pool_size in refl)

resolve_accepts_example :
    ((n : ℕ) × (resolve_worker_pool_size (pos 8) 3 none ≡ done n))
    ↔ ((pos 8 ≡ negsuc 0) ⊎ ((k : ℕ) × (pos 8 ≡ pos k) × (k ≤ max_worker_pool_size)))
resolve_accepts_example = resolve_accepts (pos 8) 3 none (omega arith) (λ e. cc)
