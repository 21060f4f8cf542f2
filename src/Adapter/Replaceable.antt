-- ===== src/Adapter/Replaceable.antt =====
-- impl.py `is_replaceable`, `_partitions_match` and `_clusters_match`: whether an existing table can be
-- replaced in place, or has to be dropped first.
use dbt_bigquery_ext.Prelude.{
  ◌∙◌, ℕ, ◌==◌, ◌≡◌, ◌↔◌, refl, sym, ap, Bool, true, false, Option, none, some, List, [], ◌∷◌, Text,
  text_eq, text_eq_iff, lower, is_none, not, ◌&&◌, ◌||◌, arith, and_split,
}

-- An integer: `negsuc n` is -(n + 1).
pub data Bound : Type 0 where
  pos negsuc : ℕ → Bound

abbrev pub bound_eq : Bound → Bound → Bool
bound_eq (pos n) (pos m) = n == m
bound_eq (negsuc n) (negsuc m) = n == m
bound_eq (pos n) (negsuc m) = false
bound_eq (negsuc n) (pos m) = false

abbrev pub same_bound : Option Bound → Option Bound → Bool
same_bound none none = true
same_bound none (some b) = false
same_bound (some a) none = false
same_bound (some a) (some b) = bound_eq a b

pub record Range : Type 0 where
  pub start : Option Bound
  pub end_ : Option Bound
  pub interval : Option Bound

abbrev pub no_range : Range
no_range = record { start = none; end_ = none; interval = none }

pub record RangePartitioning : Type 0 where
  pub field : Text
  pub range : Range

-- Without a field the table is partitioned by ingestion time.
pub record TimePartitioning : Type 0 where
  pub field : Option Text
  pub partitioning_type : Text

pub record ExistingTable : Type 0 where
  pub range_partitioning : Option RangePartitioning
  pub time_partitioning : Option TimePartitioning
  pub clustering_fields : Option (List Text)

pub record PartitionConfig : Type 0 where
  pub field : Text
  pub data_type : Text
  pub granularity : Text
  pub range : Option Range
  pub time_ingestion_partitioning : Bool
  pub copy_partitions : Bool

-- The configured clustering: a single text is a list of it.
pub data Cluster : Type 0 where
  no_cluster : Cluster
  column : Text → Cluster
  columns : List Text → Cluster

-- The lower-case field of the table, where it has one that is not empty.
abbrev pub lower_field : Option Text → Option Text
lower_field none = none
lower_field (some []) = none
lower_field (some (c ∷ s)) = some (lower (c ∷ s))

abbrev is_field : Option Text → Text → Bool
is_field none name = false
is_field (some t) name = text_eq t name

unfoldable pub time_match : TimePartitioning → PartitionConfig → Bool
time_match t conf =
    (is_field (lower_field t.field) (lower conf.field)
      || (conf.time_ingestion_partitioning && not (is_none (lower_field t.field))))
    && text_eq (lower t.partitioning_type) (lower conf.granularity)

abbrev range_or_none : Option Range → Range
range_or_none none = no_range
range_or_none (some r) = r

unfoldable pub range_match : RangePartitioning → PartitionConfig → Bool
range_match d conf =
    text_eq d.field conf.field
    && (same_bound d.range.start (range_or_none conf.range).start
        && (same_bound d.range.end_ (range_or_none conf.range).end_
            && same_bound d.range.interval (range_or_none conf.range).interval))

-- By the table's time and range partitioning, and the configuration.
unfoldable pub specs_match :
    Option TimePartitioning → Option RangePartitioning → Option PartitionConfig → Bool
unfolding time_match range_match
specs_match none none none = true
specs_match none none (some conf) = false
specs_match none (some d) none = false
specs_match none (some d) (some conf) = range_match d conf
specs_match (some t) r none = false
specs_match (some t) r (some conf) = time_match t conf

unfoldable pub partitions_match : ExistingTable → Option PartitionConfig → Bool
unfolding specs_match
partitions_match table conf = specs_match table.time_partitioning table.range_partitioning conf

unfoldable pub texts_eq : List Text → List Text → Bool
texts_eq [] [] = true
texts_eq [] (t ∷ ts) = false
texts_eq (s ∷ ss) [] = false
texts_eq (s ∷ ss) (t ∷ ts) = text_eq s t && texts_eq ss ts

abbrev pub cluster_list : Cluster → Option (List Text)
cluster_list no_cluster = none
cluster_list (column c) = some (c ∷ [])
cluster_list (columns cs) = some cs

abbrev pub same_columns : Option (List Text) → Option (List Text) → Bool
same_columns none none = true
same_columns none (some cs) = false
same_columns (some cs) none = false
same_columns (some cs) (some ds) = texts_eq cs ds

unfoldable pub clusters_match : ExistingTable → Cluster → Bool
unfolding texts_eq
clusters_match table conf_cluster = same_columns table.clustering_fields (cluster_list conf_cluster)

-- The outer `none` is no relation, the inner one a table that BigQuery does not find.
unfoldable pub is_replaceable :
    Option (Option ExistingTable) → Option PartitionConfig → Cluster → Bool
unfolding partitions_match clusters_match
is_replaceable none conf_partition conf_cluster = true
is_replaceable (some none) conf_partition conf_cluster = true
is_replaceable (some (some table)) conf_partition conf_cluster =
    partitions_match table conf_partition && clusters_match table conf_cluster

pub texts_eq_iff : (ss ts : List Text) → (texts_eq ss ts ≡ true) ↔ (ss ≡ ts)
unfolding texts_eq
texts_eq_iff [] [] = (λ _. refl, λ _. refl)
texts_eq_iff [] (t ∷ ts) = (λ e. absurd (cc), λ e. absurd (cc))
texts_eq_iff (s ∷ ss) [] = (λ e. absurd (cc), λ e. absurd (cc))
texts_eq_iff (s ∷ ss) (t ∷ ts) = (
  λ e. ground (arith, e, text_eq_iff s t, texts_eq_iff ss ts),
  λ e. ground (arith, e, text_eq_iff s t, texts_eq_iff ss ts),
)

same_columns_iff : (a b : Option (List Text)) → (same_columns a b ≡ true) ↔ (a ≡ b)
same_columns_iff none none = (λ _. refl, λ _. refl)
same_columns_iff none (some cs) = (λ e. absurd (cc), λ e. absurd (cc))
same_columns_iff (some cs) none = (λ e. absurd (cc), λ e. absurd (cc))
same_columns_iff (some cs) (some ds) = (
  λ e. ap (λ (x : List Text). some x) ((texts_eq_iff cs ds).0 e),
  λ e. (texts_eq_iff cs ds).1 (cc),
)

match_by_column :
    (table : ExistingTable) (t : TimePartitioning) (c : ℕ) (name : Text) (conf : PartitionConfig)
    → table.time_partitioning ≡ some t
    → t.field ≡ some (c ∷ name)
    → conf.time_ingestion_partitioning ≡ false
    → partitions_match table (some conf) ≡ (
        text_eq (lower (c ∷ name)) (lower conf.field)
        && text_eq (lower t.partitioning_type) (lower conf.granularity))
unfolding partitions_match specs_match time_match
match_by_column table t c name conf e f g = ground (arith, e, f, g)

-- A table that is partitioned by a column of time, under a configuration that names a column, is
-- replaceable exactly where the two agree on the column and on the granularity, up to case, and the
-- clustering columns are the same in the same order.
pub is_replaceable-by_column :
    (table : ExistingTable) (t : TimePartitioning) (c : ℕ) (name : Text) (conf : PartitionConfig)
    (conf_cluster : Cluster)
    → table.time_partitioning ≡ some t
    → t.field ≡ some (c ∷ name)
    → conf.time_ingestion_partitioning ≡ false
    → (is_replaceable (some (some table)) (some conf) conf_cluster ≡ true) ↔ (
        (lower (c ∷ name) ≡ lower conf.field)
        × (lower t.partitioning_type ≡ lower conf.granularity)
        × (table.clustering_fields ≡ cluster_list conf_cluster))
unfolding is_replaceable clusters_match
is_replaceable-by_column table t c name conf conf_cluster e f g =
    let m = match_by_column table t c name conf e f g in
    let s = same_columns_iff table.clustering_fields (cluster_list conf_cluster) in
    let p = text_eq_iff (lower (c ∷ name)) (lower conf.field) in
    let q = text_eq_iff (lower t.partitioning_type) (lower conf.granularity) in
    (
      λ h.
          let (a, b) =
            and_split (partitions_match table (some conf)) (clusters_match table conf_cluster) h in
          let (x, y) = and_split (text_eq (lower (c ∷ name)) (lower conf.field)) _ (sym m ∙ a) in
          (p.0 x, q.0 y, s.0 b),
      λ (x, y, z). ground (arith, m, p.1 x, q.1 y, s.1 z),
    )

-- An existing table that is partitioned by ingestion time is replaceable under no configuration, not
-- even under one that asks for partitioning by ingestion time with the same granularity.
pub ingestion_time-not_replaceable :
    (table : ExistingTable) (t : TimePartitioning) (conf : Option PartitionConfig)
    (conf_cluster : Cluster)
    → table.time_partitioning ≡ some t
    → t.field ≡ none
    → is_replaceable (some (some table)) conf conf_cluster ≡ false
unfolding is_replaceable partitions_match specs_match time_match
ingestion_time-not_replaceable table t none conf_cluster e f = simp e refl
ingestion_time-not_replaceable table t (some conf) conf_cluster e f = ground (arith, e, f)
