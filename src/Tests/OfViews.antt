-- ===== src/Tests/OfViews.antt =====
-- The theorem on changesets of materialized views, where only the order of the columns differs, and how
-- partitions are rendered.
use dbt_bigquery_ext.Prelude.{
  ◌+◌, ◌≡◌, ◌↔◌, refl, Bool, true, false, ◌==◌, ℕ, none, some, List, [], ◌∷◌, Text, codes, text_eq,
}
use dbt_bigquery_ext.Adapter.Replaceable.{Bound, PartitionConfig}
use dbt_bigquery_ext.Adapter.ViewChanges.{
  MaterializedViewConfig, SameColumns, same_partition, materialized_view_config_changeset,
  is_refreshed, changeset_iff,
}
use dbt_bigquery_ext.Adapter.Partition.{render, render_wrapped, render_event_time_filtered}

abbrev by_number : PartitionConfig
by_number = record {
  field = codes "n";
  data_type = codes "int64";
  granularity = codes "day";
  range = some (record {
    start = some (Bound.pos 0);
    end_ = some (Bound.pos 9);
    interval = some (Bound.pos 3);
  });
  time_ingestion_partitioning = false;
  copy_partitions = false;
}

abbrev by_hour : PartitionConfig
by_hour = record by_number {
  data_type = codes "timestamp";
  granularity = codes "hour";
  range = none;
}

abbrev by_date : PartitionConfig
by_date = record by_number { data_type = codes "date"; range = none }

abbrev digit : Bound → Text
digit (Bound.pos n) = (48 + n) ∷ []
digit (Bound.negsuc n) = codes "-"

hours : render by_hour (some (codes "t")) ≡ codes "timestamp_trunc(t.n, hour)"
unfolding render text_eq
hours = refl

dates : render_wrapped digit by_date none ≡ some (codes "date(n)")
unfolding render_wrapped text_eq
dates = refl

numbers : render_wrapped digit by_number none ≡ some (codes "(n - MOD(n - 0, 3))")
unfolding render_wrapped text_eq
numbers = refl

since :
    render_event_time_filtered (record { field_name = codes "at"; start = codes "2026"; end_ = [] })
    ≡ codes "cast(at as timestamp) >= '2026'"
unfolding render_event_time_filtered
since = refl

abbrev view : List Text → MaterializedViewConfig ℕ
view columns = record { options = 3; partition = some by_date; cluster = some columns }

abbrev same_number : ℕ → ℕ → Bool
same_number n m = n == m

abbrev a_b : List Text
a_b = codes "a" ∷ codes "b" ∷ []

abbrev b_a : List Text
b_a = codes "b" ∷ codes "a" ∷ []

changeset_iff_example :
    ((materialized_view_config_changeset same_number (view a_b) (view b_a) ≡ none) ↔ (
      (same_number 3 3 ≡ true)
      × (same_partition (some by_date) (some by_date) ≡ true)
      × SameColumns (some a_b) (some b_a)))
    × ((is_refreshed (materialized_view_config_changeset same_number (view a_b) (view b_a)) ≡ false)
        ↔ ((same_partition (some by_date) (some by_date) ≡ true)
            × SameColumns (some a_b) (some b_a)))
changeset_iff_example = changeset_iff same_number (view a_b) (view b_a)
