-- ===== src/Adapter/Partition.antt =====
-- relation_configs/_partition.py, `PartitionConfig` and how it renders, and relation.py `render` and
-- `_render_event_time_filtered`.
use dbt_bigquery_ext.Prelude.{
  Bool, ◌&&◌, ◌||◌, not, Option, none, some, List, [], ◌∷◌, ◌++◌, select, Text, codes, text_eq,
  upper, if◌then◌else◌,
}
use dbt_bigquery_ext.Adapter.Replaceable.{Bound, Range, PartitionConfig, bound_eq}

abbrev is_type : Text → PartitionConfig → Bool
is_type t p = text_eq p.data_type t

unfoldable pub data_type_for_partition : PartitionConfig → Text
data_type_for_partition p =
    if not p.time_ingestion_partitioning
    then p.data_type
    else if is_type (codes "date") p
    then codes "date"
    else codes "timestamp"

-- By the columns' names.
unfoldable pub reject_partition_field_column : PartitionConfig → List Text → List Text
reject_partition_field_column p columns =
    select (λ c. not (text_eq (upper c) (upper p.field))) columns

unfoldable pub data_type_should_be_truncated : PartitionConfig → Bool
data_type_should_be_truncated p =
    not (
      is_type (codes "int64") p
      || (is_type (codes "date") p && text_eq p.granularity (codes "day")))

unfoldable pub time_partitioning_field : PartitionConfig → Text
time_partitioning_field p =
    if is_type (codes "date") p then codes "_PARTITIONDATE" else codes "_PARTITIONTIME"

unfoldable pub insertable_time_partitioning_field : PartitionConfig → Text
insertable_time_partitioning_field p = codes "_PARTITIONTIME"

-- An alias that is not empty.
abbrev with_alias : Option Text → Text → Text
with_alias none column = column
with_alias (some []) column = column
with_alias (some (c ∷ s)) column = (c ∷ s) ++ (codes "." ++ column)

unfoldable pub render : PartitionConfig → Option Text → Text
unfolding time_partitioning_field data_type_should_be_truncated
render p alias =
    let column =
      with_alias alias
        (if not p.time_ingestion_partitioning then p.field else time_partitioning_field p) in
    if data_type_should_be_truncated p
    then p.data_type
      ++ (codes "_trunc(" ++ (column ++ (codes ", " ++ (p.granularity ++ codes ")"))))
    else column

-- The partition's start, by the printed bounds of the range.
abbrev range_wrapped : (Bound → Text) → Text → Bound → Bound → Text
range_wrapped print column start interval =
    codes "("
    ++ (column
        ++ (codes " - MOD("
            ++ (column
                ++ (codes " - "
                    ++ (print start ++ (codes ", " ++ (print interval ++ codes "))")))))))

abbrev is_time_type : PartitionConfig → Bool
is_time_type p =
    is_type (codes "date") p || (is_type (codes "timestamp") p || is_type (codes "datetime") p)

abbrev time_wrapped : PartitionConfig → Text → Text
time_wrapped p rendered =
    if is_time_type p
      && (not (data_type_should_be_truncated p)
          && not (p.time_ingestion_partitioning && is_type (codes "date") p))
    then p.data_type ++ (codes "(" ++ (rendered ++ codes ")"))
    else rendered

-- An interval of 1 needs no wrapping. `none` is a KeyError: the range lacks a bound that is read.
abbrev int_wrapped :
    (Bound → Text) → PartitionConfig → Option Bound → Option Bound → Text → Option Text
int_wrapped print p start none rendered = none
int_wrapped print p none (some i) rendered =
    if bound_eq i (Bound.pos 1) then some (time_wrapped p rendered) else none
int_wrapped print p (some b) (some i) rendered =
    if bound_eq i (Bound.pos 1)
    then some (time_wrapped p rendered)
    else some (range_wrapped print rendered b i)

abbrev wrapped_by : (Bound → Text) → PartitionConfig → Option Range → Text → Option Text
wrapped_by print p none rendered = some (time_wrapped p rendered)
wrapped_by print p (some r) rendered =
    if is_type (codes "int64") p
    then int_wrapped print p r.start r.interval rendered
    else some (time_wrapped p rendered)

unfoldable pub render_wrapped : (Bound → Text) → PartitionConfig → Option Text → Option Text
unfolding render
render_wrapped print p alias = wrapped_by print p p.range (render p alias)

-- The two bounds of an event-time filter, printed; an empty one is none.
pub record EventTimeFilter : Type 0 where
  pub field_name : Text
  pub start : Text
  pub end_ : Text

abbrev as_timestamp : Text → Text
as_timestamp name = codes "cast(" ++ (name ++ codes " as timestamp)")

abbrev from_start : EventTimeFilter → Text
from_start f = as_timestamp f.field_name ++ (codes " >= '" ++ (f.start ++ codes "'"))

abbrev to_end : EventTimeFilter → Text
to_end f = as_timestamp f.field_name ++ (codes " < '" ++ (f.end_ ++ codes "'"))

abbrev filtered_by : EventTimeFilter → Text → Text → Text
filtered_by f [] [] = []
filtered_by f (c ∷ s) [] = from_start f
filtered_by f [] (d ∷ t) = to_end f
filtered_by f (c ∷ s) (d ∷ t) = from_start f ++ (codes " and " ++ to_end f)

unfoldable pub render_event_time_filtered : EventTimeFilter → Text
render_event_time_filtered f = filtered_by f f.start f.end_

-- The name as dbt renders it, between two copies of the marker where there is one.
abbrev pub marked : Option Text → Text → Text
marked none rendered = rendered
marked (some []) rendered = rendered
marked (some (c ∷ s)) rendered =
    let token = codes "/* <" ++ ((c ∷ s) ++ codes "> */") in token ++ (rendered ++ token)
