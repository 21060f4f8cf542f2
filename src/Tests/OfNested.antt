-- ===== src/Tests/OfNested.antt =====
-- The theorems on nested column types, at a column with two fields, one of them a struct.
use dbt_bigquery_ext.Prelude.{
  ◌≡◌, refl, inr, suc, some, none, List, [], ◌∷◌, Text, codes, length, lower, strip, starts_with,
  split, join, text_eq, arith,
}
use dbt_bigquery_ext.Prelude.Checked.{good, bad}
use dbt_bigquery_ext.Columns.StructType.{StructField, parse_struct_fields}
use dbt_bigquery_ext.Columns.Nested.{
  Members, Column, untyped, typed, nested, no_members, member, attribute_error, wrap_struct,
  parent_words, get_member, update_nested_column_data_types, get_nested_column_data_types,
  format_nested_data_type,
}
use dbt_bigquery_ext.Columns.Balanced.{balanced}
use dbt_bigquery_ext.Columns.RoundTrip.{
  IsProper, Prints, parse_struct_fields-format_nested_data_type,
}
use dbt_bigquery_ext.Columns.Select.{get_struct_select_expression, struct_expression}
use dbt_bigquery_ext.Columns.Selected.{get_struct_select_expression-ends}
use dbt_bigquery_ext.Columns.InOrder.{IsFlat, expressions, get_struct_select_expression-in_order}

abbrev parts : Members
parts = member (codes "zip") (typed (codes "numeric(10, 2)")) (
    member (codes "city")
      (nested
        (member (codes "name") (typed (codes "string")) (member (codes "code") untyped no_members)))
      no_members)

abbrev printed_parts : Text
printed_parts = codes "struct<zip numeric(10, 2), city struct<name string, code>>"

format_parts : format_nested_data_type (nested parts) ≡ good (some printed_parts)
unfolding format_nested_data_type parent_words get_member text_eq wrap_struct join strip
format_parts = refl

parse_parts :
    parse_struct_fields printed_parts
    ≡ some (
        record { name = codes "zip"; data_type = codes "numeric(10, 2)" }
        ∷ record { name = codes "city"; data_type = codes "struct<name string, code>" }
        ∷ [])
unfolding parse_struct_fields starts_with lower strip
parse_parts = refl

select_parts :
    get_struct_select_expression 100 (codes "a") printed_parts
    ≡ some (
        codes
          "IF(a IS NULL, NULL, STRUCT(a.zip AS zip, IF(a.city IS NULL, NULL, STRUCT(a.city.name AS name, a.city.code AS code)) AS city)) AS a")
unfolding get_struct_select_expression parse_struct_fields starts_with lower strip join
select_parts = refl

not_null :
    parse_struct_fields (codes "struct<x INT64> not null")
    ≡ some (record { name = codes "x"; data_type = codes "INT64" } ∷ [])
unfolding parse_struct_fields starts_with lower strip
not_null = refl

unbalanced : parse_struct_fields (codes "struct<x INT64>>") ≡ none
unfolding parse_struct_fields starts_with lower strip
unbalanced = refl

abbrev column_of : Text → Text → Column
column_of name t = record { name = name; data_type = some t; extra = none }

abbrev no_type_column : Text → Column
no_type_column name = record { name = name; data_type = none; extra = none }

gathered :
    get_nested_column_data_types
      (column_of (codes "b") (codes "array")
        ∷ column_of (codes "b.c") (codes "string")
        ∷ column_of (codes "b.d.e") (codes "int64")
        ∷ [])
      ((codes "b", codes "not null") ∷ [])
    ≡ good
        (column_of (codes "b") (codes "array<struct<c string, d struct<e int64>>> not null") ∷ [])
unfolding get_nested_column_data_types split parent_words get_member text_eq wrap_struct join strip
    lower update_nested_column_data_types format_nested_data_type
gathered = refl

-- A parent with no type after its nested columns has no text to split.
parent_after :
    get_nested_column_data_types
      (column_of (codes "b.c") (codes "string") ∷ no_type_column (codes "b") ∷ [])
      []
    ≡ bad attribute_error
unfolding get_nested_column_data_types split parent_words get_member text_eq wrap_struct join strip
    lower update_nested_column_data_types format_nested_data_type
parent_after = refl

parts-IsProper : IsProper parts
unfolding IsProper balanced text_eq
parts-IsProper = (
  (refl, (refl, (refl, tt))),
  refl,
  inr ((refl, refl), refl),
  (
    (refl, (refl, (refl, (refl, tt)))),
    refl,
    (
      (refl, (refl, (refl, (refl, tt)))),
      refl,
      inr ((refl, refl), refl),
      ((refl, (refl, (refl, (refl, tt)))), refl, tt, tt),
    ),
    tt,
  ),
)

parts-IsFlat : IsFlat parts
unfolding IsFlat parse_struct_fields starts_with lower strip
parts-IsFlat = (refl, ((refl, (tt, tt)), tt))

parse_struct_fields-format_nested_data_type_example :
    (s : Text) × (fs : List StructField) × (format_nested_data_type (nested parts) ≡ good (some s))
    × (parse_struct_fields s ≡ some fs)
    × Prints parts fs
parse_struct_fields-format_nested_data_type_example =
    parse_struct_fields-format_nested_data_type parts parts-IsProper

get_struct_select_expression-ends_example :
    (s : Text) × (get_struct_select_expression 100 (codes "a") printed_parts ≡ some s)
    × (get_struct_select_expression (suc (length printed_parts)) (codes "a") printed_parts ≡ some s)
get_struct_select_expression-ends_example =
    get_struct_select_expression-ends (codes "a") printed_parts 100 (omega arith)

get_struct_select_expression-in_order_example :
    (s : Text) × (format_nested_data_type (nested parts) ≡ good (some s))
    × (get_struct_select_expression (suc (length s)) (codes "a") s
        ≡ some (struct_expression (codes "a") (codes "a") (expressions (codes "a") parts)))
get_struct_select_expression-in_order_example =
    get_struct_select_expression-in_order (codes "a") parts parts-IsProper parts-IsFlat
