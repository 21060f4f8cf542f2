-- ===== src/Columns/Select.antt =====
-- column.py `get_struct_select_expression` and `_build_struct_field_expressions`: a SELECT expression
-- that names the fields of a struct in the order of its type.
use dbt_bigquery_ext.Prelude.{
  ℕ, zero, suc, Option, none, some, List, [], ◌∷◌, ◌++◌, Text, codes, join,
}
use dbt_bigquery_ext.Columns.StructType.{StructField, parse_struct_fields}

abbrev pub path_of : Text → Text → Text
path_of parent name = parent ++ (codes "." ++ name)

abbrev pub as_name : Text → Text → Text
as_name expression name = expression ++ (codes " AS " ++ name)

-- Around the expressions of a struct's fields, so that a NULL struct stays NULL.
abbrev pub struct_expression : Text → Text → List Text → Text
struct_expression path name fields =
    as_name
      (codes "IF("
        ++ (path ++ (codes " IS NULL, NULL, STRUCT(" ++ (join (codes ", ") fields ++ codes "))"))))
      name

abbrev pub struct_or_none : Text → Text → Option (List Text) → Option Text
struct_or_none path name none = none
struct_or_none path name (some fields) = some (struct_expression path name fields)

-- One field, by the fields that its type is parsed to and the recursion for them.
abbrev pub field_expression :
    (Text → List StructField → Option (List Text))
    → Text
    → Text
    → Option (List StructField)
    → Option Text
field_expression build parent name none = some (as_name (path_of parent name) name)
field_expression build parent name (some fields) =
    struct_or_none (path_of parent name) name (build (path_of parent name) fields)

abbrev pub add_expression : Option Text → Option (List Text) → Option (List Text)
add_expression none es = none
add_expression (some e) none = none
add_expression (some e) (some es) = some (e ∷ es)

-- On fuel for the depth of the recursion; `none` means that it ran out.
unfoldable pub build_struct_field_expressions : ℕ → Text → List StructField → Option (List Text)
build_struct_field_expressions zero parent fields = none
build_struct_field_expressions (suc fuel) parent [] = some []
build_struct_field_expressions (suc fuel) parent (f ∷ fs) =
    add_expression
      (field_expression (build_struct_field_expressions fuel) parent f.name
        (parse_struct_fields f.data_type))
      (build_struct_field_expressions (suc fuel) parent fs)

abbrev pub column_expression : ℕ → Text → Option (List StructField) → Option Text
column_expression fuel column_name none = some column_name
column_expression fuel column_name (some fields) =
    struct_or_none column_name column_name (build_struct_field_expressions fuel column_name fields)

unfoldable pub get_struct_select_expression : ℕ → Text → Text → Option Text
unfolding build_struct_field_expressions
get_struct_select_expression fuel column_name data_type =
    column_expression fuel column_name (parse_struct_fields data_type)
