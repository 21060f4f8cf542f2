-- ===== src/Columns/Schema.antt =====
-- column.py `BigQueryColumn`: the type of a column as DDL has it, its leaves, and the tests on its type;
-- utility.py `bool_setting`.
use dbt_bigquery_ext.Prelude.{
  Bool, true, false, ◌&&◌, Option, none, some, List, [], ◌∷◌, ◌++◌, Text, codes, text_eq, upper,
  lower, join, if◌then◌else◌,
}
use dbt_bigquery_ext.Prelude.Checked.{Checked, good, bad}
use dbt_bigquery_ext.Columns.Fields.{Field, Fields, field, nil, more, name_of}

-- A column has a field's name, type and subfields; what the field has beside them is the mode.
abbrev pub dtype_of : Field → Text
dtype_of (field name dtype mode fields) = dtype

unfoldable pub quoted_column : Field → Text
quoted_column c = codes "`" ++ (name_of c ++ codes "`")

unfoldable pub literal : Field → Text → Text
literal c value = codes "cast(" ++ (value ++ (codes " as " ++ (dtype_of c ++ codes ")")))

abbrev struct_or_dtype : Text → List Text → Text
struct_or_dtype dtype subcols =
    if text_eq (upper dtype) (codes "RECORD")
    then codes "STRUCT<" ++ (join (codes ", ") subcols ++ codes ">")
    else dtype

abbrev in_mode : Text → Text → Text
in_mode mode t =
    if text_eq (upper mode) (codes "REPEATED") then codes "ARRAY<" ++ (t ++ codes ">") else t

unfoldable mutual
  pub column_type : Field → Text
  column_type (field name dtype mode fields) =
      in_mode mode (struct_or_dtype dtype (subcolumns fields))

  pub subcolumns : Fields → List Text
  subcolumns nil = []
  subcolumns (more c cs) = (quoted_column c ++ (codes " " ++ column_type c)) ∷ subcolumns cs

-- The leaves, each under the names on its way.
unfoldable mutual
  pub flatten_recursive : List Text → Field → List Field
  flatten_recursive prefix (field name dtype mode nil) =
      field (join (codes ".") (prefix ++ name ∷ [])) dtype mode nil ∷ []
  flatten_recursive prefix (field name dtype mode (more c cs)) =
      flatten_recursive (prefix ++ name ∷ []) c ++ flatten_fields (prefix ++ name ∷ []) cs

  pub flatten_fields : List Text → Fields → List Field
  flatten_fields prefix nil = []
  flatten_fields prefix (more c cs) = flatten_recursive prefix c ++ flatten_fields prefix cs

unfoldable pub flatten : Field → List Field
unfolding flatten_recursive
flatten c = flatten_recursive [] c

abbrev is_dtype : Text → Field → Bool
is_dtype t c = text_eq (lower (dtype_of c)) t

unfoldable pub is_string : Field → Bool
is_string = is_dtype (codes "string")

unfoldable pub is_integer : Field → Bool
is_integer = is_dtype (codes "int64")

unfoldable pub is_numeric : Field → Bool
is_numeric = is_dtype (codes "numeric")

unfoldable pub is_float : Field → Bool
is_float = is_dtype (codes "float64")

unfoldable pub can_expand_to : Field → Field → Bool
unfolding is_string
can_expand_to c other = is_string c && is_string other

-- A setting of a model: None, a bool, a text or a value of another type.
pub data Setting : Type 0 where
  none_given other_given : Setting
  bool_given : Bool → Setting
  text_given : Text → Setting

pub data SettingError : Type 0 where
  value_error type_error : SettingError

unfoldable pub bool_setting : Setting → Checked SettingError (Option Bool)
bool_setting none_given = good none
bool_setting (bool_given b) = good (some b)
bool_setting (text_given t) =
    if text_eq (lower t) (codes "true")
    then good (some true)
    else if text_eq (lower t) (codes "false")
    then good (some false)
    else bad value_error
bool_setting other_given = bad type_error
