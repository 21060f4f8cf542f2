-- ===== src/QueryParameters/Sources.antt =====
-- query_parameters.py: where the variable sets of a batch come from. `validate_variable_set_source`,
-- `validate_variable_set_sql`, `render_variable_set_relation`, `bq_field_type_to_param_type` and
-- `variable_sets_from_bq_rows`.
use dbt_bigquery_ext.Prelude.{
  ℕ, ◌+◌, Bool, true, false, Option, none, some, List, [], ◌∷◌, ◌++◌, Text, codes, text_eq, upper,
  strip, starts_with, ltb, ◌||◌, ◌&&◌, not, if◌then◌else◌,
}
use dbt_bigquery_ext.Prelude.Checked.{Checked, good, bad, ◌>>=◌, ◌>>◌, require, each}
use dbt_bigquery_ext.Prelude.Dicts.{Dict, lookup, insert}
use dbt_bigquery_ext.QueryParameters.Values.{PyValue, VariableSet, is_null}

-- Each `raise DbtRuntimeError`, without its message.
pub data SourceError : Type 0 where
  several_sources types_not_allowed : SourceError
  sql_not_text empty_sql null_relation empty_relation : SourceError
  null_field_type complex_column unsupported_column : SourceError
  no_schema nameless_column repeated_column failed_read null_cell : SourceError

abbrev count : Bool → ℕ
count true = 1
count false = 0

-- Which of the arguments are given (are not `None`).
pub record Given : Type 0 where
  pub values : Bool
  pub relation : Bool
  pub types : Bool
  pub sql : Bool

unfoldable pub validate_variable_set_source : Given → Checked SourceError (Unit {0})
validate_variable_set_source g = do
  require (not (ltb 1 (count g.values + (count g.relation + count g.sql)))) several_sources
  require (not ((g.relation || g.sql) && g.types)) types_not_allowed

-- A text that is not empty once stripped, or the error.
abbrev pub nonempty_or : SourceError → Text → Checked SourceError Text
nonempty_or e [] = bad e
nonempty_or e (c ∷ s) = good (c ∷ s)

-- `none` is a value that is no `str`.
unfoldable pub validate_variable_set_sql : Option Text → Checked SourceError Text
validate_variable_set_sql none = bad sql_not_text
validate_variable_set_sql (some sql) = nonempty_or empty_sql (strip sql)

-- A relation enters as the text that it renders to (`render()` where it has it, else `str`).
unfoldable pub render_variable_set_relation : Option Text → Checked SourceError Text
render_variable_set_relation none = bad null_relation
render_variable_set_relation (some rendered) = nonempty_or empty_relation (strip rendered)

-- `_BQ_FIELD_TYPE_TO_PARAM`.
abbrev pub field_types : Dict Text
field_types =
    (codes "STRING", codes "STRING")
    ∷ (codes "BYTES", codes "BYTES")
    ∷ (codes "INTEGER", codes "INT64")
    ∷ (codes "INT64", codes "INT64")
    ∷ (codes "FLOAT", codes "FLOAT64")
    ∷ (codes "FLOAT64", codes "FLOAT64")
    ∷ (codes "NUMERIC", codes "NUMERIC")
    ∷ (codes "BIGNUMERIC", codes "BIGNUMERIC")
    ∷ (codes "BOOLEAN", codes "BOOL")
    ∷ (codes "BOOL", codes "BOOL")
    ∷ (codes "DATE", codes "DATE")
    ∷ (codes "DATETIME", codes "DATETIME")
    ∷ (codes "TIME", codes "TIME")
    ∷ (codes "TIMESTAMP", codes "TIMESTAMP")
    ∷ (codes "GEOGRAPHY", codes "GEOGRAPHY")
    ∷ (codes "JSON", codes "JSON")
    ∷ (codes "INTERVAL", codes "INTERVAL")
    ∷ []

abbrev pub some_or : SourceError → Option Text → Checked SourceError Text
some_or e none = bad e
some_or e (some t) = good t

unfoldable pub bq_field_type_to_param_type : Option Text → Checked SourceError Text
bq_field_type_to_param_type none = bad null_field_type
bq_field_type_to_param_type (some field_type) =
    let normalized = upper (strip field_type) in
    if (starts_with normalized (codes "ARRAY") || starts_with normalized (codes "STRUCT"))
      || (text_eq normalized (codes "RECORD") || text_eq normalized (codes "STRUCT"))
    then bad complex_column
    else some_or unsupported_column (lookup normalized field_types)

-- A `SchemaField`, by the attributes that are read.
pub record ResultField : Type 0 where
  pub name : Option Text
  pub field_type : Option Text
  pub mode : Option Text

abbrev pub is_repeated : Option Text → Bool
is_repeated none = false
is_repeated (some m) = text_eq (upper m) (codes "REPEATED")

abbrev pub name_or : Option Text → Checked SourceError Text
name_or none = bad nameless_column
name_or (some []) = bad nameless_column
name_or (some (c ∷ s)) = good (c ∷ s)

-- The loop over the schema: the types by column, and the columns in order.
unfoldable pub read_schema :
    List ResultField → Dict Text → List Text → Checked SourceError (Dict Text × List Text)
read_schema [] types columns = good (types, columns)
read_schema (f ∷ fs) types columns = do
  name ← name_or f.name
  require (not (is_repeated f.mode)) repeated_column
  type_name ← bq_field_type_to_param_type f.field_type
  read_schema fs (insert name type_name types) (columns ++ name ∷ [])

-- A row answers for each column with its value, or fails to.
abbrev pub Row : Type 0
Row = Text → Option PyValue

-- One cell that was read, and is not NULL.
abbrev pub cell_of : Option PyValue → Checked SourceError PyValue
cell_of none = bad failed_read
cell_of (some value) = if is_null value then bad null_cell else good value

unfoldable pub read_row : List Text → Row → VariableSet → Checked SourceError VariableSet
read_row [] row entry = good entry
read_row (col ∷ cols) row entry = do
  value ← cell_of (row col)
  read_row cols row (insert col value entry)

abbrev pub fields_or : Option (List ResultField) → Checked SourceError (List ResultField)
fields_or none = bad no_schema
fields_or (some fs) = good fs

unfoldable pub variable_sets_from_bq_rows :
    List Row → Option (List ResultField) → Checked SourceError (List VariableSet × Dict Text)
unfolding read_schema read_row bq_field_type_to_param_type
variable_sets_from_bq_rows rows schema = do
  fields ← fields_or schema
  read ← read_schema fields [] []
  values ← each (λ row. read_row read.1 row []) rows
  good (values, read.0)
