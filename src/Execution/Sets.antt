-- ===== src/Execution/Sets.antt =====
-- connections.py `resolve_execute_ext_variable_sets` and the two ways to load sets from BigQuery;
-- query_parameters.py `validate_variable_set_values`.
use dbt_bigquery_ext.Prelude.{
  Option, none, some, List, [], ◌++◌, Text, codes, is_none, not, Exn, Result, done, raised,
}
use dbt_bigquery_ext.Prelude.Checked.{Checked, good, bad, ◌>>=◌, ◌>>◌, each}
use dbt_bigquery_ext.Prelude.Dicts.{Dict}
use dbt_bigquery_ext.QueryParameters.Values.{VariableSet}
use dbt_bigquery_ext.QueryParameters.Sources.{
  SourceError, Given, Row, ResultField, validate_variable_set_source, validate_variable_set_sql,
  render_variable_set_relation, variable_sets_from_bq_rows,
}
use dbt_bigquery_ext.QueryParameters.Overwrite.{Entry, mapping, other_value}

-- Why the batch did not start.
pub data SetsError : Type 0 where
  source : SourceError → SetsError
  not_a_list not_a_dict : SetsError
  query_failed : Exn → SetsError

-- The argument `variable_set_values`, where it is given: a sequence, or something else.
pub data Values : Type 0 where
  sequence : List Entry → Values
  no_sequence : Values

abbrev set_of : Entry → Checked SetsError VariableSet
set_of (mapping s) = good s
set_of other_value = bad not_a_dict

unfoldable pub validate_variable_set_values : Option Values → Checked SetsError (List VariableSet)
validate_variable_set_values none = good []
validate_variable_set_values (some no_sequence) = bad not_a_list
validate_variable_set_values (some (sequence es)) = each set_of es

abbrev pub from_source : {A : Type 0} → Checked SourceError A → Checked SetsError A
from_source (good a) = good a
from_source (bad e) = bad (source e)

abbrev pub from_query : {A : Type 0} → Result A → Checked SetsError A
from_query (done a) = good a
from_query (raised e) = bad (query_failed e)

-- The rows of a query, and its result schema where it has one.
pub record Table : Type 0 where
  pub rows : List Row
  pub schema : Option (List ResultField)

-- The outer `none` is `None`; a relation is the text that it renders to, and the inner `none` is a
-- value that is no `str`.
pub record SetArgs : Type 0 where
  pub values : Option Values
  pub types : Option (Dict Text)
  pub relation : Option Text
  pub sql : Option (Option Text)

abbrev given : SetArgs → Given
given a = record {
  values = not (is_none a.values);
  relation = not (is_none a.relation);
  types = not (is_none a.types);
  sql = not (is_none a.sql);
}

-- `raw_execute` of the statement that loads the sets is a parameter.
module _ (select : Text → Result Table) where
  unfoldable pub load_variable_sets : Text → Checked SetsError (List VariableSet × Dict Text)
  unfolding variable_sets_from_bq_rows
  load_variable_sets statement = do
    table ← from_query (select statement)
    from_source (variable_sets_from_bq_rows table.rows table.schema)

  unfoldable pub load_variable_sets_from_relation :
      Option Text → Checked SetsError (List VariableSet × Dict Text)
  unfolding load_variable_sets
  load_variable_sets_from_relation relation = do
    rendered ← from_source (render_variable_set_relation relation)
    load_variable_sets (codes "select * from " ++ rendered)

  unfoldable pub load_variable_sets_from_sql :
      Option Text → Checked SetsError (List VariableSet × Dict Text)
  unfolding load_variable_sets
  load_variable_sets_from_sql sql = do
    rendered ← from_source (validate_variable_set_sql sql)
    load_variable_sets rendered

  -- The sets and their types; `none` for the sets is a plain `execute`.
  abbrev pub Resolved : Type 0
  Resolved = Option (List VariableSet) × Option (Dict Text)

  abbrev loaded : List VariableSet × Dict Text → Resolved
  loaded (values, types) = (some values, some types)

  -- What a call with no relation and no SQL gives.
  abbrev explicit_sets : Option Values → Option (Dict Text) → Checked SetsError Resolved
  explicit_sets none types = good (none, none)
  explicit_sets (some v) types = do
    values ← validate_variable_set_values (some v)
    good (some values, types)

  unfoldable pub resolve_sets :
      Option Text
      → Option (Option Text)
      → Option Values
      → Option (Dict Text)
      → Checked SetsError Resolved
  unfolding load_variable_sets_from_relation load_variable_sets_from_sql
      validate_variable_set_values
  resolve_sets (some relation) sql values types = do
    out ← load_variable_sets_from_relation (some relation)
    good (loaded out)
  resolve_sets none (some sql) values types = do
    out ← load_variable_sets_from_sql sql
    good (loaded out)
  resolve_sets none none values types = explicit_sets values types

  unfoldable pub resolve_execute_ext_variable_sets : SetArgs → Checked SetsError Resolved
  unfolding resolve_sets
  resolve_execute_ext_variable_sets a = do
    from_source (validate_variable_set_source (given a))
    resolve_sets a.relation a.sql a.values a.types
