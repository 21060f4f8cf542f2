-- ===== src/QueryParameters/Values.antt =====
-- query_parameters.py: the Python values that enter it, the types that are inferred for them, and
-- `build_query_parameters`. A value carries what the code reads of it: texts and times in full, the
-- others as Python prints them.
use dbt_bigquery_ext.Prelude.{
  ℕ, Bool, true, false, Option, none, some, List, [], ◌∷◌, Text, codes, upper, strip, starts_with,
  ◌||◌, not,
}
use dbt_bigquery_ext.Prelude.Checked.{Checked, good, bad, ◌>>=◌, ◌>>◌, require, each}
use dbt_bigquery_ext.Prelude.Dicts.{Dict, lookup}

pub record Date : Type 0 where
  pub year : ℕ
  pub month : ℕ
  pub day : ℕ

-- A `datetime`; `aware` says that it has a time zone.
pub record DateTime : Type 0 where
  pub date : Date
  pub hour : ℕ
  pub minute : ℕ
  pub second : ℕ
  pub microsecond : ℕ
  pub aware : Bool

pub data PyValue : Type 0 where
  null : PyValue
  boolean : Bool → PyValue
  int : Text → PyValue
  float : Text → PyValue
  bytes : Text → PyValue
  str : Text → PyValue
  datetime : DateTime → PyValue
  date : Date → PyValue
  time : Text → PyValue
  decimal : Text → PyValue
  sequence : Text → PyValue
  mapping : Text → PyValue
  object : Text → PyValue

-- Each `raise DbtRuntimeError`, without its message.
pub data ParamError : Type 0 where
  null_value complex_type array_value struct_value unknown_value no_such_key : ParamError

unfoldable pub normalize_type_name : Text → Text
normalize_type_name type_name = upper (strip type_name)

unfoldable pub is_complex_type : Text → Bool
unfolding normalize_type_name
is_complex_type type_name =
    starts_with (normalize_type_name type_name) (codes "ARRAY")
    || starts_with (normalize_type_name type_name) (codes "STRUCT")

unfoldable pub infer_scalar_type : PyValue → Checked ParamError Text
infer_scalar_type null = bad null_value
infer_scalar_type (boolean b) = good (codes "BOOL")
infer_scalar_type (int n) = good (codes "INT64")
infer_scalar_type (float x) = good (codes "FLOAT64")
infer_scalar_type (bytes b) = good (codes "BYTES")
infer_scalar_type (str s) = good (codes "STRING")
infer_scalar_type (datetime d) = good (codes "TIMESTAMP")
infer_scalar_type (date d) = good (codes "DATE")
infer_scalar_type (time t) = good (codes "TIME")
infer_scalar_type (decimal d) = good (codes "NUMERIC")
infer_scalar_type (sequence s) = bad array_value
infer_scalar_type (mapping m) = bad struct_value
infer_scalar_type (object o) = bad unknown_value

abbrev pub VariableSet : Type 0
VariableSet = Dict PyValue

-- The texts of `variable_set_types`, normalized: `{}` for `None`.
abbrev pub explicit_types : Option (Dict Text) → Dict Text
explicit_types none = []
explicit_types (some []) = []
explicit_types (some ((k, t) ∷ d)) = (k, normalize_type_name t) ∷ explicit_types (some d)

abbrev pub is_null : PyValue → Bool
is_null null = true
is_null _ = false

-- The type of one entry of the set, by the type that is declared for its name.
unfoldable pub resolve_as : Option Text → Text → PyValue → Checked ParamError (Text × Text)
unfolding infer_scalar_type
resolve_as (some type_name) key value = do
  require (not (is_complex_type type_name)) complex_type
  require (not (is_null value)) null_value
  good (key, type_name)
resolve_as none key value = do
  require (not (is_null value)) null_value
  type_name ← infer_scalar_type value
  good (key, type_name)

unfoldable pub resolve_type : Dict Text → Text × PyValue → Checked ParamError (Text × Text)
unfolding resolve_as
resolve_type explicit (key, value) = resolve_as (lookup key explicit) key value

unfoldable pub resolve_parameter_types :
    VariableSet → Option (Dict Text) → Checked ParamError (Dict Text)
unfolding resolve_type
resolve_parameter_types variable_set variable_set_types =
    each (resolve_type (explicit_types variable_set_types)) variable_set

-- A `ScalarQueryParameter`.
pub record Parameter : Type 0 where
  pub name : Text
  pub type_name : Text
  pub value : PyValue

-- `_build_parameter`: the two prefixes are refused, and all else is a scalar.
unfoldable pub build_parameter : Text → Text → PyValue → Checked ParamError Parameter
build_parameter name type_name value = do
  require (not (is_complex_type type_name)) complex_type
  good (record { name = name; type_name = normalize_type_name type_name; value = value })

-- `types[key]`, and the parameter of that type.
unfoldable pub build_as : Option Text → Text → PyValue → Checked ParamError Parameter
unfolding build_parameter
build_as none key value = bad no_such_key
build_as (some type_name) key value = do
  require (not (is_complex_type type_name)) complex_type
  build_parameter key type_name value

unfoldable pub build_entry : Dict Text → Text × PyValue → Checked ParamError Parameter
unfolding build_as
build_entry types (key, value) = build_as (lookup key types) key value

unfoldable pub build_query_parameters :
    VariableSet → Option (Dict Text) → Checked ParamError (List Parameter)
unfolding resolve_parameter_types build_entry
build_query_parameters variable_set variable_set_types = do
  types ← resolve_parameter_types variable_set variable_set_types
  each (build_entry types) variable_set
