-- ===== src/QueryParameters/Build.antt =====
-- query_parameters.py `build_query_parameters`: what it builds, and when.
use dbt_bigquery_ext.Prelude.{
  ◌≡◌, false, Option, List, [], ◌∷◌, map, arith, Text, codes, starts_with, All,
}
use dbt_bigquery_ext.Prelude.Checked.{Checked, good, each, each-map, each-All, >>=-eq-good}
use dbt_bigquery_ext.Prelude.Dicts.{Dict}
use dbt_bigquery_ext.QueryParameters.Values.{
  PyValue, ParamError, VariableSet, Parameter, is_complex_type, explicit_types, is_null,
  resolve_type, resolve_parameter_types, build_entry, build_query_parameters,
}

abbrev pub name_of : Text × PyValue → Text
name_of (k, v) = k

abbrev pub value_of : Text × PyValue → PyValue
value_of (k, v) = v

-- What every parameter meets: it is a scalar by its type, and stands for its entry.
abbrev pub IsScalar : Parameter → Type 0
IsScalar p =
    (starts_with p.type_name (codes "ARRAY") ≡ false)
    × (starts_with p.type_name (codes "STRUCT") ≡ false)

entry_lem :
    (types : Dict Text) (x : Text × PyValue) (p : Parameter)
    → build_entry types x ≡ good p
    → (p.name ≡ name_of x) × (p.value ≡ value_of x) × IsScalar p
unfolding build_entry is_complex_type
entry_lem types (k, v) p h = ground arith

resolved_value :
    (types : Dict Text) (x : Text × PyValue) (y : Text × Text)
    → resolve_type types x ≡ good y
    → is_null (value_of x) ≡ false
unfolding resolve_type
resolved_value types (k, v) y h = ground arith

each-source :
    (P : Text × PyValue → Type 0) (f : Text × PyValue → Checked ParamError (Text × Text))
    → ((x : Text × PyValue) (y : Text × Text) → f x ≡ good y → P x)
    → (xs : VariableSet) {ys : Dict Text} → each f xs ≡ good ys
    → All P xs
each-source P f h [] e = tt
each-source P f h (x ∷ xs) e =
    let (y, e1, h1) = >>=-eq-good (f x) _ e in
    let (zs, e2, h2) = >>=-eq-good (each f xs) _ h1 in (h x y e1, each-source P f h xs e2)

-- The parameters that are built are one for each entry, in the order of the entries and with their
-- names and values; each is a scalar by its type, and no value is null.
pub build_query_parameters_lem :
    (variable_set : VariableSet) (types : Option (Dict Text)) {ps : List Parameter}
    → build_query_parameters variable_set types ≡ good ps
    → (map (λ (p : Parameter). p.name) ps ≡ map name_of variable_set)
      × (map (λ (p : Parameter). p.value) ps ≡ map value_of variable_set)
      × All IsScalar ps
      × All (λ x. is_null (value_of x) ≡ false) variable_set
unfolding build_query_parameters resolve_parameter_types
build_query_parameters_lem vs types h =
    let (ts, e, k) = >>=-eq-good (resolve_parameter_types vs types) _ h in
    (
      each-map (build_entry ts) name_of _ (λ x p q. (entry_lem ts x p q).0) vs k,
      each-map (build_entry ts) value_of _ (λ x p q. (entry_lem ts x p q).1) vs k,
      each-All IsScalar (build_entry ts) (λ x p q. (entry_lem ts x p q).2) vs k,
      each-source _ (resolve_type (explicit_types types)) (resolved_value (explicit_types types)) vs
          e,
    )
