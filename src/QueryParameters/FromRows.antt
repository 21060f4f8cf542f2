-- ===== src/QueryParameters/FromRows.antt =====
-- query_parameters.py: the sets that are read from a query's rows are accepted as parameters.
use dbt_bigquery_ext.Prelude.{
  ◌≡◌, refl, sym, ap, subst, ◌∙◌, inl, inr, false, Bool-cases, Option, none, some, List, [], ◌∷◌,
  ◌++◌, arith, Text, text_eq, text_eq_iff, upper, strip, starts_with, All, All-append, All-map, not,
  some_inj,
}
use dbt_bigquery_ext.Prelude.Checked.{
  good, each, each-good, each-All, >>=-eq-good, good_inj, require-good,
}
use dbt_bigquery_ext.Prelude.Dicts.{Dict, lookup, insert, lookup-insert, insert-All, lookup-All}
use dbt_bigquery_ext.QueryParameters.Values.{
  PyValue, null, boolean, int, float, bytes, str, datetime, date, time, decimal, sequence, mapping,
  object, VariableSet, Parameter, normalize_type_name, is_complex_type, explicit_types, is_null,
  infer_scalar_type, resolve_as, resolve_type, resolve_parameter_types, build_entry,
  build_query_parameters,
}
use dbt_bigquery_ext.QueryParameters.Sources.{
  ResultField, Row, field_types, bq_field_type_to_param_type, read_schema, read_row, cell_of,
  is_repeated, fields_or, name_or, variable_sets_from_bq_rows,
}

-- A type that is accepted for a parameter, however often it is normalized.
abbrev IsPlain : Text → Type 0
IsPlain t = is_complex_type (normalize_type_name t) ≡ false

-- The column has a plain type.
abbrev IsTyped : Dict Text → Text → Type 0
IsTyped types c = (t : Text) × (lookup c types ≡ some t) × IsPlain t

-- The entry can become a parameter.
abbrev IsUsable : Dict Text → Text × PyValue → Type 0
IsUsable types (k, v) = IsTyped types k × (is_null v ≡ false)

table-IsPlain : All (λ (p : Text × Text). IsPlain p.1) field_types
unfolding is_complex_type strip upper starts_with
table-IsPlain = ground arith

param_type-IsPlain :
    (t : Option Text) {u : Text} → bq_field_type_to_param_type t ≡ good u → IsPlain u
unfolding bq_field_type_to_param_type
param_type-IsPlain none h = absurd (cc)
param_type-IsPlain (some t) {u} h =
    lookup-All IsPlain (upper (strip t)) field_types table-IsPlain (ground (arith, h))

insert-IsTyped :
    (types : Dict Text) (k t c : Text) → IsPlain t → IsTyped types c → IsTyped (insert k t types) c
insert-IsTyped types k t c p (u, e, q) = elim (Bool-cases (text_eq k c)) [
  | inl s ↦ (t, rw (lookup-insert k c t types, s) refl, p)
  | inr s ↦ (u, rw (lookup-insert k c t types, s) e, q)
]

insert-IsTyped_self : (types : Dict Text) (k t : Text) → IsPlain t → IsTyped (insert k t types) k
insert-IsTyped_self types k t p =
    (t, lookup-insert k k t types ∙ ground (arith, text_eq_iff k k), p)

All-IsTyped :
    (types : Dict Text) (k t : Text) (cs : List Text)
    → IsPlain t
    → All (IsTyped types) cs
    → All (IsTyped (insert k t types)) cs
All-IsTyped types k t [] p h = tt
All-IsTyped types k t (c ∷ cs) p h =
    (insert-IsTyped types k t c p h.0, All-IsTyped types k t cs p h.1)

read_schema-IsTyped :
    (fs : List ResultField) (types : Dict Text) (columns : List Text) {out : Dict Text × List Text}
    → All (IsTyped types) columns
    → read_schema fs types columns ≡ good out
    → All (IsTyped out.0) out.1
unfolding read_schema
read_schema-IsTyped [] types columns a h =
    subst (λ (o : Dict Text × List Text). All (IsTyped o.0) o.1) (good_inj h) a
read_schema-IsTyped (f ∷ fs) types columns a h =
    let (n, e1, h1) = >>=-eq-good (name_or f.name) _ h in
    let (u, h2) = require-good (not (is_repeated f.mode)) _ _ h1 in
    let (t, e3, h3) = >>=-eq-good (bq_field_type_to_param_type f.field_type) _ h2 in
    let p = param_type-IsPlain f.field_type e3 in
    read_schema-IsTyped fs (insert n t types) (columns ++ n ∷ [])
      (All-append _ columns (n ∷ []) (All-IsTyped types n t columns p a)
        (insert-IsTyped_self types n t p, tt))
      h3

cell-nonnull : (o : Option PyValue) {v : PyValue} → cell_of o ≡ good v → is_null v ≡ false
cell-nonnull none h = absurd (cc)
cell-nonnull (some w) h = ground arith

read_row-IsUsable :
    (types : Dict Text) (cols : List Text) (row : Row) (entry : VariableSet) {out : VariableSet}
    → All (IsTyped types) cols
    → All (IsUsable types) entry
    → read_row cols row entry ≡ good out
    → All (IsUsable types) out
unfolding read_row
read_row-IsUsable types [] row entry a u h = subst (All (IsUsable types)) (good_inj h) u
read_row-IsUsable types (c ∷ cols) row entry a u h =
    let (v, e, h1) = >>=-eq-good (cell_of (row c)) _ h in
    read_row-IsUsable types cols row (insert c v entry) a.1
      (insert-All (λ k w. IsTyped types k × (is_null w ≡ false)) c v entry
        (a.0, cell-nonnull (row c) e) u)
      h1

explicit-lookup :
    (types : Dict Text) (k t : Text)
    → lookup k types ≡ some t
    → lookup k (explicit_types (some types)) ≡ some (normalize_type_name t)
explicit-lookup [] k t h = absurd (cc)
explicit-lookup ((j, u) ∷ d) k t h = elim (Bool-cases (text_eq j k)) [
  | inl e ↦ rw e (ap (λ (x : Text). some (normalize_type_name x)) (some_inj (rw e at h)))
  | inr e ↦ rw e (explicit-lookup d k t (rw e at h))
]

-- A name that has a type in the map, and that the builder takes.
abbrev IsResolved : Dict Text → Text → Type 0
IsResolved types k = (t : Text) × (lookup k types ≡ some t) × (is_complex_type t ≡ false)

resolve-good :
    (types : Dict Text) (x : Text × PyValue)
    → IsUsable types x
    → (y : Text × Text) × (resolve_type (explicit_types (some types)) x ≡ good y)
unfolding resolve_type
resolve-good types (k, v) ((t, e, p), n) = (
  (k, normalize_type_name t),
  ap (λ o. resolve_as o k v) (explicit-lookup types k t e) ∙ rw (p, n) refl,
)

infer-IsPlain : (v : PyValue) {t : Text} → infer_scalar_type v ≡ good t → is_complex_type t ≡ false
unfolding infer_scalar_type is_complex_type strip upper starts_with
infer-IsPlain null h = absurd (cc)
infer-IsPlain (boolean b) h = subst (λ u. is_complex_type u ≡ false) (good_inj h) refl
infer-IsPlain (int b) h = subst (λ u. is_complex_type u ≡ false) (good_inj h) refl
infer-IsPlain (float b) h = subst (λ u. is_complex_type u ≡ false) (good_inj h) refl
infer-IsPlain (bytes b) h = subst (λ u. is_complex_type u ≡ false) (good_inj h) refl
infer-IsPlain (str b) h = subst (λ u. is_complex_type u ≡ false) (good_inj h) refl
infer-IsPlain (datetime b) h = subst (λ u. is_complex_type u ≡ false) (good_inj h) refl
infer-IsPlain (date b) h = subst (λ u. is_complex_type u ≡ false) (good_inj h) refl
infer-IsPlain (time b) h = subst (λ u. is_complex_type u ≡ false) (good_inj h) refl
infer-IsPlain (decimal b) h = subst (λ u. is_complex_type u ≡ false) (good_inj h) refl
infer-IsPlain (sequence b) h = absurd (cc)
infer-IsPlain (mapping b) h = absurd (cc)
infer-IsPlain (object b) h = absurd (cc)

resolve_as-plain :
    (o : Option Text) (k : Text) (v : PyValue) (y : Text × Text)
    → resolve_as o k v ≡ good y
    → (y.0 ≡ k) × (is_complex_type y.1 ≡ false)
unfolding resolve_as
resolve_as-plain none k v y h =
    let (n, h1) = require-good (not (is_null v)) _ _ h in
    let (t, e, h2) = >>=-eq-good (infer_scalar_type v) _ h1 in
    let q = good_inj h2 in
    (
      ap (λ (p : Text × Text). p.0) (sym q),
      subst (λ (p : Text × Text). is_complex_type p.1 ≡ false) q (infer-IsPlain v e),
    )
resolve_as-plain (some t) k v y h =
    let (c, h1) = require-good (not (is_complex_type t)) _ _ h in
    let (n, h2) = require-good (not (is_null v)) _ _ h1 in
    let q = good_inj h2 in
    (
      ap (λ (p : Text × Text). p.0) (sym q),
      subst (λ (p : Text × Text). is_complex_type p.1 ≡ false) q (ground (arith, c)),
    )

IsResolved-head :
    (y : Text × Text) (ys : Dict Text) {k : Text}
    → y.0 ≡ k
    → is_complex_type y.1 ≡ false
    → IsResolved (y ∷ ys) k
IsResolved-head (j, t) ys {k} p q = (t, rw ((text_eq_iff j k).1 p) refl, q)

IsResolved-tail :
    (y : Text × Text) (ys : Dict Text) (k : Text)
    → is_complex_type y.1 ≡ false
    → IsResolved ys k
    → IsResolved (y ∷ ys) k
IsResolved-tail (j, t) ys k q (u, e, r) = elim (Bool-cases (text_eq j k)) [
  | inl s ↦ (t, rw s refl, q)
  | inr s ↦ (u, rw s e, r)
]

All-IsResolved :
    (y : Text × Text) (ys : Dict Text) (xs : VariableSet)
    → is_complex_type y.1 ≡ false
    → All (λ (x : Text × PyValue). IsResolved ys x.0) xs
    → All (λ (x : Text × PyValue). IsResolved (y ∷ ys) x.0) xs
All-IsResolved y ys [] q a = tt
All-IsResolved y ys ((k, v) ∷ xs) q a = (IsResolved-tail y ys k q a.0, All-IsResolved y ys xs q a.1)

build_entry-good :
    (types : Dict Text) (x : Text × PyValue)
    → IsResolved types x.0
    → (p : Parameter) × (build_entry types x ≡ good p)
unfolding build_entry
build_entry-good types (k, v) (t, e, q) =
    (record { name = k; type_name = normalize_type_name t; value = v }, rw (e, q) refl)

-- Each key of the set has its type in the result.
IsResolved-lookup :
    (types : Dict Text) (xs : VariableSet) {ts : Dict Text}
    → each (resolve_type types) xs ≡ good ts
    → All (λ (x : Text × PyValue). IsResolved ts x.0) xs
unfolding resolve_type
IsResolved-lookup types [] h = tt
IsResolved-lookup types ((k, v) ∷ xs) {ts} h =
    let (y, e1, h1) = >>=-eq-good (resolve_type types (k, v)) _ h in
    let (ys, e2, h2) = >>=-eq-good (each (resolve_type types) xs) _ h1 in
    let (p, q) = resolve_as-plain (lookup k types) k v y e1 in
    subst (λ (d : Dict Text). All (λ (x : Text × PyValue). IsResolved d x.0) ((k, v) ∷ xs))
      (good_inj h2)
      (IsResolved-head y ys p q, All-IsResolved y ys xs q (IsResolved-lookup types xs e2))

build-IsUsable :
    (types : Dict Text) (xs : VariableSet)
    → All (IsUsable types) xs
    → (ps : List Parameter) × (build_query_parameters xs (some types) ≡ good ps)
unfolding build_query_parameters resolve_parameter_types
build-IsUsable types xs a =
    let (ts, e) =
      each-good (IsUsable types) (resolve_type (explicit_types (some types))) (resolve-good types)
        xs a in
    let (ps, f) =
      each-good (λ (x : Text × PyValue). IsResolved ts x.0) (build_entry ts) (build_entry-good ts)
        xs (IsResolved-lookup (explicit_types (some types)) xs e) in
    (ps, rw e f)

-- The sets that are read from a query's rows, with the types that are read from its schema, are all
-- accepted: parameters can be built of every one of them.
pub variable_sets_from_bq_rows-build :
    (rows : List Row) (schema : Option (List ResultField)) {values : List VariableSet}
    {types : Dict Text}
    → variable_sets_from_bq_rows rows schema ≡ good (values, types)
    → All
        (λ set. (ps : List Parameter) × (build_query_parameters set (some types) ≡ good ps))
        values
unfolding variable_sets_from_bq_rows
variable_sets_from_bq_rows-build rows schema {values} {types} h =
    let (fs, e1, h1) = >>=-eq-good (fields_or schema) _ h in
    let (out, e2, h2) = >>=-eq-good (read_schema fs [] []) _ h1 in
    let (vs, e3, h3) = >>=-eq-good (each (λ (row : Row). read_row out.1 row []) rows) _ h2 in
    subst
      (λ (r : List VariableSet × Dict Text).
        All (λ set. (ps : List Parameter) × (build_query_parameters set (some r.1) ≡ good ps)) r.0)
      (good_inj h3)
      (All-map _ _ (λ set u. build-IsUsable out.0 set u) vs
        (each-All (All (IsUsable out.0)) (λ (row : Row). read_row out.1 row [])
          (λ row set e.
            read_row-IsUsable out.0 out.1 row [] (read_schema-IsTyped fs [] [] tt e2) tt e)
          rows e3))
