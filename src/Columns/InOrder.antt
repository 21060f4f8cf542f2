-- ===== src/Columns/InOrder.antt =====
-- column.py: the contract's SELECT expression, `get_struct_select_expression`, on the types that
-- `_format_nested_data_type` prints for the table.
use dbt_bigquery_ext.Prelude.{
  suc, ◌<◌, ◌≡◌, refl, sym, ap, subst, ◌∙◌, none, some, List, [], ◌∷◌, length, Text, starts_with,
  lower, strip, arith,
}
use dbt_bigquery_ext.Prelude.Checked.{good, good_inj}
use dbt_bigquery_ext.Columns.StructType.{StructField, parse_struct_fields}
use dbt_bigquery_ext.Columns.Nested.{
  NestedType, Members, untyped, typed, nested, no_members, member, or_empty,
  format_nested_data_type,
}
use dbt_bigquery_ext.Columns.RoundTrip.{
  IsProper, IsProperType, Prints, parse_struct_fields-format_nested_data_type,
}
use dbt_bigquery_ext.Columns.Shorter.{parse_struct_fields-Shorter}
use dbt_bigquery_ext.Columns.Select.{
  struct_expression, as_name, path_of, get_struct_select_expression,
}
use dbt_bigquery_ext.Columns.Selected.{Selects, Selects-leaf, Selects-struct, fields_end, fueled}

-- The expressions of the members, in their order, a struct's own members inside.
unfoldable mutual
  pub expression : Text → Text → NestedType → Text
  expression parent name untyped = as_name (path_of parent name) name
  expression parent name (typed t) = as_name (path_of parent name) name
  expression parent name (nested ms) =
      struct_expression (path_of parent name) name (expressions (path_of parent name) ms)

  pub expressions : Text → Members → List Text
  expressions parent no_members = []
  expressions parent (member n t ms) = expression parent n t ∷ expressions parent ms

-- No leaf's own text is a struct type.
unfoldable mutual
  pub IsFlatType : NestedType → Type 0
  IsFlatType untyped = Unit
  IsFlatType (typed t) = parse_struct_fields t ≡ none
  IsFlatType (nested ms) = IsFlat ms

  pub IsFlat : Members → Type 0
  IsFlat no_members = Unit
  IsFlat (member n t ms) = IsFlatType t × IsFlat ms

no_type : parse_struct_fields [] ≡ none
unfolding parse_struct_fields starts_with lower strip
no_type = refl

-- A leaf in front, by its own text.
leaf-Selects :
    (parent n t : Text) (f : StructField) (fs : List StructField) (es : List Text)
    → f.name ≡ n
    → f.data_type ≡ t
    → parse_struct_fields t ≡ none
    → Selects parent fs es
    → Selects parent (f ∷ fs) (as_name (path_of parent n) n ∷ es)
leaf-Selects parent n t f fs es name type e k =
    subst (λ u. Selects parent (f ∷ fs) (as_name (path_of parent u) u ∷ es)) name
      (Selects-leaf parent f fs es (ap parse_struct_fields type ∙ e) k)

expressions-Selects :
    (ms : Members)
    → IsProper ms
    → IsFlat ms
    → (fs : List StructField) → Prints ms fs
    → (parent : Text) → Selects parent fs (expressions parent ms)
unfolding IsProper IsProperType IsFlat IsFlatType Prints expression expressions
    format_nested_data_type
expressions-Selects no_members h k [] p parent = fields_end parent
expressions-Selects no_members h k (f ∷ fs) p parent = elim p [ ]
expressions-Selects (member n t ms) h k [] p parent = elim p [ ]
expressions-Selects (member n untyped ms) h k (f ∷ fs) (name, (o, e, d), p) parent =
    let type = d ∙ ap or_empty (sym (good_inj e)) in
    leaf-Selects parent n [] f fs (expressions parent ms) name type no_type
      (expressions-Selects ms h.3 k.1 fs p parent)
expressions-Selects (member n (typed t) ms) h k (f ∷ fs) (name, (o, e, d), p) parent =
    let type = d ∙ ap or_empty (sym (good_inj e)) in
    leaf-Selects parent n t f fs (expressions parent ms) name type k.0
      (expressions-Selects ms h.3 k.1 fs p parent)
expressions-Selects (member n (nested inner) ms) h k (f ∷ fs) (name, (o, e, d), p) parent =
    let (s, gs, printed, parsed, q) = parse_struct_fields-format_nested_data_type inner h.2 in
    let type = d ∙ ap or_empty (good_inj (sym e ∙ printed)) in
    subst
      (λ u. Selects parent (f ∷ fs) (
        struct_expression (path_of parent u) u (expressions (path_of parent u) inner)
        ∷ expressions parent ms))
      name
      (Selects-struct parent f fs gs (expressions parent ms)
        (expressions (path_of parent f.name) inner) (ap parse_struct_fields type ∙ parsed)
        (expressions-Selects inner h.2 k.0 gs q (path_of parent f.name))
        (expressions-Selects ms h.3 k.1 fs p parent))

-- Of a nested type whose names are plain, and whose leaves have no type or a trimmed one that is no
-- struct, with balanced brackets and commas only inside them, the expression for the printed type
-- selects each member under its own name and in its own order, at every depth.
pub get_struct_select_expression-in_order :
    (column_name : Text) (ms : Members)
    → IsProper ms
    → IsFlat ms
    → (s : Text) × (format_nested_data_type (nested ms) ≡ good (some s))
      × (get_struct_select_expression (suc (length s)) column_name s
          ≡ some (struct_expression column_name column_name (expressions column_name ms)))
unfolding get_struct_select_expression
get_struct_select_expression-in_order column_name ms h k =
    let (s, fs, printed, parsed, p) = parse_struct_fields-format_nested_data_type ms h in
    let es = expressions-Selects ms h k fs p column_name in
    let shorter = parse_struct_fields-Shorter s fs parsed in
    let least : length s < suc (length s) = omega arith in
    (
      s,
      printed,
      rw parsed
          (fueled column_name s fs (expressions column_name ms) es shorter (suc (length s)) least),
    )
