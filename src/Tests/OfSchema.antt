-- ===== src/Tests/OfSchema.antt =====
-- The columns of a schema, at a repeated struct, and the reading of settings.
use dbt_bigquery_ext.Prelude.{
  ◌≡◌, refl, true, false, some, [], ◌∷◌, Text, codes, text_eq, upper, lower, join,
}
use dbt_bigquery_ext.Prelude.Checked.{good, bad}
use dbt_bigquery_ext.Columns.Fields.{Field, field, nil, more}
use dbt_bigquery_ext.Columns.Schema.{
  column_type, quoted_column, flatten, can_expand_to, text_given, value_error, bool_setting,
}

abbrev leaf : Text → Text → Field
leaf name dtype = field name dtype (codes "NULLABLE") nil

abbrev lines : Field
lines =
    field (codes "lines") (codes "RECORD") (codes "REPEATED")
      (more (leaf (codes "id") (codes "INT64")) (more (leaf (codes "note") (codes "STRING")) nil))

lines_type : column_type lines ≡ codes "ARRAY<STRUCT<`id` INT64, `note` STRING>>"
unfolding column_type quoted_column text_eq upper join
lines_type = refl

lines_leaves :
    flatten lines
    ≡ leaf (codes "lines.id") (codes "INT64") ∷ leaf (codes "lines.note") (codes "STRING") ∷ []
unfolding flatten join
lines_leaves = refl

no_expansion :
    can_expand_to (leaf (codes "id") (codes "INT64")) (leaf (codes "note") (codes "STRING")) ≡ false
unfolding can_expand_to text_eq lower
no_expansion = refl

true_setting : bool_setting (text_given (codes "True")) ≡ good (some true)
unfolding bool_setting text_eq lower
true_setting = refl

yes_setting : bool_setting (text_given (codes "yes")) ≡ bad value_error
unfolding bool_setting text_eq lower
yes_setting = refl
