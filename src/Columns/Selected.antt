-- ===== src/Columns/Selected.antt =====
-- column.py `get_struct_select_expression` ends on every type, and what it selects of a type that
-- `_format_nested_data_type` has printed.
use dbt_bigquery_ext.Prelude.{
  ℕ, zero, suc, ◌<◌, ◌≡◌, refl, Option-cases, ◌⊎◌, inl, inr, none, some, List, [], ◌∷◌, length,
  Text, All-map, arith,
}
use dbt_bigquery_ext.Columns.StructType.{StructField, parse_struct_fields}
use dbt_bigquery_ext.Columns.Shorter.{Shorter, parse_struct_fields-Shorter}
use dbt_bigquery_ext.Columns.Select.{
  struct_expression, as_name, build_struct_field_expressions, path_of, column_expression,
  get_struct_select_expression,
}

-- The expressions that every sufficient fuel gives.
abbrev pub Selects : Text → List StructField → List Text → Type 0
Selects parent fs es =
    (n : ℕ) → Shorter n fs → build_struct_field_expressions (suc n) parent fs ≡ some es

Shorter-trans :
    (n : ℕ) (t : Text) (fs : List StructField)
    → length t < suc n
    → Shorter (length t) fs
    → Shorter n fs
Shorter-trans n t fs h = All-map _ _ (λ f le. omega (arith, le, h)) fs

pub fields_end : (parent : Text) → Selects parent [] []
unfolding build_struct_field_expressions
fields_end parent n h = refl

pub Selects-leaf :
    (parent : Text) (f : StructField) (fs : List StructField) (es : List Text)
    → parse_struct_fields f.data_type ≡ none
    → Selects parent fs es
    → Selects parent (f ∷ fs) (as_name (path_of parent f.name) f.name ∷ es)
unfolding build_struct_field_expressions
Selects-leaf parent f fs es e k n h = rw (e, k n h.1) refl

pub Selects-struct :
    (parent : Text) (f : StructField) (fs nested : List StructField) (es inner : List Text)
    → parse_struct_fields f.data_type ≡ some nested
    → Selects (path_of parent f.name) nested inner
    → Selects parent fs es
    → Selects parent (f ∷ fs) (struct_expression (path_of parent f.name) f.name inner ∷ es)
unfolding build_struct_field_expressions
Selects-struct parent f fs nested es inner e i k zero h = absurd (omega (arith, h.0))
Selects-struct parent f fs nested es inner e i k (suc n) h =
    let s =
      Shorter-trans n f.data_type nested h.0 (parse_struct_fields-Shorter f.data_type nested e) in
    rw (e, i n s, k (suc n) h.1) refl

Selects-total :
    (m : ℕ) (parent : Text) (fs : List StructField)
    → Shorter m fs
    → (es : List Text) × Selects parent fs es
unfolding build_struct_field_expressions
Selects-total m parent [] h = ([], λ n k. refl)
Selects-total zero parent (f ∷ fs) h = absurd (omega (arith, h.0))
Selects-total (suc m) parent (f ∷ fs) h =
    go (Option-cases (parse_struct_fields f.data_type)) (Selects-total m (path_of parent f.name))
      (Selects-total (suc m) parent fs h.1)
  where
    go :
        (parse_struct_fields f.data_type ≡ none)
          ⊎ ((nested : List StructField) × (parse_struct_fields f.data_type ≡ some nested))
        → ((nested : List StructField)
            → Shorter m nested
            → (es : List Text) × Selects (path_of parent f.name) nested es)
        → ((es : List Text) × Selects parent fs es)
        → (es : List Text) × Selects parent (f ∷ fs) es
    go (inl e) ih (es, k) =
        (as_name (path_of parent f.name) f.name ∷ es, Selects-leaf parent f fs es e k)
    go (inr (nested, e)) ih (es, k) =
        let (inner, i) = ih nested (
          Shorter-trans m f.data_type nested h.0
            (parse_struct_fields-Shorter f.data_type nested e)) in
        (
          struct_expression (path_of parent f.name) f.name inner ∷ es,
          Selects-struct parent f fs nested es inner e i k,
        )

pub fueled :
    (column_name data_type : Text) (fs : List StructField) (es : List Text)
    → Selects column_name fs es
    → Shorter (length data_type) fs
    → (fuel : ℕ) → length data_type < fuel
    → column_expression fuel column_name (some fs)
      ≡ some (struct_expression column_name column_name es)
fueled column_name data_type fs es k h zero lt = absurd (omega (arith, lt))
fueled column_name data_type fs es k h (suc n) lt =
    rw (k n (Shorter-trans n data_type fs lt h)) refl

-- For every column and every text as its type there is one expression, which is returned with any
-- fuel above the length of the text.
pub get_struct_select_expression-ends :
    (column_name data_type : Text) (fuel : ℕ)
    → length data_type < fuel
    → (s : Text) × (get_struct_select_expression fuel column_name data_type ≡ some s)
      × (get_struct_select_expression (suc (length data_type)) column_name data_type ≡ some s)
unfolding get_struct_select_expression
get_struct_select_expression-ends column_name data_type fuel lt =
    go (Option-cases (parse_struct_fields data_type))
  where
    least : length data_type < suc (length data_type)
    least = omega arith

    go :
        (parse_struct_fields data_type ≡ none)
          ⊎ ((fs : List StructField) × (parse_struct_fields data_type ≡ some fs))
        → (s : Text) × (column_expression fuel column_name (parse_struct_fields data_type) ≡ some s)
          × (column_expression (suc (length data_type)) column_name (parse_struct_fields data_type)
              ≡ some s)
    go (inl e) = (column_name, rw e refl, rw e refl)
    go (inr (fs, e)) =
        let shorter = parse_struct_fields-Shorter data_type fs e in
        let (es, k) = Selects-total (length data_type) column_name fs shorter in
        (
          struct_expression column_name column_name es,
          rw e (fueled column_name data_type fs es k shorter fuel lt),
          rw e (fueled column_name data_type fs es k shorter (suc (length data_type)) least),
        )
