-- ===== src/Columns/Synced.antt =====
-- impl.py `sync_struct_columns`: the schema that it writes.
use dbt_bigquery_ext.Prelude.{
  ◌≡◌, refl, sym, subst, ◌∙◌, ◌⊎◌, inl, inr, true, false, Bool-cases, Option-cases, none, some,
  some_inj, List, [], ◌∷◌, map, Text, text_eq, text_eq_iff, member, member_iff, In, In-select,
  In-map, In-append_left, is_none, arith, Result, done,
}
use dbt_bigquery_ext.Prelude.Results.{>>=-eq-done}
use dbt_bigquery_ext.Prelude.Dicts.{Dict, lookup, dict_keys}
use dbt_bigquery_ext.Columns.Fields.{
  Field, Fields, nil, more, name_of, collect_field_dicts, not_in, find_missing_fields,
}
use dbt_bigquery_ext.Columns.Sync.{
  Changes, TypeChange, root_of, is_nested, nested_additions, struct_type_changes,
  struct_columns_to_update, find_field, updated_field, updated_schema, handled_columns, after_sync,
  write_schema, is_sync_mode, sync_struct_columns,
}

-- A path inside the column that the source has and the target has not.
pub record IsMissing (source target : Fields) (column path : Text) : Type 0 where
  pub in_source : In path (dict_keys (collect_field_dicts source []))
  pub not_in_target : lookup path (collect_field_dicts target []) ≡ none
  pub nested : is_nested path ≡ true
  pub root : root_of path ≡ column

-- What becomes of a column.
pub record IsSyncedField (source target : Fields) (f g : Field) : Type 0 where
  pub same_name : name_of g ≡ name_of f
  pub own_or_source : (g ≡ f) ⊎ (find_field (name_of f) source ≡ some g)
  pub complete :
      (path : Text)
      → IsMissing source target (name_of f) path
      → (s : Field) → find_field (name_of f) source ≡ some s
      → g ≡ s

-- The columns one by one.
abbrev pub IsSynced : Fields → Fields → Fields → Fields → Type 0
IsSynced source target nil nil = Unit
IsSynced source target nil (more g gs) = ⊥
IsSynced source target (more f fs) nil = ⊥
IsSynced source target (more f fs) (more g gs) =
    IsSyncedField source target f g × IsSynced source target fs gs

In-not_in :
    (path : Text) (t d : Dict Field)
    → In path (dict_keys d)
    → lookup path t ≡ none
    → In path (dict_keys (not_in t d))
unfolding not_in
In-not_in path t [] h n = h
In-not_in path t ((k, f) ∷ d) (inl e) n = rw (sym e, n) (inl refl)
In-not_in path t ((k, f) ∷ d) (inr h) n = elim (Bool-cases (is_none (lookup k t))) [
  | inl e ↦ rw e (inr (In-not_in path t d h n))
  | inr e ↦ rw e (In-not_in path t d h n)
]

missing-member :
    (source target : Fields) (cs : List TypeChange) (column path : Text)
    → IsMissing source target column path
    → member column (struct_columns_to_update source target cs) ≡ true
unfolding struct_columns_to_update find_missing_fields
missing-member source target cs column path m =
    let i =
      In-not_in path (collect_field_dicts target []) (collect_field_dicts source []) m.in_source
        m.not_in_target in
    let j = In-select is_nested path (dict_keys (find_missing_fields source target)) i m.nested in
    let k =
      In-append_left (root_of path) (map root_of (nested_additions source target))
        (struct_type_changes cs) (In-map root_of path (nested_additions source target) j) in
    (member_iff column _).1 (subst (λ t. In t (struct_columns_to_update source target cs)) m.root k)

find_field-name :
    (name : Text) (fs : Fields) {f : Field} → find_field name fs ≡ some f → name_of f ≡ name
unfolding find_field
find_field-name name nil h = absurd (cc)
find_field-name name (more g fs) h = elim (Bool-cases (text_eq (name_of g) name)) [
  | inl e ↦
      subst (λ f. name_of f ≡ name) (some_inj (rw e at h)) ((text_eq_iff (name_of g) name).0 e)
  | inr e ↦ find_field-name name fs (rw e at h)
]

module _ (source target : Fields) (cs : List TypeChange) where
  field_synced :
      (f : Field)
      → IsSyncedField source target f
          (updated_field source (struct_columns_to_update source target cs) f)
  unfolding updated_field
  field_synced f =
      elim (Bool-cases (member (name_of f) (struct_columns_to_update source target cs))) [
        | inr e ↦ rw e (record {
          same_name = refl;
          own_or_source = inl refl;
          complete =
              λ path m s q. absurd (cc (e, missing-member source target cs (name_of f) path m));
        })
        | inl e ↦ rw e (elim (Option-cases (find_field (name_of f) source)) [
          | inl n ↦ rw n (record {
            same_name = refl;
            own_or_source = inl refl;
            complete = λ path m s q. absurd (cc (n, q));
          })
          | inr (g, n) ↦ rw n (record {
            same_name = find_field-name (name_of f) source n;
            own_or_source = inr n;
            complete = λ path m s q. some_inj (sym n ∙ q);
          })
        ])
      ]

  updated_schema-IsSynced :
      (fs : Fields)
      → IsSynced source target fs
          (updated_schema source (struct_columns_to_update source target cs) fs)
  unfolding updated_schema
  updated_schema-IsSynced nil = tt
  updated_schema-IsSynced (more f fs) = (field_synced f, updated_schema-IsSynced fs)

-- The schema was written, and is in the changes as the target's columns.
pub record IsWritten (update_table : Fields → Result (Unit {0})) (source target : Fields)
    (c' : Changes) : Type 0 where
  pub written : update_table c'.target_columns ≡ done tt
  pub synced : IsSynced source target target c'.target_columns

write_schema-inv :
    (update_table : Fields → Result (Unit {0})) (schema : Fields) (hs : List Text) (c : Changes)
    {c' : Changes}
    → write_schema update_table schema hs c ≡ done c'
    → ((hs ≡ []) × (c' ≡ c)) ⊎ ((update_table schema ≡ done tt) × (c'.target_columns ≡ schema))
unfolding after_sync
write_schema-inv update_table schema [] c h = inl (refl, cc)
write_schema-inv update_table schema (x ∷ hs) c h =
    let (_, e, k) = >>=-eq-done (update_table schema) _ h in inr (e, ground (arith, k))

-- A synchronization that returns either leaves the changes as they are, in another mode or where no
-- column was handled, or has written a schema with the target's columns, by name and in order: each
-- is the target's own or the source's of that name, and it is the source's wherever the source has a
-- path inside the column that the target has not.
pub sync_struct_columns-IsSynced :
    (update_table : Fields → Result (Unit {0})) (mode : Text) (source target : Fields) (c : Changes)
    {c' : Changes}
    → sync_struct_columns update_table mode source target c ≡ done c'
    → (((is_sync_mode mode ≡ false)
          ⊎ (handled_columns source
                (struct_columns_to_update source target c.new_target_types)
                target
              ≡ []))
        × (c' ≡ c))
      ⊎ IsWritten update_table source target c'
unfolding sync_struct_columns
sync_struct_columns-IsSynced update_table mode source target c {c'} h =
    let columns = struct_columns_to_update source target c.new_target_types in
    elim (Bool-cases (is_sync_mode mode)) [
      | inr e ↦ inl (inl e, ground (arith, h, e))
      | inl e ↦
          elim (write_schema-inv update_table (updated_schema source columns target)
            (handled_columns source columns target) c (rw e at h)) [
              | inl (n, q) ↦ inl (inr n, q)
              | inr (w, q) ↦ inr (record {
                written = subst (λ s. update_table s ≡ done tt) (sym q) w;
                synced =
                    subst (IsSynced source target target) (sym q)
                      (updated_schema-IsSynced source target c.new_target_types target);
              })
            ]
    ]
