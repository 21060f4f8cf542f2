-- ===== src/Columns/RoundTrip.antt =====
-- column.py: `_parse_struct_fields` reads what `_format_nested_data_type` prints.
use dbt_bigquery_ext.Prelude.{
  ◌≡◌, ◌⊎◌, inl, inr, refl, sym, subst, ◌∙◌, true, false, Option, none, some, List, [], ◌∷◌, ◌++◌,
  append-nil, Text, codes, text_eq, strip, All, NoSpace,
}
use dbt_bigquery_ext.Prelude.Checked.{good}
use dbt_bigquery_ext.Columns.StructType.{StructField, named_fields, parse_struct_fields}
use dbt_bigquery_ext.Columns.Nested.{
  NestedType, Members, untyped, typed, nested, no_members, member, parent_key, get_member,
  parent_words, wrap_struct, or_empty, struct_of, format_nested_data_type, format_members,
}
use dbt_bigquery_ext.Columns.Trimmed.{
  strip-IsTrimmed, strip-word, IsTrimmed-word, word-append, after_word-append, word-NoSpace,
  NoSpace-IsTrimmed,
}
use dbt_bigquery_ext.Columns.Balanced.{
  balanced, plain, balanced-plain, balanced_nil, balanced_space, plain-space,
}
use dbt_bigquery_ext.Columns.Parts.{IsPart, struct_of-IsPart, parse-struct_of}

-- A name: characters, and only plain ones.
abbrev IsName : Text → Type 0
IsName [] = ⊥
IsName (c ∷ n) = All (λ d. plain d ≡ true) (c ∷ n)

-- The printed type of a field: none, or text like that of a field.
abbrev IsTypeText : Text → Type 0
IsTypeText t = (t ≡ []) ⊎ IsPart t

IsName-NoSpace : (n : Text) → All (λ d. plain d ≡ true) n → NoSpace n
IsName-NoSpace [] h = tt
IsName-NoSpace (c ∷ n) h = (plain-space c h.0, IsName-NoSpace n h.1)

-- One printed field.
abbrev field_text : Text → Text → Text
field_text n t = strip (n ++ (codes " " ++ t))

abbrev field_of : Text → Text → StructField
field_of n t = record { name = n; data_type = t }

-- It is the text of a field, and is read as the name and the type.
field_text_lem :
    (n t : Text) (ps : List Text)
    → IsName n
    → IsTypeText t
    → IsPart (field_text n t)
      × (named_fields (field_text n t ∷ ps) ≡ field_of n t ∷ named_fields ps)
unfolding named_fields
field_text_lem [] t ps h k = elim h [ ]
field_text_lem (c ∷ n) t ps h (inl e) =
    let ns = IsName-NoSpace (c ∷ n) h in
    let b =
      subst (λ u. balanced false 0 0 u ≡ true) (append-nil (c ∷ n))
        (balanced-plain (c ∷ n) [] h balanced_nil) in
    let (w, a) = word-NoSpace (c ∷ n) ns in
    rw (e, strip-word c n ns)
      (
        (NoSpace-IsTrimmed (c ∷ n) ns, b),
        λ i. record { name = w i; data_type = a i } ∷ named_fields ps,
      )
field_text_lem (c ∷ n) [] ps h (inr k) = elim k [ ]
field_text_lem (c ∷ n) (d ∷ t) ps h (inr k) =
    let ns = IsName-NoSpace (c ∷ n) h in
    let trimmed = IsTrimmed-word c d n t ns.0 k.0 in
    let w = word-append (c ∷ n) (d ∷ t) ns in
    let a = after_word-append (c ∷ n) (d ∷ t) ns ∙ k.0.0 in
    rw (strip-IsTrimmed _ trimmed) (
      (trimmed, balanced-plain (c ∷ n) (codes " " ++ d ∷ t) h (balanced_space (d ∷ t) k.1)),
      λ i. record { name = w i; data_type = a i } ∷ named_fields ps,
    )

-- The names are plain and none is the key of a parent's type; a leaf has no type or the text of one.
unfoldable mutual
  pub IsProperType : NestedType → Type 0
  IsProperType untyped = Unit
  IsProperType (typed t) = IsTypeText t
  IsProperType (nested ms) = IsProper ms

  pub IsProper : Members → Type 0
  IsProper no_members = Unit
  IsProper (member n t ms) =
      IsName n × (text_eq n parent_key ≡ false) × IsProperType t × IsProper ms

-- The fields are the members, in order, each with its name and its own type as it is printed.
unfoldable pub Prints : Members → List StructField → Type 0
Prints no_members [] = Unit
Prints no_members (f ∷ fs) = ⊥
Prints (member n t ms) [] = ⊥
Prints (member n t ms) (f ∷ fs) =
    (f.name ≡ n)
    × ((o : Option Text) × (format_nested_data_type t ≡ good o) × (f.data_type ≡ or_empty o))
    × Prints ms fs

get_member-IsProper : (ms : Members) → IsProper ms → get_member parent_key ms ≡ none
unfolding IsProper get_member
get_member-IsProper no_members h = refl
get_member-IsProper (member n t ms) h = rw h.1 (get_member-IsProper ms h.3)

format_nested :
    (ms : Members) (ps : List Text)
    → IsProper ms
    → format_members ms ≡ good ps
    → format_nested_data_type (nested ms) ≡ good (some (struct_of ps))
unfolding format_nested_data_type format_members parent_words wrap_struct
format_nested ms ps h e = rw (get_member-IsProper ms h, e) refl

format_member :
    (n : Text) (t : NestedType) (ms : Members) (o : Option Text) (ps : List Text)
    → text_eq n parent_key ≡ false
    → format_nested_data_type t ≡ good o
    → format_members ms ≡ good ps
    → format_members (member n t ms) ≡ good (field_text n (or_empty o) ∷ ps)
unfolding format_members
format_member n t ms o ps h e k = rw (e, h, k) refl

mutual
  unfolding IsProper IsProperType Prints format_nested_data_type format_members named_fields

  format_type :
      (t : NestedType)
      → IsProperType t
      → (o : Option Text) × (format_nested_data_type t ≡ good o) × IsTypeText (or_empty o)
  format_type untyped h = (none, refl, inl refl)
  format_type (typed t) h = (some t, refl, h)
  format_type (nested ms) h =
      let (ps, e, a, p) = format_fields ms h in
      (some (struct_of ps), format_nested ms ps h e, inr (struct_of-IsPart ps a))

  format_fields :
      (ms : Members)
      → IsProper ms
      → (ps : List Text) × (format_members ms ≡ good ps)
        × All IsPart ps
        × Prints ms (named_fields ps)
  format_fields no_members h = ([], refl, tt, tt)
  format_fields (member n t ms) h =
      let (o, e, k) = format_type t h.2 in
      let (ps, es, a, p) = format_fields ms h.3 in
      let (part, fields) = field_text_lem n (or_empty o) ps h.0 k in
      (
        field_text n (or_empty o) ∷ ps,
        format_member n t ms o ps h.1 e es,
        (part, a),
        subst (Prints (member n t ms)) (sym fields) (refl, (o, e, refl), p),
      )

-- A nested type whose names are plain, and whose leaves have no type or a trimmed one with balanced
-- brackets and commas only inside them, is printed, and what is printed is parsed to its members: their
-- names in their order, each with the text that its own type is printed as.
pub parse_struct_fields-format_nested_data_type :
    (ms : Members)
    → IsProper ms
    → (s : Text) × (fs : List StructField) × (format_nested_data_type (nested ms) ≡ good (some s))
      × (parse_struct_fields s ≡ some fs)
      × Prints ms fs
parse_struct_fields-format_nested_data_type ms h =
    let (ps, e, a, p) = format_fields ms h in
    (struct_of ps, named_fields ps, format_nested ms ps h e, parse-struct_of ps a, p)
