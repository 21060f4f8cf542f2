-- ===== src/Columns/StructType.antt =====
-- column.py `_parse_struct_fields`: the fields of a struct type from its text.
use dbt_bigquery_ext.Prelude.{
  ℕ, zero, suc, ◌+◌, ◌-◌, ◌==◌, Bool, true, ◌&&◌, Option, none, some, List, [], ◌∷◌, ◌++◌, Text,
  codes, lower, strip, lstrip, starts_with, is_space, if◌then◌else◌,
}
use dbt_bigquery_ext.Prelude.Ints.{ℤ, pos, increment, decrement, is_zero}

-- `struct<`, which is seven characters.
abbrev pub struct_text : Text
struct_text = codes "struct<"

abbrev pub drop : ℕ → Text → Text
drop zero s = s
drop (suc n) [] = []
drop (suc n) (c ∷ s) = drop n s

-- Depths after a character of the search for the closing `>`.
abbrev pub cut_angle : ℕ → ℕ → ℤ → ℕ
cut_angle c angle paren =
    if c == b'<' then angle + 1 else if (c == b'>') && is_zero paren then angle - 1 else angle

abbrev pub cut_paren : ℕ → ℤ → ℤ
cut_paren c paren =
    if c == b'(' then increment paren else if c == b')' then decrement paren else paren

abbrev pub with_char : ℕ → Option (Text × Text) → Option (Text × Text)
with_char c none = none
with_char c (some (inner, rest)) = some (c ∷ inner, rest)

-- The text up to the closing `>`, and what follows it. `none` is a text with no closing `>`.
unfoldable pub cut : ℕ → ℤ → Text → Option (Text × Text)
cut angle paren [] = none
cut angle paren (c ∷ s) =
    let rest = cut (cut_angle c angle paren) (cut_paren c paren) s in
    if (c == b'>') && (is_zero paren && (angle == 1)) then some ([], s) else with_char c rest

-- The state of the splitting loop: the depths, and the characters of the current field.
pub record Scan : Type 0 where
  pub angle : ℕ
  pub paren : ℕ
  pub current : Text

-- One character: the next state, and the field that it ends. `none` is a depth below zero.
unfoldable pub scan_char : ℕ → Scan → Option (Option Text × Scan)
scan_char c s =
    let kept = s.current ++ c ∷ [] in
    if c == b'<'
    then some (none, record { angle = s.angle + 1; paren = s.paren; current = kept })
    else if c == b'>'
    then (if s.angle == 0
        then none
        else some (none, record { angle = s.angle - 1; paren = s.paren; current = kept }))
    else if c == b'('
    then some (none, record { angle = s.angle; paren = s.paren + 1; current = kept })
    else if c == b')'
    then (if s.paren == 0
        then none
        else some (none, record { angle = s.angle; paren = s.paren - 1; current = kept }))
    else if (c == b',') && ((s.angle == 0) && (s.paren == 0))
    then some (some (strip s.current), record { angle = 0; paren = 0; current = [] })
    else some (none, record { angle = s.angle; paren = s.paren; current = kept })

abbrev pub last_field : Text → List Text
last_field [] = []
last_field (c ∷ s) = strip (c ∷ s) ∷ []

abbrev pub add_field : Option Text → Option (List Text) → Option (List Text)
add_field o none = none
add_field none (some fs) = some fs
add_field (some f) (some fs) = some (f ∷ fs)

unfoldable pub split_fields : Scan → Text → Option (List Text)
unfolding scan_char
split_fields s [] = if (s.angle == 0) && (s.paren == 0) then some (last_field s.current) else none
split_fields s (c ∷ t) = elim (scan_char c s) [
  | none ↦ none
  | some (ended, s') ↦ add_field ended (split_fields s' t)
]

-- `field.split(None, 1)` of a field that is stripped: its first word, and what follows it.
abbrev pub word : Text → Text
word [] = []
word (c ∷ s) = if is_space c then [] else c ∷ word s

abbrev pub after_word : Text → Text
after_word [] = []
after_word (c ∷ s) = if is_space c then lstrip (c ∷ s) else after_word s

pub record StructField : Type 0 where
  pub name : Text
  pub data_type : Text

-- A field with no characters has no part, and is left out.
unfoldable pub named_fields : List Text → List StructField
named_fields [] = []
named_fields ([] ∷ fs) = named_fields fs
named_fields ((c ∷ s) ∷ fs) =
    record { name = word (c ∷ s); data_type = after_word (c ∷ s) } ∷ named_fields fs

abbrev pub is_remainder : Text → Bool
is_remainder [] = true
is_remainder (c ∷ s) = is_space c

abbrev pub fields_of_texts : Option (List Text) → Option (List StructField)
fields_of_texts none = none
fields_of_texts (some fs) = some (named_fields fs)

abbrev pub scan_start : Scan
scan_start = record { angle = 0; paren = 0; current = [] }

-- From the inner text and the remainder.
abbrev pub inner_fields : Option (Text × Text) → Option (List StructField)
inner_fields none = none
inner_fields (some (inner, rest)) =
    if is_remainder rest then fields_of_texts (split_fields scan_start inner) else none

unfoldable pub parse_struct_fields : Text → Option (List StructField)
unfolding cut split_fields named_fields
parse_struct_fields data_type =
    if starts_with (lower (strip data_type)) struct_text
    then inner_fields (cut 1 (pos 0) (drop 7 (strip data_type)))
    else none
