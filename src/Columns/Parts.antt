-- ===== src/Columns/Parts.antt =====
-- column.py: `_parse_struct_fields` splits a struct that is printed of parts into the parts.
use dbt_bigquery_ext.Prelude.{
  ℕ, ◌≡◌, ◌⊎◌, inl, inr, refl, ap, subst, ◌∙◌, true, false, some, List, [], ◌∷◌, ◌++◌, append_assoc,
  append-nil, reverse-reverse, Text, codes, lower, strip, starts_with, join, All,
}
use dbt_bigquery_ext.Prelude.Ints.{pos}
use dbt_bigquery_ext.Columns.StructType.{
  cut, split_fields, add_field, named_fields, inner_fields, fields_of_texts, parse_struct_fields,
}
use dbt_bigquery_ext.Columns.Nested.{struct_of}
use dbt_bigquery_ext.Columns.Trimmed.{IsTrimmed, strip-IsTrimmed, IsTrimmed-ends}
use dbt_bigquery_ext.Columns.Balanced.{
  balanced, scan_at, with_text-some, cut-append, split_fields-append, balanced-append,
  balanced-commas, balanced-deeper, none_added,
}

-- The text of a field: not empty, trimmed, its brackets balanced and its commas inside them.
abbrev pub IsPart : Text → Type 0
IsPart [] = ⊥
IsPart (c ∷ t) = IsTrimmed (c ∷ t) × (balanced false 0 0 (c ∷ t) ≡ true)

IsPart-cases : (t : Text) → IsPart t → (c : ℕ) × (u : Text) × (t ≡ c ∷ u)
IsPart-cases [] h = elim h [ ]
IsPart-cases (c ∷ t) h = (c, t, refl)

IsPart-IsTrimmed : (t : Text) → IsPart t → IsTrimmed t
IsPart-IsTrimmed [] h = elim h [ ]
IsPart-IsTrimmed (c ∷ t) h = h.0

IsPart-balanced : (t : Text) → IsPart t → balanced false 0 0 t ≡ true
IsPart-balanced [] h = elim h [ ]
IsPart-balanced (c ∷ t) h = h.1

-- At the beginning of a field: no character, or the space after a comma.
abbrev Blank : Text → Type 0
Blank cur = (cur ≡ []) ⊎ (cur ≡ codes " ")

strip-Blank : (cur t : Text) → Blank cur → IsTrimmed t → strip (cur ++ t) ≡ t
unfolding strip
strip-Blank cur t (inl e) h = rw (e, h.0, h.1) (reverse-reverse t)
strip-Blank cur t (inr e) h = rw (e, h.0, h.1) (reverse-reverse t)

split_last :
    (cur p : Text) → Blank cur → IsPart p → split_fields (scan_at 0 0 (cur ++ p)) [] ≡ some (p ∷ [])
unfolding split_fields
split_last cur [] b h = elim h [ ]
split_last cur (c ∷ t) (inl e) h =
    rw e (ap (λ u. some (u ∷ [])) (strip-Blank [] (c ∷ t) (inl refl) h.0))
split_last cur (c ∷ t) (inr e) h =
    rw e (ap (λ u. some (u ∷ [])) (strip-Blank (codes " ") (c ∷ t) (inr refl) h.0))

-- A comma and a space end a field.
split_comma :
    (cur t : Text)
    → split_fields (scan_at 0 0 cur) (codes ", " ++ t)
      ≡ add_field (some (strip cur)) (split_fields (scan_at 0 0 (codes " ")) t)
unfolding split_fields
split_comma cur t = ap (add_field (some (strip cur))) (none_added (split_fields _ t))

split_fields-join :
    (cur p : Text) (ps : List Text)
    → Blank cur
    → IsPart p
    → All IsPart ps
    → split_fields (scan_at 0 0 cur) (join (codes ", ") (p ∷ ps)) ≡ some (p ∷ ps)
unfolding join
split_fields-join cur p [] b h a =
    subst (λ u. split_fields (scan_at 0 0 cur) u ≡ some (p ∷ [])) (append-nil p)
      (split_fields-append 0 0 cur p [] (IsPart-balanced p h) ∙ split_last cur p b h)
split_fields-join cur p (q ∷ ps) b h a =
    let rest = join (codes ", ") (q ∷ ps) in
    let ih = split_fields-join (codes " ") q ps (inr refl) a.0 a.1 in
    rw (append_assoc p (codes ", ") rest) (
      split_fields-append 0 0 cur p (codes ", " ++ rest) (IsPart-balanced p h)
      ∙ split_comma (cur ++ p) rest
      ∙ rw (strip-Blank cur p b (IsPart-IsTrimmed p h), ih) refl)

balanced-join : (ps : List Text) → All IsPart ps → balanced true 0 0 (join (codes ", ") ps) ≡ true
unfolding join balanced
balanced-join [] a = refl
balanced-join (p ∷ []) a = balanced-commas 0 0 p (IsPart-balanced p a.0)
balanced-join (p ∷ q ∷ ps) a =
    let rest = join (codes ", ") (q ∷ ps) in
    rw (append_assoc p (codes ", ") rest) (
      balanced-append true 0 0 p (codes ", " ++ rest)
        (balanced-commas 0 0 p (IsPart-balanced p a.0)) (balanced-join (q ∷ ps) a.1))

pub struct_of-IsPart : (ps : List Text) → All IsPart ps → IsPart (struct_of ps)
unfolding balanced
struct_of-IsPart ps a =
    let inner = join (codes ", ") ps in
    (
      IsTrimmed-ends b's' b'>' (codes "truct<" ++ inner) refl refl,
      balanced-deeper 0 0 inner (balanced-join ps a),
    )

split_parts :
    (ps : List Text)
    → All IsPart ps
    → split_fields (scan_at 0 0 []) (join (codes ", ") ps) ≡ some ps
unfolding split_fields join
split_parts [] a = refl
split_parts (p ∷ ps) a = split_fields-join [] p ps (inl refl) a.0 a.1

cut_struct :
    (ps : List Text)
    → All IsPart ps
    → cut 1 (pos 0) (join (codes ", ") ps ++ codes ">") ≡ some (join (codes ", ") ps, [])
unfolding cut
cut_struct ps a =
    let inner = join (codes ", ") ps in
    cut-append true 0 0 inner (codes ">") (balanced-join ps a)
    ∙ with_text-some inner [] []
    ∙ ap (λ u. some (u, [])) (append-nil inner)

-- A struct of such parts is read as their names and types.
pub parse-struct_of :
    (ps : List Text) → All IsPart ps → parse_struct_fields (struct_of ps) ≡ some (named_fields ps)
unfolding parse_struct_fields starts_with lower
parse-struct_of ps a =
    rw (strip-IsTrimmed (struct_of ps) (IsPart-IsTrimmed (struct_of ps) (struct_of-IsPart ps a)))
      (ap inner_fields (cut_struct ps a) ∙ ap fields_of_texts (split_parts ps a))
