-- ===== src/Columns/Shorter.antt =====
-- column.py: the types of a struct's fields are shorter than its own, so that the recursion over them ends.
use dbt_bigquery_ext.Prelude.{
  ℕ, zero, suc, ◌+◌, ◌≤◌, ◌<◌, ◌==◌, ◌&&◌, ◌≡◌, refl, ap, ◌∙◌, Bool, true, false, Option, none,
  some, some_inj, List, [], ◌∷◌, length, length-append, reverse, reverse-append, Text, lower, strip,
  lstrip, starts_with, All, All-map, if◌then◌else◌, arith,
}
use dbt_bigquery_ext.Prelude.Ints.{ℤ, pos, is_zero}
use dbt_bigquery_ext.Columns.StructType.{
  Scan, StructField, struct_text, drop, cut, cut_angle, cut_paren, with_char, scan_char,
  split_fields, last_field, add_field, after_word, named_fields, is_remainder, inner_fields,
  fields_of_texts, scan_start, parse_struct_fields,
}
use dbt_bigquery_ext.Columns.Trimmed.{length-lstrip}

length-reverse : (t : Text) → length (reverse t) ≡ length t
length-reverse [] = refl
length-reverse (c ∷ t) =
    ap (λ (u : Text). length u) (reverse-append (c ∷ []) t)
    ∙ omega (arith, length-append (reverse t) (c ∷ []), length-reverse t)

length-strip : (t : Text) → length (strip t) ≤ length t
unfolding strip
length-strip t = omega (
  arith,
  length-reverse (lstrip (reverse (lstrip t))),
  length-lstrip (reverse (lstrip t)),
  length-reverse (lstrip t),
  length-lstrip t,
)

length-drop : (n : ℕ) (t : Text) → length (drop n t) ≤ length t
length-drop zero t = omega arith
length-drop (suc n) [] = omega arith
length-drop (suc n) (c ∷ t) = omega (arith, length-drop n t)

length-after_word : (t : Text) → length (after_word t) ≤ length t
length-after_word [] = omega arith
length-after_word (c ∷ t) = ground (arith, length-after_word t, length-lstrip t)

-- The inner text has at least the closing bracket less.
cut-Shorter :
    (a : ℕ) (p : ℤ) (t inner rest : Text) → cut a p t ≡ some (inner, rest) → length inner < length t
unfolding cut
cut-Shorter a p [] inner rest h = absurd (cc)
cut-Shorter a p (c ∷ t) inner rest h =
    go (cut (cut_angle c a p) (cut_paren c p) t) refl
      (cut-Shorter (cut_angle c a p) (cut_paren c p) t) h
  where
    go :
        (o : Option (Text × Text))
        → cut (cut_angle c a p) (cut_paren c p) t ≡ o
        → ((i r : Text)
            → cut (cut_angle c a p) (cut_paren c p) t ≡ some (i, r)
            → length i < length t)
        → (if (c == b'>') && (is_zero p && (a == 1)) then some ([], t) else with_char c o)
          ≡ some (inner, rest)
        → length inner < suc (length t)
    go none e ih k = ground (arith, k)
    go (some (i, r)) e ih k = ground (arith, k, ih i r e)

abbrev Within : ℕ → Option Text → Type 0
Within n none = Unit
Within n (some f) = length f ≤ n

scan_char-Within :
    (c : ℕ) (s : Scan) (ended : Option Text) (s' : Scan)
    → scan_char c s ≡ some (ended, s')
    → (length s'.current ≤ length s.current + 1) × Within (length s.current) ended
unfolding scan_char
scan_char-Within c s none s' h = ground (arith, h, length-append s.current (c ∷ []))
scan_char-Within c s (some f) s' h =
    ground (arith, h, length-append s.current (c ∷ []), length-strip s.current)

-- After one character, with the field that it ends in front.
added-Shorter :
    (n n' m : ℕ) (ended : Option Text) (o : Option (List Text)) {fs : List Text}
    → (n' ≤ n + 1) × Within n ended
    → ((gs : List Text) → o ≡ some gs → All (λ f. length f ≤ n' + m) gs)
    → add_field ended o ≡ some fs
    → All (λ f. length f ≤ n + suc m) fs
added-Shorter n n' m none none w ih k = absurd (cc)
added-Shorter n n' m (some f) none w ih k = absurd (cc)
added-Shorter n n' m none (some gs) w ih k =
    rw (← some_inj k) (All-map _ _ (λ f le. omega (arith, le, w.0)) gs (ih gs refl))
added-Shorter n n' m (some f) (some gs) w ih k =
    rw (← some_inj k)
      (omega (arith, w.1), All-map _ _ (λ f le. omega (arith, le, w.0)) gs (ih gs refl))

split_fields-Shorter :
    (t : Text) (s : Scan) (fs : List Text)
    → split_fields s t ≡ some fs
    → All (λ f. length f ≤ length s.current + length t) fs
unfolding split_fields
split_fields-Shorter [] s fs h = go ((s.angle == 0) && (s.paren == 0)) s.current h
  where
    go :
        (b : Bool) (current : Text)
        → (if b then some (last_field current) else none) ≡ some fs
        → All (λ f. length f ≤ length current + 0) fs
    go true [] k = rw (← some_inj k) tt
    go true (c ∷ u) k = rw (← some_inj k) (omega (arith, length-strip (c ∷ u)), tt)
    go false current k = absurd (cc)
split_fields-Shorter (c ∷ t) s fs h = go (scan_char c s) refl (split_fields-Shorter t) h
  where
    go :
        (o : Option (Option Text × Scan))
        → scan_char c s ≡ o
        → ((s' : Scan) (gs : List Text)
            → split_fields s' t ≡ some gs
            → All (λ f. length f ≤ length s'.current + length t) gs)
        → elim o [ none ↦ none | some (ended, s') ↦ add_field ended (split_fields s' t) ] ≡ some fs
        → All (λ f. length f ≤ length s.current + suc (length t)) fs
    go none e ih k = absurd (cc)
    go (some (ended, s')) e ih k =
        added-Shorter (length s.current) (length s'.current) (length t) ended (split_fields s' t)
          (scan_char-Within c s ended s' e) (ih s') k

named_fields-Shorter :
    (n : ℕ) (fs : List Text)
    → All (λ f. length f ≤ n) fs
    → All (λ f. length f.data_type ≤ n) (named_fields fs)
unfolding named_fields
named_fields-Shorter n [] h = tt
named_fields-Shorter n ([] ∷ fs) h = named_fields-Shorter n fs h.1
named_fields-Shorter n ((c ∷ s) ∷ fs) h =
    (omega (arith, h.0, length-after_word (c ∷ s)), named_fields-Shorter n fs h.1)

abbrev pub Shorter : ℕ → List StructField → Type 0
Shorter n = All (λ f. length f.data_type < n)

fields_of_texts-Shorter :
    (n : ℕ) (o : Option (List Text)) {fs : List StructField}
    → ((gs : List Text) → o ≡ some gs → All (λ f. length f ≤ n) gs)
    → fields_of_texts o ≡ some fs
    → Shorter (suc n) fs
fields_of_texts-Shorter n none h k = absurd (cc)
fields_of_texts-Shorter n (some gs) h k = rw (← some_inj k) (
    All-map _ _ (λ f le. omega (arith, le)) (named_fields gs)
      (named_fields-Shorter n gs (h gs refl)))

inner_fields-Shorter :
    (n : ℕ) (o : Option (Text × Text)) {fs : List StructField}
    → ((i r : Text) → o ≡ some (i, r) → length i < n)
    → inner_fields o ≡ some fs
    → Shorter n fs
inner_fields-Shorter n none h k = absurd (cc)
inner_fields-Shorter n (some (i, r)) {fs} h k = go (is_remainder r) k
  where
    go :
        (b : Bool)
        → (if b then fields_of_texts (split_fields scan_start i) else none) ≡ some fs
        → Shorter n fs
    go true e =
        All-map _ _ (λ f le. omega (arith, le, h i r refl)) fs
          (fields_of_texts-Shorter (0 + length i) (split_fields scan_start i)
            (split_fields-Shorter i scan_start) e)
    go false e = absurd (cc)

pub parse_struct_fields-Shorter :
    (t : Text) (fs : List StructField) → parse_struct_fields t ≡ some fs → Shorter (length t) fs
unfolding parse_struct_fields
parse_struct_fields-Shorter t fs h = go (starts_with (lower (strip t)) struct_text) h
  where
    go :
        (b : Bool)
        → (if b then inner_fields (cut 1 (pos 0) (drop 7 (strip t))) else none) ≡ some fs
        → Shorter (length t) fs
    go true k =
        inner_fields-Shorter (length t) (cut 1 (pos 0) (drop 7 (strip t)))
          (λ i r e. omega (
            arith,
            cut-Shorter 1 (pos 0) (drop 7 (strip t)) i r e,
            length-drop 7 (strip t),
            length-strip t,
          ))
          k
    go false k = absurd (cc)
