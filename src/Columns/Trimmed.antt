-- ===== src/Columns/Trimmed.antt =====
-- White space at the ends of texts, and the first word of a field: column.py `_parse_struct_fields`.
use dbt_bigquery_ext.Prelude.{
  ℕ, ◌≤◌, ◌≡◌, inl, inr, refl, ap, ◌∙◌, false, Bool-cases, [], ◌∷◌, ◌++◌, length, append_assoc,
  reverse, reverse-append, reverse-reverse, Text, codes, strip, lstrip, is_space, All-append,
  NoSpace, arith,
}
use dbt_bigquery_ext.Columns.StructType.{word, after_word}

-- No white space at either end.
abbrev pub IsTrimmed : Text → Type 0
IsTrimmed t = (lstrip t ≡ t) × (lstrip (reverse t) ≡ reverse t)

pub strip-IsTrimmed : (t : Text) → IsTrimmed t → strip t ≡ t
unfolding strip
strip-IsTrimmed t h = rw (h.0, h.1) (reverse-reverse t)

pub IsTrimmed-ends :
    (c d : ℕ) (t : Text) → is_space c ≡ false → is_space d ≡ false → IsTrimmed (c ∷ (t ++ d ∷ []))
IsTrimmed-ends c d t h k = (rw h refl, rw (reverse-append (c ∷ t) (d ∷ []), k) refl)

pub length-lstrip : (t : Text) → length (lstrip t) ≤ length t
length-lstrip [] = omega arith
length-lstrip (c ∷ t) = ground (arith, length-lstrip t)

-- What does not begin with white space keeps that beginning.
lstrip_keep : (c : ℕ) (s u : Text) → lstrip (c ∷ s) ≡ c ∷ s → lstrip (c ∷ (s ++ u)) ≡ c ∷ (s ++ u)
lstrip_keep c s u h = elim (Bool-cases (is_space c)) [
  | inl e ↦
      let k : lstrip s ≡ c ∷ s = (rw e at h) in
      absurd (omega (arith, ap (λ (t : Text). length t) k, length-lstrip s))
  | inr e ↦ rw e refl
]

snoc-cons : (r : Text) (c : ℕ) → (d : ℕ) × (s : Text) × (r ++ c ∷ [] ≡ d ∷ s)
snoc-cons [] c = (c, [], refl)
snoc-cons (d ∷ r) c = (d, r ++ c ∷ [], refl)

lstrip-reverse_append :
    (c : ℕ) (t u : Text)
    → lstrip (reverse (c ∷ t)) ≡ reverse (c ∷ t)
    → lstrip (reverse (c ∷ t) ++ u) ≡ reverse (c ∷ t) ++ u
lstrip-reverse_append c t u h =
    let (d, s, e) = snoc-cons (reverse t) c in
    let k = reverse-append (c ∷ []) t ∙ e in rw k (lstrip_keep d s u (rw k at h))

NoSpace-reverse : (t : Text) → NoSpace t → NoSpace (reverse t)
NoSpace-reverse [] h = tt
NoSpace-reverse (c ∷ t) h =
    rw (reverse-append (c ∷ []) t)
      (All-append _ (reverse t) (c ∷ []) (NoSpace-reverse t h.1) (h.0, tt))

lstrip-NoSpace : (t : Text) → NoSpace t → lstrip t ≡ t
lstrip-NoSpace [] h = refl
lstrip-NoSpace (c ∷ t) h = rw h.0 refl

pub NoSpace-IsTrimmed : (t : Text) → NoSpace t → IsTrimmed t
NoSpace-IsTrimmed t h = (lstrip-NoSpace t h, lstrip-NoSpace (reverse t) (NoSpace-reverse t h))

-- A word with a space after it is stripped to the word.
pub strip-word : (c : ℕ) (n : Text) → NoSpace (c ∷ n) → strip ((c ∷ n) ++ codes " ") ≡ c ∷ n
unfolding strip
strip-word c n h =
    rw
      (
        h.0,
        reverse-append (c ∷ n) (codes " "),
        lstrip-NoSpace (reverse (c ∷ n)) (NoSpace-reverse (c ∷ n) h),
      )
      (reverse-reverse (c ∷ n))

-- A word, a space and a trimmed text are trimmed.
pub IsTrimmed-word :
    (c d : ℕ) (n t : Text)
    → is_space c ≡ false
    → IsTrimmed (d ∷ t)
    → IsTrimmed ((c ∷ n) ++ (codes " " ++ d ∷ t))
IsTrimmed-word c d n t h k = (
  rw h refl,
  rw
      (
        reverse-append (c ∷ n) (codes " " ++ d ∷ t),
        reverse-append (codes " ") (d ∷ t),
        append_assoc (reverse (d ∷ t)) (reverse (codes " ")) (reverse (c ∷ n)),
      )
      (lstrip-reverse_append d t (reverse (codes " ") ++ reverse (c ∷ n)) k.1),
)

pub word-append : (n t : Text) → NoSpace n → word (n ++ (codes " " ++ t)) ≡ n
word-append [] t h = refl
word-append (c ∷ n) t h = rw h.0 (ap (λ u. c ∷ u) (word-append n t h.1))

pub after_word-append : (n t : Text) → NoSpace n → after_word (n ++ (codes " " ++ t)) ≡ lstrip t
after_word-append [] t h = refl
after_word-append (c ∷ n) t h = rw h.0 (after_word-append n t h.1)

pub word-NoSpace : (n : Text) → NoSpace n → (word n ≡ n) × (after_word n ≡ [])
word-NoSpace [] h = (refl, refl)
word-NoSpace (c ∷ n) h = let (e, k) = word-NoSpace n h.1 in (rw h.0 (ap (λ u. c ∷ u) e), rw h.0 k)
