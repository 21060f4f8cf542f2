-- ===== src/Columns/Balanced.antt =====
-- column.py `_parse_struct_fields` on texts whose brackets are balanced.
use dbt_bigquery_ext.Prelude.{
  ℕ, zero, suc, ◌+◌, ◌-◌, ◌==◌, ◌≡◌, refl, ap, ◌∙◌, ltb, Bool, true, false, ◌&&◌, ◌||◌, not,
  and_split, ==_iff, Option, none, some, List, [], ◌∷◌, ◌++◌, append_assoc, append-nil, Text, codes,
  is_space, All, if◌then◌else◌, arith,
}
use dbt_bigquery_ext.Prelude.Ints.{pos}
use dbt_bigquery_ext.Columns.StructType.{Scan, cut, with_char, scan_char, split_fields, add_field}

abbrev angle_after : ℕ → ℕ → ℕ
angle_after c a = if c == b'<' then a + 1 else if c == b'>' then a - 1 else a

abbrev paren_after : ℕ → ℕ → ℕ
paren_after c p = if c == b'(' then p + 1 else if c == b')' then p - 1 else p

-- The character may stand at these depths: angle brackets in no parentheses, none closed that is not
-- open, and a comma at depth zero only where the flag allows it.
abbrev fits : Bool → ℕ → ℕ → ℕ → Bool
fits commas a p c =
    if c == b'<'
    then p == 0
    else if c == b'>'
    then (p == 0) && ltb 0 a
    else if c == b')'
    then ltb 0 p
    else if c == b','
    then commas || (ltb 0 a || ltb 0 p)
    else true

unfoldable pub balanced : Bool → ℕ → ℕ → Text → Bool
balanced commas a p [] = (a == 0) && (p == 0)
balanced commas a p (c ∷ t) =
    fits commas a p c && balanced commas (angle_after c a) (paren_after c p) t

cut_step :
    (commas : Bool) (a p c : ℕ) (t : Text)
    → fits commas a p c ≡ true
    → cut (a + 1) (pos p) (c ∷ t)
      ≡ with_char c (cut (angle_after c a + 1) (pos (paren_after c p)) t)
unfolding cut
cut_step commas a zero c t h = ground (arith, h)
cut_step commas a (suc p) c t h = ground (arith, h)

scan_step :
    (a p c : ℕ) (current : Text)
    → fits false a p c ≡ true
    → scan_char c (record { angle = a; paren = p; current = current })
      ≡ some (
        none,
        record { angle = angle_after c a; paren = paren_after c p; current = current ++ c ∷ [] },
      )
unfolding scan_char
scan_step a p c current h = ground (arith, h)

abbrev pub with_text : Text → Option (Text × Text) → Option (Text × Text)
with_text [] o = o
with_text (c ∷ t) o = with_char c (with_text t o)

pub with_text-some :
    (t inner rest : Text) → with_text t (some (inner, rest)) ≡ some (t ++ inner, rest)
with_text-some [] inner rest = refl
with_text-some (c ∷ t) inner rest = rw (with_text-some t inner rest) refl

-- A balanced text is read through, whatever follows.
pub cut-append :
    (commas : Bool) (a p : ℕ) (t rest : Text)
    → balanced commas a p t ≡ true
    → cut (a + 1) (pos p) (t ++ rest) ≡ with_text t (cut 1 (pos 0) rest)
unfolding balanced
cut-append commas a p [] rest h =
    let (ha, hp) = and_split _ _ h in
    let ea = (==_iff a 0).0 ha in let ep = (==_iff p 0).0 hp in rw (ea, ep) refl
cut-append commas a p (c ∷ t) rest h =
    let (h0, h1) = and_split _ _ h in
    cut_step commas a p c (t ++ rest) h0
    ∙ ap (with_char c) (cut-append commas (angle_after c a) (paren_after c p) t rest h1)

pub none_added : (o : Option (List Text)) → add_field none o ≡ o
none_added none = refl
none_added (some fs) = refl

abbrev pub scan_at : ℕ → ℕ → Text → Scan
scan_at a p current = record { angle = a; paren = p; current = current }

split_step :
    (a p c : ℕ) (current t : Text)
    → fits false a p c ≡ true
    → split_fields (scan_at a p current) (c ∷ t)
      ≡ split_fields (scan_at (angle_after c a) (paren_after c p) (current ++ c ∷ [])) t
unfolding split_fields
split_step a p c current t h =
    rw (scan_step a p c current h, split_fields) (none_added (split_fields _ t))

-- Up to a comma at depth zero.
pub split_fields-append :
    (a p : ℕ) (current t rest : Text)
    → balanced false a p t ≡ true
    → split_fields (scan_at a p current) (t ++ rest)
      ≡ split_fields (scan_at 0 0 (current ++ t)) rest
unfolding balanced
split_fields-append a p current [] rest h =
    let (ha, hp) = and_split _ _ h in
    let ea = (==_iff a 0).0 ha in let ep = (==_iff p 0).0 hp in rw (ea, ep, append-nil current) refl
split_fields-append a p current (c ∷ t) rest h =
    let (h0, h1) = and_split _ _ h in
    split_step a p c current (t ++ rest) h0
    ∙ split_fields-append (angle_after c a) (paren_after c p) (current ++ c ∷ []) t rest h1
    ∙ ap (λ u. split_fields (scan_at 0 0 u) rest) (append_assoc current (c ∷ []) t)

fits-commas : (a p c : ℕ) → fits false a p c ≡ true → fits true a p c ≡ true
fits-commas a p c h = ground (arith, h)

fits-deeper :
    (a p c : ℕ)
    → fits true a p c ≡ true
    → (fits false (a + 1) p c ≡ true) × (angle_after c (a + 1) ≡ angle_after c a + 1)
fits-deeper a p c h = (ground (arith, h), ground (arith, h))

-- A character of a name: no white space, bracket or comma.
abbrev pub plain : ℕ → Bool
plain c =
    not (is_space c)
    && (not (c == b'<')
        && (not (c == b'>') && (not (c == b'(') && (not (c == b')') && not (c == b',')))))

plain_step :
    (c : ℕ)
    → plain c ≡ true
    → (fits false 0 0 c ≡ true) × (angle_after c 0 ≡ 0) × (paren_after c 0 ≡ 0)
plain_step c h = (ground (arith, h), ground (arith, h), ground (arith, h))

balanced_cons :
    (commas : Bool) (a p c : ℕ) (t : Text)
    → balanced commas a p (c ∷ t) ≡ true
    → (fits commas a p c ≡ true) × (balanced commas (angle_after c a) (paren_after c p) t ≡ true)
unfolding balanced
balanced_cons commas a p c t h = and_split (fits commas a p c) _ h

pub balanced-append :
    (commas : Bool) (a p : ℕ) (t u : Text)
    → balanced commas a p t ≡ true
    → balanced commas 0 0 u ≡ true
    → balanced commas a p (t ++ u) ≡ true
unfolding balanced
balanced-append commas a p [] u h k =
    let (ha, hp) = and_split _ _ h in rw ((==_iff a 0).0 ha, (==_iff p 0).0 hp) k
balanced-append commas a p (c ∷ t) u h k =
    let (h0, h1) = balanced_cons commas a p c t h in
    rw h0 (balanced-append commas (angle_after c a) (paren_after c p) t u h1 k)

pub balanced-commas :
    (a p : ℕ) (t : Text) → balanced false a p t ≡ true → balanced true a p t ≡ true
unfolding balanced
balanced-commas a p [] h = h
balanced-commas a p (c ∷ t) h =
    let (h0, h1) = balanced_cons false a p c t h in
    rw (fits-commas a p c h0) (balanced-commas (angle_after c a) (paren_after c p) t h1)

-- Between angle brackets every comma is allowed.
pub balanced-deeper :
    (a p : ℕ) (t : Text)
    → balanced true a p t ≡ true
    → balanced false (a + 1) p (t ++ codes ">") ≡ true
unfolding balanced
balanced-deeper a p [] h =
    let (ha, hp) = and_split _ _ h in rw ((==_iff a 0).0 ha, (==_iff p 0).0 hp) refl
balanced-deeper a p (c ∷ t) h =
    let (h0, h1) = balanced_cons true a p c t h in
    let (k0, k1) = fits-deeper a p c h0 in
    rw (k0, k1) (balanced-deeper (angle_after c a) (paren_after c p) t h1)

pub balanced-plain :
    (t u : Text)
    → All (λ c. plain c ≡ true) t
    → balanced false 0 0 u ≡ true
    → balanced false 0 0 (t ++ u) ≡ true
unfolding balanced
balanced-plain [] u h k = k
balanced-plain (c ∷ t) u h k =
    let (k0, k1, k2) = plain_step c h.0 in rw (k0, k1, k2) (balanced-plain t u h.1 k)

pub balanced_nil : balanced false 0 0 [] ≡ true
unfolding balanced
balanced_nil = refl

pub balanced_space :
    (t : Text) → balanced false 0 0 t ≡ true → balanced false 0 0 (codes " " ++ t) ≡ true
unfolding balanced
balanced_space t h = h

pub plain-space : (c : ℕ) → plain c ≡ true → is_space c ≡ false
plain-space c h = ground (arith, h)
