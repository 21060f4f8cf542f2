-- ===== src/Prelude/Texts.antt =====
-- Texts as lists of code points: Python's `str`, and Postgres's `TEXT`.
use Prim.Native.Nat.{ℕ, ◌+◌, ◌-◌}
use Prim.Native.Char.{code}
use Prim.Native.String.{String}
use mathlib.Core.Path.{◌≡◌, refl}
use mathlib.Core.Logic.{◌↔◌, ◌≢◌, inl, inr}
use mathlib.Core.Bool.{Bool, true, false, ◌&&◌, ◌||◌}
use mathlib.Core.List.{List, [], ◌∷◌, ◌++◌, map, reverse, reverse-append, reverse-reverse}
use native.Mathlib.Omega.{arith}
use dbt_bigquery_ext.Prelude.Tests.{Bool-cases, ltb, leb, ◌==◌, if◌then◌else◌}
use dbt_bigquery_ext.Prelude.Lists.{All, In}

abbrev pub Text : Type 0
Text = List ℕ

abbrev pub codes : String → Text
codes String.[] = []
codes (String.◌∷◌ c s) = code c ∷ codes s

unfoldable pub text_eq : Text → Text → Bool
text_eq [] [] = true
text_eq [] (d ∷ t) = false
text_eq (c ∷ s) [] = false
text_eq (c ∷ s) (d ∷ t) = (c == d) && text_eq s t

pub text_eq_refl : (s : Text) → text_eq s s ≡ true
unfolding text_eq
text_eq_refl [] = refl
text_eq_refl (c ∷ s) = ground (arith, text_eq_refl s)

text_eq_sound : (s t : Text) → text_eq s t ≡ true → s ≡ t
unfolding text_eq
text_eq_sound [] [] h = refl
text_eq_sound [] (d ∷ t) h = cc
text_eq_sound (c ∷ s) [] h = cc
text_eq_sound (c ∷ s) (d ∷ t) h = ground (arith, text_eq_sound s t)

pub text_eq_iff : (s t : Text) → (text_eq s t ≡ true) ↔ (s ≡ t)
text_eq_iff s t = (text_eq_sound s t, λ e. rw e (text_eq_refl t))

-- `s < t` of Python: by code points, a proper prefix first.
unfoldable pub text_ltb : Text → Text → Bool
text_ltb s [] = false
text_ltb [] (d ∷ t) = true
text_ltb (c ∷ s) (d ∷ t) = ltb c d || ((c == d) && text_ltb s t)

-- `s.startswith(t)`.
unfoldable pub starts_with : Text → Text → Bool
starts_with s [] = true
starts_with [] (d ∷ t) = false
starts_with (c ∷ s) (d ∷ t) = (c == d) && starts_with s t

-- `needle in s`.
unfoldable pub contains : Text → Text → Bool
unfolding starts_with
contains [] needle = starts_with [] needle
contains (c ∷ s) needle = starts_with (c ∷ s) needle || contains s needle

-- `s.lower()` and `s.upper()`, on the ASCII letters.
abbrev lower_char : ℕ → ℕ
lower_char c = if leb b'A' c && leb c b'Z' then c + 32 else c

abbrev upper_char : ℕ → ℕ
upper_char c = if leb b'a' c && leb c b'z' then c - 32 else c

unfoldable pub lower : Text → Text
lower = map lower_char

unfoldable pub upper : Text → Text
upper = map upper_char

abbrev pub is_space : ℕ → Bool
is_space c = (c == 32) || (leb 9 c && leb c 13) || (leb 28 c && leb c 31)

abbrev pub lstrip : Text → Text
lstrip [] = []
lstrip (c ∷ s) = if is_space c then lstrip s else c ∷ s

-- `s.strip()`, on the ASCII white space.
unfoldable pub strip : Text → Text
strip s = reverse (lstrip (reverse (lstrip s)))

-- `s.replace(c, "")` for one character.
unfoldable pub remove_char : ℕ → Text → Text
remove_char c [] = []
remove_char c (d ∷ s) = if c == d then remove_char c s else d ∷ remove_char c s

-- `s.replace(c, t)` for one character.
unfoldable pub replace_char : ℕ → Text → Text → Text
replace_char c t [] = []
replace_char c t (d ∷ s) = (if c == d then t else d ∷ []) ++ replace_char c t s

-- One character in front of the first part.
abbrev pub glue : ℕ → List Text → List Text
glue d [] = (d ∷ []) ∷ []
glue d (p ∷ ps) = (d ∷ p) ∷ ps

-- `s.split(c)` for one character: the parts between its occurrences, at least one.
unfoldable pub split : ℕ → Text → List Text
split c [] = [] ∷ []
split c (d ∷ s) = if c == d then [] ∷ split c s else glue d (split c s)

-- `c.join(parts)`.
unfoldable pub join : Text → List Text → Text
join c [] = []
join c (p ∷ []) = p
join c (p ∷ q ∷ ps) = p ++ c ++ join c (q ∷ ps)

-- The character does not occur.
abbrev pub Lacks : ℕ → Text → Type 0
Lacks c = All (λ d. c ≢ d)

pub remove_char-Lacks : (c : ℕ) (s : Text) → Lacks c s → remove_char c s ≡ s
unfolding remove_char
remove_char-Lacks c [] h = refl
remove_char-Lacks c (d ∷ s) h = ground (arith, remove_char-Lacks c s h.1)

pub remove_char-append :
    (c : ℕ) (s t : Text) → remove_char c (s ++ t) ≡ remove_char c s ++ remove_char c t
unfolding remove_char
remove_char-append c [] t = refl
remove_char-append c (d ∷ s) t = ground (arith, remove_char-append c s t)

pub split-Lacks : (c : ℕ) (s : Text) → Lacks c s → split c s ≡ s ∷ []
unfolding split
split-Lacks c [] h = refl
split-Lacks c (d ∷ s) h = ground (arith, split-Lacks c s h.1)

pub split-append : (c : ℕ) (s t : Text) → Lacks c s → split c (s ++ c ∷ t) ≡ s ∷ split c t
unfolding split
split-append c [] t h = ground arith
split-append c (d ∷ s) t h = ground (arith, split-append c s t h.1)

-- A text is cut in one way at the first occurrence of a character.
pub cut_unique :
    (c : ℕ) (s t s' t' : Text)
    → Lacks c s
    → Lacks c s'
    → s ++ c ∷ t ≡ s' ++ c ∷ t'
    → (s ≡ s') × (t ≡ t')
cut_unique c [] t [] t' h h' e = (refl, cc)
cut_unique c [] t (d ∷ s') t' h h' e = absurd (h'.0 (cc))
cut_unique c (d ∷ s) t [] t' h h' e = absurd (h.0 (cc))
cut_unique c (d ∷ s) t (d' ∷ s') t' h h' e =
    let r = cut_unique c s t s' t' h.1 h'.1 (cc) in (cc, r.1)

-- `s.endswith(t)`.
unfoldable pub ends_with : Text → Text → Bool
unfolding starts_with
ends_with s t = starts_with (reverse s) (reverse t)

pub starts_with-append : (t u : Text) → starts_with (t ++ u) t ≡ true
unfolding starts_with
starts_with-append [] u = refl
starts_with-append (c ∷ t) u = ground (arith, starts_with-append t u)

pub ends_with-append : (s t : Text) → ends_with (s ++ t) t ≡ true
unfolding ends_with
ends_with-append s t = rw reverse-append (starts_with-append (reverse t) (reverse s))

pub tail_eq : {c d : ℕ} {s t : Text} → c ∷ s ≡ d ∷ t → s ≡ t
tail_eq e = cc

abbrev pub NoSpace : Text → Type 0
NoSpace = All (λ c. is_space c ≡ false)

pub lstrip-append : (b t : Text) → NoSpace b → lstrip t ≡ t → lstrip (b ++ t) ≡ b ++ t
lstrip-append [] t h e = e
lstrip-append (c ∷ b) t h e = rw h.0

-- A text with no white space but for a tail that neither begins nor ends with it is not stripped.
pub strip-append :
    (b t : Text)
    → NoSpace b
    → lstrip t ≡ t
    → lstrip (reverse t ++ reverse b) ≡ reverse t ++ reverse b
    → strip (b ++ t) ≡ b ++ t
unfolding strip
strip-append b t h e k =
    rw (lstrip-append b t h e, reverse-append b t, k, ← reverse-append b t)
      (reverse-reverse (b ++ t))

pub contains-append :
    (b t needle : Text) → contains t needle ≡ true → contains (b ++ t) needle ≡ true
unfolding contains
contains-append [] t needle h = h
contains-append (c ∷ b) t needle h = ground (arith, contains-append b t needle h)

-- Two texts that are neither equal nor in order are in the other order.
pub text_ltb_total : (s t : Text) → text_eq s t ≡ false → text_ltb s t ≡ false → text_ltb t s ≡ true
unfolding text_eq text_ltb
text_ltb_total [] [] h k = cc
text_ltb_total [] (d ∷ t) h k = cc
text_ltb_total (c ∷ s) [] h k = refl
text_ltb_total (c ∷ s) (d ∷ t) h k = ground (arith, text_ltb_total s t)

-- `s in seen`, for a set of texts.
unfoldable pub member : Text → List Text → Bool
member s [] = false
member s (t ∷ ts) = text_eq s t || member s ts

pub member_iff : (s : Text) (ts : List Text) → (member s ts ≡ true) ↔ In s ts
unfolding member
member_iff s [] = (λ e. absurd (cc), λ h. elim h [ ])
member_iff s (t ∷ ts) = elim (Bool-cases (text_eq s t)) [
  | inl e ↦ rw e (λ h. inl ((text_eq_iff s t).0 e), λ h. refl)
  | inr e ↦ rw e (
    λ h. inr ((member_iff s ts).0 h),
    elim [ inl q ↦ absurd (cc (e, (text_eq_iff s t).1 q)) | inr m ↦ (member_iff s ts).1 m ],
  )
]
