-- ===== src/Adapter/Sorted.antt =====
-- Python's `sorted` on texts: equal for two lists exactly where each is the other in some order.
use dbt_bigquery_ext.Prelude.{
  ◌≡◌, ◌↔◌, refl, sym, subst, ◌∙◌, true, false, Bool-cases, inl, inr, List, [], ◌∷◌, Text,
  text_eq_iff, text_ltb, text_ltb_total, if◌then◌else◌, arith,
}
use mathlib.Core.List.{Permᴰ}
use mathlib.Core.List.Permᴰ

unfoldable pub insert_text : Text → List Text → List Text
insert_text s [] = s ∷ []
insert_text s (t ∷ ts) =
    let rest = insert_text s ts in if text_ltb t s then t ∷ rest else s ∷ t ∷ ts

unfoldable pub sorted_texts : List Text → List Text
unfolding insert_text
sorted_texts [] = []
sorted_texts (s ∷ ss) = insert_text s (sorted_texts ss)

text_ltb_asym : (s t : Text) → text_ltb s t ≡ true → text_ltb t s ≡ false
unfolding text_ltb
text_ltb_asym [] [] h = cc
text_ltb_asym [] (d ∷ t) h = refl
text_ltb_asym (c ∷ s) [] h = absurd (cc)
text_ltb_asym (c ∷ s) (d ∷ t) h = ground (arith, h, text_ltb_asym s t)

-- Where z is below x and not below y, y is below x.
text_ltb_trans : (x y z : Text) → text_ltb z x ≡ true → text_ltb z y ≡ false → text_ltb y x ≡ true
unfolding text_ltb
text_ltb_trans x [] [] h k = h
text_ltb_trans x [] (e ∷ z) h k = go x h
  where
    go : (x : Text) → text_ltb (e ∷ z) x ≡ true → text_ltb [] x ≡ true
    go [] h = absurd (cc)
    go (c ∷ x) h = refl
text_ltb_trans x (d ∷ y) [] h k = absurd (cc)
text_ltb_trans [] (d ∷ y) (e ∷ z) h k = absurd (cc)
text_ltb_trans (c ∷ x) (d ∷ y) (e ∷ z) h k = ground (arith, h, k, text_ltb_trans x y z)

-- Two insertions commute.
insert_text_comm :
    (x y : Text) (l : List Text) → insert_text x (insert_text y l) ≡ insert_text y (insert_text x l)
unfolding insert_text
insert_text_comm x y [] =
    ground (arith, text_eq_iff x y, text_ltb_asym x y, text_ltb_total x y, text_ltb_asym y x)
insert_text_comm x y (z ∷ l) = ground (
  arith,
  text_eq_iff x y,
  text_ltb_asym x y,
  text_ltb_asym y x,
  text_ltb_total x y,
  text_ltb_trans x y z,
  text_ltb_trans y x z,
  insert_text_comm x y l,
)

sorted_texts-perm : {xs ys : List Text} → Permᴰ xs ys → sorted_texts xs ≡ sorted_texts ys
unfolding sorted_texts
sorted_texts-perm Permᴰ.nil = refl
sorted_texts-perm (Permᴰ.cons {a = a} {b = b} {l₁ = l} {l₂ = m} e p) =
    λ i. insert_text (e i) (sorted_texts-perm p i)
sorted_texts-perm (Permᴰ.swap {a = a} {b = b} {a' = c} {b' = d} {l = l} e f) =
    insert_text_comm a b (sorted_texts l)
    ∙ (λ i. insert_text (f i) (insert_text (e i) (sorted_texts l)))
sorted_texts-perm (Permᴰ.trans p q) = sorted_texts-perm p ∙ sorted_texts-perm q

insert_text-perm : (s : Text) (ts : List Text) → Permᴰ (insert_text s ts) (s ∷ ts)
unfolding insert_text
insert_text-perm s [] = Permᴰ.refl (s ∷ [])
insert_text-perm s (t ∷ ts) = elim (Bool-cases (text_ltb t s)) [
  | inl e ↦ rw e (Permᴰ.trans (Permᴰ.cons refl (insert_text-perm s ts)) (Permᴰ.swap refl refl))
  | inr e ↦ rw e (Permᴰ.refl (s ∷ t ∷ ts))
]

perm_sorted : (ss : List Text) → Permᴰ (sorted_texts ss) ss
unfolding sorted_texts
perm_sorted [] = Permᴰ.nil
perm_sorted (s ∷ ss) =
    Permᴰ.trans (insert_text-perm s (sorted_texts ss)) (Permᴰ.cons refl (perm_sorted ss))

pub sorted_texts-eq_iff : (xs ys : List Text) → (sorted_texts xs ≡ sorted_texts ys) ↔ Permᴰ xs ys
sorted_texts-eq_iff xs ys = (
  λ e. Permᴰ.trans (Permᴰ.symm (perm_sorted xs)) (subst (λ l. Permᴰ l ys) (sym e) (perm_sorted ys)),
  λ p. sorted_texts-perm p,
)
