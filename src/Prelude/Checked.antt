-- ===== src/Prelude/Checked.antt =====
-- Results whose error is a value of a type that the component declares, one constructor for each
-- `raise` of the code, and `do` blocks over them.
use mathlib.Core.Path.{◌≡◌, refl, sym, ap, subst, ◌∙◌}
use mathlib.Core.Bool.{Bool, true, false}
use mathlib.Core.List.{List, [], ◌∷◌, map}
use dbt_bigquery_ext.Prelude.Lists.{All}

pub data Checked {ℓ κ} (E : Type ℓ) (A : Type κ) : Type (ℓ ⊔ κ) where
  good : A → Checked E A
  bad : E → Checked E A

module _ {E : Type 0} where
  infixl 5 ◌>>=◌ ◌>>◌
  abbrev pub ◌>>=◌ : {A B : Type 0} → Checked E A → (A → Checked E B) → Checked E B
  good a >>= f = f a
  bad e >>= f = bad e

  abbrev pub ◌>>◌ : {A B : Type 0} → Checked E A → Checked E B → Checked E B
  m >> n = m >>= λ _. n

  -- `if not test: raise e`.
  abbrev pub require : Bool → E → Checked E (Unit {0})
  require true e = good tt
  require false e = bad e

  -- A loop that appends one result for each element and stops at the first error.
  abbrev pub each : {A B : Type 0} → (A → Checked E B) → List A → Checked E (List B)
  each f [] = good []
  each f (x ∷ xs) = do y ← f x; ys ← each f xs; good (y ∷ ys)

module _ {E A B : Type 0} where
  -- Inversion of a bind that returns.
  pub >>=-eq-good :
      (m : Checked E A) (f : A → Checked E B) {b : B}
      → (m >>= f) ≡ good b
      → (a : A) × (m ≡ good a) × (f a ≡ good b)
  >>=-eq-good (good a) f h = (a, refl, h)
  >>=-eq-good (bad e) f h = absurd (cc)

pub require-good :
    {E A : Type 0} (b : Bool) (e : E) (m : Checked E A) {a : A}
    → (require b e >> m) ≡ good a
    → (b ≡ true) × (m ≡ good a)
require-good true e m h = (refl, h)
require-good false e m h = absurd (cc)

pub good_inj : {E A : Type 0} {a b : A} → ◌≡◌ {A = Checked E A} (good a) (good b) → a ≡ b
good_inj e = cc

module _ {E A B : Type 0} where
  -- Where each element is accepted, the loop returns.
  pub each-good :
      (P : A → Type 0) (f : A → Checked E B)
      → ((x : A) → P x → (y : B) × (f x ≡ good y))
      → (xs : List A) → All P xs
      → (ys : List B) × (each f xs ≡ good ys)
  each-good P f h [] a = ([], refl)
  each-good P f h (x ∷ xs) a =
      let (y, e) = h x a.0 in let (ys, es) = each-good P f h xs a.1 in (y ∷ ys, rw (e, es) refl)

  -- What the loop returns, element by element.
  pub each-map :
      {C : Type 0} (f : A → Checked E B) (g : A → C) (k : B → C)
      → ((x : A) (y : B) → f x ≡ good y → k y ≡ g x)
      → (xs : List A) {ys : List B} → each f xs ≡ good ys
      → map k ys ≡ map g xs
  each-map f g k h [] e = ap (map k) (sym (good_inj e))
  each-map f g k h (x ∷ xs) {ys} e =
      let (y, e1, h1) = >>=-eq-good (f x) _ e in
      let (zs, e2, h2) = >>=-eq-good (each f xs) _ h1 in
      ap (map k) (sym (good_inj h2)) ∙ (λ i. h x y e1 i ∷ each-map f g k h xs e2 i)

  pub each-All :
      (P : B → Type 0) (f : A → Checked E B)
      → ((x : A) (y : B) → f x ≡ good y → P y)
      → (xs : List A) {ys : List B} → each f xs ≡ good ys
      → All P ys
  each-All P f h [] e = subst (All P) (good_inj e) tt
  each-All P f h (x ∷ xs) {ys} e =
      let (y, e1, h1) = >>=-eq-good (f x) _ e in
      let (zs, e2, h2) = >>=-eq-good (each f xs) _ h1 in
      subst (All P) (good_inj h2) (h x y e1, each-All P f h xs e2)
