-- ===== src/Prelude/Results.antt =====
-- Python exceptions as values: an exception is its class name and `str(exc)`.
use mathlib.Core.Path.{◌≡◌, refl}
use dbt_bigquery_ext.Prelude.Texts.{Text}

pub record Exn : Type 0 where
  pub class_name : Text
  pub message : Text

pub data Result {ℓ} (A : Type ℓ) : Type ℓ where
  done : A → Result A
  raised : Exn → Result A

infixl 5 ◌>>=◌
abbrev pub ◌>>=◌ {ℓ κ} : {A : Type ℓ} {B : Type κ} → Result A → (A → Result B) → Result B
done a >>= f = f a
raised e >>= f = raised e

-- Inversion of a bind that returns.
pub >>=-eq-done {ℓ κ} :
    {A : Type ℓ} {B : Type κ} (m : Result A) (f : A → Result B) {b : B}
    → (m >>= f) ≡ done b
    → (a : A) × (m ≡ done a) × (f a ≡ done b)
>>=-eq-done (done a) f h = (a, refl, h)
>>=-eq-done (raised e) f h = absurd (cc)
