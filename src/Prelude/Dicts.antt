-- ===== src/Prelude/Dicts.antt =====
-- Python dicts with text keys, as lists of pairs in the order of insertion.
use mathlib.Core.Path.{◌≡◌, refl, sym, subst}
use mathlib.Core.Logic.{inl, inr}
use mathlib.Core.Option.{Option, none, some}
use mathlib.Core.List.{List, [], ◌∷◌}
use native.Mathlib.Omega.{arith}
use dbt_bigquery_ext.Prelude.Tests.{some_inj, if◌then◌else◌, Bool-cases}
use dbt_bigquery_ext.Prelude.Lists.{All}
use dbt_bigquery_ext.Prelude.Texts.{Text, text_eq, text_eq_iff}

abbrev pub Dict : Type 0 → Type 0
Dict V = List (Text × V)

module _ {V : Type 0} where
  -- `d.get(k)`.
  abbrev pub lookup : Text → Dict V → Option V
  lookup k [] = none
  lookup k ((j, v) ∷ d) = if text_eq j k then some v else lookup k d

  -- `d[k] = v`: a key that is there keeps its place.
  abbrev pub insert : Text → V → Dict V → Dict V
  insert k v [] = (k, v) ∷ []
  insert k v ((j, w) ∷ d) = if text_eq j k then (j, v) ∷ d else (j, w) ∷ insert k v d

  abbrev pub dict_keys : Dict V → List Text
  dict_keys [] = []
  dict_keys ((k, v) ∷ d) = k ∷ dict_keys d

  -- `d.pop(k, None)`, without its result.
  abbrev pub remove : Text → Dict V → Dict V
  remove k [] = []
  remove k ((j, v) ∷ d) = if text_eq j k then d else (j, v) ∷ remove k d

  pub lookup-insert :
      (k j : Text) (v : V) (d : Dict V)
      → lookup j (insert k v d) ≡ (if text_eq k j then some v else lookup j d)
  lookup-insert k j v [] = refl
  lookup-insert k j v ((i, w) ∷ d) =
      ground (arith, text_eq_iff k j, text_eq_iff i k, text_eq_iff i j, lookup-insert k j v d)

  -- What a lookup finds satisfies what all entries satisfy.
  pub lookup-All :
      (P : V → Type 0) (k : Text) (d : Dict V) {v : V}
      → All (λ (p : Text × V). P p.1) d
      → lookup k d ≡ some v
      → P v
  lookup-All P k [] a h = absurd (cc)
  lookup-All P k ((j, w) ∷ d) {v} a h = elim (Bool-cases (text_eq j k)) [
    | inl e ↦ subst P (some_inj (rw e at h)) a.0
    | inr e ↦ lookup-All P k d a.1 (rw e at h)
  ]

  pub insert-All :
      (P : Text → V → Type 0) (k : Text) (v : V) (d : Dict V)
      → P k v
      → All (λ (p : Text × V). P p.0 p.1) d
      → All (λ (p : Text × V). P p.0 p.1) (insert k v d)
  insert-All P k v [] p a = (p, tt)
  insert-All P k v ((j, w) ∷ d) p a = elim (Bool-cases (text_eq j k)) [
    | inl e ↦ rw e (subst (λ t. P t v) (sym ((text_eq_iff j k).0 e)) p, a.1)
    | inr e ↦ rw e (a.0, insert-All P k v d p a.1)
  ]
