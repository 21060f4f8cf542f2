-- ===== src/Execution/AnyOrder.antt =====
-- connections.py `execute_ext`: the order in which the workers finish does not matter.
use dbt_bigquery_ext.Prelude.{
  ℕ, ◌+◌, ◌≤◌, ◌≡◌, ◌≢◌, refl, sym, ap, subst, ◌∙◌, true, false, Option, none, some, List, [], ◌∷◌,
  leb, arith, Bool-cases, inl, inr,
}
use mathlib.Core.List.{Permᴰ}
use dbt_bigquery_ext.Execution.Batch.{
  Response, JobOutcome, JobError, succeeded, failed, results_of, errors_of, sorted, insert_sorted,
  values_of, conclude, finish,
}

-- The elements' indices are above this one.
abbrev pub Above : {A : Type 0} → ℕ → List (ℕ × A) → Type 0
Above n [] = Unit
Above n ((i, a) ∷ l) = (n ≤ i) × Above n l

module _ {A : Type 0} where
  module _ (i j : ℕ) (a b : A) (l : List (ℕ × A)) where
    insert-le : leb i j ≡ true → insert_sorted (i, a) ((j, b) ∷ l) ≡ (i, a) ∷ (j, b) ∷ l
    unfolding insert_sorted
    insert-le e = rw e refl

    insert-gt :
        leb i j ≡ false → insert_sorted (i, a) ((j, b) ∷ l) ≡ (j, b) ∷ insert_sorted (i, a) l
    unfolding insert_sorted
    insert-gt e = rw e refl

  module _ (i j k : ℕ) (a b c : A) (l : List (ℕ × A)) where
    both_first :
        leb i j ≡ true
        → leb j i ≡ false
        → leb i k ≡ true
        → leb j k ≡ true
        → insert_sorted (i, a) (insert_sorted (j, b) ((k, c) ∷ l))
          ≡ insert_sorted (j, b) (insert_sorted (i, a) ((k, c) ∷ l))
    both_first r s p q =
        (ap (insert_sorted (i, a)) (insert-le j k b c l q) ∙ insert-le i j a b ((k, c) ∷ l) r)
        ∙ sym (
            ap (insert_sorted (j, b)) (insert-le i k a c l p)
            ∙ insert-gt j i b a ((k, c) ∷ l) s
            ∙ ap (λ m. (i, a) ∷ m) (insert-le j k b c l q))

    one_first :
        leb i k ≡ true
        → leb j k ≡ false
        → insert_sorted (i, a) (insert_sorted (j, b) ((k, c) ∷ l))
          ≡ insert_sorted (j, b) (insert_sorted (i, a) ((k, c) ∷ l))
    one_first p q =
        (ap (insert_sorted (i, a)) (insert-gt j k b c l q)
          ∙ insert-le i k a c (insert_sorted (j, b) l) p)
        ∙ sym (
            ap (insert_sorted (j, b)) (insert-le i k a c l p)
            ∙ insert-gt j i b a ((k, c) ∷ l) (ground arith)
            ∙ ap (λ m. (i, a) ∷ m) (insert-gt j k b c l q))

  insert_comm :
      (i j : ℕ) (a b : A) (l : List (ℕ × A))
      → i ≢ j
      → insert_sorted (i, a) (insert_sorted (j, b) l)
        ≡ insert_sorted (j, b) (insert_sorted (i, a) l)
  insert_comm i j a b [] n = unfold insert_sorted in ground (arith, n)
  insert_comm i j a b ((k, c) ∷ l) n = elim (Bool-cases (leb i k)) [
    | inl p ↦ elim (Bool-cases (leb j k)) [
      | inl q ↦ elim (Bool-cases (leb i j)) [
        | inl r ↦ both_first i j k a b c l r (ground (arith, n)) p q
        | inr r ↦ sym (both_first j i k b a c l (ground arith) r q p)
      ]
      | inr q ↦ one_first i j k a b c l p q
    ]
    | inr p ↦ elim (Bool-cases (leb j k)) [
      | inl q ↦ sym (one_first j i k b a c l q p)
      | inr q ↦
          (ap (insert_sorted (i, a)) (insert-gt j k b c l q)
            ∙ insert-gt i k a c (insert_sorted (j, b) l) p)
          ∙ ap (λ m. (k, c) ∷ m) (insert_comm i j a b l n)
          ∙ sym (
              ap (insert_sorted (j, b)) (insert-gt i k a c l p)
              ∙ insert-gt j k b c (insert_sorted (i, a) l) q)
    ]
  ]

  pub insert-first :
      (i : ℕ) (a : A) (l : List (ℕ × A)) → Above (i + 1) l → insert_sorted (i, a) l ≡ (i, a) ∷ l
  insert-first i a [] h = unfold insert_sorted in refl
  insert-first i a ((j, b) ∷ l) h = insert-le i j a b l (ground (arith, h.0))

-- The entry's index occurs in no other.
abbrev pub Apart : ℕ → List (ℕ × JobOutcome) → Type 0
Apart i [] = Unit
Apart i ((j, o) ∷ cs) = (i ≢ j) × Apart i cs

abbrev pub HasDistinct : List (ℕ × JobOutcome) → Type 0
HasDistinct [] = Unit
HasDistinct ((i, o) ∷ cs) = Apart i cs × HasDistinct cs

Apart-perm : (i : ℕ) {cs ds : List (ℕ × JobOutcome)} → Permᴰ cs ds → Apart i cs → Apart i ds
Apart-perm i Permᴰ.nil h = tt
Apart-perm i (Permᴰ.cons {a = a} {b = b} {l₁ = l} {l₂ = m} e p) h =
    (subst (λ (x : ℕ × JobOutcome). i ≢ x.0) e h.0, Apart-perm i p h.1)
Apart-perm i (Permᴰ.swap e f) h = (
  subst (λ (x : ℕ × JobOutcome). i ≢ x.0) f h.1.0,
  (subst (λ (x : ℕ × JobOutcome). i ≢ x.0) e h.0, h.1.1),
)
Apart-perm i (Permᴰ.trans p q) h = Apart-perm i q (Apart-perm i p h)

flip_ne : {i j : ℕ} → i ≢ j → j ≢ i
flip_ne n e = n (sym e)

HasDistinct-perm : {cs ds : List (ℕ × JobOutcome)} → Permᴰ cs ds → HasDistinct cs → HasDistinct ds
HasDistinct-perm Permᴰ.nil h = tt
HasDistinct-perm (Permᴰ.cons {a = a} {b = b} {l₁ = l} {l₂ = m} e p) h =
    (subst (λ (x : ℕ × JobOutcome). Apart x.0 m) e (Apart-perm a.0 p h.0), HasDistinct-perm p h.1)
HasDistinct-perm (Permᴰ.swap {a = a} {b = b} {a' = c} {b' = d} {l = l} e f) h =
    subst (λ (x : ℕ × JobOutcome). HasDistinct (x ∷ d ∷ l)) f
      (subst (λ (x : ℕ × JobOutcome). HasDistinct (b ∷ x ∷ l)) e
        ((flip_ne h.0.0, h.1.0), (h.0.1, h.1.1)))
HasDistinct-perm (Permᴰ.trans p q) h = HasDistinct-perm q (HasDistinct-perm p h)

-- The entries that a test picks, with what it picks of them.
module _ {A : Type 0} (f : JobOutcome → Option A) where
  abbrev pub picked_entry : ℕ → Option A → List (ℕ × A) → List (ℕ × A)
  picked_entry i none l = l
  picked_entry i (some a) l = (i, a) ∷ l

  abbrev pub picked : List (ℕ × JobOutcome) → List (ℕ × A)
  picked [] = []
  picked ((i, o) ∷ cs) = picked_entry i (f o) (picked cs)

  entry-cong :
      (i : ℕ) (o : Option A) (l m : List (ℕ × A))
      → sorted l ≡ sorted m
      → sorted (picked_entry i o l) ≡ sorted (picked_entry i o m)
  unfolding sorted
  entry-cong i none l m e = e
  entry-cong i (some a) l m e = ap (insert_sorted (i, a)) e

  entry_comm :
      (i j : ℕ) (o p : Option A) (l : List (ℕ × A))
      → i ≢ j
      → sorted (picked_entry i o (picked_entry j p l))
        ≡ sorted (picked_entry j p (picked_entry i o l))
  unfolding sorted
  entry_comm i j none none l n = refl
  entry_comm i j none (some b) l n = refl
  entry_comm i j (some a) none l n = refl
  entry_comm i j (some a) (some b) l n = insert_comm i j a b (sorted l) n

  sorted-perm :
      {cs ds : List (ℕ × JobOutcome)}
      → Permᴰ cs ds
      → HasDistinct cs
      → sorted (picked cs) ≡ sorted (picked ds)
  sorted-perm Permᴰ.nil h = refl
  sorted-perm (Permᴰ.cons {a = a} {b = b} {l₁ = l} {l₂ = m} e p) h =
      entry-cong a.0 (f a.1) (picked l) (picked m) (sorted-perm p h.1)
      ∙ ap (λ (x : ℕ × JobOutcome). sorted (picked_entry x.0 (f x.1) (picked m))) e
  sorted-perm (Permᴰ.swap {a = a} {b = b} {a' = c} {b' = d} {l = l} e g) h =
      entry_comm a.0 b.0 (f a.1) (f b.1) (picked l) h.0.0 ∙ (λ i.
        sorted (picked_entry (g i).0 (f (g i).1) (picked_entry (e i).0 (f (e i).1) (picked l))))
  sorted-perm (Permᴰ.trans p q) h = sorted-perm p h ∙ sorted-perm q (HasDistinct-perm p h)

abbrev pub result : JobOutcome → Option Response
result (succeeded r) = some r
result (failed e) = none

abbrev pub failure : JobOutcome → Option JobError
failure (succeeded r) = none
failure (failed e) = some e

pub results_of-picked : (cs : List (ℕ × JobOutcome)) → results_of cs ≡ picked result cs
unfolding results_of
results_of-picked [] = refl
results_of-picked ((i, succeeded r) ∷ cs) = ap (λ l. (i, r) ∷ l) (results_of-picked cs)
results_of-picked ((i, failed e) ∷ cs) = results_of-picked cs

pub errors_of-picked : (cs : List (ℕ × JobOutcome)) → errors_of cs ≡ picked failure cs
unfolding errors_of
errors_of-picked [] = refl
errors_of-picked ((i, succeeded r) ∷ cs) = errors_of-picked cs
errors_of-picked ((i, failed e) ∷ cs) = ap (λ l. (i, e) ∷ l) (errors_of-picked cs)

pub finish-perm :
    (n : ℕ) {cs ds : List (ℕ × JobOutcome)}
    → Permᴰ cs ds
    → HasDistinct cs
    → finish n cs ≡ finish n ds
unfolding finish
finish-perm n {cs} {ds} p h =
    let e : sorted (errors_of cs) ≡ sorted (errors_of ds) =
      ap sorted (errors_of-picked cs)
      ∙ sorted-perm failure p h
      ∙ ap sorted (sym (errors_of-picked ds)) in
    let r : sorted (results_of cs) ≡ sorted (results_of ds) =
      ap sorted (results_of-picked cs)
      ∙ sorted-perm result p h
      ∙ ap sorted (sym (results_of-picked ds)) in
    λ i. conclude n (e i) (values_of (r i))
