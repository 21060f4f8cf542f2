-- ===== src/Gateway/Newest.antt =====
-- `ORDER BY t DESC, id DESC LIMIT n` over the rows that a WHERE clause keeps, for any table with a time
-- and an id: the listings of gateway/client.py.
use dbt_bigquery_ext.Prelude.{
  ℕ, zero, suc, min, max, ◌≤◌, ◌==◌, ◌≡◌, ◌⊎◌, inl, inr, refl, ltb, Bool, true, false, Bool-cases,
  ◌&&◌, ◌||◌, List, [], ◌∷◌, length, take, select, In, In-select_inv, All, All-map, if◌then◌else◌,
  arith, ap,
}
use dbt_bigquery_ext.Prelude.Ints.{ℤ, pos, negsuc}

-- `max(1, min(int(limit), 500))`
unfoldable pub clamp_limit : ℤ → ℕ
clamp_limit (pos n) = max 1 (min n 500)
clamp_limit (negsuc n) = 1

clamp_limit-le : (limit : ℤ) → clamp_limit limit ≤ 500
unfolding clamp_limit
clamp_limit-le (pos n) = omega arith
clamp_limit-le (negsuc n) = omega arith

module _ {A : Type 0} where
  All-take : (P : A → Type 0) (n : ℕ) (xs : List A) → All P xs → All P (take n xs)
  All-take P zero xs h = tt
  All-take P (suc n) [] h = tt
  All-take P (suc n) (x ∷ xs) h = (h.0, All-take P n xs h.1)

  pub All-In : (P : A → Type 0) (a : A) (xs : List A) → All P xs → In a xs → P a
  All-In P a [] h m = elim m [ ]
  All-In P a (x ∷ xs) h (inl e) = rw e h.0
  All-In P a (x ∷ xs) h (inr m) = All-In P a xs h.1 m

  All-of_In : (P : A → Type 0) (xs : List A) → ((a : A) → In a xs → P a) → All P xs
  All-of_In P [] h = tt
  All-of_In P (x ∷ xs) h = (h x (inl refl), All-of_In P xs (λ a m. h a (inr m)))

  In-take : (a : A) (n : ℕ) (xs : List A) → In a (take n xs) → In a xs
  In-take a zero xs h = elim h [ ]
  In-take a (suc n) [] h = h
  In-take a (suc n) (x ∷ xs) (inl e) = inl e
  In-take a (suc n) (x ∷ xs) (inr m) = inr (In-take a n xs m)

  take_all : (n : ℕ) (xs : List A) → length xs ≤ n → take n xs ≡ xs
  take_all zero [] h = refl
  take_all zero (x ∷ xs) h = absurd (omega (arith, h))
  take_all (suc n) [] h = refl
  take_all (suc n) (x ∷ xs) h = ap (λ l. x ∷ l) (take_all n xs (omega (arith, h)))

  length-take : (n : ℕ) (xs : List A) → length (take n xs) ≡ min n (length xs)
  length-take zero xs = omega arith
  length-take (suc n) [] = omega arith
  length-take (suc n) (x ∷ xs) = omega (arith, length-take n xs)

module _ {A : Type 0} (time id : A → ℕ) where
  -- The row comes before the other.
  abbrev pub newer : A → A → Bool
  newer a b = ltb (time b) (time a) || ((time a == time b) && ltb (id b) (id a))

  unfoldable pub insert : A → List A → List A
  insert a [] = a ∷ []
  insert a (b ∷ bs) = let rest = insert a bs in if newer b a then b ∷ rest else a ∷ b ∷ bs

  unfoldable pub newest_first : List A → List A
  unfolding insert
  newest_first [] = []
  newest_first (a ∷ as_) = insert a (newest_first as_)

  unfoldable pub newest : ℤ → (A → Bool) → List A → List A
  unfolding newest_first clamp_limit
  newest limit keep rows = take (clamp_limit limit) (newest_first (select keep rows))

  -- No row is newer than one before it.
  abbrev pub IsOrdered : List A → Type 0
  IsOrdered [] = Unit
  IsOrdered (a ∷ as_) = All (λ b. newer b a ≡ false) as_ × IsOrdered as_

  newer_trans : (a b c : A) → newer a b ≡ false → newer b c ≡ false → newer a c ≡ false
  newer_trans a b c h k = ground (arith, h, k)

  newer_asym : (a b : A) → newer a b ≡ true → newer b a ≡ false
  newer_asym a b h = ground (arith, h)

  All-insert : (P : A → Type 0) (a : A) (bs : List A) → P a → All P bs → All P (insert a bs)
  unfolding insert
  All-insert P a [] p h = (p, tt)
  All-insert P a (b ∷ bs) p h = elim (Bool-cases (newer b a)) [
    | inl e ↦ rw e (h.0, All-insert P a bs p h.1)
    | inr e ↦ rw e (p, h)
  ]

  insert-IsOrdered : (a : A) (bs : List A) → IsOrdered bs → IsOrdered (insert a bs)
  unfolding insert
  insert-IsOrdered a [] h = (tt, tt)
  insert-IsOrdered a (b ∷ bs) h = elim (Bool-cases (newer b a)) [
    | inl e ↦
        rw e (
          All-insert (λ c. newer c b ≡ false) a bs (newer_asym b a e) h.0,
          insert-IsOrdered a bs h.1,
        )
    | inr e ↦ rw e ((e, All-map _ _ (λ c k. newer_trans c b a k e) bs h.0), h)
  ]

  newest_first-IsOrdered : (rows : List A) → IsOrdered (newest_first rows)
  unfolding newest_first
  newest_first-IsOrdered [] = tt
  newest_first-IsOrdered (a ∷ rows) =
      insert-IsOrdered a (newest_first rows) (newest_first-IsOrdered rows)

  In-insert : (c a : A) (bs : List A) → (c ≡ a) ⊎ In c bs → In c (insert a bs)
  unfolding insert
  In-insert c a [] (inl e) = inl e
  In-insert c a [] (inr m) = elim m [ ]
  In-insert c a (b ∷ bs) h = go (Bool-cases (newer b a)) (In-insert c a bs) h
    where
      go :
          (newer b a ≡ true) ⊎ (newer b a ≡ false)
          → ((c ≡ a) ⊎ In c bs → In c (insert a bs))
          → (c ≡ a) ⊎ In c (b ∷ bs)
          → In c (insert a (b ∷ bs))
      go (inl e) ih (inl k) = rw e (inr (ih (inl k)))
      go (inl e) ih (inr (inl k)) = rw e (inl k)
      go (inl e) ih (inr (inr m)) = rw e (inr (ih (inr m)))
      go (inr e) ih k = rw e k

  In-insert_inv : (c a : A) (bs : List A) → In c (insert a bs) → (c ≡ a) ⊎ In c bs
  unfolding insert
  In-insert_inv c a [] h = h
  In-insert_inv c a (b ∷ bs) h = go (Bool-cases (newer b a)) (In-insert_inv c a bs)
    where
      go :
          (newer b a ≡ true) ⊎ (newer b a ≡ false)
          → (In c (insert a bs) → (c ≡ a) ⊎ In c bs)
          → (c ≡ a) ⊎ In c (b ∷ bs)
      go (inl e) ih = elim (rw e at h) [
        | inl k ↦ inr (inl k)
        | inr m ↦ elim (ih m) [ inl k ↦ inl k | inr n ↦ inr (inr n) ]
      ]
      go (inr e) ih = rw e at h

  length-insert : (a : A) (bs : List A) → length (insert a bs) ≡ suc (length bs)
  unfolding insert
  length-insert a [] = refl
  length-insert a (b ∷ bs) = ground (arith, length-insert a bs)

  length-newest_first : (rows : List A) → length (newest_first rows) ≡ length rows
  unfolding newest_first
  length-newest_first [] = refl
  length-newest_first (a ∷ rows) =
      omega (arith, length-insert a (newest_first rows), length-newest_first rows)

  In-newest_first : (c : A) (rows : List A) → In c rows → In c (newest_first rows)
  unfolding newest_first
  In-newest_first c (a ∷ rows) (inl e) = In-insert c a (newest_first rows) (inl e)
  In-newest_first c (a ∷ rows) (inr m) =
      In-insert c a (newest_first rows) (inr (In-newest_first c rows m))
  In-newest_first c [] h = elim h [ ]

  In-newest_first_inv : (c : A) (rows : List A) → In c (newest_first rows) → In c rows
  unfolding newest_first
  In-newest_first_inv c [] h = h
  In-newest_first_inv c (a ∷ rows) h = elim (In-insert_inv c a (newest_first rows) h) [
    | inl e ↦ inl e
    | inr m ↦ inr (In-newest_first_inv c rows m)
  ]

  IsOrdered-take : (n : ℕ) (rows : List A) → IsOrdered rows → IsOrdered (take n rows)
  IsOrdered-take zero rows h = tt
  IsOrdered-take (suc n) [] h = tt
  IsOrdered-take (suc n) (a ∷ rows) h = (All-take _ n rows h.0, IsOrdered-take n rows h.1)

  -- What is cut off is not newer than what is kept.
  In-take_or :
      (c : A) (n : ℕ) (rows : List A)
      → IsOrdered rows
      → In c rows
      → In c (take n rows) ⊎ All (λ a. newer c a ≡ false) (take n rows)
  In-take_or c zero rows h m = inr tt
  In-take_or c (suc n) [] h m = elim m [ ]
  In-take_or c (suc n) (a ∷ rows) h (inl e) = inl (inl e)
  In-take_or c (suc n) (a ∷ rows) h (inr m) = elim (In-take_or c n rows h.1 m) [
    | inl k ↦ inl (inr k)
    | inr k ↦ inr (All-In _ c rows h.0 m, k)
  ]

  -- The answer has as many rows as the limit, cut to 1 to 500, leaves of those that pass the test, each
  -- of them in the table, none newer than one before it; and a row that passes is in the answer or
  -- newer than none of it.
  abbrev pub IsNewest : ℤ → (A → Bool) → List A → List A → Type 0
  IsNewest limit keep rows answer =
      (length answer ≡ min (clamp_limit limit) (length (select keep rows)))
      × (length answer ≤ 500)
      × IsOrdered answer
      × All (λ a. In a rows × (keep a ≡ true)) answer
      × All (λ c. In c answer ⊎ All (λ a. newer c a ≡ false) answer) (select keep rows)

  pub newest-IsNewest :
      (limit : ℤ) (keep : A → Bool) (rows : List A)
      → IsNewest limit keep rows (newest limit keep rows)
  unfolding newest
  newest-IsNewest limit keep rows =
      let kept = select keep rows in
      let all = newest_first kept in
      let ordered = newest_first-IsOrdered kept in
      let len = length-take (clamp_limit limit) all in
      (
        omega (arith, len, length-newest_first kept),
        omega (arith, len, clamp_limit-le limit),
        IsOrdered-take (clamp_limit limit) all ordered,
        All-of_In _ (take (clamp_limit limit) all) (λ a m.
            In-select_inv keep a rows
              (In-newest_first_inv a kept (In-take a (clamp_limit limit) all m))),
        All-of_In _ kept
            (λ c m. In-take_or c (clamp_limit limit) all ordered (In-newest_first c kept m)),
      )

  -- Where the rows that pass the test are no more than the limit, all are in the answer.
  pub newest_all :
      (limit : ℤ) (keep : A → Bool) (rows : List A)
      → length (select keep rows) ≤ clamp_limit limit
      → (c : A) → In c (select keep rows)
      → In c (newest limit keep rows)
  unfolding newest
  newest_all limit keep rows h c m =
      let kept = select keep rows in
      let len = length-newest_first kept in
      rw (take_all (clamp_limit limit) (newest_first kept) (omega (arith, len, h)))
        (In-newest_first c kept m)
