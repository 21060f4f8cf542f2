-- ===== src/Tracking/Merge.antt =====
-- gateway/change_tracking.py `coerce_partition_ids_for_ok` and `merge_affected_partition_ids`.
-- The set of ids is kept as the ascending list that `sorted` returns at the end.
use dbt_bigquery_ext.Prelude.{
  ◌≡◌, refl, true, Option, none, some, List, [], ◌∷◌, arith, Text, text_eq, text_eq_iff, text_ltb,
  text_ltb_total, In, if◌then◌else◌, ◌⊎◌, inl, inr, ◌↔◌, Bool-cases, sym, ◌∙◌, some_inj, subst, ap,
}

-- A cell of an array of texts, which may be NULL.
abbrev pub Ids : Type 0
Ids = List (Option Text)

-- What BigQuery hands back for `partition_ids`: nothing, one text, or an array.
pub data RawIds : Type 0 where
  null : RawIds
  single : Text → RawIds
  array : Ids → RawIds

-- `[str(x) for x in raw if x is not None]`.
abbrev pub present : Ids → List Text
present [] = []
present (none ∷ ids) = present ids
present (some t ∷ ids) = t ∷ present ids

unfoldable pub coerce_partition_ids_for_ok : RawIds → List Text
coerce_partition_ids_for_ok null = []
coerce_partition_ids_for_ok (single t) = t ∷ []
coerce_partition_ids_for_ok (array ids) = present ids

-- `seen.add(t)`.
unfoldable pub add : Text → List Text → List Text
add t [] = t ∷ []
add t (x ∷ xs) = if text_eq t x then x ∷ xs else if text_ltb t x then t ∷ x ∷ xs else x ∷ add t xs

unfoldable pub add_present : Ids → List Text → List Text
add_present [] seen = seen
add_present (none ∷ ids) seen = add_present ids seen
add_present (some t ∷ ids) seen = add_present ids (add t seen)

merge_rows : List (Option Ids) → List Text → Option (List Text)
merge_rows [] seen = some seen
merge_rows (none ∷ rows) seen = none
merge_rows (some ids ∷ rows) seen = merge_rows rows (add_present ids seen)

-- `none` means all partitions, and `[]` no changes.
unfoldable pub merge_affected_partition_ids : List (Option Ids) → Option (List Text)
unfolding merge_rows
merge_affected_partition_ids rows = merge_rows rows []

abbrev pub IsAscending : List Text → Type 0
IsAscending [] = Unit
IsAscending (x ∷ []) = Unit
IsAscending (x ∷ y ∷ l) = (text_ltb x y ≡ true) × IsAscending (y ∷ l)

add-IsAscending : (t : Text) (xs : List Text) → IsAscending xs → IsAscending (add t xs)
unfolding add
add-IsAscending t [] h = tt
add-IsAscending t (x ∷ []) h = ground (arith, text_ltb_total t x)
add-IsAscending t (x ∷ y ∷ l) h = ground (arith, text_ltb_total t x, add-IsAscending t (y ∷ l) h.1)

add_present-IsAscending :
    (ids : Ids) (seen : List Text) → IsAscending seen → IsAscending (add_present ids seen)
unfolding add_present
add_present-IsAscending [] seen h = h
add_present-IsAscending (none ∷ ids) seen h = add_present-IsAscending ids seen h
add_present-IsAscending (some t ∷ ids) seen h =
    add_present-IsAscending ids (add t seen) (add-IsAscending t seen h)

merge_rows-IsAscending :
    (rows : List (Option Ids)) (seen ids : List Text)
    → IsAscending seen
    → merge_rows rows seen ≡ some ids
    → IsAscending ids
unfolding merge_rows
merge_rows-IsAscending [] seen ids h e = subst IsAscending (some_inj e) h
merge_rows-IsAscending (none ∷ rows) seen ids h e = cc
merge_rows-IsAscending (some r ∷ rows) seen ids h e =
    merge_rows-IsAscending rows (add_present r seen) ids (add_present-IsAscending r seen h) e

mem-add : (u t : Text) (xs : List Text) → In u (add t xs) ↔ ((u ≡ t) ⊎ In u xs)
unfolding add
mem-add u t [] = (λ h. h, λ h. h)
mem-add u t (x ∷ xs) = elim (Bool-cases (text_eq t x)) [
  | inl e ↦ rw e (λ h. inr h, elim [ inl k ↦ inl (k ∙ (text_eq_iff t x).0 e) | inr h ↦ h ])
  | inr e ↦ rw e (elim (Bool-cases (text_ltb t x)) [
    | inl l ↦ rw l (λ h. h, λ h. h)
    | inr l ↦ rw l (
      elim [
        | inl k ↦ inr (inl k)
        | inr h ↦ elim ((mem-add u t xs).0 h) [ inl k ↦ inl k | inr m ↦ inr (inr m) ]
      ],
      elim [
        | inl k ↦ inr ((mem-add u t xs).1 (inl k))
        | inr h ↦ elim h [ inl k ↦ inl k | inr m ↦ inr ((mem-add u t xs).1 (inr m)) ]
      ],
    )
  ])
]

-- Some row with an array reports the id.
abbrev pub Reported : Text → List (Option Ids) → Type 0
Reported u rows = (ids : Ids) × In (some ids) rows × In (some u) ids

mem-add_present :
    (u : Text) (ids : Ids) (seen : List Text)
    → In u (add_present ids seen) ↔ (In (some u) ids ⊎ In u seen)
unfolding add_present
mem-add_present u [] seen = (λ h. inr h, elim [ inl h ↦ elim h [ ] | inr h ↦ h ])
mem-add_present u (none ∷ ids) seen =
    let ih = mem-add_present u ids seen in
    (
      λ h. elim (ih.0 h) [ inl k ↦ inl (inr k) | inr k ↦ inr k ],
      elim [ inl k ↦ elim k [ inl e ↦ absurd (cc) | inr m ↦ ih.1 (inl m) ] | inr k ↦ ih.1 (inr k) ],
    )
mem-add_present u (some t ∷ ids) seen =
    let ih = mem-add_present u ids (add t seen) in
    (
      λ h. elim (ih.0 h) [
        | inl k ↦ inl (inr k)
        | inr k ↦ elim ((mem-add u t seen).0 k) [ inl e ↦ inl (inl (ap some e)) | inr m ↦ inr m ]
      ],
      elim [
        | inl k ↦ elim k [
          | inl e ↦ ih.1 (inr ((mem-add u t seen).1 (inl (some_inj e))))
          | inr m ↦ ih.1 (inl m)
        ]
        | inr k ↦ ih.1 (inr ((mem-add u t seen).1 (inr k)))
      ],
    )

mem-merge_rows :
    (u : Text) (rows : List (Option Ids)) (seen out : List Text)
    → merge_rows rows seen ≡ some out
    → In u out ↔ (Reported u rows ⊎ In u seen)
unfolding merge_rows
mem-merge_rows u [] seen out e = (
  λ h. inr (subst (In u) (sym (some_inj e)) h),
  elim [ inl (ids, k, m) ↦ elim k [ ] | inr h ↦ subst (In u) (some_inj e) h ],
)
mem-merge_rows u (none ∷ rows) seen out e = absurd (cc)
mem-merge_rows u (some r ∷ rows) seen out e =
    let ih = mem-merge_rows u rows (add_present r seen) out e in
    (
      λ h. elim (ih.0 h) [
        | inl (ids, k, m) ↦ inl (ids, inr k, m)
        | inr k ↦ elim ((mem-add_present u r seen).0 k) [
          | inl m ↦ inl (r, inl refl, m)
          | inr m ↦ inr m
        ]
      ],
      elim [
        | inl (ids, k, m) ↦ elim k [
          | inl q ↦
              ih.1 (inr ((mem-add_present u r seen).1 (inl (subst (In (some u)) (some_inj q) m))))
          | inr k' ↦ ih.1 (inl (ids, k', m))
        ]
        | inr k ↦ ih.1 (inr ((mem-add_present u r seen).1 (inr k)))
      ],
    )

merge_rows-none :
    (rows : List (Option Ids)) (seen : List Text) → (merge_rows rows seen ≡ none) ↔ In none rows
unfolding merge_rows
merge_rows-none [] seen = (λ e. absurd (cc), λ h. elim h [ ])
merge_rows-none (none ∷ rows) seen = (λ e. inl refl, λ h. refl)
merge_rows-none (some r ∷ rows) seen =
    let ih = merge_rows-none rows (add_present r seen) in
    (λ e. inr (ih.0 e), elim [ inl e ↦ absurd (cc) | inr h ↦ ih.1 h ])

-- What a merge of log rows is meant to be: all partitions exactly when some row says so, and
-- otherwise the ids that the rows report, each once, in ascending order.
pub record IsMerge (rows : List (Option Ids)) (out : Option (List Text)) : Type 0 where
  pub all_iff : (out ≡ none) ↔ In none rows
  pub mem_iff : (ids : List Text) (u : Text) → out ≡ some ids → In u ids ↔ Reported u rows
  pub ascending : (ids : List Text) → out ≡ some ids → IsAscending ids

-- `merge_affected_partition_ids` gives all partitions exactly when some row does, and otherwise the
-- ids of the rows, each once and in ascending order.
pub merge_affected_partition_ids-IsMerge :
    (rows : List (Option Ids)) → IsMerge rows (merge_affected_partition_ids rows)
unfolding merge_affected_partition_ids
merge_affected_partition_ids-IsMerge rows = record {
  all_iff = merge_rows-none rows [];
  mem_iff = λ ids u e.
      let m = mem-merge_rows u rows [] ids e in
      (λ h. elim (m.0 h) [ inl r ↦ r | inr k ↦ elim k [ ] ], λ r. m.1 (inl r));
  ascending = λ ids e. merge_rows-IsAscending rows [] ids tt e;
}
