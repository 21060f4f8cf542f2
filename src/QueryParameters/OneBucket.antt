-- ===== src/QueryParameters/OneBucket.antt =====
-- query_parameters.py `validate_insert_overwrite_variable_sets`: one set for each partition bucket.
use dbt_bigquery_ext.Prelude.{
  ◌≡◌, ◌≢◌, refl, sym, ap, subst, ◌∙◌, ◌⊎◌, inl, inr, true, false, Bool-cases, Option, none, some,
  List, [], ◌∷◌, Text, codes, text_eq_iff, member, member_iff, All, All-map, In, if◌then◌else◌,
}
use dbt_bigquery_ext.Prelude.Checked.{Checked, good, >>=-eq-good, good_inj, require-good, ◌>>=◌}
use dbt_bigquery_ext.Prelude.Dicts.{Dict}
use dbt_bigquery_ext.QueryParameters.Values.{PyValue, VariableSet, explicit_types}
use dbt_bigquery_ext.QueryParameters.Overwrite.{
  Calendar, Entry, mapping, OverwriteError, OverwriteArgs, sole, same_name, bucket_of, dedupe_sets,
  word_or, check_partition_by, some_sets, some_result, validate_insert_overwrite_variable_sets,
}

-- The set has one key, of this name.
abbrev pub IsSole : Text → VariableSet → Type 0
IsSole name s = (v : PyValue) × (s ≡ (name, v) ∷ [])

module _ (cal : Calendar) (type_map : Dict Text) (gran : Text) where
  -- The bucket of an entry, where it passes the checks.
  abbrev pub entry_bucket : Entry → Checked OverwriteError Text
  entry_bucket e = sole e >>= bucket_of cal type_map gran

  -- The set is the first entry of its bucket.
  abbrev pub IsFirst : VariableSet → Text → List Entry → Type 0
  IsFirst s b [] = ⊥
  IsFirst s b (e ∷ es) =
      ((e ≡ mapping s) × (entry_bucket e ≡ good b)) ⊎ ((entry_bucket e ≢ good b) × IsFirst s b es)

  -- No two sets have the same bucket.
  abbrev pub HasDistinctBuckets : List VariableSet → Type 0
  HasDistinctBuckets [] = Unit
  HasDistinctBuckets (s ∷ ss) =
      All (λ t. entry_bucket (mapping t) ≢ entry_bucket (mapping s)) ss × HasDistinctBuckets ss

  abbrev pub HasBucket : Text → List VariableSet → Type 0
  HasBucket b [] = ⊥
  HasBucket b (s ∷ ss) = (entry_bucket (mapping s) ≡ good b) ⊎ HasBucket b ss

  record Stepped (param_name : Option Text) (seen : List Text) (e : Entry) (es : List Entry)
      (out : List VariableSet) : Type 0 where
    x : Text × PyValue
    bucket : Text
    rest : List VariableSet
    is_sole : e ≡ mapping (x ∷ [])
    same : same_name param_name x.0 ≡ true
    has_bucket : bucket_of cal type_map gran x ≡ good bucket
    rest_lem :
        dedupe_sets cal type_map gran
          (some x.0)
          (if member bucket seen then seen else bucket ∷ seen)
          es
        ≡ good rest
    out_lem : (if member bucket seen then rest else (x ∷ []) ∷ rest) ≡ out

  sole-good : (e : Entry) {x : Text × PyValue} → sole e ≡ good x → e ≡ mapping (x ∷ [])
  sole-good (mapping (x ∷ [])) h = ap (λ y. mapping (y ∷ [])) (good_inj h)
  sole-good (mapping []) h = absurd (cc)
  sole-good (mapping (x ∷ y ∷ d)) h = absurd (cc)
  sole-good Entry.other_value h = absurd (cc)

  step_lem :
      (param_name : Option Text) (seen : List Text) (e : Entry) (es : List Entry)
      {out : List VariableSet}
      → dedupe_sets cal type_map gran param_name seen (e ∷ es) ≡ good out
      → Stepped param_name seen e es out
  unfolding dedupe_sets
  step_lem param_name seen e es h =
      let (x, e1, h1) = >>=-eq-good (sole e) _ h in
      let (n, h2) = require-good (same_name param_name x.0) _ _ h1 in
      let (b, e3, h3) = >>=-eq-good (bucket_of cal type_map gran x) _ h2 in
      let (rest, e4, h4) =
        >>=-eq-good
          (dedupe_sets cal type_map gran (some x.0) (if member b seen then seen else b ∷ seen) es) _
          h3 in
      record {
        x = x;
        bucket = b;
        rest = rest;
        is_sole = sole-good e e1;
        same = n;
        has_bucket = e3;
        rest_lem = e4;
        out_lem = good_inj h4;
      }

  bucket_lem :
      {pn : Option Text} {seen : List Text} {e : Entry} {es : List Entry} {out : List VariableSet}
      (st : Stepped pn seen e es out)
      → entry_bucket e ≡ good st.bucket
  bucket_lem st = subst (λ d. entry_bucket d ≡ good st.bucket) (sym st.is_sole) st.has_bucket

  sole_bucket :
      {pn : Option Text} {seen : List Text} {e : Entry} {es : List Entry} {out : List VariableSet}
      (st : Stepped pn seen e es out)
      → entry_bucket (mapping (st.x ∷ [])) ≡ good st.bucket
  sole_bucket st = st.has_bucket

  -- The step keeps the entry exactly where its bucket is new.
  module _ {pn : Option Text} {seen : List Text} {e : Entry} {es : List Entry}
      {out : List VariableSet} (st : Stepped pn seen e es out) where
    seen_rest :
        member st.bucket seen ≡ true
        → (dedupe_sets cal type_map gran (some st.x.0) seen es ≡ good st.rest) × (st.rest ≡ out)
    seen_rest m = (rw m at st.rest_lem, rw m at st.out_lem)

    new_rest :
        member st.bucket seen ≡ false
        → (dedupe_sets cal type_map gran (some st.x.0) (st.bucket ∷ seen) es ≡ good st.rest)
          × ((st.x ∷ []) ∷ st.rest ≡ out)
    new_rest m = (rw m at st.rest_lem, rw m at st.out_lem)

  dedupe_sets-IsSole :
      (p : Text) (pn : Option Text) (seen : List Text) (es : List Entry) {out : List VariableSet}
      → ((n : Text) → same_name pn n ≡ true → n ≡ p)
      → dedupe_sets cal type_map gran pn seen es ≡ good out
      → All (IsSole p) out
  dedupe_sets-IsSole p pn seen [] q h = unfold dedupe_sets in subst (All (IsSole p)) (good_inj h) tt
  dedupe_sets-IsSole p pn seen (e ∷ es) q h =
      let st = step_lem pn seen e es h in
      let n = q st.x.0 st.same in
      let next =
        λ (m : Text) (k : same_name (some st.x.0) m ≡ true). (text_eq_iff m st.x.0).0 k ∙ n in
      elim (Bool-cases (member st.bucket seen)) [
        | inl m ↦
            subst (All (IsSole p)) (seen_rest st m).1
              (dedupe_sets-IsSole p (some st.x.0) seen es next (seen_rest st m).0)
        | inr m ↦ subst (All (IsSole p)) (new_rest st m).1 (
          (st.x.1, ap (λ (t : Text). (t, st.x.1) ∷ []) n),
          dedupe_sets-IsSole p (some st.x.0) (st.bucket ∷ seen) es next (new_rest st m).0,
        )
      ]

  -- What each set is, by the buckets that were seen before.
  abbrev IsNew : List Text → List Entry → VariableSet → Type 0
  IsNew seen es s =
      (b : Text) × (entry_bucket (mapping s) ≡ good b) × (¬ In b seen) × IsFirst s b es

  good_ne : {a b : Text} → a ≢ b → ◌≢◌ {A = Checked OverwriteError Text} (good a) (good b)
  good_ne n e = n (good_inj e)

  -- Each set is the first of a bucket that was not seen.
  dedupe_sets-first :
      (pn : Option Text) (seen : List Text) (es : List Entry) {out : List VariableSet}
      → dedupe_sets cal type_map gran pn seen es ≡ good out
      → All (IsNew seen es) out
  dedupe_sets-first pn seen [] h = unfold dedupe_sets in subst (All (IsNew seen [])) (good_inj h) tt
  dedupe_sets-first pn seen (e ∷ es) h =
      let st = step_lem pn seen e es h in
      let eb = bucket_lem st in
      elim (Bool-cases (member st.bucket seen)) [
        | inl m ↦ subst (All (IsNew seen (e ∷ es))) (seen_rest st m).1 (
            All-map (IsNew seen es) (IsNew seen (e ∷ es))
              (λ s (b, k, n, f). (
                b,
                k,
                n,
                inr (
                  (λ q. n (
                      subst (λ c. In c seen) (good_inj (sym eb ∙ q))
                        ((member_iff st.bucket seen).0 m))),
                  f,
                ),
              ))
              st.rest (dedupe_sets-first (some st.x.0) seen es (seen_rest st m).0))
        | inr m ↦ subst (All (IsNew seen (e ∷ es))) (new_rest st m).1 (
          (
            st.bucket,
            sole_bucket st,
            (λ i. absurd (cc (m, (member_iff st.bucket seen).1 i))),
            inl (st.is_sole, eb),
          ),
          All-map (IsNew (st.bucket ∷ seen) es) (IsNew seen (e ∷ es))
              (λ s (b, k, n, f).
                (b, k, (λ i. n (inr i)), inr ((λ q. n (inl (good_inj (sym q ∙ eb)))), f)))
              st.rest (dedupe_sets-first (some st.x.0) (st.bucket ∷ seen) es (new_rest st m).0),
        )
      ]

  dedupe_sets-distinct :
      (pn : Option Text) (seen : List Text) (es : List Entry) {out : List VariableSet}
      → dedupe_sets cal type_map gran pn seen es ≡ good out
      → HasDistinctBuckets out
  dedupe_sets-distinct pn seen [] h = unfold dedupe_sets in subst HasDistinctBuckets (good_inj h) tt
  dedupe_sets-distinct pn seen (e ∷ es) h =
      let st = step_lem pn seen e es h in
      elim (Bool-cases (member st.bucket seen)) [
        | inl m ↦
            subst HasDistinctBuckets (seen_rest st m).1
              (dedupe_sets-distinct (some st.x.0) seen es (seen_rest st m).0)
        | inr m ↦ subst HasDistinctBuckets (new_rest st m).1 (
          All-map (IsNew (st.bucket ∷ seen) es)
              (λ t. entry_bucket (mapping t) ≢ entry_bucket (mapping (st.x ∷ [])))
              (λ s (b, k, n, f) q. n (inl (good_inj (sym k ∙ q ∙ sole_bucket st)))) st.rest
              (dedupe_sets-first (some st.x.0) (st.bucket ∷ seen) es (new_rest st m).0),
          dedupe_sets-distinct (some st.x.0) (st.bucket ∷ seen) es (new_rest st m).0,
        )
      ]

  -- The entry passes the checks, and its bucket was seen or has its set.
  abbrev IsCovered : List Text → List VariableSet → Entry → Type 0
  IsCovered seen out e = (b : Text) × (entry_bucket e ≡ good b) × (In b seen ⊎ HasBucket b out)

  now_kept :
      (x : Text × PyValue) (seen : List Text) (rest : List VariableSet) (b c : Text)
      → entry_bucket (mapping (x ∷ [])) ≡ good c
      → In b (c ∷ seen) ⊎ HasBucket b rest
      → In b seen ⊎ HasBucket b ((x ∷ []) ∷ rest)
  now_kept x seen rest b c k (inl (inl e)) = inr (inl (k ∙ ap good (sym e)))
  now_kept x seen rest b c k (inl (inr i)) = inl i
  now_kept x seen rest b c k (inr h) = inr (inr h)

  dedupe_sets-covers :
      (pn : Option Text) (seen : List Text) (es : List Entry) {out : List VariableSet}
      → dedupe_sets cal type_map gran pn seen es ≡ good out
      → All (IsCovered seen out) es
  dedupe_sets-covers pn seen [] h = tt
  dedupe_sets-covers pn seen (e ∷ es) h =
      let st = step_lem pn seen e es h in
      elim (Bool-cases (member st.bucket seen)) [
        | inl m ↦ (
          (st.bucket, bucket_lem st, inl ((member_iff st.bucket seen).0 m)),
          subst (λ o. All (IsCovered seen o) es) (seen_rest st m).1
              (dedupe_sets-covers (some st.x.0) seen es (seen_rest st m).0),
        )
        | inr m ↦
            subst (λ o. All (IsCovered seen o) (e ∷ es)) (new_rest st m).1
              (
                (st.bucket, bucket_lem st, inr (inl (sole_bucket st))),
                All-map (IsCovered (st.bucket ∷ seen) st.rest)
                    (IsCovered seen ((st.x ∷ []) ∷ st.rest))
                    (λ d (b, k, o).
                      (b, k, now_kept st.x seen st.rest b st.bucket (sole_bucket st) o))
                    es (dedupe_sets-covers (some st.x.0) (st.bucket ∷ seen) es (new_rest st m).0),
              )
      ]

  shared_name :
      (es : List Entry) {out : List VariableSet}
      → dedupe_sets cal type_map gran none [] es ≡ good out
      → (p : Text) × All (IsSole p) out
  shared_name [] h = unfold dedupe_sets in ([], subst (All (IsSole [])) (good_inj h) tt)
  shared_name (e ∷ es) h =
      let st = step_lem none [] e es h in
      let (k, q) = new_rest st (unfold member in refl) in
      (
        st.x.0,
        subst (All (IsSole st.x.0)) q (
          (st.x.1, refl),
          dedupe_sets-IsSole st.x.0 (some st.x.0) (st.bucket ∷ []) es
              (λ n e. (text_eq_iff n st.x.0).0 e) k,
        ),
      )

  not_seen : (b : Text) (out : List VariableSet) → In b [] ⊎ HasBucket b out → HasBucket b out
  not_seen b out (inl i) = elim i [ ]
  not_seen b out (inr h) = h

-- What the validated sets are, from the entries that are given.
pub record IsOnePerBucket (cal : Calendar) (type_map : Dict Text) (gran : Text) (es : List Entry)
    (out : List VariableSet) : Type 0 where
  pub nonempty : out ≢ []
  pub one_name : (p : Text) × All (IsSole p) out
  pub distinct : HasDistinctBuckets cal type_map gran out
  pub first_of :
      All
        (λ s.
          (b : Text) × (entry_bucket cal type_map gran (mapping s) ≡ good b)
          × IsFirst cal type_map gran s b es)
        out
  pub complete :
      All
        (λ e.
          (b : Text) × (entry_bucket cal type_map gran e ≡ good b)
          × HasBucket cal type_map gran b out)
        es

some_sets-good : (o : Option (List Entry)) {es : List Entry} → some_sets o ≡ good es → o ≡ some es
some_sets-good none h = absurd (cc)
some_sets-good (some []) h = absurd (cc)
some_sets-good (some (e ∷ es)) h = ap (λ (x : List Entry). some x) (good_inj h)

some_result-good :
    (o : List VariableSet) {out : List VariableSet}
    → some_result o ≡ good out
    → (o ≡ out) × (out ≢ [])
some_result-good [] h = absurd (cc)
some_result-good (s ∷ ss) h = (good_inj h, λ e. absurd (cc (h, e)))

-- The sets that the validation returns, for any calendar, are not empty and have one key of one
-- common name; no two have the same partition bucket; each is the first entry of its bucket; and
-- every entry given passes the checks and has its bucket among the sets.
pub validate_insert_overwrite_variable_sets_lem :
    (cal : Calendar) (a : OverwriteArgs) {out : List VariableSet}
    → validate_insert_overwrite_variable_sets cal a ≡ good out
    → (es : List Entry) × (a.values ≡ some es)
      × IsOnePerBucket cal (explicit_types a.types) (word_or (codes "day") a.granularity) es out
unfolding validate_insert_overwrite_variable_sets
validate_insert_overwrite_variable_sets_lem cal a {out} h =
    let (_, _, h4) = >>=-eq-good (check_partition_by a) _ h in
    let (es, e, h5) = >>=-eq-good (some_sets a.values) _ h4 in
    let ts = explicit_types a.types in
    let gran = word_or (codes "day") a.granularity in
    let (ds, d, h6) = >>=-eq-good (dedupe_sets cal ts gran none [] es) _ h5 in
    let (q, ne) = some_result-good ds h6 in
    let k = subst (λ o. dedupe_sets cal ts gran none [] es ≡ good o) q d in
    (
      es,
      some_sets-good a.values e,
      record {
        nonempty = ne;
        one_name = shared_name cal ts gran es k;
        distinct = dedupe_sets-distinct cal ts gran none [] es k;
        first_of =
            All-map (IsNew cal ts gran [] es) _ (λ s (b, m, n, f). (b, m, f)) _
              (dedupe_sets-first cal ts gran none [] es k);
        complete =
            All-map (IsCovered cal ts gran [] _) _
              (λ c (b, m, o). (b, m, not_seen cal ts gran b out o)) es
              (dedupe_sets-covers cal ts gran none [] es k);
      },
    )
