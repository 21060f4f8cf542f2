-- ===== src/Tracking/Dedupe.antt =====
-- gateway/change_tracking.py `dedupe_relation_dicts`. A relation is a mapping whose keys may be
-- missing; the values that are present are texts.
use dbt_bigquery_ext.Prelude.{
  ◌≡◌, ◌≢◌, refl, true, false, Option, none, some, List, [], ◌∷◌, ◌++◌, Text, codes, member,
  member_iff, In, ◌⊎◌, inl, inr, Bool-cases, ap, sym, subst,
}
use dbt_bigquery_ext.Config.Names.{dot}

pub record RelationDict : Type 0 where
  pub database : Option Text
  pub project : Option Text
  pub schema : Option Text
  pub dataset : Option Text
  pub identifier : Option Text
  pub table : Option Text
  pub table_name : Option Text
  pub node_id : Option Text

pub record Relation : Type 0 where
  pub database : Text
  pub schema : Text
  pub identifier : Text
  pub node_id : Option Text

-- `str(x)` of a value that may be `None`.
abbrev str : Option Text → Text
str none = codes "None"
str (some t) = t

-- `rel["a"] if "a" in rel else rel.get("b")`.
abbrev in_or_get : Option Text → Option Text → Option Text
in_or_get none b = b
in_or_get (some t) b = some t

-- `a or b`, of values that may be `None` or empty.
abbrev or_text : Option Text → Option Text → Option Text
or_text none b = b
or_text (some []) b = b
or_text (some (c ∷ s)) b = some (c ∷ s)

unfoldable pub normalize : RelationDict → Relation
normalize rel = record {
  database = str (in_or_get rel.database rel.project);
  schema = str (in_or_get rel.schema rel.dataset);
  identifier = str (or_text rel.identifier (or_text rel.table rel.table_name));
  node_id = rel.node_id;
}

-- f"{project}.{dataset}.{table}"
abbrev pub key : Relation → Text
key r = r.database ++ (dot ∷ (r.schema ++ (dot ∷ r.identifier)))

dedupe_from : List Text → List RelationDict → List Relation
dedupe_from seen [] = []
dedupe_from seen (rel ∷ rels) = elim (member (key (normalize rel)) seen) [
  | true ↦ dedupe_from seen rels
  | false ↦ normalize rel ∷ dedupe_from (key (normalize rel) ∷ seen) rels
]

unfoldable pub dedupe_relation_dicts : List RelationDict → List Relation
unfolding dedupe_from
dedupe_relation_dicts rels = dedupe_from [] rels

abbrev pub keys : List Relation → List Text
keys [] = []
keys (r ∷ rs) = key r ∷ keys rs

-- No key occurs twice.
abbrev pub Distinct : List Text → Type 0
Distinct [] = Unit
Distinct (k ∷ ks) = ¬ In k ks × Distinct ks

-- Each relation comes from the first mapping that has its key.
abbrev pub FirstOf : List RelationDict → Relation → Type 0
FirstOf [] r = ⊥
FirstOf (rel ∷ rels) r = (r ≡ normalize rel) ⊎ ((key r ≢ key (normalize rel)) × FirstOf rels r)

pub record IsDedupe (rels : List RelationDict) (out : List Relation) : Type 0 where
  pub distinct : Distinct (keys out)
  pub first : (r : Relation) → In r out → FirstOf rels r
  pub complete : (rel : RelationDict) → In rel rels → In (key (normalize rel)) (keys out)

module _ (seen : List Text) (rel : RelationDict) (rels : List RelationDict) where
  dedupe_seen :
      member (key (normalize rel)) seen ≡ true
      → dedupe_from seen (rel ∷ rels) ≡ dedupe_from seen rels
  unfolding dedupe_from
  dedupe_seen e = rw (e, dedupe_from)

  dedupe_new :
      member (key (normalize rel)) seen ≡ false
      → dedupe_from seen (rel ∷ rels)
        ≡ normalize rel ∷ dedupe_from (key (normalize rel) ∷ seen) rels
  unfolding dedupe_from
  dedupe_new e = rw (e, dedupe_from)

  not_seen : member (key (normalize rel)) seen ≡ false → ¬ In (key (normalize rel)) seen
  not_seen e h = absurd (cc (e, (member_iff (key (normalize rel)) seen).1 h))

fresh_keys :
    (seen : List Text) (rels : List RelationDict) (k : Text)
    → In k (keys (dedupe_from seen rels))
    → ¬ In k seen
fresh_keys seen [] k h m = unfold dedupe_from in elim h [ ]
fresh_keys seen (rel ∷ rels) k h m = elim (Bool-cases (member (key (normalize rel)) seen)) [
  | inl e ↦ fresh_keys seen rels k (rw (dedupe_seen seen rel rels e) at h) m
  | inr e ↦ elim (rw (dedupe_new seen rel rels e) at h) [
    | inl q ↦ not_seen seen rel rels e (subst (λ t. In t seen) q m)
    | inr h' ↦ fresh_keys (key (normalize rel) ∷ seen) rels k h' (inr m)
  ]
]

dedupe_from-Distinct :
    (seen : List Text) (rels : List RelationDict) → Distinct (keys (dedupe_from seen rels))
dedupe_from-Distinct seen [] = unfold dedupe_from in tt
dedupe_from-Distinct seen (rel ∷ rels) = elim (Bool-cases (member (key (normalize rel)) seen)) [
  | inl e ↦ rw (dedupe_seen seen rel rels e) (dedupe_from-Distinct seen rels)
  | inr e ↦ rw (dedupe_new seen rel rels e) (
    λ h. fresh_keys (key (normalize rel) ∷ seen) rels _ h (inl refl),
    dedupe_from-Distinct (key (normalize rel) ∷ seen) rels,
  )
]

In-keys : (r : Relation) (rs : List Relation) → In r rs → In (key r) (keys rs)
In-keys r [] h = h
In-keys r (x ∷ rs) (inl e) = inl (ap (λ (t : Relation). key t) e)
In-keys r (x ∷ rs) (inr h) = inr (In-keys r rs h)

dedupe_from-FirstOf :
    (seen : List Text) (rels : List RelationDict) (r : Relation)
    → In r (dedupe_from seen rels)
    → FirstOf rels r
dedupe_from-FirstOf seen [] r h = unfold dedupe_from in h
dedupe_from-FirstOf seen (rel ∷ rels) r h = elim (Bool-cases (member (key (normalize rel)) seen)) [
  | inl e ↦
      let h' = rw (dedupe_seen seen rel rels e) at h in
      inr (
        λ q.
            fresh_keys seen rels (key r) (In-keys r _ h')
              (subst (λ t. In t seen) (sym q) ((member_iff _ seen).0 e)),
        dedupe_from-FirstOf seen rels r h',
      )
  | inr e ↦ elim (rw (dedupe_new seen rel rels e) at h) [
    | inl q ↦ inl q
    | inr h' ↦ inr (
      λ q. fresh_keys (key (normalize rel) ∷ seen) rels (key r) (In-keys r _ h') (inl q),
      dedupe_from-FirstOf (key (normalize rel) ∷ seen) rels r h',
    )
  ]
]

dedupe_from_complete :
    (seen : List Text) (rels : List RelationDict) (rel : RelationDict)
    → In rel rels
    → In (key (normalize rel)) seen ⊎ In (key (normalize rel)) (keys (dedupe_from seen rels))
dedupe_from_complete seen [] rel h = elim h [ ]
dedupe_from_complete seen (x ∷ rels) rel h = elim (Bool-cases (member (key (normalize x)) seen)) [
  | inl e ↦ rw (dedupe_seen seen x rels e) (elim h [
    | inl q ↦ inl (
        subst (λ (t : RelationDict). In (key (normalize t)) seen) (sym q) ((member_iff _ seen).0 e))
    | inr m ↦ dedupe_from_complete seen rels rel m
  ])
  | inr e ↦ rw (dedupe_new seen x rels e) (elim h [
    | inl q ↦ inr (inl (ap (λ (t : RelationDict). key (normalize t)) q))
    | inr m ↦ elim (dedupe_from_complete (key (normalize x) ∷ seen) rels rel m) [
      | inl k ↦ elim k [ inl q ↦ inr (inl q) | inr k' ↦ inl k' ]
      | inr k ↦ inr (inr k)
    ]
  ])
]

-- The relations that are kept have distinct names, each is the first mapping with its name, and no
-- name of the input is lost.
pub dedupe_relation_dicts-IsDedupe :
    (rels : List RelationDict) → IsDedupe rels (dedupe_relation_dicts rels)
unfolding dedupe_relation_dicts
dedupe_relation_dicts-IsDedupe rels = record {
  distinct = dedupe_from-Distinct [] rels;
  first = λ r h. dedupe_from-FirstOf [] rels r h;
  complete = λ rel h. elim (dedupe_from_complete [] rels rel h) [ inl k ↦ elim k [ ] | inr k ↦ k ];
}
