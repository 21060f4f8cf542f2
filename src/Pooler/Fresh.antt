-- ===== src/Pooler/Fresh.antt =====
-- gateway/pooler_core.py `ensure_affected_partitions`: what an answer promises.
use dbt_bigquery_ext.Prelude.{
  ◌≡◌, refl, sym, ap, ◌∙◌, ◌⊎◌, inl, inr, Bool, true, false, Bool-cases, Option, List, [], Text,
  arith, Result, done, raised, not, ◌&&◌, if◌then◌else◌,
}
use dbt_bigquery_ext.Gateway.Db.{Db}
use dbt_bigquery_ext.Gateway.Checkpoints.{get_pooler_checkpoint}
use dbt_bigquery_ext.Gateway.ChangeLog.{get_affected_partitions}
use dbt_bigquery_ext.Pooler.World.{Services, World, Action, pure, raise, ◌>>=◌, transaction}
use dbt_bigquery_ext.Pooler.Keeps.{bind-done, transaction-done}
use dbt_bigquery_ext.Pooler.Mirror.{PoolResult}
use dbt_bigquery_ext.Pooler.PoolOne.{delta_end_of, ts_compare_lt}
use dbt_bigquery_ext.Pooler.PoolRelations.{pool_relations}
use dbt_bigquery_ext.Pooler.Ensure.{
  EnsureRequest, Affected, pool_request, read_watermark, refresh, answer, with_db,
  ensure_affected_partitions,
}

pure-done : {E A : Type 0} {a b : A} {s s' : World E} → pure a s ≡ (done b, s') → (a ≡ b) × (s ≡ s')
unfolding pure
pure-done h = (cc, ap (λ p. p.1) h)

-- A test that an action branches on, and the branch that ran.
which :
    {E A : Type 0} (b : Bool) (m n : Action E A) (s : World E) {r : Result A × World E}
    → (if b then m else n) s ≡ r
    → ((b ≡ true) × (m s ≡ r)) ⊎ ((b ≡ false) × (n s ≡ r))
which true m n s h = inl (refl, h)
which false m n s h = inr (refl, h)

module _ {E : Type 0} (sv : Services E) (q : EnsureRequest) where
  -- An answer, against the tables it was read from.
  pub record IsFresh (a : Affected) (db : Db) : Type 0 where
    pub read_back :
        get_affected_partitions sv.pg q.project q.dataset q.table q.start_ts q.end_ts db
        ≡ done a.partition_ids
    pub of_checkpoint :
        a.watermark ≡ delta_end_of (get_pooler_checkpoint sv.pg q.project q.dataset q.table db)
    pub complete : a.is_complete ≡ not (ts_compare_lt a.watermark q.end_ts)
    pub fresh : q.ensure_fresh ≡ true → a.is_complete ≡ true

  watermark_in : Db → Option Text
  watermark_in db = delta_end_of (get_pooler_checkpoint sv.pg q.project q.dataset q.table db)

  read_watermark-done :
      (s : World E) {w : Option Text} {s' : World E}
      → read_watermark sv q s ≡ (done w, s')
      → (w ≡ watermark_in s'.db) × (s'.db ≡ s.db)
  unfolding read_watermark watermark_in
  read_watermark-done s {w} {s'} h =
      let (cp, s1, e1, h1) = bind-done (transaction sv _) _ s h in
      let t = transaction-done sv _ s e1 in
      let p = pure-done h1 in
      let d : s.db ≡ s1.db = cc in
      let k : get_pooler_checkpoint sv.pg q.project q.dataset q.table s.db ≡ cp = cc in
      let d' : s1.db ≡ s'.db = ap (λ (x : World E). x.db) p.1 in
      (sym p.0 ∙ ap delta_end_of (sym k) ∙ ap watermark_in (d ∙ d'), sym (d ∙ d'))

  with_db-done :
      (r : Result (Option (List Text))) (db : Db) {ids : Option (List Text)} {db' : Db}
      → with_db r db ≡ done (ids, db')
      → (r ≡ done ids) × (db' ≡ db)
  with_db-done (raised e) db h = absurd (cc)
  with_db-done (done i) db h = (cc, cc)

  answer-IsFresh :
      (pooled : Bool) (rs : List PoolResult) (w : Option Text) (s : World E) {a : Affected}
      {s' : World E}
      → w ≡ watermark_in s.db
      → answer sv q pooled rs w s ≡ (done a, s')
      → IsFresh a s'.db × (s'.db ≡ s.db) × (a.pooled ≡ pooled)
  unfolding answer watermark_in
  answer-IsFresh pooled rs w s {a} {s'} is h =
      elim (Bool-cases (q.ensure_fresh && ts_compare_lt w q.end_ts)) [
        | inl e ↦ unfold raise in absurd (cc (rw e at h))
        | inr e ↦
            let (ids, s1, e1, h1) = bind-done (transaction sv _) _ s (rw e at h) in
            let t =
              with_db-done
                (get_affected_partitions sv.pg q.project q.dataset q.table q.start_ts q.end_ts s.db)
                s.db (transaction-done sv _ s e1) in
            let (p, l) = pure-done h1 in
            let d : s'.db ≡ s.db = ap (λ (x : World E). x.db) (sym l) ∙ t.1 in
            let pw : a.watermark ≡ w = ap (λ (x : Affected). x.watermark) (sym p) in
            (
              record {
                read_back = rw d (t.0 ∙ ap (λ (x : Affected). done x.partition_ids) p);
                of_checkpoint = rw d (pw ∙ is);
                complete = rw pw (ap (λ (x : Affected). x.is_complete) (sym p));
                fresh = λ f. ap (λ (x : Affected). x.is_complete) (sym p) ∙ ground (arith, e, f);
              },
              d,
              ap (λ (x : Affected). x.pooled) (sym p),
            )
      ]

  refresh-done :
      (s : World E) {r : List PoolResult × Option Text} {s' : World E}
      → refresh sv q s ≡ (done r, s')
      → r.1 ≡ watermark_in s'.db
  unfolding refresh
  refresh-done s h =
      let (rs, s1, e1, h1) = bind-done (pool_relations sv (pool_request q)) _ s h in
      let (w, s2, e2, h2) = bind-done (read_watermark sv q) _ s1 h1 in
      let (p, l) = pure-done h2 in
      let (is, d) = read_watermark-done s1 e2 in
      ap (λ (x : List PoolResult × Option Text). x.1) (sym p)
      ∙ is
      ∙ ap (λ (x : World E). watermark_in x.db) l

  -- An answer is the partitions that the log gives for the window as the tables stand when it is
  -- returned, with the watermark of the table's checkpoint then; it is marked complete exactly where
  -- that watermark is not before the end of the window, and always where freshness was asked for.
  -- Where nothing was pooled the tables are as before.
  pub ensure_affected-IsFresh :
      (s : World E) {a : Affected} {s' : World E}
      → ensure_affected_partitions sv q s ≡ (done a, s')
      → IsFresh a s'.db × (a.pooled ≡ false → s'.db ≡ s.db)
  unfolding ensure_affected_partitions
  ensure_affected-IsFresh s {a} {s'} h =
      let (w, s1, e1, h1) = bind-done (read_watermark sv q) _ s h in
      let (is, d) = read_watermark-done s e1 in
      elim (which (q.ensure_fresh && ts_compare_lt w q.end_ts)
        (refresh sv q >>= λ r. answer sv q true r.0 r.1) (answer sv q false [] w) s1 h1) [
          | inl (e, k) ↦
              let (r, s2, e2, h2) = bind-done (refresh sv q) _ s1 k in
              let out = answer-IsFresh true r.0 r.1 s2 (refresh-done s1 e2) h2 in
              (out.0, λ f. absurd (cc (out.2, f)))
          | inr (e, k) ↦
              let out = answer-IsFresh false [] w s1 (is ∙ refl) k in (out.0, λ f. out.1 ∙ d)
        ]
