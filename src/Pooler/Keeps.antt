-- ===== src/Pooler/Keeps.antt =====
-- Actions that leave the checkpoint table and the pool log alone, one rule for each way to build an
-- action; and what a bind that returns, or raises, went through.
use dbt_bigquery_ext.Prelude.{
  ◌≡◌, refl, ap, subst, ◌∙◌, ◌⊎◌, inl, inr, Bool, true, false, Option, none, some, Exn, Result,
  done, raised, arith, if◌then◌else◌,
}
use dbt_bigquery_ext.Gateway.Db.{Db}
use dbt_bigquery_ext.Pooler.World.{
  Event, Services, World, Action, pure, raise, lift, attempt, call, ask, continue, ◌>>=◌,
  transaction, emit,
}

-- The two tables of the coverage promise are the same.
pub record SameLogs (db db' : Db) : Type 0 where
  pub model_log : db'.model_log ≡ db.model_log
  pub change_log : db'.change_log ≡ db.change_log

pub SameLogs-refl : (db : Db) → SameLogs db db
SameLogs-refl db = record { model_log = refl; change_log = refl }

pub SameLogs-trans : {a b c : Db} → SameLogs a b → SameLogs b c → SameLogs a c
SameLogs-trans p q = record {
  model_log = q.model_log ∙ p.model_log;
  change_log = q.change_log ∙ p.change_log;
}

pub record KeepsLogs {E A : Type 0} (m : Action E A) : Type 0 where
  pub at : (s : World E) → SameLogs s.db (m s).1.db

module _ {E A : Type 0} where
  pub KeepsLogs-pure : (a : A) → KeepsLogs {E = E} (pure a)
  unfolding pure
  KeepsLogs-pure a = record { at = λ s. SameLogs-refl s.db }

  pub KeepsLogs-raise : (e : Exn) → KeepsLogs {E = E} {A = A} (raise e)
  unfolding raise
  KeepsLogs-raise e = record { at = λ s. SameLogs-refl s.db }

  pub KeepsLogs-lift : (r : Result A) → KeepsLogs {E = E} (lift r)
  unfolding lift
  KeepsLogs-lift r = record { at = λ s. SameLogs-refl s.db }

  pub KeepsLogs-attempt : (m : Action E A) → KeepsLogs m → KeepsLogs (attempt m)
  unfolding attempt
  KeepsLogs-attempt m k = record { at = λ s. k.at s }

  pub KeepsLogs-call : (f : E → Result A × E) → KeepsLogs (call f)
  unfolding call
  KeepsLogs-call f = record { at = λ s. SameLogs-refl s.db }

  pub KeepsLogs-ask : (f : E → A × E) → KeepsLogs (ask f)
  unfolding ask
  KeepsLogs-ask f = record { at = λ s. SameLogs-refl s.db }

  pub KeepsLogs-if :
      (b : Bool) (m n : Action E A) → KeepsLogs m → KeepsLogs n → KeepsLogs (if b then m else n)
  KeepsLogs-if true m n km kn = km
  KeepsLogs-if false m n km kn = kn

pub KeepsLogs-emit : {E : Type 0} (sv : Services E) (ev : Event) → KeepsLogs (emit sv ev)
unfolding emit
KeepsLogs-emit sv ev = record { at = λ s. SameLogs-refl s.db }

module _ {E A B : Type 0} where
  continue-Keeps :
      (r : Result A) (f : A → Action E B)
      → ((a : A) → KeepsLogs (f a))
      → (s : World E) → SameLogs s.db (continue r f s).1.db
  continue-Keeps (done a) f kf s = (kf a).at s
  continue-Keeps (raised e) f kf s = SameLogs-refl s.db

  pub KeepsLogs-bind :
      (m : Action E A) (f : A → Action E B)
      → KeepsLogs m
      → ((a : A) → KeepsLogs (f a))
      → KeepsLogs (m >>= f)
  unfolding ◌>>=◌
  KeepsLogs-bind m f km kf = record {
    at = λ s. SameLogs-trans (km.at s) (continue-Keeps (m s).0 f kf (m s).1);
  }

  -- A bind that returns returned from both its parts.
  pub bind-done :
      (m : Action E A) (f : A → Action E B) (s : World E) {b : B} {s' : World E}
      → (m >>= f) s ≡ (done b, s')
      → (a : A) × (s1 : World E) × (m s ≡ (done a, s1)) × (f a s1 ≡ (done b, s'))
  unfolding ◌>>=◌
  bind-done m f s {b} {s'} h = go (m s).0 refl h
    where
      go :
          (r : Result A)
          → (m s).0 ≡ r
          → continue r f (m s).1 ≡ (done b, s')
          → (a : A) × (s1 : World E) × (m s ≡ (done a, s1)) × (f a s1 ≡ (done b, s'))
      go (done a) e k = (a, (m s).1, λ i. (e i, (m s).1), k)
      go (raised x) e k = absurd (cc)

  -- A bind that raises raised in its first part, or returned from it and raised in the second.
  pub bind-raised :
      (m : Action E A) (f : A → Action E B) (s : World E) {x : Exn} {s' : World E}
      → (m >>= f) s ≡ (raised x, s')
      → (m s ≡ (raised x, s'))
        ⊎ ((a : A) × (s1 : World E) × (m s ≡ (done a, s1)) × (f a s1 ≡ (raised x, s')))
  unfolding ◌>>=◌
  bind-raised m f s {x} {s'} h = go (m s).0 refl h
    where
      go :
          (r : Result A)
          → (m s).0 ≡ r
          → continue r f (m s).1 ≡ (raised x, s')
          → (m s ≡ (raised x, s'))
            ⊎ ((a : A) × (s1 : World E) × (m s ≡ (done a, s1)) × (f a s1 ≡ (raised x, s')))
      go (done a) e k = inr (a, (m s).1, λ i. (e i, (m s).1), k)
      go (raised y) e k =
          let q : y ≡ x = cc in
          let t : (m s).1 ≡ s' = ap (λ (p : Result B × World E). p.1) k in
          inl ((λ i. (e i, (m s).1)) ∙ (λ i. (raised (q i), t i)))

module _ {E A : Type 0} (sv : Services E) where
  -- A transaction whose body keeps the two tables.
  pub KeepsLogs-transaction :
      (f : Db → Result (A × Db))
      → ((db : Db) (a : A) (db' : Db) → f db ≡ done (a, db') → SameLogs db db')
      → KeepsLogs (transaction sv f)
  unfolding transaction
  KeepsLogs-transaction f k = record { at = λ s. go s (sv.session s.services).0 (f s.db) refl }
    where
      go :
          (s : World E) (failure : Option Exn) (r : Result (A × Db))
          → f s.db ≡ r
          → SameLogs s.db (
              let e = (sv.session s.services).1 in
              let out : Result A × World E = elim failure [
                | some exn ↦ (raised exn, record s { services = e })
                | none ↦ elim r [
                  | raised exn ↦ (raised exn, record s { services = e })
                  | done (a, db) ↦ (done a, record s { services = e; db = db })
                ]
              ] in
              out.1.db)
      go s (some exn) r e = SameLogs-refl s.db
      go s none (raised exn) e = SameLogs-refl s.db
      go s none (done (a, db)) e = k s.db a db e

  -- A transaction that only writes other tables.
  pub KeepsLogs-write :
      (a : A) (g : Db → Db)
      → ((db : Db) → SameLogs db (g db))
      → KeepsLogs (transaction sv (λ db. done (a, g db)))
  KeepsLogs-write a g k =
      KeepsLogs-transaction _ λ db a' db' e. let q : g db ≡ db' = cc in subst (SameLogs db) q (k db)

  -- A transaction that returns ran its body on the tables.
  pub transaction-done :
      (f : Db → Result (A × Db)) (s : World E) {a : A} {s' : World E}
      → transaction sv f s ≡ (done a, s')
      → f s.db ≡ done (a, s'.db)
  unfolding transaction
  transaction-done f s h = ground arith

  -- A transaction that raises leaves the tables as they were.
  pub transaction-raised :
      (f : Db → Result (A × Db)) (s : World E) {x : Exn} {s' : World E}
      → transaction sv f s ≡ (raised x, s')
      → s'.db ≡ s.db
  unfolding transaction
  transaction-raised f s h = ground arith

pub ruleset keeps_rules = (
  KeepsLogs-pure, KeepsLogs-raise, KeepsLogs-lift, KeepsLogs-attempt, KeepsLogs-call, KeepsLogs-ask,
  KeepsLogs-if, KeepsLogs-emit, KeepsLogs-bind,
)
