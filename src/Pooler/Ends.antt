-- ===== src/Pooler/Ends.antt =====
-- How an action ends, whatever state it starts in: one rule for each way to build an action.
use dbt_bigquery_ext.Prelude.{
  ◌≡◌, refl, subst, sym, Bool, true, false, Exn, Result, done, raised, if◌then◌else◌,
}
use dbt_bigquery_ext.Pooler.World.{
  Event, Services, World, Action, pure, raise, lift, attempt, ask, continue, ◌>>=◌, emit,
}

pub record Ends {E A : Type 0} (P : Result A → Type 0) (m : Action E A) : Type 0 where
  pub at : (s : World E) → P (m s).0

-- The action returns, with a value of this kind, or raises an exception of that kind.
abbrev pub Either : {A : Type 0} → (Exn → Type 0) → (A → Type 0) → Result A → Type 0
Either F P (done a) = P a
Either F P (raised e) = F e

-- If the action returns, the value is of this kind.
abbrev pub IfDone : {A : Type 0} → (A → Type 0) → Result A → Type 0
IfDone P (done a) = P a
IfDone P (raised e) = Unit

-- What is tried has ended so.
abbrev pub Tried : {A : Type 0} → (Result A → Type 0) → Result (Result A) → Type 0
Tried P (done r) = P r
Tried P (raised e) = ⊥

any_end : {A : Type 0} (r : Result A) → IfDone (λ (a : A). Unit {0}) r
any_end (done a) = tt
any_end (raised e) = tt

module _ {E A : Type 0} where
  pub Ends-pure :
      (F : Exn → Type 0) (P : A → Type 0) (a : A) → P a → Ends {E = E} (Either F P) (pure a)
  unfolding pure
  Ends-pure F P a p = record { at = λ s. p }

  pub IfDone-pure : (P : A → Type 0) (a : A) → P a → Ends {E = E} (IfDone P) (pure a)
  unfolding pure
  IfDone-pure P a p = record { at = λ s. p }

  pub IfDone-raise : (P : A → Type 0) (e : Exn) → Ends {E = E} (IfDone P) (raise e)
  unfolding raise
  IfDone-raise P e = record { at = λ s. tt }

  pub Ends-ask : (F : Exn → Type 0) (f : E → A × E) → Ends (Either F (λ (a : A). Unit {0})) (ask f)
  unfolding ask
  Ends-ask F f = record { at = λ s. tt }

  pub Ends-attempt :
      (P : Result A → Type 0) (m : Action E A) → Ends P m → Ends (Tried P) (attempt m)
  unfolding attempt
  Ends-attempt P m h = record { at = λ s. h.at s }

  pub IfDone-any : (m : Action E A) → Ends (IfDone (λ (a : A). Unit {0})) m
  IfDone-any m = record { at = λ s. any_end (m s).0 }

  pub Ends-lift :
      (F : Exn → Type 0) (P : A → Type 0) (r : Result A) (a : A)
      → r ≡ done a
      → P a
      → Ends {E = E} (Either F P) (lift r)
  unfolding lift
  Ends-lift F P r a e p = record { at = λ s. subst (Either F P) (sym e) p }

-- `on_event` has raised this.
abbrev pub HasRefused : {E : Type 0} → Services E → Exn → Type 0
HasRefused {E} sv exc = (ev : Event) × (e : E) × ((sv.on_event ev e).0 ≡ raised exc)

or_refused :
    {E : Type 0} (sv : Services E) (ev : Event) (e : E) (r : Result (Unit {0}))
    → (sv.on_event ev e).0 ≡ r
    → Either (HasRefused sv) (λ _. Unit {0}) r
or_refused sv ev e (done u) q = tt
or_refused sv ev e (raised exc) q = (ev, e, q)

pub Ends-emit :
    {E : Type 0} (sv : Services E) (ev : Event)
    → Ends (Either (HasRefused sv) (λ _. Unit {0})) (emit sv ev)
unfolding emit
Ends-emit sv ev = record { at = λ s. or_refused sv ev s.services _ refl }

module _ {E A B : Type 0} where
  continue-Ends :
      (P : Result A → Type 0) (Q : Result B → Type 0) (r : Result A) (f : A → Action E B)
      → P r
      → ((a : A) → P (done a) → Ends Q (f a))
      → ((x : Exn) → P (raised x) → Q (raised x))
      → (s : World E) → Q (continue r f s).0
  continue-Ends P Q (done a) f p k l s = (k a p).at s
  continue-Ends P Q (raised x) f p k l s = l x p

  pub Ends-bind :
      (P : Result A → Type 0) (Q : Result B → Type 0) (m : Action E A) (f : A → Action E B)
      → Ends P m
      → ((a : A) → P (done a) → Ends Q (f a))
      → ((x : Exn) → P (raised x) → Q (raised x))
      → Ends Q (m >>= f)
  unfolding ◌>>=◌
  Ends-bind P Q m f h k l = record { at = λ s. continue-Ends P Q (m s).0 f (h.at s) k l (m s).1 }

  -- What follows an action, where an exception of that kind is passed on.
  pub Either-bind :
      (F : Exn → Type 0) (P : A → Type 0) (Q : B → Type 0) (m : Action E A) (f : A → Action E B)
      → Ends (Either F P) m
      → ((a : A) → P a → Ends (Either F Q) (f a))
      → Ends (Either F Q) (m >>= f)
  Either-bind F P Q m f h k = Ends-bind (Either F P) (Either F Q) m f h k (λ x b. b)

  -- What follows any action, where only a value that is returned matters.
  pub IfDone-bind :
      (Q : B → Type 0) (m : Action E A) (f : A → Action E B)
      → ((a : A) → Ends (IfDone Q) (f a))
      → Ends (IfDone Q) (m >>= f)
  IfDone-bind Q m f k =
      Ends-bind (IfDone (λ _. Unit {0})) (IfDone Q) m f (IfDone-any m) (λ a _. k a) (λ x _. tt)

pub IfDone-if :
    {E A : Type 0} (P : A → Type 0) (b : Bool) (m n : Action E A)
    → Ends (IfDone P) m
    → Ends (IfDone P) n
    → Ends (IfDone P) (if b then m else n)
IfDone-if P true m n h k = h
IfDone-if P false m n h k = k
