-- ===== src/Retry.antt =====
-- retry.py: which errors of a BigQuery call are tried again. The error types, the library's
-- `_job_should_retry` and its retry loop are not of this repository: they are parameters here, and
-- the loop is taken to ask the predicate at each error and to call again exactly where it agrees.
use dbt_bigquery_ext.Prelude.{
  ℕ, zero, suc, ◌+◌, ◌-◌, ◌≤◌, ◌<◌, ◌≡◌, ◌↔◌, inl, inr, refl, Bool, true, false, Bool-cases, Option,
  none, some, [], ◌∷◌, Text, codes, member, text_eq, ◌==◌, leb, ◌&&◌, not, if◌then◌else◌, arith,
  Result, done, raised, ◌⊎◌, text_eq_iff, member_iff, ap, some_inj, ==_iff, and_split,
}

module _ {Error : Type 0} (job_should_retry : Error → Bool) where
  -- `_DeferredException.__call__` on its count of errors.
  unfoldable pub deferred_exception : ℕ → ℕ → Error → Bool × ℕ
  deferred_exception retries error_count error =
      if retries == 0
      then (false, error_count)
      else (job_should_retry error && leb (error_count + 1) retries, error_count + 1)

-- How a call under the retry loop ends: after how many attempts it returned or gave up; `unfinished`
-- is a loop that is still running.
pub data Ending : Type 0 where
  returned : ℕ → Ending
  gave_up : ℕ → Ending
  unfinished : Ending

-- The loop has ended after at most `n` attempts.
abbrev pub EndsWithin : ℕ → Ending → Type 0
EndsWithin n (returned k) = k ≤ n
EndsWithin n (gave_up k) = k ≤ n
EndsWithin n unfinished = ⊥

module _ {Error : Type 0} (job_should_retry : Error → Bool) (retries : ℕ)
    (call : ℕ → Option Error) where
  -- The answer of the predicate, and the next attempt where it agrees.
  abbrev after_answer : ℕ → Bool × ℕ → (ℕ → Ending) → Ending
  after_answer attempts (true, error_count) next = next error_count
  after_answer attempts (false, error_count) next = gave_up attempts

  -- What follows one attempt.
  abbrev after_call : ℕ → ℕ → Option Error → (ℕ → Ending) → Ending
  after_call attempts error_count none next = returned attempts
  after_call attempts error_count (some error) next =
      after_answer attempts (deferred_exception job_should_retry retries error_count error) next

  -- At most `fuel` more attempts, after some attempts and errors.
  unfoldable pub retry_calls : ℕ → ℕ → ℕ → Ending
  unfolding deferred_exception
  retry_calls zero attempts error_count = unfinished
  retry_calls (suc fuel) attempts error_count =
      after_call (attempts + 1) error_count (call attempts) (λ c. retry_calls fuel (attempts + 1) c)

  after_answer-within :
      (attempts : ℕ) (a : Bool × ℕ) (next : ℕ → Ending) (n : ℕ)
      → attempts ≤ n
      → (a.0 ≡ true → EndsWithin n (next a.1))
      → EndsWithin n (after_answer attempts a next)
  after_answer-within attempts (true, c) next n h k = k refl
  after_answer-within attempts (false, c) next n h k = h

  after_call-within :
      (attempts error_count : ℕ) (o : Option Error) (next : ℕ → Ending) (n : ℕ)
      → attempts ≤ n
      → (error_count < retries → EndsWithin n (next (error_count + 1)))
      → EndsWithin n (after_call attempts error_count o next)
  unfolding deferred_exception
  after_call-within attempts error_count none next n h k = h
  after_call-within attempts error_count (some e) next n h k = elim (Bool-cases (retries == 0)) [
    | inl z ↦ rw z h
    | inr z ↦ rw z (
        after_answer-within attempts
          (job_should_retry e && leb (error_count + 1) retries, error_count + 1) next n h
          (λ q. k (ground (arith, q))))
  ]

  retry_calls-within :
      (fuel attempts error_count n : ℕ)
      → error_count ≤ retries
      → retries < fuel + error_count
      → attempts + (retries - error_count) < n
      → EndsWithin n (retry_calls fuel attempts error_count)
  unfolding retry_calls
  retry_calls-within zero attempts error_count n a b c = absurd (omega (arith, a, b))
  retry_calls-within (suc fuel) attempts error_count n a b c =
      after_call-within (attempts + 1) error_count (call attempts)
        (λ k. retry_calls fuel (attempts + 1) k) n (omega (arith, c))
        (λ l.
          retry_calls-within fuel (attempts + 1) (error_count + 1) n (omega (arith, l))
            (omega (arith, b)) (omega (arith, c, l)))

-- Under the count of errors the retry loop comes to an end, whatever the calls do and whichever
-- errors are held to be worth a retry: after one attempt and at most one more for each retry.
pub retry_calls-ends :
    {Error : Type 0} (job_should_retry : Error → Bool) (retries : ℕ) (call : ℕ → Option Error)
    → EndsWithin (retries + 1) (retry_calls job_should_retry retries call (retries + 1) 0 0)
retry_calls-ends f retries call =
    retry_calls-within f retries call (retries + 1) 0 0 (retries + 1) (omega arith) (omega arith)
      (omega arith)

-- A job, by what the predicate reads of it: `reload` may raise, and changes its state.
pub record QueryJob (J : Type 0) : Type 0 where
  pub reload : J → Result (Unit {0}) × J
  pub state : J → Text
  pub has_error_result : J → Bool

-- `none` is an error with no list of errors, or whose first one has no reason; a RetryError stands
-- for its cause.
unfoldable pub is_rate_limit_error : Option Text → Bool
is_rate_limit_error none = false
is_rate_limit_error (some reason) =
    member reason (codes "rateLimitExceeded" ∷ codes "jobRateLimitExceeded" ∷ [])

by_reason :
    (o : Option Text)
    → (is_rate_limit_error o ≡ true)
      ↔ ((o ≡ some (codes "rateLimitExceeded")) ⊎ (o ≡ some (codes "jobRateLimitExceeded")))
unfolding is_rate_limit_error
by_reason none = (λ e. absurd (cc), elim [ inl e ↦ absurd (cc) | inr e ↦ absurd (cc) ])
by_reason (some reason) =
    let m = member_iff reason (codes "rateLimitExceeded" ∷ codes "jobRateLimitExceeded" ∷ []) in
    (
      λ e. elim (m.0 e) [
        | inl q ↦ inl (ap (λ (t : Text). some t) q)
        | inr (inl q) ↦ inr (ap (λ (t : Text). some t) q)
        | inr (inr x) ↦ absurd x
      ],
      elim [ inl e ↦ m.1 (inl (some_inj e)) | inr e ↦ m.1 (inr (inl (some_inj e))) ],
    )

not-false_eq : (b : Bool) → not b ≡ false → b ≡ true
not-false_eq true e = refl
not-false_eq false e = absurd (cc)

module _ {J Error : Type 0} (job : QueryJob J) (job_should_retry : Error → Bool)
    (first_reason : Error → Option Text) where
  abbrev pub is_dead : J → Bool
  is_dead j = text_eq (job.state j) (codes "DONE") && job.has_error_result j

  -- The job after the reload, where it did not raise.
  abbrev after_reload : Result (Unit {0}) × J → Bool × J
  after_reload (done _, j) = (not (is_dead j), j)
  after_reload (raised e, j) = (true, j)

  -- `_TerminalJobAwarePredicate.__call__`.
  unfoldable pub terminal_job_aware : ℕ → Error → J → Bool × J
  unfolding is_rate_limit_error
  terminal_job_aware retries error j =
      if retries == 0
      then (false, j)
      else if not (job_should_retry error)
      then (false, j)
      else if not (is_rate_limit_error (first_reason error))
      then after_reload (job.reload j)
      else (true, j)

  -- The reason that BigQuery gives for a throttle.
  abbrev pub IsThrottled : Error → Type 0
  IsThrottled error =
      (first_reason error ≡ some (codes "rateLimitExceeded"))
      ⊎ (first_reason error ≡ some (codes "jobRateLimitExceeded"))

  -- The reload returns, and then the job's state is DONE and it has an error.
  abbrev pub IsFoundDead : J → Type 0
  IsFoundDead j =
      ((job.reload j).0 ≡ done tt)
      × (job.state (job.reload j).1 ≡ codes "DONE")
      × (job.has_error_result (job.reload j).1 ≡ true)

  reload_answer :
      (r : Result (Unit {0}) × J)
      → ((after_reload r).0 ≡ false)
        ↔ ((r.0 ≡ done tt) × (job.state r.1 ≡ codes "DONE") × (job.has_error_result r.1 ≡ true))
  reload_answer (done _, j) =
      let q = text_eq_iff (job.state j) (codes "DONE") in
      (
        λ e.
            let (a, b) =
              and_split (text_eq (job.state j) (codes "DONE")) (job.has_error_result j)
                (not-false_eq (is_dead j) e) in
            (refl, q.0 a, b),
        λ h. rw (q.1 h.1, h.2) refl,
      )
  reload_answer (raised e, j) = (λ k. absurd (cc), λ h. absurd (cc (h.0)))

  IsThrottled-iff :
      (error : Error) → (is_rate_limit_error (first_reason error) ≡ true) ↔ IsThrottled error
  IsThrottled-iff error = by_reason (first_reason error)

  -- The polling stops exactly where there are no retries, or the error is not worth one, or BigQuery's
  -- reason is neither of the two throttles and the reload finds the job done with an error; and a
  -- throttle leaves the job as it is, without a reload.
  pub terminal_job_aware_lem :
      (retries : ℕ) (error : Error) (j : J)
      → (((terminal_job_aware retries error j).0 ≡ false) ↔ (
          (retries ≡ 0)
          ⊎ (job_should_retry error ≡ false)
          ⊎ ((¬ IsThrottled error) × IsFoundDead j)))
        × (IsThrottled error → (terminal_job_aware retries error j).1 ≡ j)
  unfolding terminal_job_aware
  terminal_job_aware_lem retries error j =
      let t = IsThrottled-iff error in
      elim (Bool-cases (retries == 0)) [
        | inl z ↦ rw z ((λ e. inl ((==_iff retries 0).0 z), λ h. refl), λ h. refl)
        | inr z ↦ elim (Bool-cases (job_should_retry error)) [
          | inr s ↦ rw (z, s) ((λ e. inr (inl refl), λ h. refl), λ h. refl)
          | inl s ↦ elim (Bool-cases (is_rate_limit_error (first_reason error))) [
            | inl r ↦
                rw (z, s, r)
                  (
                    (
                      λ e. absurd (cc),
                      elim [
                        | inl e ↦ absurd (cc (z, (==_iff retries 0).1 e))
                        | inr (inl e) ↦ absurd (cc)
                        | inr (inr h) ↦ absurd (h.0 (t.0 r))
                      ],
                    ),
                    λ h. refl,
                  )
            | inr r ↦
                rw (z, s, r)
                  (
                    (
                      λ e. inr (inr (λ h. cc (r, t.1 h), (reload_answer (job.reload j)).0 e)),
                      elim [
                        | inl e ↦ absurd (cc (z, (==_iff retries 0).1 e))
                        | inr (inl e) ↦ absurd (cc)
                        | inr (inr h) ↦ (reload_answer (job.reload j)).1 h.1
                      ],
                    ),
                    λ h. absurd (cc (r, t.1 h)),
                  )
          ]
        ]
      ]
