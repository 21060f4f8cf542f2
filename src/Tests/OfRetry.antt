-- ===== src/Tests/OfRetry.antt =====
-- The theorems on retries, at concrete calls and jobs.
use dbt_bigquery_ext.Prelude.{
  ℕ, ◌+◌, ◌≡◌, ◌↔◌, true, false, Bool, Option, some, Text, codes, done, ◌⊎◌,
}
use dbt_bigquery_ext.Retry.{
  EndsWithin, retry_calls, retry_calls-ends, QueryJob, IsThrottled, IsFoundDead, terminal_job_aware,
  terminal_job_aware_lem,
}

abbrev always : ℕ → Bool
always e = true

retry_calls_example : EndsWithin 4 (retry_calls always 3 (λ n. some n) 4 0 0)
retry_calls_example = retry_calls-ends always 3 (λ n. some n)

-- Every reload finds the job done, with an error.
abbrev dead_job : QueryJob ℕ
dead_job = record {
  reload = λ j. (done tt, j + 1);
  state = λ j. codes "DONE";
  has_error_result = λ j. true;
}

abbrev internal_error : ℕ → Option Text
internal_error e = some (codes "internalError")

terminal_job_aware_example :
    (((terminal_job_aware dead_job always internal_error 2 7 0).0 ≡ false) ↔ (
      (◌≡◌ {A = ℕ} 2 0)
      ⊎ (always 7 ≡ false)
      ⊎ ((¬ IsThrottled dead_job always internal_error 7)
          × IsFoundDead dead_job always internal_error 0)))
    × (IsThrottled dead_job always internal_error 7
        → (terminal_job_aware dead_job always internal_error 2 7 0).1 ≡ 0)
terminal_job_aware_example = terminal_job_aware_lem dead_job always internal_error 2 7 0
