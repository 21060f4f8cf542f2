-- ===== src/QueryParameters/WorkerPool.antt =====
-- query_parameters.py `resolve_worker_pool_size`.
use dbt_bigquery_ext.Prelude.{
  ℕ, zero, suc, ◌≢◌, ◌↔◌, ◌≤◌, ◌<◌, ◌≡◌, refl, Option, none, some, Text, codes, ltb, leb, min, max,
  Exn, Result, done, raised, if◌then◌else◌, arith, ◌⊎◌, inl, inr,
}

abbrev pub auto_worker_pool_size : ℕ
auto_worker_pool_size = 16

abbrev pub max_worker_pool_size : ℕ
max_worker_pool_size = 1024

-- A Python value where an int is expected; a `bool` counts as none. `negsuc n` is -(n + 1).
pub data PyInt : Type 0 where
  pos : ℕ → PyInt
  negsuc : ℕ → PyInt
  not_int : PyInt

abbrev runtime_error : Text → Exn
runtime_error message = record { class_name = codes "DbtRuntimeError"; message = message }

-- `auto_size` where it is a positive int, and the fallback otherwise.
abbrev auto_of : Option PyInt → Result ℕ
auto_of none = done auto_worker_pool_size
auto_of (some not_int) = raised (runtime_error (codes "auto_size must be a positive int or None"))
auto_of (some (negsuc n)) = done auto_worker_pool_size
auto_of (some (pos n)) = done (if ltb 0 n then n else auto_worker_pool_size)

abbrev explicit : ℕ → Result ℕ
explicit n =
    if ltb max_worker_pool_size n
    then raised (runtime_error (codes "worker_pool_size exceeds maximum allowed"))
    else done n

unfoldable pub resolve_worker_pool_size : PyInt → ℕ → Option PyInt → Result ℕ
resolve_worker_pool_size not_int num_jobs auto_size =
    raised (runtime_error (codes "worker_pool_size must be an int (-1, 0, or >0)"))
resolve_worker_pool_size (negsuc (suc n)) num_jobs auto_size =
    raised
      (runtime_error (codes "worker_pool_size must be -1 (unlimited), 0 (auto), or a positive int"))
resolve_worker_pool_size (negsuc zero) num_jobs auto_size =
    done (if leb num_jobs 0 then 1 else num_jobs)
resolve_worker_pool_size (pos zero) num_jobs auto_size =
    if leb num_jobs 0 then done 1 else elim (auto_of auto_size) [
      | raised e ↦ raised e
      | done auto ↦ done (max 1 (min auto num_jobs))
    ]
resolve_worker_pool_size (pos (suc n)) num_jobs auto_size =
    if leb num_jobs 0 then done 1 else explicit (suc n)

-- Every size that is resolved is at least 1, so that the executor accepts it, and at most the ceiling
-- or the number of jobs; in auto mode it is at most the number of jobs, where there are any.
pub resolve_bounds :
    (size : PyInt) (num_jobs : ℕ) (auto_size : Option PyInt) (n : ℕ)
    → resolve_worker_pool_size size num_jobs auto_size ≡ done n
    → (1 ≤ n)
      × (n ≤ max max_worker_pool_size num_jobs)
      × (size ≡ pos 0 → 0 < num_jobs → n ≤ num_jobs)
unfolding resolve_worker_pool_size
resolve_bounds not_int num_jobs auto_size n h = absurd (cc)
resolve_bounds (negsuc (suc k)) num_jobs auto_size n h = absurd (cc)
resolve_bounds (negsuc zero) num_jobs auto_size n h =
    (ground arith, ground arith, λ e _. absurd (cc))
resolve_bounds (pos zero) num_jobs auto_size n h = (ground arith, ground arith, λ e k. ground arith)
resolve_bounds (pos (suc k)) num_jobs auto_size n h =
    (ground arith, ground arith, λ e _. absurd (ground arith))

auto_total : (a : Option PyInt) → a ≢ some not_int → (n : ℕ) × (auto_of a ≡ done n)
auto_total none h = (_, refl)
auto_total (some not_int) h = absurd (h refl)
auto_total (some (negsuc n)) h = (_, refl)
auto_total (some (pos n)) h = (_, refl)

auto_mode :
    (num_jobs : ℕ) (auto_size : Option PyInt)
    → 0 < num_jobs
    → auto_size ≢ some not_int
    → (n : ℕ) × (resolve_worker_pool_size (pos 0) num_jobs auto_size ≡ done n)
unfolding resolve_worker_pool_size
auto_mode num_jobs auto_size h a =
    let (auto, e) = auto_total auto_size a in (max 1 (min auto num_jobs), ground (arith, e))

-- With jobs to run, the documented sizes -1, 0 and 1 to 1024 are accepted, for an `auto_size` that
-- is None or an int, and no others are.
pub resolve_accepts :
    (size : PyInt) (num_jobs : ℕ) (auto_size : Option PyInt)
    → 0 < num_jobs
    → auto_size ≢ some not_int
    → ((n : ℕ) × (resolve_worker_pool_size size num_jobs auto_size ≡ done n))
      ↔ ((size ≡ negsuc 0) ⊎ ((k : ℕ) × (size ≡ pos k) × (k ≤ max_worker_pool_size)))
unfolding resolve_worker_pool_size
resolve_accepts not_int num_jobs auto_size h a =
    (λ (n, e). absurd (cc), elim [ inl e ↦ absurd (cc) | inr (k, e, l) ↦ absurd (cc) ])
resolve_accepts (negsuc (suc m)) num_jobs auto_size h a =
    (λ (n, e). absurd (cc), elim [ inl e ↦ absurd (ground arith) | inr (k, e, l) ↦ absurd (cc) ])
resolve_accepts (negsuc zero) num_jobs auto_size h a = (λ (n, e). inl refl, λ _. (_, refl))
resolve_accepts (pos zero) num_jobs auto_size h a =
    (λ _. inr (0, refl, omega arith), λ _. auto_mode num_jobs auto_size h a)
resolve_accepts (pos (suc m)) num_jobs auto_size h a = (
  λ (n, e). inr (suc m, refl, ground arith),
  elim [ inl e ↦ absurd (cc) | inr (k, e, l) ↦ (suc m, ground arith) ],
)
