-- ===== src/HttpServer/System/Work.antt =====
-- The whole server: the steps that the pool's jobs still need.
use high_load_systems.Common.{
  ℕ, suc, ◌+◌, ◌≤◌, ◌<◌, ◌≡◌, ◌≢◌, ◌⊎◌, refl, inl, inr, Bool, List, [], ◌∷◌, some, arith, sum_by,
  sum_by-set, sum_by_le, get_elem?,
}
use high_load_systems.HttpServer.ThreadPool.{
  Thread, at_mutex, has_job, has_returned, Pool, thread_step, run_thread,
}
use high_load_systems.HttpServer.System.{Job, serving, looked_up}
use high_load_systems.HttpServer.System.Owners.{one_if, held, owned}

-- The steps that a thread with a job still has, and one more for a job that waits.
abbrev pub work_of : Job → ℕ
work_of (serving client_fd) = 2
work_of (looked_up client_fd request path cached) = 1

abbrev pub work_held : Thread Job → ℕ
work_held (has_job job) = work_of job
work_held _ = 0

abbrev pub work_left : Pool Job → ℕ
work_left pool = sum_by work_held pool.threads + sum_by (λ (job : Job). work_of job + 1) pool.jobs

pub no_work :
    (threads : List (Thread Job))
    → ((i : ℕ) × (job : Job) × (get_elem? threads i ≡ some (has_job job)))
      ⊎ (sum_by work_held threads ≡ 0)
no_work [] = inr refl
no_work (has_job job ∷ threads) = inl (0, job, refl)
no_work (at_mutex ∷ threads) = elim (no_work threads) [
  | inl (i, job, e) ↦ inl (suc i, job, e)
  | inr none_left ↦ inr (omega arith)
]
no_work (has_returned ∷ threads) = elim (no_work threads) [
  | inl (i, job, e) ↦ inl (suc i, job, e)
  | inr none_left ↦ inr (omega arith)
]

-- The jobs of a client are part of the work.
pub owned_le : (k : ℕ) (pool : Pool Job) → owned k pool ≤ work_left pool
owned_le k pool =
    let at_threads = sum_by_le (held k) work_held (held_le k) pool.threads in
    let waits = sum_by_le (one_if k) (λ (job : Job). work_of job + 1) (job_le k) pool.jobs in
    omega arith
  where
    job_le : (k : ℕ) (job : Job) → one_if k job ≤ work_of job + 1
    job_le k (serving client_fd) = ground arith
    job_le k (looked_up client_fd request path cached) = ground arith

    held_le : (k : ℕ) (t : Thread Job) → held k t ≤ work_held t
    held_le k at_mutex = omega arith
    held_le k (has_job (serving client_fd)) = ground arith
    held_le k (has_job (looked_up client_fd request path cached)) = ground arith
    held_le k has_returned = omega arith

-- The end of a job.
pub finish-left :
    (i : ℕ) (job : Job) (pool : Pool Job)
    → get_elem? pool.threads i ≡ some (has_job job)
    → work_left (run_thread i pool) + work_of job ≡ work_left pool
unfolding run_thread thread_step
finish-left i job pool e =
    let moved = sum_by-set work_held pool.threads i (has_job job) at_mutex e in
    rw (run_thread, e) (omega arith)

pub take-left :
    (i : ℕ) (threads : List (Thread Job)) (jobs : List Job) (stop : Bool)
    → get_elem? threads i ≡ some at_mutex
    → jobs ≢ []
    → let pool : Pool Job = record { threads = threads; jobs = jobs; stop = stop } in
      suc (work_left (run_thread i pool)) ≡ work_left pool
unfolding run_thread thread_step
take-left i threads [] stop e some_job = absurd (some_job refl)
take-left i threads (job ∷ jobs) stop e some_job =
    let moved = sum_by-set work_held threads i at_mutex (has_job job) e in
    rw (run_thread, e) (omega arith)

-- Of threads that have no job and have not returned, each can take one.
pub idle_at_mutex :
    (threads : List (Thread Job)) (i : ℕ) (t : Thread Job)
    → sum_by work_held threads ≡ 0
    → get_elem? threads i ≡ some t
    → t ≢ has_returned
    → t ≡ at_mutex
idle_at_mutex threads i at_mutex idle e stays = refl
idle_at_mutex threads i (has_job job) idle e stays =
    let moved = sum_by-set work_held threads i (has_job job) at_mutex e in
    let some_work = work_of_pos job in absurd (omega arith)
  where
    work_of_pos : (job : Job) → 0 < work_of job
    work_of_pos (serving client_fd) = omega arith
    work_of_pos (looked_up client_fd request path cached) = omega arith
idle_at_mutex threads i has_returned idle e stays = absurd (stays refl)
