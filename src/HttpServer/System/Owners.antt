-- ===== src/HttpServer/System/Owners.antt =====
-- thread_pool.cpp in the whole server: how many jobs of a client wait or are at a thread.
use high_load_systems.Common.{
  ℕ, zero, suc, ◌+◌, ◌≡◌, refl, ap, Bool, true, false, List, [], ◌∷◌, some, arith, ◌==◌,
  if◌then◌else◌, get_elem?, set, count, sum_by, sum_by-append, sum_by-set, replicate,
}
use high_load_systems.HttpServer.System.{Job, serving, job_fd, enqueue_all}
use high_load_systems.HttpServer.ThreadPool.{
  Thread, at_mutex, has_job, has_returned, Pool, enqueue, thread_step, run_thread,
}

abbrev pub one_if : ℕ → Job → ℕ
one_if k job = if k == job_fd job then 1 else 0

abbrev pub waiting : ℕ → List Job → ℕ
waiting k jobs = sum_by (one_if k) jobs

abbrev pub held : ℕ → Thread Job → ℕ
held k (has_job job) = one_if k job
held k _ = 0

abbrev pub busy : ℕ → List (Thread Job) → ℕ
busy k threads = sum_by (held k) threads

-- The jobs of client `k` in the pool.
abbrev pub owned : ℕ → Pool Job → ℕ
owned k pool = waiting k pool.jobs + busy k pool.threads

pub owned-enqueue_all :
    (k : ℕ) (fds : List ℕ) (pool : Pool Job)
    → owned k (enqueue_all fds pool) ≡ owned k pool + count k fds
owned-enqueue_all k [] pool = omega arith
owned-enqueue_all k (client_fd ∷ fds) pool =
    let rest = owned-enqueue_all k fds (enqueue (serving client_fd) pool) in
    let here = sum_by-append (one_if k) pool.jobs (serving client_fd ∷ []) in omega arith

take-jobs :
    (k i : ℕ) (threads : List (Thread Job)) (jobs : List Job) (stop : Bool)
    → get_elem? threads i ≡ some at_mutex
    → let pool : Pool Job = record { threads = threads; jobs = jobs; stop = stop } in
      owned k (run_thread i pool) ≡ owned k pool
unfolding run_thread thread_step
take-jobs k i threads [] true e =
    let moved = sum_by-set (held k) threads i at_mutex has_returned e in
    rw (run_thread, e) (omega arith)
take-jobs k i threads [] false e =
    let moved = sum_by-set (held k) threads i at_mutex at_mutex e in
    rw (run_thread, e) (omega arith)
take-jobs k i threads (job ∷ jobs) stop e =
    let moved = sum_by-set (held k) threads i at_mutex (has_job job) e in
    rw (run_thread, e) (omega arith)

-- A thread that takes a job keeps the number.
pub owned-take :
    (k i : ℕ) (pool : Pool Job)
    → get_elem? pool.threads i ≡ some at_mutex
    → owned k (run_thread i pool) ≡ owned k pool
owned-take k i pool e = take-jobs k i pool.threads pool.jobs pool.stop e

-- A thread that ends its job has one less.
pub owned-finish :
    (k i : ℕ) (pool : Pool Job) (job : Job)
    → get_elem? pool.threads i ≡ some (has_job job)
    → owned k (run_thread i pool) + one_if k job ≡ owned k pool
unfolding run_thread thread_step
owned-finish k i pool job e =
    let moved = sum_by-set (held k) pool.threads i (has_job job) at_mutex e in
    rw (run_thread, e) (omega arith)

-- A thread that goes on with another job of the same client.
pub busy-set_job :
    (k i : ℕ) (threads : List (Thread Job)) (job job' : Job)
    → get_elem? threads i ≡ some (has_job job)
    → job_fd job ≡ job_fd job'
    → busy k (set threads i (has_job job')) ≡ busy k threads
busy-set_job k i threads job job' e same =
    let moved = sum_by-set (held k) threads i (has_job job) (has_job job') e in
    let fds : held k (has_job job) ≡ held k (has_job job') =
      ap (λ (fd : ℕ). if k == fd then 1 else 0) same in
    omega arith

pub busy-replicate : (k n : ℕ) → busy k (replicate n at_mutex) ≡ 0
busy-replicate k zero = refl
busy-replicate k (suc n) = let rest = busy-replicate k n in omega arith
