-- ===== src/HttpServer/ThreadPool.antt =====
-- HTTP-server-cpp/{include/thread_pool.h, src/thread_pool.cpp}: a queue of jobs with its threads. A
-- critical section of the lock, or a job, is one step.
pub mod Fifo
pub mod Drain
pub mod Joining
use high_load_systems.Common.{
  ℕ, Bool, true, false, List, [], ◌∷◌, ◌++◌, none, some, get_elem?, set, replicate, if◌then◌else◌,
}

module _ (J : Type 0) where
  -- Where a thread is: at the lock, with a job, or returned.
  pub data Thread : Type 0 where
    at_mutex : Thread
    has_job : J → Thread
    has_returned : Thread

  pub record Pool : Type 0 where
    pub threads : List Thread
    pub jobs : List J
    pub stop : Bool

module _ {J : Type 0} where
  -- `ThreadPool(n)`
  abbrev pub new_pool : ℕ → Pool J
  new_pool n = record { threads = replicate n at_mutex; jobs = []; stop = false }

  -- `ThreadPool::enqueue`
  abbrev pub enqueue : J → Pool J → Pool J
  enqueue job p = record p { jobs = p.jobs ++ job ∷ [] }

  -- `~ThreadPool` before it joins the threads.
  abbrev pub stop_pool : Pool J → Pool J
  stop_pool p = record p { stop = true }

  -- A step of a thread that stands at `t`: its new place, and the jobs that are left.
  unfoldable pub thread_step : Thread J → List J → Bool → Thread J × List J
  thread_step at_mutex [] stop = (if stop then has_returned else at_mutex, [])
  thread_step at_mutex (job ∷ jobs) stop = (has_job job, jobs)
  thread_step (has_job job) jobs stop = (at_mutex, jobs)
  thread_step has_returned jobs stop = (has_returned, jobs)

  -- The same of thread `i` of the pool.
  unfoldable pub run_thread : ℕ → Pool J → Pool J
  unfolding thread_step
  run_thread i p = elim (get_elem? p.threads i) [
    | none ↦ p
    | some t ↦
        let (t', jobs) = thread_step t p.jobs p.stop in
        record p { threads = set p.threads i t'; jobs = jobs }
  ]

  -- What can happen next.
  pub data PoolStep : Pool J → Pool J → Type 0 where
    call_enqueue : (p : Pool J) (job : J) → PoolStep p (enqueue job p)
    thread_runs : (p : Pool J) (i : ℕ) → PoolStep p (run_thread i p)
    call_stop : (p : Pool J) → PoolStep p (stop_pool p)

  pub data PoolSteps : Pool J → Pool J → Type 0 where
    no_steps : (p : Pool J) → PoolSteps p p
    and_then : (p q r : Pool J) → PoolSteps p q → PoolStep q r → PoolSteps p r
