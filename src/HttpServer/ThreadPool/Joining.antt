-- ===== src/HttpServer/ThreadPool/Joining.antt =====
-- thread_pool.cpp: the threads of a pool that is destroyed return, so that the joins end.
use high_load_systems.Common.{
  length-replicate, sum_by, sum_by-set, ℕ, suc, ◌+◌, ◌*◌, ◌<◌, ◌≡◌, ◌≢◌, refl, ap, ◌∙◌, inl, inr,
  true, List, [], ◌∷◌, some, Option-cases, arith, get_elem?, length-set, ◌⊎◌, length,
}
use high_load_systems.HttpServer.ThreadPool.{
  Thread, at_mutex, has_job, has_returned, Pool, new_pool, thread_step, run_thread, call_enqueue,
  thread_runs, call_stop, PoolSteps, no_steps, and_then,
}
use high_load_systems.HttpServer.ThreadPool.Drain.{
  QueuesRunning, Drained, run_thread-Drained, steps-Drained, none_returned,
}

module _ {J : Type 0} where
  -- The threads stay, and none of them is ever taken away.
  run_thread-length : (i : ℕ) (p : Pool J) → length (run_thread i p).threads ≡ length p.threads
  unfolding run_thread
  run_thread-length i p = elim (Option-cases (get_elem? p.threads i)) [
    | inl e ↦ rw (run_thread, e) refl
    | inr (t, e) ↦ rw (run_thread, e) (length-set p.threads i (thread_step t p.jobs p.stop).0)
  ]

  steps-length : (p q : Pool J) → PoolSteps p q → length q.threads ≡ length p.threads
  steps-length p q (no_steps _) = refl
  steps-length p q (and_then _ r _ steps (call_enqueue _ job)) = steps-length p r steps
  steps-length p q (and_then _ r _ steps (thread_runs _ i)) =
      run_thread-length i r ∙ steps-length p r steps
  steps-length p q (and_then _ r _ steps (call_stop _)) = steps-length p r steps

  -- What is left to do: two steps for each job, and a thread's own.
  abbrev pub steps_of : Thread J → ℕ
  steps_of at_mutex = 1
  steps_of (has_job job) = 2
  steps_of has_returned = 0

  abbrev pub steps_of_all : List (Thread J) → ℕ
  steps_of_all threads = sum_by steps_of threads

  abbrev pub steps_left : Pool J → ℕ
  steps_left p = steps_of_all p.threads + 2 * length p.jobs

  -- Threads that run one after the other, each of which has not returned yet.
  pub data Schedule : Pool J → Pool J → ℕ → Type 0 where
    nothing_runs : (p : Pool J) → Schedule p p 0
    runs_then :
        (p q : Pool J) (i n : ℕ) (t : Thread J)
        → Schedule p q n
        → get_elem? q.threads i ≡ some t
        → t ≢ has_returned
        → Schedule p (run_thread i q) (suc n)

  thread_step-left :
      (t : Thread J) (jobs : List J)
      → t ≢ has_returned
      → steps_of (thread_step t jobs true).0 + 2 * length (thread_step t jobs true).1 + 1
        ≡ steps_of t + 2 * length jobs
  unfolding thread_step
  thread_step-left at_mutex [] n = refl
  thread_step-left at_mutex (job ∷ jobs) n = omega arith
  thread_step-left (has_job job) jobs n = omega arith
  thread_step-left has_returned jobs n = absurd (n refl)

  run_thread-left :
      (i : ℕ) (p : Pool J) (t : Thread J)
      → p.stop ≡ true
      → get_elem? p.threads i ≡ some t
      → t ≢ has_returned
      → (steps_left (run_thread i p) + 1 ≡ steps_left p) × ((run_thread i p).stop ≡ true)
  unfolding run_thread
  run_thread-left i p t stopped e n =
      let here = thread_step-left t p.jobs n in
      let moved = sum_by-set steps_of p.threads i t (thread_step t p.jobs true).0 e in
      rw (run_thread, e, stopped) (omega arith, refl)

  schedule-left :
      (p q : Pool J) (n : ℕ)
      → Schedule p q n
      → p.stop ≡ true
      → (n + steps_left q ≡ steps_left p) × (q.stop ≡ true)
  schedule-left p q n (nothing_runs _) stopped = (omega arith, stopped)
  schedule-left p q n (runs_then _ r i m t before e left) stopped =
      let (sofar, still) = schedule-left p r m before stopped in
      let (here, after) = run_thread-left i r t still e left in (omega arith, after)

  schedule-Drained :
      (p q : Pool J) (n : ℕ)
      → Schedule p q n
      → Drained p.threads p.jobs p.stop
      → Drained q.threads q.jobs q.stop × (length q.threads ≡ length p.threads)
  schedule-Drained p q n (nothing_runs _) d = (d, refl)
  schedule-Drained p q n (runs_then _ r i m t before e left) d =
      let (kept, many) = schedule-Drained p r m before d in
      (run_thread-Drained i r kept, run_thread-length i r ∙ many)

  -- Some thread can go on, or all have returned.
  abbrev pub CanRun : List (Thread J) → Type 0
  CanRun threads = (i : ℕ) × (t : Thread J) × (get_elem? threads i ≡ some t) × (t ≢ has_returned)

  can_run : (threads : List (Thread J)) → CanRun threads ⊎ (steps_of_all threads ≡ 0)
  can_run [] = inr refl
  can_run (at_mutex ∷ threads) = inl (0, at_mutex, refl, λ e. cc)
  can_run (has_job job ∷ threads) = inl (0, has_job job, refl, λ e. cc)
  can_run (has_returned ∷ threads) = elim (can_run threads) [
    | inl (i, t, e, n) ↦ inl (suc i, t, e, n)
    | inr none_left ↦ inr (omega arith)
  ]

  all_returned :
      (threads : List (Thread J))
      → 0 < length threads
      → steps_of_all threads ≡ 0
      → get_elem? threads 0 ≡ some has_returned
  all_returned [] many h = absurd (omega arith)
  all_returned (at_mutex ∷ threads) many h = absurd (omega arith)
  all_returned (has_job job ∷ threads) many h = absurd (omega arith)
  all_returned (has_returned ∷ threads) many h = refl

  -- After a run of a new pool with at least one thread in which no job is queued after the
  -- destructor has begun, the steps of threads that have not returned, in any order, use up a
  -- fixed number, two for each job that waits and at most two for each thread; and as long as
  -- this is not used up some thread can run, so that the joins of the destructor end, with an
  -- empty queue.
  pub schedule-steps_left :
      (workers : ℕ) (p q : Pool J) (steps : PoolSteps (new_pool (suc workers)) p) (n : ℕ)
      → QueuesRunning steps
      → p.stop ≡ true
      → Schedule p q n
      → (n + steps_left q ≡ steps_left p) × (CanRun q.threads ⊎ (steps_left q ≡ 0))
  schedule-steps_left workers p q steps n h stopped schedule =
      let drained = steps-Drained _ p steps h (λ j r. absurd (none_returned (suc workers) j r)) in
      let (kept, same) = schedule-Drained p q n schedule drained in
      let many = steps-length _ p steps in
      let new = length-replicate {A = Thread J} (suc workers) at_mutex in
      (
        (schedule-left p q n schedule stopped).0,
        elim (can_run q.threads) [
          | inl runs ↦ inl runs
          | inr idle ↦
              let (s, empty) = kept 0 (all_returned q.threads (omega arith) idle) in
              let none_left = ap length empty in inr (omega arith)
        ],
      )
