-- ===== src/HttpServer/ThreadPool/Fifo.antt =====
-- thread_pool.cpp: jobs are taken in the order in which they were queued, each once.
use high_load_systems.Common.{
  ℕ, ◌≡◌, refl, ap, sym, ◌∙◌, inl, inr, Bool, List, [], ◌∷◌, ◌++◌, Option, none, some, Option-cases,
  get_elem?, append_assoc, append-nil,
}
use high_load_systems.HttpServer.ThreadPool.{
  Thread, at_mutex, has_job, has_returned, Pool, new_pool, thread_step, run_thread, call_enqueue,
  thread_runs, call_stop, PoolSteps, no_steps, and_then,
}

module _ {J : Type 0} where
  -- The job that a thread takes in its next step.
  abbrev job_of : Thread J → List J → List J
  job_of at_mutex (job ∷ jobs) = job ∷ []
  job_of _ _ = []

  abbrev job_at : Option (Thread J) → List J → List J
  job_at none jobs = []
  job_at (some t) jobs = job_of t jobs

  -- The jobs queued in a run, and the jobs taken by threads, in order.
  pub queued : {p q : Pool J} → PoolSteps p q → List J
  queued (no_steps p) = []
  queued (and_then p q r steps (call_enqueue _ job)) = queued steps ++ job ∷ []
  queued (and_then p q r steps (thread_runs _ i)) = queued steps
  queued (and_then p q r steps (call_stop _)) = queued steps

  pub taken : {p q : Pool J} → PoolSteps p q → List J
  taken (no_steps p) = []
  taken (and_then p q r steps (call_enqueue _ job)) = taken steps
  taken (and_then p q r steps (thread_runs _ i)) =
      taken steps ++ job_at (get_elem? q.threads i) q.jobs
  taken (and_then p q r steps (call_stop _)) = taken steps

  thread_step_lem :
      (t : Thread J) (jobs : List J) (stop : Bool)
      → jobs ≡ job_of t jobs ++ (thread_step t jobs stop).1
  unfolding thread_step
  thread_step_lem at_mutex [] stop = refl
  thread_step_lem at_mutex (job ∷ jobs) stop = refl
  thread_step_lem (has_job job) jobs stop = refl
  thread_step_lem has_returned jobs stop = refl

  run_thread_lem :
      (i : ℕ) (p : Pool J) → p.jobs ≡ job_at (get_elem? p.threads i) p.jobs ++ (run_thread i p).jobs
  unfolding run_thread
  run_thread_lem i p = elim (Option-cases (get_elem? p.threads i)) [
    | inl e ↦ rw (run_thread, e) refl
    | inr (t, e) ↦ rw (run_thread, e) (thread_step_lem t p.jobs p.stop)
  ]

  balance : {p q : Pool J} (steps : PoolSteps p q) → p.jobs ++ queued steps ≡ taken steps ++ q.jobs
  unfolding queued taken
  balance (no_steps p) = append-nil p.jobs
  balance (and_then p q r steps (call_enqueue _ job)) =
      sym (append_assoc p.jobs (queued steps) (job ∷ []))
      ∙ ap (λ js. js ++ job ∷ []) (balance steps)
      ∙ append_assoc (taken steps) q.jobs (job ∷ [])
  balance (and_then p q r steps (thread_runs _ i)) =
      balance steps
      ∙ ap (λ js. taken steps ++ js) (run_thread_lem i q)
      ∙ sym
          (append_assoc (taken steps) (job_at (get_elem? q.threads i) q.jobs) (run_thread i q).jobs)
  balance (and_then p q r steps (call_stop _)) = balance steps

  -- In every run of a new thread pool the jobs taken so far, followed by those that wait, are
  -- the jobs queued so far in their order.
  pub queued-taken :
      (n : ℕ) (p : Pool J) (steps : PoolSteps (new_pool n) p) → queued steps ≡ taken steps ++ p.jobs
  queued-taken n p steps = balance steps
