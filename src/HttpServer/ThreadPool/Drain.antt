-- ===== src/HttpServer/ThreadPool/Drain.antt =====
-- thread_pool.cpp: a pool that is destroyed works off its queue, and its threads return.
use high_load_systems.Common.{
  ℕ, zero, suc, ◌≡◌, ◌≢◌, refl, ap, ◌∙◌, inl, inr, Bool, true, false, List, [], ◌∷◌, ◌++◌, some,
  Option-cases, get_elem?, set, set-cases, append-nil,
}
use high_load_systems.HttpServer.ThreadPool.{
  Thread, at_mutex, has_job, has_returned, Pool, new_pool, thread_step, run_thread, call_enqueue,
  thread_runs, call_stop, PoolSteps, no_steps, and_then,
}
use high_load_systems.HttpServer.ThreadPool.Fifo.{queued, taken, queued-taken}

module _ {J : Type 0} where
  -- No job is queued after the destructor has begun.
  abbrev pub QueuesRunning : {p q : Pool J} → PoolSteps p q → Type 0
  QueuesRunning (no_steps p) = Unit
  QueuesRunning (and_then p q r steps (call_enqueue _ job)) = QueuesRunning steps × (q.stop ≡ false)
  QueuesRunning (and_then p q r steps (thread_runs _ i)) = QueuesRunning steps
  QueuesRunning (and_then p q r steps (call_stop _)) = QueuesRunning steps

  -- Where a thread has returned, the pool is stopped and nothing waits.
  abbrev pub Drained : List (Thread J) → List J → Bool → Type 0
  Drained threads jobs stop =
      (j : ℕ) → get_elem? threads j ≡ some has_returned → (stop ≡ true) × (jobs ≡ [])

  thread_step-Drained :
      (i : ℕ) (t : Thread J) (threads : List (Thread J)) (jobs : List J) (stop : Bool)
      → get_elem? threads i ≡ some t
      → Drained threads jobs stop
      → Drained (set threads i (thread_step t jobs stop).0) (thread_step t jobs stop).1 stop
  unfolding thread_step
  thread_step-Drained i at_mutex threads [] true e d j r = (refl, refl)
  thread_step-Drained i at_mutex threads [] false e d j r =
      elim (set-cases threads i j at_mutex has_returned r) [
        | inl (same, bad) ↦ cc
        | inr (other, old) ↦ d j old
      ]
  thread_step-Drained i at_mutex threads (job ∷ jobs) stop e d j r =
      elim (set-cases threads i j (has_job job) has_returned r) [
        | inl (same, bad) ↦ cc
        | inr (other, old) ↦ let (s, bad) = d j old in cc
      ]
  thread_step-Drained i (has_job job) threads jobs stop e d j r =
      elim (set-cases threads i j at_mutex has_returned r) [
        | inl (same, bad) ↦ cc
        | inr (other, old) ↦ d j old
      ]
  thread_step-Drained i has_returned threads jobs stop e d j r = d i e

  pub run_thread-Drained :
      (i : ℕ) (p : Pool J)
      → Drained p.threads p.jobs p.stop
      → let q = run_thread i p in Drained q.threads q.jobs q.stop
  unfolding run_thread
  run_thread-Drained i p d = elim (Option-cases (get_elem? p.threads i)) [
    | inl e ↦ rw (run_thread, e) d
    | inr (t, e) ↦ rw (run_thread, e) (thread_step-Drained i t p.threads p.jobs p.stop e d)
  ]

  pub steps-Drained :
      (p q : Pool J) (steps : PoolSteps p q)
      → QueuesRunning steps
      → Drained p.threads p.jobs p.stop
      → Drained q.threads q.jobs q.stop
  steps-Drained p q (no_steps _) h d = d
  steps-Drained p q (and_then _ r _ steps (call_enqueue _ job)) (h, runs) d =
      λ j e. let (stopped, empty) = steps-Drained p r steps h d j e in cc
  steps-Drained p q (and_then _ r _ steps (thread_runs _ i)) h d =
      run_thread-Drained i r (steps-Drained p r steps h d)
  steps-Drained p q (and_then _ r _ steps (call_stop _)) h d =
      λ j e. (refl, (steps-Drained p r steps h d j e).1)

  pub none_returned : (n j : ℕ) → get_elem? ((new_pool {J = J} n).threads) j ≢ some has_returned
  none_returned zero j = λ e. cc
  none_returned (suc n) zero = λ e. cc
  none_returned (suc n) (suc j) = none_returned n j

  -- In every run of a new pool in which no job is queued after the destructor has begun, once
  -- any thread has returned every job queued has been taken, in order.
  pub queued-taken_drained :
      (n : ℕ) (p : Pool J) (steps : PoolSteps (new_pool n) p) (i : ℕ)
      → QueuesRunning steps
      → get_elem? p.threads i ≡ some has_returned
      → queued steps ≡ taken steps
  queued-taken_drained n p steps i h e =
      let (stopped, empty) =
        steps-Drained (new_pool n) p steps h (λ j r. absurd (none_returned n j r)) i e in
      let all : queued steps ≡ taken steps ++ p.jobs = queued-taken n p steps in
      all ∙ ap (λ js. taken steps ++ js) empty ∙ append-nil (taken steps)
