-- ===== src/Tests/Drained.antt =====
-- HTTP-server-cpp: a pool of one thread with one job is destroyed.
use high_load_systems.Common.{ℕ, ◌+◌, ◌≡◌, ◌⊎◌, refl}
use high_load_systems.HttpServer.ThreadPool.{
  Pool, at_mutex, has_job, new_pool, enqueue, stop_pool, thread_step, run_thread, call_enqueue,
  thread_runs, call_stop, PoolSteps, no_steps, and_then,
}
use high_load_systems.HttpServer.ThreadPool.Fifo.{queued, taken}
use high_load_systems.HttpServer.ThreadPool.Drain.{queued-taken_drained}
use high_load_systems.HttpServer.ThreadPool.Joining.{
  steps_left, Schedule, nothing_runs, runs_then, CanRun, schedule-steps_left,
}

abbrev p0 : Pool ℕ
p0 = new_pool 1

abbrev p1 : Pool ℕ
p1 = enqueue 7 p0

abbrev p2 : Pool ℕ
p2 = stop_pool p1

abbrev p3 : Pool ℕ
p3 = run_thread 0 p2

abbrev p4 : Pool ℕ
p4 = run_thread 0 p3

abbrev p5 : Pool ℕ
p5 = run_thread 0 p4

abbrev stopping : PoolSteps p0 p2
stopping = and_then p0 p1 p2 (and_then p0 p0 p1 (no_steps p0) (call_enqueue p0 7)) (call_stop p1)

abbrev returned : PoolSteps p0 p5
returned =
    and_then p0 p4 p5
      (and_then p0 p3 p4 (and_then p0 p2 p3 stopping (thread_runs p2 0)) (thread_runs p3 0))
      (thread_runs p4 0)

queued-taken_drained_example : queued returned ≡ taken returned
unfolding run_thread thread_step
queued-taken_drained_example = queued-taken_drained 1 p5 returned 0 (tt, refl) refl

joined : Schedule p2 p5 3
unfolding run_thread thread_step
joined =
    runs_then p2 p4 0 2 at_mutex
      (runs_then p2 p3 0 1 (has_job 7)
        (runs_then p2 p2 0 0 at_mutex (nothing_runs p2) refl (λ e. cc)) refl (λ e. cc))
      refl (λ e. cc)

schedule-steps_left_example :
    (3 + steps_left p5 ≡ steps_left p2) × (CanRun p5.threads ⊎ (steps_left p5 ≡ 0))
schedule-steps_left_example = schedule-steps_left 0 p2 p5 stopping 3 (tt, refl) refl joined
