-- ===== src/HttpServer/System/Alive.antt =====
-- The whole server: no thread of the pool returns while the server runs.
use high_load_systems.Common.{
  ℕ, ◌≡◌, ◌≢◌, refl, sym, ◌∙◌, inl, inr, false, Bool-cases, List, [], ◌∷◌, Option, some,
  Option-cases, leb, ap, Bytes, codes, bytes_eq, get_elem?, set, set-cases, length, length-set,
  length-replicate,
}
use high_load_systems.HttpServer.Server.Events.{FdSets, Round, visit_fd}
use high_load_systems.HttpServer.ThreadPool.{
  Thread, at_mutex, has_job, has_returned, Pool, new_pool, enqueue, thread_step, run_thread,
}
use high_load_systems.HttpServer.ThreadPool.Drain.{none_returned}
use high_load_systems.HttpServer.System.{
  Job, serving, method_of, enqueue_all, System, new_system, visit_next, loop_step, read_request,
  finish_request, SystemStep, selects, loops, takes, receives_nothing, reads, finishes, SystemRun,
  no_step, then_step,
}

pub record Alive (threads : ℕ) (pool : Pool Job) : Type 0 where
  pub runs : pool.stop ≡ false
  pub many : length pool.threads ≡ threads
  pub stay : (j : ℕ) → get_elem? pool.threads j ≢ some has_returned

-- A thread is set to anything but returned.
set_thread-Alive :
    (n i : ℕ) (t : Thread Job) (jobs : List Job) (pool : Pool Job)
    → t ≢ has_returned
    → Alive n pool
    → Alive n (record pool { threads = set pool.threads i t; jobs = jobs })
set_thread-Alive n i t jobs pool other a = record {
  runs = a.runs;
  many = length-set pool.threads i t ∙ a.many;
  stay = λ j e. elim (set-cases pool.threads i j t has_returned e) [
    | inl (same, bad) ↦ other (sym bad)
    | inr (apart, old) ↦ a.stay j old
  ];
}

enqueue_all-Alive :
    (n : ℕ) (fds : List ℕ) (pool : Pool Job) → Alive n pool → Alive n (enqueue_all fds pool)
enqueue_all-Alive n [] pool a = a
enqueue_all-Alive n (client_fd ∷ fds) pool a =
    enqueue_all-Alive n fds (enqueue (serving client_fd) pool)
      (record { runs = a.runs; many = a.many; stay = a.stay })

thread_step-stays :
    (t : Thread Job) (jobs : List Job)
    → t ≢ has_returned
    → (thread_step t jobs false).0 ≢ has_returned
unfolding thread_step
thread_step-stays at_mutex [] other = λ e. cc
thread_step-stays at_mutex (job ∷ jobs) other = λ e. cc
thread_step-stays (has_job job) jobs other = λ e. cc
thread_step-stays has_returned jobs other = other

run_thread-Alive : (n i : ℕ) (pool : Pool Job) → Alive n pool → Alive n (run_thread i pool)
unfolding run_thread
run_thread-Alive n i pool a = elim (Option-cases (get_elem? pool.threads i)) [
  | inl e ↦ rw (run_thread, e) a
  | inr (t, e) ↦
      let runs = a.runs in
      let other : t ≢ has_returned = λ bad. a.stay i (e ∙ ap some bad) in
      let step = thread_step t pool.jobs pool.stop in
      let stays : step.0 ≢ has_returned = rw runs (thread_step-stays t pool.jobs other) in
      rw (run_thread, e) (set_thread-Alive n i step.0 step.1 pool stays a)
]

module _ {S : Type 0} (fds : FdSets S) (listen_fd : ℕ)
    (parse_json : Bytes → Option (List (Bytes × Bytes))) where
  loop_step-Alive :
      (n : ℕ) (round : Round fds) (i : ℕ) (s : System fds)
      → Alive n s.pool
      → Alive n (loop_step fds listen_fd round i s).pool
  unfolding loop_step visit_next
  loop_step-Alive n round i s a = elim (Bool-cases (leb i s.loop.max_fd)) [
    | inl more ↦
        rw (loop_step, more)
          (enqueue_all-Alive n
            (visit_fd fds listen_fd round i (record s.loop { queued = [] })).queued s.pool a)
    | inr done ↦ rw (loop_step, done) a
  ]

  read_request-Alive :
      (n i client_fd now : ℕ) (request : Bytes) (s : System fds)
      → Alive n s.pool
      → Alive n (read_request fds parse_json i client_fd now request s).pool
  unfolding read_request
  read_request-Alive n i client_fd now request s a =
      elim (Bool-cases (bytes_eq (method_of request) (codes "GET"))) [
        | inl is_get ↦
            rw (read_request, is_get) (set_thread-Alive n i _ s.pool.jobs s.pool (λ e. cc) a)
        | inr not_get ↦ elim (Bool-cases (bytes_eq (method_of request) (codes "POST"))) [
          | inl is_post ↦ rw (read_request, not_get, is_post) (run_thread-Alive n i s.pool a)
          | inr neither ↦ rw (read_request, not_get, neither) (run_thread-Alive n i s.pool a)
        ]
      ]

  step-Alive :
      (n : ℕ) (s t : System fds)
      → SystemStep fds listen_fd parse_json s t
      → Alive n s.pool
      → Alive n t.pool
  unfolding finish_request
  step-Alive n s t (selects _ round at part) a = a
  step-Alive n s t (loops _ round i at free) a = loop_step-Alive n round i s a
  step-Alive n s t (takes _ i e) a = run_thread-Alive n i s.pool a
  step-Alive n s t (receives_nothing _ i client_fd e) a = run_thread-Alive n i s.pool a
  step-Alive n s t (reads _ i client_fd now request e) a =
      read_request-Alive n i client_fd now request s a
  step-Alive n s t (finishes _ i client_fd now request path cached e) a =
      run_thread-Alive n i s.pool a

  new_pool-Alive : (n : ℕ) → Alive n (new_pool n)
  new_pool-Alive n = record {
    runs = refl;
    many = length-replicate {A = Thread Job} n at_mutex;
    stay = none_returned n;
  }

  pub run-Alive :
      (n : ℕ) (s : System fds)
      → SystemRun fds listen_fd parse_json (new_system fds listen_fd n) s
      → Alive n s.pool
  run-Alive n s run = from _ s run (new_pool-Alive n)
    where
      from :
          (r s : System fds)
          → SystemRun fds listen_fd parse_json r s
          → Alive n r.pool
          → Alive n s.pool
      from r s (no_step _) a = a
      from r s (then_step _ t _ before step) a = step-Alive n t s step (from r t before a)
