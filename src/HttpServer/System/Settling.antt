-- ===== src/HttpServer/System/Settling.antt =====
-- The whole server: the threads work off what the loop has handed over.
use high_load_systems.Common.{
  ℕ, suc, ◌+◌, ◌≤◌, ◌≡◌, ◌≢◌, ◌⊎◌, refl, ◌∙◌, ap, inl, inr, true, Bool-cases, List, [], ◌∷◌, Option,
  some, arith, Bytes, codes, bytes_eq, count, sum_by, sum_by-set, get_elem?, get_elem?-lt,
}
use high_load_systems.HttpServer.Cache.{get}
use high_load_systems.HttpServer.Server.Events.{FdSets}
use high_load_systems.HttpServer.Server.Events.Watching.{IsFdSets}
use high_load_systems.HttpServer.ThreadPool.{has_job}
use high_load_systems.HttpServer.System.{
  Job, serving, looked_up, method_of, path_of, System, new_system, read_request, finish_request,
  take_job, close_client, SystemStep, selects, loops, takes, receives_nothing, reads, finishes,
  SystemRun, then_step,
}
use high_load_systems.HttpServer.System.Owned.{watched}
use high_load_systems.HttpServer.System.Closing.{accepted-owned}
use high_load_systems.HttpServer.System.Alive.{Alive, run-Alive}
use high_load_systems.HttpServer.System.Work.{
  work_of, work_held, work_left, no_work, owned_le, finish-left, take-left, idle_at_mutex,
}

nil_or_not : {A : Type 0} (xs : List A) → (xs ≡ []) ⊎ (xs ≢ [])
nil_or_not [] = inl refl
nil_or_not (x ∷ xs) = inr (λ e. cc)

module _ {S : Type 0} (fds : FdSets S) (listen_fd : ℕ)
    (parse_json : Bytes → Option (List (Bytes × Bytes))) where
  -- The steps of threads that take, go on with or end a job.
  abbrev pub IsWork : (s t : System fds) → SystemStep fds listen_fd parse_json s t → Type 0
  IsWork s t (selects _ round at part) = ⊥
  IsWork s t (loops _ round i at free) = ⊥
  IsWork s t (takes _ i e) = s.pool.jobs ≢ []
  IsWork s t (receives_nothing _ i client_fd e) = Unit
  IsWork s t (reads _ i client_fd now request e) = Unit
  IsWork s t (finishes _ i client_fd now request path cached e) = Unit

  pub data WorkRun : System fds → System fds → ℕ → Type 0 where
    no_work_done : (s : System fds) → WorkRun s s 0
    works_then :
        (s t u : System fds) (n : ℕ)
        → WorkRun s t n
        → (step : SystemStep fds listen_fd parse_json t u) → IsWork t u step
        → WorkRun s u (suc n)

  abbrev pub CanWork : System fds → Type 0
  CanWork s = (t : System fds) × (step : SystemStep fds listen_fd parse_json s t) × IsWork s t step

  read_request-left :
      (i client_fd now : ℕ) (request : Bytes) (s : System fds)
      → get_elem? s.pool.threads i ≡ some (has_job (serving client_fd))
      → suc (work_left (read_request fds parse_json i client_fd now request s).pool)
        ≤ work_left s.pool
  unfolding read_request
  read_request-left i client_fd now request s e =
      let done = finish-left i (serving client_fd) s.pool e in
      elim (Bool-cases (bytes_eq (method_of request) (codes "GET"))) [
        | inl is_get ↦
            let job =
              looked_up client_fd request (path_of request)
                (get now (path_of request) s.loop.entries).0 in
            let moved =
              sum_by-set work_held s.pool.threads i (has_job (serving client_fd)) (has_job job) e in
            rw (read_request, is_get) (omega arith)
        | inr not_get ↦ elim (Bool-cases (bytes_eq (method_of request) (codes "POST"))) [
          | inl is_post ↦ rw (read_request, not_get, is_post) (omega arith)
          | inr other ↦ rw (read_request, not_get, other) (omega arith)
        ]
      ]

  step-left :
      (s t : System fds) (step : SystemStep fds listen_fd parse_json s t)
      → IsWork s t step
      → suc (work_left t.pool) ≤ work_left s.pool
  unfolding finish_request
  step-left s t (selects _ round at part) w = absurd w
  step-left s t (loops _ round i at free) w = absurd w
  step-left s t (takes _ i e) w =
      let one = take-left i s.pool.threads s.pool.jobs s.pool.stop e w in omega arith
  step-left s t (receives_nothing _ i client_fd e) w =
      let two = finish-left i (serving client_fd) s.pool e in omega arith
  step-left s t (reads _ i client_fd now request e) w =
      read_request-left i client_fd now request s e
  step-left s t (finishes _ i client_fd now request path cached e) w =
      let one = finish-left i (looked_up client_fd request path cached) s.pool e in omega arith

  run-left : (s t : System fds) (n : ℕ) → WorkRun s t n → n + work_left t.pool ≤ work_left s.pool
  run-left s t n (no_work_done _) = omega arith
  run-left s t n (works_then _ r _ m before step w) =
      let sofar = run-left s r m before in let here = step-left r t step w in omega arith

  go_on :
      (r s t : System fds) (n : ℕ)
      → SystemRun fds listen_fd parse_json r s
      → WorkRun s t n
      → SystemRun fds listen_fd parse_json r t
  go_on r s t n run (no_work_done _) = run
  go_on r s t n run (works_then _ q _ m before step w) =
      then_step r q t (go_on r s q m run before) step

  job_goes_on :
      (s : System fds) (i : ℕ) (job : Job)
      → get_elem? s.pool.threads i ≡ some (has_job job)
      → CanWork s
  job_goes_on s i (serving client_fd) e =
      (close_client fds i client_fd s, receives_nothing s i client_fd e, tt)
  job_goes_on s i (looked_up client_fd request path cached) e = (
    finish_request fds i client_fd 0 request path cached s,
    finishes s i client_fd 0 request path cached e,
    tt,
  )

  can_work : (s : System fds) (n : ℕ) → Alive (suc n) s.pool → CanWork s ⊎ (work_left s.pool ≡ 0)
  can_work s n a = elim (no_work s.pool.threads) [
    | inl (i, job, e) ↦ inl (job_goes_on s i job e)
    | inr idle ↦ elim (nil_or_not s.pool.jobs) [
      | inl none_wait ↦
          let none_left = ap (sum_by (λ (job : Job). work_of job + 1)) none_wait in
          inr (omega arith)
      | inr some_job ↦
          let many = a.many in
          let (t, e) = get_elem?-lt s.pool.threads 0 (omega arith) in
          let free = idle_at_mutex s.pool.threads 0 t idle e (λ bad. a.stay 0 (e ∙ ap some bad)) in
          inl (take_job fds 0 s, takes s 0 (e ∙ ap some free), some_job)
    ]
  ]

module _ {S : Type 0} (fds : FdSets S) (laws : IsFdSets fds)
    (room : (i : ℕ) (s : S) → fds.fd_isset i (fds.fd_set i s) ≡ true) (listen_fd : ℕ) where
  -- In any run of the whole server with at least one thread, if an fd_set does what its
  -- documentation says and has room for what it is given, the steps in which threads take, go on
  -- with or end jobs, made without a pass of the loop, are at most three for each client that
  -- waits, two for each that is being received and one for each looked up in the cache; and once
  -- no such step is possible every socket but the listening one has been closed as often as
  -- accepted, but for one that the loop watches.
  pub work_left-watched :
      (parse_json : Bytes → Option (List (Bytes × Bytes))) (threads : ℕ) (s t : System fds) (n : ℕ)
      → SystemRun fds listen_fd parse_json (new_system fds listen_fd (suc threads)) s
      → WorkRun fds listen_fd parse_json s t n
      → (k : ℕ) → k ≢ listen_fd
      → (n + work_left t.pool ≤ work_left s.pool)
        × (CanWork fds listen_fd parse_json t
            ⊎ (count k t.accepted_fds
                ≡ count k t.closed_fds + watched fds laws room listen_fd k t.loop))
  work_left-watched parse_json threads s t n run work k other =
      let all = go_on fds listen_fd parse_json _ s t n run work in
      let alive = run-Alive fds listen_fd parse_json (suc threads) t all in
      let (balance, one_place) =
        accepted-owned fds laws room listen_fd parse_json (suc threads) t all k other in
      let part = owned_le k t.pool in
      (
        run-left fds listen_fd parse_json s t n work,
        elim (can_work fds listen_fd parse_json t threads alive) [
          | inl more ↦ inl more
          | inr none_left ↦ inr (omega arith)
        ],
      )
