-- ===== src/HttpServer/System/Closing.antt =====
-- The whole server: in every run each client that was accepted has one place.
use high_load_systems.Common.{
  ℕ, ◌+◌, ◌≤◌, ◌≡◌, ◌≢◌, refl, sym, ◌∙◌, inl, inr, true, false, Bool-cases, List, [], Option, some,
  arith, leb, Bytes, codes, bytes_eq, get_elem?, count, ltb_ℤ, pos,
}
use high_load_systems.HttpServer.Cache.{get}
use high_load_systems.HttpServer.Server.Events.{FdSets, Round}
use high_load_systems.HttpServer.Server.Events.Watching.{IsFdSets}
use high_load_systems.HttpServer.Server.Events.Rounds.{new_loop-Watches}
use high_load_systems.HttpServer.ThreadPool.{has_job}
use high_load_systems.HttpServer.System.{
  Job, serving, looked_up, job_fd, method_of, path_of, selecting, visiting, System, new_system,
  select_returns, loop_step, close_client, read_request, finish_request, AnswersFree, SystemStep,
  selects, loops, takes, receives_nothing, reads, finishes, SystemRun, no_step, then_step,
}
use high_load_systems.HttpServer.System.Owners.{owned, busy-set_job, owned-take, busy-replicate}
use high_load_systems.HttpServer.System.Owned.{
  watched, Owned, thread-Owned, close_client-owned, visit_next-Owned,
}

module _ {S : Type 0} (fds : FdSets S) (laws : IsFdSets fds)
    (room : (i : ℕ) (s : S) → fds.fd_isset i (fds.fd_set i s) ≡ true) (listen_fd : ℕ) where
  -- What all steps keep.
  abbrev Holds : System fds → Type 0
  Holds s = Owned fds laws room listen_fd s

  select_returns-Holds :
      (round : Round fds) (s : System fds)
      → s.place ≡ selecting
      → ((k : ℕ) → fds.fd_isset k round.read_set ≡ true → fds.fd_isset k s.loop.master_set ≡ true)
      → Holds s
      → Holds (select_returns fds round s)
  select_returns-Holds round s at part o = elim (Bool-cases (ltb_ℤ round.activity (pos 0))) [
    | inl failed ↦ record {
      watches = o.watches;
      balanced = o.balanced;
      still = rw (select_returns, failed) tt;
    }
    | inr answered ↦ record {
      watches = o.watches;
      balanced = o.balanced;
      still = rw (select_returns, answered) (λ k le ready. part k ready);
    }
  ]

  loop_step-Holds :
      (round : Round fds) (i : ℕ) (s : System fds)
      → s.place ≡ visiting round i
      → AnswersFree fds listen_fd round i s
      → Holds s
      → Holds (loop_step fds listen_fd round i s)
  unfolding loop_step
  loop_step-Holds round i s at free o = elim (Bool-cases (leb i s.loop.max_fd)) [
    | inl more ↦ rw (loop_step, more) (visit_next-Owned fds laws room listen_fd round i s at free o)
    | inr done ↦
        rw (loop_step, done)
          (record {
            watches = record { listens = o.watches.listens; bounded = o.watches.bounded };
            balanced = o.balanced;
            still = tt;
          })
  ]

  close_client-Holds :
      (i client_fd : ℕ) (job : Job) (s : System fds)
      → job_fd job ≡ client_fd
      → get_elem? s.pool.threads i ≡ some (has_job job)
      → Holds s
      → Holds (close_client fds i client_fd s)
  close_client-Holds i client_fd job s same e o =
      thread-Owned fds laws room listen_fd s _ o refl refl refl refl
        (close_client-owned fds laws room listen_fd i client_fd job s same e)

  read_request-Holds :
      (parse_json : Bytes → Option (List (Bytes × Bytes))) (i client_fd now : ℕ) (request : Bytes)
      (s : System fds)
      → get_elem? s.pool.threads i ≡ some (has_job (serving client_fd))
      → Holds s
      → Holds (read_request fds parse_json i client_fd now request s)
  unfolding read_request
  read_request-Holds parse_json i client_fd now request s e o =
      let close =
        close_client-owned fds laws room listen_fd i client_fd (serving client_fd) s refl e in
      elim (Bool-cases (bytes_eq (method_of request) (codes "GET"))) [
        | inl is_get ↦
            let got = get now (path_of request) s.loop.entries in
            let job = looked_up client_fd request (path_of request) got.0 in
            rw (read_request, is_get)
              (thread-Owned fds laws room listen_fd s _ o refl refl refl refl (λ k.
                let same = busy-set_job k i s.pool.threads (serving client_fd) job e refl in
                (omega arith, omega arith)))
        | inr not_get ↦ elim (Bool-cases (bytes_eq (method_of request) (codes "POST"))) [
          | inl is_post ↦
              rw (read_request, not_get, is_post)
                (thread-Owned fds laws room listen_fd s _ o refl refl refl refl close)
          | inr other ↦
              rw (read_request, not_get, other)
                (thread-Owned fds laws room listen_fd s _ o refl refl refl refl close)
        ]
      ]

  step-Holds :
      (parse_json : Bytes → Option (List (Bytes × Bytes))) (s t : System fds)
      → SystemStep fds listen_fd parse_json s t
      → Holds s
      → Holds t
  unfolding finish_request
  step-Holds parse_json s t (selects _ round at part) o = select_returns-Holds round s at part o
  step-Holds parse_json s t (loops _ round i at free) o = loop_step-Holds round i s at free o
  step-Holds parse_json s t (takes _ i e) o =
      thread-Owned fds laws room listen_fd s _ o refl refl refl refl
        (λ k. let same = owned-take k i s.pool e in (omega arith, omega arith))
  step-Holds parse_json s t (receives_nothing _ i client_fd e) o =
      close_client-Holds i client_fd (serving client_fd) s refl e o
  step-Holds parse_json s t (reads _ i client_fd now request e) o =
      read_request-Holds parse_json i client_fd now request s e o
  step-Holds parse_json s t (finishes _ i client_fd now request path cached e) o =
      thread-Owned fds laws room listen_fd s _ o refl refl refl refl (
        close_client-owned fds laws room listen_fd i client_fd
          (looked_up client_fd request path cached) s refl e)

  unwatched : (k : ℕ) → k ≢ listen_fd → fds.fd_isset k (fds.fd_set listen_fd fds.fd_zero) ≡ false
  unwatched k n = elim (Bool-cases (fds.fd_isset k (fds.fd_set listen_fd fds.fd_zero))) [
    | inr gone ↦ gone
    | inl here ↦ elim (laws.set_only listen_fd k fds.fd_zero here) [
      | inl same ↦ absurd (n same)
      | inr old ↦ let bad = sym old ∙ laws.zero_empty k in cc
    ]
  ]

  new_system-Holds : (threads : ℕ) → Holds (new_system fds listen_fd threads)
  new_system-Holds threads = record {
    watches = new_loop-Watches fds laws listen_fd [];
    balanced = λ k n.
        let none_busy = busy-replicate k threads in rw (unwatched k n) (omega arith, omega arith);
    still = tt;
  }

  run-Holds :
      (parse_json : Bytes → Option (List (Bytes × Bytes))) (s t : System fds)
      → SystemRun fds listen_fd parse_json s t
      → Holds s
      → Holds t
  run-Holds parse_json s t (no_step _) o = o
  run-Holds parse_json s t (then_step _ u _ run step) o =
      step-Holds parse_json u t step (run-Holds parse_json s u run o)

  -- In every run of the whole server, however its loop and the threads of its pool are
  -- interleaved: for every socket but the listening one, if an fd_set does what its
  -- documentation says and has room for what it is given, the number of times that accept
  -- answered it is the number of times that it was closed, plus one if the loop watches it, plus
  -- the jobs for it that wait or are at a thread; and at most one of these holds it.
  pub accepted-owned :
      (parse_json : Bytes → Option (List (Bytes × Bytes))) (threads : ℕ) (s : System fds)
      → SystemRun fds listen_fd parse_json (new_system fds listen_fd threads) s
      → (k : ℕ) → k ≢ listen_fd
      → (count k s.accepted_fds
          ≡ count k s.closed_fds + (watched fds laws room listen_fd k s.loop + owned k s.pool))
        × (watched fds laws room listen_fd k s.loop + owned k s.pool ≤ 1)
  accepted-owned parse_json threads s run k n =
      let o = run-Holds parse_json _ s run (new_system-Holds threads) in o.balanced k n
