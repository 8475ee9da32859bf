-- ===== src/HttpServer/System/Replies.antt =====
-- The whole server: threads that share the cache answer each request as if there were no cache.
use high_load_systems.Common.{
  ℕ, suc, ◌≡◌, refl, sym, ◌∙◌, inl, inr, Bool-cases, List, [], ◌∷◌, Option, none, some, leb, ◌==◌,
  Bytes, codes, bytes_eq, All, All-append, All-set, All-found, replicate, zero,
}
use high_load_systems.HttpServer.Cache.{Data, path_key, get}
use high_load_systems.HttpServer.Server.Events.{FdSets, Loop, Round, visit_fd, accept_client}
use high_load_systems.HttpServer.ThreadPool.{at_mutex}
use high_load_systems.HttpServer.System.{
  looked_up, method_of, path_of, System, new_system, visit_next, loop_step, take_job, close_client,
  reply, set_entries, read_request, finish_request, SystemStep, selects, loops, takes,
  receives_nothing, reads, finishes, SystemRun, no_step, then_step,
}
use high_load_systems.HttpServer.System.Entries.{
  HoldsResponse, HoldsResponse-cleanup, get-IsLookup, respond-HoldsResponse,
}
use high_load_systems.HttpServer.System.Working.{
  expected, IsExpected, IsGoodJob, IsGoodThread, Answers, expected_get, expected_post,
  expected_other, enqueue_all-good, run_thread-good,
}

module _ {S : Type 0} (fds : FdSets S) (listen_fd : ℕ)
    (parse_json : Bytes → Option (List (Bytes × Bytes))) where
  abbrev Holds : System fds → Type 0
  Holds s = Answers fds parse_json s

  accept_client-entries :
      (answer : Option ℕ) (loop : Loop fds) → (accept_client fds answer loop).entries ≡ loop.entries
  accept_client-entries none loop = refl
  accept_client-entries (some client_fd) loop = refl

  visit_fd-entries :
      (round : Round fds) (i : ℕ) (loop : Loop fds)
      → (visit_fd fds listen_fd round i loop).entries ≡ loop.entries
  unfolding visit_fd
  visit_fd-entries round i loop = elim (Bool-cases (fds.fd_isset i round.read_set)) [
    | inr idle ↦ rw (visit_fd, idle) refl
    | inl ready ↦ elim (Bool-cases (i == listen_fd)) [
      | inl own ↦ rw (visit_fd, ready, own) (accept_client-entries round.accept_answer loop)
      | inr client ↦ rw (visit_fd, ready, client) refl
    ]
  ]

  loop_step-Holds :
      (round : Round fds) (i : ℕ) (s : System fds)
      → Holds s
      → Holds (loop_step fds listen_fd round i s)
  unfolding loop_step visit_next
  loop_step-Holds round i s h = elim (Bool-cases (leb i s.loop.max_fd)) [
    | inr done ↦
        rw (loop_step, done)
          (record {
            cached = HoldsResponse-cleanup round.now s.loop.entries h.cached;
            at_work = h.at_work;
            waiting = h.waiting;
            answered = h.answered;
          })
    | inl more ↦
        let loop' = visit_fd fds listen_fd round i (record s.loop { queued = [] }) in
        let (waits, threads) = enqueue_all-good fds parse_json loop'.queued s.pool h.waiting in
        rw (loop_step, more)
          (record {
            cached = rw (visit_fd-entries round i (record s.loop { queued = [] })) h.cached;
            at_work = rw threads h.at_work;
            waiting = waits;
            answered = h.answered;
          })
  ]

  take_job-Holds : (i : ℕ) (s : System fds) → Holds s → Holds (take_job fds i s)
  take_job-Holds i s h =
      let (work, waits) = run_thread-good fds parse_json i s.pool h.at_work h.waiting in
      record { cached = h.cached; at_work = work; waiting = waits; answered = h.answered }

  -- The end of a job with a response.
  reply-Holds :
      (i client_fd : ℕ) (request response : Bytes) (s : System fds)
      → response ≡ expected fds parse_json request
      → Holds s
      → Holds (close_client fds i client_fd (reply fds request response s))
  reply-Holds i client_fd request response s e h =
      let (work, waits) = run_thread-good fds parse_json i s.pool h.at_work h.waiting in
      record {
        cached = h.cached;
        at_work = work;
        waiting = waits;
        answered =
            All-append (IsExpected fds parse_json) s.replies ((request, response) ∷ []) h.answered
              (e, tt);
      }

  set_entries-Holds :
      (entries : Data) (s : System fds)
      → All HoldsResponse entries
      → Holds s
      → Holds (set_entries fds entries s)
  set_entries-Holds entries s a h = record {
    cached = a;
    at_work = h.at_work;
    waiting = h.waiting;
    answered = h.answered;
  }

  read_request-Holds :
      (i client_fd now : ℕ) (request : Bytes) (s : System fds)
      → Holds s
      → Holds (read_request fds parse_json i client_fd now request s)
  unfolding read_request
  read_request-Holds i client_fd now request s h =
      elim (Bool-cases (bytes_eq (method_of request) (codes "GET"))) [
        | inl is_get ↦
            let (lookup, entries) = get-IsLookup now (path_of request) s.loop.entries h.cached in
            let job =
              looked_up client_fd request (path_of request)
                (get now (path_of request) s.loop.entries).0 in
            let good : IsGoodJob fds parse_json job =
              (expected_get fds parse_json request is_get, lookup) in
            rw (read_request, is_get)
              (record {
                cached = entries;
                at_work = All-set (IsGoodThread fds parse_json) s.pool.threads i _ good h.at_work;
                waiting = h.waiting;
                answered = h.answered;
              })
        | inr not_get ↦ elim (Bool-cases (bytes_eq (method_of request) (codes "POST"))) [
          | inl is_post ↦
              rw (read_request, not_get, is_post)
                (reply-Holds i client_fd request _ s
                  (sym (expected_post fds parse_json request not_get is_post)) h)
          | inr other ↦
              rw (read_request, not_get, other)
                (reply-Holds i client_fd request _ s
                  (sym (expected_other fds parse_json request not_get other)) h)
        ]
      ]

  finish_request-Holds :
      (i client_fd now : ℕ) (request path cached : Bytes) (s : System fds)
      → IsGoodJob fds parse_json (looked_up client_fd request path cached)
      → Holds s
      → Holds (finish_request fds i client_fd now request path cached s)
  unfolding finish_request
  finish_request-Holds i client_fd now request path cached s (wanted, lookup) h =
      let (response, entries) =
        respond-HoldsResponse now path cached s.loop.entries lookup h.cached in
      reply-Holds i client_fd request _ _ (response ∙ sym wanted) (set_entries-Holds _ s entries h)

  step-Holds : (s t : System fds) → SystemStep fds listen_fd parse_json s t → Holds s → Holds t
  step-Holds s t (selects _ round at part) h = record {
    cached = h.cached;
    at_work = h.at_work;
    waiting = h.waiting;
    answered = h.answered;
  }
  step-Holds s t (loops _ round i at free) h = loop_step-Holds round i s h
  step-Holds s t (takes _ i e) h = take_job-Holds i s h
  step-Holds s t (receives_nothing _ i client_fd e) h =
      let (work, waits) = run_thread-good fds parse_json i s.pool h.at_work h.waiting in
      record { cached = h.cached; at_work = work; waiting = waits; answered = h.answered }
  step-Holds s t (reads _ i client_fd now request e) h =
      read_request-Holds i client_fd now request s h
  step-Holds s t (finishes _ i client_fd now request path cached e) h =
      finish_request-Holds i client_fd now request path cached s
        (All-found (IsGoodThread fds parse_json) s.pool.threads i _ e h.at_work) h

  idle_threads : (n : ℕ) → All (IsGoodThread fds parse_json) (replicate n at_mutex)
  idle_threads zero = tt
  idle_threads (suc n) = (tt, idle_threads n)

  run-Holds : (s t : System fds) → SystemRun fds listen_fd parse_json s t → Holds s → Holds t
  run-Holds s t (no_step _) h = h
  run-Holds s t (then_step _ u _ run step) h = step-Holds u t step (run-Holds s u run h)

  new_system-Holds : (threads : ℕ) → Holds (new_system fds listen_fd threads)
  new_system-Holds threads = record {
    cached = tt;
    at_work = idle_threads threads;
    waiting = tt;
    answered = tt;
  }

  -- In every run of the whole server every response that a thread begins to send is the one that
  -- its request has with an empty cache, however the calls of the cache by several threads and
  -- the cleanups of the loop are interleaved.
  pub replies-IsExpected :
      (threads : ℕ) (s : System fds)
      → SystemRun fds listen_fd parse_json (new_system fds listen_fd threads) s
      → All (IsExpected fds parse_json) s.replies
  replies-IsExpected threads s run =
      let h = run-Holds _ s run (new_system-Holds threads) in h.answered
