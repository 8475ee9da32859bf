-- ===== src/HttpServer/System.antt =====
-- HTTP-server-cpp/src/{server,http_parser,thread_pool,cache}.cpp together: the event loop, the threads of
-- the pool, and the cache that they share. A step is a pass of the loop over the sockets, or what a
-- thread does between two of its calls of the cache, of recv or of closesocket.
pub mod Owners
pub mod Owned
pub mod Closing
pub mod Alive
pub mod Work
pub mod Settling
pub mod Entries
pub mod Working
pub mod Replies
use high_load_systems.Common.{
  ℕ, suc, ◌+◌, ◌≡◌, ◌≢◌, Bool, true, false, List, [], ◌∷◌, ◌++◌, Option, none, some, leb, ◌==◌,
  if◌then◌else◌, Bytes, codes, bytes_eq, get_elem?, set, count, ltb_ℤ, pos,
}
use high_load_systems.HttpServer.Cache.{Data, get, cleanup}
use high_load_systems.HttpServer.HttpParser.{next_word, respond, answer_post, not_implemented}
use high_load_systems.HttpServer.Server.Events.{FdSets, Loop, Round, new_loop, visit_fd}
use high_load_systems.HttpServer.ThreadPool.{
  Thread, at_mutex, has_job, has_returned, Pool, new_pool, enqueue, run_thread,
}

-- A call of `handle_client`: not begun, or with the request and the path of a GET and what
-- `Cache::get` has returned for it.
pub data Job : Type 0 where
  serving : ℕ → Job
  looked_up : ℕ → (request path cached : Bytes) → Job

abbrev pub job_fd : Job → ℕ
job_fd (serving client_fd) = client_fd
job_fd (looked_up client_fd request path cached) = client_fd

abbrev pub method_of : Bytes → Bytes
method_of request = (next_word request).0

abbrev pub path_of : Bytes → Bytes
path_of request = (next_word (next_word request).1).0

abbrev pub enqueue_all : List ℕ → Pool Job → Pool Job
enqueue_all [] pool = pool
enqueue_all (client_fd ∷ fds) pool = enqueue_all fds (enqueue (serving client_fd) pool)

module _ {S : Type 0} (fds : FdSets S) where
  -- Where the event loop is: before select, or in a round at the test of its loop over `i`.
  pub data Place : Type 0 where
    selecting : Place
    visiting : Round fds → ℕ → Place

  pub record System : Type 0 where
    pub loop : Loop fds
    pub place : Place
    pub pool : Pool Job
    pub accepted_fds : List ℕ  -- what accept has answered
    pub closed_fds : List ℕ  -- what closesocket was called with
    pub replies : List (Bytes × Bytes)  -- requests, with what the loop over send was given for them

  -- After `init_socket`.
  abbrev pub new_system : (listen_fd threads : ℕ) → System
  new_system listen_fd threads = record {
    loop = new_loop fds listen_fd [];
    place = selecting;
    pool = new_pool threads;
    accepted_fds = [];
    closed_fds = [];
    replies = [];
  }

  -- select returns.
  abbrev pub select_returns : Round fds → System → System
  select_returns round s = record s {
    place = if ltb_ℤ round.activity (pos 0) then selecting else visiting round 0;
  }

  abbrev pub accepted_at : (listen_fd : ℕ) → Round fds → ℕ → List ℕ
  accepted_at listen_fd round i =
      if fds.fd_isset i round.read_set
      then (if i == listen_fd
          then elim round.accept_answer [ none ↦ [] | some client_fd ↦ client_fd ∷ [] ]
          else [])
      else []

  -- A pass of the loop over `i`.
  unfoldable pub visit_next : (listen_fd : ℕ) → Round fds → ℕ → System → System
  visit_next listen_fd round i s =
      let loop = visit_fd fds listen_fd round i (record s.loop { queued = [] }) in
      record s {
        loop = loop;
        place = visiting round (suc i);
        pool = enqueue_all loop.queued s.pool;
        accepted_fds = s.accepted_fds ++ accepted_at listen_fd round i;
      }

  -- The end of a round.
  abbrev pub end_round : Round fds → System → System
  end_round round s = record s {
    loop = record s.loop { entries = cleanup round.now s.loop.entries };
    place = selecting;
  }

  -- The test of the loop over `i`, and the pass where it holds.
  unfoldable pub loop_step : (listen_fd : ℕ) → Round fds → ℕ → System → System
  unfolding visit_next
  loop_step listen_fd round i s =
      if leb i s.loop.max_fd then visit_next listen_fd round i s else end_round round s

  -- A thread takes a job, waits, or returns.
  abbrev pub take_job : ℕ → System → System
  take_job i s = record s { pool = run_thread i s.pool }

  -- `closesocket(client_fd)` and the end of the job.
  abbrev pub close_client : ℕ → ℕ → System → System
  close_client i client_fd s = record s {
    pool = run_thread i s.pool;
    closed_fds = s.closed_fds ++ client_fd ∷ [];
  }

  abbrev pub reply : Bytes → Bytes → System → System
  reply request response s = record s { replies = s.replies ++ (request, response) ∷ [] }

  abbrev pub set_job : ℕ → Job → System → System
  set_job i job s = record s {
    pool = record s.pool { threads = set s.pool.threads i (has_job job) };
  }

  abbrev pub set_entries : Data → System → System
  set_entries entries s = record s { loop = record s.loop { entries = entries } }

  module _ (parse_json : Bytes → Option (List (Bytes × Bytes))) where
    -- A thread has received a request: up to the return of `Cache::get`, or to the end.
    unfoldable pub read_request : ℕ → ℕ → (now : ℕ) → Bytes → System → System
    read_request i client_fd now request s =
        if bytes_eq (method_of request) (codes "GET")
        then (let (cached, entries) = get now (path_of request) s.loop.entries in
            set_job i (looked_up client_fd request (path_of request) cached)
              (set_entries entries s))
        else if bytes_eq (method_of request) (codes "POST")
        then close_client i client_fd (reply request (answer_post parse_json request) s)
        else close_client i client_fd (reply request not_implemented s)

  -- What follows `Cache::get`.
  unfoldable pub finish_request :
      ℕ → ℕ → (now : ℕ) → (request path cached : Bytes) → System → System
  finish_request i client_fd now request path cached s =
      let (response, entries) = respond now path (cached, s.loop.entries) in
      close_client i client_fd (reply request response (set_entries entries s))

  -- accept, called at the listening socket, answers a number that is not that of an open socket.
  abbrev pub AnswersFree : (listen_fd : ℕ) → Round fds → ℕ → System → Type 0
  AnswersFree listen_fd round i s =
      i ≡ listen_fd
      → (client_fd : ℕ) → round.accept_answer ≡ some client_fd
      → (client_fd ≢ listen_fd) × (count client_fd s.accepted_fds ≡ count client_fd s.closed_fds)

  -- What can happen next; select leaves a part of the sockets watched.
  pub data SystemStep (listen_fd : ℕ) (parse_json : Bytes → Option (List (Bytes × Bytes)))
      : System → System → Type 0 where
    selects :
        (s : System) (round : Round fds)
        → s.place ≡ selecting
        → ((k : ℕ) → fds.fd_isset k round.read_set ≡ true → fds.fd_isset k s.loop.master_set ≡ true)
        → SystemStep listen_fd parse_json s (select_returns round s)
    loops :
        (s : System) (round : Round fds) (i : ℕ)
        → s.place ≡ visiting round i
        → AnswersFree listen_fd round i s
        → SystemStep listen_fd parse_json s (loop_step listen_fd round i s)
    takes :
        (s : System) (i : ℕ)
        → get_elem? s.pool.threads i ≡ some at_mutex
        → SystemStep listen_fd parse_json s (take_job i s)
    receives_nothing :
        (s : System) (i client_fd : ℕ)
        → get_elem? s.pool.threads i ≡ some (has_job (serving client_fd))
        → SystemStep listen_fd parse_json s (close_client i client_fd s)
    reads :
        (s : System) (i client_fd now : ℕ) (request : Bytes)
        → get_elem? s.pool.threads i ≡ some (has_job (serving client_fd))
        → SystemStep listen_fd parse_json s (read_request parse_json i client_fd now request s)
    finishes :
        (s : System) (i client_fd now : ℕ) (request path cached : Bytes)
        → get_elem? s.pool.threads i ≡ some (has_job (looked_up client_fd request path cached))
        → SystemStep listen_fd parse_json s (finish_request i client_fd now request path cached s)

  pub data SystemRun (listen_fd : ℕ) (parse_json : Bytes → Option (List (Bytes × Bytes)))
      : System → System → Type 0 where
    no_step : (s : System) → SystemRun listen_fd parse_json s s
    then_step :
        (s t u : System)
        → SystemRun listen_fd parse_json s t
        → SystemStep listen_fd parse_json t u
        → SystemRun listen_fd parse_json s u
