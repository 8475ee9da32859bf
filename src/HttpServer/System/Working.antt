-- ===== src/HttpServer/System/Working.antt =====
-- The whole server: what the threads know of the requests that they work on.
use high_load_systems.Common.{
  ℕ, ◌≡◌, refl, ap, inl, inr, Bool, true, false, List, [], ◌∷◌, Option, Option-cases, Bytes, codes,
  bytes_eq, get_elem?, All, All-append, All-set, All-found,
}
use high_load_systems.HttpServer.Cache.{path_key, get}
use high_load_systems.HttpServer.HttpParser.{
  get_response, respond, answer_get, answer_post, not_implemented, handle_request,
}
use high_load_systems.HttpServer.Server.Events.{FdSets}
use high_load_systems.HttpServer.ThreadPool.{
  Thread, at_mutex, has_job, has_returned, Pool, enqueue, thread_step, run_thread,
}
use high_load_systems.HttpServer.System.{
  Job, serving, looked_up, method_of, path_of, enqueue_all, System,
}
use high_load_systems.HttpServer.System.Entries.{HoldsResponse, IsLookup}
use high_load_systems.HttpServer.HttpParser.Transparent.{
  handle_request_get, handle_request_post, handle_request_other,
}

module _ {S : Type 0} (fds : FdSets S) (parse_json : Bytes → Option (List (Bytes × Bytes))) where
  -- The response that a request has with an empty cache.
  abbrev pub expected : Bytes → Bytes
  expected request = (handle_request parse_json 0 0 request []).0

  abbrev pub IsExpected : Bytes × Bytes → Type 0
  IsExpected (request, response) = response ≡ expected request

  -- What a thread knows of the request that it works on.
  abbrev pub IsGoodJob : Job → Type 0
  IsGoodJob (serving client_fd) = Unit
  IsGoodJob (looked_up client_fd request path cached) =
      (expected request ≡ get_response path) × IsLookup path cached

  abbrev pub IsGoodThread : Thread Job → Type 0
  IsGoodThread (has_job job) = IsGoodJob job
  IsGoodThread _ = Unit

  pub record Answers (s : System fds) : Type 0 where
    pub cached : All HoldsResponse s.loop.entries
    pub at_work : All IsGoodThread s.pool.threads
    pub waiting : All IsGoodJob s.pool.jobs
    pub answered : All IsExpected s.replies

  pub expected_get :
      (request : Bytes)
      → bytes_eq (method_of request) (codes "GET") ≡ true
      → expected request ≡ get_response (path_of request)
  unfolding answer_get get respond
  expected_get request is_get = ap (λ r. r.0) (handle_request_get parse_json 0 0 request [] is_get)

  pub expected_post :
      (request : Bytes)
      → bytes_eq (method_of request) (codes "GET") ≡ false
      → bytes_eq (method_of request) (codes "POST") ≡ true
      → expected request ≡ answer_post parse_json request
  expected_post request not_get is_post =
      ap (λ r. r.0) (handle_request_post parse_json 0 0 request [] not_get is_post)

  pub expected_other :
      (request : Bytes)
      → bytes_eq (method_of request) (codes "GET") ≡ false
      → bytes_eq (method_of request) (codes "POST") ≡ false
      → expected request ≡ not_implemented
  expected_other request not_get other =
      ap (λ r. r.0) (handle_request_other parse_json 0 0 request [] not_get other)

  pub enqueue_all-good :
      (client_fds : List ℕ) (pool : Pool Job)
      → All IsGoodJob pool.jobs
      → All IsGoodJob (enqueue_all client_fds pool).jobs
        × ((enqueue_all client_fds pool).threads ≡ pool.threads)
  enqueue_all-good [] pool a = (a, refl)
  enqueue_all-good (client_fd ∷ client_fds) pool a =
      enqueue_all-good client_fds (enqueue (serving client_fd) pool)
        (All-append IsGoodJob pool.jobs (serving client_fd ∷ []) a (tt, tt))

  thread_step-good :
      (t : Thread Job) (jobs : List Job) (stop : Bool)
      → IsGoodThread t
      → All IsGoodJob jobs
      → IsGoodThread (thread_step t jobs stop).0 × All IsGoodJob (thread_step t jobs stop).1
  unfolding thread_step
  thread_step-good at_mutex [] true g a = (tt, a)
  thread_step-good at_mutex [] false g a = (tt, a)
  thread_step-good at_mutex (job ∷ jobs) stop g a = a
  thread_step-good (has_job job) jobs stop g a = (tt, a)
  thread_step-good has_returned jobs stop g a = (tt, a)

  pub run_thread-good :
      (i : ℕ) (pool : Pool Job)
      → All IsGoodThread pool.threads
      → All IsGoodJob pool.jobs
      → All IsGoodThread (run_thread i pool).threads × All IsGoodJob (run_thread i pool).jobs
  unfolding run_thread
  run_thread-good i pool g a = elim (Option-cases (get_elem? pool.threads i)) [
    | inl e ↦ rw (run_thread, e) (g, a)
    | inr (t, e) ↦
        let (g', a') =
          thread_step-good t pool.jobs pool.stop (All-found IsGoodThread pool.threads i t e g) a in
        rw (run_thread, e) (All-set IsGoodThread pool.threads i _ g' g, a')
  ]
