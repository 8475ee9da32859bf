-- ===== src/Tests/Responses.antt =====
-- HTTP-server-cpp: requests answered through a cache that holds one response.
use high_load_systems.Common.{
  ℕ, ◌≡◌, refl, List, [], ◌++◌, Option, none, some, arith, Bytes, codes, ℤ, pos, drop,
}
use high_load_systems.HttpServer.Cache.{Data, path_key, put, get, cleanup}
use high_load_systems.HttpServer.Cache.Expiry.{get-cleanup}
use high_load_systems.HttpServer.HttpParser.{get_response, answer_post, handle_request}
use high_load_systems.HttpServer.HttpParser.Transparent.{
  IsFaithful, IsFaithful-put, handle_request-empty,
}
use high_load_systems.HttpServer.HttpParser.Readable.{read_body, post_text, read_body_answers}
use high_load_systems.HttpServer.Server.{send_loop, handle_client}
use high_load_systems.HttpServer.Server.Sending.{IsOpen, handle_client-response, send_loop-prefix}
use high_load_systems.HttpServer.ThreadPool.{
  Pool, new_pool, enqueue, run_thread, PoolSteps, no_steps, and_then, call_enqueue, thread_runs,
}
use high_load_systems.HttpServer.ThreadPool.Fifo.{queued, taken, queued-taken}

abbrev cached : Data
cached = put 0 (codes "/a") (get_response (codes "/a")) 60 []

cached-IsFaithful : IsFaithful cached
cached-IsFaithful = IsFaithful-put 0 (codes "/a") [] (λ path entry e. cc)

abbrev request : Bytes
request = codes "GET /a HTTP/1.1"

-- A parser that refuses every body.
abbrev no_json : Bytes → Option (List (Bytes × Bytes))
no_json body = none

-- A socket that takes one byte a call.
abbrev one_byte : ℕ → ℕ → ℤ
one_byte call offered = pos 1

one_byte-IsOpen : IsOpen one_byte
one_byte-IsOpen call offered h = (omega arith, omega arith)

abbrev posted : Bytes
posted = codes "POST / HTTP/1.1\r\n\r\n{"

handle_request-empty_example :
    ((handle_request no_json 5 6 request cached).0 ≡ (handle_request no_json 0 0 request []).0)
    × IsFaithful (handle_request no_json 5 6 request cached).1
handle_request-empty_example = handle_request-empty no_json 5 6 request cached cached-IsFaithful

handle_client-response_example :
    ((handle_client no_json one_byte 5 6 (some request) cached).0
      ≡ some (handle_request no_json 0 0 request []).0)
    × IsFaithful (handle_client no_json one_byte 5 6 (some request) cached).1
handle_client-response_example =
    handle_client-response no_json one_byte 5 6 request cached one_byte-IsOpen cached-IsFaithful

send_loop-prefix_example :
    (sent : Bytes) × (rest : Bytes) × (send_loop 6 one_byte 0 (codes "hello") 0 ≡ some sent)
    × (sent ++ rest ≡ drop 0 (codes "hello"))
send_loop-prefix_example =
    send_loop-prefix 6 one_byte 0 (codes "hello") 0 (omega arith) (omega arith)

get-cleanup_example : (get 9 (codes "/a") (cleanup 7 cached)).0 ≡ (get 9 (codes "/a") cached).0
unfolding put
get-cleanup_example = get-cleanup 7 9 (codes "/a") cached (refl, tt) (omega arith)

read_body_answers_example :
    (read_body [] 0 (get_response (codes "/a") ++ codes "next")
      ≡ some (codes "Hello from GET " ++ codes "/a"))
    × (read_body [] 0 (answer_post no_json posted ++ codes "next")
        ≡ some (post_text no_json posted))
read_body_answers_example = read_body_answers no_json (codes "/a") posted (codes "next")

-- Two jobs are queued, and thread 1 of two takes the first.
abbrev two_queued : Pool ℕ
two_queued = enqueue 8 (enqueue 7 (new_pool 2))

abbrev pool_run : PoolSteps (new_pool 2) (run_thread 1 two_queued)
pool_run =
    and_then (new_pool 2) two_queued (run_thread 1 two_queued)
      (and_then (new_pool 2) (enqueue 7 (new_pool 2)) two_queued
        (and_then (new_pool 2) (new_pool 2) (enqueue 7 (new_pool 2)) (no_steps (new_pool 2))
          (call_enqueue (new_pool 2) 7))
        (call_enqueue (enqueue 7 (new_pool 2)) 8))
      (thread_runs two_queued 1)

queued-taken_example : queued pool_run ≡ taken pool_run ++ (run_thread 1 two_queued).jobs
queued-taken_example = queued-taken 2 (run_thread 1 two_queued) pool_run
