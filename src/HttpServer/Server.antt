-- ===== src/HttpServer/Server.antt =====
-- HTTP-server-cpp/src/server.cpp: how a client is served. The calls of the socket library are
-- parameters: what recv delivers, and how many bytes each call of send takes.
pub mod Sending
pub mod Listening
pub mod Events
use high_load_systems.Common.{
  ℕ, zero, suc, ◌+◌, ◌-◌, List, [], ◌∷◌, ◌++◌, Option, none, some, ltb, if◌then◌else◌, Bytes,
  length, take, drop, ℤ, pos, pos_part, leb_ℤ,
}
use high_load_systems.HttpServer.Cache.{Data}
use high_load_systems.HttpServer.HttpParser.{handle_request}

-- Bytes that went out before those of `rest`.
abbrev pub before : Bytes → Option Bytes → Option Bytes
before sent none = none
before sent (some rest) = some (sent ++ rest)

-- The loop of `handle_client` from `total_sent` on, on fuel: the bytes that `send` takes. `send` gets
-- the number of the call and the bytes offered, and answers with the count taken, or an error.
unfoldable pub send_loop :
    ℕ → (send : ℕ → ℕ → ℤ) → (call : ℕ) → Bytes → (total_sent : ℕ) → Option Bytes
send_loop zero send call response total_sent = none
send_loop (suc fuel) send call response total_sent =
    if ltb total_sent (length response)
    then (let sent = send call (length response - total_sent) in
        let rest = send_loop fuel send (suc call) response (total_sent + pos_part sent) in
        if leb_ℤ sent (pos 0)
        then some []
        else before (take (pos_part sent) (drop total_sent response)) rest)
    else some []

-- `Server::handle_client`: what goes out to the client, and the cache afterwards. `none` from recv
-- is an error or a closed connection. Each round but the last sends a byte or more.
pub handle_client :
    (parse_json : Bytes → Option (List (Bytes × Bytes)))
    → (send : ℕ → ℕ → ℤ) → (now_get now_put : ℕ) → (received : Option Bytes) → Data
    → Option Bytes × Data
unfolding send_loop
handle_client parse_json send now_get now_put none entries = (some [], entries)
handle_client parse_json send now_get now_put (some request) entries =
    let (response, entries) = handle_request parse_json now_get now_put request entries in
    (send_loop (suc (length response)) send 0 response 0, entries)
