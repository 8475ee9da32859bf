-- ===== src/MetroMaps/Postgres.antt =====
-- metro-maps-cpp/src/main.cpp, class PostgreSQL: the calls of libpq and of asio answer by parameters,
-- and what asio calls back is an event. Lines on std::cerr are left out.
pub mod Lost
pub mod Results
use high_load_systems.Common.{
  ℕ, zero, suc, Bool, true, false, not, ◌||◌, List, [], ◌∷◌, ◌++◌, Option, none, some,
  if◌then◌else◌, Bytes, codes, ℤ, pos, ltb_ℤ, get_elem?, to_string,
}

-- PQconnectPoll: the values that the source names, and any other.
pub data Polling : Type 0 where
  polling_ok polling_reading polling_writing polling_other : Polling

-- What a call of async_wait on the socket waits for.
pub data Wait : Type 0 where
  wait_poll wait_result : Wait

pub record Database : Type 0 where
  pub connected : Bool  -- conn_ is not null
  pub conn_ready : Bool
  pub pending_queries : List Bytes
  pub socket_open : Bool
  pub waits : List Wait  -- the calls of async_wait on the socket so far
  pub timers : ℕ  -- the calls of async_wait on the timer so far
  pub accepted_queries : List Bytes  -- the queries for which PQsendQuery answered 1
  pub printed : Bytes

abbrev pub new_database : Database
new_database = record {
  connected = false;
  conn_ready = false;
  pending_queries = [];
  socket_open = false;
  waits = [];
  timers = 0;
  accepted_queries = [];
  printed = [];
}

abbrev pub say : Bytes → Database → Database
say text d = record d { printed = d.printed ++ text }

-- `reconn_aft_del`
abbrev pub reconn_aft_del : Database → Database
reconn_aft_del d = record d { timers = suc d.timers }

-- `connect`, which is empty.
abbrev pub connect : Database → Database
connect d = d

-- The callback of the timer, which may have an error.
abbrev pub timer_fired : (error : Bool) → Database → Database
timer_fired true d = d
timer_fired false d = connect (say (codes "Attempting to reconnect...\n") d)

-- `cleanup_connection`
abbrev pub cleanup_connection : Database → Database
cleanup_connection d = record d { connected = false; conn_ready = false; socket_open = false }

-- `handle_connection_error`
abbrev pub handle_connection_error : Database → Database
handle_connection_error d = reconn_aft_del (cleanup_connection d)

-- `setup_async_connection`, from the answer of PQsocket.
abbrev pub setup_async_connection : ℤ → Database → Database
setup_async_connection socket_id d =
    if ltb_ℤ socket_id (pos 0) then reconn_aft_del d else record d { socket_open = true }

-- `start_conn`: whether PQconnectStart gives a connection, whether its status is CONNECTION_BAD, and
-- the answer of PQsocket.
abbrev pub start_conn : (conn bad : Bool) → ℤ → Database → Database
start_conn conn bad socket_id d =
    let d = record d { connected = conn } in
    if not conn || bad then reconn_aft_del d else setup_async_connection socket_id d

-- `wait_for_query_result`
abbrev pub wait_for_query_result : Database → Database
wait_for_query_result d = record d { waits = d.waits ++ wait_result ∷ [] }

-- `send_query`, from the answer of PQsendQuery.
abbrev pub send_query : (query : Bytes) → (sent : Bool) → Database → Database
send_query query true d =
    wait_for_query_result (record d { accepted_queries = d.accepted_queries ++ query ∷ [] })
send_query query false d = d

-- The loop of `on_conn_established`; `sends` answers PQsendQuery for each query.
unfoldable pub send_pending : (sends : Bytes → Bool) → List Bytes → Database → Database
send_pending sends [] d = record d { pending_queries = [] }
send_pending sends (query ∷ queries) d =
    send_pending sends queries (send_query query (sends query) d)

-- `on_conn_established`
unfoldable pub on_conn_established : (sends : Bytes → Bool) → Database → Database
unfolding send_pending
on_conn_established sends d =
    send_pending sends d.pending_queries
      (say (codes "Connected to DataBase\n") (record d { conn_ready = true }))

-- What the tests of `poll_connection_status` do; at most one of them holds.
unfoldable pub on_status : Polling → (sends : Bytes → Bool) → Database → Database
unfolding on_conn_established
on_status polling_ok sends d = on_conn_established sends d
on_status polling_reading sends d = record d { waits = d.waits ++ wait_poll ∷ [] }
on_status polling_writing sends d = record d { waits = d.waits ++ wait_poll ∷ [] }
on_status polling_other sends d = d

-- `poll_connection_status`: what follows the tests is done whichever of them holds.
unfoldable pub poll_connection_status : Polling → (sends : Bytes → Bool) → Database → Database
unfolding on_status
poll_connection_status status sends d = handle_connection_error (on_status status sends d)

-- A result: whether its status is PGRES_TUPLES_OK, and its rows of values.
pub record QueryResult : Type 0 where
  pub tuples_ok : Bool
  pub columns : ℕ
  pub rows : List (List Bytes)

abbrev pub print_row : List Bytes → Bytes
print_row [] = 10 ∷ []
print_row (value ∷ values) = value ++ (codes " " ++ print_row values)

abbrev pub print_rows : List (List Bytes) → Bytes
print_rows [] = []
print_rows (row ∷ rows) = print_row row ++ print_rows rows

abbrev pub row_count : List (List Bytes) → ℕ
row_count [] = 0
row_count (row ∷ rows) = suc (row_count rows)

unfoldable pub print_result : QueryResult → Bytes
unfolding to_string
print_result result =
    if result.tuples_ok
    then codes "Query result: "
      ++ (to_string (row_count result.rows)
          ++ (codes " rows, "
              ++ (to_string result.columns ++ (codes " columns\n" ++ print_rows result.rows))))
    else []

-- `process_query_result`, on what PQgetResult gives one after another until it gives null: the text
-- printed, and the number of results that PQclear gets. Each call takes a second result to test it.
unfoldable pub process_query_result : List QueryResult → Bytes × ℕ
unfolding print_result
process_query_result [] = ([], 0)
process_query_result (result ∷ []) = (print_result result, 1)
process_query_result (result ∷ tested ∷ results) =
    let (text, cleared) = process_query_result results in (print_result result ++ text, suc cleared)

-- What asio reports, and the calls; answers of libpq come with them.
pub data DatabaseEvent : Type 0 where
  connect_called : DatabaseEvent
  started_with : (conn bad : Bool) → ℤ → DatabaseEvent
  timer_rang : (error : Bool) → DatabaseEvent
  polled : Polling → (Bytes → Bool) → DatabaseEvent  -- a call, or the callback without an error
  poll_failed : DatabaseEvent  -- the callback with an error
  queried : Bytes → Bool → DatabaseEvent  -- `send_query`
  result_failed : DatabaseEvent  -- the callback of `wait_for_query_result` with an error
  result_ready : (busy : Bool) → List QueryResult → DatabaseEvent  -- without one

unfoldable pub database_step : DatabaseEvent → Database → Database
unfolding poll_connection_status process_query_result
database_step connect_called d = connect d
database_step (started_with conn bad socket_id) d = start_conn conn bad socket_id d
database_step (timer_rang error) d = timer_fired error d
database_step (polled status sends) d = poll_connection_status status sends d
database_step poll_failed d = handle_connection_error d
database_step (queried query sent) d = send_query query sent d
database_step result_failed d = handle_connection_error d
database_step (result_ready true results) d = wait_for_query_result d
database_step (result_ready false results) d = say (process_query_result results).0 d

unfoldable pub run_database : List DatabaseEvent → Database → Database
unfolding database_step
run_database [] d = d
run_database (e ∷ events) d = run_database events (database_step e d)
