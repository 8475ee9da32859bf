-- ===== src/MetroMaps/Postgres/Lost.antt =====
-- main.cpp, PostgreSQL: no connection is ever usable.
use high_load_systems.Common.{
  suc, ◌≡◌, ◌∙◌, ap, sym, ◌++◌, append-nil, append_assoc, refl, inl, inr, Bool, true, false,
  Bool-cases, not, ◌||◌, List, [], ◌∷◌, Bytes, ℤ, pos, ltb_ℤ,
}
use high_load_systems.MetroMaps.Postgres.{
  Polling, polling_ok, polling_reading, polling_writing, polling_other, Database, new_database,
  start_conn, setup_async_connection, send_query, send_pending, on_conn_established, on_status,
  poll_connection_status, DatabaseEvent, connect_called, started_with, timer_rang, polled,
  poll_failed, queried, result_failed, result_ready, database_step, run_database,
}

send_query-timers :
    (query : Bytes) (sent : Bool) (d : Database) → (send_query query sent d).timers ≡ d.timers
send_query-timers query true d = refl
send_query-timers query false d = refl

send_pending-timers :
    (sends : Bytes → Bool) (queries : List Bytes) (d : Database)
    → (send_pending sends queries d).timers ≡ d.timers
unfolding send_pending
send_pending-timers sends [] d = refl
send_pending-timers sends (query ∷ queries) d =
    send_pending-timers sends queries (send_query query (sends query) d)
    ∙ send_query-timers query (sends query) d

on_status-timers :
    (status : Polling) (sends : Bytes → Bool) (d : Database)
    → (on_status status sends d).timers ≡ d.timers
unfolding on_status on_conn_established
on_status-timers polling_ok sends d = send_pending-timers sends d.pending_queries _
on_status-timers polling_reading sends d = refl
on_status-timers polling_writing sends d = refl
on_status-timers polling_other sends d = refl

-- Whatever PQconnectPoll answers, the connection is gone afterwards and one more reconnection is
-- asked for.
poll_connection_status-lost :
    (status : Polling) (sends : Bytes → Bool) (d : Database)
    → let t = poll_connection_status status sends d in
      (t.connected ≡ false)
      × (t.conn_ready ≡ false)
      × (t.socket_open ≡ false)
      × (t.timers ≡ suc d.timers)
unfolding poll_connection_status
poll_connection_status-lost status sends d =
    (refl, refl, refl, ap suc (on_status-timers status sends d))

-- The queries for which an event makes PQsendQuery answer 1, without those of `on_conn_established`.
abbrev pub asked : List DatabaseEvent → List Bytes
asked [] = []
asked (queried query true ∷ events) = query ∷ asked events
asked (_ ∷ events) = asked events

asked-append : (xs ys : List DatabaseEvent) → asked (xs ++ ys) ≡ asked xs ++ asked ys
asked-append [] ys = refl
asked-append (connect_called ∷ xs) ys = asked-append xs ys
asked-append (started_with conn bad socket_id ∷ xs) ys = asked-append xs ys
asked-append (timer_rang error ∷ xs) ys = asked-append xs ys
asked-append (polled status sends ∷ xs) ys = asked-append xs ys
asked-append (poll_failed ∷ xs) ys = asked-append xs ys
asked-append (queried query true ∷ xs) ys = ap (λ t. query ∷ t) (asked-append xs ys)
asked-append (queried query false ∷ xs) ys = asked-append xs ys
asked-append (result_failed ∷ xs) ys = asked-append xs ys
asked-append (result_ready busy results ∷ xs) ys = asked-append xs ys

-- What a stretch of a run makes of the object.
record Lost (queries : List Bytes) (d d' : Database) : Type 0 where
  pub not_ready : d'.conn_ready ≡ false
  pub none_pending : d'.pending_queries ≡ []
  pub only_asked : d'.accepted_queries ≡ d.accepted_queries ++ queries

same_queries :
    (d d' : Database)
    → d'.conn_ready ≡ false
    → d'.pending_queries ≡ []
    → d'.accepted_queries ≡ d.accepted_queries
    → Lost [] d d'
same_queries d d' h p a = record {
  not_ready = h;
  none_pending = p;
  only_asked = a ∙ sym (append-nil d.accepted_queries);
}

start_conn-Lost :
    (conn bad : Bool) (socket_id : ℤ) (d : Database)
    → d.conn_ready ≡ false
    → d.pending_queries ≡ []
    → Lost [] d (start_conn conn bad socket_id d)
start_conn-Lost conn bad socket_id d h p = elim (Bool-cases (not conn || bad)) [
  | inl failed ↦ rw (start_conn, failed) (same_queries d _ h p refl)
  | inr begun ↦ elim (Bool-cases (ltb_ℤ socket_id (pos 0))) [
    | inl invalid ↦
        rw (start_conn, begun, setup_async_connection, invalid) (same_queries d _ h p refl)
    | inr valid ↦ rw (start_conn, begun, setup_async_connection, valid) (same_queries d _ h p refl)
  ]
]

on_status-pending :
    (status : Polling) (sends : Bytes → Bool) (d : Database)
    → d.pending_queries ≡ []
    → ((on_status status sends d).pending_queries ≡ [])
      × ((on_status status sends d).accepted_queries ≡ d.accepted_queries)
unfolding on_status on_conn_established send_pending
on_status-pending polling_ok sends d p = rw (on_conn_established, p) (refl, refl)
on_status-pending polling_reading sends d p = (p, refl)
on_status-pending polling_writing sends d p = (p, refl)
on_status-pending polling_other sends d p = (p, refl)

database_step-Lost :
    (e : DatabaseEvent) (d : Database)
    → d.conn_ready ≡ false
    → d.pending_queries ≡ []
    → Lost (asked (e ∷ [])) d (database_step e d)
unfolding database_step poll_connection_status
database_step-Lost connect_called d h p = same_queries d _ h p refl
database_step-Lost (started_with conn bad socket_id) d h p =
    start_conn-Lost conn bad socket_id d h p
database_step-Lost (timer_rang true) d h p = same_queries d _ h p refl
database_step-Lost (timer_rang false) d h p = same_queries d _ h p refl
database_step-Lost (polled status sends) d h p =
    let (pending, accepted) = on_status-pending status sends d p in
    record {
      not_ready = refl;
      none_pending = pending;
      only_asked = accepted ∙ sym (append-nil d.accepted_queries);
    }
database_step-Lost poll_failed d h p = same_queries d _ refl p refl
database_step-Lost (queried query true) d h p = record {
  not_ready = h;
  none_pending = p;
  only_asked = refl;
}
database_step-Lost (queried query false) d h p = same_queries d _ h p refl
database_step-Lost result_failed d h p = same_queries d _ refl p refl
database_step-Lost (result_ready true results) d h p = same_queries d _ h p refl
database_step-Lost (result_ready false results) d h p = same_queries d _ h p refl

run_database-Lost :
    (events : List DatabaseEvent) (d : Database)
    → d.conn_ready ≡ false
    → d.pending_queries ≡ []
    → Lost (asked events) d (run_database events d)
unfolding run_database
run_database-Lost [] d h p = same_queries d d h p refl
run_database-Lost (e ∷ events) d h p =
    let r = database_step-Lost e d h p in
    let r' = run_database-Lost events (database_step e d) r.not_ready r.none_pending in
    record {
      not_ready = r'.not_ready;
      none_pending = r'.none_pending;
      only_asked =
          r'.only_asked
          ∙ ap (λ q. q ++ asked events) r.only_asked
          ∙ append_assoc d.accepted_queries (asked (e ∷ [])) (asked events)
          ∙ ap (λ q. d.accepted_queries ++ q) (sym (asked-append (e ∷ []) events));
    }

-- In every run of the calls and callbacks of a new PostgreSQL object, whatever libpq answers,
-- the connection is not marked ready after any of them, and the only queries that libpq has
-- accepted are those of direct calls of send_query, none of a connection that was established.
pub run_database-never_ready :
    (events : List DatabaseEvent)
    → let d = run_database events new_database in
      (d.conn_ready ≡ false) × (d.accepted_queries ≡ asked events)
run_database-never_ready events =
    let r = run_database-Lost events new_database refl refl in (r.not_ready, r.only_asked)
