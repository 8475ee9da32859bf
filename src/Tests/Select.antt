-- ===== src/Tests/Select.antt =====
-- HTTP-server-cpp/src/server.cpp: socket 3 listens, client 5 has sent, and client 6 arrives.
use high_load_systems.Common.{
  count, ℕ, ◌≡◌, ◌≢◌, ◌+◌, refl, Bool, true, false, List, [], ◌∷◌, Option, none, some, ◌==◌,
  if◌then◌else◌, pos, negsuc, arith,
}
use high_load_systems.Winsock.{Setup, idle, allow_all}
use high_load_systems.HttpServer.Cache.{cleanup}
use high_load_systems.HttpServer.Server.Listening.{init_socket, kept, init_socket-kept}
use high_load_systems.HttpServer.Server.Events.{
  FdSets, Loop, Round, new_loop, visit_fd, scan, run_round, event_loop,
}
use high_load_systems.HttpServer.Server.Events.Watching.{IsFdSets, Watches}
use high_load_systems.HttpServer.Server.Events.Queueing.{ready_client}
use high_load_systems.HttpServer.Server.Events.Rounds.{run_round-count, event_loop-Watches}

abbrev pub tables : FdSets (ℕ → Bool)
tables = record {
  fd_zero = λ _. false;
  fd_set = λ i s j. if j == i then true else s j;
  fd_clr = λ i s j. if j == i then false else s j;
  fd_isset = λ i s. s i;
}

pub tables-IsFdSets : IsFdSets tables
tables-IsFdSets = record {
  zero_empty = λ i. refl;
  set_first = λ i. ground arith;
  set_keeps = λ i j s h. ground arith;
  set_only = λ i j s h. ground arith;
  clr_other = λ i j s n. ground arith;
  clr_own = λ i s. ground arith;
}

abbrev watched : ℕ → Bool
watched = tables.fd_set 5 (tables.fd_set 3 tables.fd_zero)

abbrev loop : Loop tables
loop = record { master_set = watched; max_fd = 5; queued = []; entries = [] }

abbrev round : Round tables
round = record { activity = pos 2; read_set = watched; accept_answer = some 6; now = 0 }

loop-Watches : Watches tables tables-IsFdSets 3 loop
loop-Watches = record { listens = refl; bounded = λ j h. ground arith }

run_round-count_example :
    (t : Loop tables) × (run_round tables 3 round loop ≡ some t)
    × ((k : ℕ) → count k t.queued ≡ count k [] + ready_client tables tables-IsFdSets 3 round k)
    × ((k : ℕ)
        → ready_client tables tables-IsFdSets 3 round k ≡ 1
        → round.accept_answer ≢ some k
        → tables.fd_isset k t.master_set ≡ false)
run_round-count_example =
    run_round-count tables tables-IsFdSets 3 round loop loop-Watches refl (λ k h. h)

event_loop-Watches_example :
    (t : Loop tables) × (event_loop tables 3 (round ∷ round ∷ []) (new_loop tables 3 []) ≡ some t)
    × Watches tables tables-IsFdSets 3 t
event_loop-Watches_example = event_loop-Watches tables tables-IsFdSets 3 (round ∷ round ∷ []) []

abbrev outcome : Option (Loop tables) → Option (List ℕ × ℕ)
outcome none = none
outcome (some t) = some (t.queued, t.max_fd)

-- Client 5 is handed over, and the bound grows to 6.
handed_over : outcome (run_round tables 3 round loop) ≡ some (5 ∷ [], 6)
unfolding run_round scan visit_fd cleanup
handed_over = refl

-- A port that another program has.
abbrev taken : Setup
taken = record {
  startup = pos 0;
  listen_socket = some 4;
  bind_answer = negsuc 0;
  listen_answer = pos 0;
}

init_socket-kept_example : allow_all (init_socket taken).0 idle ≡ some (kept (init_socket taken).1)
init_socket-kept_example = init_socket-kept taken
