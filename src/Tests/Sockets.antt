-- ===== src/Tests/Sockets.antt =====
-- echo-server-cpp and the sockets of HTTP-server-cpp: one client, and a second accept that fails.
use high_load_systems.Common.{
  ◌≡◌, refl, List, [], ◌∷◌, Option, none, some, if◌then◌else◌, codes, pos,
}
use high_load_systems.Winsock.{Setup, idle, allow_all}
use high_load_systems.EchoServer.{Visit, exited, run_server, listen_and_serve, serve}
use high_load_systems.EchoServer.Closing.{held, run_server-held}
use high_load_systems.EchoServer.Echoes.{all_sent, from_clients, starts, run_server-from_clients}

abbrev setup : Setup
setup = record {
  startup = pos 0;
  listen_socket = some 4;
  bind_answer = pos 0;
  listen_answer = pos 0;
}

abbrev answers : List (Option Visit)
answers =
    some (record {
      client_socket = 5;
      buffer = codes "ping";
      bytes_received = pos 4;
      bytes_sent = pos 3;
    })
    ∷ none
    ∷ []

returns : (run_server setup answers).1 ≡ exited 0
unfolding run_server listen_and_serve serve
returns = refl

-- send takes three of the four bytes, and nothing sends the fourth.
echoes : from_clients answers ≡ (5, codes "pin") ∷ []
echoes = refl

run_server-held_example :
    allow_all (run_server setup answers).0 idle ≡ some (held (run_server setup answers).1)
run_server-held_example = run_server-held setup answers

run_server-from_clients_example :
    all_sent (run_server setup answers).0 ≡ (if starts setup then from_clients answers else [])
run_server-from_clients_example = run_server-from_clients setup answers
