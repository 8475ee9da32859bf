-- ===== src/HttpServer/Main.antt =====
-- HTTP-server-cpp/src/{server,main}.cpp: `Server::run` and main. Nothing catches what init_socket
-- throws, and event_loop does not return.
use high_load_systems.Common.{ℕ, List, [], ◌∷◌, ◌++◌, Bytes, codes, to_string, ok, err}
use high_load_systems.Winsock.{Setup, Call, logged}
use high_load_systems.HttpServer.Server.Events.{FdSets}
use high_load_systems.HttpServer.Server.Listening.{init_socket}
use high_load_systems.HttpServer.System.{System, new_system}

module _ {S : Type 0} (fds : FdSets S) where
  -- The program is terminated by an exception with its text, or in its event loop.
  pub data Started : Type 0 where
    terminated : Bytes → Started
    serves : System fds → Started

  -- `Server::Server`: the threads of its pool.
  abbrev pub pool_threads : ℕ
  pool_threads = 4

  -- `Server::run`
  unfoldable pub run_http : (port : ℕ) → Setup → List Call × Started
  unfolding init_socket to_string
  run_http port setup =
      let (calls, r) = init_socket setup in
      elim r [
        | err text ↦ (calls, terminated text)
        | ok listen_fd ↦ (
          calls ++ logged (codes "The server runs on port " ++ to_string port) ∷ [],
          serves (new_system fds listen_fd pool_threads),
        )
      ]

  abbrev pub main : Setup → List Call × Started
  main setup = run_http 8080 setup
