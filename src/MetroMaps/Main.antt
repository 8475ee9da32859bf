-- ===== src/MetroMaps/Main.antt =====
-- metro-maps-cpp/src/main.cpp: main, over what the acceptor and the signals bring.
use high_load_systems.Common.{
  ℕ, ◌/◌, Bool, List, [], Option, some, ◌==◌, if◌then◌else◌, ExitCode, exit_success, exit_failure,
  until_stop, exit_of,
}
use high_load_systems.MetroMaps.Http.{Messages, accept_conn}

-- The threads that call `io.run`.
abbrev pub handler_threads : (hardware_concurrency : ℕ) → ℕ
handler_threads hardware_concurrency = hardware_concurrency / 2

-- `main`: the responses and, once it ends, its exit code. `opened` says that the acceptor could be
-- made; the accepts, each with what is read on its connection, come in the order in which the threads
-- handle them, and `none` is SIGINT or SIGTERM. Without a thread nothing is ever handled.
unfoldable pub run_metro :
    {Req Res : Type 0}
    → Messages Req Res
    → (hardware_concurrency : ℕ) → (opened : Bool) → List (Option (Option (Option Req)))
    → List (Option Res) × Option ExitCode
unfolding accept_conn
run_metro http hardware_concurrency opened accepts =
    if opened
    then (if handler_threads hardware_concurrency == 0
        then ([], some exit_success)
        else (accept_conn http (until_stop accepts), exit_of accepts))
    else ([], some exit_failure)
