-- ===== src/Messager/Main.antt =====
-- messager-cpp/src/main.cpp: main, over what asio and the signals bring.
use high_load_systems.Common.{
  Bool, List, [], Option, some, if◌then◌else◌, ExitCode, exit_failure, until_stop, exit_of,
}
use high_load_systems.Messager.Server.{Connection, Event, run_events}

-- `main`: the connections and, once it ends, its exit code. `opened` says that the acceptor could be
-- made; `none` is SIGINT or SIGTERM.
unfoldable pub run_chat : (opened : Bool) → List (Option Event) → List Connection × Option ExitCode
unfolding run_events
run_chat opened events =
    if opened then (run_events (until_stop events) [], exit_of events) else ([], some exit_failure)
