-- ===== src/HttpServer/Server/Events.antt =====
-- HTTP-server-cpp/src/server.cpp, `Server::event_loop`. The fd_set of the socket library is an
-- interface, and what select and accept answer are parameters.
pub mod Watching
pub mod Queueing
pub mod Scanning
pub mod Rounds
use high_load_systems.Common.{
  ℕ, zero, suc, ◌+◌, Bool, List, [], ◌∷◌, ◌++◌, Option, none, some, ltb, leb, ◌==◌, if◌then◌else◌,
  ℤ, pos, ltb_ℤ,
}
use high_load_systems.HttpServer.Cache.{Data, cleanup}

-- FD_ZERO, FD_SET, FD_CLR and FD_ISSET.
pub record FdSets (S : Type 0) : Type 0 where
  pub fd_zero : S
  pub fd_set : ℕ → S → S
  pub fd_clr : ℕ → S → S
  pub fd_isset : ℕ → S → Bool

module _ {S : Type 0} (fds : FdSets S) where
  -- The variables of the loop: the clients that were handed to the pool, and the response cache.
  pub record Loop : Type 0 where
    pub master_set : S
    pub max_fd : ℕ
    pub queued : List ℕ
    pub entries : Data

  -- What a round gets: the answer of select and the set that it leaves, what accept answers (none
  -- for -1), and the time of the cleanup.
  pub record Round : Type 0 where
    pub activity : ℤ
    pub read_set : S
    pub accept_answer : Option ℕ
    pub now : ℕ

  abbrev pub new_loop : ℕ → Data → Loop
  new_loop listen_fd entries = record {
    master_set = fds.fd_set listen_fd fds.fd_zero;
    max_fd = listen_fd;
    queued = [];
    entries = entries;
  }

  -- The branch for `listen_fd`.
  abbrev pub accept_client : Option ℕ → Loop → Loop
  accept_client none s = s
  accept_client (some client_fd) s = record s {
    master_set = fds.fd_set client_fd s.master_set;
    max_fd = if ltb s.max_fd client_fd then client_fd else s.max_fd;
  }

  -- The branch for a client.
  abbrev pub hand_over : ℕ → Loop → Loop
  hand_over i s = record s { master_set = fds.fd_clr i s.master_set; queued = s.queued ++ i ∷ [] }

  -- The body of the loop over `i`.
  unfoldable pub visit_fd : ℕ → Round → ℕ → Loop → Loop
  visit_fd listen_fd round i s =
      if fds.fd_isset i round.read_set
      then (if i == listen_fd then accept_client round.accept_answer s else hand_over i s)
      else s

  -- The loop from `i` on, on fuel; `max_fd` is read again at every test.
  unfoldable pub scan : ℕ → ℕ → Round → ℕ → Loop → Option Loop
  scan zero listen_fd round i s = none
  scan (suc fuel) listen_fd round i s =
      let rest = scan fuel listen_fd round (suc i) (visit_fd listen_fd round i s) in
      if leb i s.max_fd then rest else some s

  abbrev pub clean : ℕ → Option Loop → Option Loop
  clean now none = none
  clean now (some s) = some (record s { entries = cleanup now s.entries })

  -- The greatest number that `i` can reach, and two more.
  abbrev pub scan_fuel : Option ℕ → ℕ → ℕ
  scan_fuel none max_fd = max_fd + 2
  scan_fuel (some client_fd) max_fd = max_fd + client_fd + 2

  -- A round of `while (true)`.
  unfoldable pub run_round : ℕ → Round → Loop → Option Loop
  unfolding scan
  run_round listen_fd round s =
      if ltb_ℤ round.activity (pos 0)
      then some s
      else clean round.now (scan (scan_fuel round.accept_answer s.max_fd) listen_fd round 0 s)

  -- `Server::event_loop`, as far as select has answered.
  unfoldable pub event_loop : ℕ → List Round → Loop → Option Loop
  unfolding run_round
  event_loop listen_fd [] s = some s
  event_loop listen_fd (round ∷ rounds) s = elim (run_round listen_fd round s) [
    | none ↦ none
    | some s' ↦ event_loop listen_fd rounds s'
  ]
