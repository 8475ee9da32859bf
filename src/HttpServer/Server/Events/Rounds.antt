-- ===== src/HttpServer/Server/Events/Rounds.antt =====
-- server.cpp, `Server::event_loop`: the loop keeps watching its listening socket, its bound covers
-- every socket watched, and each ready client is handed to the pool once.
use high_load_systems.Common.{
  count, ℕ, suc, ◌+◌, ◌<◌, ◌≡◌, ◌≢◌, ◌∙◌, sym, refl, inl, inr, true, false, Bool-cases, List, [],
  ◌∷◌, Option, none, some, arith, leb, pos, ltb_ℤ,
}
use high_load_systems.HttpServer.Cache.{Data, cleanup}
use high_load_systems.HttpServer.Server.Events.{
  FdSets, Loop, Round, new_loop, scan_fuel, run_round, event_loop,
}
use high_load_systems.HttpServer.Server.Events.Watching.{IsFdSets, accept_bound, Watches}
use high_load_systems.HttpServer.Server.Events.Queueing.{ready_client, due}
use high_load_systems.HttpServer.Server.Events.Scanning.{scan-Scanned}

module _ {S : Type 0} (fds : FdSets S) (laws : IsFdSets fds) (listen_fd : ℕ) where
  scan_fuel-enough :
      (answer : Option ℕ) (max_fd : ℕ)
      → (suc max_fd < 0 + scan_fuel fds answer max_fd)
        × (suc (accept_bound answer) < 0 + scan_fuel fds answer max_fd)
  scan_fuel-enough none max_fd = (omega arith, omega arith)
  scan_fuel-enough (some client_fd) max_fd = (omega arith, omega arith)

  due_at_first :
      (round : Round fds) (s : Loop fds) (k : ℕ)
      → count k s.queued + due fds laws listen_fd round 0 k
        ≡ count k s.queued + ready_client fds laws listen_fd round k
  due_at_first round s k = let all : leb 0 k ≡ true = ground arith in rw all refl

  -- For an fd_set that does what its documentation says: if the listening socket is watched,
  -- max_fd is no less than any socket watched, select has succeeded and left a subset of the
  -- sockets watched, then the round ends within its fuel, hands each socket of that subset but
  -- the listening one to the pool exactly once and no other, and none of these is watched
  -- afterwards unless accept has answered it.
  pub run_round-count :
      (round : Round fds) (s : Loop fds)
      → Watches fds laws listen_fd s
      → ltb_ℤ round.activity (pos 0) ≡ false
      → ((k : ℕ) → fds.fd_isset k round.read_set ≡ true → fds.fd_isset k s.master_set ≡ true)
      → (t : Loop fds) × (run_round fds listen_fd round s ≡ some t)
        × ((k : ℕ) → count k t.queued ≡ count k s.queued + ready_client fds laws listen_fd round k)
        × ((k : ℕ)
            → ready_client fds laws listen_fd round k ≡ 1
            → round.accept_answer ≢ some k
            → fds.fd_isset k t.master_set ≡ false)
  unfolding run_round
  run_round-count round s w answered within =
      let (enough, enough') = scan_fuel-enough round.accept_answer s.max_fd in
      let (t, e, r) =
        scan-Scanned fds laws listen_fd (scan_fuel fds round.accept_answer s.max_fd) round 0 s
          (omega arith) enough enough' w in
      (
        record t { entries = cleanup round.now t.entries },
        rw (run_round, answered, e) refl,
        λ k. r.counts (λ j ready. w.bounded j (within j ready)) k ∙ due_at_first round s k,
        λ k ready n.
            r.clears (λ j ready. w.bounded j (within j ready)) k
              (let all : leb 0 k ≡ true = ground arith in rw all ready) n,
      )

  run_round-Watches :
      (round : Round fds) (s : Loop fds)
      → Watches fds laws listen_fd s
      → (t : Loop fds) × (run_round fds listen_fd round s ≡ some t) × Watches fds laws listen_fd t
  unfolding run_round
  run_round-Watches round s w = elim (Bool-cases (ltb_ℤ round.activity (pos 0))) [
    | inl failed ↦ (s, rw (run_round, failed) refl, w)
    | inr answered ↦
        let (enough, enough') = scan_fuel-enough round.accept_answer s.max_fd in
        let (t, e, r) =
          scan-Scanned fds laws listen_fd (scan_fuel fds round.accept_answer s.max_fd) round 0 s
            (omega arith) enough enough' w in
        (
          record t { entries = cleanup round.now t.entries },
          rw (run_round, answered, e) refl,
          record { listens = r.watches.listens; bounded = r.watches.bounded },
        )
  ]

  pub new_loop-Watches :
      (entries : Data) → Watches fds laws listen_fd (new_loop fds listen_fd entries)
  new_loop-Watches entries = record {
    listens = laws.set_first listen_fd;
    bounded = λ j h. elim (laws.set_only listen_fd j fds.fd_zero h) [
      | inl same ↦ omega arith
      | inr old ↦ let bad = sym old ∙ laws.zero_empty j in cc
    ];
  }

  run_from :
      (rounds : List (Round fds)) (s : Loop fds)
      → Watches fds laws listen_fd s
      → (t : Loop fds) × (event_loop fds listen_fd rounds s ≡ some t) × Watches fds laws listen_fd t
  unfolding event_loop
  run_from [] s w = (s, refl, w)
  run_from (round ∷ rounds) s w =
      let (t, e, w') = run_round-Watches round s w in
      let (u, e', w'') = run_from rounds t w' in (u, rw (event_loop, e) e', w'')

  -- For an fd_set that does what its documentation says, the event loop never runs out of fuel,
  -- whatever select and accept answer, and after any number of rounds the listening socket is
  -- watched and max_fd is no less than any socket watched.
  pub event_loop-Watches :
      (rounds : List (Round fds)) (entries : Data)
      → (t : Loop fds) × (event_loop fds listen_fd rounds (new_loop fds listen_fd entries) ≡ some t)
        × Watches fds laws listen_fd t
  event_loop-Watches rounds entries = run_from rounds _ (new_loop-Watches entries)
