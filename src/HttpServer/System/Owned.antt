-- ===== src/HttpServer/System/Owned.antt =====
-- The whole server: each client that was accepted is watched, waits, is served or is closed.
use high_load_systems.Common.{
  ℕ, suc, ◌+◌, ◌≤◌, ◌≡◌, ◌≢◌, refl, sym, ◌∙◌, inl, inr, true, false, Bool-cases, List, [], ◌∷◌,
  ◌++◌, some, arith, ◌==◌, ==_iff, if◌then◌else◌, get_elem?, set, count, count-append, Option-cases,
  append-nil,
}
use high_load_systems.HttpServer.Server.Events.{
  FdSets, Loop, Round, visit_fd, accept_client, hand_over,
}
use high_load_systems.HttpServer.Server.Events.Watching.{IsFdSets, Watches, visit_fd-Watches}
use high_load_systems.HttpServer.ThreadPool.{has_job, Pool, run_thread}
use high_load_systems.HttpServer.System.{
  Job, job_fd, enqueue_all, Place, selecting, visiting, System, accepted_at, visit_next,
  AnswersFree,
}
use high_load_systems.HttpServer.System.Owners.{one_if, owned, owned-enqueue_all, owned-finish}

module _ {S : Type 0} (fds : FdSets S) (laws : IsFdSets fds)
    (room : (i : ℕ) (s : S) → fds.fd_isset i (fds.fd_set i s) ≡ true) (listen_fd : ℕ) where
  -- 1 for a socket that the event loop watches.
  abbrev pub watched : ℕ → Loop fds → ℕ
  watched k loop = if fds.fd_isset k loop.master_set then 1 else 0

  -- What a round is still to visit is watched.
  abbrev pub StillWatched : Place fds → S → Type 0
  StillWatched selecting master_set = Unit
  StillWatched (visiting round i) master_set =
      (k : ℕ) → i ≤ k → fds.fd_isset k round.read_set ≡ true → fds.fd_isset k master_set ≡ true

  -- The equation for one client.
  abbrev pub Balanced : ℕ → List ℕ → List ℕ → Loop fds → Pool Job → Type 0
  Balanced k accepted_fds closed_fds loop pool =
      (count k accepted_fds ≡ count k closed_fds + (watched k loop + owned k pool))
      × (watched k loop + owned k pool ≤ 1)

  pub record Owned (s : System fds) : Type 0 where
    pub watches : Watches fds laws listen_fd s.loop
    pub balanced : (k : ℕ) → k ≢ listen_fd → Balanced k s.accepted_fds s.closed_fds s.loop s.pool
    pub still : StillWatched s.place s.loop.master_set

  -- A step of a thread that leaves the sockets watched as they are.
  pub thread-Owned :
      (s t : System fds)
      → Owned s
      → t.loop.master_set ≡ s.loop.master_set
      → t.loop.max_fd ≡ s.loop.max_fd
      → t.place ≡ s.place
      → t.accepted_fds ≡ s.accepted_fds
      → ((k : ℕ)
          → (count k t.closed_fds + owned k t.pool ≡ count k s.closed_fds + owned k s.pool)
            × (owned k t.pool ≤ owned k s.pool))
      → Owned t
  thread-Owned s t o master max place accepted moved = record {
    watches = record {
      listens = rw master o.watches.listens;
      bounded = λ j h. rw max (o.watches.bounded j (rw master at h));
    };
    balanced = λ k n.
        rw (master, accepted)
          (let (b, one_place) = o.balanced k n in
            let (m, no_more) = moved k in (omega arith, omega arith));
    still = rw (place, master) o.still;
  }

  pub close_client-owned :
      (i client_fd : ℕ) (job : Job) (s : System fds)
      → job_fd job ≡ client_fd
      → get_elem? s.pool.threads i ≡ some (has_job job)
      → (k : ℕ)
      → (count k (s.closed_fds ++ client_fd ∷ []) + owned k (run_thread i s.pool)
          ≡ count k s.closed_fds + owned k s.pool)
        × (owned k (run_thread i s.pool) ≤ owned k s.pool)
  close_client-owned i client_fd job s same e k =
      let closed = count-append k s.closed_fds (client_fd ∷ []) in
      let left = owned-finish k i s.pool job e in
      let fd : one_if k job ≡ (if k == client_fd then 1 else 0) = rw same refl in
      (omega arith, omega arith)

  set_other : (i k : ℕ) (set : S) → k ≢ i → fds.fd_isset k (fds.fd_set i set) ≡ fds.fd_isset k set
  set_other i k set n = elim (Bool-cases (fds.fd_isset k set)) [
    | inl here ↦ laws.set_keeps i k set here ∙ sym here
    | inr gone ↦ elim (Bool-cases (fds.fd_isset k (fds.fd_set i set))) [
      | inr still ↦ still ∙ sym gone
      | inl now ↦ elim (laws.set_only i k set now) [
        | inl same ↦ absurd (n same)
        | inr old ↦ let bad = sym old ∙ gone in cc
      ]
    ]
  ]

  -- The things that a pass of the loop can do, for one client.
  accept-Balanced :
      (k client_fd : ℕ) (accepted_fds closed_fds : List ℕ) (loop : Loop fds) (pool : Pool Job)
      → count client_fd accepted_fds ≡ count client_fd closed_fds
      → Balanced k accepted_fds closed_fds loop pool
      → Balanced k
          (accepted_fds ++ client_fd ∷ [])
          closed_fds
          (accept_client fds (some client_fd) loop)
          pool
  accept-Balanced k client_fd accepted_fds closed_fds loop pool free (b, one_place) =
      let one_more = count-append k accepted_fds (client_fd ∷ []) in
      elim (Bool-cases (k == client_fd)) [
        | inl same ↦
            let e = (==_iff k client_fd).0 same in
            let now : fds.fd_isset k (fds.fd_set client_fd loop.master_set) ≡ true =
              rw e (room client_fd loop.master_set) in
            let free' : count k accepted_fds ≡ count k closed_fds = rw e free in
            let one : ◌≡◌ {A = ℕ} (if k == client_fd then 1 else 0) 1 = rw same refl in
            rw now (omega arith, omega arith)
        | inr other ↦
            let none_more : ◌≡◌ {A = ℕ} (if k == client_fd then 1 else 0) 0 = rw other refl in
            rw (set_other client_fd k loop.master_set (λ e. ground arith))
              (omega arith, omega arith)
      ]

  hand_over-Balanced :
      (k i : ℕ) (accepted_fds closed_fds : List ℕ) (loop : Loop fds) (pool : Pool Job)
      → fds.fd_isset i loop.master_set ≡ true
      → Balanced k accepted_fds closed_fds loop pool
      → Balanced k accepted_fds closed_fds (hand_over fds i loop) (enqueue_all (i ∷ []) pool)
  hand_over-Balanced k i accepted_fds closed_fds loop pool here (b, one_place) =
      let one_more = owned-enqueue_all k (i ∷ []) pool in
      elim (Bool-cases (k == i)) [
        | inl same ↦
            let e = (==_iff k i).0 same in
            let now : fds.fd_isset k (fds.fd_clr i loop.master_set) ≡ false =
              rw e (laws.clr_own i loop.master_set) in
            let before : fds.fd_isset k loop.master_set ≡ true = rw e here in
            let b' : count k accepted_fds ≡ count k closed_fds + (1 + owned k pool) =
              rw before at b in
            let one' : 1 + owned k pool ≤ 1 = rw before at one_place in
            let one : ◌≡◌ {A = ℕ} (if k == i then 1 else 0) 1 = rw same refl in
            rw now (omega arith, omega arith)
        | inr other ↦
            let none_more : ◌≡◌ {A = ℕ} (if k == i then 1 else 0) 0 = rw other refl in
            rw (laws.clr_other i k loop.master_set (λ e. ground arith)) (omega arith, omega arith)
      ]

  module _ (round : Round fds) (i : ℕ) (s : System fds) (at : s.place ≡ visiting round i)
      (free : AnswersFree fds listen_fd round i s) (o : Owned s) where
    still_here : StillWatched (visiting round i) s.loop.master_set
    still_here = rw at at o.still

    visit_next-Balanced :
        (k : ℕ)
        → k ≢ listen_fd
        → let t = visit_next fds listen_fd round i s in
          Balanced k t.accepted_fds t.closed_fds t.loop t.pool
    unfolding visit_next visit_fd
    visit_next-Balanced k n = elim (Bool-cases (fds.fd_isset i round.read_set)) [
      | inr idle ↦
          rw (visit_next, visit_fd, accepted_at, idle, append-nil s.accepted_fds) (o.balanced k n)
      | inl ready ↦ elim (Bool-cases (i == listen_fd)) [
        | inr client ↦
            rw (visit_next, visit_fd, accepted_at, ready, client, append-nil s.accepted_fds)
              (hand_over-Balanced k i s.accepted_fds s.closed_fds s.loop s.pool
                (still_here i (omega arith) ready) (o.balanced k n))
        | inl own ↦ elim (Option-cases round.accept_answer) [
          | inl failed ↦
              rw (visit_next, visit_fd, accepted_at, ready, own, failed, append-nil s.accepted_fds)
                (o.balanced k n)
          | inr (client_fd, e) ↦
              rw (visit_next, visit_fd, accepted_at, ready, own, e)
                (accept-Balanced k client_fd s.accepted_fds s.closed_fds s.loop s.pool
                  (free ((==_iff i listen_fd).0 own) client_fd e).1 (o.balanced k n))
        ]
      ]
    ]

    visit_next-still :
        (k : ℕ)
        → suc i ≤ k
        → fds.fd_isset k round.read_set ≡ true
        → fds.fd_isset k (visit_next fds listen_fd round i s).loop.master_set ≡ true
    unfolding visit_next visit_fd
    visit_next-still k le waits = elim (Bool-cases (fds.fd_isset i round.read_set)) [
      | inr idle ↦ rw (visit_next, visit_fd, idle) (still_here k (omega arith) waits)
      | inl ready ↦ elim (Bool-cases (i == listen_fd)) [
        | inr client ↦
            rw (visit_next, visit_fd, ready, client)
              (laws.clr_other i k s.loop.master_set (λ e. omega arith)
                ∙ still_here k (omega arith) waits)
        | inl own ↦ elim (Option-cases round.accept_answer) [
          | inl failed ↦
              rw (visit_next, visit_fd, ready, own, failed) (still_here k (omega arith) waits)
          | inr (client_fd, e) ↦
              rw (visit_next, visit_fd, ready, own, e)
                (laws.set_keeps client_fd k s.loop.master_set (still_here k (omega arith) waits))
        ]
      ]
    ]

    pub visit_next-Owned : Owned (visit_next fds listen_fd round i s)
    unfolding visit_next
    visit_next-Owned = record {
      watches =
          visit_fd-Watches fds laws listen_fd round i (record s.loop { queued = [] })
            (record { listens = o.watches.listens; bounded = o.watches.bounded });
      balanced = visit_next-Balanced;
      still = visit_next-still;
    }
