-- ===== src/HttpServer/Server/Events/Watching.antt =====
-- server.cpp, `Server::event_loop`: the sockets watched, and the bound of the loop over the numbers.
use high_load_systems.Common.{
  ℕ, ◌≤◌, ◌<◌, ◌≡◌, ◌≢◌, ◌⊎◌, ◌∙◌, sym, inl, inr, true, false, Bool-cases, Option, none, some,
  arith, ◌==◌, ==_iff,
}
use high_load_systems.HttpServer.Server.Events.{
  FdSets, Loop, Round, accept_client, hand_over, visit_fd,
}

-- What the loop relies on. A set that is full ignores what is put in, hence `set_keeps` and
-- `set_only` in place of an equation.
pub record IsFdSets {S : Type 0} (fds : FdSets S) : Type 0 where
  pub zero_empty : (i : ℕ) → fds.fd_isset i fds.fd_zero ≡ false
  pub set_first : (i : ℕ) → fds.fd_isset i (fds.fd_set i fds.fd_zero) ≡ true
  pub set_keeps :
      (i j : ℕ) (s : S) → fds.fd_isset j s ≡ true → fds.fd_isset j (fds.fd_set i s) ≡ true
  pub set_only :
      (i j : ℕ) (s : S)
      → fds.fd_isset j (fds.fd_set i s) ≡ true
      → (j ≡ i) ⊎ (fds.fd_isset j s ≡ true)
  pub clr_other : (i j : ℕ) (s : S) → j ≢ i → fds.fd_isset j (fds.fd_clr i s) ≡ fds.fd_isset j s
  pub clr_own : (i : ℕ) (s : S) → fds.fd_isset i (fds.fd_clr i s) ≡ false

-- The bound that an answer of accept brings.
abbrev pub accept_bound : Option ℕ → ℕ
accept_bound none = 0
accept_bound (some client_fd) = client_fd

module _ {S : Type 0} (fds : FdSets S) (laws : IsFdSets fds) (listen_fd : ℕ) where
  -- The listening socket is watched, and `max_fd` is no less than any socket watched.
  pub record Watches (s : Loop fds) : Type 0 where
    pub listens : fds.fd_isset listen_fd s.master_set ≡ true
    pub bounded : (j : ℕ) → fds.fd_isset j s.master_set ≡ true → j ≤ s.max_fd

  accept_client-Watches :
      (answer : Option ℕ) (s : Loop fds) → Watches s → Watches (accept_client fds answer s)
  accept_client-Watches none s w = w
  accept_client-Watches (some client_fd) s w = record {
    listens = laws.set_keeps client_fd listen_fd s.master_set w.listens;
    bounded = λ j h. elim (laws.set_only client_fd j s.master_set h) [
      | inl same ↦ ground arith
      | inr old ↦ let below = w.bounded j old in ground arith
    ];
  }

  hand_over-Watches :
      (i : ℕ) (s : Loop fds) → i ≢ listen_fd → Watches s → Watches (hand_over fds i s)
  hand_over-Watches i s n w = record {
    listens = laws.clr_other i listen_fd s.master_set (λ e. n (sym e)) ∙ w.listens;
    bounded = λ j h. elim (Bool-cases (j == i)) [
      | inl same ↦
          let here : fds.fd_isset i (fds.fd_clr i s.master_set) ≡ true =
            rw ((==_iff j i).0 same) at h in
          let bad = sym here ∙ laws.clr_own i s.master_set in cc
      | inr other ↦ w.bounded j (sym (laws.clr_other i j s.master_set (λ e. ground arith)) ∙ h)
    ];
  }

  pub visit_fd-Watches :
      (round : Round fds) (i : ℕ) (s : Loop fds)
      → Watches s
      → Watches (visit_fd fds listen_fd round i s)
  unfolding visit_fd
  visit_fd-Watches round i s w = elim (Bool-cases (fds.fd_isset i round.read_set)) [
    | inr idle ↦ rw (visit_fd, idle) w
    | inl ready ↦ elim (Bool-cases (i == listen_fd)) [
      | inl own ↦ rw (visit_fd, ready, own) (accept_client-Watches round.accept_answer s w)
      | inr client ↦ rw (visit_fd, ready, client) (hand_over-Watches i s (λ e. ground arith) w)
    ]
  ]

  accept_client-max :
      (answer : Option ℕ) (s : Loop fds) (n : ℕ)
      → s.max_fd < n
      → accept_bound answer < n
      → (s.max_fd ≤ (accept_client fds answer s).max_fd) × ((accept_client fds answer s).max_fd < n)
  accept_client-max none s n h h' = (omega arith, h)
  accept_client-max (some client_fd) s n h h' = ground arith

  pub visit_fd-max :
      (round : Round fds) (i : ℕ) (s : Loop fds) (n : ℕ)
      → s.max_fd < n
      → accept_bound round.accept_answer < n
      → (s.max_fd ≤ (visit_fd fds listen_fd round i s).max_fd)
        × ((visit_fd fds listen_fd round i s).max_fd < n)
  unfolding visit_fd
  visit_fd-max round i s n h h' = elim (Bool-cases (fds.fd_isset i round.read_set)) [
    | inr idle ↦ rw (visit_fd, idle) (omega arith, h)
    | inl ready ↦ elim (Bool-cases (i == listen_fd)) [
      | inl own ↦ rw (visit_fd, ready, own) (accept_client-max round.accept_answer s n h h')
      | inr client ↦ rw (visit_fd, ready, client) (omega arith, h)
    ]
  ]
