-- ===== src/HttpServer/Server/Events/Queueing.antt =====
-- server.cpp, `Server::event_loop`: which clients a round hands to the pool and no longer watches.
use high_load_systems.Common.{
  count, count-append, ℕ, suc, ◌+◌, ◌≤◌, ◌≡◌, ◌≢◌, ◌∙◌, sym, ap, refl, inl, inr, true, false,
  Bool-cases, List, [], ◌∷◌, ◌++◌, Option, none, some, arith, leb, ◌==◌, ==_iff, same_index,
  if◌then◌else◌,
}
use high_load_systems.HttpServer.Server.Events.{FdSets, Loop, Round, accept_client, visit_fd}
use high_load_systems.HttpServer.Server.Events.Watching.{IsFdSets}

count-append_last :
    (k i : ℕ) (xs : List ℕ) → count k (xs ++ i ∷ []) ≡ count k xs + (if k == i then 1 else 0)
count-append_last k i xs = count-append k xs (i ∷ []) ∙ omega arith

module _ {S : Type 0} (fds : FdSets S) (laws : IsFdSets fds) (listen_fd : ℕ) where
  -- 1 for a client that select reports, 0 for any other number.
  abbrev pub ready_client : Round fds → ℕ → ℕ
  ready_client round k =
      if fds.fd_isset k round.read_set then (if k == listen_fd then 0 else 1) else 0

  accept_client-queued :
      (answer : Option ℕ) (s : Loop fds) → (accept_client fds answer s).queued ≡ s.queued
  accept_client-queued none s = refl
  accept_client-queued (some client_fd) s = refl

  queued_other :
      (round : Round fds) (i : ℕ) (s : Loop fds) (k : ℕ)
      → (k == i) ≡ false
      → count k (visit_fd fds listen_fd round i s).queued ≡ count k s.queued
  unfolding visit_fd
  queued_other round i s k n = elim (Bool-cases (fds.fd_isset i round.read_set)) [
    | inr idle ↦ rw (visit_fd, idle) refl
    | inl ready ↦ elim (Bool-cases (i == listen_fd)) [
      | inl own ↦
          rw (visit_fd, ready, own) (ap (count k) (accept_client-queued round.accept_answer s))
      | inr client ↦
          rw (visit_fd, ready, client) (count-append_last k i s.queued ∙ rw n (omega arith))
    ]
  ]

  queued_self :
      (round : Round fds) (i : ℕ) (s : Loop fds)
      → count i (visit_fd fds listen_fd round i s).queued ≡ count i s.queued + ready_client round i
  unfolding visit_fd
  queued_self round i s = elim (Bool-cases (fds.fd_isset i round.read_set)) [
    | inr idle ↦ rw (visit_fd, idle) (omega arith)
    | inl ready ↦ elim (Bool-cases (i == listen_fd)) [
      | inl own ↦
          rw (visit_fd, ready, own)
            (ap (count i) (accept_client-queued round.accept_answer s) ∙ omega arith)
      | inr client ↦
          rw (visit_fd, ready, client) (count-append_last i i s.queued ∙ rw (same_index i) refl)
    ]
  ]

  -- What is still to be queued from `i` on.
  abbrev pub due : Round fds → ℕ → ℕ → ℕ
  due round i k = if leb i k then ready_client round k else 0

  pub visit_fd-due :
      (round : Round fds) (i : ℕ) (s : Loop fds) (k : ℕ)
      → count k (visit_fd fds listen_fd round i s).queued + due round (suc i) k
        ≡ count k s.queued + due round i k
  visit_fd-due round i s k = elim (Bool-cases (k == i)) [
    | inr other ↦ let same_count = queued_other round i s k other in ground arith
    | inl same ↦
        let one = queued_self round i s in
        let e : i ≡ k = sym ((==_iff k i).0 same) in
        let one' : count k (visit_fd fds listen_fd round i s).queued
            ≡ count k s.queued + ready_client round k =
          rw ((==_iff k i).0 same) one in
        ground arith
  ]

  pub none_due :
      (round : Round fds) (i : ℕ) (s : Loop fds) (k : ℕ)
      → (leb i s.max_fd) ≡ false
      → (fds.fd_isset k round.read_set ≡ true → k ≤ s.max_fd)
      → due round i k ≡ 0
  none_due round i s k done within = elim (Bool-cases (fds.fd_isset k round.read_set)) [
    | inr idle ↦ rw idle (ground arith)
    | inl ready ↦
        let below = within ready in let past : leb i k ≡ false = ground arith in rw past refl
  ]

  accept_client-stays :
      (answer : Option ℕ) (s : Loop fds) (k : ℕ)
      → answer ≢ some k
      → fds.fd_isset k s.master_set ≡ false
      → fds.fd_isset k (accept_client fds answer s).master_set ≡ false
  accept_client-stays none s k n off = off
  accept_client-stays (some client_fd) s k n off =
      elim (Bool-cases (fds.fd_isset k (fds.fd_set client_fd s.master_set))) [
        | inr still ↦ still
        | inl now ↦ elim (laws.set_only client_fd k s.master_set now) [
          | inl same ↦ absurd (n (ap some (sym same)))
          | inr old ↦ let bad = sym old ∙ off in cc
        ]
      ]

  -- A socket that is not watched stays so, unless accept answers it.
  pub visit_fd-stays :
      (round : Round fds) (i : ℕ) (s : Loop fds) (k : ℕ)
      → round.accept_answer ≢ some k
      → fds.fd_isset k s.master_set ≡ false
      → fds.fd_isset k (visit_fd fds listen_fd round i s).master_set ≡ false
  unfolding visit_fd
  visit_fd-stays round i s k n off = elim (Bool-cases (fds.fd_isset i round.read_set)) [
    | inr idle ↦ rw (visit_fd, idle) off
    | inl ready ↦ elim (Bool-cases (i == listen_fd)) [
      | inl own ↦ rw (visit_fd, ready, own) (accept_client-stays round.accept_answer s k n off)
      | inr client ↦
          rw (visit_fd, ready, client)
            (elim (Bool-cases (k == i)) [
              | inl same ↦ rw ((==_iff k i).0 same) (laws.clr_own i s.master_set)
              | inr other ↦ laws.clr_other i k s.master_set (λ e. ground arith) ∙ off
            ])
    ]
  ]

  visit_fd-clears :
      (round : Round fds) (i : ℕ) (s : Loop fds)
      → ready_client round i ≡ 1
      → fds.fd_isset i (visit_fd fds listen_fd round i s).master_set ≡ false
  unfolding visit_fd
  visit_fd-clears round i s h = elim (Bool-cases (fds.fd_isset i round.read_set)) [
    | inr idle ↦ let bad = rw (ready_client, idle) at h in absurd (omega arith)
    | inl ready ↦ elim (Bool-cases (i == listen_fd)) [
      | inl own ↦ let bad = rw (ready_client, ready, own) at h in absurd (omega arith)
      | inr client ↦ rw (visit_fd, ready, client) (laws.clr_own i s.master_set)
    ]
  ]

  pub cleared :
      (round : Round fds) (i : ℕ) (s : Loop fds) (k : ℕ)
      → (k == i) ≡ true
      → due round i k ≡ 1
      → fds.fd_isset k (visit_fd fds listen_fd round i s).master_set ≡ false
  cleared round i s k same is_due =
      let e = (==_iff k i).0 same in
      rw e (visit_fd-clears round i s (let one = rw e at is_due in ground arith))

  pub still_due :
      (round : Round fds) (i k : ℕ) → (k == i) ≡ false → due round i k ≡ 1 → due round (suc i) k ≡ 1
  still_due round i k other is_due = ground arith
