-- ===== src/HttpServer/Server/Events/Scanning.antt =====
-- server.cpp, `Server::event_loop`: the loop over the numbers ends, and what it has done then.
use high_load_systems.Common.{
  count, ℕ, zero, suc, ◌+◌, ◌≤◌, ◌<◌, ◌≡◌, ◌≢◌, ◌∙◌, refl, inl, inr, true, false, Bool-cases, some,
  arith, leb, leb→le, ◌==◌,
}
use high_load_systems.HttpServer.Server.Events.{FdSets, Loop, Round, visit_fd, scan}
use high_load_systems.HttpServer.Server.Events.Watching.{
  IsFdSets, Watches, accept_bound, visit_fd-Watches, visit_fd-max,
}
use high_load_systems.HttpServer.Server.Events.Queueing.{
  due, none_due, visit_fd-due, visit_fd-stays, cleared, still_due,
}

module _ {S : Type 0} (fds : FdSets S) (laws : IsFdSets fds) (listen_fd : ℕ) where
  -- Where the loop over `i` ends.
  pub record Scanned (round : Round fds) (i : ℕ) (s t : Loop fds) : Type 0 where
    pub watches : Watches fds laws listen_fd t
    pub grows : s.max_fd ≤ t.max_fd
    pub counts :
        ((k : ℕ) → fds.fd_isset k round.read_set ≡ true → k ≤ s.max_fd)
        → (k : ℕ) → count k t.queued ≡ count k s.queued + due fds laws listen_fd round i k
    pub stays :
        (k : ℕ)
        → round.accept_answer ≢ some k
        → fds.fd_isset k s.master_set ≡ false
        → fds.fd_isset k t.master_set ≡ false
    pub clears :
        ((k : ℕ) → fds.fd_isset k round.read_set ≡ true → k ≤ s.max_fd)
        → (k : ℕ) → due fds laws listen_fd round i k ≡ 1
        → round.accept_answer ≢ some k
        → fds.fd_isset k t.master_set ≡ false

  pub scan-Scanned :
      (fuel : ℕ) (round : Round fds) (i : ℕ) (s : Loop fds)
      → i ≤ suc s.max_fd
      → suc s.max_fd < i + fuel
      → suc (accept_bound round.accept_answer) < i + fuel
      → Watches fds laws listen_fd s
      → (t : Loop fds) × (scan fds fuel listen_fd round i s ≡ some t) × Scanned round i s t
  unfolding scan
  scan-Scanned zero round i s at_most h h' w = absurd (omega arith)
  scan-Scanned (suc fuel) round i s at_most h h' w = elim (Bool-cases (leb i s.max_fd)) [
    | inr done ↦ (
      s,
      rw (scan, done) refl,
      record {
        watches = w;
        grows = omega arith;
        counts =
            λ within k. rw (none_due fds laws listen_fd round i s k done (within k)) (omega arith);
        stays = λ k n off. off;
        clears = λ within k is_due n.
            let not_due = none_due fds laws listen_fd round i s k done (within k) in
            absurd (omega arith);
      },
    )
    | inl more ↦
        let s' = visit_fd fds listen_fd round i s in
        let (grows, below) =
          visit_fd-max fds laws listen_fd round i s (i + fuel) (omega arith) (omega arith) in
        let (t, e, r) =
          scan-Scanned fuel round (suc i) s' (let le = leb→le i s.max_fd more in omega arith)
            (omega arith) (omega arith) (visit_fd-Watches fds laws listen_fd round i s w) in
        (
          t,
          rw (scan, more) e,
          record {
            watches = r.watches;
            grows = let g = r.grows in omega arith;
            counts = λ within k.
                r.counts (λ j ready. let b = within j ready in omega arith) k
                ∙ visit_fd-due fds laws listen_fd round i s k;
            stays = λ k n off. r.stays k n (visit_fd-stays fds laws listen_fd round i s k n off);
            clears = λ within k is_due n. elim (Bool-cases (k == i)) [
              | inl same ↦ r.stays k n (cleared fds laws listen_fd round i s k same is_due)
              | inr other ↦
                  r.clears (λ j ready. let b = within j ready in omega arith) k
                    (still_due fds laws listen_fd round i k other is_due) n
            ];
          },
        )
  ]
