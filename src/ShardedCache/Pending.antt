-- ===== src/ShardedCache/Pending.antt =====
-- cache.h: what the tasks that wait in a shard will do to its map and to the promises.
use high_load_systems.Common.{
  ℕ, ◌≡◌, refl, ◌⊎◌, inl, inr, Bool, true, false, List, [], ◌∷◌, ◌++◌, Option, some, set, Key, find,
  insert, erase,
}
use high_load_systems.ShardedCache.{
  Task, set_task, remove_task, get_task, Worker, at_test, at_lock, entering_wait, blocked, has_task,
  returned, Shard, worker_step, push_task, woken, notified,
}

module _ {K V : Type 0} ⦃key : Key K⦄ where
  -- The tasks still to run, the one that the worker holds first.
  abbrev pub pending : Shard K V → List (Task K V)
  pending s = elim s.worker [ has_task t ↦ t ∷ s.tasks | _ ↦ s.tasks ]

  -- The map after the tasks.
  unfoldable pub settle : List (Task K V) → List (K × V) → List (K × V)
  settle [] m = m
  settle (set_task k v ∷ ts) m = settle ts (insert k v m)
  settle (remove_task k ∷ ts) m = settle ts (erase k m)
  settle (get_task k p ∷ ts) m = settle ts m

  -- The promises that the tasks will set, and to what.
  unfoldable pub answers : List (Task K V) → List (K × V) → List (ℕ × Option V)
  answers [] m = []
  answers (set_task k v ∷ ts) m = answers ts (insert k v m)
  answers (remove_task k ∷ ts) m = answers ts (erase k m)
  answers (get_task k p ∷ ts) m = (p, find k m) ∷ answers ts m

  -- The map of a shard once its tasks have run.
  abbrev pub settled : Shard K V → List (K × V)
  settled s = settle (pending s) s.storage

  abbrev pub replies : Shard K V → List (ℕ × Option V)
  replies s = answers (pending s) s.storage

  settle-append :
      (ts us : List (Task K V)) (m : List (K × V)) → settle (ts ++ us) m ≡ settle us (settle ts m)
  unfolding settle
  settle-append [] us m = refl
  settle-append (set_task k v ∷ ts) us m = settle-append ts us (insert k v m)
  settle-append (remove_task k ∷ ts) us m = settle-append ts us (erase k m)
  settle-append (get_task k p ∷ ts) us m = settle-append ts us m

  answers-append :
      (ts us : List (Task K V)) (m : List (K × V))
      → answers (ts ++ us) m ≡ answers ts m ++ answers us (settle ts m)
  unfolding settle answers
  answers-append [] us m = refl
  answers-append (set_task k v ∷ ts) us m = answers-append ts us (insert k v m)
  answers-append (remove_task k ∷ ts) us m = answers-append ts us (erase k m)
  answers-append (get_task k p ∷ ts) us m = rw (answers-append ts us m) refl

  pending-push_task : (t : Task K V) (s : Shard K V) → pending (push_task t s) ≡ pending s ++ t ∷ []
  pending-push_task t s =
      elim s.worker
        as (λ w.
          pending (record s { tasks = s.tasks ++ t ∷ []; worker = notified w })
          ≡ pending (record s { worker = w }) ++ t ∷ []) [
            | at_test ↦ refl
            | at_lock ↦ refl
            | entering_wait ↦ refl
            | blocked ↦ refl
            | has_task u ↦ refl
            | returned ↦ refl
          ]

  -- A worker that wakes has the same tasks before it.
  pub pending-woken :
      (s : Shard K V) (stop : Bool)
      → pending (record s { stop = stop; worker = woken s.worker }) ≡ pending s
  pending-woken s stop =
      elim s.worker
        as (λ w.
          pending (record s { stop = stop; worker = woken w })
          ≡ pending (record s { worker = w })) [
            | at_test ↦ refl
            | at_lock ↦ refl
            | entering_wait ↦ refl
            | blocked ↦ refl
            | has_task u ↦ refl
            | returned ↦ refl
          ]

  pub settled-push_task :
      (t : Task K V) (s : Shard K V) → settled (push_task t s) ≡ settle (t ∷ []) (settled s)
  settled-push_task t s = rw (pending-push_task t s) (settle-append (pending s) (t ∷ []) s.storage)

  pub replies-push_task :
      (t : Task K V) (s : Shard K V)
      → replies (push_task t s) ≡ replies s ++ answers (t ∷ []) (settled s)
  replies-push_task t s = rw (pending-push_task t s) (answers-append (pending s) (t ∷ []) s.storage)

  -- What a step of a worker leaves: the same map once all tasks have run, and of the replies all but
  -- the one that it gives.
  abbrev pub HasWorked :
      Shard K V × List (Option (Option V)) → Shard K V × List (Option (Option V)) → Type 0
  HasWorked (s, promises) (s', promises') =
      (settled s' ≡ settled s)
      × (((promises' ≡ promises) × (replies s' ≡ replies s))
          ⊎ ((p : ℕ) × (r : Option V) × (promises' ≡ set promises p (some r))
              × (replies s ≡ (p, r) ∷ replies s')))

  worker_step_by_fields :
      (storage : List (K × V)) (tasks : List (Task K V)) (stop : Bool) (worker : Worker K V)
      → (promises : List (Option (Option V)))
      → let s : Shard K V = record {
        storage = storage;
        tasks = tasks;
        stop = stop;
        worker = worker;
      } in
        HasWorked (s, promises) (worker_step (s, promises))
  unfolding worker_step settle answers
  worker_step_by_fields storage tasks true at_test promises = (refl, inl (refl, refl))
  worker_step_by_fields storage tasks false at_test promises = (refl, inl (refl, refl))
  worker_step_by_fields storage [] true at_lock promises = (refl, inl (refl, refl))
  worker_step_by_fields storage [] false at_lock promises = (refl, inl (refl, refl))
  worker_step_by_fields storage (t ∷ tasks) stop at_lock promises = (refl, inl (refl, refl))
  worker_step_by_fields storage tasks stop (has_task (set_task k v)) promises =
      (refl, inl (refl, refl))
  worker_step_by_fields storage tasks stop (has_task (remove_task k)) promises =
      (refl, inl (refl, refl))
  worker_step_by_fields storage tasks stop (has_task (get_task k p)) promises =
      (refl, inr (p, find k storage, refl, refl))
  worker_step_by_fields storage tasks stop entering_wait promises = (refl, inl (refl, refl))
  worker_step_by_fields storage tasks stop blocked promises = (refl, inl (refl, refl))
  worker_step_by_fields storage tasks stop returned promises = (refl, inl (refl, refl))

  pub worker_step-HasWorked :
      (s : Shard K V) (promises : List (Option (Option V)))
      → HasWorked (s, promises) (worker_step (s, promises))
  worker_step-HasWorked s = worker_step_by_fields s.storage s.tasks s.stop s.worker
