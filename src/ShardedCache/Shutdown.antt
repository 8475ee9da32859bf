-- ===== src/ShardedCache/Shutdown.antt =====
-- cache.h: a worker left alone empties its queue; a shard that is being destroyed does not.
use high_load_systems.Common.{
  ℕ, zero, suc, ◌+◌, ◌*◌, ◌≤◌, ◌≡◌, refl, Bool, true, false, List, [], ◌∷◌, Option, some, length,
  set, Key, find, insert, erase, arith, if◌then◌else◌,
}
use high_load_systems.ShardedCache.{
  Task, set_task, remove_task, get_task, Worker, at_test, at_lock, entering_wait, blocked, has_task,
  returned, Shard, worker_step, request_stop,
}
use high_load_systems.ShardedCache.Pending.{settle, answers}

three : (n : ℕ) → 3 * suc n + 1 ≡ suc (suc (suc (3 * n + 1)))
three n = omega arith

-- `set_value` of each reply in turn.
abbrev pub give :
    {V : Type 0} → List (ℕ × Option V) → List (Option (Option V)) → List (Option (Option V))
give [] promises = promises
give ((p, r) ∷ rest) promises = give rest (set promises p (some r))

module _ {K V : Type 0} ⦃key : Key K⦄ where
  -- So many steps of the worker of one shard.
  abbrev pub run_worker :
      ℕ → Shard K V × List (Option (Option V)) → Shard K V × List (Option (Option V))
  run_worker zero x = x
  run_worker (suc n) x = run_worker n (worker_step x)

  -- A worker at its loop test in a shard that is not being destroyed reaches the lock with an
  -- empty queue after three steps for each task and one more, the map is what the tasks make of
  -- it in order, and each queued get has set its promise.
  pub run_worker-drains :
      (storage : List (K × V)) (tasks : List (Task K V)) (promises : List (Option (Option V)))
      → run_worker
          (3 * length tasks + 1)
          (record { storage = storage; tasks = tasks; stop = false; worker = at_test }, promises)
        ≡ (
          record { storage = settle tasks storage; tasks = []; stop = false; worker = at_lock },
          give (answers tasks storage) promises,
        )
  unfolding worker_step settle answers
  run_worker-drains storage [] promises = refl
  run_worker-drains storage (set_task k v ∷ tasks) promises =
      rw (three (length tasks)) (run_worker-drains (insert k v storage) tasks promises)
  run_worker-drains storage (remove_task k ∷ tasks) promises =
      rw (three (length tasks)) (run_worker-drains (erase k storage) tasks promises)
  run_worker-drains storage (get_task k p ∷ tasks) promises =
      rw (three (length tasks))
        (run_worker-drains storage tasks (set promises p (some (find k storage))))

  -- What becomes of the worker: blocked, if it had found the queue empty and was about to wait.
  abbrev pub after_stop : Worker K V → Worker K V
  after_stop entering_wait = blocked
  after_stop _ = returned

  still :
      (n count : ℕ) (storage : List (K × V)) (tasks : List (Task K V)) (stop done : Bool)
      (promises : List (Option (Option V)))
      → count ≤ length tasks + 1
      → let final : Worker K V = if done then returned else blocked in
        let s : Shard K V = record {
          storage = storage;
          tasks = tasks;
          stop = stop;
          worker = final;
        } in
        let s' = (run_worker n (s, promises)).0 in
        (s'.worker ≡ final) × (count ≤ length s'.tasks + 1)
  unfolding worker_step
  still zero count storage tasks stop done promises h = (refl, h)
  still (suc n) count storage tasks stop true promises h =
      still n count storage tasks stop true promises h
  still (suc n) count storage tasks stop false promises h =
      still n count storage tasks stop false promises h

  -- Once the destructor has asked to stop, three or more steps of the worker make it return,
  -- unless it had just found the queue empty and was about to block: then it is blocked after
  -- any number of its own steps; and all but at most one of the queued tasks are still in the
  -- queue.
  pub stop-drops :
      (n : ℕ) (storage : List (K × V)) (tasks : List (Task K V)) (stop : Bool) (worker : Worker K V)
      (promises : List (Option (Option V)))
      → let s : Shard K V = record {
        storage = storage;
        tasks = tasks;
        stop = stop;
        worker = worker;
      } in
        let s' = (run_worker n (run_worker 3 (request_stop s, promises))).0 in
        (s'.worker ≡ after_stop worker) × (length tasks ≤ length s'.tasks + 1)
  unfolding worker_step
  stop-drops n storage tasks stop at_test promises = still n _ _ _ _ true _ (omega arith)
  stop-drops n storage [] stop at_lock promises = still n _ _ _ _ true _ (omega arith)
  stop-drops n storage (set_task k v ∷ tasks) stop at_lock promises =
      still n _ _ _ _ true _ (omega arith)
  stop-drops n storage (remove_task k ∷ tasks) stop at_lock promises =
      still n _ _ _ _ true _ (omega arith)
  stop-drops n storage (get_task k p ∷ tasks) stop at_lock promises =
      still n _ _ _ _ true _ (omega arith)
  stop-drops n storage tasks stop entering_wait promises = still n _ _ _ _ false _ (omega arith)
  stop-drops n storage [] stop blocked promises = still n _ _ _ _ true _ (omega arith)
  stop-drops n storage (set_task k v ∷ tasks) stop blocked promises =
      still n _ _ _ _ true _ (omega arith)
  stop-drops n storage (remove_task k ∷ tasks) stop blocked promises =
      still n _ _ _ _ true _ (omega arith)
  stop-drops n storage (get_task k p ∷ tasks) stop blocked promises =
      still n _ _ _ _ true _ (omega arith)
  stop-drops n storage tasks stop (has_task (set_task k v)) promises =
      still n _ _ _ _ true _ (omega arith)
  stop-drops n storage tasks stop (has_task (remove_task k)) promises =
      still n _ _ _ _ true _ (omega arith)
  stop-drops n storage tasks stop (has_task (get_task k p)) promises =
      still n _ _ _ _ true _ (omega arith)
  stop-drops n storage tasks stop returned promises = still n _ _ _ _ true _ (omega arith)
