-- ===== src/ShardedCache.antt =====
-- cache/cache.h: a map split over shards, each with its queue of tasks and its worker thread.
-- A lock's critical section is one step, but for that of the worker, whose test of the queue and
-- blocking are two, since the destructor does not take the lock; std::hash is a parameter.
pub mod Pending
pub mod Refines
pub mod Linearizable
pub mod Promises
pub mod Shutdown
use mathlib.Core.Option
use high_load_systems.Common.{
  ℕ, ◌%◌, Bool, true, false, List, [], ◌∷◌, ◌++◌, Option, none, some, length, get_elem?, set,
  replicate, if◌then◌else◌, Key, find, insert, erase,
}

module _ (K V : Type 0) where
  -- What the closures of `Cache` do; a promise is its index in the list of promises.
  pub data Task : Type 0 where
    set_task : K → V → Task
    remove_task : K → Task
    get_task : K → ℕ → Task

  -- Where a worker thread is in `worker_loop`: at the test of `while`; at the test of the predicate of
  -- `tasks_cv.wait`, which takes the lock; past that test, with the lock, about to block; blocked;
  -- with a task that it has taken; or returned.
  pub data Worker : Type 0 where
    at_test at_lock entering_wait blocked : Worker
    has_task : Task → Worker
    returned : Worker

  pub record Shard : Type 0 where
    pub storage : List (K × V)
    pub tasks : List Task
    pub stop : Bool
    pub worker : Worker

  -- A promise holds a value once `set_value` ran.
  pub record Cache : Type 0 where
    pub shards : List Shard
    pub promises : List (Option (Option V))

module _ {K V : Type 0} ⦃key : Key K⦄ where
  -- `Shard::get`, `Shard::set`, `Shard::remove` and `Shard::push_task`
  abbrev pub shard_get : Shard K V → K → Option V
  shard_get s k = find k s.storage

  abbrev pub shard_set : K → V → Shard K V → Shard K V
  shard_set k v s = record s { storage = insert k v s.storage }

  abbrev pub shard_remove : K → Shard K V → Shard K V
  shard_remove k s = record s { storage = erase k s.storage }

  -- A worker that is blocked tests the predicate again once it is notified.
  abbrev pub woken : Worker K V → Worker K V
  woken blocked = at_lock
  woken w = w

  -- The lock of `push_task` is free only once a worker past its test has blocked, so that
  -- `notify_one` reaches this worker too.
  abbrev pub notified : Worker K V → Worker K V
  notified entering_wait = at_lock
  notified w = woken w

  abbrev pub push_task : Task K V → Shard K V → Shard K V
  push_task t s = record s { tasks = s.tasks ++ t ∷ []; worker = notified s.worker }

  -- `task();` on the shard whose queue held it: the index that the closure captured is this shard's.
  abbrev pub run_task :
      Task K V → Shard K V × List (Option (Option V)) → Shard K V × List (Option (Option V))
  run_task (set_task k v) (s, promises) = (shard_set k v s, promises)
  run_task (remove_task k) (s, promises) = (shard_remove k s, promises)
  run_task (get_task k p) (s, promises) = (s, set promises p (some (shard_get s k)))

  abbrev pub at_worker : Worker K V → Shard K V → Shard K V
  at_worker w s = record s { worker = w }

  -- One step of `worker_loop`. A worker that finds neither a task nor `stop` blocks in its next step,
  -- without another test of `stop`, and then waits for a notification.
  unfoldable pub worker_step :
      Shard K V × List (Option (Option V)) → Shard K V × List (Option (Option V))
  worker_step (s, promises) = elim s.worker [
    | at_test ↦ (if s.stop then at_worker returned s else at_worker at_lock s, promises)
    | at_lock ↦ elim s.tasks [
      | [] ↦ (if s.stop then at_worker returned s else at_worker entering_wait s, promises)
      | t ∷ tasks ↦ (record s { tasks = tasks; worker = has_task t }, promises)
    ]
    | entering_wait ↦ (at_worker blocked s, promises)
    | blocked ↦ (s, promises)
    | has_task t ↦ run_task t (at_worker at_test s, promises)
    | returned ↦ (s, promises)
  ]

  -- The part of `~Shard` before `join`, which takes no lock: a worker past its test is not reached by
  -- `notify_all` and does not look at `stop` again before it blocks.
  abbrev pub request_stop : Shard K V → Shard K V
  request_stop s = record s { stop = true; worker = woken s.worker }

  -- A wake-up without a notification.
  abbrev pub wake_up : Shard K V → Shard K V
  wake_up s = at_worker (woken s.worker) s

  abbrev pub new_shard : Shard K V
  new_shard = record { storage = []; tasks = []; stop = false; worker = at_test }

  -- `Cache(shard_count)`
  abbrev pub new_cache : ℕ → Cache K V
  new_cache shard_count = record { shards = replicate shard_count new_shard; promises = [] }

  -- `shards[i]`, rewritten in place.
  abbrev pub update : ℕ → (Shard K V → Shard K V) → List (Shard K V) → List (Shard K V)
  update i f shards = elim (get_elem? shards i) [ none ↦ shards | some s ↦ set shards i (f s) ]

  -- The step of the worker of shard `i`.
  unfoldable pub work : ℕ → Cache K V → Cache K V
  unfolding worker_step
  work i c = elim (get_elem? c.shards i) [
    | none ↦ c
    | some s ↦
        let (s', promises) = worker_step (s, c.promises) in
        record { shards = set c.shards i s'; promises = promises }
  ]

  module _ (hash : K → ℕ) where
    -- `getId`
    abbrev pub get_id : Cache K V → K → ℕ
    get_id c k = hash k % length c.shards

    unfoldable pub get_sync : Cache K V → K → Option (Option V)
    get_sync c k = Option.map (λ s. shard_get s k) (get_elem? c.shards (get_id c k))

    -- The new cache, and the promise whose future is returned.
    unfoldable pub get_async : K → Cache K V → Cache K V × ℕ
    get_async k c =
        let p = length c.promises in
        (
          record {
            shards = update (get_id c k) (push_task (get_task k p)) c.shards;
            promises = c.promises ++ none ∷ [];
          },
          p,
        )

    unfoldable pub set_async : K → V → Cache K V → Cache K V
    set_async k v c = record c { shards = update (get_id c k) (push_task (set_task k v)) c.shards }

    unfoldable pub remove_async : K → Cache K V → Cache K V
    remove_async k c = record c {
      shards = update (get_id c k) (push_task (remove_task k)) c.shards;
    }

    -- The calls of clients, the steps of the workers, the start of the destructor and wake-ups that
    -- nothing has caused, in any order.
    pub data Step : Cache K V → Cache K V → Type 0 where
      call_get : (c : Cache K V) (k : K) → Step c (get_async k c).0
      call_set : (c : Cache K V) (k : K) (v : V) → Step c (set_async k v c)
      call_remove : (c : Cache K V) (k : K) → Step c (remove_async k c)
      worker_runs : (c : Cache K V) (i : ℕ) → Step c (work i c)
      destroy :
          (c : Cache K V) (i : ℕ) → Step c (record c { shards = update i request_stop c.shards })
      wakes : (c : Cache K V) (i : ℕ) → Step c (record c { shards = update i wake_up c.shards })
