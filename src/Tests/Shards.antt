-- ===== src/Tests/Shards.antt =====
-- cache.h: a run of a cache of two shards, with numbers for keys and values.
use high_load_systems.Common.{
  ℕ, zero, suc, ◌+◌, ◌≤◌, ◌≡◌, refl, false, List, [], ◌∷◌, none, some, arith, ◌==◌, ==_iff, Key,
  get_elem?, length,
}
use high_load_systems.ShardedCache.{
  Task, set_task, remove_task, get_task, at_test, at_lock, entering_wait, blocked, request_stop,
  Shard, Cache, new_cache, get_async, get_sync, set_async, work, worker_step, call_set, worker_runs,
}
use high_load_systems.ShardedCache.Pending.{settle, answers}
use high_load_systems.ShardedCache.Refines.{Refines, effect}
use high_load_systems.ShardedCache.Linearizable.{nothing, Step-Refines, new_cache-Refines}
use high_load_systems.ShardedCache.Promises.{
  Steps, done, after, effects, get_async-result, get_sync-settled,
}
use high_load_systems.ShardedCache.Shutdown.{run_worker, give, run_worker-drains, stop-drops}

instance abbrev number_key : Key ℕ
number_key = record { same = ◌==◌; same_iff = ==_iff }

abbrev identity : ℕ → ℕ
identity k = k

abbrev empty : Cache ℕ ℕ
empty = new_cache 2

Step-Refines_example :
    Refines identity 2 (set_async identity 3 7 empty) (effect identity (call_set empty 3 7) nothing)
Step-Refines_example =
    Step-Refines identity 2 (call_set empty 3 7) nothing (omega arith)
      (new_cache-Refines identity 2)

-- The value is set, then asked for, and then the worker of shard 1 runs both tasks.
abbrev holding : Cache ℕ ℕ
holding = set_async identity 3 7 empty

abbrev asked : Cache ℕ ℕ
asked = (get_async identity 3 holding).0

abbrev works : ℕ → Cache ℕ ℕ → Cache ℕ ℕ
works zero c = c
works (suc n) c = work 1 (works n c)

works-Steps : (n : ℕ) (c : Cache ℕ ℕ) → Steps identity c (works n c)
works-Steps zero c = done c
works-Steps (suc n) c =
    after c (works n c) (work 1 (works n c)) (works-Steps n c) (worker_runs (works n c) 1)

abbrev before_asking : Steps identity empty holding
before_asking = after empty empty holding (done empty) (call_set empty 3 7)

get_async-result_example : some 7 ≡ (effects identity before_asking nothing).value 3
unfolding work get_async set_async worker_step
get_async-result_example =
    get_async-result identity 2 holding (works 6 asked) 3 (some 7) before_asking
      (works-Steps 6 asked) (omega arith) ready
  where
    ready :
        get_elem? (works 6 asked).promises (get_async identity 3 holding).1 ≡ some (some (some 7))
    ready = refl

abbrev three_tasks : List (Task ℕ ℕ)
three_tasks = set_task 3 7 ∷ get_task 3 0 ∷ remove_task 3 ∷ []

run_worker-drains_example :
    run_worker 10
      (record { storage = []; tasks = three_tasks; stop = false; worker = at_test }, none ∷ [])
    ≡ (
      record { storage = settle three_tasks []; tasks = []; stop = false; worker = at_lock },
      give (answers three_tasks []) (none ∷ []),
    )
run_worker-drains_example = run_worker-drains [] three_tasks (none ∷ [])

stop-drops_example :
    let s : Shard ℕ ℕ = record {
      storage = [];
      tasks = three_tasks;
      stop = false;
      worker = entering_wait;
    } in
    let s' = (run_worker 100 (run_worker 3 (request_stop s, none ∷ []))).0 in
    (s'.worker ≡ blocked) × (length three_tasks ≤ length s'.tasks + 1)
stop-drops_example = stop-drops 100 [] three_tasks false entering_wait (none ∷ [])

works-after : (n : ℕ) (a c : Cache ℕ ℕ) → Steps identity a c → Steps identity a (works n c)
works-after zero a c steps = steps
works-after (suc n) a c steps =
    after a (works n c) (work 1 (works n c)) (works-after n a c steps) (worker_runs (works n c) 1)

abbrev drained : Cache ℕ ℕ
drained = works 4 holding

get_sync-settled_example :
    get_sync identity drained 3
    ≡ some ((effects identity (works-after 4 empty holding before_asking) nothing).value 3)
unfolding work set_async worker_step
get_sync-settled_example =
    get_sync-settled identity 2 drained 3
      (record { storage = (3, 7) ∷ []; tasks = []; stop = false; worker = at_lock })
      (works-after 4 empty holding before_asking) (omega arith) refl refl
