-- ===== src/ShardedCache/Promises.antt =====
-- cache.h: what a future of `get_async` receives, over any run of the cache.
use high_load_systems.Common.{
  ℕ, ◌<◌, ◌≡◌, sym, ◌∙◌, [], ◌∷◌, Option, some, Option-some_inj, get_elem?, get_elem?-append,
  get_elem?-length, length, Key, find, ◌%◌, [], find, ◌%◌, [],
}
use high_load_systems.ShardedCache.{
  Cache, Shard, get_sync, new_cache, get_async, Step, call_get, call_set, call_remove, worker_runs,
  destroy, wakes,
}
use high_load_systems.ShardedCache.Pending.{pending, settle}
use high_load_systems.ShardedCache.Refines.{Promised, effect, Refines}
use high_load_systems.ShardedCache.Linearizable.{nothing, Step-Refines, new_cache-Refines}

module _ {K V : Type 0} ⦃key : Key K⦄ where
  -- Any number of steps.
  pub data Steps (hash : K → ℕ) : Cache K V → Cache K V → Type 0 where
    done : (c : Cache K V) → Steps hash c c
    after : (c d e : Cache K V) → Steps hash c d → Step hash d e → Steps hash c e

  unfoldable pub effects :
      (hash : K → ℕ) {c c' : Cache K V} → Steps hash c c' → Promised K V → Promised K V
  effects hash (done c) a = a
  effects hash (after c d e steps step) a = effect hash step (effects hash steps a)

  Steps-Refines :
      (hash : K → ℕ) (n : ℕ) {c c' : Cache K V} (steps : Steps hash c c') (a : Promised K V)
      → 0 < n
      → Refines hash n c a
      → Refines hash n c' (effects hash steps a)
  unfolding effects
  Steps-Refines hash n (done c) a h R = R
  Steps-Refines hash n (after c d e steps step) a h R =
      Step-Refines hash n step (effects hash steps a) h (Steps-Refines hash n steps a h R)

  -- What a promise is bound to is never changed.
  Step-keeps :
      (hash : K → ℕ) {c c' : Cache K V} (step : Step hash c c') (a : Promised K V) (p : ℕ)
      (r : Option V)
      → get_elem? a.results p ≡ some r
      → get_elem? (effect hash step a).results p ≡ some r
  unfolding effect
  Step-keeps hash (call_get c k) a p r e = get_elem?-append a.results (a.value k ∷ []) p r e
  Step-keeps hash (call_set c k v) a p r e = e
  Step-keeps hash (call_remove c k) a p r e = e
  Step-keeps hash (worker_runs c i) a p r e = e
  Step-keeps hash (destroy c i) a p r e = e
  Step-keeps hash (wakes c i) a p r e = e

  Steps-keeps :
      (hash : K → ℕ) {c c' : Cache K V} (steps : Steps hash c c') (a : Promised K V) (p : ℕ)
      (r : Option V)
      → get_elem? a.results p ≡ some r
      → get_elem? (effects hash steps a).results p ≡ some r
  unfolding effects
  Steps-keeps hash (done c) a p r e = e
  Steps-keeps hash (after c d e' steps step) a p r e =
      Step-keeps hash step (effects hash steps a) p r (Steps-keeps hash steps a p r e)

  -- In every run of a new cache with at least one shard, however the workers are scheduled
  -- before and after a call of get_async, its future, once ready, holds the value that the calls
  -- made before it gave the key.
  pub get_async-result :
      (hash : K → ℕ) (n : ℕ) (c c' : Cache K V) (k : K) (r : Option V)
      → (before : Steps hash (new_cache n) c) → Steps hash (get_async hash k c).0 c'
      → 0 < n
      → get_elem? c'.promises (get_async hash k c).1 ≡ some (some r)
      → r ≡ (effects hash before nothing).value k
  unfolding get_async effect
  get_async-result hash n c c' k r before later h ready =
      let a = effects hash before nothing in
      let R = Steps-Refines hash n before nothing h (new_cache-Refines hash n) in
      let a' = effect hash (call_get c k) a in
      let R' = Steps-Refines hash n later a' h (Step-Refines hash n (call_get c k) a h R) in
      let bound : get_elem? a'.results (length c.promises) ≡ some (a.value k) =
        rw R.promise_count (get_elem?-length a.results (a.value k)) in
      Option-some_inj
        (sym (R'.given _ r ready) ∙ Steps-keeps hash later a' (length c.promises) (a.value k) bound)

  -- In every run of a new cache with at least one shard, a call of get_sync on a shard that has
  -- no task left returns the value that the calls made before it gave the key.
  pub get_sync-settled :
      (hash : K → ℕ) (n : ℕ) (c : Cache K V) (k : K) (s : Shard K V)
      → (before : Steps hash (new_cache n) c) → 0 < n
      → get_elem? c.shards (hash k % n) ≡ some s
      → pending s ≡ []
      → get_sync hash c k ≡ some ((effects hash before nothing).value k)
  unfolding get_sync settle
  get_sync-settled hash n c k s before h here idle =
      let R = Steps-Refines hash n before nothing h (new_cache-Refines hash n) in
      let stored : find k s.storage ≡ (effects hash before nothing).value k =
        rw idle at (R.values k s here) in
      rw (R.shard_count, here, stored)
