-- ===== src/ShardedCache/Linearizable.antt =====
-- cache.h: every call and every step of a worker keeps to what the cache promises.
use high_load_systems.Common.{
  ℕ, ◌%◌, ◌<◌, ◌≡◌, refl, ap, sym, ◌≢◌, inl, inr, Bool, true, false, Bool-cases, List, [], ◌∷◌,
  ◌++◌, none, some, Option-cases, arith, length, length-append, length-replicate, replicate, zero,
  suc, get_elem?, append-cases, get_elem?-append, get_elem?-length, All-weaken, same_ne, ne_of_miss,
  Key, find, insert, erase, find-erase_self, find-erase_ne, if◌then◌else◌,
}
use high_load_systems.ShardedCache.{
  set_task, remove_task, get_task, Shard, Cache, request_stop, wake_up, woken, update, get_async,
  set_async, remove_async, new_cache, new_shard, Step, call_get, call_set, call_remove, worker_runs,
  destroy, wakes,
}
use high_load_systems.ShardedCache.Pending.{settle, answers, pending-woken}
use high_load_systems.ShardedCache.Refines.{
  Promised, effect, Refines, replaced, update_lem, work-Refines, queued,
}

other_key :
    {K : Type 0} ⦃key : Key K⦄ (hash : K → ℕ) (n : ℕ) (k j : K)
    → hash j % n ≢ hash k % n
    → key.same k j ≡ false
other_key hash n k j other = same_ne k j (λ e. other (ap (λ i. hash i % n) (sym e)))

module _ {K V : Type 0} ⦃key : Key K⦄ where
  after_set :
      (a : Promised K V) (k j : K) (v : V) (m : List (K × V))
      → find j m ≡ a.value j
      → find j (insert k v m) ≡ (if key.same k j then some v else a.value j)
  after_set a k j v m e = elim (Bool-cases (key.same k j)) [
    | inl hit ↦ rw hit refl
    | inr miss ↦ rw (miss, find-erase_ne k j m (ne_of_miss k j miss)) e
  ]

  after_remove :
      (a : Promised K V) (k j : K) (m : List (K × V))
      → find j m ≡ a.value j
      → find j (erase k m) ≡ (if key.same k j then none else a.value j)
  after_remove a k j m e = elim (Bool-cases (key.same k j)) [
    | inl hit ↦ rw (hit, ← (key.same_iff k j).0 hit) (find-erase_self k m)
    | inr miss ↦ rw (miss, find-erase_ne k j m (ne_of_miss k j miss)) e
  ]

  set_async-Refines :
      (hash : K → ℕ) (n : ℕ) (c : Cache K V) (a : Promised K V) (k : K) (v : V)
      → 0 < n
      → Refines hash n c a
      → Refines hash n (set_async hash k v c) (effect hash (call_set c k v) a)
  unfolding set_async effect settle answers
  set_async-Refines hash n c a k v h R =
      queued hash n c a _ k (set_task k v) c.promises h R R.promise_count
        (λ j m same e. after_set a k j v m e) (λ j other. rw (other_key hash n k j other) refl)
        (λ rs ok. ok) (λ m e. tt) R.given

  remove_async-Refines :
      (hash : K → ℕ) (n : ℕ) (c : Cache K V) (a : Promised K V) (k : K)
      → 0 < n
      → Refines hash n c a
      → Refines hash n (remove_async hash k c) (effect hash (call_remove c k) a)
  unfolding remove_async effect settle answers
  remove_async-Refines hash n c a k h R =
      queued hash n c a _ k (remove_task k) c.promises h R R.promise_count
        (λ j m same e. after_remove a k j m e) (λ j other. rw (other_key hash n k j other) refl)
        (λ rs ok. ok) (λ m e. tt) R.given

  get_async-Refines :
      (hash : K → ℕ) (n : ℕ) (c : Cache K V) (a : Promised K V) (k : K)
      → 0 < n
      → Refines hash n c a
      → Refines hash n (get_async hash k c).0 (effect hash (call_get c k) a)
  unfolding get_async effect settle answers
  get_async-Refines hash n c a k h R =
      queued hash n c a _ k (get_task k (length c.promises)) (c.promises ++ none ∷ []) h R
        (omega (
          arith,
          length-append c.promises (none ∷ []),
          length-append a.results (a.value k ∷ []),
          R.promise_count,
        ))
        (λ j m same e. e) (λ j other. refl)
        (λ rs ok.
          All-weaken _ _ rs (λ (p, r) e. get_elem?-append a.results (a.value k ∷ []) p r e) ok)
        (λ m e. (rw (R.promise_count, e) (get_elem?-length a.results (a.value k)), tt))
        (λ p r e. elim (append-cases c.promises none p (some r) e) [
          | inl kept ↦ get_elem?-append a.results (a.value k ∷ []) p r (R.given p r kept)
          | inr (last, value) ↦ cc
        ])

  -- A shard whose worker may wake, and whose `stop` is `stop`.
  woken-Refines :
      (hash : K → ℕ) (n : ℕ) (c : Cache K V) (a : Promised K V) (i : ℕ) (f : Shard K V → Shard K V)
      (stop : Shard K V → Bool)
      → ((s : Shard K V) → f s ≡ record s { stop = stop s; worker = woken s.worker })
      → Refines hash n c a
      → Refines hash n (record c { shards = update i f c.shards }) a
  woken-Refines hash n c a i f stop same R = elim (Option-cases (get_elem? c.shards i)) [
    | inl missing ↦ rw (update, missing) R
    | inr (s, at_i) ↦
        let kept = pending-woken s (stop s) in
        rw (update_lem i f c.shards s at_i, same s)
          (replaced hash n i c a a s (record s { stop = stop s; worker = woken s.worker })
            c.promises R at_i R.promise_count (λ k home e. rw kept e) (λ k other. refl)
            (λ rs ok. ok) (rw kept (R.waiting i s at_i)) R.given)
  ]

  -- With at least one shard, each step of the cache keeps the refinement of an abstract map: a
  -- call has its effect on the map and on the promised results at once, and a step of a worker
  -- or of a destructor has none.
  pub Step-Refines :
      (hash : K → ℕ) (n : ℕ) {c c' : Cache K V} (step : Step hash c c') (a : Promised K V)
      → 0 < n
      → Refines hash n c a
      → Refines hash n c' (effect hash step a)
  unfolding effect
  Step-Refines hash n (call_get c k) a h R = get_async-Refines hash n c a k h R
  Step-Refines hash n (call_set c k v) a h R = set_async-Refines hash n c a k v h R
  Step-Refines hash n (call_remove c k) a h R = remove_async-Refines hash n c a k h R
  Step-Refines hash n (worker_runs c i) a h R = work-Refines hash n i c a R
  Step-Refines hash n (destroy c i) a h R =
      woken-Refines hash n c a i request_stop (λ s. true) (λ s. refl) R
  Step-Refines hash n (wakes c i) a h R =
      woken-Refines hash n c a i wake_up (λ s. s.stop) (λ s. refl) R

  abbrev pub nothing : Promised K V
  nothing = record { value = λ k. none; results = [] }

  new_shard-idle :
      (n i : ℕ) (s : Shard K V) → get_elem? (replicate n new_shard) i ≡ some s → s ≡ new_shard
  new_shard-idle zero i s e = cc
  new_shard-idle (suc n) zero s e = cc
  new_shard-idle (suc n) (suc i) s e = new_shard-idle n i s e

  -- A new cache is an empty map without promises.
  pub new_cache-Refines : (hash : K → ℕ) (n : ℕ) → Refines {V = V} hash n (new_cache n) nothing
  unfolding settle answers
  new_cache-Refines hash n = record {
    shard_count = length-replicate n new_shard;
    promise_count = refl;
    values = λ k s e. rw (new_shard-idle n _ s e) refl;
    waiting = λ i s e. rw (new_shard-idle n i s e) tt;
    given = λ p r e. cc;
  }
