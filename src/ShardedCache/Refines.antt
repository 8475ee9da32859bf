-- ===== src/ShardedCache/Refines.antt =====
-- cache.h: what the cache promises, a map that every call changes or reads at once, and why the
-- shards, queues and workers keep to it in every interleaving.
use native.Mathlib.Nat.{mod-lt}
use high_load_systems.Common.{
  ℕ, ◌%◌, ◌<◌, ◌≡◌, refl, sym, ◌∙◌, ◌≢◌, inl, inr, List, [], ◌∷◌, ◌++◌, Option, none, some,
  Option-cases, Option-some_inj, arith, length, length-set, get_elem?, set-cases, All-append,
  get_elem?-lt, set, Key, find, All, if◌then◌else◌,
}
use high_load_systems.ShardedCache.{
  Task, Shard, Cache, push_task, update, worker_step, work, get_id, Step, call_get, call_set,
  call_remove, worker_runs, destroy, wakes,
}
use high_load_systems.ShardedCache.Pending.{
  settle, answers, settled, replies, settled-push_task, replies-push_task, worker_step-HasWorked,
}

-- The abstract cache: the value of each key, and what each promise is bound to.
pub record Promised (K V : Type 0) : Type 0 where
  pub value : K → Option V
  pub results : List (Option V)

-- The results agree with a reply.
abbrev pub IsResult : {V : Type 0} → List (Option V) → ℕ × Option V → Type 0
IsResult results (p, r) = get_elem? results p ≡ some r

pub update_lem :
    {K V : Type 0} ⦃key : Key K⦄ (i : ℕ) (f : Shard K V → Shard K V) (shards : List (Shard K V))
    (s : Shard K V)
    → get_elem? shards i ≡ some s
    → update i f shards ≡ set shards i (f s)
update_lem i f shards s e = rw (update, e) refl

module _ {K V : Type 0} ⦃key : Key K⦄ where
  -- The effect that a step has on the abstract cache: that of its call, at once.
  unfoldable pub effect :
      (hash : K → ℕ) {c c' : Cache K V} → Step hash c c' → Promised K V → Promised K V
  effect hash (call_get c k) a = record a { results = a.results ++ a.value k ∷ [] }
  effect hash (call_set c k v) a = record a {
    value = λ j. if key.same k j then some v else a.value j;
  }
  effect hash (call_remove c k) a = record a {
    value = λ j. if key.same k j then none else a.value j;
  }
  effect hash (worker_runs c i) a = a
  effect hash (destroy c i) a = a
  effect hash (wakes c i) a = a

  -- Once all tasks have run, each key has its abstract value; and each promise is set, or will be, to
  -- what it is bound to.
  pub record Refines (hash : K → ℕ) (n : ℕ) (c : Cache K V) (a : Promised K V) : Type 0 where
    pub shard_count : length c.shards ≡ n
    pub promise_count : length c.promises ≡ length a.results
    pub values :
        (k : K) (s : Shard K V)
        → get_elem? c.shards (hash k % n) ≡ some s
        → find k (settled s) ≡ a.value k
    pub waiting :
        (i : ℕ) (s : Shard K V)
        → get_elem? c.shards i ≡ some s
        → All (IsResult a.results) (replies s)
    pub given :
        (p : ℕ) (r : Option V)
        → get_elem? c.promises p ≡ some (some r)
        → get_elem? a.results p ≡ some r

  -- A step that replaces shard `i` by `s'`.
  pub replaced :
      (hash : K → ℕ) (n i : ℕ) (c : Cache K V) (a a' : Promised K V) (s s' : Shard K V)
      (promises : List (Option (Option V)))
      → Refines hash n c a
      → get_elem? c.shards i ≡ some s
      → length promises ≡ length a'.results
      → ((k : K)
          → hash k % n ≡ i
          → find k (settled s) ≡ a.value k
          → find k (settled s') ≡ a'.value k)
      → ((k : K) → hash k % n ≢ i → a.value k ≡ a'.value k)
      → ((rs : List (ℕ × Option V)) → All (IsResult a.results) rs → All (IsResult a'.results) rs)
      → All (IsResult a'.results) (replies s')
      → ((p : ℕ) (r : Option V)
          → get_elem? promises p ≡ some (some r)
          → get_elem? a'.results p ≡ some r)
      → Refines hash n (record { shards = set c.shards i s'; promises = promises }) a'
  replaced hash n i c a a' s s' promises R at_i len here there more waits gave = record {
    shard_count = omega (arith, length-set c.shards i s', R.shard_count);
    promise_count = len;
    values = λ k t e. elim (set-cases c.shards i (hash k % n) s' t e) [
      | inl (same, value) ↦ rw value (here k (sym same) (R.values k s (rw (← same) at_i)))
      | inr (other, kept) ↦ R.values k t kept ∙ there k (λ h. other (sym h))
    ];
    waiting = λ j t e. elim (set-cases c.shards i j s' t e) [
      | inl (same, value) ↦ rw value waits
      | inr (other, kept) ↦ more (replies t) (R.waiting j t kept)
    ];
    given = gave;
  }

  -- A worker changes nothing that the abstract cache sees.
  pub work-Refines :
      (hash : K → ℕ) (n i : ℕ) (c : Cache K V) (a : Promised K V)
      → Refines hash n c a
      → Refines hash n (work i c) a
  unfolding work
  work-Refines hash n i c a R = elim (Option-cases (get_elem? c.shards i)) [
    | inl missing ↦ rw (work, missing) R
    | inr (s, at_i) ↦
        let (s', promises) = worker_step (s, c.promises) in
        let (same_map, kind) = worker_step-HasWorked s c.promises in
        rw (work, at_i)
          (elim kind [
            | inl (same_promises, same_replies) ↦
                replaced hash n i c a a s s' promises R at_i (rw same_promises R.promise_count)
                  (λ k home e. rw same_map e) (λ k other. refl) (λ rs h. h)
                  (rw same_replies (R.waiting i s at_i))
                  (λ p r e. R.given p r (rw (← same_promises) e))
            | inr (q, r', new_promises, reply) ↦
                let waits : All (IsResult a.results) ((q, r') ∷ replies s') =
                  rw reply at (R.waiting i s at_i) in
                replaced hash n i c a a s s' promises R at_i
                  (rw new_promises (length-set c.promises q (some r') ∙ R.promise_count))
                  (λ k home e. rw same_map e) (λ k other. refl) (λ rs h. h) waits.1
                  (λ p r e.
                    elim (set-cases c.promises q p (some r') (some r) (rw new_promises at e)) [
                      | inl (same, value) ↦ rw (← same, Option-some_inj value) waits.0
                      | inr (other, kept) ↦ R.given p r kept
                    ])
          ])
  ]

  -- The shard of a key exists.
  pub home_shard :
      (hash : K → ℕ) (n : ℕ) (c : Cache K V) (a : Promised K V) (k : K)
      → 0 < n
      → Refines hash n c a
      → (s : Shard K V) × (get_elem? c.shards (hash k % n) ≡ some s)
  home_shard hash n c a k h R =
      get_elem?-lt c.shards (hash k % n) (omega (arith, mod-lt (hash k) h, R.shard_count))

  -- A call that queues a task on the shard of its key.
  pub queued :
      (hash : K → ℕ) (n : ℕ) (c : Cache K V) (a a' : Promised K V) (k : K) (t : Task K V)
      (promises : List (Option (Option V)))
      → 0 < n
      → Refines hash n c a
      → length promises ≡ length a'.results
      → ((j : K) (m : List (K × V))
          → hash j % n ≡ hash k % n
          → find j m ≡ a.value j
          → find j (settle (t ∷ []) m) ≡ a'.value j)
      → ((j : K) → hash j % n ≢ hash k % n → a.value j ≡ a'.value j)
      → ((rs : List (ℕ × Option V)) → All (IsResult a.results) rs → All (IsResult a'.results) rs)
      → ((m : List (K × V)) → find k m ≡ a.value k → All (IsResult a'.results) (answers (t ∷ []) m))
      → ((p : ℕ) (r : Option V)
          → get_elem? promises p ≡ some (some r)
          → get_elem? a'.results p ≡ some r)
      → Refines hash n
          (record { shards = update (get_id hash c k) (push_task t) c.shards; promises = promises })
          a'
  queued hash n c a a' k t promises some_shard R len here there more reply gave =
      let (s, at_k) = home_shard hash n c a k some_shard R in
      rw (R.shard_count, update_lem (hash k % n) (push_task t) c.shards s at_k)
        (replaced hash n (hash k % n) c a a' s (push_task t s) promises R at_k len
          (λ j same e. rw (settled-push_task t s) (here j (settled s) same e)) there more
          (rw (replies-push_task t s) (
            All-append (IsResult a'.results) (replies s) (answers (t ∷ []) (settled s))
              (more (replies s) (R.waiting (hash k % n) s at_k))
              (reply (settled s) (R.values k s at_k))))
          gave)
