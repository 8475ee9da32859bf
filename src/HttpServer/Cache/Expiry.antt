-- ===== src/HttpServer/Cache/Expiry.antt =====
-- cache.cpp: what a lookup sees after a write, after the expiry and after a cleanup.
use high_load_systems.Common.{
  ℕ, ◌+◌, ◌≤◌, ◌<◌, ◌≡◌, refl, inl, inr, Bool-cases, [], ◌∷◌, Option, none, some, Option-cases,
  arith, ltb, leb, if◌then◌else◌, Bytes, All, bytes_eq, bytes_eq_iff, bytes_eq_refl, find,
}
use high_load_systems.HttpServer.Cache.{
  Entry, Data, path_key, seconds, put, get, not_founded, cleanup,
}

-- A lookup after a put returns the value put until its time to live is over, and from then on
-- that there is none.
get-put :
    (now later ttl_seconds : ℕ) (key value : Bytes) (entries : Data)
    → ((later < now + seconds ttl_seconds)
        → (get later key (put now key value ttl_seconds entries)).0 ≡ value)
      × (now + seconds ttl_seconds ≤ later
          → (get later key (put now key value ttl_seconds entries)).0 ≡ not_founded)
unfolding get put
get-put now later ttl_seconds key value entries =
    (λ live. ground (arith, bytes_eq_refl key), λ dead. ground (arith, bytes_eq_refl key))

-- No key occurs twice.
abbrev pub IsUnique : Data → Type 0
IsUnique [] = Unit
IsUnique ((key, entry) ∷ entries) = (find key entries ≡ none) × IsUnique entries

-- What a cleanup leaves of the entry of a key.
abbrev still_live : ℕ → Option Entry → Option Entry
still_live now none = none
still_live now (some entry) = if leb entry.expires_at now then none else some entry

find-cleanup :
    (now : ℕ) (key : Bytes) (entries : Data)
    → IsUnique entries
    → find key (cleanup now entries) ≡ still_live now (find key entries)
unfolding cleanup
find-cleanup now key [] u = refl
find-cleanup now key ((key', entry) ∷ entries) u =
    let rest = find-cleanup now key entries u.1 in
    elim (Bool-cases (bytes_eq key' key)) [
      | inr other ↦ elim (Bool-cases (leb entry.expires_at now)) [
        | inl dead ↦ rw (dead, other) rest
        | inr live ↦ rw (live, other) rest
      ]
      | inl same ↦
          let equal = (bytes_eq_iff key' key).0 same in
          let gone : find key (cleanup now entries) ≡ none = rw (rest, ← equal, u.0) refl in
          elim (Bool-cases (leb entry.expires_at now)) [
            | inl dead ↦ rw (dead, same, dead) gone
            | inr live ↦ rw (live, same, live) refl
          ]
    ]

get_by_entry :
    (now : ℕ) (key : Bytes) (entries : Data)
    → (get now key entries).0 ≡ (elim (find key entries) [
      | none ↦ not_founded
      | some entry ↦ if ltb now entry.expires_at then entry.value else not_founded
    ])
unfolding get
get_by_entry now key entries = elim (Option-cases (find key entries)) [
  | inl e ↦ rw (get, e) refl
  | inr (entry, e) ↦ elim (Bool-cases (ltb now entry.expires_at)) [
    | inl live ↦ rw (get, e, live) refl
    | inr dead ↦ rw (get, e, dead) refl
  ]
]

-- If no key occurs twice, a cleanup does not change what a lookup returns at the same time or
-- later.
pub get-cleanup :
    (now later : ℕ) (key : Bytes) (entries : Data)
    → IsUnique entries
    → now ≤ later
    → (get later key (cleanup now entries)).0 ≡ (get later key entries).0
get-cleanup now later key entries u h =
    rw
      (
        get_by_entry later key (cleanup now entries),
        get_by_entry later key entries,
        find-cleanup now key entries u,
      )
      (elim (Option-cases (find key entries)) [
        | inl e ↦ rw e refl
        | inr (entry, e) ↦ rw e (ground arith)
      ])

-- Every entry that a cleanup leaves expires later than the cleanup.
cleanup-All :
    (now : ℕ) (entries : Data) → All (λ (key, entry). now < entry.expires_at) (cleanup now entries)
unfolding cleanup
cleanup-All now [] = tt
cleanup-All now ((key, entry) ∷ entries) = elim (Bool-cases (leb entry.expires_at now)) [
  | inl dead ↦ rw dead (cleanup-All now entries)
  | inr live ↦ rw live (ground arith, cleanup-All now entries)
]
