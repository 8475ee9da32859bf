-- ===== src/HttpServer/Cache.antt =====
-- HTTP-server-cpp/{include/cache.h, src/cache.cpp}: the cache of responses. A time point is a
-- number of nanoseconds, and each call takes the time that steady_clock::now() gives it.
pub mod Expiry
use high_load_systems.Common.{
  ℕ, ◌+◌, ◌*◌, List, [], ◌∷◌, Option, none, some, ltb, leb, if◌then◌else◌, Bytes, codes, bytes_eq,
  bytes_eq_iff, Key, find, insert, erase,
}

-- `operator==` of std::string on keys.
instance abbrev pub path_key : Key Bytes
path_key = record { same = bytes_eq; same_iff = bytes_eq_iff }

pub record Entry : Type 0 where
  pub value : Bytes
  pub expires_at : ℕ

-- The member `data`.
abbrev pub Data : Type 0
Data = List (Bytes × Entry)

-- std::chrono::seconds, in nanoseconds
abbrev pub seconds : ℕ → ℕ
seconds n = n * 1_000_000_000

-- `Cache::put`
unfoldable pub put : (now : ℕ) → (key value : Bytes) → (ttl_seconds : ℕ) → Data → Data
put now key value ttl_seconds entries =
    insert key (record { value = value; expires_at = now + seconds ttl_seconds }) entries

abbrev pub not_founded : Bytes
not_founded = codes "Not Founded"

-- `Cache::get`: the value, and the entries without the entry if that has expired.
unfoldable pub get : (now : ℕ) → Bytes → Data → Bytes × Data
get now key entries = elim (find key entries) [
  | none ↦ (not_founded, entries)
  | some entry ↦
      if ltb now entry.expires_at then (entry.value, entries) else (not_founded, erase key entries)
]

-- `Cache::cleanup`
unfoldable pub cleanup : (now : ℕ) → Data → Data
cleanup now [] = []
cleanup now ((key, entry) ∷ entries) =
    let rest = cleanup now entries in if leb entry.expires_at now then rest else (key, entry) ∷ rest
