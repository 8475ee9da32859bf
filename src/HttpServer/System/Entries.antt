-- ===== src/HttpServer/System/Entries.antt =====
-- http_parser.cpp, cache.cpp: each entry of the cache is the response of its path, also between the
-- calls of different threads.
use high_load_systems.Common.{
  ℕ, ◌≡◌, ◌⊎◌, refl, sym, ◌∙◌, ap, inl, inr, Bool-cases, [], ◌∷◌, some, Option-cases, ltb, leb,
  Bytes, bytes_eq, bytes_eq_iff, Option-some_inj, All, find, erase,
}
use high_load_systems.HttpServer.Cache.{Data, Entry, path_key, get, put, cleanup, not_founded}
use high_load_systems.HttpServer.HttpParser.{get_response, respond}
use high_load_systems.HttpServer.HttpParser.Transparent.{response-found}

-- An entry that holds the response of its path.
abbrev pub HoldsResponse : Bytes × Entry → Type 0
HoldsResponse (path, entry) = entry.value ≡ get_response path

HoldsResponse-erase :
    (path : Bytes) (entries : Data)
    → All HoldsResponse entries
    → All HoldsResponse (erase path entries)
HoldsResponse-erase path [] a = tt
HoldsResponse-erase path ((key, entry) ∷ entries) a = elim (Bool-cases (bytes_eq key path)) [
  | inl same ↦ rw same (HoldsResponse-erase path entries a.1)
  | inr other ↦ rw other (a.0, HoldsResponse-erase path entries a.1)
]

pub HoldsResponse-cleanup :
    (now : ℕ) (entries : Data) → All HoldsResponse entries → All HoldsResponse (cleanup now entries)
unfolding cleanup
HoldsResponse-cleanup now [] a = tt
HoldsResponse-cleanup now ((key, entry) ∷ entries) a =
    elim (Bool-cases (leb entry.expires_at now)) [
      | inl dead ↦ rw (cleanup, dead) (HoldsResponse-cleanup now entries a.1)
      | inr live ↦ rw (cleanup, live) (a.0, HoldsResponse-cleanup now entries a.1)
    ]

HoldsResponse-find :
    (path : Bytes) (entries : Data) (entry : Entry)
    → All HoldsResponse entries
    → find path entries ≡ some entry
    → entry.value ≡ get_response path
HoldsResponse-find path [] entry a e = cc
HoldsResponse-find path ((key, entry') ∷ entries) entry a e =
    elim (Bool-cases (bytes_eq key path)) [
      | inl same ↦
          let here : entry' ≡ entry = Option-some_inj (rw same at e) in
          sym (ap (λ x. Entry.value x) here)
          ∙ a.0
          ∙ ap get_response ((bytes_eq_iff key path).0 same)
      | inr other ↦ HoldsResponse-find path entries entry a.1 (rw other at e)
    ]

-- What Cache::get can return: the text for a missing entry, or the response.
abbrev pub IsLookup : Bytes → Bytes → Type 0
IsLookup path cached = (cached ≡ not_founded) ⊎ (cached ≡ get_response path)

pub get-IsLookup :
    (now : ℕ) (path : Bytes) (entries : Data)
    → All HoldsResponse entries
    → IsLookup path (get now path entries).0 × All HoldsResponse (get now path entries).1
unfolding get
get-IsLookup now path entries a = elim (Option-cases (find path entries)) [
  | inl missing ↦ rw (get, missing) (inl refl, a)
  | inr (entry, e) ↦ elim (Bool-cases (ltb now entry.expires_at)) [
    | inl live ↦ rw (get, e, live) (inr (HoldsResponse-find path entries entry a e), a)
    | inr dead ↦ rw (get, e, dead) (inl refl, HoldsResponse-erase path entries a)
  ]
]

pub respond-HoldsResponse :
    (now : ℕ) (path cached : Bytes) (entries : Data)
    → IsLookup path cached
    → All HoldsResponse entries
    → ((respond now path (cached, entries)).0 ≡ get_response path)
      × All HoldsResponse (respond now path (cached, entries)).1
unfolding respond put
respond-HoldsResponse now path cached entries (inl missing) a =
    rw missing (refl, (refl, HoldsResponse-erase path entries a))
respond-HoldsResponse now path cached entries (inr found) a =
    rw (found, response-found path) (refl, a)
