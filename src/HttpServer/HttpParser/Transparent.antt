-- ===== src/HttpServer/HttpParser/Transparent.antt =====
-- http_parser.cpp: the cache of responses changes no response.
use high_load_systems.Common.{
  ℕ, ◌+◌, ◌≡◌, refl, sym, subst, ◌∙◌, true, false, Bool-cases, inl, inr, List, [], Option, none,
  some, Option-cases, ltb, Bytes, codes, bytes_eq, bytes_eq_iff, find, insert, find-insert_self,
  find-insert_ne, find-erase_self, find-erase_ne, erase, Option-some_inj, ne_of_miss,
}
use high_load_systems.HttpServer.Cache.{Data, Entry, path_key, get, put, seconds, not_founded}
use high_load_systems.HttpServer.HttpParser.{
  get_response, respond, answer_get, answer_post, not_implemented, handle_request, next_word,
}

-- Every entry of the cache holds the response that its path has.
abbrev pub IsFaithful : Data → Type 0
IsFaithful entries =
    (path : Bytes) (entry : Entry)
    → find path entries ≡ some entry
    → entry.value ≡ get_response path

IsFaithful-erase :
    (path : Bytes) (entries : Data) → IsFaithful entries → IsFaithful (erase path entries)
IsFaithful-erase path entries h path' entry e = elim (Bool-cases (bytes_eq path path')) [
  | inl same ↦
      let equal = (bytes_eq_iff path path').0 same in
      let impossible : none ≡ some entry = rw (← equal, find-erase_self path entries) at e in cc
  | inr other ↦
      h path' entry (rw (find-erase_ne path path' entries (ne_of_miss path path' other)) at e)
]

abbrev fresh : ℕ → Bytes → Entry
fresh now path = record { value = get_response path; expires_at = now + seconds 60 }

pub IsFaithful-put :
    (now : ℕ) (path : Bytes) (entries : Data)
    → IsFaithful entries
    → IsFaithful (put now path (get_response path) 60 entries)
unfolding put
IsFaithful-put now path entries h path' entry e = elim (Bool-cases (bytes_eq path path')) [
  | inl same ↦
      let equal = (bytes_eq_iff path path').0 same in
      let found : find path (insert path (fresh now path) entries) ≡ some entry =
        subst (λ q. find q (insert path (fresh now path) entries) ≡ some entry) (sym equal) e in
      let value : fresh now path ≡ entry =
        Option-some_inj (sym (find-insert_self path (fresh now path) entries) ∙ found) in
      rw (← value, equal) refl
  | inr other ↦
      h path' entry
        (rw (find-insert_ne path path' (fresh now path) entries (ne_of_miss path path' other)) at e)
]

-- A response is never taken for a missing one.
pub response-found : (path : Bytes) → bytes_eq (get_response path) not_founded ≡ false
unfolding get_response
response-found path = refl

abbrev IsAnswer : Bytes → Bytes × Data → Type 0
IsAnswer path (response, entries) = (response ≡ get_response path) × IsFaithful entries

respond-missing :
    (now : ℕ) (path : Bytes) (entries : Data)
    → IsFaithful entries
    → IsAnswer path (respond now path (not_founded, entries))
unfolding respond
respond-missing now path entries h = (refl, IsFaithful-put now path entries h)

respond-cached :
    (now : ℕ) (path cached : Bytes) (entries : Data)
    → cached ≡ get_response path
    → IsFaithful entries
    → IsAnswer path (respond now path (cached, entries))
unfolding respond
respond-cached now path cached entries e h = rw (e, response-found path) (refl, h)

-- A GET request gets the response of its path, whatever the cache holds, and the cache stays faithful.
answer_get-IsFaithful :
    (now_get now_put : ℕ) (path : Bytes) (entries : Data)
    → IsFaithful entries
    → IsAnswer path (answer_get now_get now_put path entries)
unfolding answer_get get
answer_get-IsFaithful now_get now_put path entries h = elim (Option-cases (find path entries)) [
  | inl e ↦ rw (answer_get, get, e) (respond-missing now_put path entries h)
  | inr (entry, e) ↦ elim (Bool-cases (ltb now_get entry.expires_at)) [
    | inr dead ↦
        rw (answer_get, get, e, dead)
          (respond-missing now_put path (erase path entries) (IsFaithful-erase path entries h))
    | inl live ↦
        rw (answer_get, get, e, live)
          (respond-cached now_put path entry.value entries (h path entry e) h)
  ]
]

-- The three branches of `handle_request`.
module _ (parse_json : Bytes → Option (List (Bytes × Bytes))) (now_get now_put : ℕ) (raw : Bytes)
    (entries : Data) where
  pub handle_request_get :
      bytes_eq (next_word raw).0 (codes "GET") ≡ true
      → handle_request parse_json now_get now_put raw entries
        ≡ answer_get now_get now_put (next_word (next_word raw).1).0 entries
  unfolding handle_request
  handle_request_get is_get = rw (handle_request, is_get) refl

  pub handle_request_post :
      bytes_eq (next_word raw).0 (codes "GET") ≡ false
      → bytes_eq (next_word raw).0 (codes "POST") ≡ true
      → handle_request parse_json now_get now_put raw entries
        ≡ (answer_post parse_json raw, entries)
  unfolding handle_request
  handle_request_post not_get is_post = rw (handle_request, not_get, is_post) refl

  pub handle_request_other :
      bytes_eq (next_word raw).0 (codes "GET") ≡ false
      → bytes_eq (next_word raw).0 (codes "POST") ≡ false
      → handle_request parse_json now_get now_put raw entries ≡ (not_implemented, entries)
  unfolding handle_request
  handle_request_other not_get other = rw (handle_request, not_get, other) refl

-- If every entry of the cache holds the response of its path, a request at any times gets the
-- response that it gets with an empty cache, and the entries are such responses afterwards.
pub handle_request-empty :
    (parse_json : Bytes → Option (List (Bytes × Bytes))) (now_get now_put : ℕ) (raw : Bytes)
    (entries : Data)
    → IsFaithful entries
    → ((handle_request parse_json now_get now_put raw entries).0
        ≡ (handle_request parse_json 0 0 raw []).0)
      × IsFaithful (handle_request parse_json now_get now_put raw entries).1
unfolding handle_request
handle_request-empty parse_json now_get now_put raw entries h =
    elim (Bool-cases (bytes_eq (next_word raw).0 (codes "GET"))) [
      | inl is_get ↦
          let path = (next_word (next_word raw).1).0 in
          let (here, faithful) = answer_get-IsFaithful now_get now_put path entries h in
          let (fresh_here, _) = answer_get-IsFaithful 0 0 path [] (λ p entry e. cc) in
          rw (handle_request, is_get) (here ∙ sym fresh_here, faithful)
      | inr not_get ↦ elim (Bool-cases (bytes_eq (next_word raw).0 (codes "POST"))) [
        | inl is_post ↦ rw (handle_request, not_get, is_post) (refl, h)
        | inr other ↦ rw (handle_request, not_get, other) (refl, h)
      ]
    ]
