-- ===== src/HttpServer/HttpParser.antt =====
-- HTTP-server-cpp/{include/http_parser.h, src/http_parser.cpp}: the answer to a request.
pub mod Transparent
pub mod Readable
use mathlib.Core.Option
use high_load_systems.Common.{
  ℕ, zero, suc, ◌+◌, ◌/◌, ◌%◌, Bool, ◌&&◌, ◌||◌, List, [], ◌∷◌, ◌++◌, Option, none, some, ltb, leb,
  ◌==◌, if◌then◌else◌, Bytes, codes, bytes_eq, length, to_string,
}
use high_load_systems.HttpServer.Cache.{Data, get, put, not_founded}

-- std::isspace in the locale "C"
abbrev pub is_space : ℕ → Bool
is_space c = c == 32 || (leb 9 c && leb c 13)

-- `stream >> word`: the word, and the rest of the stream.
abbrev pub skip_spaces : Bytes → Bytes
skip_spaces [] = []
skip_spaces (c ∷ s) = if is_space c then skip_spaces s else c ∷ s

abbrev pub take_word : Bytes → Bytes × Bytes
take_word [] = ([], [])
take_word (c ∷ s) =
    let (word, rest) = take_word s in if is_space c then ([], c ∷ s) else (c ∷ word, rest)

abbrev pub next_word : Bytes → Bytes × Bytes
next_word s = take_word (skip_spaces s)

abbrev pub line_end : Bytes
line_end = 13 ∷ 10 ∷ []

-- `raw.substr(raw.find("\r\n\r\n") + 4)`
abbrev pub after_blank_line : Bytes → Option Bytes
after_blank_line [] = none
after_blank_line (c ∷ s) = elim (after_blank_here (c ∷ s)) [
  | some body ↦ some body
  | none ↦ after_blank_line s
]
  where
    after_blank_here : Bytes → Option Bytes
    after_blank_here (a ∷ b ∷ c ∷ d ∷ s) =
        if a == 13 && (b == 10 && (c == 13 && d == 10)) then some s else none
    after_blank_here _ = none

-- The responses share their head; `kind` is the status line.
abbrev pub with_body : (kind body : Bytes) → Bytes
with_body kind body =
    kind
    ++ (line_end
        ++ (codes "Content-Length: "
            ++ (to_string (length body)
                ++ (line_end
                    ++ (codes "Content-Type: text/plain"
                        ++ (line_end
                            ++ (codes "Connection: close" ++ (line_end ++ (line_end ++ body)))))))))

abbrev pub status_ok : Bytes
status_ok = codes "HTTP/1.1 200 OK"

abbrev pub bad_request : Bytes
bad_request = codes "HTTP/1.1 400 Bad Request"

-- The response to a GET request that is not in the cache.
unfoldable pub get_response : Bytes → Bytes
unfolding to_string
get_response path = with_body status_ok (codes "Hello from GET " ++ path)

-- The branch of `handle_request` for GET after the lookup.
unfoldable pub respond : (now_put : ℕ) → Bytes → Bytes × Data → Bytes × Data
respond now_put path (cached, entries) =
    if bytes_eq cached not_founded
    then (get_response path, put now_put path (get_response path) 60 entries)
    else (cached, entries)

-- That branch; the two calls of the cache read the clock one after the other.
unfoldable pub answer_get : (now_get now_put : ℕ) → Bytes → Data → Bytes × Data
unfolding respond
answer_get now_get now_put path entries = respond now_put path (get now_get path entries)

-- The loop over the members of the JSON value: "key: value" with commas between them.
abbrev pub list_pairs : List (Bytes × Bytes) → Bytes
list_pairs [] = []
list_pairs ((key, value) ∷ []) = key ++ (codes ": " ++ value)
list_pairs ((key, value) ∷ pair ∷ pairs) =
    key ++ (codes ": " ++ (value ++ (codes ", " ++ list_pairs (pair ∷ pairs))))

-- The branch for POST. `parse_json` stands for nlohmann::json: the keys of the parsed body with their
-- values as text, or `none` if the parser or the iteration throws.
unfoldable pub answer_post : (parse_json : Bytes → Option (List (Bytes × Bytes))) → Bytes → Bytes
unfolding to_string
answer_post parse_json raw = elim (after_blank_line raw) [
  | none ↦
      bad_request
      ++ (line_end
          ++ (codes "Content-Length: 0"
              ++ (line_end ++ (codes "Connection: close" ++ (line_end ++ line_end)))))
  | some body ↦ elim (parse_json body) [
    | some pairs ↦ with_body status_ok (codes "Received JSON with pairs: " ++ list_pairs pairs)
    | none ↦ with_body bad_request (codes "Invalid JSON")
  ]
]

-- The answer to every other method, as the code spells it: no line end follows the length.
abbrev pub not_implemented : Bytes
not_implemented =
    codes "HTTP/1.1 501 Not Implemented"
    ++ (line_end ++ (codes "Content-Length: 0Connection: close" ++ (line_end ++ line_end)))

-- `HttpParser::handle_request`
unfoldable pub handle_request :
    (parse_json : Bytes → Option (List (Bytes × Bytes)))
    → (now_get now_put : ℕ) → Bytes
    → Data
    → Bytes × Data
unfolding answer_get answer_post
handle_request parse_json now_get now_put raw entries =
    let (method, rest) = next_word raw in
    let (path, _) = next_word rest in
    if bytes_eq method (codes "GET")
    then answer_get now_get now_put path entries
    else if bytes_eq method (codes "POST")
    then (answer_post parse_json raw, entries)
    else (not_implemented, entries)
