-- ===== src/HttpServer/HttpParser/Readable.antt =====
-- http_parser.cpp: a client finds the body of a response by its head.
use high_load_systems.Common.{
  ℕ, zero, suc, ◌≡◌, ◌∙◌, ap, refl, inl, inr, false, Bool-cases, List, [], ◌∷◌, ◌++◌, Option, none,
  some, Option-cases, ◌==◌, if◌then◌else◌, Bytes, codes, length, take, drop, digits, to_string,
  decimal, decimal-to_string, All, All-append, append_assoc, arith, bytes_eq, append-nil, ltb, ◌/◌,
}
use high_load_systems.HttpServer.HttpParser.{
  line_end, get_response, after_blank_line, list_pairs, answer_post,
}

-- The length that a line of the head states, else the one known so far.
abbrev pub stated_length : Bytes → ℕ → ℕ
stated_length line n =
    if bytes_eq (take 16 line) (codes "Content-Length: ") then decimal 0 (drop 16 line) else n

-- A client: it reads lines up to an empty one, then as many bytes as the head stated.
pub read_body : (line : Bytes) → (n : ℕ) → Bytes → Option Bytes
read_body line n [] = none
read_body line n (c ∷ s) =
    let more = read_body (line ++ c ∷ []) n s in
    let next = read_body [] (stated_length line n) s in
    let same = read_body line n s in
    if c == 10
    then elim line [ [] ↦ some (take n s) | d ∷ rest ↦ next ]
    else if c == 13
    then same
    else more

abbrev InLine : ℕ → Type 0
InLine c = ((c == 10) ≡ false) × ((c == 13) ≡ false)

read_body-part :
    (part line : Bytes) (n : ℕ) (s : Bytes)
    → All InLine part
    → read_body line n (part ++ s) ≡ read_body (line ++ part) n s
unfolding read_body
read_body-part [] line n s a = rw (append-nil line) refl
read_body-part (c ∷ part) line n s a =
    rw (read_body, a.0.0, a.0.1)
      (read_body-part part (line ++ c ∷ []) n s a.1
        ∙ ap (λ l. read_body l n s) (append_assoc line (c ∷ []) part))

digits-InLine : (fuel n : ℕ) → All InLine (digits fuel n)
digits-InLine zero n = tt
digits-InLine (suc fuel) n = elim (Bool-cases (ltb n 10)) [
  | inl small ↦ rw small ((ground arith, ground arith), tt)
  | inr large ↦ rw large (
      All-append InLine (digits fuel (n / 10)) _ (digits-InLine fuel (n / 10))
        ((ground arith, ground arith), tt))
]

take-length : (xs ys : Bytes) → take (length xs) (xs ++ ys) ≡ xs
take-length [] ys = refl
take-length (x ∷ xs) ys = ap (λ t. x ∷ t) (take-length xs ys)

-- What follows the length in a response.
abbrev tail : Bytes → Bytes
tail body =
    line_end
    ++ (codes "Content-Type: text/plain"
        ++ (line_end ++ (codes "Connection: close" ++ (line_end ++ (line_end ++ body)))))

from_length :
    (body more : Bytes)
    → read_body (codes "Content-Length: ") 0 ((to_string (length body) ++ tail body) ++ more)
      ≡ some body
unfolding read_body to_string
from_length body more =
    let size = to_string (length body) in
    ap (read_body (codes "Content-Length: ") 0) (append_assoc size (tail body) more)
    ∙ read_body-part size (codes "Content-Length: ") 0 (tail body ++ more)
        (digits-InLine (suc (length body)) (length body))
    ∙ ap (λ n. some (take n (body ++ more))) (decimal-to_string (length body))
    ∙ ap some (take-length body more)

-- The text of the answer to a POST request.
abbrev pub post_text : (Bytes → Option (List (Bytes × Bytes))) → Bytes → Bytes
post_text parse_json raw = elim (after_blank_line raw) [
  | none ↦ []
  | some json ↦ elim (parse_json json) [
    | some pairs ↦ codes "Received JSON with pairs: " ++ list_pairs pairs
    | none ↦ codes "Invalid JSON"
  ]
]

read_body-answer_post :
    (parse_json : Bytes → Option (List (Bytes × Bytes))) (raw more : Bytes)
    → read_body [] 0 (answer_post parse_json raw ++ more) ≡ some (post_text parse_json raw)
unfolding read_body answer_post
read_body-answer_post parse_json raw more = elim (Option-cases (after_blank_line raw)) [
  | inl cut ↦ rw (answer_post, post_text, cut) refl
  | inr (json, e) ↦ elim (Option-cases (parse_json json)) [
    | inl invalid ↦
        rw (answer_post, post_text, e, invalid) (from_length (codes "Invalid JSON") more)
    | inr (pairs, e') ↦
        rw (answer_post, post_text, e, e')
          (from_length (codes "Received JSON with pairs: " ++ list_pairs pairs) more)
  ]
]

-- A client that reads the lines of the head up to the empty one and then as many bytes as
-- Content-Length states gets, whatever bytes follow the response, from the answer to a GET
-- request the greeting of its path, and from the answer to a POST request the list of members,
-- the text for a body that is not JSON, or nothing for a request without a blank line.
pub read_body_answers :
    (parse_json : Bytes → Option (List (Bytes × Bytes))) (path raw more : Bytes)
    → (read_body [] 0 (get_response path ++ more) ≡ some (codes "Hello from GET " ++ path))
      × (read_body [] 0 (answer_post parse_json raw ++ more) ≡ some (post_text parse_json raw))
unfolding read_body get_response
read_body_answers parse_json path raw more =
    (from_length (codes "Hello from GET " ++ path) more, read_body-answer_post parse_json raw more)
