-- ===== src/HttpServer/Server/Sending.antt =====
-- server.cpp: the loop that sends a response ends, and sends it whole if the socket takes it.
use high_load_systems.Common.{
  ℕ, zero, suc, ◌+◌, ◌-◌, ◌≤◌, ◌<◌, ◌≡◌, refl, ap, ◌∙◌, inl, inr, false, Bool-cases, List, [], ◌∷◌,
  ◌++◌, Option, some, arith, ltb, ltb→lt, Bytes, length, take, drop, ℤ, pos, pos_part, leb_ℤ,
  take-append-drop, append_assoc,
}
use high_load_systems.HttpServer.Cache.{Data}
use high_load_systems.HttpServer.HttpParser.{handle_request}
use high_load_systems.HttpServer.HttpParser.Transparent.{IsFaithful, handle_request-empty}
use high_load_systems.HttpServer.Server.{send_loop, handle_client}

-- A socket that takes at least one of the bytes offered, and no more than these.
abbrev pub IsOpen : (ℕ → ℕ → ℤ) → Type 0
IsOpen send =
    (call offered : ℕ)
    → 0 < offered
    → (0 < pos_part (send call offered)) × (pos_part (send call offered) ≤ offered)

drop-all : (n : ℕ) (s : Bytes) → length s ≤ n → drop n s ≡ []
drop-all zero [] h = refl
drop-all zero (c ∷ s) h = absurd (omega arith)
drop-all (suc n) [] h = refl
drop-all (suc n) (c ∷ s) h = drop-all n s (omega arith)

drop_add : (m n : ℕ) (s : Bytes) → drop (m + n) s ≡ drop n (drop m s)
drop_add zero n s = let e : 0 + n ≡ n = omega arith in rw e refl
drop_add (suc m) n [] =
    let e : suc m + n ≡ suc (m + n) = omega arith in rw (e, drop-all n [] (omega arith)) refl
drop_add (suc m) n (c ∷ s) = let e : suc m + n ≡ suc (m + n) = omega arith in rw e (drop_add m n s)

take-drop : (n m : ℕ) (s : Bytes) → take n (drop m s) ++ drop (m + n) s ≡ drop m s
take-drop n m s = rw (drop_add m n s) (take-append-drop n (drop m s))

positive : (z : ℤ) → 0 < pos_part z → leb_ℤ z (pos 0) ≡ false
positive z h = ground arith

-- One round more than there are bytes left is enough.
send_loop-all :
    (fuel : ℕ) (send : ℕ → ℕ → ℤ) (call : ℕ) (response : Bytes) (total_sent : ℕ)
    → IsOpen send
    → length response < fuel + total_sent
    → total_sent ≤ length response
    → send_loop fuel send call response total_sent ≡ some (drop total_sent response)
unfolding send_loop
send_loop-all zero send call response total_sent open_socket h within = absurd (omega arith)
send_loop-all (suc fuel) send call response total_sent open_socket h within =
    elim (Bool-cases (ltb total_sent (length response))) [
      | inr finished ↦ rw (finished, drop-all total_sent response (ground arith)) refl
      | inl more ↦
          let sent = send call (length response - total_sent) in
          let lt = ltb→lt total_sent (length response) more in
          let (some_sent, not_more) =
            open_socket call (length response - total_sent) (omega arith) in
          let rest =
            send_loop-all fuel send (suc call) response (total_sent + pos_part sent) open_socket
              (omega arith) (omega arith) in
          rw (more, positive sent some_sent, rest)
            (ap some (take-drop (pos_part sent) total_sent response))
    ]

-- If every entry of the cache holds the response of its path, a client whose socket takes at
-- least one and at most all of the bytes offered gets, in whatever pieces, the whole response
-- that its request has with an empty cache, and the entries are such responses afterwards.
pub handle_client-response :
    (parse_json : Bytes → Option (List (Bytes × Bytes))) (send : ℕ → ℕ → ℤ) (now_get now_put : ℕ)
    → (request : Bytes) (entries : Data) → IsOpen send
    → IsFaithful entries
    → ((handle_client parse_json send now_get now_put (some request) entries).0
        ≡ some (handle_request parse_json 0 0 request []).0)
      × IsFaithful (handle_client parse_json send now_get now_put (some request) entries).1
unfolding handle_client
handle_client-response parse_json send now_get now_put request entries open_socket h =
    let (same, faithful) = handle_request-empty parse_json now_get now_put request entries h in
    (
      send_loop-all (suc (length (handle_request parse_json now_get now_put request entries).0))
            send 0 _ 0 open_socket (omega arith) (omega arith)
          ∙ ap some same,
      faithful,
    )

-- The sending loop ends on fuel that exceeds the bytes left, whatever the socket answers, and
-- what the socket took is the beginning of the bytes left.
pub send_loop-prefix :
    (fuel : ℕ) (send : ℕ → ℕ → ℤ) (call : ℕ) (response : Bytes) (total_sent : ℕ)
    → length response < fuel + total_sent
    → 0 < fuel
    → (sent : Bytes) × (rest : Bytes) × (send_loop fuel send call response total_sent ≡ some sent)
      × (sent ++ rest ≡ drop total_sent response)
unfolding send_loop
send_loop-prefix zero send call response total_sent h some_fuel = absurd (omega arith)
send_loop-prefix (suc fuel) send call response total_sent h some_fuel =
    elim (Bool-cases (ltb total_sent (length response))) [
      | inr finished ↦ rw finished ([], drop total_sent response, refl, refl)
      | inl more ↦
          let count = send call (length response - total_sent) in
          let lt = ltb→lt total_sent (length response) more in
          rw more (elim (Bool-cases (leb_ℤ count (pos 0))) [
            | inl failed ↦ rw failed ([], drop total_sent response, refl, refl)
            | inr took ↦
                let gain : 0 < pos_part count = ground arith in
                let (sent, rest, run, whole) =
                  send_loop-prefix fuel send (suc call) response (total_sent + pos_part count)
                    (omega arith) (omega arith) in
                rw (took, run)
                  (
                    take (pos_part count) (drop total_sent response) ++ sent,
                    rest,
                    refl,
                    append_assoc (take (pos_part count) (drop total_sent response)) sent rest
                        ∙ ap (λ s. take (pos_part count) (drop total_sent response) ++ s) whole
                        ∙ take-drop (pos_part count) total_sent response,
                  )
          ])
    ]
