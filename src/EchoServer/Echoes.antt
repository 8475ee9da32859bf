-- ===== src/EchoServer/Echoes.antt =====
-- server.cpp: each client is sent what it sent, as far as send takes it.
use high_load_systems.Common.{
  ℕ, zero, suc, min, take, pos_part, ℤ, sym, append_assoc, arith, ◌≡◌, refl, ap, ◌∙◌, inl, inr,
  Bool, false, Bool-cases, ◌&&◌, not, List, [], ◌∷◌, ◌++◌, Option, none, some, Option-cases,
  if◌then◌else◌, Bytes, pos, ltb_ℤ,
}
use high_load_systems.Winsock.{
  Setup, is_error, is_zero, Call, started, cleaned_up, opened, bound, listening, accepted, received,
  sent, closed, logged,
}
use high_load_systems.EchoServer.{
  Visit, received_data, answer, serve_client, serve, listen_and_serve, run_server,
}

-- The bytes that a call of send takes, with the socket that they go to; none where it fails.
abbrev taken : ℕ → Bytes → ℤ → List (ℕ × Bytes)
taken s bytes n = if ltb_ℤ (pos 0) n then (s, take (pos_part n) bytes) ∷ [] else []

-- All that is sent.
abbrev pub all_sent : List Call → List (ℕ × Bytes)
all_sent [] = []
all_sent (sent s bytes n ∷ calls) = taken s bytes n ++ all_sent calls
all_sent (_ ∷ calls) = all_sent calls

all_sent-append : (xs ys : List Call) → all_sent (xs ++ ys) ≡ all_sent xs ++ all_sent ys
all_sent-append [] ys = refl
all_sent-append (started ∷ xs) ys = all_sent-append xs ys
all_sent-append (cleaned_up ∷ xs) ys = all_sent-append xs ys
all_sent-append (opened s ∷ xs) ys = all_sent-append xs ys
all_sent-append (bound s ∷ xs) ys = all_sent-append xs ys
all_sent-append (listening s ∷ xs) ys = all_sent-append xs ys
all_sent-append (accepted l s ∷ xs) ys = all_sent-append xs ys
all_sent-append (received s ∷ xs) ys = all_sent-append xs ys
all_sent-append (sent s bytes n ∷ xs) ys =
    ap (λ t. taken s bytes n ++ t) (all_sent-append xs ys)
    ∙ sym (append_assoc (taken s bytes n) (all_sent xs) (all_sent ys))
all_sent-append (closed s ∷ xs) ys = all_sent-append xs ys
all_sent-append (logged text ∷ xs) ys = all_sent-append xs ys

take-take : (m n : ℕ) (xs : Bytes) → take m (take n xs) ≡ take (min n m) xs
take-take zero n xs = let none_left : min n 0 ≡ 0 = omega arith in rw none_left refl
take-take (suc m) zero xs = let none_left : min 0 (suc m) ≡ 0 = omega arith in rw none_left refl
take-take (suc m) (suc n) [] =
    let some_left : min (suc n) (suc m) ≡ suc (min n m) = omega arith in rw some_left refl
take-take (suc m) (suc n) (x ∷ xs) =
    let some_left : min (suc n) (suc m) ≡ suc (min n m) = omega arith in
    rw some_left (ap (λ ys. x ∷ ys) (take-take m n xs))

-- Of the buffer that recv has filled, as many bytes as it has received and as send has taken, for
-- each client up to the first accept that fails.
abbrev pub from_client : Visit → List (ℕ × Bytes)
from_client visit =
    if ltb_ℤ (pos 0) visit.bytes_received && ltb_ℤ (pos 0) visit.bytes_sent
    then (
      visit.client_socket,
      take (min (pos_part visit.bytes_received) (pos_part visit.bytes_sent)) visit.buffer,
    )
      ∷ []
    else []

abbrev pub from_clients : List (Option Visit) → List (ℕ × Bytes)
from_clients [] = []
from_clients (none ∷ answers) = []
from_clients (some visit ∷ answers) = from_client visit ++ from_clients answers

-- WSAStartup, socket, bind and listen all succeed.
abbrev pub starts : Setup → Bool
starts setup =
    if is_zero setup.startup
    then elim setup.listen_socket [
      | none ↦ false
      | some s ↦ not (is_error setup.bind_answer) && not (is_error setup.listen_answer)
    ]
    else false

as_taken :
    (visit : Visit)
    → taken visit.client_socket (received_data visit) visit.bytes_sent ++ [] ≡ (
        if ltb_ℤ (pos 0) visit.bytes_sent
        then (
          visit.client_socket,
          take (min (pos_part visit.bytes_received) (pos_part visit.bytes_sent)) visit.buffer,
        )
          ∷ []
        else [])
as_taken visit = elim (Bool-cases (ltb_ℤ (pos 0) visit.bytes_sent)) [
  | inl some_sent ↦
      rw (taken, some_sent)
        (ap (λ bytes. (visit.client_socket, bytes) ∷ [])
          (take-take (pos_part visit.bytes_sent) (pos_part visit.bytes_received) visit.buffer))
  | inr none_sent ↦ rw (taken, none_sent) refl
]

answer-from_client :
    (visit : Visit) → all_sent (answer visit ++ closed visit.client_socket ∷ []) ≡ from_client visit
answer-from_client visit = elim (Bool-cases (ltb_ℤ (pos 0) visit.bytes_received)) [
  | inl some_bytes ↦ elim (Bool-cases (is_error visit.bytes_sent)) [
    | inl failed ↦ rw (answer, some_bytes, failed) (as_taken visit)
    | inr done ↦ rw (answer, some_bytes, done) (as_taken visit)
  ]
  | inr no_bytes ↦ elim (Bool-cases (is_zero visit.bytes_received)) [
    | inl closing ↦ rw (answer, no_bytes, closing) refl
    | inr failed ↦ rw (answer, no_bytes, failed) refl
  ]
]

serve-from_clients :
    (l : ℕ) (answers : List (Option Visit)) → all_sent (serve l answers).0 ≡ from_clients answers
unfolding serve serve_client
serve-from_clients l [] = refl
serve-from_clients l (none ∷ answers) = refl
serve-from_clients l (some visit ∷ answers) =
    all_sent-append (serve_client l visit) (serve l answers).0
    ∙ ap (λ t. t ++ all_sent (serve l answers).0) (answer-from_client visit)
    ∙ ap (λ t. from_client visit ++ t) (serve-from_clients l answers)

-- If WSAStartup, socket, bind and listen succeed, what send takes are, for each client in the
-- order of the clients up to the first accept that fails, the first of the bytes received from
-- it, as many as the smaller of the two numbers that recv and send answered, where both are
-- positive, and nothing else; otherwise nothing is sent.
pub run_server-from_clients :
    (setup : Setup) (answers : List (Option Visit))
    → all_sent (run_server setup answers).0 ≡ (if starts setup then from_clients answers else [])
unfolding run_server listen_and_serve
run_server-from_clients setup answers = elim (Bool-cases (is_zero setup.startup)) [
  | inr failed ↦ rw (run_server, starts, failed) refl
  | inl begins ↦ elim (Option-cases setup.listen_socket) [
    | inl none_left ↦ rw (run_server, starts, begins, none_left) refl
    | inr (s, e) ↦ elim (Bool-cases (is_error setup.bind_answer)) [
      | inl refused ↦ rw (run_server, starts, begins, e, listen_and_serve, refused) refl
      | inr bound_to ↦ elim (Bool-cases (is_error setup.listen_answer)) [
        | inl refused ↦ rw (run_server, starts, begins, e, listen_and_serve, bound_to, refused) refl
        | inr listens ↦
            rw (run_server, starts, begins, e, listen_and_serve, bound_to, listens)
              (serve-from_clients s answers)
      ]
    ]
  ]
]
