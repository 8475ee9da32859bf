-- ===== src/EchoServer.antt =====
-- echo-server-cpp/server.cpp: `main` as the calls that it makes, from the answers that it gets.
pub mod Closing
pub mod Echoes
use high_load_systems.Common.{
  ℕ, Bool, true, false, not, List, [], ◌∷◌, ◌++◌, Option, none, some, if◌then◌else◌, Bytes, codes,
  take, ℤ, pos, pos_part, ltb_ℤ,
}
use high_load_systems.Winsock.{
  Setup, is_error, is_zero, Call, started, cleaned_up, opened, bound, listening, accepted, received,
  sent, closed, logged,
}

-- What a round of the loop gets: the socket of accept, the buffer that recv filled and its answer,
-- and the answer of send.
pub record Visit : Type 0 where
  pub client_socket : ℕ
  pub buffer : Bytes
  pub bytes_received : ℤ
  pub bytes_sent : ℤ

-- `main` has returned, or it waits in accept on its listening socket.
pub data Exit : Type 0 where
  exited waits : ℕ → Exit

abbrev pub received_data : Visit → Bytes
received_data visit = take (pos_part visit.bytes_received) visit.buffer

-- What follows recv.
abbrev pub answer : Visit → List Call
answer visit =
    if ltb_ℤ (pos 0) visit.bytes_received
    then logged (codes "[*] Received: " ++ received_data visit)
      ∷ sent visit.client_socket (received_data visit) visit.bytes_sent
      ∷ (if is_error visit.bytes_sent then logged (codes "Send failed") ∷ [] else [])
    else if is_zero visit.bytes_received
    then logged (codes "Connection closing...") ∷ []
    else logged (codes "Recv failed") ∷ []

-- A round of the loop where accept succeeds.
unfoldable pub serve_client : ℕ → Visit → List Call
serve_client listen_socket visit =
    accepted listen_socket visit.client_socket
    ∷ logged (codes "[+] New connection accepted")
    ∷ received visit.client_socket
    ∷ (answer visit ++ closed visit.client_socket ∷ [])

-- The loop, and what follows it. Each answer of accept is a visit, or none for INVALID_SOCKET.
unfoldable pub serve : ℕ → List (Option Visit) → List Call × Exit
unfolding serve_client
serve listen_socket [] = ([], waits listen_socket)
serve listen_socket (none ∷ answers) =
    (logged (codes "Accept failed") ∷ closed listen_socket ∷ cleaned_up ∷ [], exited 0)
serve listen_socket (some visit ∷ answers) =
    let (calls, exit) = serve listen_socket answers in
    (serve_client listen_socket visit ++ calls, exit)

-- `main` from the successful call of socket on.
unfoldable pub listen_and_serve : Setup → ℕ → List (Option Visit) → List Call × Exit
unfolding serve
listen_and_serve setup s answers =
    if is_error setup.bind_answer
    then (
      started ∷ opened s ∷ bound s ∷ logged (codes "Bind failed\n") ∷ closed s ∷ cleaned_up ∷ [],
      exited 1,
    )
    else if is_error setup.listen_answer
    then (
      started
          ∷ opened s
          ∷ bound s
          ∷ listening s
          ∷ logged (codes "Listen failed\n")
          ∷ closed s
          ∷ cleaned_up
          ∷ [],
      exited 1,
    )
    else (let (calls, exit) = serve s answers in
        (
          started
              ∷ opened s
              ∷ bound s
              ∷ listening s
              ∷ logged (codes "Server started on port 8080")
              ∷ calls,
          exit,
        ))

-- `main`
unfoldable pub run_server : Setup → List (Option Visit) → List Call × Exit
unfolding listen_and_serve
run_server setup answers =
    if not (is_zero setup.startup)
    then (logged (codes "WSAStartup failed\n") ∷ [], exited 1)
    else elim setup.listen_socket [
      | none ↦ (started ∷ logged (codes "Socket creation failed\n") ∷ cleaned_up ∷ [], exited 1)
      | some s ↦ listen_and_serve setup s answers
    ]
