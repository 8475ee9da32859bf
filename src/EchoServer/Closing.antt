-- ===== src/EchoServer/Closing.antt =====
-- server.cpp: whatever the library answers, no socket is used closed or left open.
use high_load_systems.Common.{
  ℕ, ◌≡◌, refl, inl, inr, Bool-cases, not, List, [], ◌∷◌, ◌++◌, Option, none, some, Option-cases,
  ◌∙◌, codes, pos, ltb_ℤ,
}
use high_load_systems.Winsock.{
  Setup, is_error, is_zero, cleaned_up, listening, received, closed, logged, Sockets, idle, holding,
  allow, allow_all,
}
use high_load_systems.Winsock.Traces.{
  allow_all-append, allow_all-closed, allow_all-sent, allow_all-received, allow_all-bound,
  allow_all-listening, allow_all-accepted,
}
use high_load_systems.EchoServer.{
  Visit, Exit, exited, waits, received_data, answer, serve_client, serve, listen_and_serve,
  run_server,
}

-- What the program holds: nothing after its return, and its listening socket while it waits.
abbrev pub held : Exit → Sockets
held (exited code) = idle
held (waits s) = holding (s ∷ [])

answer-allowed :
    (visit : Visit) (l : ℕ)
    → allow_all (answer visit) (holding (visit.client_socket ∷ l ∷ []))
      ≡ some (holding (visit.client_socket ∷ l ∷ []))
unfolding allow allow_all
answer-allowed visit l = elim (Bool-cases (ltb_ℤ (pos 0) visit.bytes_received)) [
  | inl some_bytes ↦ elim (Bool-cases (is_error visit.bytes_sent)) [
    | inl failed ↦
        rw (answer, some_bytes, failed)
          (allow_all-sent visit.client_socket (l ∷ []) (logged (codes "Send failed") ∷ [])
            (received_data visit) visit.bytes_sent)
    | inr done ↦
        rw (answer, some_bytes, done)
          (allow_all-sent visit.client_socket (l ∷ []) [] (received_data visit) visit.bytes_sent)
  ]
  | inr no_bytes ↦ elim (Bool-cases (is_zero visit.bytes_received)) [
    | inl closing ↦ rw (answer, no_bytes, closing)
    | inr failed ↦ rw (answer, no_bytes, failed)
  ]
]

serve_client-allowed :
    (l : ℕ) (visit : Visit)
    → allow_all (serve_client l visit) (holding (l ∷ [])) ≡ some (holding (l ∷ []))
unfolding serve_client allow allow_all
serve_client-allowed l visit =
    let s = visit.client_socket in
    let rest = answer visit ++ closed s ∷ [] in
    allow_all-accepted l [] (logged (codes "[+] New connection accepted") ∷ received s ∷ rest) s
    ∙ allow_all-received s (l ∷ []) rest
    ∙ allow_all-append (answer visit) (closed s ∷ []) _ _ (answer-allowed visit l)
    ∙ allow_all-closed s (l ∷ []) []

serve-allowed :
    (l : ℕ) (answers : List (Option Visit))
    → allow_all (serve l answers).0 (holding (l ∷ [])) ≡ some (held (serve l answers).1)
unfolding serve allow allow_all
serve-allowed l [] = refl
serve-allowed l (none ∷ answers) = allow_all-closed l [] (cleaned_up ∷ [])
serve-allowed l (some visit ∷ answers) =
    allow_all-append (serve_client l visit) (serve l answers).0 (holding (l ∷ []))
      (holding (l ∷ [])) (serve_client-allowed l visit)
    ∙ serve-allowed l answers

listen_and_serve-allowed :
    (setup : Setup) (s : ℕ) (answers : List (Option Visit))
    → allow_all (listen_and_serve setup s answers).0 idle
      ≡ some (held (listen_and_serve setup s answers).1)
unfolding listen_and_serve allow allow_all
listen_and_serve-allowed setup s answers = elim (Bool-cases (is_error setup.bind_answer)) [
  | inl failed ↦
      let end = logged (codes "Bind failed\n") ∷ closed s ∷ cleaned_up ∷ [] in
      rw (listen_and_serve, failed)
        (allow_all-bound s [] end ∙ allow_all-closed s [] (cleaned_up ∷ []))
  | inr bound_to ↦ elim (Bool-cases (is_error setup.listen_answer)) [
    | inl failed ↦
        let end = logged (codes "Listen failed\n") ∷ closed s ∷ cleaned_up ∷ [] in
        rw (listen_and_serve, bound_to, failed)
          (allow_all-bound s [] (listening s ∷ end)
            ∙ allow_all-listening s [] end
            ∙ allow_all-closed s [] (cleaned_up ∷ []))
    | inr listens ↦
        let loop = logged (codes "Server started on port 8080") ∷ (serve s answers).0 in
        rw (listen_and_serve, bound_to, listens)
          (allow_all-bound s [] (listening s ∷ loop)
            ∙ allow_all-listening s [] loop
            ∙ serve-allowed s answers)
  ]
]

-- Whatever the socket library answers, main uses only open sockets, and when it has returned
-- every socket is closed and the library cleaned up exactly once if it was started; while it
-- waits in accept only the listening socket is open.
pub run_server-held :
    (setup : Setup) (answers : List (Option Visit))
    → allow_all (run_server setup answers).0 idle ≡ some (held (run_server setup answers).1)
unfolding run_server listen_and_serve allow allow_all
run_server-held setup answers = elim (Bool-cases (not (is_zero setup.startup))) [
  | inl failed ↦ rw (run_server, failed) refl
  | inr starts ↦ elim (Option-cases setup.listen_socket) [
    | inl none_left ↦ rw (run_server, starts, none_left) refl
    | inr (s, e) ↦ rw (run_server, starts, e) (listen_and_serve-allowed setup s answers)
  ]
]
