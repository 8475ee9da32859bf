-- ===== src/HttpServer/Server/Listening.antt =====
-- HTTP-server-cpp/src/server.cpp, `Server::init_socket`, as the calls that it makes.
use high_load_systems.Common.{
  ℕ, ◌≡◌, ◌∙◌, refl, inl, inr, Bool-cases, not, List, [], ◌∷◌, none, some, Option-cases,
  if◌then◌else◌, Bytes, codes, Result, ok, err,
}
use high_load_systems.Winsock.{
  Setup, is_error, is_zero, Call, started, cleaned_up, opened, bound, listening, closed, logged,
  Sockets, idle, holding, allow, allow_all,
}
use high_load_systems.Winsock.Traces.{allow_all-closed, allow_all-bound, allow_all-listening}

-- From the successful call of socket on. The result is `listen_fd`, or the text that is thrown.
unfoldable pub bind_and_listen : Setup → ℕ → List Call × Result Bytes ℕ
bind_and_listen setup s =
    if is_error setup.bind_answer
    then (
      started ∷ opened s ∷ bound s ∷ closed s ∷ cleaned_up ∷ logged (codes "Bind failed") ∷ [],
      err (codes "Bind failed"),
    )
    else if is_error setup.listen_answer
    then (
      started
          ∷ opened s
          ∷ bound s
          ∷ listening s
          ∷ closed s
          ∷ cleaned_up
          ∷ logged (codes "Listen failed")
          ∷ [],
      err (codes "Listen failed"),
    )
    else (
      started
          ∷ opened s
          ∷ bound s
          ∷ listening s
          ∷ logged (codes "The server is ready to work")
          ∷ [],
      ok s,
    )

-- `Server::init_socket`
unfoldable pub init_socket : Setup → List Call × Result Bytes ℕ
unfolding bind_and_listen
init_socket setup =
    if not (is_zero setup.startup)
    then (logged (codes "WSAStartup failed") ∷ [], err (codes "WSAStartup failed"))
    else elim setup.listen_socket [
      | none ↦ (
        started ∷ cleaned_up ∷ logged (codes "Socket creation failed") ∷ [],
        err (codes "Socket creation failed"),
      )
      | some s ↦ bind_and_listen setup s
    ]

-- What is held afterwards: nothing where it throws.
abbrev pub kept : Result Bytes ℕ → Sockets
kept (err text) = idle
kept (ok s) = holding (s ∷ [])

bind_and_listen-kept :
    (setup : Setup) (s : ℕ)
    → allow_all (bind_and_listen setup s).0 idle ≡ some (kept (bind_and_listen setup s).1)
unfolding bind_and_listen allow allow_all
bind_and_listen-kept setup s = elim (Bool-cases (is_error setup.bind_answer)) [
  | inl failed ↦
      let end = cleaned_up ∷ logged (codes "Bind failed") ∷ [] in
      rw (bind_and_listen, failed)
        (allow_all-bound s [] (closed s ∷ end) ∙ allow_all-closed s [] end)
  | inr bound_to ↦ elim (Bool-cases (is_error setup.listen_answer)) [
    | inl failed ↦
        let end = cleaned_up ∷ logged (codes "Listen failed") ∷ [] in
        rw (bind_and_listen, bound_to, failed)
          (allow_all-bound s [] (listening s ∷ closed s ∷ end)
            ∙ allow_all-listening s [] (closed s ∷ end)
            ∙ allow_all-closed s [] end)
    | inr listens ↦
        let end = logged (codes "The server is ready to work") ∷ [] in
        rw (bind_and_listen, bound_to, listens)
          (allow_all-bound s [] (listening s ∷ end) ∙ allow_all-listening s [] end)
  ]
]

-- Whatever the socket library answers, init_socket uses only open sockets, and where it throws
-- nothing is left open and the library is cleaned up if it was started; where it returns only
-- its listening socket is open.
pub init_socket-kept :
    (setup : Setup) → allow_all (init_socket setup).0 idle ≡ some (kept (init_socket setup).1)
unfolding init_socket allow allow_all
init_socket-kept setup = elim (Bool-cases (not (is_zero setup.startup))) [
  | inl failed ↦ rw (init_socket, failed) refl
  | inr starts ↦ elim (Option-cases setup.listen_socket) [
    | inl none_left ↦ rw (init_socket, starts, none_left) refl
    | inr (s, e) ↦ rw (init_socket, starts, e) (bind_and_listen-kept setup s)
  ]
]
