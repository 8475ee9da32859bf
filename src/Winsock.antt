-- ===== src/Winsock.antt =====
-- The calls that echo-server-cpp/ and HTTP-server-cpp/ make to the socket library and to their logs,
-- and the rule for them: a socket is used only between its opening and its one closing, and the
-- library is started before and cleaned up once after all of them. The answers of the library are
-- parameters of the programs.
pub mod Traces
use high_load_systems.Common.{
  ℕ, zero, Bool, true, false, List, [], ◌∷◌, Option, none, some, ◌==◌, if◌then◌else◌, Bytes, ℤ, pos,
  negsuc, ◌&&◌, not,
}

-- The answer SOCKET_ERROR.
abbrev pub is_error : ℤ → Bool
is_error (negsuc zero) = true
is_error _ = false

abbrev pub is_zero : ℤ → Bool
is_zero (pos zero) = true
is_zero _ = false

-- The answers of WSAStartup, socket (none for INVALID_SOCKET), bind and listen.
pub record Setup : Type 0 where
  pub startup : ℤ
  pub listen_socket : Option ℕ
  pub bind_answer : ℤ
  pub listen_answer : ℤ

pub data Call : Type 0 where
  started cleaned_up : Call  -- a WSAStartup that succeeds, WSACleanup
  opened bound listening : ℕ → Call  -- of a socket; bind and listen also where they fail
  accepted : ℕ → ℕ → Call  -- the listening socket, the client's
  received : ℕ → Call
  sent : ℕ → Bytes → ℤ → Call  -- the bytes that send is offered, and its answer
  closed : ℕ → Call
  logged : Bytes → Call  -- on the log or on a stream

-- What the library holds for the program.
pub record Sockets : Type 0 where
  pub running : Bool
  pub open_sockets : List ℕ

abbrev pub idle : Sockets
idle = record { running = false; open_sockets = [] }

abbrev pub holding : List ℕ → Sockets
holding sockets = record { running = true; open_sockets = sockets }

abbrev pub is_open : ℕ → List ℕ → Bool
is_open s [] = false
is_open s (t ∷ sockets) = if s == t then true else is_open s sockets

abbrev pub without : ℕ → List ℕ → List ℕ
without s [] = []
without s (t ∷ sockets) = if s == t then sockets else t ∷ without s sockets

abbrev pub if_allowed : Bool → Sockets → Option Sockets
if_allowed allowed after = if allowed then some after else none

abbrev pub is_nil : List ℕ → Bool
is_nil [] = true
is_nil (s ∷ sockets) = false

-- The rule for a call: the state afterwards, none where it is not allowed.
unfoldable pub allow : Call → Sockets → Option Sockets
allow started h = if_allowed (not h.running) (holding h.open_sockets)
allow cleaned_up h = if_allowed (h.running && is_nil h.open_sockets) idle
allow (opened s) h = if_allowed h.running (holding (s ∷ h.open_sockets))
allow (bound s) h = if_allowed (is_open s h.open_sockets) h
allow (listening s) h = if_allowed (is_open s h.open_sockets) h
allow (accepted l s) h = if_allowed (is_open l h.open_sockets) (holding (s ∷ h.open_sockets))
allow (received s) h = if_allowed (is_open s h.open_sockets) h
allow (sent s bytes taken) h = if_allowed (is_open s h.open_sockets) h
allow (closed s) h = if_allowed (is_open s h.open_sockets) (holding (without s h.open_sockets))
allow (logged text) h = some h

unfoldable pub allow_all : List Call → Sockets → Option Sockets
unfolding allow
allow_all [] h = some h
allow_all (call ∷ calls) h = elim (allow call h) [ none ↦ none | some h' ↦ allow_all calls h' ]
