-- ===== src/Messager/Client.antt =====
-- messager-cpp/client/client.cpp: the client, with what asio and the console deliver as events. The
-- reading thread and main share no variable but the socket, so that their events come in any order.
pub mod Reading
pub mod Delivered
use high_load_systems.Common.{
  Bool, true, false, ◌&&◌, not, List, [], ◌∷◌, ◌++◌, if◌then◌else◌, Bytes, codes,
}
use high_load_systems.Messager.Lines.{newline, has_newline, getline}

pub record Client : Type 0 where
  pub buffer : Bytes
  pub reading : Bool  -- an async_read_until is pending
  pub printed : List Bytes  -- the lines on std::cout
  pub sent : Bytes  -- what was handed to async_write

-- `Client(ip, port)` once it is connected, and its first `read`.
abbrev pub new_client : Client
new_client = record { buffer = []; reading = true; printed = []; sent = [] }

-- `send_message`
abbrev pub send_message : Bytes → Client → Client
send_message msg c = record c { sent = c.sent ++ (msg ++ newline ∷ []) }

-- The line that the callback of `read` prints.
abbrev pub shown : Bytes → Bytes
shown line = codes "Server: " ++ line

-- The callback of `read` without an error; it reads again.
abbrev pub read_back : Client → Client
read_back c =
    let (line, rest) = getline c.buffer in
    record c { buffer = rest; printed = c.printed ++ shown line ∷ [] }

pub data ClientEvent : Type 0 where
  arrived : Bytes → ClientEvent  -- bytes that async_read_until appends to the buffer
  line_arrived read_broken : ClientEvent  -- its callback, without and with an error
  typed : Bytes → ClientEvent  -- a line that std::getline in `main` reads

unfoldable pub client_step : ClientEvent → Client → Client
client_step (arrived bytes) c =
    if c.reading && not (has_newline c.buffer) then record c { buffer = c.buffer ++ bytes } else c
client_step line_arrived c = if c.reading && has_newline c.buffer then read_back c else c
client_step read_broken c = record c { reading = false }
client_step (typed msg) c = send_message msg c

unfoldable pub run_client : List ClientEvent → Client → Client
run_client [] c = c
run_client (e ∷ events) c = run_client events (client_step e c)
