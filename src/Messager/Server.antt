-- ===== src/Messager/Server.antt =====
-- messager-cpp/{include,src}/{user,connection,server}: the users, the connections and the server. A
-- shared pointer to a connection is its place in the list of connections; each callback is an event.
pub mod Log
pub mod Steps
pub mod Delivery
pub mod Names
use high_load_systems.Common.{
  ℕ, suc, Bool, true, false, ◌&&◌, not, List, [], ◌∷◌, ◌++◌, Option, none, some, ◌==◌,
  if◌then◌else◌, Bytes, codes, get_elem?, set,
}
use high_load_systems.Messager.Lines.{newline, has_newline, getline}

pub record User : Type 0 where
  pub username : Bytes

-- `User::get_login`
abbrev pub get_login : User → Bytes
get_login user = user.username

pub record Connection : Type 0 where
  pub buffer : Bytes
  pub user : User
  pub reading : Bool  -- an async_read_until is pending
  pub written : List Bytes  -- what was handed to async_write, in order

-- `Connection(socket, server)`, and the async_read_until of its `start`.
abbrev pub new_connection : Connection
new_connection = record {
  buffer = [];
  user = record { username = codes "Anonimous" };
  reading = true;
  written = [];
}

-- `Connection::write`. The buffer that async_write gets is a view of the message.
abbrev pub write : Bytes → Connection → Connection
write message c = record c { written = c.written ++ message ∷ [] }

-- `Connection::get_user`
abbrev pub get_user : Connection → User
get_user c = c.user

-- "from " + sender->get_user().get_login() + ": " + msg + '\n'
abbrev pub signed : User → Bytes → Bytes
signed user msg = codes "from " ++ (get_login user ++ (codes ": " ++ (msg ++ newline ∷ [])))

-- The loop of `Server::broadcast` over the connections from number `k` on.
unfoldable pub broadcast : (k sender : ℕ) → Bytes → List Connection → List Connection
broadcast k sender text [] = []
broadcast k sender text (c ∷ connects) =
    (if k == sender then c else write text c) ∷ broadcast (suc k) sender text connects

-- What asio reports: to `wait_connection`, and to `read_request` of connection `i`.
pub data Event : Type 0 where
  accepted accept_failed : Event
  received : ℕ → Bytes → Event  -- bytes that async_read_until appends to the buffer
  line_ready : ℕ → Event  -- its callback without an error
  read_failed : ℕ → Event  -- its callback with an error
  written_or_not : ℕ → Event  -- the callback of async_write, which only prints

-- The callback of `read_request`, where the buffer holds a line.
unfoldable pub read_line : ℕ → Connection → List Connection → List Connection
unfolding broadcast
read_line i c connects =
    let (line, rest) = getline c.buffer in
    broadcast 0 i (signed (get_user c) line) (set connects i (record c { buffer = rest }))

-- The bytes are read only while the buffer holds no line.
abbrev pub receive : Bytes → Connection → Connection
receive bytes c =
    if c.reading && not (has_newline c.buffer) then record c { buffer = c.buffer ++ bytes } else c

abbrev pub stop_reading : Connection → Connection
stop_reading c = record c { reading = false }

abbrev pub at_connection : ℕ → (Connection → Connection) → List Connection → List Connection
at_connection i f connects = elim (get_elem? connects i) [
  | none ↦ connects
  | some c ↦ set connects i (f c)
]

-- What the server does at an event: `connects` afterwards. `wait_connection` accepts again, whether
-- there was an error or not; an event of a connection that there is not does not occur.
unfoldable pub step : Event → List Connection → List Connection
unfolding read_line
step accepted connects = connects ++ new_connection ∷ []
step accept_failed connects = connects
step (received i bytes) connects = at_connection i (receive bytes) connects
step (line_ready i) connects = elim (get_elem? connects i) [
  | none ↦ connects
  | some c ↦ if c.reading && has_newline c.buffer then read_line i c connects else connects
]
step (read_failed i) connects = at_connection i stop_reading connects
step (written_or_not i) connects = connects

unfoldable pub run_events : List Event → List Connection → List Connection
run_events [] connects = connects
run_events (e ∷ events) connects = run_events events (step e connects)
