-- ===== src/Messager/Server/Names.antt =====
-- server.cpp, connection.cpp: every connection has the user that its constructor made.
use high_load_systems.Common.{
  ℕ, suc, ◌≡◌, refl, inl, inr, Bool-cases, ◌&&◌, List, [], ◌∷◌, Option-cases, arith, ◌==◌, Bytes,
  All, All-append, All-set, All-found, get_elem?, both_true,
}
use high_load_systems.Messager.Lines.{has_newline}
use high_load_systems.Messager.Lines.Split.{IsLine, getline_lem}
use high_load_systems.Messager.Server.{
  User, Connection, new_connection, broadcast, Event, accepted, accept_failed, received, line_ready,
  read_failed, written_or_not, read_line, receive, stop_reading, at_connection, step,
}
use high_load_systems.Messager.Server.Log.{Said, said_by, said_at, log}

abbrev pub anonymous : User
anonymous = new_connection.user

abbrev pub IsAnonymous : Connection → Type 0
IsAnonymous c = c.user ≡ anonymous

broadcast-IsAnonymous :
    (k sender : ℕ) (text : Bytes) (connects : List Connection)
    → All IsAnonymous connects
    → All IsAnonymous (broadcast k sender text connects)
unfolding broadcast
broadcast-IsAnonymous k sender text [] a = tt
broadcast-IsAnonymous k sender text (c ∷ connects) a = elim (Bool-cases (k == sender)) [
  | inl same ↦ rw same (a.0, broadcast-IsAnonymous (suc k) sender text connects a.1)
  | inr other ↦ rw other (a.0, broadcast-IsAnonymous (suc k) sender text connects a.1)
]

at_connection-IsAnonymous :
    (i : ℕ) (f : Connection → Connection) (connects : List Connection)
    → ((c : Connection) → IsAnonymous c → IsAnonymous (f c))
    → All IsAnonymous connects
    → All IsAnonymous (at_connection i f connects)
at_connection-IsAnonymous i f connects keeps a = elim (Option-cases (get_elem? connects i)) [
  | inl e ↦ rw (at_connection, e) a
  | inr (c, e) ↦
      rw (at_connection, e)
        (All-set IsAnonymous connects i (f c) (keeps c (All-found IsAnonymous connects i c e a)) a)
]

receive-IsAnonymous :
    (bytes : Bytes) (c : Connection) → IsAnonymous c → IsAnonymous (receive bytes c)
receive-IsAnonymous bytes c h = ground arith

step-IsAnonymous :
    (e : Event) (connects : List Connection)
    → All IsAnonymous connects
    → All IsAnonymous (step e connects)
unfolding step read_line
step-IsAnonymous accepted connects a =
    All-append IsAnonymous connects (new_connection ∷ []) a (refl, tt)
step-IsAnonymous accept_failed connects a = a
step-IsAnonymous (received i bytes) connects a =
    at_connection-IsAnonymous i (receive bytes) connects (receive-IsAnonymous bytes) a
step-IsAnonymous (line_ready i) connects a = elim (Option-cases (get_elem? connects i)) [
  | inl e ↦ rw (step, e) a
  | inr (c, e) ↦ elim (Bool-cases (c.reading && has_newline c.buffer)) [
    | inr idle ↦ rw (step, e, idle) a
    | inl ready ↦
        rw (step, e, ready)
          (broadcast-IsAnonymous 0 i _ _
            (All-set IsAnonymous connects i _ (All-found IsAnonymous connects i c e a) a))
  ]
]
step-IsAnonymous (read_failed i) connects a =
    at_connection-IsAnonymous i stop_reading connects (λ c h. h) a
step-IsAnonymous (written_or_not i) connects a = a

-- What the log holds: lines without a newline, all by the one user that there is.
abbrev pub IsSpoken : Said → Type 0
IsSpoken s = (s.user ≡ anonymous) × IsLine s.line

said_by-IsSpoken :
    (i : ℕ) (connects : List Connection)
    → All IsAnonymous connects
    → All IsSpoken (said_by i (get_elem? connects i))
said_by-IsSpoken i connects a = elim (Option-cases (get_elem? connects i)) [
  | inl e ↦ rw e tt
  | inr (c, e) ↦ elim (Bool-cases (c.reading && has_newline c.buffer)) [
    | inr idle ↦ rw (e, said_by, idle) tt
    | inl ready ↦
        let line = (getline_lem c.buffer (both_true c.reading _ ready).1).1 in
        rw (e, said_by, ready) ((All-found IsAnonymous connects i c e a, line), tt)
  ]
]

said_at-IsSpoken :
    (e : Event) (connects : List Connection)
    → All IsAnonymous connects
    → All IsSpoken (said_at e connects)
said_at-IsSpoken (line_ready i) connects a = said_by-IsSpoken i connects a
said_at-IsSpoken accepted connects a = tt
said_at-IsSpoken accept_failed connects a = tt
said_at-IsSpoken (received i bytes) connects a = tt
said_at-IsSpoken (read_failed i) connects a = tt
said_at-IsSpoken (written_or_not i) connects a = tt

pub log-IsSpoken :
    (events : List Event) (connects : List Connection)
    → All IsAnonymous connects
    → All IsSpoken (log events connects)
unfolding log
log-IsSpoken [] connects a = tt
log-IsSpoken (e ∷ events) connects a =
    All-append IsSpoken (said_at e connects) (log events (step e connects))
      (said_at-IsSpoken e connects a)
      (log-IsSpoken events (step e connects) (step-IsAnonymous e connects a))
