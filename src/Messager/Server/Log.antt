-- ===== src/Messager/Server/Log.antt =====
-- server.cpp: what was said in a run, and what that means for each connection.
use high_load_systems.Common.{
  ℕ, ◌≡◌, refl, ap, sym, ◌∙◌, inl, inr, Bool-cases, ◌&&◌, not, List, [], ◌∷◌, ◌++◌, Option, none,
  some, ◌==◌, if◌then◌else◌, Bytes, All, All-append, get_elem?, append_assoc, append-nil,
}
use high_load_systems.Messager.Lines.{has_newline, getline, unlines}
use high_load_systems.Messager.Lines.Split.{IsLine, unlines-append}
use high_load_systems.Messager.Server.{User, Connection, signed, Event, received, line_ready, step}

-- A line that the server broadcast: the connection it came from, its user, and the line.
pub record Said : Type 0 where
  pub speaker : ℕ
  pub user : User
  pub line : Bytes

-- The line that an event makes the server broadcast.
abbrev pub said_by : ℕ → Option Connection → List Said
said_by i none = []
said_by i (some c) =
    if c.reading && has_newline c.buffer
    then record { speaker = i; user = c.user; line = (getline c.buffer).0 } ∷ []
    else []

abbrev pub said_at : Event → List Connection → List Said
said_at (line_ready i) connects = said_by i (get_elem? connects i)
said_at _ connects = []

-- All that was said in a run.
unfoldable pub log : List Event → List Connection → List Said
log [] connects = []
log (e ∷ events) connects = said_at e connects ++ log events (step e connects)

-- The lines of one connection, and the messages for it: those of all others.
abbrev pub lines_by : ℕ → List Said → List Bytes
lines_by i [] = []
lines_by i (s ∷ said) = if s.speaker == i then s.line ∷ lines_by i said else lines_by i said

abbrev pub heard_by : ℕ → List Said → List Bytes
heard_by i [] = []
heard_by i (s ∷ said) =
    if s.speaker == i then heard_by i said else signed s.user s.line ∷ heard_by i said

-- The bytes that the server read from a connection.
abbrev pub read_of : Bytes → Option Connection → Bytes
read_of bytes none = []
read_of bytes (some c) = if c.reading && not (has_newline c.buffer) then bytes else []

abbrev pub read_at : ℕ → Event → List Connection → Bytes
read_at i (received j bytes) connects = if j == i then read_of bytes (get_elem? connects i) else []
read_at i _ connects = []

unfoldable pub received_by : ℕ → List Event → List Connection → Bytes
received_by i [] connects = []
received_by i (e ∷ events) connects = read_at i e connects ++ received_by i events (step e connects)

-- What a stretch of a run makes of a connection.
pub record Follows (i : ℕ) (bytes : Bytes) (said : List Said) (c c' : Connection) : Type 0 where
  pub lines_read : c.buffer ++ bytes ≡ unlines (lines_by i said) ++ c'.buffer
  pub lines_whole : All IsLine (lines_by i said)
  pub delivered : c'.written ≡ c.written ++ heard_by i said

pub unchanged : (i : ℕ) (c : Connection) → Follows i [] [] c c
unchanged i c = record {
  lines_read = append-nil c.buffer;
  lines_whole = tt;
  delivered = sym (append-nil c.written);
}

lines_by-append :
    (i : ℕ) (xs ys : List Said) → lines_by i (xs ++ ys) ≡ lines_by i xs ++ lines_by i ys
lines_by-append i [] ys = refl
lines_by-append i (s ∷ xs) ys = elim (Bool-cases (s.speaker == i)) [
  | inl same ↦ rw (same, lines_by-append i xs ys) refl
  | inr other ↦ rw (other, lines_by-append i xs ys) refl
]

heard_by-append :
    (i : ℕ) (xs ys : List Said) → heard_by i (xs ++ ys) ≡ heard_by i xs ++ heard_by i ys
heard_by-append i [] ys = refl
heard_by-append i (s ∷ xs) ys = elim (Bool-cases (s.speaker == i)) [
  | inl same ↦ rw (same, heard_by-append i xs ys) refl
  | inr other ↦ rw (other, heard_by-append i xs ys) refl
]

-- Two stretches of a run after each other.
pub Follows-trans :
    (i : ℕ) (bytes bytes' : Bytes) (said said' : List Said) (c c' c'' : Connection)
    → Follows i bytes said c c'
    → Follows i bytes' said' c' c''
    → Follows i (bytes ++ bytes') (said ++ said') c c''
Follows-trans i bytes bytes' said said' c c' c'' F G = record {
  lines_read =
      rw (lines_by-append i said said', unlines-append (lines_by i said) (lines_by i said'))
        (sym (append_assoc c.buffer bytes bytes')
          ∙ ap (λ b. b ++ bytes') F.lines_read
          ∙ append_assoc (unlines (lines_by i said)) c'.buffer bytes'
          ∙ ap (λ b. unlines (lines_by i said) ++ b) G.lines_read
          ∙ sym (append_assoc (unlines (lines_by i said)) (unlines (lines_by i said')) c''.buffer));
  lines_whole =
      rw (lines_by-append i said said')
        (All-append IsLine (lines_by i said) (lines_by i said') F.lines_whole G.lines_whole);
  delivered = rw (heard_by-append i said said') (
      G.delivered
      ∙ ap (λ w. w ++ heard_by i said') F.delivered
      ∙ append_assoc c.written (heard_by i said) (heard_by i said'));
}
