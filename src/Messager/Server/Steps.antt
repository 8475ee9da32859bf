-- ===== src/Messager/Server/Steps.antt =====
-- server.cpp: what one event makes of a connection.
use native.Mathlib.Nat.{add-zero}
use high_load_systems.Common.{
  ℕ, zero, suc, ◌+◌, ◌≡◌, refl, ap, sym, ◌∙◌, ◌≢◌, inl, inr, true, false, Bool-cases, ◌&&◌, not,
  List, [], ◌∷◌, some, Option-cases, arith, ◌==◌, ==_iff, if◌then◌else◌, Bytes, get_elem?, set,
  get_elem?-append, get_elem?-set_same, Option-some_inj, subst, get_elem?-set_ne, append_assoc,
  append-nil, both_true, same_index,
}
use high_load_systems.Messager.Lines.{newline, has_newline, getline}
use high_load_systems.Messager.Lines.Split.{getline_lem}
use high_load_systems.Messager.Server.{
  User, Connection, new_connection, write, signed, broadcast, Event, accepted, accept_failed,
  received, line_ready, read_failed, written_or_not, read_line, receive, stop_reading,
  at_connection, step,
}
use high_load_systems.Messager.Server.Log.{said_by, said_at, read_of, read_at, Follows, unchanged}

get_elem?-broadcast_from :
    (k sender : ℕ) (text : Bytes) (connects : List Connection) (i : ℕ) (c : Connection)
    → get_elem? connects i ≡ some c
    → get_elem? (broadcast k sender text connects) i
      ≡ some (if k + i == sender then c else write text c)
unfolding broadcast
get_elem?-broadcast_from k sender text [] i c h = cc
get_elem?-broadcast_from k sender text (c' ∷ connects) zero c h =
    rw (add-zero k, Option-some_inj h) refl
get_elem?-broadcast_from k sender text (c' ∷ connects) (suc i) c h =
    let e : k + suc i ≡ suc k + i = omega arith in
    rw e (get_elem?-broadcast_from (suc k) sender text connects i c h)

get_elem?-broadcast :
    (sender : ℕ) (text : Bytes) (connects : List Connection) (i : ℕ) (c : Connection)
    → get_elem? connects i ≡ some c
    → get_elem? (broadcast 0 sender text connects) i
      ≡ some (if i == sender then c else write text c)
get_elem?-broadcast sender text connects i c h =
    let e : 0 + i ≡ i = omega arith in
    subst
      (λ n.
        get_elem? (broadcast 0 sender text connects) i
        ≡ some (if n == sender then c else write text c))
      e (get_elem?-broadcast_from 0 sender text connects i c h)

other_index : (i j : ℕ) → i ≢ j → (i == j) ≡ false
other_index i j n = ground arith

at_connection_self :
    (i : ℕ) (f : Connection → Connection) (connects : List Connection) (c : Connection)
    → get_elem? connects i ≡ some c
    → get_elem? (at_connection i f connects) i ≡ some (f c)
at_connection_self i f connects c h =
    rw (at_connection, h) (get_elem?-set_same connects i (f c) c h)

at_connection_ne :
    (i j : ℕ) (f : Connection → Connection) (connects : List Connection)
    → j ≢ i
    → get_elem? (at_connection j f connects) i ≡ get_elem? connects i
at_connection_ne i j f connects n = elim (Option-cases (get_elem? connects j)) [
  | inl e ↦ rw (at_connection, e) refl
  | inr (c, e) ↦ rw (at_connection, e) (get_elem?-set_ne connects (f c) n)
]

receive-Follows :
    (i : ℕ) (bytes : Bytes) (c : Connection)
    → Follows i (read_of bytes (some c)) [] c (receive bytes c)
receive-Follows i bytes c = elim (Bool-cases (c.reading && not (has_newline c.buffer))) [
  | inl open_buffer ↦
      rw open_buffer
        (record { lines_read = refl; lines_whole = tt; delivered = sym (append-nil c.written) })
  | inr closed ↦ rw closed (unchanged i c)
]

read_line_self :
    (i : ℕ) (c : Connection) (connects : List Connection)
    → get_elem? connects i ≡ some c
    → get_elem? (read_line i c connects) i ≡ some (record c { buffer = (getline c.buffer).1 })
unfolding read_line
read_line_self i c connects h =
    let c' : Connection = record c { buffer = (getline c.buffer).1 } in
    get_elem?-broadcast i _ (set connects i c') i c' (get_elem?-set_same connects i c' c h)
    ∙ rw (same_index i) refl

read_line_other :
    (i j : ℕ) (c speaker : Connection) (connects : List Connection)
    → j ≢ i
    → get_elem? connects i ≡ some c
    → get_elem? (read_line j speaker connects) i
      ≡ some (write (signed speaker.user (getline speaker.buffer).0) c)
unfolding read_line
read_line_other i j c speaker connects n h =
    let speaker' : Connection = record speaker { buffer = (getline speaker.buffer).1 } in
    get_elem?-broadcast j _ (set connects j speaker') i c (get_elem?-set_ne connects speaker' n ∙ h)
    ∙ rw (other_index i j (λ e. n (sym e))) refl

-- The speaker's buffer loses its first line.
speaker-Follows :
    (i : ℕ) (c : Connection)
    → has_newline c.buffer ≡ true
    → Follows i []
        (record { speaker = i; user = c.user; line = (getline c.buffer).0 } ∷ [])
        c
        (record c { buffer = (getline c.buffer).1 })
speaker-Follows i c h =
    let (whole, line) = getline_lem c.buffer h in
    record {
      lines_read = rw (same_index i) (
          append-nil c.buffer
          ∙ whole
          ∙ sym (append_assoc (getline c.buffer).0 (newline ∷ []) (getline c.buffer).1));
      lines_whole = rw (same_index i) (line, tt);
      delivered = rw (same_index i) (sym (append-nil c.written));
    }

listener-Follows :
    (i j : ℕ) (c : Connection) (user : User) (line : Bytes)
    → j ≢ i
    → Follows i []
        (record { speaker = j; user = user; line = line } ∷ [])
        c
        (write (signed user line) c)
listener-Follows i j c user line n = record {
  lines_read = rw (other_index j i n) (append-nil c.buffer);
  lines_whole = rw (other_index j i n) tt;
  delivered = rw (other_index j i n) refl;
}

own_line :
    (i : ℕ) (connects : List Connection) (c : Connection)
    → get_elem? connects i ≡ some c
    → c.reading && has_newline c.buffer ≡ true
    → (c' : Connection) × (get_elem? (step (line_ready i) connects) i ≡ some c')
      × Follows i [] (said_by i (get_elem? connects i)) c c'
unfolding step
own_line i connects c h ready =
    rw (step, h, ready)
      (_, read_line_self i c connects h, speaker-Follows i c (both_true c.reading _ ready).1)

line_ready-Follows :
    (i j : ℕ) (connects : List Connection) (c : Connection)
    → get_elem? connects i ≡ some c
    → (c' : Connection) × (get_elem? (step (line_ready j) connects) i ≡ some c')
      × Follows i [] (said_by j (get_elem? connects j)) c c'
unfolding step
line_ready-Follows i j connects c h = elim (Option-cases (get_elem? connects j)) [
  | inl missing ↦ rw (step, missing) (c, h, unchanged i c)
  | inr (s, here) ↦ elim (Bool-cases (s.reading && has_newline s.buffer)) [
    | inr idle ↦ rw (step, here, idle) (c, h, unchanged i c)
    | inl ready ↦ elim (Bool-cases (j == i)) [
      | inl same ↦
          let e = (==_iff j i).0 same in
          let s_is_c : s ≡ c = Option-some_inj (sym here ∙ ap (λ k. get_elem? connects k) e ∙ h) in
          let ready' : c.reading && has_newline c.buffer ≡ true = rw s_is_c at ready in
          rw e (own_line i connects c h ready')
      | inr other ↦
          let n : j ≢ i = λ e. ground arith in
          rw (step, here, ready)
            (_, read_line_other i j c s connects n h, listener-Follows i j c s.user _ n)
    ]
  ]
]

-- One event of the server, seen by connection `i`.
pub step-Follows :
    (i : ℕ) (e : Event) (connects : List Connection) (c : Connection)
    → get_elem? connects i ≡ some c
    → (c' : Connection) × (get_elem? (step e connects) i ≡ some c')
      × Follows i (read_at i e connects) (said_at e connects) c c'
unfolding step
step-Follows i accepted connects c h =
    (c, get_elem?-append connects (new_connection ∷ []) i c h, unchanged i c)
step-Follows i accept_failed connects c h = (c, h, unchanged i c)
step-Follows i (received j bytes) connects c h = elim (Bool-cases (j == i)) [
  | inl same ↦
      rw (same, (==_iff j i).0 same, h)
        (_, at_connection_self i (receive bytes) connects c h, receive-Follows i bytes c)
  | inr other ↦
      rw other
        (c, at_connection_ne i j (receive bytes) connects (λ e. ground arith) ∙ h, unchanged i c)
]
step-Follows i (line_ready j) connects c h = line_ready-Follows i j connects c h
step-Follows i (read_failed j) connects c h = elim (Bool-cases (j == i)) [
  | inl same ↦ rw ((==_iff j i).0 same) (
    _,
    at_connection_self i stop_reading connects c h,
    record {
      lines_read = append-nil c.buffer;
      lines_whole = tt;
      delivered = sym (append-nil c.written);
    },
  )
  | inr other ↦
      (c, at_connection_ne i j stop_reading connects (λ e. ground arith) ∙ h, unchanged i c)
]
step-Follows i (written_or_not j) connects c h = (c, h, unchanged i c)
