-- ===== src/Messager/Client/Delivered.antt =====
-- client.cpp and server.cpp together: a line typed at one client is printed by every other one.
use high_load_systems.Common.{
  ℕ, ◌≡◌, ◌≢◌, refl, ap, sym, ◌∙◌, inl, inr, false, Bool-cases, List, [], ◌∷◌, ◌++◌, map, some,
  append_assoc, ◌==◌, if◌then◌else◌, Bytes, codes, All, get_elem?, arith,
}
use high_load_systems.Messager.Lines.{newline, split_lines, unlines}
use high_load_systems.Messager.Lines.Split.{IsLine, split_lines-whole}
use high_load_systems.Messager.Server.{Connection, new_connection, Event, run_events, signed}
use high_load_systems.Messager.Server.Log.{Said, log, lines_by, heard_by, received_by}
use high_load_systems.Messager.Server.Delivery.{
  lines_by-split_lines, written-heard_by, same_connection,
}
use high_load_systems.Messager.Server.Names.{IsAnonymous, IsSpoken, log-IsSpoken}
use high_load_systems.Messager.Client.{new_client, shown, ClientEvent, run_client}
use high_load_systems.Messager.Client.Reading.{
  typed_lines, arrived_in, printed-split_lines, run_client-sent,
}

-- What others than `j` said, and the text that each of them makes the clients print.
abbrev pub others : ℕ → List Said → List Said
others j [] = []
others j (s ∷ said) = if s.speaker == j then others j said else s ∷ others j said

abbrev pub announced : Said → Bytes
announced s = codes "from Anonimous: " ++ s.line

-- The bytes of the messages that were written to a socket.
abbrev pub joined : List Bytes → Bytes
joined [] = []
joined (text ∷ texts) = text ++ joined texts

signed-announced : (s : Said) → IsSpoken s → signed s.user s.line ≡ announced s ++ newline ∷ []
signed-announced s h = rw h.0 refl

joined-heard_by :
    (j : ℕ) (said : List Said)
    → All IsSpoken said
    → joined (heard_by j said) ≡ unlines (map announced (others j said))
joined-heard_by j [] a = refl
joined-heard_by j (s ∷ said) a = elim (Bool-cases (s.speaker == j)) [
  | inl own ↦ rw own (joined-heard_by j said a.1)
  | inr other ↦ rw other (
      ap (λ t. t ++ joined (heard_by j said)) (signed-announced s a.0)
      ∙ append_assoc (announced s) (newline ∷ []) (joined (heard_by j said))
      ∙ ap (λ t. announced s ++ (newline ∷ t)) (joined-heard_by j said a.1))
]

announced-IsLine :
    (j : ℕ) (said : List Said) → All IsSpoken said → All IsLine (map announced (others j said))
announced-IsLine j [] a = tt
announced-IsLine j (s ∷ said) a = elim (Bool-cases (s.speaker == j)) [
  | inl own ↦ rw own (announced-IsLine j said a.1)
  | inr other ↦ rw other (a.0.1, announced-IsLine j said a.1)
]

lines_by-others :
    (i j : ℕ) (said : List Said) → i ≢ j → lines_by i (others j said) ≡ lines_by i said
lines_by-others i j [] n = refl
lines_by-others i j (s ∷ said) n = elim (Bool-cases (s.speaker == j)) [
  | inl own ↦
      let apart : (s.speaker == i) ≡ false = ground (arith) in
      rw (own, apart) (lines_by-others i j said n)
  | inr other ↦
      rw other (ap (λ l. if s.speaker == i then s.line ∷ l else l) (lines_by-others i j said n))
]

-- For two connections i and j of a server whose connections all have the user of their
-- constructor, both fresh at the start: if the server reads from i what its client sends, the
-- client of j receives what the server writes to j, the lines typed hold no newline, and no line
-- waits in the buffer of connection i or of the client of j, then that client has printed the
-- lines that others than j said, in the order of the server, and those of i among them are the
-- lines typed at the client of i.
pub printed-typed :
    (i j : ℕ) (sender receiver : List ClientEvent) (events : List Event)
    (connects : List Connection) (c d : Connection)
    → i ≢ j
    → All IsAnonymous connects
    → get_elem? connects i ≡ some new_connection
    → get_elem? connects j ≡ some new_connection
    → get_elem? (run_events events connects) i ≡ some c
    → get_elem? (run_events events connects) j ≡ some d
    → All IsLine (typed_lines sender)
    → received_by i events connects ≡ (run_client sender new_client).sent
    → arrived_in receiver new_client ≡ joined d.written
    → IsLine c.buffer
    → IsLine (run_client receiver new_client).buffer
    → ((run_client receiver new_client).printed
        ≡ map shown (map announced (others j (log events connects))))
      × (lines_by i (others j (log events connects)) ≡ typed_lines sender)
printed-typed i j sender receiver events connects c d apart named hi hj ei ej typed carried
      delivered idle done =
    let (d', ej', heard) = written-heard_by j events connects hj in
    let e : d ≡ d' = same_connection _ j d d' ej ej' in
    let arrived : arrived_in receiver new_client
        ≡ unlines (map announced (others j (log events connects))) =
      delivered
      ∙ ap (λ x. joined (Connection.written x)) e
      ∙ ap joined heard
      ∙ joined-heard_by j _ (log-IsSpoken events connects named) in
    let whole : split_lines [] (unlines (typed_lines sender))
        ≡ (lines_by i (log events connects), c.buffer) =
      ap (λ s. split_lines [] s) (sym (carried ∙ run_client-sent sender new_client))
      ∙ lines_by-split_lines i events connects c hi ei idle in
    (
      printed-split_lines receiver done
          ∙ ap (λ b. map shown (split_lines [] b).0) arrived
          ∙ ap (map shown)
              (split_lines-whole _ (announced-IsLine j _ (log-IsSpoken events connects named))),
      lines_by-others i j _ apart
          ∙ ap (λ r. r.0) (sym whole)
          ∙ split_lines-whole (typed_lines sender) typed,
    )
