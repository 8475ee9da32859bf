-- ===== src/Messager/Client/Reading.antt =====
-- client.cpp: what a client sends is what was typed, and what it prints is what arrived, by lines.
use high_load_systems.Common.{
  ◌≡◌, refl, ap, sym, ◌∙◌, inl, inr, false, Bool-cases, ◌&&◌, not, List, [], ◌∷◌, ◌++◌, map,
  append-nil, append_assoc, if◌then◌else◌, Bytes, All, All-append, both_true, map-append, arith,
}
use high_load_systems.Messager.Lines.{newline, has_newline, getline, split_lines, unlines}
use high_load_systems.Messager.Lines.Split.{
  IsLine, getline_lem, split_lines-unlines, unlines-append,
}
use high_load_systems.Messager.Client.{
  Client, new_client, send_message, shown, ClientEvent, arrived, line_arrived, read_broken, typed,
  client_step, run_client,
}

-- The lines that were typed, and the bytes that arrived.
abbrev pub typed_lines : List ClientEvent → List Bytes
typed_lines [] = []
typed_lines (typed msg ∷ events) = msg ∷ typed_lines events
typed_lines (_ ∷ events) = typed_lines events

abbrev arrived_at : ClientEvent → Client → Bytes
arrived_at (arrived bytes) c = if c.reading && not (has_newline c.buffer) then bytes else []
arrived_at _ c = []

unfoldable pub arrived_in : List ClientEvent → Client → Bytes
arrived_in [] c = []
arrived_in (e ∷ events) c = arrived_at e c ++ arrived_in events (client_step e c)

-- What a stretch of a run makes of a client.
record Reads (bytes : Bytes) (lines : List Bytes) (c c' : Client) : Type 0 where
  pub lines_read : c.buffer ++ bytes ≡ unlines lines ++ c'.buffer
  pub lines_whole : All IsLine lines
  pub lines_shown : c'.printed ≡ c.printed ++ map shown lines

no_lines : (c c' : Client) → c'.buffer ≡ c.buffer → c'.printed ≡ c.printed → Reads [] [] c c'
no_lines c c' same_buffer same_printed = record {
  lines_read = append-nil c.buffer ∙ sym same_buffer;
  lines_whole = tt;
  lines_shown = same_printed ∙ sym (append-nil c.printed);
}

client_step-Reads :
    (e : ClientEvent) (c : Client)
    → (lines : List Bytes) × Reads (arrived_at e c) lines c (client_step e c)
unfolding client_step
client_step-Reads (arrived bytes) c = elim (Bool-cases (c.reading && not (has_newline c.buffer))) [
  | inl open_buffer ↦ (
    [],
    rw open_buffer
        (record { lines_read = refl; lines_whole = tt; lines_shown = sym (append-nil c.printed) }),
  )
  | inr closed ↦ ([], rw closed (no_lines c c refl refl))
]
client_step-Reads line_arrived c = elim (Bool-cases (c.reading && has_newline c.buffer)) [
  | inr idle ↦ ([], rw idle (no_lines c c refl refl))
  | inl ready ↦
      let (whole, line) = getline_lem c.buffer (both_true c.reading _ ready).1 in
      (
        (getline c.buffer).0 ∷ [],
        rw ready (record {
          lines_read =
              append-nil c.buffer
              ∙ whole
              ∙ sym (append_assoc (getline c.buffer).0 (newline ∷ []) (getline c.buffer).1);
          lines_whole = (line, tt);
          lines_shown = refl;
        }),
      )
]
client_step-Reads read_broken c = ([], no_lines c (record c { reading = false }) refl refl)
client_step-Reads (typed msg) c = ([], no_lines c (send_message msg c) refl refl)

Reads-trans :
    (bytes bytes' : Bytes) (lines lines' : List Bytes) (c c' c'' : Client)
    → Reads bytes lines c c'
    → Reads bytes' lines' c' c''
    → Reads (bytes ++ bytes') (lines ++ lines') c c''
Reads-trans bytes bytes' lines lines' c c' c'' F G = record {
  lines_read = rw (unlines-append lines lines') (
      sym (append_assoc c.buffer bytes bytes')
      ∙ ap (λ b. b ++ bytes') F.lines_read
      ∙ append_assoc (unlines lines) c'.buffer bytes'
      ∙ ap (λ b. unlines lines ++ b) G.lines_read
      ∙ sym (append_assoc (unlines lines) (unlines lines') c''.buffer));
  lines_whole = All-append IsLine lines lines' F.lines_whole G.lines_whole;
  lines_shown = rw (map-append shown lines lines') (
      G.lines_shown
      ∙ ap (λ p. p ++ map shown lines') F.lines_shown
      ∙ append_assoc c.printed (map shown lines) (map shown lines'));
}

run_client-Reads :
    (events : List ClientEvent) (c : Client)
    → (lines : List Bytes) × Reads (arrived_in events c) lines c (run_client events c)
unfolding run_client arrived_in
run_client-Reads [] c = ([], no_lines c c refl refl)
run_client-Reads (e ∷ events) c =
    let (lines, F) = client_step-Reads e c in
    let (lines', G) = run_client-Reads events (client_step e c) in
    (lines ++ lines', Reads-trans _ _ lines lines' c (client_step e c) _ F G)

-- With no line left in its buffer, a client has printed the complete lines of what arrived.
pub printed-split_lines :
    (events : List ClientEvent)
    → IsLine (run_client events new_client).buffer
    → (run_client events new_client).printed
      ≡ map shown (split_lines [] (arrived_in events new_client)).0
printed-split_lines events idle =
    let (lines, F) = run_client-Reads events new_client in
    rw (F.lines_read, split_lines-unlines lines _ F.lines_whole idle) F.lines_shown

same_sent : (sent sent' : Bytes) → sent' ≡ sent → sent' ≡ sent ++ []
same_sent sent sent' e = e ∙ sym (append-nil sent)

client_step-sent :
    (e : ClientEvent) (c : Client)
    → (client_step e c).sent ≡ c.sent ++ unlines (typed_lines (e ∷ []))
unfolding client_step
client_step-sent (arrived bytes) c = same_sent c.sent _ (ground arith)
client_step-sent line_arrived c = same_sent c.sent _ (ground arith)
client_step-sent read_broken c = same_sent c.sent _ refl
client_step-sent (typed msg) c = refl

typed_lines-append :
    (xs ys : List ClientEvent) → typed_lines (xs ++ ys) ≡ typed_lines xs ++ typed_lines ys
typed_lines-append [] ys = refl
typed_lines-append (arrived bytes ∷ xs) ys = typed_lines-append xs ys
typed_lines-append (line_arrived ∷ xs) ys = typed_lines-append xs ys
typed_lines-append (read_broken ∷ xs) ys = typed_lines-append xs ys
typed_lines-append (typed msg ∷ xs) ys = ap (λ t. msg ∷ t) (typed_lines-append xs ys)

-- A client sends the lines that were typed, each with a newline.
pub run_client-sent :
    (events : List ClientEvent) (c : Client)
    → (run_client events c).sent ≡ c.sent ++ unlines (typed_lines events)
unfolding run_client
run_client-sent [] c = sym (append-nil c.sent)
run_client-sent (e ∷ events) c =
    run_client-sent events (client_step e c)
    ∙ ap (λ s. s ++ unlines (typed_lines events)) (client_step-sent e c)
    ∙ append_assoc c.sent (unlines (typed_lines (e ∷ []))) (unlines (typed_lines events))
    ∙ ap (λ s. c.sent ++ s)
        (sym (unlines-append (typed_lines (e ∷ [])) (typed_lines events))
          ∙ ap unlines (sym (typed_lines-append (e ∷ []) events)))
