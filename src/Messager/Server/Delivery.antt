-- ===== src/Messager/Server/Delivery.antt =====
-- server.cpp: in a whole run each line of a client reaches every other client, in one order.
use high_load_systems.Common.{
  ℕ, ◌≡◌, sym, ◌∙◌, false, List, [], ◌∷◌, ◌++◌, some, get_elem?, Option-some_inj,
}
use high_load_systems.Messager.Lines.{has_newline, unlines, split_lines}
use high_load_systems.Messager.Lines.Split.{split_lines-unlines}
use high_load_systems.Messager.Server.{Connection, new_connection, Event, step, run_events}
use high_load_systems.Messager.Server.Log.{
  log, lines_by, heard_by, received_by, Follows, unchanged, Follows-trans,
}
use high_load_systems.Messager.Server.Steps.{step-Follows}

-- A whole run, seen by a connection.
run_events-Follows :
    (i : ℕ) (events : List Event) (connects : List Connection) (c : Connection)
    → get_elem? connects i ≡ some c
    → (c' : Connection) × (get_elem? (run_events events connects) i ≡ some c')
      × Follows i (received_by i events connects) (log events connects) c c'
unfolding run_events log received_by
run_events-Follows i [] connects c h = (c, h, unchanged i c)
run_events-Follows i (e ∷ events) connects c h =
    let (c', h', F) = step-Follows i e connects c h in
    let (c'', h'', G) = run_events-Follows i events (step e connects) c' h' in
    (c'', h'', Follows-trans i _ _ _ _ c c' c'' F G)

-- Two looks at one connection.
pub same_connection :
    (connects : List Connection) (i : ℕ) (c c' : Connection)
    → get_elem? connects i ≡ some c
    → get_elem? connects i ≡ some c'
    → c ≡ c'
same_connection connects i c c' h h' = Option-some_inj (sym h ∙ h')

-- In every run in which a fresh connection ends with no line waiting in its buffer, the lines
-- that the server broadcast for it are the complete lines of the bytes read from it, however
-- those were cut into pieces, and the buffer holds the rest.
pub lines_by-split_lines :
    (i : ℕ) (events : List Event) (connects : List Connection) (c : Connection)
    → get_elem? connects i ≡ some new_connection
    → get_elem? (run_events events connects) i ≡ some c
    → has_newline c.buffer ≡ false
    → split_lines [] (received_by i events connects) ≡ (lines_by i (log events connects), c.buffer)
lines_by-split_lines i events connects c h h' idle =
    let (c', at_end, F) = run_events-Follows i events connects new_connection h in
    let e = same_connection _ i c' c at_end h' in
    let whole : received_by i events connects
        ≡ unlines (lines_by i (log events connects)) ++ c.buffer =
      rw e at F.lines_read in
    rw whole (split_lines-unlines (lines_by i (log events connects)) c.buffer F.lines_whole idle)

-- In every run of the server a connection that was fresh at the start stays, and what was
-- written to it are the messages of all other connections in the order of their broadcasts.
pub written-heard_by :
    (i : ℕ) (events : List Event) (connects : List Connection)
    → get_elem? connects i ≡ some new_connection
    → (c : Connection) × (get_elem? (run_events events connects) i ≡ some c)
      × (c.written ≡ heard_by i (log events connects))
written-heard_by i events connects h =
    let (c, at_end, F) = run_events-Follows i events connects new_connection h in
    (c, at_end, F.delivered)
