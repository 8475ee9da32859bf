-- ===== src/Tests/Messages.antt =====
-- messager-cpp: two clients at a server; the line that one of them sends arrives in two pieces.
use high_load_systems.Common.{◌≡◌, refl, List, [], ◌∷◌, some, Bytes, codes, map, get_elem?, arith}
use high_load_systems.Messager.Lines.{split_lines}
use high_load_systems.Messager.Server.{
  Connection, new_connection, Event, accepted, received, line_ready, run_events, step, broadcast,
  read_line,
}
use high_load_systems.Messager.Server.Log.{log, lines_by, heard_by, received_by}
use high_load_systems.Messager.Server.Delivery.{lines_by-split_lines, written-heard_by}
use high_load_systems.Messager.Client.{
  new_client, shown, ClientEvent, arrived, line_arrived, typed, run_client, client_step,
}
use high_load_systems.Messager.Client.Reading.{typed_lines, arrived_in}
use high_load_systems.Messager.Client.Delivered.{announced, others, joined, printed-typed}

abbrev connects : List Connection
connects = new_connection ∷ new_connection ∷ []

abbrev message : Bytes
message = codes "from Anonimous: hi\n"

abbrev events : List Event
events = received 0 (codes "h") ∷ received 0 (codes "i\n") ∷ line_ready 0 ∷ accepted ∷ []

abbrev listener : Connection
listener = record new_connection { written = message ∷ [] }

abbrev sender : List ClientEvent
sender = typed (codes "hi") ∷ []

abbrev receiver : List ClientEvent
receiver = arrived message ∷ line_arrived ∷ []

at_0 : get_elem? (run_events events connects) 0 ≡ some new_connection
unfolding run_events step read_line broadcast
at_0 = refl

at_1 : get_elem? (run_events events connects) 1 ≡ some listener
unfolding run_events step read_line broadcast
at_1 = refl

reads_hi : received_by 0 events connects ≡ codes "hi\n"
unfolding received_by step read_line broadcast
reads_hi = refl

sends_hi : (run_client sender new_client).sent ≡ codes "hi\n"
unfolding run_client client_step
sends_hi = refl

takes_message : arrived_in receiver new_client ≡ joined listener.written
unfolding arrived_in client_step
takes_message = refl

prints : (run_client receiver new_client).printed ≡ codes "Server: from Anonimous: hi" ∷ []
unfolding run_client client_step
prints = refl

nothing_left : (run_client receiver new_client).buffer ≡ []
unfolding run_client client_step
nothing_left = refl

lines_by-split_lines_example :
    split_lines [] (received_by 0 events connects)
    ≡ (lines_by 0 (log events connects), new_connection.buffer)
lines_by-split_lines_example = lines_by-split_lines 0 events connects new_connection refl at_0 refl

written-heard_by_example :
    (c : Connection) × (get_elem? (run_events events connects) 1 ≡ some c)
    × (c.written ≡ heard_by 1 (log events connects))
written-heard_by_example = written-heard_by 1 events connects refl

printed-typed_example :
    ((run_client receiver new_client).printed
      ≡ map shown (map announced (others 1 (log events connects))))
    × (lines_by 0 (others 1 (log events connects)) ≡ typed_lines sender)
printed-typed_example =
    printed-typed 0 1 sender receiver events connects new_connection listener (λ e. omega arith)
      (refl, (refl, tt)) refl refl at_0 at_1 (refl, tt) (rw (reads_hi, sends_hi) refl) takes_message
      refl (rw nothing_left refl)
