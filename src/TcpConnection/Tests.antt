-- ===== src/TcpConnection/Tests.antt =====
-- A connection that sends three messages, the last from the callback of a read.
use own_game_server.Prelude.{
  ◌≤◌, ◌≡◌, ◌↔◌, refl, true, false, not, some, List, [], ◌∷◌, drop, if◌then◌else◌,
}
use own_game_server.TcpConnection.{
  TcpConnection, start_it, close_it, send_it, Event, call, wrote, read, going, bad_pop, step, run,
  new_connection, is_empty,
}
use own_game_server.TcpConnection.Outbox.{given, observe_all, empty_outbox}
use own_game_server.TcpConnection.Refine.{run_refines}
use own_game_server.TcpConnection.Flight.{run-flight, bad_pop_iff}

abbrev talk : List Event
talk =
    call start_it
    ∷ call (send_it (1 ∷ []))
    ∷ call (send_it (2 ∷ []))
    ∷ wrote false
    ∷ read (some (9 ∷ [])) (send_it (3 ∷ []) ∷ [])
    ∷ []

abbrev talking : TcpConnection
talking = record {
  started = true;
  closed = false;
  write_queue = (2 ∷ []) ∷ (3 ∷ []) ∷ [];
  has_close_callback = true;
  has_message_callback = true;
  pending_reads = 1;
  pending_writes = 1;
  writes = (1 ∷ []) ∷ (2 ∷ []) ∷ [];
  received = (9 ∷ []) ∷ [];
  close_calls = 0;
}

talk_lem : run talk (new_connection true true) ≡ going talking
unfolding run step new_connection
talk_lem = refl

run_refines_example :
    (talking.writes ≡ given (observe_all true talk empty_outbox))
    × (talking.closed ≡ not (observe_all true talk empty_outbox).is_open)
    × (talking.closed ≡ false
        → talking.write_queue
          ≡ drop
              (observe_all true talk empty_outbox).finished
              (observe_all true talk empty_outbox).accepted)
run_refines_example = run_refines true true talk talking talk_lem

run-flight_example :
    (talking.pending_reads ≤ 1)
    × (talking.pending_writes ≤ 1)
    × (talking.closed ≡ false
        → talking.pending_writes ≡ (if is_empty talking.write_queue then 0 else 1))
    × (talking.close_calls ≡ (if talking.closed then 1 else 0))
run-flight_example = run-flight true talk talking talk_lem

-- A message is on its way when the connection is closed.
abbrev hang_up : List Event
hang_up = call start_it ∷ call (send_it (1 ∷ [])) ∷ call close_it ∷ []

abbrev hung_up : TcpConnection
hung_up = record {
  started = true;
  closed = true;
  write_queue = [];
  has_close_callback = false;
  has_message_callback = true;
  pending_reads = 1;
  pending_writes = 1;
  writes = (1 ∷ []) ∷ [];
  received = [];
  close_calls = 1;
}

hang_up_lem : run hang_up (new_connection true true) ≡ going hung_up
unfolding run step new_connection
hang_up_lem = refl

bad_pop_iff_example :
    (step (wrote false) hung_up ≡ bad_pop)
    ↔ ((hung_up.closed ≡ true) × (hung_up.pending_writes ≡ 1))
bad_pop_iff_example = bad_pop_iff true hang_up hung_up hang_up_lem
