-- ===== src/Server/Actions.antt =====
-- main.cpp: what can happen to a running server, one action at a time: a connection is accepted, an
-- operation of a session's socket completes, or a strand runs the task that it has queued first. The
-- handlers of TcpConnection.cpp work here on the connection that the session manager holds, with the
-- callbacks that CreateSession sets. A connection whose session is gone does nothing to the server.
use own_game_server.Prelude.{
  ℕ, zero, suc, Bool, true, false, not, ◌&&◌, Option, none, some, List, [], ◌∷◌, ◌++◌, String,
  if◌then◌else◌, ◌≡◌,
}
use own_game_server.TcpConnection.{
  TcpConnection, Next, going, bad_pop, not_pending, do_read, do_close, pop_front,
}
use own_game_server.SessionManager.{get_session, close_session}
use own_game_server.MsgRouter.{MsgRouter, Peer, put_peer}
use own_game_server.ReqHandler.{ReqTask, run_task}
use own_game_server.RoomReqHandler.{RoomTask, run_room_task}
use own_game_server.JsonTranslator.{JsonLibrary}
use own_game_server.Server.{Server, req_handler_of, receive_at, accept_connection}

-- `read_done now id bytes`, `read_failed id` and `write_done id failed` are of the socket of session
-- `id`. `accepted` has the arguments of accept_connection, `room_turn` the code that GenRoomCode draws.
pub data Action : Type 0 where
  accepted : Bool → Bool → Bool → ℕ → Action
  read_done : ℕ → ℕ → List ℕ → Action
  read_failed : ℕ → Action
  write_done : ℕ → Bool → Action
  req_turn : Action
  room_turn : String → Action

abbrev pub with_router : (MsgRouter → MsgRouter) → Server → Server
with_router f s = record s { router = f s.router }

abbrev pub with_connection : TcpConnection → Peer → Peer
with_connection c peer = record peer { connection = c }

-- DoClose of a session's connection. Where it calls the close callback, that is CloseSession.
unfoldable pub drop_connection : ℕ → Peer → TcpConnection → MsgRouter → MsgRouter
unfolding do_close close_session
drop_connection id peer c r =
    let r1 : MsgRouter = put_peer id (with_connection (do_close true c) peer) r in
    if not c.closed && c.has_close_callback
    then record r1 { session_manager = (close_session id r1.session_manager).0 }
    else r1

-- The connection before the message callback.
abbrev pub taken : ℕ → List ℕ → Peer → Peer
taken others bytes peer = record peer {
  connection = record peer.connection {
    pending_reads = others;
    received = peer.connection.received ++ bytes ∷ [];
  };
}

-- DoRead, on the connection as the message callback has left it.
unfoldable pub read_on : ℕ → Option Peer → MsgRouter → MsgRouter
unfolding do_read
read_on id none r = r
read_on id (some peer) r = put_peer id (with_connection (do_read peer.connection) peer) r

abbrev pub then_read_on : ℕ → Option Server → Option Server
then_read_on id none = none
then_read_on id (some s) =
    some (with_router (read_on id (get_session id s.router.session_manager)) s)

-- The handler of a read that has brought bytes. The number is that of the reads under way.
unfoldable pub after_read : ℕ → ℕ → Peer → List ℕ → ℕ → Server → Option Server
unfolding receive_at read_on
after_read now id peer bytes zero s = some s
after_read now id peer bytes (suc others) s =
    then_read_on id (receive_at now id (some (taken others bytes peer)) bytes s)

-- The handler of a read that has failed.
unfoldable pub after_failed_read : ℕ → Peer → ℕ → Server → Server
unfolding drop_connection
after_failed_read id peer zero s = s
after_failed_read id peer (suc others) s =
    with_router (drop_connection id peer (record peer.connection { pending_reads = others })) s

-- `none`: the handler of a write takes an element from an empty queue.
abbrev pub put_next : ℕ → Peer → Next → Server → Option Server
put_next id peer (going c) s = some (with_router (put_peer id (with_connection c peer)) s)
put_next id peer bad_pop s = none
put_next id peer not_pending s = some s

-- The handler of a write, with whether it has failed. The number is that of the writes under way.
unfoldable pub after_write : ℕ → Peer → Bool → ℕ → Server → Option Server
unfolding drop_connection pop_front
after_write id peer failed zero s = some s
after_write id peer true (suc others) s =
    some
      (with_router (drop_connection id peer (record peer.connection { pending_writes = others })) s)
after_write id peer false (suc others) s =
    put_next id peer
      (pop_front peer.connection.write_queue (record peer.connection { pending_writes = others })) s

abbrev pub finish_req : List ReqTask → Option (MsgRouter × Bool) → Server → Option Server
finish_req tasks none s = none
finish_req tasks (some (r, answer)) s = some (record s { router = r; req_tasks = tasks })

abbrev pub finish_room : List RoomTask → Option (MsgRouter × Bool) → Server → Option Server
finish_room tasks none s = none
finish_room tasks (some (r, answer)) s = some (record s { router = r; room_tasks = tasks })

module _ {J : Type 0} (lib : JsonLibrary J) (name_of : ℕ → String) where
  -- The first task of a strand, if it has one.
  unfoldable pub run_req : List ReqTask → Server → Option Server
  unfolding run_task req_handler_of
  run_req [] s = some s
  run_req (task ∷ tasks) s = finish_req tasks (run_task (req_handler_of name_of) task s.router) s

  unfoldable pub run_room : String → List RoomTask → Server → Option Server
  unfolding run_room_task
  run_room code [] s = some s
  run_room code (task ∷ tasks) s = finish_room tasks (run_room_task lib code task s.router) s

  -- What an action makes of the server; `none` where the code leaves its defined behaviour, or
  -- throws.
  unfoldable pub act : Action → Server → Option Server
  unfolding accept_connection after_read after_failed_read after_write run_req run_room
  act (accepted failed usable starts now) s = some (accept_connection failed usable starts now s)
  act (read_done now id bytes) s = elim (get_session id s.router.session_manager) [
    | none ↦ some s
    | some peer ↦ after_read now id peer bytes peer.connection.pending_reads s
  ]
  act (read_failed id) s = elim (get_session id s.router.session_manager) [
    | none ↦ some s
    | some peer ↦ some (after_failed_read id peer peer.connection.pending_reads s)
  ]
  act (write_done id failed) s = elim (get_session id s.router.session_manager) [
    | none ↦ some s
    | some peer ↦ after_write id peer failed peer.connection.pending_writes s
  ]
  act req_turn s = run_req s.req_tasks s
  act (room_turn code) s = run_room code s.room_tasks s

  -- The states that a server comes to from `s` by a number of actions.
  pub data Reach (s : Server) : ℕ → Server → Type 0 where
    here : Reach s zero s
    next : {n : ℕ} {t u : Server} (a : Action) → Reach s n t → act a t ≡ some u → Reach s (suc n) u
