-- ===== src/Server.antt =====
-- main.cpp and network/TcpServer.cpp: the parts of the server put together, and what reaches them from
-- outside. The tasks that the handlers post are run in order on the strand of each handler.
pub mod Takeover
pub mod Login
pub mod Arrival
pub mod Actions
pub mod Effects
pub mod Posts
pub mod Sockets
pub mod Allocated
pub mod Reachable
pub mod Sessions
pub mod Gone
pub mod Departed
pub mod Rooms
pub mod Lobby
pub mod Members
mod Tests
mod RunTests
mod RoomTests
use own_game_server.Prelude.{
  ℕ, Bool, true, false, Option, none, some, List, [], ◌∷◌, ◌++◌, String, if◌then◌else◌,
}
use own_game_server.Assoc.{Assoc, nat_eq}
use own_game_server.Messages.{UserLoginInfo, heartbeat_msg, login_req, room_req}
use own_game_server.ClientSession.{
  ClientSession, MsgPack, Received, received, overflow, bad_read, stuck, on_socket_recv,
  fresh_buffer,
}
use own_game_server.TcpConnection.{TcpConnection, new_connection, start}
use own_game_server.SessionManager.{
  SessionManager, create_session, get_session, on_session_heartbeat, close_session,
}
use own_game_server.UserSessionMap.{UserSessionMap, empty_map}
use own_game_server.UserSessionMap as U
use own_game_server.Player.{Heap}
use own_game_server.PlayerManager.{GamePlayerManager}
use own_game_server.PlayerManager as P
use own_game_server.RoomManager.{GameRoomManager}
use own_game_server.MsgRouter.{
  MsgRouter, Peer, put_peer, Handler, heartbeat_handler, req_handler, room_req_handler,
  register_msg_handler, on_msg_receive, set_session_manager, set_room_manager,
}
use own_game_server.HeartbeatHandler.{HeartbeatHandler, handle_heartbeat}
use own_game_server.ReqHandler.{ReqHandler, ReqTask, run_task}
use own_game_server.ReqHandler as Q
use own_game_server.RoomReqHandler.{RoomTask, run_room_task}
use own_game_server.RoomReqHandler as O
use own_game_server.JsonTranslator.{JsonLibrary}

-- The callbacks that initialize registers.
unfoldable pub user_map_login : UserLoginInfo → MsgRouter → MsgRouter
unfolding U.on_user_login
user_map_login info r = record r { user_session_map = U.on_user_login r.user_session_map info }

unfoldable pub user_map_logout : UserLoginInfo → MsgRouter → MsgRouter
unfolding U.on_user_logout
user_map_logout info r = record r { user_session_map = U.on_user_logout r.user_session_map info }

abbrev pub with_players : (GamePlayerManager → GamePlayerManager) → MsgRouter → MsgRouter
with_players f r = record r {
  room_manager = record r.room_manager { players = f r.room_manager.players };
}

unfoldable pub player_login : (ℕ → String) → UserLoginInfo → MsgRouter → MsgRouter
unfolding P.on_user_login
player_login name_of info r = with_players (P.on_user_login name_of info) r

unfoldable pub player_logout : UserLoginInfo → MsgRouter → MsgRouter
unfolding P.on_user_logout
player_logout info r = with_players (P.on_user_logout info) r

unfoldable pub note_heartbeat : ℕ → ℕ → MsgRouter → MsgRouter
unfolding on_session_heartbeat
note_heartbeat now session_id r = record r {
  session_manager = on_session_heartbeat session_id now r.session_manager;
}

-- The handlers of initialize. `now` is the time that a heartbeat's callback reads.
unfoldable pub req_handler_of : (ℕ → String) → ReqHandler
unfolding user_map_login player_login user_map_logout player_logout
req_handler_of name_of = record {
  login_callbacks = user_map_login ∷ player_login name_of ∷ [];
  logout_callbacks = user_map_logout ∷ player_logout ∷ [];
}

unfoldable pub heartbeat_handler_at : ℕ → HeartbeatHandler
unfolding note_heartbeat
heartbeat_handler_at now = record {
  has_gateway = true;
  heartbeat_callbacks = some (note_heartbeat now) ∷ [];
}

-- The objects that TcpServer makes, and the managers that `initialize` makes, with the player object
-- that no address holds. The pointers between them are not set yet.
unfoldable pub new_managers : Heap → MsgRouter
new_managers heap = record {
  user_session_map = empty_map;
  has_session_manager = false;
  session_manager = record {
    sessions = [];
    last_heartbeat_at = [];
    next_session_id = 1;
    heartbeat_sweep_running = false;
    sweep_armed = false;
    closed = [];
  };
  has_room_manager = false;
  room_manager = record {
    rooms = [];
    room_code_map = [];
    next_room_id = 1;
    has_players = false;
    players = record { players = []; heap = heap };
  };
  msg_handlers = [];
  next_msg_id = 1;
}

-- SetPlayerManager of the room manager.
unfoldable pub set_player_manager : MsgRouter → MsgRouter
set_player_manager r = record r { room_manager = record r.room_manager { has_players = true } }

-- The callbacks are those of `req_handler_of` and `heartbeat_handler_at`.
unfoldable pub initialize : MsgRouter → MsgRouter
unfolding register_msg_handler set_player_manager set_room_manager set_session_manager
initialize r = register_msg_handler room_req (some room_req_handler) (
    register_msg_handler login_req (some req_handler) (
      register_msg_handler heartbeat_msg (some heartbeat_handler)
        (set_session_manager (set_room_manager (set_player_manager r)))))

pub record Server : Type 0 where
  pub router : MsgRouter
  pub req_tasks : List ReqTask
  pub room_tasks : List RoomTask

unfoldable pub new_server : Heap → Server
unfolding new_managers initialize
new_server heap = record {
  router = initialize (new_managers heap);
  req_tasks = [];
  room_tasks = [];
}

abbrev pub posted {ℓ} : {A : Type ℓ} → Option A → List A
posted none = []
posted (some task) = task ∷ []

-- The call of a handler: a heartbeat is handled at once, a request is posted.
unfoldable pub hand : ℕ → Handler → MsgPack → Server → Server
unfolding handle_heartbeat heartbeat_handler_at Q.handle_decoded_msg O.handle_decoded_msg
hand now heartbeat_handler pack s = record s {
  router = (handle_heartbeat (heartbeat_handler_at now) (some pack) s.router).0;
}
hand now req_handler pack s = record s {
  req_tasks = s.req_tasks ++ posted (Q.handle_decoded_msg pack);
}
hand now room_req_handler pack s = record s {
  room_tasks = s.room_tasks ++ posted (O.handle_decoded_msg pack);
}

unfoldable pub hand_if_found : ℕ → MsgRouter × Option (Handler × MsgPack) → Server → Server
unfolding hand
hand_if_found now (r, none) s = record s { router = r }
hand_if_found now (r, some (h, pack)) s = hand now h pack (record s { router = r })

-- onMsgReceive for each message that a session has decoded.
unfoldable pub receive_packs : ℕ → List MsgPack → Server → Server
unfolding hand_if_found on_msg_receive
receive_packs now [] s = s
receive_packs now (pack ∷ packs) s =
    receive_packs now packs (hand_if_found now (on_msg_receive pack s.router) s)

-- `none`: the session writes or reads past its read buffer.
unfoldable pub received_by : ℕ → ℕ → Peer → Received → Server → Option Server
unfolding receive_packs
received_by now id peer (received client packs) s = some (
    receive_packs now packs
      (record s { router = put_peer id (record peer { client = client }) s.router }))
received_by now id peer overflow s = none
received_by now id peer bad_read s = none
received_by now id peer stuck s = none

-- The message callback of a session's connection.
unfoldable pub receive_at : ℕ → ℕ → Option Peer → List ℕ → Server → Option Server
unfolding received_by on_socket_recv
receive_at now id none bytes s = some s
receive_at now id (some peer) bytes s = received_by now id peer (on_socket_recv peer.client bytes) s

unfoldable pub receive : ℕ → ℕ → List ℕ → Server → Option Server
unfolding receive_at
receive now id bytes s = receive_at now id (get_session id s.router.session_manager) bytes s

-- The session that CreateSession makes: its connection has both callbacks and has been started.
unfoldable pub new_peer : ℕ → Peer
unfolding new_connection start
new_peer id = record {
  client = record { session_id = id; buffer = []; behind = fresh_buffer; has_connection = true };
  connection = start (new_connection true true);
}

-- The handler of async_accept in accept_connections, which goes on accepting.
unfoldable pub accept_connection : Bool → Bool → Bool → ℕ → Server → Server
unfolding create_session new_peer
accept_connection failed usable starts now s = if failed then s else record s {
  router = record s.router {
    session_manager = (create_session new_peer usable starts now s.router.session_manager).0;
  };
}
