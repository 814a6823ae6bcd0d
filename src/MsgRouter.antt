-- ===== src/MsgRouter.antt =====
-- protocol/Router/MsgRouter: messages to users, sessions and rooms, and from sessions to handlers.
-- The record holds the objects that the router points to, which other parts of the server share, and
-- the process-wide counter of outbound message ids; `has_…` says that a weak pointer can be locked.
-- A session's object and its socket's connection are a Peer. A message is passed by reference.
pub mod Delivery
pub mod Dispatch
pub mod Quiet
pub mod Broadcast
use own_game_server.Prelude.{
  ℕ, Bool, true, false, not, Option, none, some, List, [], ◌∷◌, map, nat_beq, if◌then◌else◌,
}
use own_game_server.Assoc.{Assoc, lookup, insert, erase, nat_eq}
use own_game_server.Codec.Encoder.{EncodeMessage}
use own_game_server.ClientSession.{ClientSession, MsgPack, Sent, send_message}
use own_game_server.TcpConnection.{TcpConnection, send}
use own_game_server.SessionManager.{SessionManager, get_session}
use own_game_server.UserSessionMap.{
  UserSessionMap, bind, unbind, unbind_by_session_id, get_session_id, get_user_id,
}
use own_game_server.RoomManager.{GameRoomManager, room_broad_cast}

pub record Peer : Type 0 where
  pub client : ClientSession
  pub connection : TcpConnection

-- The implementations of IMsgHandler.
pub data Handler : Type 0 where
  heartbeat_handler req_handler room_req_handler : Handler

-- An entry `none` of `msg_handlers` is a handler that is no more.
pub record MsgRouter : Type 0 where
  pub user_session_map : UserSessionMap
  pub has_session_manager : Bool
  pub session_manager : SessionManager Peer
  pub has_room_manager : Bool
  pub room_manager : GameRoomManager
  pub msg_handlers : Assoc ℕ (Option Handler)
  pub next_msg_id : ℕ

-- MsgRouter(user_session_map): an exception is `none`. The managers are set later; the objects that
-- these setters will point to are the record's from the start.
unfoldable pub new_router :
    Option UserSessionMap → SessionManager Peer → GameRoomManager → Option MsgRouter
new_router none sessions rooms = none
new_router (some users) sessions rooms = some (record {
  user_session_map = users;
  has_session_manager = false;
  session_manager = sessions;
  has_room_manager = false;
  room_manager = rooms;
  msg_handlers = [];
  next_msg_id = 1;
})

unfoldable pub set_session_manager : MsgRouter → MsgRouter
set_session_manager r = record r { has_session_manager = true }

unfoldable pub set_room_manager : MsgRouter → MsgRouter
set_room_manager r = record r { has_room_manager = true }

-- RegisterUserSession: a `nullptr` is `none`.
unfoldable pub register_user_session : ℕ → Option ClientSession → MsgRouter → MsgRouter × Bool
register_user_session user_id none r = (r, false)
register_user_session user_id (some s) r =
    (record r { user_session_map = bind r.user_session_map user_id s.session_id }, true)

unfoldable pub unregister_user_session : ℕ → MsgRouter → MsgRouter × Bool
unregister_user_session user_id r =
    let (m, answer) = unbind r.user_session_map user_id in
    (record r { user_session_map = m }, answer)

unfoldable pub unregister_session_by_id : ℕ → MsgRouter → MsgRouter × Bool
unregister_session_by_id session_id r =
    let (m, answer) = unbind_by_session_id r.user_session_map session_id in
    (record r { user_session_map = m }, answer)

-- The result of a send: the router, the message with its id, and what is returned.
abbrev pub Answer : Type 0
Answer = MsgRouter × EncodeMessage × Bool

abbrev pub is_some {ℓ} : {A : Type ℓ} → Option A → Bool
is_some none = false
is_some (some a) = true

-- What SendMessage does to the connection of the session.
unfoldable pub hand_over : Option (List ℕ) → Peer → Peer
unfolding send
hand_over none peer = peer
hand_over (some bytes) peer = record peer { connection = send bytes peer.connection }

-- The write to a session object.
abbrev pub put_peer : ℕ → Peer → MsgRouter → MsgRouter
put_peer id peer r = record r {
  session_manager = record r.session_manager {
    sessions = insert id peer r.session_manager.sessions;
  };
}

-- session->SendMessage(msg), with what it has sent.
unfoldable pub send_to_peer : ℕ → Peer → Sent → MsgRouter → Answer
unfolding hand_over
send_to_peer id peer sent r = (
  put_peer id (hand_over sent.written peer) (record r { next_msg_id = sent.next_id }),
  sent.msg,
  is_some sent.written,
)

-- The result of GetSession, as a `nullptr` or a session.
unfoldable pub send_if_found : ℕ → Option Peer → EncodeMessage → MsgRouter → Answer
unfolding send_to_peer send_message
send_if_found id none msg r = (r, msg, false)
send_if_found id (some peer) msg r =
    send_to_peer id peer (send_message peer.client r.next_msg_id msg) r

unfoldable pub send_message_to_session : ℕ → EncodeMessage → MsgRouter → Answer
unfolding send_if_found
send_message_to_session id msg r =
    if not r.has_session_manager
    then (r, msg, false)
    else send_if_found id (get_session id r.session_manager) msg r

unfoldable pub send_message_to_user : ℕ → EncodeMessage → MsgRouter → Answer
unfolding send_message_to_session get_session_id
send_message_to_user id msg r =
    let sid : ℕ = get_session_id r.user_session_map id in
    if nat_beq sid 0 then (r, msg, false) else send_message_to_session sid msg r

-- GameRoom::Broadcast's calls, which pass on one message.
unfoldable pub send_each : List ℕ → EncodeMessage → MsgRouter → MsgRouter × EncodeMessage
unfolding send_message_to_user
send_each [] msg r = (r, msg)
send_each (id ∷ ids) msg r =
    let (r', msg', answer) = send_message_to_user id msg r in send_each ids msg' r'

-- RoomBroadCast of the room manager, whose gateway is the router.
unfoldable pub room_manager_broadcast : ℕ → EncodeMessage → MsgRouter → Answer
unfolding send_each room_broad_cast
room_manager_broadcast id msg r =
    let (calls, answer) = room_broad_cast id msg r.room_manager in
    let (r', msg') = send_each (map (λ (c : ℕ × EncodeMessage). c.0) calls) msg r in
    (r', msg', answer)

unfoldable pub broadcast_to_room : ℕ → EncodeMessage → MsgRouter → Answer
unfolding room_manager_broadcast
broadcast_to_room id msg r =
    if not r.has_room_manager then (r, msg, false) else room_manager_broadcast id msg r

-- What onMsgReceive does with what it finds in the table.
unfoldable pub dispatch :
    Option (Option Handler) → MsgPack → MsgRouter → MsgRouter × Option (Handler × MsgPack)
unfolding get_user_id
dispatch none pack r = (r, none)
dispatch (some none) pack r =
    (record r { msg_handlers = erase pack.msg.main_type r.msg_handlers }, none)
dispatch (some (some h)) pack r =
    (r, some (h, record pack { sender_id = get_user_id r.user_session_map pack.sender_session_id }))

-- onMsgReceive, up to the call of the handler: the handler and the pack that it is given.
unfoldable pub on_msg_receive : MsgPack → MsgRouter → MsgRouter × Option (Handler × MsgPack)
unfolding dispatch
on_msg_receive pack r = dispatch (lookup pack.msg.main_type r.msg_handlers) pack r

unfoldable pub unregister_msg_handler : ℕ → MsgRouter → MsgRouter × Bool
unregister_msg_handler main_type r = (
  record r { msg_handlers = erase main_type r.msg_handlers },
  is_some (lookup main_type r.msg_handlers),
)

unfoldable pub register_msg_handler : ℕ → Option Handler → MsgRouter → MsgRouter
register_msg_handler main_type h r = record r { msg_handlers = insert main_type h r.msg_handlers }
