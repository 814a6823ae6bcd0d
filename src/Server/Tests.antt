-- ===== src/Server/Tests.antt =====
-- A server with two sessions, of which the first has the user 125, who is in a room.
use own_game_server.Prelude.{
  ℕ, ◌<◌, ◌≡◌, ◌↔◌, ◌⊎◌, ◌≤◌, refl, true, false, none, some, List, [], ◌∷◌, arith, String, length,
}
use own_game_server.Assoc.{lookup, insert, nat_eq, string_eq}
use own_game_server.Codec.Encoder.{EncodeMessage, encode_sync}
use own_game_server.ClientSession.{MsgPack, copied, moved}
use own_game_server.Messages.{DbLoginReq}
use own_game_server.SessionManager.{get_session}
use own_game_server.UserSessionMap.{get_session_id, get_user_id}
use own_game_server.Player.{new_player}
use own_game_server.Room.{GameRoom, GameRoomInfo, lobby, new_room}
use own_game_server.MsgRouter.{MsgRouter, Answer, send_message_to_user, broadcast_to_room}
use own_game_server.MsgRouter.Delivery.{Arrives, numbered, send_message_to_user-Arrives}
use own_game_server.MsgRouter.Dispatch.{broadcast_to_room-others}
use own_game_server.HeartbeatHandler.{handle_heartbeat, run_heartbeat_callbacks}
use own_game_server.HeartbeatHandler.Refused.{handle_heartbeat-unanswered}
use own_game_server.ReqHandler.{
  login_task, run_task, handle_login_request, read_login, login_response, validate_login,
}
use own_game_server.JsonTranslator.{JsonLibrary}
use own_game_server.RoomReqHandler.{handle_room_join_request}
use own_game_server.RoomReqHandler.Requests.{handle_room_join_request-none, IsUnwritten}
use own_game_server.RoomReqHandler.Password.{asking, handle_room_join_request-password}
use own_game_server.Server.{
  Server, receive, initialize, req_handler_of, heartbeat_handler_at, new_peer,
}
use own_game_server.Server.Arrival.{login_pack, receive-login}
use own_game_server.Server.Takeover.{called_back, handle_login_request-takeover}

abbrev plain_name : ℕ → String
plain_name n = "player"

abbrev den_info : GameRoomInfo
den_info = record {
  room_id = 1;
  room_code = "AAAAAA";
  room_name = "den";
  password = "secret";
  owner_id = 125;
  capacity = 3;
  player_count = 1;
  state = lobby;
  selected_map_path = "field";
  players = [];
  seat_index = 0;
}

abbrev den : GameRoom
den = record (new_room den_info) { group = record { group_id = 1; capacity = 3; members = 3 ∷ [] } }

abbrev stage : MsgRouter
stage = record {
  user_session_map = record { user_to_session = (125, 1) ∷ []; session_to_user = (1, 125) ∷ [] };
  has_session_manager = true;
  session_manager = record {
    sessions = (1, new_peer 1) ∷ (2, new_peer 2) ∷ [];
    last_heartbeat_at = (1, 0) ∷ (2, 0) ∷ [];
    next_session_id = 3;
    heartbeat_sweep_running = false;
    sweep_armed = false;
    closed = [];
  };
  has_room_manager = true;
  room_manager = record {
    rooms = (1, den) ∷ [];
    room_code_map = ("AAAAAA", 1) ∷ [];
    next_room_id = 2;
    has_players = true;
    players = record {
      players = (125, 3) ∷ [];
      heap = record { at = λ a. new_player plain_name 125; next = 4 };
    };
  };
  msg_handlers = [];
  next_msg_id = 10;
}

abbrev hello : EncodeMessage
hello = record { msg_id = 0; proto_type = 1; main_type = 1; sub_type = 0; payload = 104 ∷ 105 ∷ [] }

hello_encodes : (encode_sync (numbered 10 hello)).success ≡ true
unfolding encode_sync numbered
hello_encodes = refl

send_message_to_user-Arrives_example :
    Arrives 1 hello stage (new_peer 1) (send_message_to_user 125 hello stage)
unfolding lookup get_session_id new_peer
send_message_to_user-Arrives_example =
    send_message_to_user-Arrives 125 1 hello stage (new_peer 1) refl refl (omega arith) refl refl
      (omega arith) (omega arith) hello_encodes

broadcast_to_room-others_example :
    get_session 2 (broadcast_to_room 1 hello stage).0.session_manager
    ≡ get_session 2 stage.session_manager
unfolding lookup get_session_id new_room new_player
broadcast_to_room-others_example =
    broadcast_to_room-others 1 2 den hello stage refl (omega arith, tt)

abbrev beat : MsgPack
beat = record {
  sender_id = 0;
  sender_session_id = 2;
  room_id = 0;
  msg = record { msg_id = 5; proto_type = 0; main_type = 0; sub_type = 0; payload = [] };
}

handle_heartbeat-unanswered_example :
    ((handle_heartbeat (heartbeat_handler_at 700) (some beat) stage).1 ≡ false)
    × (get_session 2
          (handle_heartbeat (heartbeat_handler_at 700) (some beat) stage).0.session_manager
        ≡ get_session 2
            (run_heartbeat_callbacks
              (heartbeat_handler_at 700).heartbeat_callbacks
              2
              stage).session_manager)
unfolding heartbeat_handler_at
handle_heartbeat-unanswered_example =
    handle_heartbeat-unanswered (heartbeat_handler_at 700) beat stage 2 refl

-- The login of a user whose name has two letters.
abbrev login_of : ℕ → ℕ → MsgPack
login_of letter session_id = record {
  sender_id = 0;
  sender_session_id = session_id;
  room_id = 0;
  msg = record {
    msg_id = 6;
    proto_type = 0;
    main_type = 6;
    sub_type = 0;
    payload = 2 ∷ letter ∷ 98 ∷ 1 ∷ 49 ∷ [];
  };
}

abbrev user_ab : DbLoginReq
user_ab = record { user_name = 97 ∷ 98 ∷ []; password = 49 ∷ [] }

abbrev user_cb : DbLoginReq
user_cb = record { user_name = 99 ∷ 98 ∷ []; password = 49 ∷ [] }

reads_ab : read_login (login_of 97 1).msg.payload ≡ some user_ab
unfolding read_login
reads_ab = refl

reads_cb : read_login (login_of 99 2).msg.payload ≡ some user_cb
unfolding read_login
reads_cb = refl

-- A frame with the login of the second user, for a server whose handlers are registered.
abbrev login_msg : EncodeMessage
login_msg = record {
  msg_id = 6;
  proto_type = 1;
  main_type = 6;
  sub_type = 0;
  payload = 2 ∷ 99 ∷ 98 ∷ 1 ∷ 49 ∷ [];
}

login_encodes : (encode_sync login_msg).success ≡ true
unfolding encode_sync
login_encodes = refl

abbrev server : Server
server = record { router = initialize stage; req_tasks = []; room_tasks = [] }

receive-login_example :
    let pack : MsgPack = login_pack 2 login_msg server in
    (t : Server) × (a : Answer) × (receive 700 2 (encode_sync login_msg).encoded_message server
      ≡ some t)
    × (t.req_tasks ≡ login_task pack ∷ [])
    × (t.room_tasks ≡ [])
    × (run_task (req_handler_of plain_name) (login_task pack) t.router ≡ some (a.0, true))
    × Arrives 2
        (login_response pack (validate_login user_cb))
        (called_back plain_name pack user_cb t.router)
        (record (new_peer 2) {
          client = moved [] (copied (encode_sync login_msg).encoded_message (new_peer 2).client);
        })
        a
    × (get_session_id a.0.user_session_map 125 ≡ 2)
    × (get_user_id a.0.user_session_map 2 ≡ 125)
unfolding lookup new_peer initialize insert
receive-login_example =
    receive-login 700 2 login_msg server (new_peer 2) refl refl refl
      (record { msg_id_bound = omega arith }) login_encodes (omega arith) refl refl refl plain_name
      user_cb reads_cb (omega arith) (omega arith) refl refl (omega arith)

handle_login_request-takeover_example :
    (r1 : MsgRouter) × (r2 : MsgRouter) × (handle_login_request
        (req_handler_of plain_name)
        (login_of 97 1)
        stage
      ≡ some (r1, true))
    × (handle_login_request (req_handler_of plain_name) (login_of 99 2) r1 ≡ some (r2, true))
    × (get_session_id r1.user_session_map 125 ≡ 1)
    × (get_session_id r2.user_session_map 125 ≡ 2)
    × (get_user_id r2.user_session_map 1 ≡ 0)
handle_login_request-takeover_example =
    handle_login_request-takeover plain_name (login_of 97 1) (login_of 99 2) user_ab user_cb stage
      reads_ab reads_cb (omega arith) refl (omega arith) (omega arith) (omega arith)

-- A library that writes nothing.
abbrev silent : JsonLibrary ℕ
silent = record {
  parse = λ s. none;
  contains = λ key n. false;
  at = λ key n. none;
  get_int = λ n. none;
  get_string = λ n. none;
  is_string = λ n. false;
  value_u32 = λ key n. none;
  value_bool = λ key n. none;
  get_u32 = λ n. none;
  elements = λ n. [];
  dump = λ n. some "";
  number = λ n. n;
  text = λ s. 0;
  array = λ ns. 0;
  object = λ fields. 0;
}

abbrev knock : MsgPack
knock = record {
  sender_id = 125;
  sender_session_id = 1;
  room_id = 0;
  msg = record { msg_id = 7; proto_type = 0; main_type = 4; sub_type = 2; payload = 65 ∷ 65 ∷ [] };
}

handle_room_join_request-none_example : (handle_room_join_request silent knock stage ≡ none) ↔ (
    (length knock.msg.payload < 6)
    ⊎ ((6 ≤ length knock.msg.payload) × IsUnwritten silent knock stage))
handle_room_join_request-none_example = handle_room_join_request-none silent knock stage

abbrev aaaaaa : List ℕ
aaaaaa = 65 ∷ 65 ∷ 65 ∷ 65 ∷ 65 ∷ 65 ∷ []

handle_room_join_request-password_example :
    handle_room_join_request silent (asking knock aaaaaa (115 ∷ [])) stage
    ≡ handle_room_join_request silent (asking knock aaaaaa []) stage
handle_room_join_request-password_example =
    handle_room_join_request-password silent knock aaaaaa (115 ∷ []) [] refl stage
