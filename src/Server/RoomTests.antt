-- ===== src/Server/RoomTests.antt =====
-- Rooms with two players in the server of main.cpp: a broadcast, and a room that is created and joined.
use own_game_server.Prelude.{◌+◌, ◌≡◌, refl, true, false, some, [], ◌∷◌, arith, text_of, bytes_of}
use own_game_server.Assoc.{lookup, insert, nat_eq, string_eq}
use own_game_server.Codec.Encoder.{EncodeMessage, encode_sync}
use own_game_server.ClientSession.{MsgPack}
use own_game_server.TcpConnection.{send}
use own_game_server.SessionManager.{get_session}
use own_game_server.Messages.{DbLoginReq}
use own_game_server.Player.{Heap, new_player}
use own_game_server.Room.{GameRoom, GameRoomInfo, lobby, new_room}
use own_game_server.RoomManager.{get_room, room_code_to_id}
use own_game_server.UserSessionMap.{get_session_id}
use own_game_server.MsgRouter.{
  MsgRouter, send_message_to_user, room_manager_broadcast, broadcast_to_room,
}
use own_game_server.MsgRouter.Delivery.{numbered}
use own_game_server.MsgRouter.Broadcast.{broadcast_to_room-reaches}
use own_game_server.ReqHandler.{read_login}
use own_game_server.RoomReqHandler.{
  room_wanted, create_response, join_response, new_player_msg, with_rooms, info_text, create_task,
  join_task, run_room_task,
}
use own_game_server.RoomReqHandler.Meeting.{create-join}
use own_game_server.Server.{new_peer}
use own_game_server.RoomManager as M
use own_game_server.RoomManager.{create_room, get_room_info, GameRoomManager, heap_of}
use own_game_server.RoomManager.{create_room_at, ask_player, publish_room}
use own_game_server.Room.{join_room, join_group, map_group_result}
use own_game_server.Group.{add_member}
use own_game_server.Server.RunTests.{plain_name, terse, credentials}

-- Two players, the users 125 and 126 at the addresses 3 and 4.
abbrev duo_heap : Heap
duo_heap = record { at = λ a. new_player plain_name (122 + a); next = 5 }

abbrev duo_info : GameRoomInfo
duo_info = record {
  room_id = 1;
  room_code = "AAAAAA";
  room_name = "den";
  password = "secret";
  owner_id = 125;
  capacity = 3;
  player_count = 2;
  state = lobby;
  selected_map_path = "field";
  players = [];
  seat_index = 0;
}

abbrev den : GameRoom
den = record (new_room duo_info) {
  group = record { group_id = 1; capacity = 3; members = 3 ∷ 4 ∷ [] };
}

abbrev duo : MsgRouter
duo = record {
  user_session_map = record {
    user_to_session = (125, 1) ∷ (126, 2) ∷ [];
    session_to_user = (1, 125) ∷ (2, 126) ∷ [];
  };
  has_session_manager = true;
  session_manager = record {
    sessions = (1, new_peer 1) ∷ (2, new_peer 2) ∷ [];
    last_heartbeat_at = (1, 0) ∷ (2, 0) ∷ [];
    next_session_id = 3;
    heartbeat_sweep_running = false;
    sweep_armed = false;
    closed = [];
  };
  has_room_manager = true;
  room_manager = record {
    rooms = (1, den) ∷ [];
    room_code_map = ("AAAAAA", 1) ∷ [];
    next_room_id = 2;
    has_players = true;
    players = record { players = (125, 3) ∷ (126, 4) ∷ []; heap = duo_heap };
  };
  msg_handlers = [];
  next_msg_id = 10;
}

abbrev hello : EncodeMessage
hello = record { msg_id = 0; proto_type = 1; main_type = 1; sub_type = 0; payload = 104 ∷ 105 ∷ [] }

hello_encodes : (encode_sync (numbered 10 hello)).success ≡ true
unfolding encode_sync numbered
hello_encodes = refl

broadcast_to_room-reaches_example :
    ((broadcast_to_room 1 hello duo).2 ≡ true)
    × (get_session 2 (broadcast_to_room 1 hello duo).0.session_manager
        ≡ some (record (new_peer 2) {
          connection =
              send (encode_sync (numbered 10 hello)).encoded_message (new_peer 2).connection;
        }))
unfolding lookup get_session_id new_peer new_player new_room
broadcast_to_room-reaches_example =
    broadcast_to_room-reaches 1 126 2 den (125 ∷ []) [] hello duo (new_peer 2) refl refl refl refl
      refl (omega arith, tt) tt (omega arith) refl refl (omega arith) (omega arith) (omega arith)
      hello_encodes

abbrev creating : MsgPack
creating = record {
  sender_id = 125;
  sender_session_id = 1;
  room_id = 0;
  msg = record { msg_id = 7; proto_type = 0; main_type = 4; sub_type = 1; payload = credentials };
}

abbrev joining : MsgPack
joining = record {
  sender_id = 126;
  sender_session_id = 2;
  room_id = 0;
  msg = record {
    msg_id = 8;
    proto_type = 0;
    main_type = 4;
    sub_type = 2;
    payload = 65 ∷ 66 ∷ 67 ∷ 68 ∷ 69 ∷ 70 ∷ [];
  };
}

abbrev asked : DbLoginReq
asked = record { user_name = 97 ∷ 98 ∷ []; password = 49 ∷ [] }

written :
    info_text terse
      (get_room_info 2 (create_room (room_wanted creating asked) "ABCDEF" duo.room_manager).0)
    ≡ some "json"
unfolding info_text create_room create_room_at ask_player publish_room lookup insert new_room
    join_room join_group map_group_result add_member get_room_info new_player text_of room_wanted
written = refl

written_again :
    info_text terse (
      get_room_info 2
        (M.join_room 2 126
          (create_room (room_wanted creating asked) "ABCDEF" duo.room_manager).0).0)
    ≡ some "json"
unfolding info_text create_room create_room_at ask_player publish_room lookup insert new_room
    join_room join_group map_group_result add_member get_room_info new_player text_of M.join_room
    room_wanted
written_again = refl

create-join_example :
    let m1 : GameRoomManager =
      (create_room (room_wanted creating asked) "ABCDEF" duo.room_manager).0 in
    let m2 : GameRoomManager = (M.join_room 2 126 m1).0 in
    let r1 : MsgRouter =
      (send_message_to_user 125 (create_response creating "json") (with_rooms m1 duo)).0 in
    let sent : MsgRouter =
      (send_message_to_user 126 (join_response joining (bytes_of "json")) (with_rooms m2 r1)).0 in
    let r2 : MsgRouter = (room_manager_broadcast 2 new_player_msg sent).0 in
    (room : GameRoom) × (run_room_task terse "ABCDEF" (create_task creating) duo ≡ some (r1, true))
    × (run_room_task terse "" (join_task joining) r1 ≡ some (r2, true))
    × (room_code_to_id "ABCDEF" r2.room_manager ≡ some 2)
    × (get_room 2 r2.room_manager ≡ some room)
    × (room.info.owner_id ≡ 125)
    × (room.group.members ≡ 3 ∷ 4 ∷ [])
unfolding read_login text_of lookup new_player
create-join_example =
    create-join terse creating joining asked "ABCDEF" "" duo 3 4 "json" "json" refl (omega arith)
      refl refl refl refl refl (omega arith) (omega arith) (omega arith) written written_again
