-- ===== src/Server/RunTests.antt =====
-- Runs of the server of main.cpp: a client connects, logs in and creates a room.
use own_game_server.Prelude.{
  ℕ, suc, ◌≡◌, ◌≢◌, ◌≤◌, refl, true, false, Option, none, some, List, [], ◌∷◌, String, arith,
  length,
}
use own_game_server.Assoc.{lookup, insert, nat_eq, string_eq}
use own_game_server.Codec.Encoder.{EncodeMessage, encode_sync}
use own_game_server.SessionManager.{get_session}
use own_game_server.Player.{Heap, new_player}
use own_game_server.Room.{GameRoom, lobby, new_room}
use own_game_server.RoomManager.{get_room, room_code_to_id}
use own_game_server.UserSessionMap.{get_user_id, get_session_id}
use own_game_server.MsgRouter.{Peer, send_message_to_user}
use own_game_server.RoomReqHandler.{RoomTask, create_task}
use own_game_server.JsonTranslator.{JsonLibrary}
use own_game_server.Server.{Server, new_server, new_peer}
use own_game_server.Server.Actions.{
  Action, accepted, read_done, read_failed, req_turn, room_turn, act, Reach, here, next,
}
use own_game_server.Server.Posts.{Senders}
use own_game_server.Server.Allocated.{next_of}
use own_game_server.Server.Sessions.{accepted-unbound}
use own_game_server.Server.Departed.{read_failed-refused}
use own_game_server.Server.Lobby.{Reach-IsListed}
use own_game_server.Server.Members.{Reach-AllSeated}
use own_game_server.Room.Seats.{Made}
use own_game_server.Group.Members.{Distinct}
use own_game_server.Player.{player_id_at}
use own_game_server.RoomManager.{GameRoomManager, heap_of}
use own_game_server.Assoc.{emplace}
use own_game_server.Codec.Header.{ProtoHeader, proto_magic, put_header, get_header}
use own_game_server.Codec.Decoder.{decode_sync, decode_loop, next_frame, frame_at}
use own_game_server.RoomManager.{create_room_at, ask_player, publish_room}
use own_game_server.PlayerManager.{create_player}
use own_game_server.Room.{join_room, join_group, map_group_result}
use own_game_server.Player.{write}
use own_game_server.Group.{add_member}

abbrev pub plain_name : ℕ → String
plain_name n = "player"

-- A library that writes one word.
abbrev pub terse : JsonLibrary ℕ
terse = record {
  parse = λ s. none;
  contains = λ key n. false;
  at = λ key n. none;
  get_int = λ n. none;
  get_string = λ n. none;
  is_string = λ n. false;
  value_u32 = λ key n. none;
  value_bool = λ key n. none;
  get_u32 = λ n. none;
  elements = λ n. [];
  dump = λ n. some "json";
  number = λ n. n;
  text = λ s. 0;
  array = λ ns. 0;
  object = λ fields. 0;
}

abbrev heap : Heap
heap = record { at = λ a. new_player plain_name 0; next = 1 }

record Run : Type 0 where
  last : Server
  count : ℕ
  reach : Reach terse plain_name (new_server heap) count last

go_on : (r : Run) (a : Action) (o : Option Server) → act terse plain_name a r.last ≡ o → Run
go_on r a none e = r
go_on r a (some u) e = record { last = u; count = suc r.count; reach = next a r.reach e }

run_from : Run → List Action → Run
unfolding go_on
run_from r [] = r
run_from r (a ∷ as') = run_from (go_on r a (act terse plain_name a r.last) refl) as'

run : List Action → Run
unfolding run_from
run actions = run_from (record { last = new_server heap; count = 0; reach = here }) actions

-- A name of two letters and a password of one.
abbrev pub credentials : List ℕ
credentials = 2 ∷ 97 ∷ 98 ∷ 1 ∷ 49 ∷ []

abbrev login_frame : EncodeMessage
login_frame = record {
  msg_id = 6;
  proto_type = 1;
  main_type = 6;
  sub_type = 0;
  payload = credentials;
}

abbrev create_frame : EncodeMessage
create_frame = record {
  msg_id = 7;
  proto_type = 1;
  main_type = 4;
  sub_type = 1;
  payload = credentials;
}

abbrev actions : List Action
actions =
    accepted false true true 5
    ∷ read_done 10 1 (encode_sync login_frame).encoded_message
    ∷ req_turn
    ∷ read_done 20 1 (encode_sync create_frame).encoded_message
    ∷ room_turn "ABCDEF"
    ∷ []

abbrev hosted : Run
hosted = run actions

abbrev client_at : Option Peer → Peer
client_at none = new_peer 0
client_at (some peer) = peer

-- The code leads to the room of the client, who is user 125 in session 1, which is open and reads.
hosted_lem :
    (room_code_to_id "ABCDEF" hosted.last.router.room_manager ≡ some 1)
    × (get_user_id hosted.last.router.user_session_map 1 ≡ 125)
    × (hosted.count ≡ 5)
    × (length hosted.last.router.session_manager.sessions ≡ 1)
    × ((client : Peer) × (get_session 1 hosted.last.router.session_manager ≡ some client)
        × (client.connection.pending_reads ≡ 1)
        × (client.connection.closed ≡ false)
        × (client.connection.has_close_callback ≡ true))
unfolding run act encode_sync new_server lookup insert new_peer new_room new_player get_user_id
    emplace put_header decode_sync decode_loop next_frame frame_at get_header create_room_at
    ask_player create_player publish_room join_room write join_group map_group_result add_member
hosted_lem = (
  refl,
  refl,
  refl,
  refl,
  (client_at (get_session 1 hosted.last.router.session_manager), refl, refl, refl, refl),
)

-- The header of a data frame with a declared payload of no bytes.
abbrev bare : ProtoHeader
bare = record {
  header = proto_magic;
  version = 1;
  proto_type = 2;
  payload_len = 0;
  flags = 2;
  msg_id_high = 0;
  msg_id_low = 9;
  seq = 0;
  total = 1;
  checksum = 0;
}

abbrev waiting : Option Server → List RoomTask
waiting none = []
waiting (some s) = s.room_tasks

-- The run goes on when the client sends just this header: its type bytes are those that its request to
-- create a room has left in the read buffer, so that an empty request to create a room is posted.
stale_lem :
    waiting (act terse plain_name (read_done 30 1 (put_header bare [])) hosted.last)
    ≡ create_task (record {
      sender_id = 125;
      sender_session_id = 1;
      room_id = 0;
      msg = record { msg_id = 9; proto_type = 0; main_type = 4; sub_type = 1; payload = [] };
    })
      ∷ []
unfolding run act encode_sync new_server lookup insert new_peer new_room new_player get_user_id
    emplace put_header decode_sync decode_loop next_frame frame_at get_header create_room_at
    ask_player create_player publish_room join_room write join_group map_group_result add_member
stale_lem = refl

Reach-IsListed_example :
    ((id : ℕ) (r : GameRoom)
      → get_room id hosted.last.router.room_manager ≡ some r
      → (r.info.state ≡ lobby)
        × (r.handler.ticking ≡ false)
        × (r.handler.armed ≡ false)
        × (r.info.room_id ≡ id))
    × ((code : String) (id : ℕ)
        → room_code_to_id code hosted.last.router.room_manager ≡ some id
        → (r : GameRoom) × (get_room id hosted.last.router.room_manager ≡ some r)
          × (r.info.room_code ≡ code))
Reach-IsListed_example =
    Reach-IsListed terse plain_name heap hosted.count hosted.last hosted.reach
      (omega (arith, hosted_lem.2))

Reach-AllSeated_example :
    let m : GameRoomManager = hosted.last.router.room_manager in
    ((id : ℕ) (r : GameRoom)
      → get_room id m ≡ some r
      → Made (heap_of m).next r.group.members
        × Distinct (player_id_at (heap_of m)) r.group.members
        × (length r.group.members ≤ r.group.capacity))
    × ((id a : ℕ) → lookup id m.players.players ≡ some a → player_id_at (heap_of m) a ≡ id)
Reach-AllSeated_example =
    Reach-AllSeated terse plain_name heap hosted.count hosted.last hosted.reach
      (omega (arith, hosted_lem.2))

accepted-unbound_example :
    let id : ℕ = next_of hosted.last in
    (t : Server) × (act terse plain_name (accepted false true true 30) hosted.last ≡ some t)
    × (get_session id t.router.session_manager ≡ some (new_peer id))
    × (get_user_id t.router.user_session_map id ≡ 0)
    × ((u : ℕ) → get_session_id t.router.user_session_map u ≢ id)
    × Senders (λ i. i ≢ id) t
accepted-unbound_example =
    accepted-unbound terse plain_name heap hosted.count 30 hosted.last hosted.reach
      (omega (arith, hosted_lem.2)) (omega (arith, hosted_lem.3))

read_failed-refused_example :
    (t : Server) × (act terse plain_name (read_failed 1) hosted.last ≡ some t)
    × (t.router.user_session_map ≡ hosted.last.router.user_session_map)
    × ((v : Server)
        → Reach terse plain_name t 3 v
        → (get_session 1 v.router.session_manager ≡ none)
          × ((u : ℕ) (msg : EncodeMessage)
              → get_session_id v.router.user_session_map u ≡ 1
              → send_message_to_user u msg v.router ≡ (v.router, msg, false)))
read_failed-refused_example =
    let (client, there, reads, up, calls) = hosted_lem.4 in
    read_failed-refused terse plain_name heap hosted.count 3 1 0 hosted.last client hosted.reach
      there reads up calls (omega (arith, hosted_lem.2))
