-- ===== src/RoomReqHandler.antt =====
-- business/GameRoom/RoomReqHandler: the requests for rooms. The room manager is the one that the router
-- points to. A handler that reads outside its payload, or throws, is `none`; it runs on a strand, so
-- that a request is one step. `lib` is the JSON library, `code` what GenRoomCode draws.
pub mod Requests
pub mod Password
pub mod Meeting
use own_game_server.Prelude.{
  ℕ, Bool, true, false, not, Option, none, some, List, [], ◌∷◌, String, length, take, ltb, nat_beq,
  if◌then◌else◌, text_of, bytes_of,
}
use own_game_server.Codec.Header.{type_control, type_data}
use own_game_server.Codec.Encoder.{EncodeMessage}
use own_game_server.ClientSession.{MsgPack}
use own_game_server.Messages.{
  room_req, room_rsp, chat_msg, create_room_req, join_room_req, leave_room_req, list_rooms_req,
  RoomReqResult, room_req_result_code, DbLoginReq,
}
use own_game_server.Room.{GameRoomInfo, lobby, is_ok}
use own_game_server.RoomManager.{
  GameRoomManager, room_code_to_id, join_room, leave_room_of, create_room, get_room_info,
  get_room_list,
}
use own_game_server.MsgRouter.{
  MsgRouter, send_message_to_user, send_message_to_session, room_manager_broadcast,
}
use own_game_server.ReqHandler.{read_login}
use own_game_server.JsonTranslator.{
  JsonLibrary, serialize_room_info, serialize_room_list, serialize_create_room_result,
}

-- A request that has been posted to the strand.
pub data RoomTask : Type 0 where
  create_task join_task leave_task list_task : MsgPack → RoomTask

abbrev pub authentication : MsgPack → Bool
authentication pack = true

-- HandleDecodedMsg: `none` where it returns false.
unfoldable pub handle_decoded_msg : MsgPack → Option RoomTask
handle_decoded_msg pack =
    if not (authentication pack)
    then none
    else if not (nat_beq pack.msg.main_type room_req)
    then none
    else if nat_beq pack.msg.sub_type 1
    then some (create_task pack)
    else if nat_beq pack.msg.sub_type 2
    then some (join_task pack)
    else if nat_beq pack.msg.sub_type 3
    then some (leave_task pack)
    else if nat_beq pack.msg.sub_type 4
    then some (list_task pack)
    else none

abbrev pub with_rooms : GameRoomManager → MsgRouter → MsgRouter
with_rooms m r = record r { room_manager = m }

-- The first six bytes of the payload, which the caller has found to be there.
abbrev pub room_code_of : MsgPack → String
room_code_of pack = text_of (take 6 pack.msg.payload)

unfoldable pub join_response : MsgPack → List ℕ → EncodeMessage
join_response pack payload = record {
  msg_id = pack.msg.msg_id;
  proto_type = type_control;
  main_type = room_rsp;
  sub_type = join_room_req;
  payload = payload;
}

-- The message to a room that has a new player.
abbrev pub new_player_msg : EncodeMessage
new_player_msg = record {
  msg_id = 0;
  proto_type = type_control;
  main_type = chat_msg;
  sub_type = 0;
  payload = bytes_of "NewPlayer Joined Room";
}

-- gateway_->SendMessageToUser, whose answer is not looked at.
unfoldable pub reply : ℕ → EncodeMessage → MsgRouter → MsgRouter
unfolding send_message_to_user
reply user msg r = (send_message_to_user user msg r).0

unfoldable pub announce : ℕ → MsgRouter → MsgRouter
unfolding room_manager_broadcast bytes_of
announce room_id r = (room_manager_broadcast room_id new_player_msg r).0

-- HandleRoomLeaveRequest: the bytes are copied into a text that stays empty.
unfoldable pub leave_response : MsgPack → RoomReqResult → EncodeMessage
unfolding room_req_result_code
leave_response pack out_res = record {
  msg_id = pack.sender_id;
  proto_type = type_control;
  main_type = room_rsp;
  sub_type = leave_room_req;
  payload = room_req_result_code out_res ∷ [];
}

unfoldable pub leave_found : MsgPack → Option ℕ → MsgRouter → Option (MsgRouter × Bool)
unfolding reply leave_response leave_room_of
leave_found pack none r = some (r, false)
leave_found pack (some room_id) r =
    let (m, out_res) = leave_room_of room_id pack.sender_id r.room_manager in
    some (reply pack.sender_id (leave_response pack out_res) (with_rooms m r), true)

unfoldable pub handle_room_leave_request : MsgPack → MsgRouter → Option (MsgRouter × Bool)
unfolding leave_found
handle_room_leave_request pack r =
    if ltb (length pack.msg.payload) 6
    then none
    else leave_found pack (room_code_to_id "" r.room_manager) r

-- The room that HandleRoomCreateRequest asks for.
unfoldable pub room_wanted : MsgPack → DbLoginReq → GameRoomInfo
unfolding text_of
room_wanted pack texts = record {
  room_id = 0;
  room_code = "";
  room_name = text_of texts.user_name;
  password = text_of texts.password;
  owner_id = pack.sender_id;
  capacity = 4;
  player_count = 0;
  state = lobby;
  selected_map_path = "default_map.json";
  players = [];
  seat_index = 0;
}

unfoldable pub create_response : MsgPack → String → EncodeMessage
unfolding bytes_of
create_response pack str = record {
  msg_id = pack.msg.msg_id;
  proto_type = type_data;
  main_type = room_rsp;
  sub_type = create_room_req;
  payload = bytes_of str;
}

unfoldable pub list_response : MsgPack → String → EncodeMessage
unfolding bytes_of
list_response pack str = record {
  msg_id = pack.msg.msg_id;
  proto_type = type_control;
  main_type = room_rsp;
  sub_type = list_rooms_req;
  payload = bytes_of str;
}

module _ {J : Type 0} (lib : JsonLibrary J) where
  -- The text for a room that may be there: nothing where it is not.
  unfoldable pub info_text : Option GameRoomInfo → Option String
  unfolding serialize_room_info
  info_text none = some ""
  info_text (some info) = serialize_room_info lib info

  -- GetRoomInfo of the room that a code leads to. `none` is an exception: of an empty optional, or of
  -- `dump`.
  unfoldable pub text_for_code : String → GameRoomManager → Option String
  unfolding info_text get_room_info
  text_for_code code m = elim (room_code_to_id code m) [
    | none ↦ none
    | some id ↦ info_text (get_room_info id m)
  ]

  -- The reply to a player who has been let in, and the message to the room.
  unfoldable pub welcome : MsgPack → ℕ → Option String → MsgRouter → Option (MsgRouter × Bool)
  unfolding reply announce join_response bytes_of
  welcome pack room_id none r = none
  welcome pack room_id (some str) r =
      some (announce room_id (reply pack.sender_id (join_response pack (bytes_of str)) r), true)

  -- HandleRoomJoinRequest after JoinRoom.
  unfoldable pub joined :
      MsgPack → ℕ → GameRoomManager × RoomReqResult → MsgRouter → Option (MsgRouter × Bool)
  unfolding welcome text_for_code reply join_response room_req_result_code
  joined pack room_id (m, out_res) r =
      if is_ok out_res
      then welcome pack room_id (text_for_code (room_code_of pack) m) (with_rooms m r)
      else some (
        reply pack.sender_id (join_response pack (room_req_result_code out_res ∷ []))
            (with_rooms m r),
        true,
      )

  unfoldable pub join_found : MsgPack → Option ℕ → MsgRouter → Option (MsgRouter × Bool)
  unfolding joined join_room reply join_response room_req_result_code
  join_found pack none r = some (
    reply pack.sender_id (join_response pack (room_req_result_code RoomReqResult.not_found ∷ [])) r,
    false,
  )
  join_found pack (some room_id) r =
      joined pack room_id (join_room room_id pack.sender_id r.room_manager) r

  -- HandleRoomJoinRequest. The password behind the code is copied and not used.
  unfoldable pub handle_room_join_request : MsgPack → MsgRouter → Option (MsgRouter × Bool)
  unfolding join_found text_of
  handle_room_join_request pack r =
      if ltb (length pack.msg.payload) 6
      then none
      else join_found pack (room_code_to_id (room_code_of pack) r.room_manager) r

  -- The text of the answer to a request to create a room.
  unfoldable pub create_text : String → GameRoomManager × RoomReqResult → Option String
  unfolding text_for_code serialize_create_room_result
  create_text code (m, out_res) =
      if is_ok out_res then text_for_code code m else serialize_create_room_result lib "" out_res

  unfoldable pub create_answered : MsgPack → Option String → MsgRouter → Option (MsgRouter × Bool)
  unfolding reply create_response
  create_answered pack none r = none
  create_answered pack (some str) r = some (reply pack.sender_id (create_response pack str) r, true)

  unfoldable pub create_wanted :
      MsgPack → String → Option DbLoginReq → MsgRouter → Option (MsgRouter × Bool)
  unfolding create_answered create_text create_room room_wanted
  create_wanted pack code none r = none
  create_wanted pack code (some texts) r =
      let a : GameRoomManager × RoomReqResult =
        create_room (room_wanted pack texts) code r.room_manager in
      create_answered pack (create_text code a) (with_rooms a.0 r)

  -- HandleRoomCreateRequest: name and password are laid out as in a login request.
  unfoldable pub handle_room_create_request :
      String → MsgPack → MsgRouter → Option (MsgRouter × Bool)
  unfolding create_wanted read_login
  handle_room_create_request code pack r = create_wanted pack code (read_login pack.msg.payload) r

  unfoldable pub list_answered : MsgPack → Option String → MsgRouter → Option (MsgRouter × Bool)
  unfolding list_response send_message_to_session
  list_answered pack none r = none
  list_answered pack (some str) r =
      some ((send_message_to_session pack.sender_session_id (list_response pack str) r).0, true)

  unfoldable pub handle_room_list_request : MsgPack → MsgRouter → Option (MsgRouter × Bool)
  unfolding list_answered serialize_room_list get_room_list
  handle_room_list_request pack r =
      list_answered pack (serialize_room_list lib (get_room_list r.room_manager)) r

  unfoldable pub run_room_task : String → RoomTask → MsgRouter → Option (MsgRouter × Bool)
  unfolding handle_room_create_request handle_room_join_request handle_room_leave_request
      handle_room_list_request
  run_room_task code (create_task pack) r = handle_room_create_request code pack r
  run_room_task code (join_task pack) r = handle_room_join_request pack r
  run_room_task code (leave_task pack) r = handle_room_leave_request pack r
  run_room_task code (list_task pack) r = handle_room_list_request pack r
