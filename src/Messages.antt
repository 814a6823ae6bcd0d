-- ===== src/Messages.antt =====
-- protocol/MessageProto.hpp and core/Types.h: the message kinds and result codes shared by the
-- network and the business side. Ids are unsigned integers; 0 stands for "no id".
use own_game_server.Prelude.{ℕ, Bool, true, false, String, List}

-- MsgProto::MsgType, as the byte that goes over the wire.
abbrev pub heartbeat_msg : ℕ
heartbeat_msg = 0

abbrev pub chat_msg : ℕ
chat_msg = 1

abbrev pub room_req : ℕ
room_req = 4

abbrev pub room_rsp : ℕ
room_rsp = 5

abbrev pub login_req : ℕ
login_req = 6

abbrev pub state_control : ℕ
state_control = 7

pub data RoomReqResult : Type 0 where
  ok full not_found already_in_room not_in_room not_owner invalid_capacity : RoomReqResult
  already_running not_ready game_running gen_roomcode_failed illegal_operation : RoomReqResult
  empty_req not_authorized unknown_error : RoomReqResult

-- The number of an enumerator, which the handlers send as a byte.
unfoldable pub room_req_result_code : RoomReqResult → ℕ
room_req_result_code RoomReqResult.ok = 0
room_req_result_code RoomReqResult.full = 1
room_req_result_code RoomReqResult.not_found = 2
room_req_result_code RoomReqResult.already_in_room = 3
room_req_result_code RoomReqResult.not_in_room = 4
room_req_result_code RoomReqResult.not_owner = 5
room_req_result_code RoomReqResult.invalid_capacity = 6
room_req_result_code RoomReqResult.already_running = 7
room_req_result_code RoomReqResult.not_ready = 8
room_req_result_code RoomReqResult.game_running = 9
room_req_result_code RoomReqResult.gen_roomcode_failed = 10
room_req_result_code RoomReqResult.illegal_operation = 11
room_req_result_code RoomReqResult.empty_req = 12
room_req_result_code RoomReqResult.not_authorized = 13
room_req_result_code RoomReqResult.unknown_error = 14

pub data LoginResult : Type 0 where
  success invalid_credentials user_banned server_full already_online unknown : LoginResult

-- The number of an enumerator, which the login response has as its sub-type.
unfoldable pub login_result_code : LoginResult → ℕ
login_result_code LoginResult.success = 0
login_result_code LoginResult.invalid_credentials = 1
login_result_code LoginResult.user_banned = 2
login_result_code LoginResult.server_full = 3
login_result_code LoginResult.already_online = 4
login_result_code LoginResult.unknown = 5

-- `result == LoginResult::SUCCESS`
abbrev pub is_success : LoginResult → Bool
is_success LoginResult.success = true
is_success _ = false

-- MsgProto::RoomReqType
abbrev pub create_room_req : ℕ
create_room_req = 1

abbrev pub join_room_req : ℕ
join_room_req = 2

abbrev pub leave_room_req : ℕ
leave_room_req = 3

abbrev pub list_rooms_req : ℕ
list_rooms_req = 4

-- DBLoginReq and DBLoginRsp: the names and the password are lists of bytes.
pub record DbLoginReq : Type 0 where
  pub user_name : List ℕ
  pub password : List ℕ

pub record DbLoginRsp : Type 0 where
  pub user_id : ℕ
  pub result : LoginResult
  pub error_msg : String
  pub user_name : List ℕ

pub record UserLoginInfo : Type 0 where
  pub result : LoginResult
  pub user_id : ℕ
  pub session_id : ℕ
  pub error_msg : String
