-- ===== src/ReqHandler.antt =====
-- business/ReqHandler: logging in. A read outside the payload is `none`. The handler runs on a strand,
-- so that a request is one step. The callbacks change what the router points to.
pub mod Wire
mod Tests
use own_game_server.Prelude.{
  ℕ, ◌+◌, ◌%◌, Bool, true, false, not, Option, none, some, List, [], ◌∷◌, ◌++◌, length, take, drop,
  ltb, nat_beq, if◌then◌else◌, put32, u32_mod, bytes_of,
}
use own_game_server.Codec.Header.{type_control}
use own_game_server.Codec.Encoder.{EncodeMessage}
use own_game_server.ClientSession.{MsgPack}
use own_game_server.Messages.{
  login_req, LoginResult, login_result_code, DbLoginReq, DbLoginRsp, UserLoginInfo,
}
use own_game_server.MsgRouter.{MsgRouter, send_message_to_session}

pub record ReqHandler : Type 0 where
  pub login_callbacks : List (UserLoginInfo → MsgRouter → MsgRouter)
  pub logout_callbacks : List (UserLoginInfo → MsgRouter → MsgRouter)

-- A request that has been posted to the strand.
pub data ReqTask : Type 0 where
  login_task logout_task : MsgPack → ReqTask

abbrev pub authentication : MsgPack → Bool
authentication pack = true

-- HandleDecodedMsg: `none` where it returns false.
unfoldable pub handle_decoded_msg : MsgPack → Option ReqTask
handle_decoded_msg pack =
    if not (authentication pack)
    then none
    else if not (nat_beq pack.msg.main_type login_req)
    then none
    else if nat_beq pack.msg.sub_type 0
    then some (login_task pack)
    else if nat_beq pack.msg.sub_type 1
    then some (logout_task pack)
    else none

-- memcpy of `n` bytes, with what is behind them.
unfoldable pub read_bytes : ℕ → List ℕ → Option (List ℕ × List ℕ)
read_bytes n bytes = if ltb (length bytes) n then none else some (take n bytes, drop n bytes)

-- A byte with a size, and so many bytes.
unfoldable pub read_sized : List ℕ → Option (List ℕ × List ℕ)
unfolding read_bytes
read_sized [] = none
read_sized (size ∷ bytes) = read_bytes size bytes

abbrev pub with_password : List ℕ → Option (List ℕ × List ℕ) → Option DbLoginReq
with_password user_name none = none
with_password user_name (some (password, rest)) =
    some (record { user_name = user_name; password = password })

unfoldable pub after_user_name : Option (List ℕ × List ℕ) → Option DbLoginReq
unfolding read_sized
after_user_name none = none
after_user_name (some (user_name, rest)) = with_password user_name (read_sized rest)

-- The reads of HandleLoginRequest.
unfoldable pub read_login : List ℕ → Option DbLoginReq
unfolding read_sized after_user_name
read_login payload = after_user_name (read_sized payload)

unfoldable pub validate_login : DbLoginReq → DbLoginRsp
unfolding bytes_of
validate_login req = record {
  user_id = (123 + length req.user_name) % u32_mod;
  result = LoginResult.success;
  error_msg = "";
  user_name = bytes_of "Player" ++ req.user_name;
}

unfoldable pub response_payload : DbLoginRsp → List ℕ
response_payload rsp = put32 rsp.user_id (length rsp.user_name % 256 ∷ rsp.user_name)

unfoldable pub login_response : MsgPack → DbLoginRsp → EncodeMessage
unfolding response_payload login_result_code
login_response pack rsp = record {
  msg_id = pack.msg.msg_id;
  proto_type = type_control;
  main_type = login_req;
  sub_type = login_result_code rsp.result;
  payload = response_payload rsp;
}

unfoldable pub send_back_login_response : MsgPack → DbLoginRsp → MsgRouter → MsgRouter
unfolding login_response send_message_to_session
send_back_login_response pack rsp r =
    (send_message_to_session pack.sender_session_id (login_response pack rsp) r).0

unfoldable pub run_callbacks :
    List (UserLoginInfo → MsgRouter → MsgRouter) → UserLoginInfo → MsgRouter → MsgRouter
run_callbacks [] info r = r
run_callbacks (cb ∷ cbs) info r = run_callbacks cbs info (cb info r)

unfoldable pub login_info : MsgPack → DbLoginRsp → UserLoginInfo
login_info pack rsp = record {
  result = rsp.result;
  user_id = rsp.user_id;
  session_id = pack.sender_session_id;
  error_msg = rsp.error_msg;
}

-- The rest of HandleLoginRequest, for the request that has been read.
unfoldable pub log_in :
    ReqHandler → MsgPack → Option DbLoginReq → MsgRouter → Option (MsgRouter × Bool)
unfolding validate_login run_callbacks login_info send_back_login_response
log_in h pack none r = none
log_in h pack (some req) r =
    let rsp : DbLoginRsp = validate_login req in
    some (
      send_back_login_response pack rsp (run_callbacks h.login_callbacks (login_info pack rsp) r),
      true,
    )

unfoldable pub handle_login_request : ReqHandler → MsgPack → MsgRouter → Option (MsgRouter × Bool)
unfolding read_login log_in
handle_login_request h pack r = log_in h pack (read_login pack.msg.payload) r

-- The logout callbacks are not called.
unfoldable pub handle_logout_request : ReqHandler → MsgPack → MsgRouter → Option (MsgRouter × Bool)
handle_logout_request h pack r = some (r, true)

unfoldable pub run_task : ReqHandler → ReqTask → MsgRouter → Option (MsgRouter × Bool)
unfolding handle_login_request handle_logout_request
run_task h (login_task pack) r = handle_login_request h pack r
run_task h (logout_task pack) r = handle_logout_request h pack r
