-- ===== src/HeartbeatHandler.antt =====
-- business/HeartbeatHandler: the answer to a heartbeat. A `nullptr`, or an empty callback, is `none`.
pub mod Refused
use own_game_server.Prelude.{
  ℕ, Bool, true, false, not, Option, none, some, List, [], ◌∷◌, if◌then◌else◌,
}
use own_game_server.Codec.Header.{type_heartbeat}
use own_game_server.Codec.Encoder.{EncodeMessage}
use own_game_server.ClientSession.{MsgPack}
use own_game_server.MsgRouter.{MsgRouter, send_message_to_session}

pub record HeartbeatHandler : Type 0 where
  pub has_gateway : Bool
  pub heartbeat_callbacks : List (Option (ℕ → MsgRouter → MsgRouter))

unfoldable pub run_heartbeat_callbacks :
    List (Option (ℕ → MsgRouter → MsgRouter)) → ℕ → MsgRouter → MsgRouter
run_heartbeat_callbacks [] session_id r = r
run_heartbeat_callbacks (none ∷ cbs) session_id r = run_heartbeat_callbacks cbs session_id r
run_heartbeat_callbacks (some cb ∷ cbs) session_id r =
    run_heartbeat_callbacks cbs session_id (cb session_id r)

abbrev pub heartbeat_response : MsgPack → EncodeMessage
heartbeat_response pack = record {
  msg_id = pack.msg.msg_id;
  proto_type = type_heartbeat;
  main_type = 0;
  sub_type = 0;
  payload = [];
}

-- HandleDecodedMsg, which runs at once.
unfoldable pub handle_heartbeat : HeartbeatHandler → Option MsgPack → MsgRouter → MsgRouter × Bool
unfolding run_heartbeat_callbacks send_message_to_session
handle_heartbeat h none r = (r, false)
handle_heartbeat h (some pack) r =
    if not h.has_gateway
    then (r, false)
    else (let r1 : MsgRouter =
          run_heartbeat_callbacks h.heartbeat_callbacks pack.sender_session_id r in
        let (r2, msg, answer) =
          send_message_to_session pack.sender_session_id (heartbeat_response pack) r1 in
        (r2, answer))
