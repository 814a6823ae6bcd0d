-- ===== src/Server/Login.antt =====
-- The answer that a login gets at the server of main.cpp.
use own_game_server.Prelude.{
  ℕ, ◌+◌, ◌<◌, ◌≡◌, ◌≢◌, ◌∙◌, refl, ap, true, some, arith, String, length, u64_mod,
}
use own_game_server.Assoc.{nat_eq}
use own_game_server.Codec.Encoder.{EncodeMessage, encode_sync}
use own_game_server.Codec.Header.{type_control}
use own_game_server.Codec.Refusals.{encode_sync_success}
use own_game_server.ClientSession.{MsgPack}
use own_game_server.SessionManager.{get_session}
use own_game_server.UserSessionMap.{UserSessionMap, bind, get_session_id, get_user_id}
use own_game_server.UserSessionMap.Consistency.{bind_sessions, bind_users}
use own_game_server.Messages.{DbLoginReq}
use own_game_server.MsgRouter.{MsgRouter, Peer, Answer, send_message_to_session}
use own_game_server.MsgRouter.Delivery.{
  numbered, same_payload, same_proto_type, Arrives, send_message_to_session-Arrives,
}
use own_game_server.ReqHandler.{
  handle_login_request, read_login, validate_login, login_response, response_payload, run_callbacks,
  send_back_login_response,
}
use own_game_server.Server.{req_handler_of, user_map_login, player_login}
use own_game_server.Server.Takeover.{
  called_back, logged_in, handle_login_request-read, logged_in-map,
}

response_lengths :
    (pack : MsgPack) (req : DbLoginReq)
    → length (login_response pack (validate_login req)).payload ≡ 11 + length req.user_name
unfolding login_response response_payload validate_login
response_lengths pack req = omega arith

response_encodes :
    (next_id : ℕ) (pack : MsgPack) (req : DbLoginReq)
    → length req.user_name < 256
    → (encode_sync (numbered next_id (login_response pack (validate_login req)))).success ≡ true
response_encodes next_id pack req short = (encode_sync_success (numbered next_id response)).1 (
  omega (arith, same, response_lengths pack req),
  omega (arith, same, response_lengths pack req),
  omega (arith, same_proto_type next_id response, control),
)
  where
    response : EncodeMessage
    response = login_response pack (validate_login req)

    same : length (numbered next_id response).payload ≡ length response.payload
    same = ap length (same_payload next_id response)

    control : response.proto_type ≡ type_control
    control = unfold login_response in refl

module _ (name_of : ℕ → String) where
  called_back-sessions :
      (pack : MsgPack) (req : DbLoginReq) (r : MsgRouter)
      → ((called_back name_of pack req r).session_manager ≡ r.session_manager)
        × ((called_back name_of pack req r).has_session_manager ≡ r.has_session_manager)
        × ((called_back name_of pack req r).next_msg_id ≡ r.next_msg_id)
  unfolding run_callbacks req_handler_of user_map_login player_login
  called_back-sessions pack req r = (refl, refl, refl)

  -- A login request that can be read, from a session that is there and has a connection, is
  -- answered: the session's user is the one with the id of the name, that user is sent to the
  -- session, and the response, with the id and the name of the user, arrives at the session.
  pub handle_login_request-answered :
      (pack : MsgPack) (req : DbLoginReq) (r : MsgRouter) (peer : Peer)
      → read_login pack.msg.payload ≡ some req
      → length req.user_name < 256
      → pack.sender_session_id ≢ 0
      → r.has_session_manager ≡ true
      → get_session pack.sender_session_id r.session_manager ≡ some peer
      → peer.client.has_connection ≡ true
      → pack.msg.msg_id < u64_mod
      → r.next_msg_id < u64_mod
      → let r0 : MsgRouter = called_back name_of pack req r in
        let response : EncodeMessage = login_response pack (validate_login req) in
        (a : Answer) × (handle_login_request (req_handler_of name_of) pack r ≡ some (a.0, true))
        × Arrives pack.sender_session_id response r0 peer a
        × (get_session_id a.0.user_session_map (123 + length req.user_name)
            ≡ pack.sender_session_id)
        × (get_user_id a.0.user_session_map pack.sender_session_id ≡ 123 + length req.user_name)
  unfolding send_back_login_response
  handle_login_request-answered pack req r peer e short real managed there c small next_small = (
    send_message_to_session pack.sender_session_id response r0,
    handle_login_request-read name_of pack req r e,
    send_message_to_session-Arrives pack.sender_session_id response r0 peer (managers.1 ∙ managed)
        (ap (get_session pack.sender_session_id) managers.0 ∙ there) c small
        (omega (arith, managers.2)) (response_encodes r0.next_msg_id pack req short),
    ap (λ (m : UserSessionMap). get_session_id m user) bound
        ∙ (unfold get_session_id in
            ground (arith, bind_users r.user_session_map user pack.sender_session_id user)),
    ap (λ (m : UserSessionMap). get_user_id m pack.sender_session_id) bound
        ∙ (unfold get_user_id in
            ground (
              arith,
              bind_sessions r.user_session_map user pack.sender_session_id pack.sender_session_id,
            )),
  )
    where
      user : ℕ
      user = 123 + length req.user_name

      r0 : MsgRouter
      r0 = called_back name_of pack req r

      response : EncodeMessage
      response = login_response pack (validate_login req)

      managers :
          (r0.session_manager ≡ r.session_manager)
          × (r0.has_session_manager ≡ r.has_session_manager)
          × (r0.next_msg_id ≡ r.next_msg_id)
      managers = called_back-sessions pack req r

      bound :
          (logged_in name_of pack req r).user_session_map
          ≡ bind r.user_session_map user pack.sender_session_id
      bound = logged_in-map name_of pack req r short real
