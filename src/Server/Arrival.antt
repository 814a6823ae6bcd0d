-- ===== src/Server/Arrival.antt =====
-- From the bytes that a session of the server of main.cpp receives to the tasks of its handlers.
use own_game_server.Prelude.{
  ℕ, ◌+◌, ◌*◌, ◌≤◌, ◌<◌, ◌≡◌, ◌≢◌, ◌∙◌, refl, sym, ap, true, Option, some, List, [], ◌∷◌, ◌++◌,
  arith, length, take, drop, take_all, map, String, u64_mod,
}
use mathlib.Core.List.{append-nil}
use own_game_server.Assoc.{lookup, nat_eq}
use own_game_server.Codec.Encoder.{EncodeMessage, encode_sync, chunk_size, total_frames, chunk}
use own_game_server.Codec.Decoder.{DecodedMessage}
use own_game_server.Codec.Frames.{FitsWire, fragment, fragments, chunk_lem}
use own_game_server.Codec.RoundTrip.{encode_all, all_fragments}
use own_game_server.Codec.Refusals.{encode_sync_success, length-encode_sync}
use own_game_server.Messages.{login_req}
use own_game_server.ClientSession.{
  ClientSession, MsgPack, Received, received, on_socket_recv, pack_from, copied, moved,
}
use own_game_server.ClientSession.Receive.{on_socket_recv-whole}
use own_game_server.SessionManager.{get_session}
use own_game_server.UserSessionMap.{get_session_id, get_user_id}
use own_game_server.MsgRouter.{
  MsgRouter, Peer, Handler, req_handler, put_peer, on_msg_receive, dispatch,
}
use own_game_server.ReqHandler.{ReqTask, login_task}
use own_game_server.ReqHandler as Q
use own_game_server.Messages.{DbLoginReq}
use own_game_server.MsgRouter.{Answer}
use own_game_server.MsgRouter.Delivery.{Arrives, lookup_same}
use own_game_server.ReqHandler.{read_login, run_task, login_response, validate_login}
use own_game_server.Server.Takeover.{called_back}
use own_game_server.Server.Login.{handle_login_request-answered}
use own_game_server.Server.{
  req_handler_of, Server, receive, receive_at, received_by, receive_packs, hand_if_found, hand,
  posted,
}

-- The message that is decoded from the one frame of a short message.
abbrev pub decoded : EncodeMessage → DecodedMessage
decoded msg = record {
  msg_id = msg.msg_id;
  proto_type = 0;
  main_type = msg.main_type;
  sub_type = msg.sub_type;
  payload = msg.payload;
}

module _ (msg : EncodeMessage) (filled : 0 < length msg.payload)
    (short : length msg.payload ≤ chunk_size) where
  one_frame : total_frames msg.payload ≡ 1
  unfolding total_frames
  one_frame = omega arith

  one_chunk : chunk msg.payload 0 ≡ msg.payload
  one_chunk =
      chunk_lem msg.payload 0
      ∙ ap (λ (n : ℕ). take chunk_size (drop n msg.payload)) from_start
      ∙ take_all chunk_size msg.payload short
    where
      from_start : 0 * chunk_size ≡ 0
      from_start = omega arith

  fragments-one : fragments msg (total_frames msg.payload) 0 ≡ decoded msg ∷ []
  unfolding fragments fragment
  fragments-one =
      ap (λ (n : ℕ). fragments msg n 0) one_frame
      ∙ ap (λ (body : List ℕ). record (decoded msg) { payload = body } ∷ []) one_chunk

module _ (client : ClientSession) (msg : EncodeMessage) (empty : client.buffer ≡ [])
    (fits : FitsWire msg) (ok : (encode_sync msg).success ≡ true)
    (short : length msg.payload ≤ chunk_size) where
  filled : 0 < length msg.payload
  filled = ((encode_sync_success msg).0 ok).0

  abbrev bytes : List ℕ
  bytes = (encode_sync msg).encoded_message

  long : length bytes ≡ length msg.payload + 28
  long = omega (arith, length-encode_sync msg ok, one_frame msg filled short)

  stream : encode_all (msg ∷ []) ++ [] ≡ bytes
  unfolding encode_all
  stream = append-nil (bytes ++ []) ∙ append-nil bytes

  decoded_stream : all_fragments (msg ∷ []) ≡ decoded msg ∷ []
  unfolding all_fragments
  decoded_stream =
      append-nil (fragments msg (total_frames msg.payload) 0) ∙ fragments-one msg filled short

  on_socket_recv-one :
      on_socket_recv client bytes
      ≡ received (moved [] (copied bytes client)) (pack_from client.session_id (decoded msg) ∷ [])
  on_socket_recv-one =
      on_socket_recv-whole client bytes [] (msg ∷ []) (omega (arith, long))
        (omega (arith, long, short, ap length empty)) (fits, ok, tt)
        (ap (λ (b : List ℕ). b ++ bytes) empty ∙ sym stream) (omega (arith, long, ap length stream))
        (omega arith)
      ∙ ap
          (λ (ms : List DecodedMessage).
            received (moved [] (copied bytes client)) (map (pack_from client.session_id) ms))
          decoded_stream

-- A posted request that a login frame makes.
abbrev pub login_pack : ℕ → EncodeMessage → Server → MsgPack
login_pack id msg s = record {
  sender_id = get_user_id s.router.user_session_map id;
  sender_session_id = id;
  room_id = 0;
  msg = decoded msg;
}

dispatch_login :
    (pack : MsgPack) (r : MsgRouter)
    → pack.msg.main_type ≡ login_req
    → lookup login_req r.msg_handlers ≡ some (some req_handler)
    → on_msg_receive pack r ≡ (
      r,
      some (
        req_handler,
        record pack { sender_id = get_user_id r.user_session_map pack.sender_session_id },
      ),
    )
unfolding on_msg_receive
dispatch_login pack r e there =
    ap (λ (found : Option (Option Handler)). dispatch found pack r)
      (ap (λ (n : ℕ). lookup n r.msg_handlers) e ∙ there)
    ∙ (unfold dispatch in refl)

posts_login :
    (pack : MsgPack)
    → pack.msg.main_type ≡ login_req
    → pack.msg.sub_type ≡ 0
    → Q.handle_decoded_msg pack ≡ some (login_task pack)
unfolding Q.handle_decoded_msg
posts_login pack e f = ground arith

receive_login_pack :
    (now : ℕ) (pack : MsgPack) (s : Server)
    → pack.msg.main_type ≡ login_req
    → pack.msg.sub_type ≡ 0
    → lookup login_req s.router.msg_handlers ≡ some (some req_handler)
    → receive_packs now (pack ∷ []) s ≡ record s {
      req_tasks =
          s.req_tasks
          ++ login_task (record pack {
            sender_id = get_user_id s.router.user_session_map pack.sender_session_id;
          })
            ∷ [];
    }
unfolding receive_packs hand_if_found hand
receive_login_pack now pack s e f there =
    ap (λ (x : MsgRouter × Option (Handler × MsgPack)). hand_if_found now x s)
      (dispatch_login pack s.router e there)
    ∙ ap (λ (task : Option ReqTask). record s { req_tasks = s.req_tasks ++ posted task })
        (posts_login _ e f)

module _ (now id : ℕ) (msg : EncodeMessage) (s : Server) (peer : Peer)
    (there : get_session id s.router.session_manager ≡ some peer) (empty : peer.client.buffer ≡ [])
    (named : peer.client.session_id ≡ id) (fits : FitsWire msg)
    (ok : (encode_sync msg).success ≡ true) (short : length msg.payload ≤ chunk_size)
    (login : msg.main_type ≡ login_req) (log_in : msg.sub_type ≡ 0)
    (handled : lookup login_req s.router.msg_handlers ≡ some (some req_handler)) where
  -- The session after the frame, and the server with it.
  abbrev read_peer : Peer
  read_peer = record peer {
    client = moved [] (copied (encode_sync msg).encoded_message peer.client);
  }

  abbrev read_server : Server
  read_server = record s { router = put_peer id read_peer s.router }

  receive_lem :
      receive now id (encode_sync msg).encoded_message s
      ≡ some (receive_packs now (pack_from peer.client.session_id (decoded msg) ∷ []) read_server)
  unfolding receive
  receive_lem =
      ap (λ (found : Option Peer). receive_at now id found (encode_sync msg).encoded_message s)
        there
      ∙ (unfold receive_at in
          ap (λ (x : Received). received_by now id peer x s)
            (on_socket_recv-one peer.client msg empty fits ok short))
      ∙ (unfold received_by in refl)

  receive_tasks :
      receive now id (encode_sync msg).encoded_message s
      ≡ some
          (record read_server { req_tasks = s.req_tasks ++ login_task (login_pack id msg s) ∷ [] })
  receive_tasks =
      receive_lem
      ∙ ap (λ (t : Server). some t)
          (receive_login_pack now (pack_from peer.client.session_id (decoded msg)) read_server login
            log_in handled)
      ∙ ap
          (λ (n : ℕ). some (record read_server {
            req_tasks = s.req_tasks ++ login_task (login_pack n msg s) ∷ [];
          }))
          named

  -- The frame of a login request that a session with an empty buffer receives is posted as one task
  -- to the login handler, after those that are there. When that task runs on a request that can be
  -- read, the session's user is the one with the id of the name, that user is sent to the session,
  -- and the response, with the id and the name of the user, arrives at the session.
  pub receive-login :
      (name_of : ℕ → String) (req : DbLoginReq)
      → read_login msg.payload ≡ some req
      → length req.user_name < 256
      → id ≢ 0
      → s.router.has_session_manager ≡ true
      → peer.client.has_connection ≡ true
      → s.router.next_msg_id < u64_mod
      → let pack : MsgPack = login_pack id msg s in
        (t : Server) × (a : Answer) × (receive now id (encode_sync msg).encoded_message s ≡ some t)
        × (t.req_tasks ≡ s.req_tasks ++ login_task pack ∷ [])
        × (t.room_tasks ≡ s.room_tasks)
        × (run_task (req_handler_of name_of) (login_task pack) t.router ≡ some (a.0, true))
        × Arrives id
            (login_response pack (validate_login req))
            (called_back name_of pack req t.router)
            read_peer
            a
        × (get_session_id a.0.user_session_map (123 + length req.user_name) ≡ id)
        × (get_user_id a.0.user_session_map id ≡ 123 + length req.user_name)
  unfolding run_task
  receive-login name_of req e small real managed c next_small =
      let pack : MsgPack = login_pack id msg s in
      let (a, run, arrives, sent, bound) =
        handle_login_request-answered name_of pack req read_server.router read_peer e small real
          managed (lookup_same id read_peer s.router.session_manager.sessions) c fits.msg_id_bound
          next_small in
      (
        record read_server { req_tasks = s.req_tasks ++ login_task pack ∷ [] },
        a,
        receive_tasks,
        refl,
        refl,
        run,
        arrives,
        sent,
        bound,
      )
