-- ===== src/HeartbeatHandler/Refused.antt =====
-- What becomes of the answer of business/HeartbeatHandler.hpp.
use own_game_server.Prelude.{
  ℕ, ◌≡◌, refl, Bool, true, false, not, Option, none, some, List, [], arith, nat_beq_iff,
  if◌then◌else◌,
}
use own_game_server.Assoc.{Assoc, lookup, insert, nat_eq, lookup-insert}
use own_game_server.Codec.Encoder.{EncodeMessage, encode_sync}
use own_game_server.ClientSession.{MsgPack, ClientSession, send_message}
use own_game_server.SessionManager.{get_session}
use own_game_server.MsgRouter.{
  MsgRouter, Peer, send_message_to_session, send_if_found, send_to_peer, hand_over,
}
use own_game_server.HeartbeatHandler.{
  HeartbeatHandler, heartbeat_response, handle_heartbeat, run_heartbeat_callbacks,
}

empty_refused : (msg : EncodeMessage) → msg.payload ≡ [] → (encode_sync msg).success ≡ false
unfolding encode_sync
empty_refused msg e = rw (e, encode_sync) refl

refused_unwritten :
    (ok : Bool) (w : Option (List ℕ)) → ok ≡ false → (if not ok then none else w) ≡ none
refused_unwritten ok w e = ground arith

empty_unwritten :
    (s : ClientSession) (next_id : ℕ) (msg : EncodeMessage)
    → msg.payload ≡ []
    → (send_message s next_id msg).written ≡ none
unfolding send_message
empty_unwritten s next_id msg e = refused_unwritten _ _ (empty_refused _ (ground arith))

put_back :
    (id other : ℕ) (peer : Peer) (sessions : Assoc ℕ Peer)
    → lookup id sessions ≡ some peer
    → lookup other (insert id peer sessions) ≡ lookup other sessions
put_back id other peer sessions there =
    ground (arith, lookup-insert id other peer sessions, nat_beq_iff id other)

-- Where nothing is written, the answer is false and the sessions are as before.
send_if_found-unwritten :
    (id other : ℕ) (found : Option Peer) (msg : EncodeMessage) (r : MsgRouter)
    → get_session id r.session_manager ≡ found
    → msg.payload ≡ []
    → ((send_if_found id found msg r).2 ≡ false)
      × (get_session other (send_if_found id found msg r).0.session_manager
          ≡ get_session other r.session_manager)
unfolding send_if_found
send_if_found-unwritten id other none msg r there e = (refl, refl)
send_if_found-unwritten id other (some peer) msg r there e =
    rw (empty_unwritten peer.client r.next_msg_id msg e, send_to_peer, hand_over)
      (refl, put_back id other peer r.session_manager.sessions there)

send_message_to_session-unwritten :
    (id other : ℕ) (msg : EncodeMessage) (r : MsgRouter)
    → msg.payload ≡ []
    → ((send_message_to_session id msg r).2 ≡ false)
      × (get_session other (send_message_to_session id msg r).0.session_manager
          ≡ get_session other r.session_manager)
unfolding send_message_to_session
send_message_to_session-unwritten id other msg r e = go r.has_session_manager
  where
    go :
        (b : Bool)
        → let a : MsgRouter × EncodeMessage × Bool =
            if not b
            then (r, msg, false)
            else send_if_found id (get_session id r.session_manager) msg r in
          (a.2 ≡ false)
          × (get_session other a.0.session_manager ≡ get_session other r.session_manager)
    go false = (refl, refl)
    go true = send_if_found-unwritten id other _ msg r refl e

-- No heartbeat is ever answered: after the callbacks the handler answers false, and every session
-- and its connection are as the callbacks have left them.
pub handle_heartbeat-unanswered :
    (h : HeartbeatHandler) (pack : MsgPack) (r : MsgRouter) (id : ℕ)
    → h.has_gateway ≡ true
    → ((handle_heartbeat h (some pack) r).1 ≡ false)
      × (get_session id (handle_heartbeat h (some pack) r).0.session_manager
          ≡ get_session id
              (run_heartbeat_callbacks h.heartbeat_callbacks pack.sender_session_id
                r).session_manager)
unfolding handle_heartbeat
handle_heartbeat-unanswered h pack r id gated =
    rw (gated, handle_heartbeat)
      (send_message_to_session-unwritten pack.sender_session_id id (heartbeat_response pack)
        (run_heartbeat_callbacks h.heartbeat_callbacks pack.sender_session_id r) refl)
