-- ===== src/MsgRouter/Delivery.antt =====
-- What a send of protocol/Router/MsgRouter.cpp does to the sessions.
use own_game_server.Prelude.{
  ℕ, ◌<◌, ◌≡◌, ◌≢◌, refl, sym, ap, ◌∙◌, subst, Bool, true, false, not, Option, none, some, List,
  arith, nat_beq, nat_beq_iff, if◌then◌else◌, length, All, u64_mod,
}
use own_game_server.Assoc.{Assoc, lookup, insert, nat_eq, lookup-insert}
use own_game_server.Codec.Encoder.{EncodeMessage, encode_sync}
use own_game_server.Codec.Decoder.{DecodeResult, done, decode_sync}
use own_game_server.Codec.Frames.{FitsWire}
use own_game_server.Codec.RoundTrip.{payloads}
use own_game_server.Codec.Stream.{SameIds, decode_sync-encode_sync}
use own_game_server.Codec.Refusals.{length-encode_sync, encode_sync_success}
use own_game_server.ClientSession.{ClientSession, send_message, write_encoded_payload}
use own_game_server.TcpConnection.{send}
use own_game_server.SessionManager.{get_session}
use own_game_server.UserSessionMap.{get_session_id}
use own_game_server.MsgRouter.{
  MsgRouter, Peer, Answer, hand_over, send_to_peer, send_if_found, send_message_to_session,
  send_message_to_user,
}

-- The message with its id: a message without one gets the next.
unfoldable pub numbered : ℕ → EncodeMessage → EncodeMessage
numbered next_id msg = if nat_beq msg.msg_id 0 then record msg { msg_id = next_id } else msg

send_message_msg :
    (s : ClientSession) (next_id : ℕ) (msg : EncodeMessage)
    → (send_message s next_id msg).msg ≡ numbered next_id msg
unfolding send_message numbered
send_message_msg s next_id msg = refl

write_lem :
    (s : ClientSession) (bytes : List ℕ)
    → s.has_connection ≡ true
    → 0 < length bytes
    → write_encoded_payload s bytes ≡ some bytes
unfolding write_encoded_payload
write_lem s bytes c long = ground arith

write_if_lem :
    (s : ClientSession) (ok : Bool) (bytes : List ℕ)
    → ok ≡ true
    → s.has_connection ≡ true
    → 0 < length bytes
    → (if not ok then none else write_encoded_payload s bytes) ≡ some bytes
unfolding write_encoded_payload
write_if_lem s ok bytes h c long = ground arith

send_message_written :
    (s : ClientSession) (next_id : ℕ) (msg : EncodeMessage)
    → s.has_connection ≡ true
    → (encode_sync (numbered next_id msg)).success ≡ true
    → (send_message s next_id msg).written
      ≡ some (encode_sync (numbered next_id msg)).encoded_message
unfolding send_message numbered
send_message_written s next_id msg c ok =
    write_if_lem s _ _ ok c (not_empty (numbered next_id msg) ok)
  where
    not_empty :
        (m : EncodeMessage)
        → (encode_sync m).success ≡ true
        → 0 < length (encode_sync m).encoded_message
    not_empty m ok = omega (arith, length-encode_sync m ok, ((encode_sync_success m).0 ok).0)

lookup_other :
    (id other : ℕ) (peer : Peer) (sessions : Assoc ℕ Peer)
    → id ≢ other
    → lookup other (insert id peer sessions) ≡ lookup other sessions
lookup_other id other peer sessions ne =
    ground (arith, lookup-insert id other peer sessions, nat_beq_iff id other)

pub lookup_same :
    (id : ℕ) (peer : Peer) (sessions : Assoc ℕ Peer)
    → lookup id (insert id peer sessions) ≡ some peer
lookup_same id peer sessions = ground (arith, lookup-insert id id peer sessions, nat_beq_iff id id)

-- A send to a session leaves every other session alone, and the users and the rooms too.
pub send_message_to_session-others :
    (id other : ℕ) (msg : EncodeMessage) (r : MsgRouter)
    → id ≢ other
    → get_session other (send_message_to_session id msg r).0.session_manager
      ≡ get_session other r.session_manager
unfolding send_message_to_session
send_message_to_session-others id other msg r ne =
    go r.has_session_manager (get_session id r.session_manager)
  where
    go :
        (b : Bool) (found : Option Peer)
        → get_session other
            (if not b then (r, msg, false) else send_if_found id found msg r).0.session_manager
          ≡ get_session other r.session_manager
    go false found = refl
    go true none = unfold send_if_found in refl
    go true (some peer) =
        unfold send_if_found send_to_peer in lookup_other id other _ r.session_manager.sessions ne

if_not_zero {ℓ} : {A : Type ℓ} (n : ℕ) (x y : A) → n ≢ 0 → (if nat_beq n 0 then x else y) ≡ y
if_not_zero n x y ne = ground (arith, nat_beq_iff n 0)

pub same_payload :
    (next_id : ℕ) (msg : EncodeMessage) → (numbered next_id msg).payload ≡ msg.payload
unfolding numbered
same_payload next_id msg = ground arith

pub same_proto_type :
    (next_id : ℕ) (msg : EncodeMessage) → (numbered next_id msg).proto_type ≡ msg.proto_type
unfolding numbered
same_proto_type next_id msg = ground arith

fits :
    (next_id : ℕ) (msg : EncodeMessage)
    → msg.msg_id < u64_mod
    → next_id < u64_mod
    → FitsWire (numbered next_id msg)
unfolding numbered
fits next_id msg small next_small = record { msg_id_bound = ground arith }

-- What a successful send to a session leaves: true is answered, the session's connection has been
-- asked to send the encoded bytes, and whoever decodes these gets messages with the id and the types
-- of the original, whose payloads together are the original payload.
abbrev pub Arrives : ℕ → EncodeMessage → MsgRouter → Peer → Answer → Type 0
Arrives sid msg r peer a =
    (a.2 ≡ true)
    × (get_session sid a.0.session_manager
        ≡ some (record peer {
          connection =
              send (encode_sync (numbered r.next_msg_id msg)).encoded_message peer.connection;
        }))
    × ((d : DecodeResult) × ((behind : List ℕ)
          → decode_sync behind (encode_sync (numbered r.next_msg_id msg)).encoded_message ≡ done d)
        × (d.success ≡ true)
        × All (SameIds (numbered r.next_msg_id msg)) d.messages
        × (payloads d.messages ≡ msg.payload))

module _ (sid : ℕ) (msg : EncodeMessage) (r : MsgRouter) (peer : Peer)
    (managed : r.has_session_manager ≡ true)
    (there : get_session sid r.session_manager ≡ some peer) where
  session_found : send_message_to_session sid msg r ≡ send_if_found sid (some peer) msg r
  unfolding send_message_to_session
  session_found =
      ap
        (λ (b : Bool).
          if not b
          then (r, msg, false)
          else send_if_found sid (get_session sid r.session_manager) msg r)
        managed
      ∙ ap (λ (found : Option Peer). send_if_found sid found msg r) there

  -- A message to a session that is there and has a connection arrives, if EncodeSync accepts it
  -- under its id.
  pub send_message_to_session-Arrives :
      peer.client.has_connection ≡ true
      → msg.msg_id < u64_mod
      → r.next_msg_id < u64_mod
      → (encode_sync (numbered r.next_msg_id msg)).success ≡ true
      → Arrives sid msg r peer (send_message_to_session sid msg r)
  unfolding send_to_peer hand_over
  send_message_to_session-Arrives c small next_small ok =
      let (d, e, fine, cost, count, ids, body) =
        decode_sync-encode_sync (numbered r.next_msg_id msg)
          (fits r.next_msg_id msg small next_small) ok in
      (
        ap (λ (a : Answer). a.2) sent,
        ap (λ (a : Answer). get_session sid a.0.session_manager) sent
            ∙ lookup_same sid _ r.session_manager.sessions,
        (d, e, fine, ids, body ∙ same_payload r.next_msg_id msg),
      )
    where
      sent :
          send_message_to_session sid msg r
          ≡ send_to_peer sid peer
              (record {
                next_id = (send_message peer.client r.next_msg_id msg).next_id;
                msg = (send_message peer.client r.next_msg_id msg).msg;
                written = some (encode_sync (numbered r.next_msg_id msg)).encoded_message;
              })
              r
      sent =
          session_found
          ∙ (unfold send_if_found in
              ap
                (λ (w : Option (List ℕ)).
                  send_to_peer sid peer
                    (record {
                      next_id = (send_message peer.client r.next_msg_id msg).next_id;
                      msg = (send_message peer.client r.next_msg_id msg).msg;
                      written = w;
                    })
                    r)
                (send_message_written peer.client r.next_msg_id msg c ok))

user_found :
    (user sid : ℕ) (msg : EncodeMessage) (r : MsgRouter)
    → get_session_id r.user_session_map user ≡ sid
    → sid ≢ 0
    → send_message_to_user user msg r ≡ send_message_to_session sid msg r
unfolding send_message_to_user
user_found user sid msg r bound real =
    ap (λ (s : ℕ). if nat_beq s 0 then (r, msg, false) else send_message_to_session s msg r) bound
    ∙ if_not_zero sid _ _ real

-- A message to a user whose session is there and has a connection, and which EncodeSync accepts
-- under its id, arrives: true is returned, the session's connection is asked to send the encoded
-- bytes, and whoever decodes these gets messages with the id and the types of the original, whose
-- payloads together are the original payload.
pub send_message_to_user-Arrives :
    (user sid : ℕ) (msg : EncodeMessage) (r : MsgRouter) (peer : Peer)
    → r.has_session_manager ≡ true
    → get_session_id r.user_session_map user ≡ sid
    → sid ≢ 0
    → get_session sid r.session_manager ≡ some peer
    → peer.client.has_connection ≡ true
    → msg.msg_id < u64_mod
    → r.next_msg_id < u64_mod
    → (encode_sync (numbered r.next_msg_id msg)).success ≡ true
    → Arrives sid msg r peer (send_message_to_user user msg r)
send_message_to_user-Arrives user sid msg r peer managed bound real there c small next_small ok =
    subst (Arrives sid msg r peer) (sym (user_found user sid msg r bound real))
      (send_message_to_session-Arrives sid msg r peer managed there c small next_small ok)
