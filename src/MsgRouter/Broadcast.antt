-- ===== src/MsgRouter/Broadcast.antt =====
-- A broadcast to a room in protocol/Router/MsgRouter.cpp reaches each of its members. The message is
-- passed by reference, so that the first send gives it the id that the others use.
use own_game_server.Prelude.{
  ℕ, ◌<◌, ◌≡◌, ◌≢◌, refl, sym, ap, ◌∙◌, subst, Bool, true, false, not, Option, none, some, List, [],
  ◌∷◌, ◌++◌, map, arith, nat_beq, nat_beq_iff, Bool-cases, inl, inr, if◌then◌else◌, u64_mod,
}
use own_game_server.Assoc.{nat_eq}
use own_game_server.Codec.Encoder.{EncodeMessage, encode_sync}
use own_game_server.ClientSession.{ClientSession, send_message}
use own_game_server.TcpConnection.{send}
use own_game_server.SessionManager.{get_session}
use own_game_server.UserSessionMap.{UserSessionMap, get_session_id}
use own_game_server.Player.{player_id_at}
use own_game_server.Room.{GameRoom}
use own_game_server.RoomManager.{heap_of, get_room, room_broad_cast}
use own_game_server.MsgRouter.{
  MsgRouter, Peer, Answer, send_to_peer, send_if_found, send_message_to_session,
  send_message_to_user, send_each, room_manager_broadcast, broadcast_to_room,
}
use own_game_server.MsgRouter.Delivery.{numbered, Arrives, send_message_to_user-Arrives}
use own_game_server.MsgRouter.Dispatch.{
  NoneAt, callees, callees-room_broad_cast, send_message_to_user-others, send_each-others,
}
use own_game_server.MsgRouter.Quiet.{send_message_to_user-IsQuiet}

-- A message with an id keeps it.
numbered_again :
    (n k : ℕ) (msg : EncodeMessage)
    → (numbered n msg).msg_id ≢ 0
    → numbered k (numbered n msg) ≡ numbered n msg
unfolding numbered
numbered_again n k msg h = ground (arith, nat_beq_iff msg.msg_id 0, nat_beq_iff n 0)

numbered_real : (n : ℕ) (msg : EncodeMessage) → 0 < n → (numbered n msg).msg_id ≢ 0
unfolding numbered
numbered_real n msg h e = ground (arith, nat_beq_iff msg.msg_id 0)

-- The message and the counter, where ids are 64 bits wide.
record IsReady (w : EncodeMessage) (msg : EncodeMessage) (n : ℕ) : Type 0 where
  same : numbered n msg ≡ w
  small : msg.msg_id < u64_mod
  next_small : n < u64_mod

sent-IsReady :
    (w : EncodeMessage) (c : ClientSession) (n : ℕ) (msg : EncodeMessage)
    → w.msg_id ≢ 0
    → IsReady w msg n
    → IsReady w (send_message c n msg).msg (send_message c n msg).next_id
unfolding send_message numbered
sent-IsReady w c n msg real ready = record {
  same =
      numbered_again n _ msg (λ e. real (ap (λ (m : EncodeMessage). m.msg_id) (sym ready.same) ∙ e))
      ∙ ready.same;
  small = ground (arith, ready.small, ready.next_small);
  next_small = ground (arith, ready.next_small);
}

send_if_found-IsReady :
    (w : EncodeMessage) (id : ℕ) (found : Option Peer) (msg : EncodeMessage) (r : MsgRouter)
    → w.msg_id ≢ 0
    → IsReady w msg r.next_msg_id
    → let a : Answer = send_if_found id found msg r in IsReady w a.1 a.0.next_msg_id
unfolding send_if_found send_to_peer
send_if_found-IsReady w id none msg r real ready = ready
send_if_found-IsReady w id (some peer) msg r real ready =
    sent-IsReady w peer.client r.next_msg_id msg real ready

send_message_to_session-IsReady :
    (w : EncodeMessage) (id : ℕ) (msg : EncodeMessage) (r : MsgRouter)
    → w.msg_id ≢ 0
    → IsReady w msg r.next_msg_id
    → let a : Answer = send_message_to_session id msg r in IsReady w a.1 a.0.next_msg_id
unfolding send_message_to_session
send_message_to_session-IsReady w id msg r real ready =
    elim (Bool-cases (not r.has_session_manager)) [
      | inl gone ↦ rw (gone) ready
      | inr there ↦ rw (there) (send_if_found-IsReady w id _ msg r real ready)
    ]

send_message_to_user-IsReady :
    (w : EncodeMessage) (u : ℕ) (msg : EncodeMessage) (r : MsgRouter)
    → w.msg_id ≢ 0
    → IsReady w msg r.next_msg_id
    → let a : Answer = send_message_to_user u msg r in IsReady w a.1 a.0.next_msg_id
unfolding send_message_to_user
send_message_to_user-IsReady w u msg r real ready =
    elim (Bool-cases (nat_beq (get_session_id r.user_session_map u) 0)) [
      | inl unbound ↦ rw (unbound) ready
      | inr bound ↦ rw (bound) (send_message_to_session-IsReady w _ msg r real ready)
    ]

module _ (w : EncodeMessage) (real : w.msg_id ≢ 0) (ok : (encode_sync w).success ≡ true)
    (users : UserSessionMap) (sid : ℕ) (peer : Peer) (some_id : sid ≢ 0)
    (linked : peer.client.has_connection ≡ true) where
  -- A router whose next message will be `w`, with the session and its connection.
  record IsBefore (msg : EncodeMessage) (r : MsgRouter) : Type 0 where
    ready : IsReady w msg r.next_msg_id
    managed : r.has_session_manager ≡ true
    map : r.user_session_map ≡ users
    there : get_session sid r.session_manager ≡ some peer

  other-IsBefore :
      (u : ℕ) (msg : EncodeMessage) (r : MsgRouter)
      → get_session_id users u ≢ sid
      → IsBefore msg r
      → let a : Answer = send_message_to_user u msg r in IsBefore a.1 a.0
  other-IsBefore u msg r apart b = record {
    ready = send_message_to_user-IsReady w u msg r real b.ready;
    managed = (send_message_to_user-IsQuiet u msg r).keeps.managed ∙ b.managed;
    map = (send_message_to_user-IsQuiet u msg r).map ∙ b.map;
    there =
        send_message_to_user-others u sid msg r
          (λ e. apart (ap (λ (m : UserSessionMap). get_session_id m u) (sym b.map) ∙ e))
        ∙ b.there;
  }

  abbrev written : Peer
  written = record peer { connection = send (encode_sync w).encoded_message peer.connection }

  -- The users before, the one whose session it is, and the users behind.
  send_each-reaches :
      (front : List ℕ) (u : ℕ) (back : List ℕ) (msg : EncodeMessage) (r : MsgRouter)
      → get_session_id users u ≡ sid
      → NoneAt users sid front
      → NoneAt users sid back
      → IsBefore msg r
      → get_session sid (send_each (front ++ u ∷ back) msg r).0.session_manager ≡ some written
  unfolding send_each
  send_each-reaches [] u back msg r bound none_front none_back b =
      send_each-others back sid _ (send_message_to_user u msg r).0 (
        subst (λ (m : UserSessionMap). NoneAt m sid back)
          (sym ((send_message_to_user-IsQuiet u msg r).map ∙ b.map)) none_back)
      ∙ arrived.1
      ∙ ap
          (λ (m : EncodeMessage).
            some
              (record peer { connection = send (encode_sync m).encoded_message peer.connection }))
          b.ready.same
    where
      arrived : Arrives sid msg r peer (send_message_to_user u msg r)
      arrived =
          send_message_to_user-Arrives u sid msg r peer b.managed
            (ap (λ (m : UserSessionMap). get_session_id m u) b.map ∙ bound) some_id b.there linked
            b.ready.small b.ready.next_small
            (ap (λ (m : EncodeMessage). (encode_sync m).success) b.ready.same ∙ ok)
  send_each-reaches (v ∷ front) u back msg r bound (apart, none_front) none_back b =
      send_each-reaches front u back (send_message_to_user v msg r).1
        (send_message_to_user v msg r).0 bound none_front none_back (other-IsBefore v msg r apart b)

broadcast_passed :
    (id : ℕ) (msg : EncodeMessage) (r : MsgRouter)
    → r.has_room_manager ≡ true
    → broadcast_to_room id msg r ≡ room_manager_broadcast id msg r
unfolding broadcast_to_room
broadcast_passed id msg r rooms =
    ap (λ (b : Bool). if not b then (r, msg, false) else room_manager_broadcast id msg r) rooms

-- A broadcast to a room reaches every member who alone has a session that is there and has a connection,
-- wherever in the room the member stands and whatever becomes of the sends to the others: the
-- connection is asked once to send the encoded message, under its own id or the next one.
pub broadcast_to_room-reaches :
    (id u sid : ℕ) (room : GameRoom) (front back : List ℕ) (msg : EncodeMessage) (r : MsgRouter)
    (peer : Peer)
    → r.has_room_manager ≡ true
    → get_room id r.room_manager ≡ some room
    → map (player_id_at (heap_of r.room_manager)) room.group.members ≡ front ++ u ∷ back
    → r.has_session_manager ≡ true
    → get_session_id r.user_session_map u ≡ sid
    → NoneAt r.user_session_map sid front
    → NoneAt r.user_session_map sid back
    → sid ≢ 0
    → get_session sid r.session_manager ≡ some peer
    → peer.client.has_connection ≡ true
    → msg.msg_id < u64_mod
    → 0 < r.next_msg_id
    → r.next_msg_id < u64_mod
    → (encode_sync (numbered r.next_msg_id msg)).success ≡ true
    → ((broadcast_to_room id msg r).2 ≡ true)
      × (get_session sid (broadcast_to_room id msg r).0.session_manager
          ≡ some (record peer {
            connection =
                send (encode_sync (numbered r.next_msg_id msg)).encoded_message peer.connection;
          }))
unfolding room_manager_broadcast
broadcast_to_room-reaches id u sid room front back msg r peer rooms stored members managed bound
      none_front none_back some_id there linked small pos next_small ok =
    (
      ap (λ (a : Answer). a.2) passed ∙ answer,
      ap (λ (a : Answer). get_session sid a.0.session_manager) passed
          ∙ ap (λ (ids : List ℕ). get_session sid (send_each ids msg r).0.session_manager) called
          ∙ reached,
    )
  where
    passed : broadcast_to_room id msg r ≡ room_manager_broadcast id msg r
    passed = broadcast_passed id msg r rooms

    called : callees (room_broad_cast id msg r.room_manager).0 ≡ front ++ u ∷ back
    called = callees-room_broad_cast id room msg r.room_manager stored ∙ members

    answer : (room_broad_cast id msg r.room_manager).1 ≡ true
    answer = unfold room_broad_cast in rw (stored, room_broad_cast) refl

    reached :
        get_session sid (send_each (front ++ u ∷ back) msg r).0.session_manager
        ≡ some (record peer {
          connection =
              send (encode_sync (numbered r.next_msg_id msg)).encoded_message peer.connection;
        })
    reached =
        send_each-reaches (numbered r.next_msg_id msg) (numbered_real r.next_msg_id msg pos) ok
          r.user_session_map sid peer some_id linked front u back msg r bound none_front none_back
          (record {
            ready = record { same = refl; small = small; next_small = next_small };
            managed = managed;
            map = refl;
            there = there;
          })
