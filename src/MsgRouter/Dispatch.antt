-- ===== src/MsgRouter/Dispatch.antt =====
-- What protocol/Router/MsgRouter.cpp hands to a handler, and whom a broadcast reaches.
use own_game_server.Prelude.{
  ℕ, ◌≡◌, ◌≢◌, ◌⊎◌, inl, inr, refl, ap, ◌∙◌, Bool, true, false, not, Option, none, some, List, [],
  ◌∷◌, map, arith, nat_beq, nat_beq_iff, if◌then◌else◌, All, subst, sym,
}
use own_game_server.Assoc.{lookup, erase, nat_eq, lookup-erase}
use own_game_server.Codec.Encoder.{EncodeMessage}
use own_game_server.ClientSession.{MsgPack}
use own_game_server.SessionManager.{get_session}
use own_game_server.UserSessionMap.{UserSessionMap, get_session_id, get_user_id}
use own_game_server.Player.{Heap, player_id_at}
use own_game_server.Room.{GameRoom, broadcast}
use own_game_server.RoomManager.{GameRoomManager, get_room, heap_of, room_broad_cast}
use own_game_server.MsgRouter.{
  MsgRouter, Peer, Handler, send_to_peer, send_if_found, send_message_to_session,
  send_message_to_user, send_each, broadcast_to_room, room_manager_broadcast, on_msg_receive,
  dispatch,
}
use own_game_server.MsgRouter.Delivery.{send_message_to_session-others}

-- The handler and the pack that a message leads to, where its type has a living handler.
abbrev pub Handed : MsgPack → MsgRouter → Type 0
Handed pack r =
    (h : Handler) × (lookup pack.msg.main_type r.msg_handlers ≡ some (some h))
    × (on_msg_receive pack r ≡ (
      r,
      some (h, record pack { sender_id = get_user_id r.user_session_map pack.sender_session_id }),
    ))

-- The message is handed to nobody, and its type has no entry any more.
abbrev pub Unhandled : MsgPack → ℕ → MsgRouter → Type 0
Unhandled pack other r =
    ((on_msg_receive pack r).1 ≡ none)
    × (lookup pack.msg.main_type (on_msg_receive pack r).0.msg_handlers ≡ none)
    × (lookup other (on_msg_receive pack r).0.msg_handlers ≡ lookup other r.msg_handlers)

-- A message whose type has no handler, or one that is no more, is handed to nobody; then the table
-- has no entry for the type, and the entry of any other type stays. Every other message goes to the
-- handler of its type, as it is but with the id of the user that the map gives for its session, and
-- the router does not change.
pub on_msg_receive_cases :
    (pack : MsgPack) (r : MsgRouter) (other : ℕ)
    → pack.msg.main_type ≢ other
    → Handed pack r ⊎ Unhandled pack other r
unfolding on_msg_receive
on_msg_receive_cases pack r other ne = go (lookup kind r.msg_handlers) refl
  where
    kind : ℕ
    kind = pack.msg.main_type

    erased : lookup kind (erase kind r.msg_handlers) ≡ none
    erased = ground (arith, lookup-erase kind kind r.msg_handlers, nat_beq_iff kind kind)

    kept : lookup other (erase kind r.msg_handlers) ≡ lookup other r.msg_handlers
    kept = ground (arith, lookup-erase kind other r.msg_handlers, nat_beq_iff kind other)

    answer :
        (found : Option (Option Handler))
        → lookup kind r.msg_handlers ≡ found
        → on_msg_receive pack r ≡ dispatch found pack r
    answer found e = ap (λ (f : Option (Option Handler)). dispatch f pack r) e

    left : (e : lookup kind r.msg_handlers ≡ none) → Unhandled pack other r
    left e =
        let a : on_msg_receive pack r ≡ (r, none) = (answer none e ∙ (unfold dispatch in refl)) in
        (
          ap (λ (x : MsgRouter × Option (Handler × MsgPack)). x.1) a,
          ap (λ (x : MsgRouter × Option (Handler × MsgPack)). lookup kind x.0.msg_handlers) a ∙ e,
          ap (λ (x : MsgRouter × Option (Handler × MsgPack)). lookup other x.0.msg_handlers) a,
        )

    expired : (e : lookup kind r.msg_handlers ≡ some none) → Unhandled pack other r
    expired e =
        let a : on_msg_receive pack r
            ≡ (record r { msg_handlers = erase kind r.msg_handlers }, none) =
          (answer (some none) e ∙ (unfold dispatch in refl)) in
        (
          ap (λ (x : MsgRouter × Option (Handler × MsgPack)). x.1) a,
          ap (λ (x : MsgRouter × Option (Handler × MsgPack)). lookup kind x.0.msg_handlers) a
              ∙ erased,
          ap (λ (x : MsgRouter × Option (Handler × MsgPack)). lookup other x.0.msg_handlers) a
              ∙ kept,
        )

    go :
        (found : Option (Option Handler))
        → lookup kind r.msg_handlers ≡ found
        → Handed pack r ⊎ Unhandled pack other r
    go none e = inr (left e)
    go (some none) e = inr (expired e)
    go (some (some h)) e = inl (h, e, answer (some (some h)) e ∙ (unfold dispatch in refl))

-- A send changes neither the users' sessions nor the rooms.
send_if_found-books :
    (id : ℕ) (found : Option Peer) (msg : EncodeMessage) (r : MsgRouter)
    → ((send_if_found id found msg r).0.user_session_map ≡ r.user_session_map)
      × ((send_if_found id found msg r).0.room_manager ≡ r.room_manager)
unfolding send_if_found send_to_peer
send_if_found-books id none msg r = (refl, refl)
send_if_found-books id (some peer) msg r = (refl, refl)

pub send_message_to_session-books :
    (id : ℕ) (msg : EncodeMessage) (r : MsgRouter)
    → ((send_message_to_session id msg r).0.user_session_map ≡ r.user_session_map)
      × ((send_message_to_session id msg r).0.room_manager ≡ r.room_manager)
unfolding send_message_to_session
send_message_to_session-books id msg r =
    ground (arith, send_if_found-books id (get_session id r.session_manager) msg r)

pub send_message_to_user-books :
    (id : ℕ) (msg : EncodeMessage) (r : MsgRouter)
    → ((send_message_to_user id msg r).0.user_session_map ≡ r.user_session_map)
      × ((send_message_to_user id msg r).0.room_manager ≡ r.room_manager)
unfolding send_message_to_user
send_message_to_user-books id msg r =
    ground (arith, send_message_to_session-books (get_session_id r.user_session_map id) msg r)

pub send_message_to_user-others :
    (id other : ℕ) (msg : EncodeMessage) (r : MsgRouter)
    → get_session_id r.user_session_map id ≢ other
    → get_session other (send_message_to_user id msg r).0.session_manager
      ≡ get_session other r.session_manager
unfolding send_message_to_user
send_message_to_user-others id other msg r ne =
    go (nat_beq (get_session_id r.user_session_map id) 0)
  where
    go :
        (b : Bool)
        → get_session other
            (if b
              then (r, msg, false)
              else send_message_to_session
                  (get_session_id r.user_session_map id)
                  msg
                  r).0.session_manager
          ≡ get_session other r.session_manager
    go true = refl
    go false = send_message_to_session-others _ other msg r ne

-- No session of these users is `other`.
abbrev pub NoneAt : UserSessionMap → ℕ → List ℕ → Type 0
NoneAt m other ids = All (λ id. get_session_id m id ≢ other) ids

pub send_each-others :
    (ids : List ℕ) (other : ℕ) (msg : EncodeMessage) (r : MsgRouter)
    → NoneAt r.user_session_map other ids
    → get_session other (send_each ids msg r).0.session_manager
      ≡ get_session other r.session_manager
unfolding send_each
send_each-others [] other msg r h = refl
send_each-others (id ∷ ids) other msg r (h, hs) =
    send_each-others ids other (send_message_to_user id msg r).1 (send_message_to_user id msg r).0 (
      subst (λ (m : UserSessionMap). NoneAt m other ids)
        (sym (send_message_to_user-books id msg r).0) hs)
    ∙ send_message_to_user-others id other msg r h

-- The users that a list of calls names.
abbrev pub callees : List (ℕ × EncodeMessage) → List ℕ
callees calls = map (λ (c : ℕ × EncodeMessage). c.0) calls

callees-map :
    (h : Heap) (msg : EncodeMessage) (members : List ℕ)
    → callees (map (λ a. (player_id_at h a, msg)) members) ≡ map (player_id_at h) members
callees-map h msg [] = refl
callees-map h msg (a ∷ as') = ap (λ (ids : List ℕ). player_id_at h a ∷ ids) (callees-map h msg as')

pub callees-room_broad_cast :
    (id : ℕ) (room : GameRoom) (msg : EncodeMessage) (m : GameRoomManager)
    → get_room id m ≡ some room
    → callees (room_broad_cast id msg m).0 ≡ map (player_id_at (heap_of m)) room.group.members
unfolding broadcast room_broad_cast
callees-room_broad_cast id room msg m there =
    rw (there, room_broad_cast) (callees-map (heap_of m) msg room.group.members)

-- A broadcast to a room leaves alone every session that no member of the room has.
pub broadcast_to_room-others :
    (id other : ℕ) (room : GameRoom) (msg : EncodeMessage) (r : MsgRouter)
    → get_room id r.room_manager ≡ some room
    → NoneAt r.user_session_map other
        (map (player_id_at (heap_of r.room_manager)) room.group.members)
    → get_session other (broadcast_to_room id msg r).0.session_manager
      ≡ get_session other r.session_manager
unfolding broadcast_to_room room_manager_broadcast
broadcast_to_room-others id other room msg r there h = go r.has_room_manager
  where
    go :
        (b : Bool)
        → get_session other
            (if not b then (r, msg, false) else room_manager_broadcast id msg r).0.session_manager
          ≡ get_session other r.session_manager
    go false = refl
    go true =
        unfold room_manager_broadcast in
        send_each-others _ other msg r (
          subst (NoneAt r.user_session_map other)
            (sym (callees-room_broad_cast id room msg r.room_manager there)) h)
