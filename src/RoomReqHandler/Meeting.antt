-- ===== src/RoomReqHandler/Meeting.antt =====
-- Two requests to business/GameRoom/RoomReqHandler.cpp: a room is created, and joined by its code.
use own_game_server.Prelude.{
  ℕ, ◌≡◌, ◌≢◌, ◌≤◌, ◌∙◌, refl, sym, ap, true, Option, none, some, [], ◌∷◌, String, length, le→ltb,
  bytes_of,
}
use own_game_server.Assoc.{nat_eq, string_eq}
use own_game_server.ClientSession.{MsgPack}
use own_game_server.Messages.{RoomReqResult, DbLoginReq}
use own_game_server.Player.{player_id_at}
use own_game_server.PlayerManager.{get_player}
use own_game_server.Room.{GameRoom}
use own_game_server.RoomManager.{
  GameRoomManager, heap_of, get_room, get_room_info, room_code_to_id, create_room, join_room,
}
use own_game_server.RoomManager.Meeting.{create_room-IsOpen, join_room-joined}
use own_game_server.Codec.Encoder.{EncodeMessage}
use own_game_server.MsgRouter.{MsgRouter, send_message_to_user, room_manager_broadcast}
use own_game_server.RoomReqHandler.Requests.{text_found}
use own_game_server.MsgRouter.Quiet.{send_message_to_user-IsQuiet, room_manager_broadcast-IsQuiet}
use own_game_server.ReqHandler.{read_login}
use own_game_server.RoomReqHandler.{
  create_task, join_task, run_room_task, with_rooms, room_code_of, reply, join_response, announce,
  room_wanted, info_text, create_response, new_player_msg, welcome, joined, join_found,
  handle_room_join_request, create_text, create_answered, create_wanted, handle_room_create_request,
}
use own_game_server.JsonTranslator.{JsonLibrary}

-- The response to the player who joins, and the message to the room.
abbrev pub welcomed : MsgPack → ℕ → String → GameRoomManager → MsgRouter → MsgRouter
welcomed pack id str m r =
    announce id (reply pack.sender_id (join_response pack (bytes_of str)) (with_rooms m r))

reply-rooms :
    (user : ℕ) (msg : EncodeMessage) (r : MsgRouter)
    → (reply user msg r).room_manager ≡ r.room_manager
unfolding reply
reply-rooms user msg r = (send_message_to_user-IsQuiet user msg r).rooms

welcomed-rooms :
    (pack : MsgPack) (id : ℕ) (str : String) (m : GameRoomManager) (r : MsgRouter)
    → (welcomed pack id str m r).room_manager ≡ m
unfolding announce
welcomed-rooms pack id str m r =
    (room_manager_broadcast-IsQuiet id _ _).rooms ∙ reply-rooms pack.sender_id _ (with_rooms m r)

module _ {J : Type 0} (lib : JsonLibrary J) where
  create_wanted-answered :
      (pack : MsgPack) (code str : String) (texts : DbLoginReq) (r : MsgRouter) (id : ℕ)
      → let a : GameRoomManager × RoomReqResult =
          create_room (room_wanted pack texts) code r.room_manager in
        a.1 ≡ RoomReqResult.ok
        → room_code_to_id code a.0 ≡ some id
        → info_text lib (get_room_info id a.0) ≡ some str
        → create_wanted lib pack code (some texts) r
          ≡ some (reply pack.sender_id (create_response pack str) (with_rooms a.0 r), true)
  unfolding create_wanted create_answered
  create_wanted-answered pack code str texts r id fine coded written =
      ap (λ (o : Option String). create_answered lib pack o (with_rooms m r)) text
    where
      m : GameRoomManager
      m = (create_room (room_wanted pack texts) code r.room_manager).0

      text :
          create_text lib code (create_room (room_wanted pack texts) code r.room_manager) ≡ some str
      text = unfold create_text in rw (fine) (text_found lib code id m coded ∙ written)

  join_found-answered :
      (pack : MsgPack) (id : ℕ) (str : String) (r : MsgRouter)
      → let a : GameRoomManager × RoomReqResult = join_room id pack.sender_id r.room_manager in
        a.1 ≡ RoomReqResult.ok
        → room_code_to_id (room_code_of pack) a.0 ≡ some id
        → info_text lib (get_room_info id a.0) ≡ some str
        → join_found lib pack (some id) r ≡ some (welcomed pack id str a.0 r, true)
  unfolding join_found joined welcome
  join_found-answered pack id str r fine coded written = rw (fine) (
      ap
        (λ (o : Option String).
          welcome lib pack id o (with_rooms (join_room id pack.sender_id r.room_manager).0 r))
        (text_found lib (room_code_of pack) id (join_room id pack.sender_id r.room_manager).0 coded
          ∙ written))

  -- A logged-in user asks to create a room, by a request that can be read, and then another one asks to
  -- join it by the code that was drawn, which no room had; the library can write the text of the room
  -- both times. Then both handlers return true. The first has sent the room's text in a response to its
  -- user; the second has sent it to the other one, and then announced the player to the room. The code
  -- leads to the room, which is the first user's and has both players, in the order in which they came.
  pub create-join :
      (first second : MsgPack) (texts : DbLoginReq) (code other : String) (r : MsgRouter) (a b : ℕ)
      (str str' : String)
      → read_login first.msg.payload ≡ some texts
      → 6 ≤ length second.msg.payload
      → room_code_of second ≡ code
      → room_code_to_id code r.room_manager ≡ none
      → r.room_manager.has_players ≡ true
      → get_player r.room_manager.players first.sender_id ≡ some a
      → get_player r.room_manager.players second.sender_id ≡ some b
      → player_id_at (heap_of r.room_manager) a ≢ 0
      → player_id_at (heap_of r.room_manager) b ≢ 0
      → player_id_at (heap_of r.room_manager) a ≢ player_id_at (heap_of r.room_manager) b
      → let id : ℕ = r.room_manager.next_room_id in
        let m1 : GameRoomManager = (create_room (room_wanted first texts) code r.room_manager).0 in
        let m2 : GameRoomManager = (join_room id second.sender_id m1).0 in
        let r1 : MsgRouter =
          (send_message_to_user first.sender_id (create_response first str) (with_rooms m1 r)).0 in
        let sent : MsgRouter =
          (send_message_to_user second.sender_id
            (join_response second (bytes_of str'))
            (with_rooms m2 r1)).0 in
        let r2 : MsgRouter = (room_manager_broadcast id new_player_msg sent).0 in
        info_text lib (get_room_info id m1) ≡ some str
        → info_text lib (get_room_info id m2) ≡ some str'
        → (room : GameRoom) × (run_room_task lib code (create_task first) r ≡ some (r1, true))
          × (run_room_task lib other (join_task second) r1 ≡ some (r2, true))
          × (room_code_to_id code r2.room_manager ≡ some id)
          × (get_room id r2.room_manager ≡ some room)
          × (room.info.owner_id ≡ first.sender_id)
          × (room.group.members ≡ a ∷ b ∷ [])
  unfolding run_room_task handle_room_create_request handle_room_join_request reply announce
  create-join first second texts code other r a b str str' reads long named unused has pa pb ra rb
        apart text text' =
      let (made, opened, same) =
        create_room-IsOpen (room_wanted first texts) code r.room_manager a unused has pa ra
          (unfold room_wanted in refl) (unfold room_wanted in refl) in
      let rooms : r1.room_manager ≡ m1 = reply-rooms first.sender_id _ (with_rooms m1 r) in
      let (entered, coded, (room, stored, members, owner)) =
        join_room-joined m1 code id first.sender_id a second.sender_id b opened (same.has ∙ has)
          (same.players second.sender_id ∙ pb) (λ e. rb (sym (same.ids b) ∙ e))
          (λ e. apart (sym (same.ids a) ∙ e ∙ same.ids b)) in
      let back : (x : GameRoomManager) → GameRoomManager × RoomReqResult =
        λ x. join_room id second.sender_id x in
      let rooms2 = welcomed-rooms second id str' m2 r1 in
      (
        room,
        ap (λ (o : Option DbLoginReq). create_wanted lib first code o r) reads
            ∙ create_wanted-answered first code str texts r id made opened.coded text,
        found r1 (ap (room_code_to_id code) rooms ∙ opened.coded)
            ∙ join_found-answered second id str' r1 (ap (λ x. (back x).1) rooms ∙ entered)
                (ap (λ x. room_code_to_id (room_code_of second) (back x).0) rooms
                  ∙ ap (λ (c : String). room_code_to_id c m2) named
                  ∙ coded)
                (ap (λ x. info_text lib (get_room_info id (back x).0)) rooms ∙ text')
            ∙ ap (λ x. some (welcomed second id str' (back x).0 r1, true)) rooms,
        ap (room_code_to_id code) rooms2 ∙ coded,
        ap (get_room id) rooms2 ∙ stored,
        owner,
        members,
      )
    where
      id : ℕ
      id = r.room_manager.next_room_id

      m1 : GameRoomManager
      m1 = (create_room (room_wanted first texts) code r.room_manager).0

      m2 : GameRoomManager
      m2 = (join_room id second.sender_id m1).0

      r1 : MsgRouter
      r1 = (send_message_to_user first.sender_id (create_response first str) (with_rooms m1 r)).0

      found :
          (r1 : MsgRouter)
          → room_code_to_id code r1.room_manager ≡ some id
          → handle_room_join_request lib second r1 ≡ join_found lib second (some id) r1
      found r1 e = rw (le→ltb (length second.msg.payload) 6 long) (
          ap (λ (c : String). join_found lib second (room_code_to_id c r1.room_manager) r1) named
          ∙ ap (λ (o : Option ℕ). join_found lib second o r1) e)
