-- ===== src/RoomReqHandler/Requests.antt =====
-- What the requests of business/GameRoom/RoomReqHandler.cpp do for every payload.
use own_game_server.Prelude.{
  ℕ, ◌<◌, ◌≤◌, ◌≡◌, ◌↔◌, ◌∙◌, refl, sym, subst, ◌⊎◌, ap, inl, inr, true, false, Option, none, some,
  arith, String, length, le→ltb, Option-cases,
}
use own_game_server.Assoc.{lookup, nat_eq, string_eq}
use own_game_server.ClientSession.{MsgPack}
use own_game_server.Messages.{RoomReqResult}
use own_game_server.Room.{is_ok}
use own_game_server.RoomManager.{
  GameRoomManager, room_code_to_id, join_room, ask_player, get_room_info,
}
use own_game_server.RoomManager.Steps.{asked}
use own_game_server.MsgRouter.{MsgRouter}
use own_game_server.JsonTranslator.{JsonLibrary}
use own_game_server.RoomReqHandler.{
  handle_room_join_request, join_found, joined, welcome, text_for_code, room_code_of,
  handle_room_leave_request, leave_found, info_text,
}

join_room-codes :
    (room id : ℕ) (m : GameRoomManager) → (join_room room id m).0.room_code_map ≡ m.room_code_map
unfolding join_room
join_room-codes room id m = elim (Option-cases (lookup room m.rooms)) [
  | inl e ↦ rw (e, join_room) refl
  | inr (r, e) ↦ elim (asked (ask_player m id)) [
    | inl (x, n) ↦ rw (e, n, join_room) refl
    | inr (a, n) ↦ rw (e, n, join_room) refl
  ]
]

module _ {J : Type 0} (lib : JsonLibrary J) where
  pub text_found :
      (code : String) (id : ℕ) (m : GameRoomManager)
      → room_code_to_id code m ≡ some id
      → text_for_code lib code m ≡ info_text lib (get_room_info id m)
  unfolding text_for_code
  text_found code id m e = rw (e, text_for_code) refl

  -- JoinRoom lets the player in, and the text of the room cannot be written.
  abbrev pub IsUnwritten : MsgPack → MsgRouter → Type 0
  IsUnwritten pack r =
      (id : ℕ) × (room_code_to_id (room_code_of pack) r.room_manager ≡ some id)
      × (is_ok (join_room id pack.sender_id r.room_manager).1 ≡ true)
      × (info_text lib (get_room_info id (join_room id pack.sender_id r.room_manager).0) ≡ none)

  joined-none :
      (pack : MsgPack) (room_id : ℕ) (a : GameRoomManager × RoomReqResult) (r : MsgRouter)
      → (joined lib pack room_id a r ≡ none)
        ↔ ((is_ok a.1 ≡ true) × (text_for_code lib (room_code_of pack) a.0 ≡ none))
  unfolding joined welcome
  joined-none pack room_id (m, out_res) r = ground arith

  just : (j id : ℕ) → Option.some j ≡ some id → j ≡ id
  just j id e = cc

  join_found-none :
      (pack : MsgPack) (found : Option ℕ) (r : MsgRouter)
      → room_code_to_id (room_code_of pack) r.room_manager ≡ found
      → (join_found lib pack found r ≡ none) ↔ IsUnwritten pack r
  unfolding join_found
  join_found-none pack none r e = (λ h. cc, λ (id, there, fine, dumped). cc)
  join_found-none pack (some id) r e =
      let a : GameRoomManager × RoomReqResult = join_room id pack.sender_id r.room_manager in
      let text : text_for_code lib (room_code_of pack) a.0 ≡ info_text lib (get_room_info id a.0) =
        text_found (room_code_of pack) id a.0 (
          ap (lookup (room_code_of pack)) (join_room-codes id pack.sender_id r.room_manager) ∙ e) in
      (
        λ h. let (fine, dumped) = (joined-none pack id a r).0 h in (id, e, fine, sym text ∙ dumped),
        λ (j, there, fine, dumped).
            let same : j ≡ id = just j id (sym there ∙ e) in
            (joined-none pack id a r).1 (
              subst (λ (i : ℕ). is_ok (join_room i pack.sender_id r.room_manager).1 ≡ true) same
                  fine,
              text
                  ∙ subst
                      (λ (i : ℕ).
                        info_text lib
                          (get_room_info i (join_room i pack.sender_id r.room_manager).0)
                        ≡ none)
                      same dumped,
            ),
      )

  -- HandleRoomJoinRequest returns, except exactly where the payload has less than six bytes, so that
  -- it reads outside of it, or where the player has been let in and the JSON library throws at the
  -- text of the room.
  pub handle_room_join_request-none :
      (pack : MsgPack) (r : MsgRouter)
      → (handle_room_join_request lib pack r ≡ none)
        ↔ ((length pack.msg.payload < 6) ⊎ ((6 ≤ length pack.msg.payload) × IsUnwritten pack r))
  unfolding handle_room_join_request
  handle_room_join_request-none pack r =
      ground
        (arith, join_found-none pack (room_code_to_id (room_code_of pack) r.room_manager) r refl)

-- A request to leave a room of six bytes or more is refused without a change, whatever code it has,
-- as long as no room has the empty code.
pub handle_room_leave_request-refused :
    (pack : MsgPack) (r : MsgRouter)
    → 6 ≤ length pack.msg.payload
    → room_code_to_id "" r.room_manager ≡ none
    → handle_room_leave_request pack r ≡ some (r, false)
unfolding handle_room_leave_request leave_found
handle_room_leave_request-refused pack r long unused =
    rw (le→ltb (length pack.msg.payload) 6 long, unused, leave_found) refl
