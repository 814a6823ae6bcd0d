-- ===== src/RoomReqHandler/Password.antt =====
-- The password that HandleRoomJoinRequest of business/GameRoom/RoomReqHandler.cpp copies.
use own_game_server.Prelude.{
  ℕ, ◌≡◌, ◌∙◌, refl, sym, ap, Bool, true, false, Option, none, some, List, [], ◌∷◌, ◌++◌, arith,
  String, length, length-append, take-append, ltb, le→ltb, if◌then◌else◌, text_of,
}
use own_game_server.ClientSession.{MsgPack}
use own_game_server.Messages.{RoomReqResult, room_req_result_code}
use own_game_server.Room.{is_ok}
use own_game_server.RoomManager.{GameRoomManager, room_code_to_id, join_room}
use own_game_server.MsgRouter.{MsgRouter}
use own_game_server.JsonTranslator.{JsonLibrary}
use own_game_server.RoomReqHandler.{
  handle_room_join_request, join_found, joined, welcome, text_for_code, room_code_of, with_rooms,
  join_response, reply,
}

-- The pack with the code and the password as its payload.
abbrev pub asking : MsgPack → List ℕ → List ℕ → MsgPack
asking pack code password = record pack { msg = record pack.msg { payload = code ++ password } }

module _ {J : Type 0} (lib : JsonLibrary J) (pack : MsgPack) (code p q : List ℕ)
    (six : length code ≡ 6) where
  same_code : room_code_of (asking pack code p) ≡ room_code_of (asking pack code q)
  same_code = ap text_of (take-append 6 code p six) ∙ sym (ap text_of (take-append 6 code q six))

  welcome_same :
      (id : ℕ) (str : Option String) (r : MsgRouter)
      → welcome lib (asking pack code p) id str r ≡ welcome lib (asking pack code q) id str r
  unfolding welcome join_response
  welcome_same id none r = refl
  welcome_same id (some str) r = refl

  joined_same :
      (id : ℕ) (a : GameRoomManager × RoomReqResult) (r : MsgRouter)
      → joined lib (asking pack code p) id a r ≡ joined lib (asking pack code q) id a r
  unfolding joined join_response
  joined_same id (m, out_res) r =
      ap
        (λ (w : Option (MsgRouter × Bool)).
          if is_ok out_res
          then w
          else some (
            reply pack.sender_id
                (join_response (asking pack code p) (room_req_result_code out_res ∷ []))
                (with_rooms m r),
            true,
          ))
        (welcome_same id (text_for_code lib (room_code_of (asking pack code p)) m) (with_rooms m r)
          ∙ ap
              (λ (c : String).
                welcome lib (asking pack code q) id (text_for_code lib c m) (with_rooms m r))
              same_code)

  join_found_same :
      (found : Option ℕ) (r : MsgRouter)
      → join_found lib (asking pack code p) found r ≡ join_found lib (asking pack code q) found r
  unfolding join_found join_response
  join_found_same none r = refl
  join_found_same (some id) r = joined_same id (join_room id pack.sender_id r.room_manager) r

  long_enough : (pw : List ℕ) → ltb (length (code ++ pw)) 6 ≡ false
  long_enough pw = le→ltb (length (code ++ pw)) 6 (omega (arith, length-append code pw, six))

  -- The handler does the same for every password behind the code, whatever password the room has:
  -- nobody who knows the code is kept out by the password.
  pub handle_room_join_request-password :
      (r : MsgRouter)
      → handle_room_join_request lib (asking pack code p) r
        ≡ handle_room_join_request lib (asking pack code q) r
  unfolding handle_room_join_request
  handle_room_join_request-password r =
      rw (long_enough p, long_enough q)
        (join_found_same (room_code_to_id (room_code_of (asking pack code p)) r.room_manager) r
          ∙ ap
              (λ (c : String).
                join_found lib (asking pack code q) (room_code_to_id c r.room_manager) r)
              same_code)
