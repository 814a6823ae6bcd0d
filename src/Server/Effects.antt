-- ===== src/Server/Effects.antt =====
-- What a task of the handlers that main.cpp registers does to users, sessions and rooms.
use own_game_server.Prelude.{
  ℕ, ◌≡◌, refl, ◌∙◌, Bool, Option, none, some, String, length, ltb, Bool-cases, ◌⊎◌, inl, inr,
}
use own_game_server.ClientSession.{MsgPack}
use own_game_server.Messages.{DbLoginReq, UserLoginInfo, RoomReqResult}
use own_game_server.UserSessionMap.{UserSessionMap}
use own_game_server.UserSessionMap as U
use own_game_server.PlayerManager as P
use own_game_server.Room.{is_ok, lobby}
use own_game_server.RoomManager.{GameRoomManager, join_room, leave_room_of, create_room}
use own_game_server.RoomManager.Steps.{
  Command, create, join, leave, start, dissolve, ready, set_map, rename, set_password, kick, resize,
  serve,
}
use own_game_server.Codec.Encoder.{EncodeMessage}
use own_game_server.MsgRouter.{MsgRouter}
use own_game_server.MsgRouter.Quiet.{
  KeepsPeers, IsQuiet, KeepsPeers-refl, KeepsPeers-trans, IsQuiet-refl, IsQuiet-trans,
  send_message_to_session-IsQuiet, send_message_to_user-IsQuiet, room_manager_broadcast-IsQuiet,
  on_session_heartbeat-IsQuiet,
}
use own_game_server.HeartbeatHandler.{handle_heartbeat}
use own_game_server.ReqHandler.{
  ReqTask, login_task, logout_task, run_task, handle_login_request, log_in, validate_login,
  login_info, run_callbacks, send_back_login_response,
}
use own_game_server.RoomReqHandler.{
  RoomTask, create_task, join_task, leave_task, list_task, run_room_task, with_rooms, reply,
  announce, leave_found, handle_room_leave_request, welcome, joined, join_found,
  handle_room_join_request, create_answered, create_wanted, handle_room_create_request,
  handle_room_list_request, list_answered, room_wanted, text_for_code, room_code_of,
}
use own_game_server.JsonTranslator.{JsonLibrary}
use own_game_server.Server.{
  req_handler_of, heartbeat_handler_at, note_heartbeat, user_map_login, player_login,
}
use own_game_server.Server.Takeover.{called_back}

-- The commands that a request of a client can turn into.
abbrev pub FromClient : Command → Type 0
FromClient (create info code) = (info.state ≡ lobby)
FromClient (join room id) = Unit
FromClient (leave room id) = Unit
FromClient (start room id) = ⊥
FromClient (dissolve room id) = ⊥
FromClient (ready room id b) = ⊥
FromClient (set_map room id s) = ⊥
FromClient (rename room id s) = ⊥
FromClient (set_password room id s) = ⊥
FromClient (kick room id t) = ⊥
FromClient (resize room id n) = ⊥

-- The rooms are as before, or have served one such command.
abbrev pub Served : GameRoomManager → GameRoomManager → Type 0
Served m m' = (m' ≡ m) ⊎ ((c : Command) × FromClient c × (m' ≡ serve (λ s. none) c m))

-- The map is as before, or has served one login from the session.
abbrev pub LoggedIn : ℕ → UserSessionMap → UserSessionMap → Type 0
LoggedIn sid m m' =
    (m' ≡ m) ⊎ ((info : UserLoginInfo) × (info.session_id ≡ sid) × (m' ≡ U.on_user_login m info))

abbrev pub PlayersOnly : (ℕ → String) → GameRoomManager → GameRoomManager → Type 0
PlayersOnly name_of m m' =
    (m' ≡ m)
    ⊎ ((info : UserLoginInfo) × (m'
          ≡ record m { players = P.on_user_login name_of info m.players }))

pub record RoomEffect (r q : MsgRouter) : Type 0 where
  pub keeps : KeepsPeers r q
  pub map : q.user_session_map ≡ r.user_session_map
  pub rooms : Served r.room_manager q.room_manager

pub record LoginEffect (name_of : ℕ → String) (sid : ℕ) (r q : MsgRouter) : Type 0 where
  pub keeps : KeepsPeers r q
  pub map : LoggedIn sid r.user_session_map q.user_session_map
  pub rooms : PlayersOnly name_of r.room_manager q.room_manager

-- The router that a handler leaves, where it returns.
abbrev pub Ensures : (MsgRouter → Type 0) → Option (MsgRouter × Bool) → Type 0
Ensures Good none = Unit
Ensures Good (some (q, answer)) = Good q

pub heartbeat-IsQuiet :
    (now : ℕ) (pack : MsgPack) (r : MsgRouter)
    → IsQuiet r (handle_heartbeat (heartbeat_handler_at now) (some pack) r).0
unfolding handle_heartbeat heartbeat_handler_at note_heartbeat
heartbeat-IsQuiet now pack r =
    IsQuiet-trans r (note_heartbeat now pack.sender_session_id r) _
      (on_session_heartbeat-IsQuiet pack.sender_session_id now r)
      (send_message_to_session-IsQuiet pack.sender_session_id _ _)

reply-IsQuiet : (user : ℕ) (msg : EncodeMessage) (r : MsgRouter) → IsQuiet r (reply user msg r)
unfolding reply
reply-IsQuiet user msg r = send_message_to_user-IsQuiet user msg r

announce-IsQuiet : (room_id : ℕ) (r : MsgRouter) → IsQuiet r (announce room_id r)
unfolding announce
announce-IsQuiet room_id r = room_manager_broadcast-IsQuiet room_id _ r

-- The rooms change, and then messages are sent.
after_rooms :
    (r q : MsgRouter) (m : GameRoomManager)
    → Served r.room_manager m
    → IsQuiet (with_rooms m r) q
    → RoomEffect r q
after_rooms r q m (inl same) quiet = record {
  keeps =
      KeepsPeers-trans r (with_rooms m r) q
        (record { next = refl; managed = refl; peers = (KeepsPeers-refl r).peers }) quiet.keeps;
  map = quiet.map;
  rooms = inl (quiet.rooms ∙ same);
}
after_rooms r q m (inr (c, client, served)) quiet = record {
  keeps =
      KeepsPeers-trans r (with_rooms m r) q
        (record { next = refl; managed = refl; peers = (KeepsPeers-refl r).peers }) quiet.keeps;
  map = quiet.map;
  rooms = inr (c, client, quiet.rooms ∙ served);
}

only_sends : (r q : MsgRouter) → IsQuiet r q → RoomEffect r q
only_sends r q quiet = record { keeps = quiet.keeps; map = quiet.map; rooms = inl quiet.rooms }

leave_found-RoomEffect :
    (pack : MsgPack) (found : Option ℕ) (r : MsgRouter)
    → Ensures (RoomEffect r) (leave_found pack found r)
unfolding leave_found
leave_found-RoomEffect pack none r = only_sends r r (IsQuiet-refl r)
leave_found-RoomEffect pack (some room_id) r =
    after_rooms r _ (leave_room_of room_id pack.sender_id r.room_manager).0
      (inr (leave room_id pack.sender_id, tt, unfold serve in refl))
      (reply-IsQuiet pack.sender_id _ _)

leave-RoomEffect :
    (pack : MsgPack) (r : MsgRouter) → Ensures (RoomEffect r) (handle_room_leave_request pack r)
unfolding handle_room_leave_request
leave-RoomEffect pack r = elim (Bool-cases (ltb (length pack.msg.payload) 6)) [
  | inl few ↦ rw (few) tt
  | inr enough ↦ rw (enough) (leave_found-RoomEffect pack _ r)
]

module _ {J : Type 0} (lib : JsonLibrary J) where
  welcome-RoomEffect :
      (pack : MsgPack) (room_id : ℕ) (text : Option String) (r : MsgRouter) (m : GameRoomManager)
      → Served r.room_manager m
      → Ensures (RoomEffect r) (welcome lib pack room_id text (with_rooms m r))
  unfolding welcome
  welcome-RoomEffect pack room_id none r m served = tt
  welcome-RoomEffect pack room_id (some str) r m served = after_rooms r _ m served (
      IsQuiet-trans (with_rooms m r) (reply pack.sender_id _ (with_rooms m r)) _
        (reply-IsQuiet pack.sender_id _ (with_rooms m r)) (announce-IsQuiet room_id _))

  joined-RoomEffect :
      (pack : MsgPack) (room_id : ℕ) (a : GameRoomManager × RoomReqResult) (r : MsgRouter)
      → Served r.room_manager a.0
      → Ensures (RoomEffect r) (joined lib pack room_id a r)
  unfolding joined
  joined-RoomEffect pack room_id (m, out_res) r served = elim (Bool-cases (is_ok out_res)) [
    | inl fine ↦
        rw (fine)
          (welcome-RoomEffect pack room_id (text_for_code lib (room_code_of pack) m) r m served)
    | inr refused ↦
        rw (refused) (after_rooms r _ m served (reply-IsQuiet pack.sender_id _ (with_rooms m r)))
  ]

  join_found-RoomEffect :
      (pack : MsgPack) (found : Option ℕ) (r : MsgRouter)
      → Ensures (RoomEffect r) (join_found lib pack found r)
  unfolding join_found
  join_found-RoomEffect pack none r = only_sends r _ (reply-IsQuiet pack.sender_id _ r)
  join_found-RoomEffect pack (some room_id) r =
      joined-RoomEffect pack room_id (join_room room_id pack.sender_id r.room_manager) r
        (inr (join room_id pack.sender_id, tt, unfold serve in refl))

  join-RoomEffect :
      (pack : MsgPack) (r : MsgRouter)
      → Ensures (RoomEffect r) (handle_room_join_request lib pack r)
  unfolding handle_room_join_request
  join-RoomEffect pack r = elim (Bool-cases (ltb (length pack.msg.payload) 6)) [
    | inl few ↦ rw (few) tt
    | inr enough ↦ rw (enough) (join_found-RoomEffect pack _ r)
  ]

  create_answered-RoomEffect :
      (pack : MsgPack) (text : Option String) (r : MsgRouter) (m : GameRoomManager)
      → Served r.room_manager m
      → Ensures (RoomEffect r) (create_answered lib pack text (with_rooms m r))
  unfolding create_answered
  create_answered-RoomEffect pack none r m served = tt
  create_answered-RoomEffect pack (some str) r m served =
      after_rooms r _ m served (reply-IsQuiet pack.sender_id _ (with_rooms m r))

  create_wanted-RoomEffect :
      (pack : MsgPack) (code : String) (wanted : Option DbLoginReq) (r : MsgRouter)
      → Ensures (RoomEffect r) (create_wanted lib pack code wanted r)
  unfolding create_wanted
  create_wanted-RoomEffect pack code none r = tt
  create_wanted-RoomEffect pack code (some texts) r =
      create_answered-RoomEffect pack _ r
        (create_room (room_wanted pack texts) code r.room_manager).0
        (inr
          (create (room_wanted pack texts) code, unfold room_wanted in refl, unfold serve in refl))

  -- A task of the room handler, which returns, adds no session, binds no user, and makes at most one
  -- request to the rooms: to create, to join or to leave one.
  list_answered-RoomEffect :
      (pack : MsgPack) (text : Option String) (r : MsgRouter)
      → Ensures (RoomEffect r) (list_answered lib pack text r)
  unfolding list_answered
  list_answered-RoomEffect pack none r = tt
  list_answered-RoomEffect pack (some str) r =
      only_sends r _ (send_message_to_session-IsQuiet pack.sender_session_id _ r)

  pub run_room_task-RoomEffect :
      (code : String) (task : RoomTask) (r : MsgRouter)
      → Ensures (RoomEffect r) (run_room_task lib code task r)
  unfolding run_room_task
  run_room_task-RoomEffect code (create_task pack) r =
      unfold handle_room_create_request in create_wanted-RoomEffect pack code _ r
  run_room_task-RoomEffect code (join_task pack) r = join-RoomEffect pack r
  run_room_task-RoomEffect code (leave_task pack) r = leave-RoomEffect pack r
  run_room_task-RoomEffect code (list_task pack) r =
      unfold handle_room_list_request in list_answered-RoomEffect pack _ r

abbrev pub pack_of : ReqTask → MsgPack
pack_of (login_task pack) = pack
pack_of (logout_task pack) = pack

module _ (name_of : ℕ → String) where
  log_in-LoginEffect :
      (pack : MsgPack) (wanted : Option DbLoginReq) (r : MsgRouter)
      → Ensures
          (LoginEffect name_of pack.sender_session_id r)
          (log_in (req_handler_of name_of) pack wanted r)
  unfolding log_in send_back_login_response run_callbacks req_handler_of user_map_login player_login
  log_in-LoginEffect pack none r = tt
  log_in-LoginEffect pack (some req) r =
      let info : UserLoginInfo = login_info pack (validate_login req) in
      let quiet =
        send_message_to_session-IsQuiet pack.sender_session_id _ (called_back name_of pack req r) in
      record {
        keeps =
            KeepsPeers-trans r (called_back name_of pack req r) _
              (record { next = refl; managed = refl; peers = (KeepsPeers-refl r).peers })
              quiet.keeps;
        map = inr (info, unfold login_info in refl, quiet.map);
        rooms = inr (info, quiet.rooms);
      }

  -- A task of the login handler, which returns, adds no session and makes at most one login, of a
  -- user from the session that the request came from.
  pub run_task-LoginEffect :
      (task : ReqTask) (r : MsgRouter)
      → Ensures
          (LoginEffect name_of (pack_of task).sender_session_id r)
          (run_task (req_handler_of name_of) task r)
  unfolding run_task
  run_task-LoginEffect (login_task pack) r =
      unfold handle_login_request in log_in-LoginEffect pack _ r
  run_task-LoginEffect (logout_task pack) r = record {
    keeps = KeepsPeers-refl r;
    map = inl refl;
    rooms = inl refl;
  }
