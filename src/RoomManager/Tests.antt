-- ===== src/RoomManager/Tests.antt =====
-- A manager with one room, and a user that makes another one.
use own_game_server.Prelude.{
  ℕ, ◌≡◌, refl, true, Option, none, some, List, [], ◌∷◌, String, arith, eq_iff,
}
use own_game_server.Assoc.{lookup, insert, nat_eq, string_eq}
use own_game_server.Messages.{RoomReqResult}
use own_game_server.Group.{add_member}
use own_game_server.RuntimeData.{MapData}
use own_game_server.Player.{new_player}
use own_game_server.Room.{
  GameRoom, GameRoomInfo, RoomState, lobby, new_room, map_group_result, join_group,
}
use own_game_server.Room as R
use own_game_server.RoomManager.{
  GameRoomManager, get_room, room_code_to_id, create_room, create_room_at, ask_player, publish_room,
  dissolve_room_of, join_room, at_room, kick_player_of,
}
use own_game_server.RoomManager.Directory.{IsIndexed}
use own_game_server.RoomManager.Steps.{Command, join, dissolve, kick, serve, serve_all}
use own_game_server.RoomManager.Service.{room_code_to_id-serve_all}

abbrev no_map : String → Option MapData
no_map s = none

abbrev den_info : GameRoomInfo
den_info = record {
  room_id = 1;
  room_code = "AAAAAA";
  room_name = "den";
  password = "";
  owner_id = 7;
  capacity = 3;
  player_count = 0;
  state = lobby;
  selected_map_path = "field";
  players = [];
  seat_index = 0;
}

abbrev hall : GameRoomManager
hall = record {
  rooms = (1, new_room den_info) ∷ [];
  room_code_map = ("AAAAAA", 1) ∷ [];
  next_room_id = 2;
  has_players = true;
  players = record {
    players = (7, 3) ∷ [];
    heap = record { at = λ (a : ℕ). new_player (λ n. "player") 7; next = 4 };
  };
}

hall-IsIndexed : IsIndexed hall
unfolding lookup new_room
hall-IsIndexed = record {
  codes = λ c id e.
      (new_room den_info, ground (arith, eq_iff "AAAAAA" c), ground (arith, eq_iff "AAAAAA" c));
  ids = λ id r e. (ground arith, ground arith);
}

abbrev requests : List Command
requests = join 1 7 ∷ dissolve 1 8 ∷ kick 1 7 8 ∷ []

still_coded : room_code_to_id "AAAAAA" (serve_all no_map requests hall) ≡ some 1
unfolding serve_all serve lookup kick_player_of at_room dissolve_room_of join_room ask_player insert
    R.dissolve_room R.join_room new_room new_player join_group map_group_result add_member
still_coded = refl

room_code_to_id-serve_all_example :
    (r : GameRoom) × (get_room 1 (serve_all no_map requests hall) ≡ some r)
    × (r.info.room_code ≡ "AAAAAA")
    × (r.info.room_id ≡ 1)
room_code_to_id-serve_all_example =
    room_code_to_id-serve_all no_map requests hall "AAAAAA" 1 (omega arith) hall-IsIndexed
      still_coded

hall_creates : (create_room den_info "BBBBBB" hall).1 ≡ RoomReqResult.ok
unfolding create_room create_room_at ask_player publish_room R.join_room join_group lookup new_room
    new_player map_group_result add_member
hall_creates = refl
