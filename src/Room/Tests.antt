-- ===== src/Room/Tests.antt =====
-- A room of the users 7 and 8, whose objects are at the addresses 3 and 4.
use own_game_server.Prelude.{
  ℕ, ◌≡◌, refl, true, false, Option, some, List, [], ◌∷◌, nat_beq, if◌then◌else◌, String, arith,
}
use own_game_server.Assoc.{nat_eq}
use own_game_server.Messages.{RoomReqResult}
use own_game_server.Group.{find_in}
use own_game_server.Player.{Heap}
use own_game_server.RuntimeData.{MapData}
use own_game_server.Room.{lobby, GameRoomInfo, GameRoom, join_room}
use own_game_server.Room.Membership.{
  Request, join, leave, ready, kick, resize, serve, serve_all, IsOrderly, serve_all-IsOrderly,
}
use own_game_server.Room.Rights.{answer, serve-not_owner, join_room_cases, JoinAnswer}

abbrev objects : Heap
objects = record {
  at = λ (a : ℕ). record {
    b_info = record {
      user_id = if nat_beq a 3 then 7 else if nat_beq a 4 then 8 else 9;
      current_group_id = 0;
      user_name = "player";
      session_id = 1;
      is_online = true;
    };
    seat_index = 0;
    color = 0;
    position = 0;
    ready = false;
  };
  next = 6;
}

abbrev den_info : GameRoomInfo
den_info = record {
  room_id = 1;
  room_code = "AAAAAA";
  room_name = "den";
  password = "";
  owner_id = 7;
  capacity = 3;
  player_count = 2;
  state = lobby;
  selected_map_path = "field";
  players = [];
  seat_index = 0;
}

abbrev den : GameRoom
den = record {
  info = den_info;
  handler = record {
    room_id = 1;
    ticking = false;
    tick_interval = 50;
    armed = false;
    runtime = record {
      map_name = "";
      map = record { width = 0; height = 0; tiles = [] };
      players = [];
      tick = 0;
      current_player_id = 0;
    };
  };
  group = record { group_id = 1; capacity = 3; members = 3 ∷ 4 ∷ [] };
}

abbrev map_of : String → Option MapData
map_of s = some (record { width = 1; height = 1; tiles = [] })

abbrev bytes : ℕ → List ℕ
bytes n = n ∷ []

den-IsOrderly : IsOrderly objects den
unfolding find_in
den-IsOrderly = record { distinct = (refl, (refl, tt)); bounded = omega arith }

abbrev evening : List Request
evening = join (some 5) ∷ leave 8 ∷ ready 7 true ∷ resize 7 2 ∷ kick 7 9 ∷ []

serve_all-IsOrderly_example :
    IsOrderly
      (serve_all map_of bytes evening objects den).0
      (serve_all map_of bytes evening objects den).1
serve_all-IsOrderly_example = serve_all-IsOrderly map_of bytes evening objects den den-IsOrderly

serve-not_owner_example :
    (serve map_of bytes (kick 8 7) objects den ≡ (objects, den))
    × (answer map_of bytes (kick 8 7) objects den ≡ some RoomReqResult.not_owner)
serve-not_owner_example = serve-not_owner map_of bytes (kick 8 7) 8 objects den refl (omega arith)

join_room_cases_example :
    (((join_room (some 5) objects den).0.at 5).b_info.current_group_id ≡ 1)
    × JoinAnswer 5
        (join_room (some 5) objects den).0
        den
        (join_room (some 5) objects den).1
        (join_room (some 5) objects den).2
join_room_cases_example = join_room_cases 5 objects den refl (omega arith)
