-- ===== src/Server/Members.antt =====
-- The members of the rooms of the server of main.cpp along a run.
use own_game_server.Prelude.{ℕ, ◌+◌, ◌≡◌, ◌<◌, ◌≤◌, String, u32_mod, length, none, some}
use own_game_server.Assoc.{lookup, nat_eq, string_eq}
use own_game_server.Group.Members.{Distinct}
use own_game_server.Player.{Heap, player_id_at}
use own_game_server.Room.{GameRoom}
use own_game_server.Room.Seats.{Made}
use own_game_server.RoomManager.{GameRoomManager, get_room, heap_of}
use own_game_server.RoomManager.Seats.{
  AllSeated, create_room-AllSeated, join_room-AllSeated, leave_room_of-AllSeated,
  on_user_login-AllSeated,
}
use own_game_server.RoomManager.Steps.{
  Command, create, join, leave, start, dissolve, ready, set_map, rename, set_password, kick, resize,
  serve,
}
use own_game_server.JsonTranslator.{JsonLibrary}
use own_game_server.Server.{Server, new_server, new_managers, initialize}
use own_game_server.Server.Actions.{Reach}
use own_game_server.Server.Effects.{FromClient}
use own_game_server.Server.Rooms.{rooms_induction}

serve-AllSeated :
    (c : Command) (m : GameRoomManager)
    → FromClient c
    → AllSeated m
    → AllSeated (serve (λ s. none) c m)
unfolding serve
serve-AllSeated (create info code) m client s = create_room-AllSeated info code m s
serve-AllSeated (join room id) m client s = join_room-AllSeated room id m s
serve-AllSeated (leave room id) m client s = leave_room_of-AllSeated room id m s
serve-AllSeated (start room id) m client s = absurd client
serve-AllSeated (dissolve room id) m client s = absurd client
serve-AllSeated (ready room id b) m client s = absurd client
serve-AllSeated (set_map room id t) m client s = absurd client
serve-AllSeated (rename room id t) m client s = absurd client
serve-AllSeated (set_password room id t) m client s = absurd client
serve-AllSeated (kick room id t) m client s = absurd client
serve-AllSeated (resize room id n) m client s = absurd client

module _ {J : Type 0} (lib : JsonLibrary J) (name_of : ℕ → String) where
  start-AllSeated : (heap : Heap) → AllSeated (new_server heap).router.room_manager
  unfolding new_server initialize new_managers lookup
  start-AllSeated heap = record {
    registered = record { named = λ id a e. cc; made = λ id a e. cc };
    seated = λ id r e. cc;
  }

  -- In every state that a server comes to within fewer than 2^32 - 1 actions since its start, the
  -- members of each room are player objects that have been made, no two of them have the same user
  -- id, and there are no more of them than the room's capacity; and a player that is registered
  -- under an id has this id.
  pub Reach-AllSeated :
      (heap : Heap) (n : ℕ) (s : Server)
      → Reach lib name_of (new_server heap) n s
      → n + 1 < u32_mod
      → let m : GameRoomManager = s.router.room_manager in
        ((id : ℕ) (r : GameRoom)
          → get_room id m ≡ some r
          → Made (heap_of m).next r.group.members
            × Distinct (player_id_at (heap_of m)) r.group.members
            × (length r.group.members ≤ r.group.capacity))
        × ((id a : ℕ) → lookup id m.players.players ≡ some a → player_id_at (heap_of m) a ≡ id)
  Reach-AllSeated heap n s run small =
      let q : AllSeated s.router.room_manager =
        rooms_induction lib name_of (λ n m. AllSeated m) heap (start-AllSeated heap) (λ n m v. v)
          (λ n m info v. on_user_login-AllSeated name_of info m v)
          (λ n m c below client v. serve-AllSeated c m client v) run small in
      (
        λ id r e. let w = q.seated id r e in (w.made, w.orderly.distinct, w.orderly.bounded),
        q.registered.named,
      )
