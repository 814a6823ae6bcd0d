-- ===== src/RoomManager/Directory.antt =====
-- The two maps of business/GameRoom/GameRoomManager, and the writes to them.
use own_game_server.Prelude.{
  ℕ, ◌+◌, ◌≡◌, ◌<◌, Option, some, String, arith, Option-cases, Bool-cases, inl, inr, nat_beq,
  nat_beq_iff, str_eq, eq_iff,
}
use own_game_server.Assoc.{
  lookup, insert, emplace, erase, nat_eq, string_eq, lookup-insert, lookup-erase, lookup-emplace,
}
use own_game_server.Player.{Heap}
use own_game_server.RuntimeData.{MapData}
use own_game_server.Room.{
  GameRoom, GameRoomInfo, is_ok, new_room, join_group, leave_room, set_player_ready,
  start_room_game, change_map, change_room_name, change_password, kick_player, change_capacity,
  dissolve_room,
}
use own_game_server.Room as R
use own_game_server.RoomManager.{GameRoomManager, with_heap, put_room}

-- A code leads to a room with that code; a room's id is its own, and was drawn.
pub record IsIndexed (m : GameRoomManager) : Type 0 where
  pub codes :
      (c : String) (id : ℕ)
      → lookup c m.room_code_map ≡ some id
      → (r : GameRoom) × (lookup id m.rooms ≡ some r) × (r.info.room_code ≡ c)
  pub ids :
      (id : ℕ) (r : GameRoom)
      → lookup id m.rooms ≡ some r
      → (r.info.room_id ≡ id) × (id < m.next_room_id)

-- The room keeps its names.
pub record Keeps (r r1 : GameRoom) : Type 0 where
  pub code : r1.info.room_code ≡ r.info.room_code
  pub id : r1.info.room_id ≡ r.info.room_id

module _ (load : String → Option MapData) (r : GameRoom) (h : Heap) where
  pub join-Keeps : (a : Option ℕ) → Keeps r (R.join_room a h r).1
  unfolding R.join_room join_group
  join-Keeps a = record { code = ground arith; id = ground arith }

  pub leave-Keeps : (id : ℕ) → Keeps r (leave_room id h r).0
  unfolding leave_room
  leave-Keeps id = record { code = ground arith; id = ground arith }

  pub start-Keeps : (id : ℕ) → Keeps r (start_room_game load id h r).0
  unfolding start_room_game
  start-Keeps id = record { code = ground arith; id = ground arith }

  pub change_map-Keeps : (id : ℕ) (s : String) → Keeps r (change_map id s r).0
  unfolding change_map
  change_map-Keeps id s = record { code = ground arith; id = ground arith }

  pub change_room_name-Keeps : (id : ℕ) (s : String) → Keeps r (change_room_name id s r).0
  unfolding change_room_name
  change_room_name-Keeps id s = record { code = ground arith; id = ground arith }

  pub change_password-Keeps : (id : ℕ) (s : String) → Keeps r (change_password id s r).0
  unfolding change_password
  change_password-Keeps id s = record { code = ground arith; id = ground arith }

  pub kick-Keeps : (id t : ℕ) → Keeps r (kick_player id t h r).0
  unfolding kick_player
  kick-Keeps id t = record { code = ground arith; id = ground arith }

  pub change_capacity-Keeps : (id n : ℕ) → Keeps r (change_capacity id n r).0
  unfolding change_capacity
  change_capacity-Keeps id n = record { code = ground arith; id = ground arith }

  pub dissolve-Keeps : (id : ℕ) → Keeps r (dissolve_room id r).0
  unfolding dissolve_room
  dissolve-Keeps id = record { code = ground arith; id = ground arith }

pub put_room-IsIndexed :
    (m : GameRoomManager) (h : Heap) (id : ℕ) (r r1 : GameRoom)
    → lookup id m.rooms ≡ some r
    → Keeps r r1
    → IsIndexed m
    → IsIndexed (with_heap h (put_room id r1 m))
put_room-IsIndexed m h id r r1 there k v = record {
  codes = λ c j e. elim (Bool-cases (nat_beq id j)) [
    | inl same ↦
        let (q, at_q, named) = v.codes c j e in
        (
          r1,
          ground (arith, lookup-insert id j r1 m.rooms),
          ground (arith, k.code, nat_beq_iff id j),
        )
    | inr other ↦
        let (q, at_q, named) = v.codes c j e in
        (q, ground (arith, lookup-insert id j r1 m.rooms), named)
  ];
  ids = λ j q e. (
    ground
        (arith, lookup-insert id j r1 m.rooms, v.ids j q, v.ids id r there, k.id, nat_beq_iff id j),
    ground (arith, lookup-insert id j r1 m.rooms, v.ids j q, v.ids id r there, nat_beq_iff id j),
  );
}

-- A new room, under an id that is above all others.
pub publish-IsIndexed :
    (m : GameRoomManager) (h : Heap) (code : String) (r1 : GameRoom)
    → r1.info.room_code ≡ code
    → r1.info.room_id ≡ m.next_room_id
    → IsIndexed m
    → IsIndexed (record (with_heap h m) {
      next_room_id = m.next_room_id + 1;
      room_code_map = emplace code m.next_room_id m.room_code_map;
      rooms = insert m.next_room_id r1 m.rooms;
    })
publish-IsIndexed m h code r1 named numbered v = record {
  codes = λ c j e. elim (Option-cases (lookup code m.room_code_map)) [
    | inr (w, taken) ↦
        old c j (ground (arith, lookup-emplace code c m.next_room_id m.room_code_map))
    | inl unused ↦ elim (Bool-cases (str_eq code c)) [
      | inl same ↦ (
        r1,
        ground (
          arith,
          lookup-emplace code c m.next_room_id m.room_code_map,
          lookup-insert m.next_room_id j r1 m.rooms,
          nat_beq_iff m.next_room_id j,
        ),
        ground (arith, eq_iff code c),
      )
      | inr other ↦ old c j (ground (arith, lookup-emplace code c m.next_room_id m.room_code_map))
    ]
  ];
  ids = λ j q e. (
    ground
        (arith, lookup-insert m.next_room_id j r1 m.rooms, v.ids j q, nat_beq_iff m.next_room_id j),
    ground
        (arith, lookup-insert m.next_room_id j r1 m.rooms, v.ids j q, nat_beq_iff m.next_room_id j),
  );
}
  where
    old :
        (c : String) (j : ℕ)
        → lookup c m.room_code_map ≡ some j
        → (q : GameRoom) × (lookup j (insert m.next_room_id r1 m.rooms) ≡ some q)
          × (q.info.room_code ≡ c)
    old c j e =
        let (q, at_q, code_q) = v.codes c j e in
        (
          q,
          ground (
            arith,
            lookup-insert m.next_room_id j r1 m.rooms,
            v.ids j q at_q,
            nat_beq_iff m.next_room_id j,
          ),
          code_q,
        )

pub erase-IsIndexed :
    (m : GameRoomManager) (id : ℕ) (r : GameRoom)
    → lookup id m.rooms ≡ some r
    → IsIndexed m
    → IsIndexed (record m {
      room_code_map = erase r.info.room_code m.room_code_map;
      rooms = erase id m.rooms;
    })
erase-IsIndexed m id r there v = record {
  codes = λ c j e. elim (Bool-cases (str_eq r.info.room_code c)) [
    | inl same ↦ ground (arith, lookup-erase r.info.room_code c m.room_code_map)
    | inr other ↦
        let (q, at_q, code_q) =
          v.codes c j (ground (arith, lookup-erase r.info.room_code c m.room_code_map)) in
        (
          q,
          ground (arith, lookup-erase id j m.rooms, nat_beq_iff id j, eq_iff r.info.room_code c),
          code_q,
        )
  ];
  ids = λ j q e. (
    ground (arith, lookup-erase id j m.rooms, v.ids j q),
    ground (arith, lookup-erase id j m.rooms, v.ids j q),
  );
}
