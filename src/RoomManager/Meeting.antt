-- ===== src/RoomManager/Meeting.antt =====
-- A room that one player creates and another one joins, in business/GameRoom/GameRoomManager.cpp.
use own_game_server.Prelude.{
  ℕ, ◌+◌, ◌%◌, ◌≡◌, ◌≢◌, ◌∙◌, refl, ap, true, none, some, [], ◌∷◌, String, arith, u32_mod,
  nat_beq_iff, eq_iff, inr,
}
use own_game_server.Assoc.{insert, emplace, nat_eq, string_eq, lookup-insert, lookup-emplace}
use own_game_server.Messages.{RoomReqResult}
use own_game_server.Group.{add_member, contains, find_member, find_in}
use own_game_server.Player.{Heap, modify, enter_room, player_id_at, player_id_at-write}
use own_game_server.PlayerManager.{get_player}
use own_game_server.Room.{
  GameRoom, GameRoomInfo, lobby, is_ok, new_room, join_group, map_group_result,
}
use own_game_server.Room as R
use own_game_server.RoomManager.{
  GameRoomManager, heap_of, with_heap, get_room, room_code_to_id, ask_player, publish_room,
  create_room, create_room_at, join_room,
}

-- The first member of a new room.
first_joins :
    (info : GameRoomInfo) (h : Heap) (a : ℕ)
    → info.state ≡ lobby
    → info.capacity ≡ 4
    → player_id_at h a ≢ 0
    → let x : Heap × GameRoom × RoomReqResult = R.join_room (some a) h (new_room info) in
      (x.0 ≡ modify a (enter_room info.room_id) h)
      × (x.2 ≡ RoomReqResult.ok)
      × (x.1.group.members ≡ a ∷ [])
      × (x.1.group.capacity ≡ 4)
      × (x.1.info.state ≡ lobby)
      × (x.1.info.owner_id ≡ info.owner_id)
      × (x.1.info.room_id ≡ info.room_id)
unfolding R.join_room join_group new_room add_member contains find_member find_in map_group_result
first_joins info h a e c id = ground (arith, nat_beq_iff (player_id_at h a) 0)

-- The second one, whose id is another.
second_joins :
    (r : GameRoom) (h : Heap) (a b : ℕ)
    → r.info.state ≡ lobby
    → r.group.capacity ≡ 4
    → r.group.members ≡ a ∷ []
    → player_id_at h b ≢ 0
    → player_id_at h a ≢ player_id_at h b
    → let x : Heap × GameRoom × RoomReqResult = R.join_room (some b) h r in
      (x.2 ≡ RoomReqResult.ok)
      × (x.1.group.members ≡ a ∷ b ∷ [])
      × (x.1.info.owner_id ≡ r.info.owner_id)
unfolding R.join_room join_group add_member contains find_member find_in map_group_result
second_joins r h a b e c one id apart = ground (
  arith,
  nat_beq_iff (player_id_at h b) 0,
  player_id_at-write h b a (enter_room r.info.room_id (h.at b)),
  player_id_at-write h b b (enter_room r.info.room_id (h.at b)),
  nat_beq_iff (player_id_at h a) (player_id_at h b),
)

asked_player :
    (m : GameRoomManager) (id a : ℕ)
    → m.has_players ≡ true
    → get_player m.players id ≡ some a
    → ask_player m id ≡ inr a
unfolding ask_player
asked_player m id a has e = ground arith

-- A manager with a room in the lobby, of four places, that a code leads to. It has one member.
pub record IsOpen (m : GameRoomManager) (code : String) (id owner a : ℕ) : Type 0 where
  pub coded : room_code_to_id code m ≡ some id
  pub room : GameRoom
  pub stored : get_room id m ≡ some room
  pub waiting : room.info.state ≡ lobby
  pub capacity : room.group.capacity ≡ 4
  pub alone : room.group.members ≡ a ∷ []
  pub owned : room.info.owner_id ≡ owner

-- The players are the same, and so are their ids.
pub record SamePlayers (m m' : GameRoomManager) : Type 0 where
  pub has : m'.has_players ≡ m.has_players
  pub players : (u : ℕ) → get_player m'.players u ≡ get_player m.players u
  pub ids : (b : ℕ) → player_id_at (heap_of m') b ≡ player_id_at (heap_of m) b

published :
    (id : ℕ) (code : String) (h : Heap) (r : GameRoom) (answer : RoomReqResult)
    (m : GameRoomManager)
    → answer ≡ RoomReqResult.ok
    → publish_room id code (h, r, answer) m ≡ (
      record (with_heap h m) {
        room_code_map = emplace code id m.room_code_map;
        rooms = insert id r m.rooms;
      },
      RoomReqResult.ok,
    )
unfolding publish_room
published id code h r answer m e = ground arith

module _ (info : GameRoomInfo) (code : String) (m : GameRoomManager) (a : ℕ)
    (unused : room_code_to_id code m ≡ none) (has : m.has_players ≡ true)
    (there : get_player m.players info.owner_id ≡ some a) (real : player_id_at (heap_of m) a ≢ 0)
    (waiting : info.state ≡ lobby) (places : info.capacity ≡ 4) where
  abbrev id : ℕ
  id = m.next_room_id

  abbrev i : GameRoomInfo
  i = record info { room_id = id; room_code = code }

  abbrev joined : Heap × GameRoom × RoomReqResult
  joined = R.join_room (some a) (heap_of m) (new_room i)

  abbrev m1 : GameRoomManager
  m1 = record m { next_room_id = (m.next_room_id + 1) % u32_mod }

  abbrev after : GameRoomManager
  after = record (with_heap joined.0 m1) {
    room_code_map = emplace code id m.room_code_map;
    rooms = insert id joined.1 m.rooms;
  }

  first :
      (joined.0 ≡ modify a (enter_room id) (heap_of m))
      × (joined.2 ≡ RoomReqResult.ok)
      × (joined.1.group.members ≡ a ∷ [])
      × (joined.1.group.capacity ≡ 4)
      × (joined.1.info.state ≡ lobby)
      × (joined.1.info.owner_id ≡ info.owner_id)
      × (joined.1.info.room_id ≡ id)
  first = first_joins i (heap_of m) a waiting places real

  create_room_eq : create_room info code m ≡ (after, RoomReqResult.ok)
  unfolding create_room create_room_at
  create_room_eq =
      rw (asked_player m1 info.owner_id a has there, create_room_at)
        (published id code joined.0 joined.1 joined.2 m1 first.1)

  after-IsOpen : IsOpen after code id info.owner_id a
  after-IsOpen = record {
    coded = ground (arith, lookup-emplace code code id m.room_code_map, eq_iff code code);
    room = joined.1;
    stored = ground (arith, lookup-insert id id joined.1 m.rooms, nat_beq_iff id id);
    waiting = first.4;
    capacity = first.3;
    alone = first.2;
    owned = first.5;
  }

  after-SamePlayers : SamePlayers m after
  after-SamePlayers = record {
    has = refl;
    players = λ u. refl;
    ids = λ b.
        ap (λ (h : Heap). player_id_at h b) first.0
        ∙ player_id_at-write (heap_of m) a b (enter_room id ((heap_of m).at a)) refl;
  }

  -- A room is created for a player who is logged in.
  pub create_room-IsOpen :
      ((create_room info code m).1 ≡ RoomReqResult.ok)
      × IsOpen (create_room info code m).0 code m.next_room_id info.owner_id a
      × SamePlayers m (create_room info code m).0
  create_room-IsOpen = rw (create_room_eq) (refl, after-IsOpen, after-SamePlayers)

-- Another player who is logged in joins it.
module _ (m : GameRoomManager) (code : String) (id owner a u b : ℕ) (o : IsOpen m code id owner a)
    (has : m.has_players ≡ true) (there : get_player m.players u ≡ some b)
    (real : player_id_at (heap_of m) b ≢ 0)
    (apart : player_id_at (heap_of m) a ≢ player_id_at (heap_of m) b) where
  abbrev let_in : Heap × GameRoom × RoomReqResult
  let_in = R.join_room (some b) (heap_of m) o.room

  pub join_room-joined :
      ((join_room id u m).1 ≡ RoomReqResult.ok)
      × (room_code_to_id code (join_room id u m).0 ≡ some id)
      × ((r : GameRoom) × (get_room id (join_room id u m).0 ≡ some r)
          × (r.group.members ≡ a ∷ b ∷ [])
          × (r.info.owner_id ≡ owner))
  unfolding join_room
  join_room-joined =
      let (answer, grown, kept) =
        second_joins o.room (heap_of m) a b o.waiting o.capacity o.alone real apart in
      rw (o.stored, asked_player m u b has there, join_room)
        (
          answer,
          o.coded,
          (
            let_in.1,
            ground (arith, lookup-insert id id let_in.1 m.rooms, nat_beq_iff id id),
            grown,
            kept ∙ o.owned,
          ),
        )
