-- ===== src/RoomManager/Service.antt =====
-- What a client can rely on between its requests to business/GameRoom/GameRoomManager.
use own_game_server.Prelude.{
  ℕ, ◌+◌, ◌%◌, ◌≡◌, ◌≢◌, ◌<◌, ◌≤◌, refl, not, Option, none, some, List, [], ◌∷◌, String, u32_mod,
  arith, length, Option-cases, Bool-cases, inl, inr, nat_beq_iff, eq_iff,
}
use own_game_server.Assoc.{
  lookup, insert, nat_eq, string_eq, lookup-insert, lookup-erase, lookup-emplace,
}
use own_game_server.Messages.{RoomReqResult}
use own_game_server.RuntimeData.{MapData}
use own_game_server.Room.{
  GameRoom, GameRoomInfo, is_ok, new_room, dissolve_room, RoomState, lobby, is_running,
}
use own_game_server.Room as R
use own_game_server.Player.{Heap}
use own_game_server.PlayerManager.{get_player}
use own_game_server.Group.{add_member, contains, find_member, find_in}
use own_game_server.RoomManager.{
  GameRoomManager, heap_of, get_room, room_code_to_id, publish_room, create_room, create_room_at,
  ask_player, at_room, join_room, leave_room_of, set_ready_in, start_game_in, change_map_of,
  change_room_name_of, change_password_of, kick_player_of, change_capacity_of, dissolve_room_of,
}
use own_game_server.RoomManager.Directory.{IsIndexed}
use own_game_server.RoomManager.Steps.{
  Command, create, join, leave, start, dissolve, ready, set_map, rename, set_password, kick, resize,
  serve, serve_all, serve-IsIndexed, asked, created,
}

-- The ids that a command draws.
pub next-serve :
    (load : String → Option MapData) (c : Command) (m : GameRoomManager)
    → m.next_room_id + 1 < u32_mod
    → (serve load c m).next_room_id ≤ m.next_room_id + 1
unfolding serve create_room create_room_at publish_room at_room join_room leave_room_of set_ready_in
    start_game_in change_map_of change_room_name_of change_password_of kick_player_of
    change_capacity_of dissolve_room_of
next-serve load (create info code) m small = ground arith
next-serve load (join room id) m small = ground arith
next-serve load (dissolve room id) m small = ground arith
next-serve load (ready room id b) m small = ground arith
next-serve load (start room id) m small = ground arith
next-serve load (leave room id) m small = ground arith
next-serve load (set_map room id s) m small = ground arith
next-serve load (rename room id s) m small = ground arith
next-serve load (set_password room id s) m small = ground arith
next-serve load (kick room id t) m small = ground arith
next-serve load (resize room id n) m small = ground arith

serve_all-IsIndexed :
    (load : String → Option MapData) (cs : List Command) (m : GameRoomManager)
    → m.next_room_id + length cs < u32_mod
    → IsIndexed m
    → IsIndexed (serve_all load cs m)
unfolding serve_all
serve_all-IsIndexed load [] m small v = v
serve_all-IsIndexed load (c ∷ cs) m small v =
    serve_all-IsIndexed load cs (serve load c m) (omega (arith, next-serve load c m (omega arith)))
      (serve-IsIndexed load c m (omega arith) v)

-- From an indexed state, after any sequence of requests that cannot exhaust the 32-bit room ids, a
-- code that RoomCodeToId translates leads to a room that GetRoom finds and that has this code and
-- this id.
pub room_code_to_id-serve_all :
    (load : String → Option MapData) (cs : List Command) (m : GameRoomManager) (code : String)
    (id : ℕ)
    → m.next_room_id + length cs < u32_mod
    → IsIndexed m
    → room_code_to_id code (serve_all load cs m) ≡ some id
    → (r : GameRoom) × (get_room id (serve_all load cs m) ≡ some r)
      × (r.info.room_code ≡ code)
      × (r.info.room_id ≡ id)
room_code_to_id-serve_all load cs m code id small v e =
    let v1 : IsIndexed (serve_all load cs m) = serve_all-IsIndexed load cs m small v in
    let (r, there, named) = v1.codes code id e in (r, there, named, (v1.ids id r there).0)

-- The room that a request is for; `none` for CreateRoom.
abbrev pub room_of : Command → Option ℕ
room_of (create info code) = none
room_of (join room id) = some room
room_of (leave room id) = some room
room_of (start room id) = some room
room_of (dissolve room id) = some room
room_of (ready room id b) = some room
room_of (set_map room id s) = some room
room_of (rename room id s) = some room
room_of (set_password room id s) = some room
room_of (kick room id t) = some room
room_of (resize room id n) = some room

apart : (i room j : ℕ) → Option.some i ≡ some room → room ≢ j → i ≢ j
apart i room j e other = ground arith

written :
    (room j : ℕ) (r : GameRoom) (m : GameRoomManager)
    → room ≢ j
    → lookup j (insert room r m.rooms) ≡ lookup j m.rooms
written room j r m other = ground (arith, lookup-insert room j r m.rooms, nat_beq_iff room j)

at_room-elsewhere :
    (room j : ℕ) (f : GameRoom → GameRoom × RoomReqResult) (m : GameRoomManager)
    → room ≢ j
    → get_room j (at_room room m f).0 ≡ get_room j m
unfolding at_room
at_room-elsewhere room j f m other = elim (Option-cases (lookup room m.rooms)) [
  | inl e ↦ rw (e, at_room) refl
  | inr (r, e) ↦ rw (e, at_room) (written room j (f r).0 m other)
]

join_room-elsewhere :
    (room j id : ℕ) (m : GameRoomManager)
    → room ≢ j
    → get_room j (join_room room id m).0 ≡ get_room j m
unfolding join_room
join_room-elsewhere room j id m other = elim (Option-cases (lookup room m.rooms)) [
  | inl e ↦ rw (e, join_room) refl
  | inr (r, e) ↦ elim (asked (ask_player m id)) [
    | inl (x, n) ↦ rw (e, n, join_room) refl
    | inr (a, n) ↦ rw (e, n, join_room) (written room j _ m other)
  ]
]

start_game_in-elsewhere :
    (load : String → Option MapData) (room j id : ℕ) (m : GameRoomManager)
    → room ≢ j
    → get_room j (start_game_in load room id m).0 ≡ get_room j m
unfolding start_game_in
start_game_in-elsewhere load room j id m other = elim (Option-cases (lookup room m.rooms)) [
  | inl e ↦ rw (e, start_game_in) refl
  | inr (r, e) ↦ rw (e, start_game_in) (written room j _ m other)
]

dissolve_room_of-elsewhere :
    (room j id : ℕ) (m : GameRoomManager)
    → room ≢ j
    → get_room j (dissolve_room_of room id m).0 ≡ get_room j m
unfolding dissolve_room_of
dissolve_room_of-elsewhere room j id m other = elim (Option-cases (lookup room m.rooms)) [
  | inl e ↦ rw (e, dissolve_room_of) refl
  | inr (r, e) ↦ elim (Bool-cases (not (is_ok (dissolve_room id r).1))) [
    | inl refused ↦ rw (e, refused, dissolve_room_of) (written room j _ m other)
    | inr done ↦
        rw (e, done, dissolve_room_of)
          (ground (arith, lookup-erase room j m.rooms, nat_beq_iff room j))
  ]
]

module _ (load : String → Option MapData) where
  -- A request for a room that is not there changes nothing.
  pub serve-missing :
      (c : Command) (room : ℕ) (m : GameRoomManager)
      → room_of c ≡ some room
      → get_room room m ≡ none
      → serve load c m ≡ m
  unfolding serve at_room join_room leave_room_of set_ready_in start_game_in change_map_of
      change_room_name_of change_password_of kick_player_of change_capacity_of dissolve_room_of
  serve-missing (create info code) room m e gone = cc
  serve-missing (join i id) room m e gone = ground arith
  serve-missing (dissolve i id) room m e gone = ground arith
  serve-missing (ready i id b) room m e gone = ground arith
  serve-missing (start i id) room m e gone = ground arith
  serve-missing (leave i id) room m e gone = ground arith
  serve-missing (set_map i id s) room m e gone = ground arith
  serve-missing (rename i id s) room m e gone = ground arith
  serve-missing (set_password i id s) room m e gone = ground arith
  serve-missing (kick i id t) room m e gone = ground arith
  serve-missing (resize i id n) room m e gone = ground arith

  -- A request for one room leaves every other room as it was.
  pub serve-elsewhere :
      (c : Command) (room j : ℕ) (m : GameRoomManager)
      → room_of c ≡ some room
      → room ≢ j
      → get_room j (serve load c m) ≡ get_room j m
  unfolding serve set_ready_in leave_room_of change_map_of change_room_name_of change_password_of
      kick_player_of change_capacity_of
  serve-elsewhere (create info code) room j m e other = cc
  serve-elsewhere (join i id) room j m e other =
      join_room-elsewhere i j id m (apart i room j e other)
  serve-elsewhere (dissolve i id) room j m e other =
      dissolve_room_of-elsewhere i j id m (apart i room j e other)
  serve-elsewhere (ready i id b) room j m e other = ground arith
  serve-elsewhere (start i id) room j m e other =
      start_game_in-elsewhere load i j id m (apart i room j e other)
  serve-elsewhere (leave i id) room j m e other = at_room-elsewhere i j _ m (apart i room j e other)
  serve-elsewhere (set_map i id s) room j m e other =
      at_room-elsewhere i j _ m (apart i room j e other)
  serve-elsewhere (rename i id s) room j m e other =
      at_room-elsewhere i j _ m (apart i room j e other)
  serve-elsewhere (set_password i id s) room j m e other =
      at_room-elsewhere i j _ m (apart i room j e other)
  serve-elsewhere (kick i id t) room j m e other =
      at_room-elsewhere i j _ m (apart i room j e other)
  serve-elsewhere (resize i id n) room j m e other =
      at_room-elsewhere i j _ m (apart i room j e other)

-- DissolveRoom by the owner answers OK; then neither the id nor the code leads to the room.
pub dissolve_room_of_lem :
    (m : GameRoomManager) (room : ℕ) (r : GameRoom)
    → get_room room m ≡ some r
    → ((dissolve_room_of room r.info.owner_id m).1 ≡ RoomReqResult.ok)
      × (get_room room (dissolve_room_of room r.info.owner_id m).0 ≡ none)
      × (room_code_to_id r.info.room_code (dissolve_room_of room r.info.owner_id m).0 ≡ none)
unfolding dissolve_room_of dissolve_room
dissolve_room_of_lem m room r there = ground (
  arith,
  nat_beq_iff r.info.owner_id r.info.owner_id,
  lookup-erase room room m.rooms,
  lookup-erase r.info.room_code r.info.room_code m.room_code_map,
  nat_beq_iff room room,
  eq_iff r.info.room_code r.info.room_code,
)

join_group-new :
    (info : GameRoomInfo) (h : Heap) (a : ℕ)
    → (R.join_room (some a) h (new_room info)).2 ≡ RoomReqResult.ok
    → ((R.join_room (some a) h (new_room info)).1.group.members ≡ a ∷ [])
      × ((R.join_room (some a) h (new_room info)).1.info.owner_id ≡ info.owner_id)
unfolding R.join_room R.join_group new_room add_member contains find_member find_in
    R.map_group_result
join_group-new info h a e = ground arith

ask_player_refused :
    (m : GameRoomManager) (id : ℕ) (x : RoomReqResult)
    → ask_player m id ≡ inl x
    → x ≢ RoomReqResult.ok
unfolding ask_player
ask_player_refused m id x e = ground arith

ask_player_found :
    (m : GameRoomManager) (id a : ℕ) → ask_player m id ≡ inr a → get_player m.players id ≡ some a
unfolding ask_player
ask_player_found m id a e = ground arith

publish_room_ok :
    (n : ℕ) (code : String) (h : Heap) (r : GameRoom) (answer : RoomReqResult) (m : GameRoomManager)
    → (publish_room n code (h, r, answer) m).1 ≡ RoomReqResult.ok
    → room_code_to_id code m ≡ none
    → (answer ≡ RoomReqResult.ok)
      × (room_code_to_id code (publish_room n code (h, r, answer) m).0 ≡ some n)
      × (get_room n (publish_room n code (h, r, answer) m).0 ≡ some r)
unfolding publish_room
publish_room_ok n code h r answer m e unused = ground (
  arith,
  lookup-emplace code code n m.room_code_map,
  lookup-insert n n r m.rooms,
  nat_beq_iff n n,
  eq_iff code code,
)

-- CreateRoom, answering OK under a code that no room has, leaves a room that the code leads to. The
-- room has the id that was drawn and the owner that was asked for, and the owner is its only member.
pub create_room_lem :
    (info : GameRoomInfo) (code : String) (m : GameRoomManager)
    → room_code_to_id code m ≡ none
    → (create_room info code m).1 ≡ RoomReqResult.ok
    → (r : GameRoom) × (a : ℕ) × (get_player m.players info.owner_id ≡ some a)
      × (room_code_to_id code (create_room info code m).0 ≡ some m.next_room_id)
      × (get_room m.next_room_id (create_room info code m).0 ≡ some r)
      × (r.info.room_code ≡ code)
      × (r.info.room_id ≡ m.next_room_id)
      × (r.info.owner_id ≡ info.owner_id)
      × (r.group.members ≡ a ∷ [])
unfolding create_room create_room_at
create_room_lem info code m unused e = elim (asked (ask_player m1 info.owner_id)) [
  | inl (x, n) ↦ absurd (ask_player_refused m1 info.owner_id x n (rw (n, create_room_at) at e))
  | inr (a, n) ↦
      let (answer, coded, stored) =
        publish_room_ok m.next_room_id code _ (R.join_room (some a) (heap_of m) (new_room i)).1 _ m1
          (rw (n, create_room_at) at e) unused in
      let (members, owner) = join_group-new i (heap_of m) a answer in
      (
        (R.join_room (some a) (heap_of m) (new_room i)).1,
        a,
        ask_player_found m1 info.owner_id a n,
        rw (n, create_room_at) coded,
        rw (n, create_room_at) stored,
        (created i (heap_of m) (some a)).0,
        (created i (heap_of m) (some a)).1,
        owner,
        members,
      )
]
  where
    m1 : GameRoomManager
    m1 = record m { next_room_id = (m.next_room_id + 1) % u32_mod }

    i : GameRoomInfo
    i = record info { room_id = m.next_room_id; room_code = code }
