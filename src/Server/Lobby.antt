-- ===== src/Server/Lobby.antt =====
-- No room of the server of main.cpp ever leaves the lobby: no request of a client starts a match.
use own_game_server.Prelude.{
  ℕ, suc, ◌+◌, ◌%◌, ◌≡◌, ◌<◌, ◌≤◌, refl, subst, false, not, Option, none, some, String, arith,
  u32_mod, nat_beq, Option-cases, Bool-cases, inl, inr,
}
use own_game_server.Assoc.{lookup, nat_eq, string_eq, lookup-insert}
use own_game_server.Messages.{RoomReqResult}
use own_game_server.Player.{Heap}
use own_game_server.Room.{
  GameRoom, GameRoomInfo, RoomState, lobby, is_ok, new_room, leave_room, join_group,
}
use own_game_server.Room as R
use own_game_server.RoomManager.{
  GameRoomManager, get_room, room_code_to_id, put_room, heap_of, create_room, create_room_at,
  ask_player, publish_room, join_room, leave_room_of, at_room,
}
use own_game_server.RoomManager.Directory.{IsIndexed}
use own_game_server.RoomManager.Steps.{
  Command, create, join, leave, start, dissolve, ready, set_map, rename, set_password, kick, resize,
  serve, serve-IsIndexed, asked,
}
use own_game_server.RoomManager.Service.{next-serve}
use own_game_server.Battle.Handler.{new_handler}
use own_game_server.JsonTranslator.{JsonLibrary}
use own_game_server.Server.{Server, new_server, new_managers, initialize}
use own_game_server.Server.Actions.{Reach}
use own_game_server.Server.Effects.{FromClient}
use own_game_server.Server.Rooms.{rooms_induction}

-- A room in the lobby, whose match has no timer.
pub record IsWaiting (r : GameRoom) : Type 0 where
  pub state : r.info.state ≡ lobby
  pub still : r.handler.ticking ≡ false
  pub unarmed : r.handler.armed ≡ false

join_room-IsWaiting :
    (a : Option ℕ) (h : Heap) (r : GameRoom) → IsWaiting r → IsWaiting (R.join_room a h r).1
unfolding R.join_room join_group
join_room-IsWaiting a h r w = record {
  state = ground arith;
  still = ground arith;
  unarmed = ground arith;
}

leave_room-IsWaiting :
    (id : ℕ) (h : Heap) (r : GameRoom) → IsWaiting r → IsWaiting (leave_room id h r).0
unfolding leave_room
leave_room-IsWaiting id h r w = record {
  state = ground arith;
  still = ground arith;
  unarmed = ground arith;
}

new_room-IsWaiting : (info : GameRoomInfo) → info.state ≡ lobby → IsWaiting (new_room info)
unfolding new_room new_handler
new_room-IsWaiting info e = record { state = e; still = refl; unarmed = refl }

abbrev AllWaiting : GameRoomManager → Type 0
AllWaiting m = (id : ℕ) (r : GameRoom) → get_room id m ≡ some r → IsWaiting r

put_room-AllWaiting :
    (id : ℕ) (r : GameRoom) (m : GameRoomManager)
    → IsWaiting r
    → AllWaiting m
    → AllWaiting (put_room id r m)
put_room-AllWaiting id r m w all other q e = elim (Bool-cases (nat_beq id other)) [
  | inl this ↦ subst IsWaiting (ground (arith, lookup-insert id other r m.rooms)) w
  | inr apart ↦ all other q (ground (arith, lookup-insert id other r m.rooms))
]

publish_room-AllWaiting :
    (id : ℕ) (code : String) (h : Heap) (r : GameRoom) (answer : RoomReqResult)
    (m : GameRoomManager)
    → IsWaiting r
    → AllWaiting m
    → AllWaiting (publish_room id code (h, r, answer) m).0
unfolding publish_room
publish_room-AllWaiting id code h r answer m w all = elim (Bool-cases (not (is_ok answer))) [
  | inl refused ↦ rw (refused) all
  | inr done ↦ rw (done) (put_room-AllWaiting id r m w all)
]

create_room-AllWaiting :
    (info : GameRoomInfo) (code : String) (m : GameRoomManager)
    → info.state ≡ lobby
    → AllWaiting m
    → AllWaiting (create_room info code m).0
unfolding create_room create_room_at
create_room-AllWaiting info code m e all = elim (asked (ask_player m1 info.owner_id)) [
  | inl (x, n) ↦ rw (n, create_room_at) all
  | inr (a, n) ↦
      rw (n, create_room_at)
        (publish_room-AllWaiting m.next_room_id code _ _ _ m1
          (join_room-IsWaiting (some a) (heap_of m) (new_room i) (new_room-IsWaiting i e)) all)
]
  where
    m1 : GameRoomManager
    m1 = record m { next_room_id = (m.next_room_id + 1) % u32_mod }

    i : GameRoomInfo
    i = record info { room_id = m.next_room_id; room_code = code }

join_room-AllWaiting :
    (room id : ℕ) (m : GameRoomManager) → AllWaiting m → AllWaiting (join_room room id m).0
unfolding join_room
join_room-AllWaiting room id m all = elim (Option-cases (lookup room m.rooms)) [
  | inl e ↦ rw (e, join_room) all
  | inr (r, e) ↦ elim (asked (ask_player m id)) [
    | inl (x, n) ↦ rw (e, n, join_room) all
    | inr (a, n) ↦
        rw (e, n, join_room)
          (put_room-AllWaiting room (R.join_room (some a) (heap_of m) r).1 m
            (join_room-IsWaiting (some a) (heap_of m) r (all room r e)) all)
  ]
]

leave_room_of-AllWaiting :
    (room id : ℕ) (m : GameRoomManager) → AllWaiting m → AllWaiting (leave_room_of room id m).0
unfolding leave_room_of at_room
leave_room_of-AllWaiting room id m all = elim (Option-cases (lookup room m.rooms)) [
  | inl e ↦ rw (e, at_room) all
  | inr (r, e) ↦
      rw (e, at_room)
        (put_room-AllWaiting room (leave_room id (heap_of m) r).0 m
          (leave_room-IsWaiting id (heap_of m) r (all room r e)) all)
]

serve-AllWaiting :
    (c : Command) (m : GameRoomManager)
    → FromClient c
    → AllWaiting m
    → AllWaiting (serve (λ s. none) c m)
unfolding serve
serve-AllWaiting (create info code) m client all = create_room-AllWaiting info code m client all
serve-AllWaiting (join room id) m client all = join_room-AllWaiting room id m all
serve-AllWaiting (leave room id) m client all = leave_room_of-AllWaiting room id m all
serve-AllWaiting (start room id) m client all = absurd client
serve-AllWaiting (dissolve room id) m client all = absurd client
serve-AllWaiting (ready room id b) m client all = absurd client
serve-AllWaiting (set_map room id s) m client all = absurd client
serve-AllWaiting (rename room id s) m client all = absurd client
serve-AllWaiting (set_password room id s) m client all = absurd client
serve-AllWaiting (kick room id t) m client all = absurd client
serve-AllWaiting (resize room id n) m client all = absurd client

-- The directory of rooms after `n` actions.
pub record IsListed (n : ℕ) (m : GameRoomManager) : Type 0 where
  pub drawn : m.next_room_id ≤ n + 1
  pub indexed : IsIndexed m
  pub all : AllWaiting m

module _ {J : Type 0} (lib : JsonLibrary J) (name_of : ℕ → String) where
  start-IsListed : (heap : Heap) → IsListed 0 (new_server heap).router.room_manager
  unfolding new_server initialize new_managers lookup
  start-IsListed heap = record {
    drawn = omega arith;
    indexed = record { codes = λ c id e. cc; ids = λ id r e. cc };
    all = λ id r e. cc;
  }

  -- In every state that a server comes to within fewer than 2^32 - 1 actions since its start, each room
  -- is in the lobby and its match's timer does not run; the room has the id that it is found under, and
  -- a code that RoomCodeToId translates leads to a room with that code.
  pub Reach-IsListed :
      (heap : Heap) (n : ℕ) (s : Server)
      → Reach lib name_of (new_server heap) n s
      → n + 1 < u32_mod
      → let m : GameRoomManager = s.router.room_manager in
        ((id : ℕ) (r : GameRoom)
          → get_room id m ≡ some r
          → (r.info.state ≡ lobby)
            × (r.handler.ticking ≡ false)
            × (r.handler.armed ≡ false)
            × (r.info.room_id ≡ id))
        × ((code : String) (id : ℕ)
            → room_code_to_id code m ≡ some id
            → (r : GameRoom) × (get_room id m ≡ some r) × (r.info.room_code ≡ code))
  Reach-IsListed heap n s run small =
      let q : IsListed n s.router.room_manager =
        rooms_induction lib name_of IsListed heap (start-IsListed heap) idle
          (λ n m info l. record {
            drawn = omega (arith, l.drawn);
            indexed = record { codes = l.indexed.codes; ids = l.indexed.ids };
            all = l.all;
          })
          served run small in
      (
        λ id r e. let w = q.all id r e in (w.state, w.still, w.unarmed, (q.indexed.ids id r e).0),
        q.indexed.codes,
      )
    where
      idle : (n : ℕ) (m : GameRoomManager) → IsListed n m → IsListed (suc n) m
      idle n m l = record { drawn = omega (arith, l.drawn); indexed = l.indexed; all = l.all }

      served :
          (n : ℕ) (m : GameRoomManager) (c : Command)
          → n + 2 < u32_mod
          → FromClient c
          → IsListed n m
          → IsListed (suc n) (serve (λ s. none) c m)
      served n m c small client l = record {
        drawn = omega (arith, l.drawn, next-serve (λ s. none) c m (omega (arith, l.drawn)));
        indexed = serve-IsIndexed (λ s. none) c m (omega (arith, l.drawn)) l.indexed;
        all = serve-AllWaiting c m client l.all;
      }
