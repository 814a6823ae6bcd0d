-- ===== src/RoomManager/Seats.antt =====
-- business/GameRoom/GameRoomManager over the player objects: the rooms and the player manager share
-- the objects, and no login or request of a client brings the members of a room out of order.
use own_game_server.Prelude.{
  ℕ, ◌+◌, ◌%◌, ◌≡◌, ◌<◌, ◌∙◌, subst, not, some, String, arith, u32_mod, nat_beq, Bool-cases,
  Option-cases, inl, inr,
}
use own_game_server.Assoc.{lookup, nat_eq, string_eq, lookup-insert}
use own_game_server.Messages.{UserLoginInfo, RoomReqResult}
use own_game_server.Player.{Heap, write}
use own_game_server.PlayerManager.{GamePlayerManager, create_player, on_user_login}
use own_game_server.PlayerManager.Registry.{IsSound, on_user_login-IsSound}
use own_game_server.Room.{GameRoom, GameRoomInfo, is_ok, new_room, leave_room}
use own_game_server.Room as R
use own_game_server.Room.Seats.{
  Grows, IsSeated, IsSeated-Grows, join_room-Grows, join_room-IsSeated, leave_room-IsSeated,
  new_room-IsSeated,
}
use own_game_server.RoomManager.{
  GameRoomManager, get_room, put_room, heap_of, with_heap, create_room, create_room_at, ask_player,
  publish_room, join_room, leave_room_of, at_room,
}
use own_game_server.RoomManager.Steps.{asked}

pub record AllSeated (m : GameRoomManager) : Type 0 where
  pub registered : IsSound m.players
  pub seated : (id : ℕ) (r : GameRoom) → get_room id m ≡ some r → IsSeated (heap_of m) r

IsSound-Grows :
    (p : GamePlayerManager) (h : Heap)
    → Grows p.heap h
    → IsSound p
    → IsSound (record p { heap = h })
IsSound-Grows p h g s = record {
  named = λ id a e. g.named a (s.made id a e) ∙ s.named id a e;
  made = λ id a e. omega (arith, g.later, s.made id a e);
}

with_heap-AllSeated :
    (h : Heap) (m : GameRoomManager) → Grows (heap_of m) h → AllSeated m → AllSeated (with_heap h m)
with_heap-AllSeated h m g s = record {
  registered = IsSound-Grows m.players h g s.registered;
  seated = λ id r e. IsSeated-Grows (heap_of m) h r g (s.seated id r e);
}

put_room-AllSeated :
    (id : ℕ) (r : GameRoom) (m : GameRoomManager)
    → IsSeated (heap_of m) r
    → AllSeated m
    → AllSeated (put_room id r m)
put_room-AllSeated id r m w s = record {
  registered = s.registered;
  seated = λ other q e. elim (Bool-cases (nat_beq id other)) [
    | inl this ↦ subst (IsSeated (heap_of m)) (ground (arith, lookup-insert id other r m.rooms)) w
    | inr apart ↦ s.seated other q (ground (arith, lookup-insert id other r m.rooms))
  ];
}

publish_room-AllSeated :
    (id : ℕ) (code : String) (h : Heap) (r : GameRoom) (answer : RoomReqResult)
    (m : GameRoomManager)
    → Grows (heap_of m) h
    → IsSeated h r
    → AllSeated m
    → AllSeated (publish_room id code (h, r, answer) m).0
unfolding publish_room
publish_room-AllSeated id code h r answer m g w s =
    let s1 : AllSeated (with_heap h m) = with_heap-AllSeated h m g s in
    let s2 : AllSeated (put_room id r (with_heap h m)) = put_room-AllSeated id r _ w s1 in
    elim (Bool-cases (not (is_ok answer))) [
      | inl refused ↦ rw (refused) s1
      | inr done ↦ rw (done) (record { registered = s2.registered; seated = s2.seated })
    ]

-- The player that is answered is an object that exists.
ask_player-made :
    (m : GameRoomManager) (id a : ℕ)
    → IsSound m.players
    → ask_player m id ≡ inr a
    → a < (heap_of m).next
unfolding ask_player
ask_player-made m id a s e = elim (Option-cases (lookup id m.players.players)) [
  | inl n ↦ ground arith
  | inr (b, n) ↦ ground (arith, s.made id b n)
]

pub create_room-AllSeated :
    (info : GameRoomInfo) (code : String) (m : GameRoomManager)
    → AllSeated m
    → AllSeated (create_room info code m).0
unfolding create_room create_room_at
create_room-AllSeated info code m s = elim (asked (ask_player m1 info.owner_id)) [
  | inl (x, n) ↦ rw (n, create_room_at) s1
  | inr (a, n) ↦
      rw (n, create_room_at)
        (publish_room-AllSeated m.next_room_id code _ _ _ m1
          (join_room-Grows a (heap_of m) (new_room i))
          (join_room-IsSeated a (heap_of m) (new_room i)
            (ask_player-made m1 info.owner_id a s.registered n) (new_room-IsSeated (heap_of m) i))
          s1)
]
  where
    m1 : GameRoomManager
    m1 = record m { next_room_id = (m.next_room_id + 1) % u32_mod }

    s1 : AllSeated m1
    s1 = record { registered = s.registered; seated = s.seated }

    i : GameRoomInfo
    i = record info { room_id = m.next_room_id; room_code = code }

pub join_room-AllSeated :
    (room id : ℕ) (m : GameRoomManager) → AllSeated m → AllSeated (join_room room id m).0
unfolding join_room
join_room-AllSeated room id m s = elim (Option-cases (lookup room m.rooms)) [
  | inl e ↦ rw (e, join_room) s
  | inr (r, e) ↦ elim (asked (ask_player m id)) [
    | inl (x, n) ↦ rw (e, n, join_room) s
    | inr (a, n) ↦
        let h : Heap = (R.join_room (some a) (heap_of m) r).0 in
        rw (e, n, join_room)
          (put_room-AllSeated room (R.join_room (some a) (heap_of m) r).1 (with_heap h m)
            (join_room-IsSeated a (heap_of m) r (ask_player-made m id a s.registered n)
              (s.seated room r e))
            (with_heap-AllSeated h m (join_room-Grows a (heap_of m) r) s))
  ]
]

pub leave_room_of-AllSeated :
    (room id : ℕ) (m : GameRoomManager) → AllSeated m → AllSeated (leave_room_of room id m).0
unfolding leave_room_of at_room
leave_room_of-AllSeated room id m s = elim (Option-cases (lookup room m.rooms)) [
  | inl e ↦ rw (e, at_room) s
  | inr (r, e) ↦
      rw (e, at_room)
        (put_room-AllSeated room (leave_room id (heap_of m) r).0 m
          (leave_room-IsSeated id (heap_of m) r (s.seated room r e)) s)
]

-- A login makes at most one object, and changes no id.
on_user_login-Grows :
    (name_of : ℕ → String) (info : UserLoginInfo) (p : GamePlayerManager)
    → Grows p.heap (on_user_login name_of info p).heap
unfolding on_user_login create_player write
on_user_login-Grows name_of info p = elim (Option-cases (lookup info.user_id p.players)) [
  | inl e ↦ record { later = ground arith; named = λ a lt. ground arith }
  | inr (b, e) ↦ record { later = ground arith; named = λ a lt. ground arith }
]

pub on_user_login-AllSeated :
    (name_of : ℕ → String) (info : UserLoginInfo) (m : GameRoomManager)
    → AllSeated m
    → AllSeated (record m { players = on_user_login name_of info m.players })
on_user_login-AllSeated name_of info m s = record {
  registered = on_user_login-IsSound name_of info m.players s.registered;
  seated = λ id r e.
      IsSeated-Grows (heap_of m) _ r (on_user_login-Grows name_of info m.players) (s.seated id r e);
}
