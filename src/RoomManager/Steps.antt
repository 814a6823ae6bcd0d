-- ===== src/RoomManager/Steps.antt =====
-- The requests to business/GameRoom/GameRoomManager as steps on its two maps.
use own_game_server.Prelude.{
  ℕ, ◌+◌, ◌%◌, ◌≡◌, ◌<◌, refl, sym, Bool, not, Option, none, some, List, [], ◌∷◌, String, u32_mod,
  arith, subst, ◌⊎◌, Option-cases, Bool-cases, inl, inr,
}
use own_game_server.Assoc.{lookup, nat_eq, string_eq}
use own_game_server.Messages.{RoomReqResult}
use own_game_server.Player.{Heap}
use own_game_server.RuntimeData.{MapData}
use own_game_server.Room.{
  GameRoom, GameRoomInfo, is_ok, new_room, join_group, leave_room, set_player_ready,
  start_room_game, change_map, change_room_name, change_password, kick_player, change_capacity,
  dissolve_room,
}
use own_game_server.Room as R
use own_game_server.RoomManager.{
  GameRoomManager, heap_of, with_heap, put_room, publish_room, create_room, create_room_at,
  ask_player, at_room, join_room, leave_room_of, set_ready_in, start_game_in, change_map_of,
  change_room_name_of, change_password_of, kick_player_of, change_capacity_of, dissolve_room_of,
}
use own_game_server.RoomManager.Directory.{
  IsIndexed, Keeps, join-Keeps, leave-Keeps, start-Keeps, change_map-Keeps, change_room_name-Keeps,
  change_password-Keeps, kick-Keeps, change_capacity-Keeps, dissolve-Keeps, put_room-IsIndexed,
  publish-IsIndexed, erase-IsIndexed,
}

-- The requests that reach the manager. The code of a new room is what GenRoomCode draws.
pub data Command : Type 0 where
  create : GameRoomInfo → String → Command
  join leave start dissolve : ℕ → ℕ → Command
  ready : ℕ → ℕ → Bool → Command
  set_map rename set_password : ℕ → ℕ → String → Command
  kick resize : ℕ → ℕ → ℕ → Command

module _ (load : String → Option MapData) where
  unfoldable pub serve : Command → GameRoomManager → GameRoomManager
  serve (create info code) m = (create_room info code m).0
  serve (join room id) m = (join_room room id m).0
  serve (leave room id) m = (leave_room_of room id m).0
  serve (ready room id b) m = (set_ready_in room id b m).0
  serve (start room id) m = (start_game_in load room id m).0
  serve (set_map room id s) m = (change_map_of room id s m).0
  serve (rename room id s) m = (change_room_name_of room id s m).0
  serve (set_password room id s) m = (change_password_of room id s m).0
  serve (kick room id t) m = (kick_player_of room id t m).0
  serve (resize room id n) m = (change_capacity_of room id n m).0
  serve (dissolve room id) m = (dissolve_room_of room id m).0

  unfoldable pub serve_all : List Command → GameRoomManager → GameRoomManager
  serve_all [] m = m
  serve_all (c ∷ cs) m = serve_all cs (serve c m)

-- The room's entry is written.
put_result-IsIndexed :
    (m : GameRoomManager) (id : ℕ) (r r1 : GameRoom)
    → lookup id m.rooms ≡ some r
    → Keeps r r1
    → IsIndexed m
    → IsIndexed (put_room id r1 m)
put_result-IsIndexed m id r r1 there k v = put_room-IsIndexed m (heap_of m) id r r1 there k v

at_room-IsIndexed :
    (m : GameRoomManager) (id : ℕ) (f : GameRoom → GameRoom × RoomReqResult)
    → ((r : GameRoom) → Keeps r (f r).0)
    → IsIndexed m
    → IsIndexed (at_room id m f).0
unfolding at_room
at_room-IsIndexed m id f keeps v = elim (Option-cases (lookup id m.rooms)) [
  | inl e ↦ rw (e, at_room) v
  | inr (r, e) ↦ rw (e, at_room) (put_result-IsIndexed m id r (f r).0 e (keeps r) v)
]

pub asked : (p : RoomReqResult ⊎ ℕ) → ((x : RoomReqResult) × (p ≡ inl x)) ⊎ ((a : ℕ) × (p ≡ inr a))
asked (inl x) = inl (x, refl)
asked (inr a) = inr (a, refl)

join_room-IsIndexed :
    (m : GameRoomManager) (room id : ℕ) → IsIndexed m → IsIndexed (join_room room id m).0
unfolding join_room
join_room-IsIndexed m room id v = elim (Option-cases (lookup room m.rooms)) [
  | inl e ↦ rw (e, join_room) v
  | inr (r, e) ↦ elim (asked (ask_player m id)) [
    | inl (x, n) ↦ rw (e, n, join_room) v
    | inr (a, n) ↦
        rw (e, n, join_room)
          (put_room-IsIndexed m (R.join_room (some a) (heap_of m) r).0 room r
            (R.join_room (some a) (heap_of m) r).1 e (join-Keeps (λ s. none) r (heap_of m) (some a))
            v)
  ]
]

set_ready_in-IsIndexed :
    (m : GameRoomManager) (room id : ℕ) (b : Bool)
    → IsIndexed m
    → IsIndexed (set_ready_in room id b m).0
unfolding set_ready_in
set_ready_in-IsIndexed m room id b v = elim (Option-cases (lookup room m.rooms)) [
  | inl e ↦ rw (e, set_ready_in) v
  | inr (r, e) ↦ rw (e, set_ready_in) (record { codes = v.codes; ids = v.ids })
]

start_game_in-IsIndexed :
    (load : String → Option MapData) (m : GameRoomManager) (room id : ℕ)
    → IsIndexed m
    → IsIndexed (start_game_in load room id m).0
unfolding start_game_in
start_game_in-IsIndexed load m room id v = elim (Option-cases (lookup room m.rooms)) [
  | inl e ↦ rw (e, start_game_in) v
  | inr (r, e) ↦
      rw (e, start_game_in)
        (put_result-IsIndexed m room r _ e (start-Keeps load r (heap_of m) id) v)
]

dissolve_room_of-IsIndexed :
    (m : GameRoomManager) (room id : ℕ) → IsIndexed m → IsIndexed (dissolve_room_of room id m).0
unfolding dissolve_room_of
dissolve_room_of-IsIndexed m room id v = elim (Option-cases (lookup room m.rooms)) [
  | inl e ↦ rw (e, dissolve_room_of) v
  | inr (r, e) ↦ elim (Bool-cases (not (is_ok (dissolve_room id r).1))) [
    | inl refused ↦
        rw (e, refused, dissolve_room_of)
          (put_result-IsIndexed m room r _ e (dissolve-Keeps (λ s. none) r (heap_of m) id) v)
    | inr done ↦
        rw (e, done, (dissolve-Keeps (λ s. none) r (heap_of m) id).code, dissolve_room_of)
          (erase-IsIndexed m room r e v)
  ]
]

-- A drawn id is not used again.
counted :
    (m : GameRoomManager) (h : Heap)
    → IsIndexed m
    → IsIndexed (with_heap h (record m { next_room_id = m.next_room_id + 1 }))
counted m h v = record {
  codes = v.codes;
  ids = λ j q e. ((v.ids j q e).0, omega (arith, (v.ids j q e).1));
}

-- What CreateRoom does after the player manager has been asked.
publish_room-IsIndexed :
    (m : GameRoomManager) (code : String) (h : Heap) (r : GameRoom) (answer : RoomReqResult)
    → r.info.room_code ≡ code
    → r.info.room_id ≡ m.next_room_id
    → IsIndexed m
    → IsIndexed
        (publish_room m.next_room_id code
          (h, r, answer)
          (record m { next_room_id = m.next_room_id + 1 })).0
unfolding publish_room
publish_room-IsIndexed m code h r answer named numbered v = elim (Bool-cases (not (is_ok answer))) [
  | inl refused ↦ rw (refused, publish_room) (counted m h v)
  | inr done ↦ rw (done, publish_room) (publish-IsIndexed m h code r named numbered v)
]

pub created :
    (info : GameRoomInfo) (h : Heap) (a : Option ℕ)
    → ((R.join_room a h (new_room info)).1.info.room_code ≡ info.room_code)
      × ((R.join_room a h (new_room info)).1.info.room_id ≡ info.room_id)
unfolding new_room
created info h a = (
  (join-Keeps (λ s. none) (new_room info) h a).code,
  (join-Keeps (λ s. none) (new_room info) h a).id,
)

create_room_at-IsIndexed :
    (m : GameRoomManager) (info : GameRoomInfo) (code : String)
    → IsIndexed m
    → IsIndexed
        (create_room_at m.next_room_id info code (record m { next_room_id = m.next_room_id + 1 })).0
unfolding create_room_at
create_room_at-IsIndexed m info code v = elim (asked (ask_player m1 info.owner_id)) [
  | inl (x, n) ↦ rw (n, create_room_at) (counted m (heap_of m) v)
  | inr (a, n) ↦
      let i : GameRoomInfo = record info { room_id = m.next_room_id; room_code = code } in
      rw (n, create_room_at)
        (publish_room-IsIndexed m code _ _ _ (created i (heap_of m) (some a)).0
          (created i (heap_of m) (some a)).1 v)
]
  where
    m1 : GameRoomManager
    m1 = record m { next_room_id = m.next_room_id + 1 }

create_room-IsIndexed :
    (m : GameRoomManager) (info : GameRoomInfo) (code : String)
    → m.next_room_id + 1 < u32_mod
    → IsIndexed m
    → IsIndexed (create_room info code m).0
unfolding create_room
create_room-IsIndexed m info code small v =
    subst
      (λ (n : ℕ).
        IsIndexed (create_room_at m.next_room_id info code (record m { next_room_id = n })).0)
      (sym (no_wrap m.next_room_id small)) (create_room_at-IsIndexed m info code v)
  where
    no_wrap : (n : ℕ) → n + 1 < u32_mod → (n + 1) % u32_mod ≡ n + 1
    no_wrap n h = omega arith

pub serve-IsIndexed :
    (load : String → Option MapData) (c : Command) (m : GameRoomManager)
    → m.next_room_id + 1 < u32_mod
    → IsIndexed m
    → IsIndexed (serve load c m)
unfolding serve leave_room_of change_map_of change_room_name_of change_password_of kick_player_of
    change_capacity_of
serve-IsIndexed load (create info code) m small v = create_room-IsIndexed m info code small v
serve-IsIndexed load (join room id) m small v = join_room-IsIndexed m room id v
serve-IsIndexed load (dissolve room id) m small v = dissolve_room_of-IsIndexed m room id v
serve-IsIndexed load (ready room id b) m small v = set_ready_in-IsIndexed m room id b v
serve-IsIndexed load (start room id) m small v = start_game_in-IsIndexed load m room id v
serve-IsIndexed load (leave room id) m small v =
    at_room-IsIndexed m room _ (λ r. leave-Keeps load r (heap_of m) id) v
serve-IsIndexed load (set_map room id s) m small v =
    at_room-IsIndexed m room _ (λ r. change_map-Keeps load r (heap_of m) id s) v
serve-IsIndexed load (rename room id s) m small v =
    at_room-IsIndexed m room _ (λ r. change_room_name-Keeps load r (heap_of m) id s) v
serve-IsIndexed load (set_password room id s) m small v =
    at_room-IsIndexed m room _ (λ r. change_password-Keeps load r (heap_of m) id s) v
serve-IsIndexed load (kick room id t) m small v =
    at_room-IsIndexed m room _ (λ r. kick-Keeps load r (heap_of m) id t) v
serve-IsIndexed load (resize room id n) m small v =
    at_room-IsIndexed m room _ (λ r. change_capacity-Keeps load r (heap_of m) id n) v
