-- ===== src/Room/Membership.antt =====
-- The members of a room under every operation of business/GameRoom/GameRoom.cpp.
use own_game_server.Prelude.{
  ℕ, ◌≡◌, refl, sym, Bool, Option, List, [], ◌∷◌, nat_beq, String, subst, Bool-cases, Option-cases,
  inl, inr, arith,
}
use own_game_server.Assoc.{nat_eq}
use own_game_server.Group.{find_member, clear_members}
use own_game_server.Group.Contract.{
  IsWellFormed, add_member-IsWellFormed, remove_member-IsWellFormed, set_capacity-IsWellFormed,
}
use own_game_server.Player.{
  GamePlayerInfo, Heap, modify, player_id_at, player_id_at-write, set_ready, enter_room,
}
use own_game_server.RuntimeData.{MapData}
use own_game_server.Room.{
  GameRoomInfo, GameRoom, is_running, join_group, join_room, leave_room, set_player_ready,
  start_room_game, change_map, change_room_name, change_password, kick_player, change_capacity,
  dissolve_room, on_game_end, new_room,
}

-- The members have distinct ids and fit the capacity.
abbrev pub IsOrderly : Heap → GameRoom → Type 0
IsOrderly h r = IsWellFormed (player_id_at h) r.group

ids-modify :
    (h : Heap) (a : ℕ) (f : GamePlayerInfo → GamePlayerInfo)
    → ((p : GamePlayerInfo) → (f p).b_info.user_id ≡ p.b_info.user_id)
    → player_id_at h ≡ player_id_at (modify a f h)
ids-modify h a f keeps = λ i b. sym (player_id_at-write h a b (f (h.at a)) (keeps (h.at a))) i

-- A setter that keeps the ids keeps the order.
IsOrderly-modify :
    (h : Heap) (a : ℕ) (f : GamePlayerInfo → GamePlayerInfo) (r : GameRoom)
    → ((p : GamePlayerInfo) → (f p).b_info.user_id ≡ p.b_info.user_id)
    → IsOrderly h r
    → IsOrderly (modify a f h) r
IsOrderly-modify h a f r keeps v =
    subst (λ (key : ℕ → ℕ). IsWellFormed key r.group) (ids-modify h a f keeps) v

join_group-IsOrderly :
    (h : Heap) (a : ℕ) (r : GameRoom) → IsOrderly h r → IsOrderly h (join_group h a r).0
unfolding join_group
join_group-IsOrderly h a r v = ground (arith, add_member-IsWellFormed (player_id_at h) r.group a v)

pub leave_room-IsOrderly :
    (id : ℕ) (h : Heap) (r : GameRoom) → IsOrderly h r → IsOrderly h (leave_room id h r).0
unfolding leave_room
leave_room-IsOrderly id h r v =
    ground (arith, remove_member-IsWellFormed (player_id_at h) r.group id v)

kick_player-IsOrderly :
    (id target : ℕ) (h : Heap) (r : GameRoom)
    → IsOrderly h r
    → IsOrderly h (kick_player id target h r).0
unfolding kick_player
kick_player-IsOrderly id target h r v =
    ground (arith, remove_member-IsWellFormed (player_id_at h) r.group target v)

change_capacity-IsOrderly :
    (id n : ℕ) (h : Heap) (r : GameRoom) → IsOrderly h r → IsOrderly h (change_capacity id n r).0
unfolding change_capacity
change_capacity-IsOrderly id n h r v =
    ground (arith, set_capacity-IsWellFormed (player_id_at h) r.group n v)

dissolve_room-IsOrderly :
    (id : ℕ) (h : Heap) (r : GameRoom) → IsOrderly h r → IsOrderly h (dissolve_room id r).0
unfolding dissolve_room
dissolve_room-IsOrderly id h r v = elim (Bool-cases (nat_beq id r.info.owner_id)) [
  | inl e ↦
      rw (e, dissolve_room)
        (unfold clear_members in record { distinct = tt; bounded = omega arith })
  | inr e ↦ rw (e, dissolve_room) v
]

pub join_room-IsOrderly :
    (player : Option ℕ) (h : Heap) (r : GameRoom)
    → IsOrderly h r
    → IsOrderly (join_room player h r).0 (join_room player h r).1
unfolding join_room
join_room-IsOrderly player h r v = elim (Bool-cases (is_running r)) [
  | inl e ↦ rw (e, join_room) v
  | inr e ↦ elim (Option-cases player) [
    | inl n ↦ rw (e, n, join_room) v
    | inr (a, n) ↦ elim (Bool-cases (nat_beq (player_id_at h a) 0)) [
      | inl z ↦ rw (e, n, z, join_room) v
      | inr z ↦
          rw (e, n, z, join_room)
            (join_group-IsOrderly _ a r
              (IsOrderly-modify h a (enter_room r.info.room_id) r (λ p. refl) v))
    ]
  ]
]

set_player_ready-IsOrderly :
    (id : ℕ) (ready : Bool) (h : Heap) (r : GameRoom)
    → IsOrderly h r
    → IsOrderly (set_player_ready id ready h r).0 r
unfolding set_player_ready
set_player_ready-IsOrderly id ready h r v =
    elim (Option-cases (find_member (player_id_at h) r.group id)) [
      | inl n ↦ rw (n, set_player_ready) v
      | inr (a, n) ↦
          rw (n, set_player_ready) (IsOrderly-modify h a (set_ready ready) r (λ p. refl) v)
    ]

-- The requests that reach a room, and the end of its match.
pub data Request : Type 0 where
  join : Option ℕ → Request
  leave : ℕ → Request
  ready : ℕ → Bool → Request
  start : ℕ → Request
  set_map rename set_password : ℕ → String → Request
  kick resize : ℕ → ℕ → Request
  dissolve : ℕ → Request
  game_end : ℕ → Request

module _ (load : String → Option MapData) (bytes_of : ℕ → List ℕ) where
  unfoldable pub serve : Request → Heap → GameRoom → Heap × GameRoom
  serve (join p) h r = ((join_room p h r).0, (join_room p h r).1)
  serve (leave id) h r = (h, (leave_room id h r).0)
  serve (ready id b) h r = ((set_player_ready id b h r).0, r)
  serve (start id) h r = (h, (start_room_game load id h r).0)
  serve (set_map id s) h r = (h, (change_map id s r).0)
  serve (rename id s) h r = (h, (change_room_name id s r).0)
  serve (set_password id s) h r = (h, (change_password id s r).0)
  serve (kick id t) h r = (h, (kick_player id t h r).0)
  serve (resize id n) h r = (h, (change_capacity id n r).0)
  serve (dissolve id) h r = (h, (dissolve_room id r).0)
  serve (game_end w) h r = (h, (on_game_end bytes_of w r).0)

  unfoldable pub serve_all : List Request → Heap → GameRoom → Heap × GameRoom
  serve_all [] h r = (h, r)
  serve_all (q ∷ qs) h r = serve_all qs (serve q h r).0 (serve q h r).1

  group-start : (id : ℕ) (h : Heap) (r : GameRoom) → (start_room_game load id h r).0.group ≡ r.group
  unfolding start_room_game
  group-start id h r = ground arith

  serve-IsOrderly :
      (q : Request) (h : Heap) (r : GameRoom)
      → IsOrderly h r
      → IsOrderly (serve q h r).0 (serve q h r).1
  unfolding serve
  serve-IsOrderly (join p) h r v = join_room-IsOrderly p h r v
  serve-IsOrderly (leave id) h r v = leave_room-IsOrderly id h r v
  serve-IsOrderly (ready id b) h r v = set_player_ready-IsOrderly id b h r v
  serve-IsOrderly (start id) h r v = rw (group-start id h r) v
  serve-IsOrderly (set_map id s) h r v = unfold change_map in ground (arith, v)
  serve-IsOrderly (rename id s) h r v = unfold change_room_name in ground (arith, v)
  serve-IsOrderly (set_password id s) h r v = unfold change_password in ground (arith, v)
  serve-IsOrderly (kick id t) h r v = kick_player-IsOrderly id t h r v
  serve-IsOrderly (resize id n) h r v = change_capacity-IsOrderly id n h r v
  serve-IsOrderly (dissolve id) h r v = dissolve_room-IsOrderly id h r v
  serve-IsOrderly (game_end w) h r v = unfold on_game_end in v

  -- From a room whose members have distinct ids and fit its capacity, any sequence of requests
  -- and ends of matches leads to such a room.
  pub serve_all-IsOrderly :
      (qs : List Request) (h : Heap) (r : GameRoom)
      → IsOrderly h r
      → IsOrderly (serve_all qs h r).0 (serve_all qs h r).1
  unfolding serve_all
  serve_all-IsOrderly [] h r v = v
  serve_all-IsOrderly (q ∷ qs) h r v =
      serve_all-IsOrderly qs (serve q h r).0 (serve q h r).1 (serve-IsOrderly q h r v)

-- A new room is empty.
pub new_room-IsOrderly : (h : Heap) (info : GameRoomInfo) → IsOrderly h (new_room info)
unfolding new_room
new_room-IsOrderly h info = record { distinct = tt; bounded = omega arith }
