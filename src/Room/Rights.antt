-- ===== src/Room/Rights.antt =====
-- Who may do what, and when, in a room of business/GameRoom/GameRoom.cpp.
use own_game_server.Prelude.{
  ◌<◌, ℕ, ◌≡◌, ◌≢◌, ◌≤◌, ◌⊎◌, ◌∙◌, ap, Bool, true, false, Option, none, some, List, [], ◌∷◌, ◌++◌,
  nat_beq, nat_beq_iff, String, length, inl, inr, arith,
}
use own_game_server.Assoc.{nat_eq}
use own_game_server.Messages.{RoomReqResult}
use own_game_server.Group.{Group, GroupResult, find_member, add_member, clear_members}
use own_game_server.Group.Contract.{add_member_cases}
use own_game_server.Player.{Heap, write, modify, player_id_at, enter_room}
use own_game_server.RuntimeData.{MapData}
use own_game_server.Battle.Handler.{
  start_game, start_ticking, init_game_state, run_timer, run_timer-stop_ticking, schedule_next_tick,
}
use own_game_server.Room.{
  lobby, running, GameRoom, join_group, join_room, leave_room, set_player_ready, start_room_game,
  change_map, change_room_name, change_password, kick_player, change_capacity, dissolve_room,
  on_game_end, create_match_info, map_group_result,
}
use own_game_server.Room.Membership.{
  Request, join, leave, ready, start, set_map, rename, set_password, kick, resize, dissolve,
  game_end, serve,
}

-- The user that asks for what only the owner may do.
abbrev pub asks_as_owner : Request → Option ℕ
asks_as_owner (start id) = some id
asks_as_owner (set_map id s) = some id
asks_as_owner (rename id s) = some id
asks_as_owner (set_password id s) = some id
asks_as_owner (kick id t) = some id
asks_as_owner (resize id n) = some id
asks_as_owner (dissolve id) = some id
asks_as_owner _ = none

-- What a running match forbids.
abbrev pub is_frozen : Request → Bool
is_frozen (join p) = true
is_frozen (start id) = true
is_frozen (set_map id s) = true
is_frozen (kick id t) = true
is_frozen _ = false

module _ (load : String → Option MapData) (bytes_of : ℕ → List ℕ) where
  -- The answer to a request; `none` where there is none.
  unfoldable pub answer : Request → Heap → GameRoom → Option RoomReqResult
  answer (join p) h r = some (join_room p h r).2
  answer (leave id) h r = some (leave_room id h r).1
  answer (ready id b) h r = some (set_player_ready id b h r).1
  answer (start id) h r = (start_room_game load id h r).1
  answer (set_map id s) h r = some (change_map id s r).1
  answer (rename id s) h r = some (change_room_name id s r).1
  answer (set_password id s) h r = some (change_password id s r).1
  answer (kick id t) h r = some (kick_player id t h r).1
  answer (resize id n) h r = some (change_capacity id n r).1
  answer (dissolve id) h r = some (dissolve_room id r).1
  answer (game_end w) h r = none

  not_the_owner : (id owner : ℕ) → id ≢ owner → nat_beq id owner ≡ false
  not_the_owner id owner n = ground arith

  -- Starting the game, the map, the name, the password, the capacity, kicking and dissolving: a user
  -- that is not the owner gets NOT_OWNER, and neither the room nor a player changes.
  pub serve-not_owner :
      (q : Request) (id : ℕ) (h : Heap) (r : GameRoom)
      → asks_as_owner q ≡ some id
      → id ≢ r.info.owner_id
      → (serve load bytes_of q h r ≡ (h, r)) × (answer q h r ≡ some RoomReqResult.not_owner)
  unfolding serve answer start_room_game change_map change_room_name change_password kick_player
      change_capacity dissolve_room
  serve-not_owner (join p) id h r e n = cc
  serve-not_owner (leave i) id h r e n = cc
  serve-not_owner (ready i b) id h r e n = cc
  serve-not_owner (game_end w) id h r e n = cc
  serve-not_owner (start i) id h r e n = ground arith
  serve-not_owner (set_map i s) id h r e n = ground arith
  serve-not_owner (rename i s) id h r e n = ground arith
  serve-not_owner (set_password i s) id h r e n = ground arith
  serve-not_owner (kick i t) id h r e n = ground arith
  serve-not_owner (resize i m) id h r e n = ground arith
  serve-not_owner (dissolve i) id h r e n = ground arith

  -- While a match is running nobody joins, is kicked, starts a match or changes the map: neither the
  -- room nor a player changes.
  pub serve-running :
      (q : Request) (h : Heap) (r : GameRoom)
      → is_frozen q ≡ true
      → r.info.state ≡ running
      → serve load bytes_of q h r ≡ (h, r)
  unfolding serve join_room start_room_game change_map kick_player
  serve-running (join p) h r e run = ground arith
  serve-running (start i) h r e run = ground arith
  serve-running (set_map i s) h r e run = ground arith
  serve-running (kick i t) h r e run = ground arith
  serve-running (leave i) h r e run = cc
  serve-running (ready i b) h r e run = cc
  serve-running (rename i s) h r e run = cc
  serve-running (set_password i s) h r e run = cc
  serve-running (resize i n) h r e run = cc
  serve-running (dissolve i) h r e run = cc
  serve-running (game_end w) h r e run = cc

  -- StartGame answers OK only to the owner of a room in the lobby with two members or more whose
  -- map can be loaded; then the room is running that map from tick 0, and its clock is ticking.
  pub start_room_game-ok :
      (id : ℕ) (h : Heap) (r : GameRoom)
      → (start_room_game load id h r).1 ≡ some RoomReqResult.ok
      → (id ≡ r.info.owner_id)
        × (r.info.state ≡ lobby)
        × (2 ≤ length r.group.members)
        × (load r.info.selected_map_path ≡ some (start_room_game load id h r).0.handler.runtime.map)
        × ((start_room_game load id h r).0.info.state ≡ running)
        × ((start_room_game load id h r).0.handler.ticking ≡ true)
        × ((start_room_game load id h r).0.handler.runtime.tick ≡ 0)
  unfolding start_room_game start_game start_ticking init_game_state create_match_info
      schedule_next_tick
  start_room_game-ok id h r e = ground arith

  -- After DissolveRoom by the owner, and after the end of a match, the room is in the lobby and no
  -- expiry of the timer changes its match.
  pub stopped :
      (h : Heap) (r : GameRoom) (w n : ℕ)
      → (((dissolve_room r.info.owner_id r).0.info.state ≡ lobby)
          × ((dissolve_room r.info.owner_id r).0.group.members ≡ [])
          × (run_timer n (dissolve_room r.info.owner_id r).0.handler
              ≡ (dissolve_room r.info.owner_id r).0.handler))
        × ((on_game_end bytes_of w r).0.info.state ≡ lobby)
        × ((on_game_end bytes_of w r).0.group ≡ r.group)
        × (run_timer n (on_game_end bytes_of w r).0.handler ≡ (on_game_end bytes_of w r).0.handler)
  unfolding dissolve_room on_game_end clear_members
  stopped h r w n =
      ground
        (arith, nat_beq_iff r.info.owner_id r.info.owner_id, run_timer-stop_ticking n r.handler)

join_group_taken :
    (a : ℕ) (h : Heap) (r : GameRoom)
    → add_member (player_id_at h) r.group a ≡ (r.group, GroupResult.already_in_group)
    → join_group h a r ≡ (r, RoomReqResult.already_in_room)
unfolding join_group map_group_result
join_group_taken a h r e = rw (e, join_group)

join_group_full :
    (a : ℕ) (h : Heap) (r : GameRoom)
    → add_member (player_id_at h) r.group a ≡ (r.group, GroupResult.full)
    → join_group h a r ≡ (r, RoomReqResult.full)
unfolding join_group map_group_result
join_group_full a h r e = rw (e, join_group)

join_group_ok :
    (a : ℕ) (h : Heap) (r : GameRoom)
    → (add_member (player_id_at h) r.group a).1 ≡ GroupResult.ok
    → ((join_group h a r).1 ≡ RoomReqResult.ok)
      × ((join_group h a r).0.group ≡ (add_member (player_id_at h) r.group a).0)
unfolding join_group map_group_result
join_group_ok a h r e = ground arith

join_room_open :
    (a : ℕ) (h : Heap) (r : GameRoom)
    → r.info.state ≡ lobby
    → player_id_at h a ≢ 0
    → join_room (some a) h r ≡ (
      modify a (enter_room r.info.room_id) h,
      (join_group (modify a (enter_room r.info.room_id) h) a r).0,
      (join_group (modify a (enter_room r.info.room_id) h) a r).1,
    )
unfolding join_room
join_room_open a h r lob id = ground arith

entered :
    (a : ℕ) (room : ℕ) (h : Heap)
    → ((modify a (enter_room room) h).at a).b_info.current_group_id ≡ room
unfolding write
entered a room h = ground (arith, nat_beq_iff a a)

-- The answer of the group, and what the room is after it.
abbrev pub JoinAnswer : ℕ → Heap → GameRoom → GameRoom → RoomReqResult → Type 0
JoinAnswer a h r r1 answer =
    ((b : ℕ) × (find_member (player_id_at h) r.group (player_id_at h a) ≡ some b)
      × (answer ≡ RoomReqResult.already_in_room)
      × (r1 ≡ r))
    ⊎ ((r.group.capacity ≤ length r.group.members) × (answer ≡ RoomReqResult.full) × (r1 ≡ r))
    ⊎ ((find_member (player_id_at h) r.group (player_id_at h a) ≡ none)
        × (length r.group.members < r.group.capacity)
        × (answer ≡ RoomReqResult.ok)
        × (r1.group.members ≡ r.group.members ++ a ∷ [])
        × (find_member (player_id_at h) r1.group (player_id_at h a) ≡ some a))

join_group_cases :
    (a : ℕ) (h : Heap) (r : GameRoom) → JoinAnswer a h r (join_group h a r).0 (join_group h a r).1
join_group_cases a h r = elim (add_member_cases (player_id_at h) r.group a) [
  | inl (b, there, e) ↦ inl (
    b,
    there,
    ap (λ (x : GameRoom × RoomReqResult). x.1) (join_group_taken a h r e),
    ap (λ (x : GameRoom × RoomReqResult). x.0) (join_group_taken a h r e),
  )
  | inr (inl (_, full, e)) ↦ inr (
      inl (
        full,
        ap (λ (x : GameRoom × RoomReqResult). x.1) (join_group_full a h r e),
        ap (λ (x : GameRoom × RoomReqResult). x.0) (join_group_full a h r e),
      ))
  | inr (inr (new, free, e, grown, _, there, _)) ↦
      let (answer, now) = join_group_ok a h r e in
      inr (
        inr (
          new,
          free,
          answer,
          ap (λ (g : Group ℕ). g.members) now ∙ grown,
          ap (λ (g : Group ℕ). find_member (player_id_at h) g (player_id_at h a)) now ∙ there,
        ))
]

-- A player object with an id other than 0 that joins a room in the lobby is sent to the room,
-- whatever the answer is. The answer is ALREADY_IN_ROOM where a member has the player's id, or FULL
-- where the capacity is reached, both without a change of the room; or it is OK, where no member has
-- the id and the capacity is not reached, the player is the last member, and it is found under its
-- id.
pub join_room_cases :
    (a : ℕ) (h : Heap) (r : GameRoom)
    → r.info.state ≡ lobby
    → player_id_at h a ≢ 0
    → (((join_room (some a) h r).0.at a).b_info.current_group_id ≡ r.info.room_id)
      × JoinAnswer a
          (join_room (some a) h r).0
          r
          (join_room (some a) h r).1
          (join_room (some a) h r).2
join_room_cases a h r lob id =
    rw (join_room_open a h r lob id)
      (entered a r.info.room_id h, join_group_cases a (modify a (enter_room r.info.room_id) h) r)
