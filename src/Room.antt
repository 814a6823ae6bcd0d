-- ===== src/Room.antt =====
-- business/GameRoom/GameRoom: a room, its group of player objects and its match. The group holds
-- addresses of the heap, and a player's key is the id that the object has now. `load` reads a map.
pub mod Membership
pub mod Rights
pub mod Seats
mod Tests
use own_game_server.Prelude.{
  ℕ, suc, ◌+◌, ◌-◌, ◌%◌, ◌^◌, Bool, true, false, not, Option, none, some, List, [], ◌∷◌, map,
  nat_beq, ltb, if◌then◌else◌, String, u64_mod, length,
}
use own_game_server.Assoc.{nat_eq}
use own_game_server.Codec.Encoder.{EncodeMessage}
use own_game_server.Messages.{RoomReqResult, state_control}
use own_game_server.Group.{
  Group, GroupResult, find_member, add_member, remove_member, set_capacity, clear_members,
  get_member_count,
}
use own_game_server.Player.{GamePlayerInfo, Heap, modify, player_id_at, set_ready, enter_room}
use own_game_server.RuntimeData.{MapData, MatchInfo}
use own_game_server.Battle.Handler.{
  GameCmdHandler, new_handler, init_game_state, start_game, start_ticking, stop_ticking,
}

pub data RoomState : Type 0 where
  lobby running : RoomState

pub record RoomInListInfo : Type 0 where
  pub room_code : String
  pub room_name : String
  pub capacity : ℕ
  pub player_count : ℕ
  pub state : RoomState

pub record GameRoomInfo : Type 0 where
  pub room_id : ℕ
  pub room_code : String
  pub room_name : String
  pub password : String
  pub owner_id : ℕ
  pub capacity : ℕ
  pub player_count : ℕ
  pub state : RoomState
  pub selected_map_path : String
  pub players : List GamePlayerInfo
  pub seat_index : ℕ

pub record GameRoom : Type 0 where
  pub info : GameRoomInfo
  pub handler : GameCmdHandler
  pub group : Group ℕ

-- GameRoom(info, executor)
unfoldable pub new_room : GameRoomInfo → GameRoom
new_room info = record {
  info = info;
  handler = new_handler info.room_id;
  group = record { group_id = info.room_id; capacity = info.capacity; members = [] };
}

-- GetInfo of every member
abbrev pub member_infos : Heap → GameRoom → List GamePlayerInfo
member_infos h r = map h.at r.group.members

unfoldable pub get_all_info : Heap → GameRoom → GameRoomInfo
get_all_info h r = record r.info {
  capacity = r.group.capacity;
  player_count = get_member_count r.group;
  players = member_infos h r;
}

unfoldable pub get_in_list_info : GameRoom → RoomInListInfo
get_in_list_info r = record {
  room_code = r.info.room_code;
  room_name = r.info.room_name;
  capacity = r.group.capacity;
  player_count = get_member_count r.group;
  state = r.info.state;
}

unfoldable pub get_players_id : Heap → GameRoom → List ℕ
get_players_id h r = map (player_id_at h) r.group.members

unfoldable pub create_match_info : Heap → GameRoom → MatchInfo
create_match_info h r = record {
  players = member_infos h r;
  selected_map_path = r.info.selected_map_path;
  owner_id = r.info.owner_id;
}

abbrev pub is_running : GameRoom → Bool
is_running r = elim r.info.state [ lobby ↦ false | running ↦ true ]

abbrev pub set_room_state : RoomState → GameRoom → GameRoom
set_room_state state r = record r { info = record r.info { state = state } }

unfoldable pub map_group_result : GroupResult → RoomReqResult
map_group_result GroupResult.ok = RoomReqResult.ok
map_group_result GroupResult.full = RoomReqResult.full
map_group_result GroupResult.already_in_group = RoomReqResult.already_in_room
map_group_result GroupResult.not_in_group = RoomReqResult.not_in_room
map_group_result GroupResult.invalid_capacity = RoomReqResult.invalid_capacity

abbrev pub is_ok : RoomReqResult → Bool
is_ok RoomReqResult.ok = true
is_ok _ = false

abbrev pub set_player_count : ℕ → GameRoom → GameRoom
set_player_count n r = record r { info = record r.info { player_count = n } }

-- The end of JoinRoom: the group's answer, and the count.
unfoldable pub join_group : Heap → ℕ → GameRoom → GameRoom × RoomReqResult
join_group h a r =
    let (g, answer) = add_member (player_id_at h) r.group a in
    let ret : RoomReqResult = map_group_result answer in
    let r1 : GameRoom = record r { group = g } in
    (if is_ok ret then set_player_count ((r.info.player_count + 1) % u64_mod) r1 else r1, ret)

-- JoinRoom: a `nullptr` is `none`. The player is sent to the room before the group is asked.
unfoldable pub join_room : Option ℕ → Heap → GameRoom → Heap × GameRoom × RoomReqResult
join_room player h r = if is_running r then (h, r, RoomReqResult.game_running) else elim player [
  | none ↦ (h, r, RoomReqResult.not_authorized)
  | some a ↦
      if nat_beq (player_id_at h a) 0
      then (h, r, RoomReqResult.not_authorized)
      else (let h1 : Heap = modify a (enter_room r.info.room_id) h in
          (h1, (join_group h1 a r).0, (join_group h1 a r).1))
]

unfoldable pub leave_room : ℕ → Heap → GameRoom → GameRoom × RoomReqResult
leave_room player_id h r =
    let (g, answer) = remove_member (player_id_at h) r.group player_id in
    let ret : RoomReqResult = map_group_result answer in
    let r1 : GameRoom = record r { group = g } in
    (
      if is_ok ret then set_player_count ((r.info.player_count + u64_mod - 1) % u64_mod) r1 else r1,
      ret,
    )

unfoldable pub set_player_ready : ℕ → Bool → Heap → GameRoom → Heap × RoomReqResult
set_player_ready player_id ready h r = elim (find_member (player_id_at h) r.group player_id) [
  | none ↦ (h, RoomReqResult.not_in_room)
  | some a ↦ (modify a (set_ready ready) h, RoomReqResult.ok)
]

-- StartGame: `none` is the exception of a map that cannot be loaded.
unfoldable pub start_room_game :
    (String → Option MapData) → ℕ → Heap → GameRoom → GameRoom × Option RoomReqResult
start_room_game load player_id h r =
    if not (nat_beq player_id r.info.owner_id)
    then (r, some RoomReqResult.not_owner)
    else if is_running r
    then (r, some RoomReqResult.already_running)
    else if ltb (get_member_count r.group) 2
    then (r, some RoomReqResult.illegal_operation)
    else (let (m, started) = start_game load (create_match_info h r) (init_game_state r.handler) in
        if started
        then (
          set_room_state running (record r { handler = start_ticking 50 m }),
          some RoomReqResult.ok,
        )
        else (record r { handler = m }, none))

unfoldable pub change_map : ℕ → String → GameRoom → GameRoom × RoomReqResult
change_map player_id map_path r =
    if not (nat_beq player_id r.info.owner_id)
    then (r, RoomReqResult.not_owner)
    else if is_running r
    then (r, RoomReqResult.already_running)
    else (record r { info = record r.info { selected_map_path = map_path } }, RoomReqResult.ok)

unfoldable pub change_room_name : ℕ → String → GameRoom → GameRoom × RoomReqResult
change_room_name player_id new_name r =
    if not (nat_beq player_id r.info.owner_id)
    then (r, RoomReqResult.not_owner)
    else (record r { info = record r.info { room_name = new_name } }, RoomReqResult.ok)

unfoldable pub change_password : ℕ → String → GameRoom → GameRoom × RoomReqResult
change_password player_id new_password r =
    if not (nat_beq player_id r.info.owner_id)
    then (r, RoomReqResult.not_owner)
    else (record r { info = record r.info { password = new_password } }, RoomReqResult.ok)

unfoldable pub kick_player : ℕ → ℕ → Heap → GameRoom → GameRoom × RoomReqResult
kick_player player_id target_id h r =
    if not (nat_beq player_id r.info.owner_id)
    then (r, RoomReqResult.not_owner)
    else if is_running r
    then (r, RoomReqResult.game_running)
    else if nat_beq target_id player_id
    then (r, RoomReqResult.illegal_operation)
    else (let (g, answer) = remove_member (player_id_at h) r.group target_id in
        (record r { group = g }, map_group_result answer))

unfoldable pub change_capacity : ℕ → ℕ → GameRoom → GameRoom × RoomReqResult
change_capacity player_id new_capacity r =
    if not (nat_beq player_id r.info.owner_id)
    then (r, RoomReqResult.not_owner)
    else (let (g, answer) = set_capacity r.group new_capacity in
        (record r { group = g }, map_group_result answer))

unfoldable pub dissolve_room : ℕ → GameRoom → GameRoom × RoomReqResult
dissolve_room player_id r =
    if not (nat_beq player_id r.info.owner_id) then (r, RoomReqResult.not_owner) else (
      set_room_state lobby
          (record r { handler = stop_ticking r.handler; group = clear_members r.group }),
      RoomReqResult.ok,
    )

-- Broadcast: the calls of SendMessageToUser, in order.
unfoldable pub broadcast : EncodeMessage → Heap → GameRoom → List (ℕ × EncodeMessage)
broadcast msg h r = map (λ a. (player_id_at h a, msg)) r.group.members

-- FSMState::END
abbrev pub end_state : ℕ
end_state = 11

-- OnGameEnd, with the message for the room. `bytes_of` is the host's representation of a UserId.
unfoldable pub on_game_end : (ℕ → List ℕ) → ℕ → GameRoom → GameRoom × ℕ × EncodeMessage
on_game_end bytes_of winner_id r = (
  record (set_room_state lobby r) { handler = stop_ticking r.handler },
  r.info.room_id,
  record {
    msg_id = 0;
    proto_type = 0;
    main_type = state_control;
    sub_type = end_state;
    payload = bytes_of winner_id;
  },
)
