-- ===== src/RoomManager.antt =====
-- business/GameRoom/GameRoomManager: the rooms by id and by code. A room object is reached through
-- `rooms` alone, so that an operation on it is a write to its entry. The lock orders the operations.
-- The code that GenRoomCode draws is an argument. `has_players` says that the weak pointer to the
-- player manager can be locked. Room ids are 32 bits wide.
pub mod Directory
pub mod Steps
pub mod Service
pub mod Meeting
pub mod Seats
mod Tests
use own_game_server.Prelude.{
  ℕ, suc, ◌+◌, ◌%◌, ◌^◌, Bool, true, false, not, Option, none, some, List, [], ◌∷◌, map,
  if◌then◌else◌, String, u32_mod, ◌⊎◌, inl, inr,
}
use own_game_server.Assoc.{Assoc, lookup, insert, emplace, erase, nat_eq, string_eq}
use own_game_server.Codec.Encoder.{EncodeMessage}
use own_game_server.Messages.{RoomReqResult}
use own_game_server.Player.{Heap}
use own_game_server.PlayerManager.{GamePlayerManager, get_player}
use own_game_server.RuntimeData.{MapData, MatchInfo}
use own_game_server.Room.{
  GameRoom, GameRoomInfo, RoomInListInfo, is_ok, new_room, get_all_info, get_in_list_info,
  create_match_info, leave_room, set_player_ready, start_room_game, change_map, change_room_name,
  change_password, kick_player, change_capacity, dissolve_room, broadcast,
}
use own_game_server.Room as R

pub record GameRoomManager : Type 0 where
  pub rooms : Assoc ℕ GameRoom
  pub room_code_map : Assoc String ℕ
  pub next_room_id : ℕ
  pub has_players : Bool
  pub players : GamePlayerManager

abbrev pub heap_of : GameRoomManager → Heap
heap_of m = m.players.heap

abbrev pub with_heap : Heap → GameRoomManager → GameRoomManager
with_heap h m = record m { players = record m.players { heap = h } }

-- The write to a room object.
abbrev pub put_room : ℕ → GameRoom → GameRoomManager → GameRoomManager
put_room room_id r m = record m { rooms = insert room_id r m.rooms }

abbrev pub get_room : ℕ → GameRoomManager → Option GameRoom
get_room room_id m = lookup room_id m.rooms

unfoldable pub get_room_info : ℕ → GameRoomManager → Option GameRoomInfo
get_room_info room_id m = elim (lookup room_id m.rooms) [
  | none ↦ none
  | some r ↦ some (get_all_info (heap_of m) r)
]

unfoldable pub get_room_list : GameRoomManager → List RoomInListInfo
get_room_list m = map (λ (e : ℕ × GameRoom). get_in_list_info e.1) m.rooms

abbrev pub room_code_to_id : String → GameRoomManager → Option ℕ
room_code_to_id code m = lookup code m.room_code_map

unfoldable pub room_broad_cast :
    ℕ → EncodeMessage → GameRoomManager → List (ℕ × EncodeMessage) × Bool
room_broad_cast room_id msg m = elim (lookup room_id m.rooms) [
  | none ↦ ([], false)
  | some r ↦ (broadcast msg (heap_of m) r, true)
]

unfoldable pub get_room_match_info : ℕ → GameRoomManager → Option MatchInfo
get_room_match_info room_id m = elim (lookup room_id m.rooms) [
  | none ↦ none
  | some r ↦ some (create_match_info (heap_of m) r)
]

-- The end of CreateRoom, after the new room has been asked to let its owner in.
unfoldable pub publish_room :
    ℕ → String → Heap × GameRoom × RoomReqResult → GameRoomManager → GameRoomManager × RoomReqResult
publish_room new_room_id code (h, r, answer) m =
    if not (is_ok answer) then (with_heap h m, answer) else (
      record (with_heap h m) {
        room_code_map = emplace code new_room_id m.room_code_map;
        rooms = insert new_room_id r m.rooms;
      },
      RoomReqResult.ok,
    )

-- The lock of the player manager, and GetPlayer: the answer to give up with, or the player.
unfoldable pub ask_player : GameRoomManager → ℕ → RoomReqResult ⊎ ℕ
ask_player m id =
    if not m.has_players
    then inl RoomReqResult.unknown_error
    else elim (get_player m.players id) [ none ↦ inl RoomReqResult.not_authorized | some a ↦ inr a ]

-- CreateRoom with the id drawn. `out_room_code` is set to the code where the answer is OK.
unfoldable pub create_room_at :
    ℕ → GameRoomInfo → String → GameRoomManager → GameRoomManager × RoomReqResult
create_room_at new_room_id room_info code m = elim (ask_player m room_info.owner_id) [
  | inl answer ↦ (m, answer)
  | inr a ↦
      publish_room new_room_id code
        (R.join_room (some a) (heap_of m)
          (new_room (record room_info { room_id = new_room_id; room_code = code })))
        m
]

unfoldable pub create_room :
    GameRoomInfo → String → GameRoomManager → GameRoomManager × RoomReqResult
create_room room_info code m =
    create_room_at m.next_room_id room_info code
      (record m { next_room_id = (m.next_room_id + 1) % u32_mod })

-- GetRoom, and an operation of the room.
unfoldable pub at_room :
    ℕ → GameRoomManager → (GameRoom → GameRoom × RoomReqResult) → GameRoomManager × RoomReqResult
at_room room_id m f = elim (lookup room_id m.rooms) [
  | none ↦ (m, RoomReqResult.not_found)
  | some r ↦ (put_room room_id (f r).0 m, (f r).1)
]

unfoldable pub join_room : ℕ → ℕ → GameRoomManager → GameRoomManager × RoomReqResult
join_room room_id player_id m = elim (lookup room_id m.rooms) [
  | none ↦ (m, RoomReqResult.not_found)
  | some r ↦ elim (ask_player m player_id) [
    | inl answer ↦ (m, answer)
    | inr a ↦
        let (h, r1, answer) = R.join_room (some a) (heap_of m) r in
        (with_heap h (put_room room_id r1 m), answer)
  ]
]

unfoldable pub leave_room_of : ℕ → ℕ → GameRoomManager → GameRoomManager × RoomReqResult
leave_room_of room_id player_id m = at_room room_id m (leave_room player_id (heap_of m))

unfoldable pub set_ready_in : ℕ → ℕ → Bool → GameRoomManager → GameRoomManager × RoomReqResult
set_ready_in room_id player_id ready m = elim (lookup room_id m.rooms) [
  | none ↦ (m, RoomReqResult.not_found)
  | some r ↦
      let (h, answer) = set_player_ready player_id ready (heap_of m) r in (with_heap h m, answer)
]

-- StartGame; `none` is the exception that comes out of the room.
unfoldable pub start_game_in :
    (String → Option MapData) → ℕ → ℕ → GameRoomManager → GameRoomManager × Option RoomReqResult
start_game_in load room_id player_id m = elim (lookup room_id m.rooms) [
  | none ↦ (m, some RoomReqResult.not_found)
  | some r ↦
      let (r1, answer) = start_room_game load player_id (heap_of m) r in
      (put_room room_id r1 m, answer)
]

unfoldable pub change_map_of : ℕ → ℕ → String → GameRoomManager → GameRoomManager × RoomReqResult
change_map_of room_id player_id map_path m = at_room room_id m (change_map player_id map_path)

unfoldable pub change_room_name_of :
    ℕ → ℕ → String → GameRoomManager → GameRoomManager × RoomReqResult
change_room_name_of room_id player_id new_name m =
    at_room room_id m (change_room_name player_id new_name)

unfoldable pub change_password_of :
    ℕ → ℕ → String → GameRoomManager → GameRoomManager × RoomReqResult
change_password_of room_id player_id new_password m =
    at_room room_id m (change_password player_id new_password)

unfoldable pub kick_player_of : ℕ → ℕ → ℕ → GameRoomManager → GameRoomManager × RoomReqResult
kick_player_of room_id player_id target_id m =
    at_room room_id m (kick_player player_id target_id (heap_of m))

unfoldable pub change_capacity_of : ℕ → ℕ → ℕ → GameRoomManager → GameRoomManager × RoomReqResult
change_capacity_of room_id player_id new_capacity m =
    at_room room_id m (change_capacity player_id new_capacity)

-- DissolveRoom: the code and the room are erased where the room agrees. A room that refuses is
-- unchanged.
unfoldable pub dissolve_room_of : ℕ → ℕ → GameRoomManager → GameRoomManager × RoomReqResult
dissolve_room_of room_id player_id m = elim (lookup room_id m.rooms) [
  | none ↦ (m, RoomReqResult.not_found)
  | some r ↦
      let (r1, answer) = dissolve_room player_id r in
      if not (is_ok answer) then (put_room room_id r1 m, answer) else (
        record m {
          room_code_map = erase r1.info.room_code m.room_code_map;
          rooms = erase room_id m.rooms;
        },
        RoomReqResult.ok,
      )
]
