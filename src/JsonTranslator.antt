-- ===== src/JsonTranslator.antt =====
-- protocol/JsonTranslator over a JSON library: reading a command, and writing rooms and matches. `J` is
-- the library's type of values. An operation of the library that throws gives `none`: `dump` does at
-- a text that is not UTF-8, and its callers pass the exception on.
pub mod Commands
mod Tests
use own_game_server.Prelude.{
  ℕ, ◌+◌, ◌-◌, ◌%◌, Bool, true, false, not, Option, none, some, List, [], ◌∷◌, map, String, nat_beq,
  if◌then◌else◌, u8_mod, u64_mod, ◌/◌, ◌++◌, ltb, bytes_of,
}
use own_game_server.Messages.{RoomReqResult, room_req_result_code}
use own_game_server.Player.{GamePlayerInfo}
use own_game_server.RuntimeData.{BattleCmd, BattleCmdType, move, attack, grow, MatchInfo}
use own_game_server.Room.{RoomState, lobby, running, RoomInListInfo, GameRoomInfo}

-- nlohmann::json: parse, contains, at, get<int> (as a 32-bit word), is_string, get<std::string>,
-- value(key, 0u), value(key, false), get<uint32_t>, iteration, dump, and the values that assignments
-- build.
pub record JsonLibrary (J : Type 0) : Type 0 where
  pub parse : String → Option J
  pub contains : String → J → Bool
  pub at : String → J → Option J
  pub get_int : J → Option ℕ
  pub get_string : J → Option String
  pub is_string : J → Bool
  pub value_u32 : String → J → Option ℕ
  pub value_bool : String → J → Option Bool
  pub get_u32 : J → Option ℕ
  pub elements : J → List J
  pub dump : J → Option String
  pub number : ℕ → J
  pub text : String → J
  pub array : List J → J
  pub object : List (String × J) → J

abbrev pub gamecmd_move : ℕ
gamecmd_move = 0

abbrev pub gamecmd_attack : ℕ
gamecmd_attack = 1

abbrev pub gamecmd_grow : ℕ
gamecmd_grow = 2

abbrev pub gamedata_roomlist : ℕ
gamedata_roomlist = 50

abbrev pub gamedata_playerinroom : ℕ
gamedata_playerinroom = 51

-- std::to_string of a byte.
unfoldable pub byte_text : ℕ → List ℕ
byte_text n =
    if ltb n 10
    then (48 + n) ∷ []
    else if ltb n 100
    then (48 + n / 10) ∷ (48 + n % 10) ∷ []
    else (48 + n / 100) ∷ (48 + n / 10 % 10) ∷ (48 + n % 10) ∷ []

-- createGameCommandJSON
unfoldable pub create_game_command_json : ℕ → List ℕ → List ℕ
unfolding byte_text bytes_of
create_game_command_json cmd_type cmd_data =
    bytes_of "{\"cmd_type\":"
    ++ (byte_text cmd_type ++ (bytes_of ",\"cmd_data\":" ++ (cmd_data ++ bytes_of "}")))

-- BattleCmd{}
abbrev pub no_cmd : BattleCmd
no_cmd = record { player_id = 0; type = move; param1 = 0; param2 = 0 }

-- A command for two numbers that have been read.
unfoldable pub cmd_of : BattleCmdType → Option ℕ → Option ℕ → BattleCmd
cmd_of type (some p1) (some p2) = record { player_id = 0; type = type; param1 = p1; param2 = p2 }
cmd_of type _ _ = no_cmd

-- A value that is read and not used: if it cannot be read there is no command.
unfoldable pub if_read : Option ℕ → BattleCmd → BattleCmd
if_read none cmd = no_cmd
if_read (some v) cmd = cmd

unfoldable pub room_state_code : RoomState → ℕ
room_state_code lobby = 0
room_state_code running = 1

module _ {J : Type 0} (lib : JsonLibrary J) where
  -- The fields read from `d`: the values of the units are read as well, and may throw.
  unfoldable pub move_of : J → BattleCmd
  unfolding cmd_of if_read
  move_of d =
      if_read (lib.value_u32 "value" d)
        (cmd_of move (lib.value_u32 "source_id" d) (lib.value_u32 "dest_id" d))

  unfoldable pub attack_of : J → BattleCmd
  unfolding cmd_of if_read
  attack_of d = if_read (lib.value_u32 "source_value" d) (
      if_read (lib.value_u32 "dest_value" d)
        (cmd_of attack (lib.value_u32 "source_id" d) (lib.value_u32 "dest_id" d)))

  unfoldable pub grow_of : J → BattleCmd
  unfolding cmd_of
  grow_of d = cmd_of grow (lib.value_u32 "target_tile_id" d) (lib.value_u32 "grow_value" d)

  -- The switch over the type of the command, with its data.
  unfoldable pub cmd_from : ℕ → Option J → BattleCmd
  unfolding move_of attack_of grow_of
  cmd_from cmd_type none = no_cmd
  cmd_from cmd_type (some d) =
      if nat_beq cmd_type gamecmd_move
      then move_of d
      else if nat_beq cmd_type gamecmd_attack
      then attack_of d
      else if nat_beq cmd_type gamecmd_grow
      then grow_of d
      else no_cmd

  -- The text of the field cmd_data: a string itself, or the dump of another value.
  unfoldable pub cmd_data : J → Option String
  cmd_data root =
      if not (lib.contains "cmd_data" root) then some "" else elim (lib.at "cmd_data" root) [
        | none ↦ none
        | some d ↦ if lib.is_string d then lib.get_string d else lib.dump d
      ]

  abbrev pub parse_some : Option String → Option J
  parse_some none = none
  parse_some (some s) = lib.parse s

  abbrev pub cmd_type_of : Option J → Option ℕ
  cmd_type_of none = none
  cmd_type_of (some v) = elim (lib.get_int v) [ none ↦ none | some n ↦ some (n % u8_mod) ]

  -- The type of the command, if it can be read, and the value that holds it.
  unfoldable pub typed_command : Option ℕ → J → BattleCmd
  unfolding cmd_data cmd_from
  typed_command none root = no_cmd
  typed_command (some cmd_type) root = cmd_from cmd_type (parse_some (cmd_data root))

  -- The rest of ParseCommand, for the value that the text stands for.
  unfoldable pub command_of : Option J → BattleCmd
  unfolding typed_command
  command_of none = no_cmd
  command_of (some root) =
      if not (lib.contains "cmd_type" root)
      then no_cmd
      else typed_command (cmd_type_of (lib.at "cmd_type" root)) root

  unfoldable pub parse_command : String → BattleCmd
  unfolding command_of
  parse_command json_str = command_of (lib.parse json_str)

  unfoldable pub room_entry : RoomInListInfo → J
  unfolding room_state_code
  room_entry room = lib.object (
      ("room_code", lib.text room.room_code)
      ∷ ("room_name", lib.text room.room_name)
      ∷ ("capacity", lib.number room.capacity)
      ∷ ("player_count", lib.number room.player_count)
      ∷ ("state", lib.number (room_state_code room.state))
      ∷ [])

  unfoldable pub serialize_room_list : List RoomInListInfo → Option String
  unfolding room_entry
  serialize_room_list rooms = lib.dump (
      lib.object (
        ("cmd_type", lib.number gamedata_roomlist)
        ∷ ("rooms", lib.array (map room_entry rooms))
        ∷ []))

  unfoldable pub player_entry : GamePlayerInfo → J
  player_entry player = lib.object (
      ("user_id", lib.number player.b_info.user_id)
      ∷ ("user_name", lib.text player.b_info.user_name)
      ∷ ("seat_index", lib.number player.seat_index)
      ∷ ("color", lib.number player.color)
      ∷ ("position", lib.number player.position)
      ∷ [])

  unfoldable pub serialize_room_info : GameRoomInfo → Option String
  unfolding player_entry room_state_code
  serialize_room_info info = lib.dump (
      lib.object (
        ("cmd_type", lib.number gamedata_playerinroom)
        ∷ ("players", lib.array (map player_entry info.players))
        ∷ ("state", lib.number (room_state_code info.state))
        ∷ ("room_code", lib.text info.room_code)
        ∷ ("room_name", lib.text info.room_name)
        ∷ ("password", lib.text info.password)
        ∷ ("capacity", lib.number info.capacity)
        ∷ ("player_count", lib.number info.player_count)
        ∷ ("selected_map_path", lib.text info.selected_map_path)
        ∷ ("owner_id", lib.number info.owner_id)
        ∷ ("seat_index", lib.number ((info.player_count + u64_mod - 1) % u64_mod))
        ∷ []))

  unfoldable pub serialize_match_info : MatchInfo → Option String
  unfolding player_entry
  serialize_match_info info = lib.dump (
      lib.object (
        ("cmd_type", lib.number gamedata_playerinroom)
        ∷ ("players", lib.array (map player_entry info.players))
        ∷ ("selected_map_path", lib.text info.selected_map_path)
        ∷ ("OwnerID", lib.number info.owner_id)
        ∷ []))

  unfoldable pub serialize_create_room_result : String → RoomReqResult → Option String
  serialize_create_room_result room_code res = lib.dump (
      lib.object (
        ("room_code", lib.text room_code) ∷ ("result", lib.number (room_req_result_code res)) ∷ []))
