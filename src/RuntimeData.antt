-- ===== src/RuntimeData.antt =====
-- business/GameLogic/RuntimeData.hpp and business/GameLogic/GameProto.hpp: the data of a running
-- match. An `int32_t` parameter of a command is its 32-bit pattern.
use own_game_server.Prelude.{ℕ, Bool, true, false, List, [], String, if◌then◌else◌, str_eq}
use own_game_server.Assoc.{Assoc}
use own_game_server.Player.{GamePlayerInfo}

pub record PlayerRuntimeState : Type 0 where
  pub player_id : ℕ
  pub seat_index : ℕ
  pub score : ℕ
  pub resources : ℕ
  pub base_count : ℕ
  pub failure : Bool

-- What `players[id]` makes of a missing id.
abbrev pub blank_state : PlayerRuntimeState
blank_state = record {
  player_id = 0;
  seat_index = 0;
  score = 0;
  resources = 0;
  base_count = 0;
  failure = false;
}

pub data TileType : Type 0 where
  mountain water forest ground_tile q_mark e_mark black_bg base : TileType

-- ParseTileType, on the text of the JSON node.
unfoldable pub parse_tile_type : String → TileType
parse_tile_type s =
    if str_eq s "Mountain"
    then mountain
    else if str_eq s "Water"
    then water
    else if str_eq s "Forest"
    then forest
    else if str_eq s "Ground"
    then ground_tile
    else if str_eq s "QMark"
    then q_mark
    else if str_eq s "EMark"
    then e_mark
    else if str_eq s "BlackBg"
    then black_bg
    else if str_eq s "Base"
    then base
    else black_bg

abbrev pub is_base : TileType → Bool
is_base base = true
is_base _ = false

pub record TileData : Type 0 where
  pub tile_id : ℕ
  pub owner : ℕ
  pub value : ℕ
  pub type : TileType
  pub round_type : ℕ
  pub countered : Bool
  pub acted : Bool
  pub is_disconnected : Bool

pub record MapData : Type 0 where
  pub width : ℕ
  pub height : ℕ
  pub tiles : List TileData

pub record RuntimeData : Type 0 where
  pub map_name : String
  pub map : MapData
  pub players : Assoc ℕ PlayerRuntimeState
  pub tick : ℕ
  pub current_player_id : ℕ

abbrev pub blank_runtime : RuntimeData
blank_runtime = record {
  map_name = "";
  map = record { width = 0; height = 0; tiles = [] };
  players = [];
  tick = 0;
  current_player_id = 0;
}

pub data BattleCmdType : Type 0 where
  move attack grow : BattleCmdType

pub record BattleCmd : Type 0 where
  pub player_id : ℕ
  pub type : BattleCmdType
  pub param1 : ℕ
  pub param2 : ℕ

pub record MatchInfo : Type 0 where
  pub players : List GamePlayerInfo
  pub selected_map_path : String
  pub owner_id : ℕ
