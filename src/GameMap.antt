-- ===== src/GameMap.antt =====
-- business/GameLogic/GameMapIO: the maps that have been loaded, by name, and reading a map. `J` is the
-- JSON library's type of values; `load_map_file` opens and parses a file of the directory of maps, and
-- an operation that throws gives `none`.
pub mod Cache
pub mod Print
mod Tests
use own_game_server.Prelude.{
  ℕ, ◌%◌, Bool, true, false, Option, none, some, List, [], ◌∷◌, ◌++◌, String, u8_mod, bytes_of,
  text_of,
}
use own_game_server.Assoc.{Assoc, lookup, emplace, string_eq}
use own_game_server.RuntimeData.{TileData, TileType, MapData, parse_tile_type}
use own_game_server.JsonTranslator.{JsonLibrary}

abbrev pub MapCache : Type 0
MapCache = Assoc String MapData

abbrev pub and_then {ℓ κ} : {A : Type ℓ} {B : Type κ} → Option A → (A → Option B) → Option B
and_then none f = none
and_then (some a) f = f a

-- GetMapFilePath, without the directory.
unfoldable pub get_map_file_path : String → String
unfolding text_of bytes_of
get_map_file_path map_name = text_of (bytes_of map_name ++ bytes_of ".json")

module _ {J : Type 0} (lib : JsonLibrary J) where
  -- ParseTileType
  unfoldable pub parse_type : J → Option TileType
  unfolding parse_tile_type
  parse_type node = and_then (lib.get_string node) (λ s. some (parse_tile_type s))

  -- One round of the loop of ParseMapData.
  unfoldable pub parse_tile : J → Option TileData
  unfolding parse_type
  parse_tile node = and_then (and_then (lib.at "tile_id" node) lib.get_u32) (λ tile_id.
      and_then (lib.value_u32 "owner" node) (λ owner.
        and_then (lib.value_u32 "value" node) (λ value.
          and_then (and_then (lib.at "type" node) parse_type) (λ type.
            and_then (lib.value_u32 "round_type" node) (λ round_type.
              and_then (lib.value_bool "countered" node) (λ countered.
                and_then (lib.value_bool "acted" node) (λ acted.
                  and_then (lib.value_bool "isDisconnected" node) (λ is_disconnected. some (record {
                    tile_id = tile_id;
                    owner = owner;
                    value = value;
                    type = type;
                    round_type = round_type % u8_mod;
                    countered = countered;
                    acted = acted;
                    is_disconnected = is_disconnected;
                  })))))))))

  unfoldable pub parse_tiles : List J → Option (List TileData)
  unfolding parse_tile
  parse_tiles [] = some []
  parse_tiles (node ∷ nodes) =
      and_then (parse_tile node)
        (λ tile. and_then (parse_tiles nodes) (λ tiles. some (tile ∷ tiles)))

  unfoldable pub parse_map_data : J → Option MapData
  unfolding parse_tiles
  parse_map_data root = and_then (and_then (lib.at "width" root) lib.get_u32) (λ width.
      and_then (and_then (lib.at "height" root) lib.get_u32) (λ height.
        and_then (lib.at "tiles" root) (λ tiles_node.
          and_then (parse_tiles (lib.elements tiles_node))
            (λ tiles. some (record { width = width; height = height; tiles = tiles })))))

  -- try_emplace, and the entry that is there then.
  unfoldable pub keep : String → Option MapData → MapCache → MapCache × Option MapData
  keep map_path none cache = (cache, none)
  keep map_path (some fresh) cache =
      let kept : MapCache = emplace map_path fresh cache in (kept, lookup map_path kept)

  unfoldable pub load_missing :
      (String → Option J) → String → Option MapData → MapCache → MapCache × Option MapData
  unfolding keep parse_map_data get_map_file_path
  load_missing load_map_file map_path (some found) cache = (cache, some found)
  load_missing load_map_file map_path none cache =
      keep map_path (and_then (load_map_file (get_map_file_path map_path)) parse_map_data) cache

  -- LoadMapData: `none` is `nullptr`.
  unfoldable pub load_map_data : (String → Option J) → String → MapCache → MapCache × Option MapData
  unfolding load_missing
  load_map_data load_map_file map_path cache =
      load_missing load_map_file map_path (lookup map_path cache) cache
