-- ===== src/GameMap/Tests.antt =====
-- A map that is loaded from a file, which is lost afterwards.
use own_game_server.Prelude.{
  ℕ, ◌≡◌, refl, true, false, Option, none, some, [], ◌∷◌, String, str_eq, if◌then◌else◌, bytes_of,
}
use own_game_server.Assoc.{lookup, emplace, string_eq}
use own_game_server.RuntimeData.{MapData, TileData, TileType, water, base}
use own_game_server.JsonTranslator.{JsonLibrary}
use own_game_server.GameMap.{load_map_data, get_map_file_path}
use own_game_server.GameMap.Print.{test_print_map}
use own_game_server.GameMap.Cache.{load_all, load_map_data-load_all}

abbrev numbers : JsonLibrary ℕ
numbers = record {
  parse = λ s. none;
  contains = λ key n. true;
  at = λ key n. some n;
  get_int = λ n. some n;
  get_string = λ n. none;
  is_string = λ n. false;
  value_u32 = λ key n. some n;
  value_bool = λ key n. none;
  get_u32 = λ n. some n;
  elements = λ n. [];
  dump = λ n. some "";
  number = λ n. n;
  text = λ s. 0;
  array = λ ns. 0;
  object = λ fields. 0;
}

abbrev files : String → Option ℕ
files path = if str_eq path "field.json" then some 3 else none

abbrev no_files : String → Option ℕ
no_files path = none

abbrev field : MapData
field = record { width = 3; height = 3; tiles = [] }

field_loads : (load_map_data numbers files "field" []).1 ≡ some field
unfolding load_map_data get_map_file_path lookup emplace
field_loads = refl

-- The room handler asks for the map "default_map.json", and the suffix is added to that.
default_path : get_map_file_path "default_map.json" ≡ "default_map.json.json"
unfolding get_map_file_path
default_path = refl

load_map_data-load_all_example :
    (load_map_data numbers no_files "field"
      (load_all numbers ((no_files, "hill") ∷ []) (load_map_data numbers files "field" []).0)).1
    ≡ some field
load_map_data-load_all_example =
    load_map_data-load_all numbers files no_files ((no_files, "hill") ∷ []) "field" [] field
      field_loads

abbrev tile : TileType → TileData
tile type = record {
  tile_id = 0;
  owner = 0;
  value = 0;
  type = type;
  round_type = 0;
  countered = false;
  acted = false;
  is_disconnected = false;
}

-- Two rows of one tile, and the same with a tile missing.
print_two :
    test_print_map (record { width = 1; height = 2; tiles = tile water ∷ tile base ∷ [] })
    ≡ some (bytes_of "W \nB \n")
unfolding test_print_map bytes_of
print_two = refl

print_missing : test_print_map (record { width = 1; height = 2; tiles = tile water ∷ [] }) ≡ none
unfolding test_print_map
print_missing = refl
