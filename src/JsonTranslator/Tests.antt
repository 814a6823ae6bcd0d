-- ===== src/JsonTranslator/Tests.antt =====
-- A library whose values are tables of numbers, and which reads an attack from tile 0 to tile 1.
use own_game_server.Prelude.{
  ℕ, ◌≡◌, refl, true, false, Option, none, some, [], ◌∷◌, map, String, arith, str_eq, if◌then◌else◌,
  bytes_of,
}
use own_game_server.Assoc.{Assoc, lookup, string_eq}
use own_game_server.RuntimeData.{TileData, RuntimeData, blank_runtime, attack, forest}
use own_game_server.Battle.{validate_cmd, named_tiles}
use own_game_server.JsonTranslator.{JsonLibrary, parse_command, create_game_command_json}
use own_game_server.JsonTranslator.Commands.{validate_cmd-parse_command}

abbrev pub Table : Type 0
Table = Assoc String ℕ × ℕ

abbrev pub order : Table
order = (("source_id", 0) ∷ ("dest_id", 1) ∷ ("cmd_type", 1) ∷ ("cmd_data", 0) ∷ [], 0)

abbrev pub field : String → Table → Option ℕ
field key t = lookup key t.0

abbrev pub tables : JsonLibrary Table
tables = record {
  parse = λ s. if str_eq s "?" then none else some order;
  contains = λ key t. elim (field key t) [ none ↦ false | some n ↦ true ];
  at = λ key t. elim (field key t) [ none ↦ none | some n ↦ some ([], n) ];
  get_int = λ t. some t.1;
  get_string = λ t. none;
  is_string = λ t. false;
  value_u32 = λ key t. elim (field key t) [ none ↦ some 0 | some n ↦ some n ];
  value_bool = λ key t. some false;
  get_u32 = λ t. some t.1;
  elements = λ t. [];
  dump = λ t. some "";
  number = λ n. ([], n);
  text = λ s. ([], 0);
  array = λ ts. ([], 0);
  object = λ fields. (map (λ (f : String × Table). (f.0, f.1.1)) fields, 0);
}

parse_attack :
    parse_command tables "attack" ≡ record { player_id = 0; type = attack; param1 = 0; param2 = 1 }
unfolding parse_command lookup
parse_attack = refl

abbrev plain : ℕ → TileData
plain owner = record {
  tile_id = 0;
  owner = owner;
  value = 5;
  type = forest;
  round_type = 0;
  countered = false;
  acted = false;
  is_disconnected = false;
}

abbrev field_of_two : RuntimeData
field_of_two = record blank_runtime {
  map = record { width = 2; height = 1; tiles = plain 7 ∷ plain 8 ∷ [] };
}

validate_cmd-parse_command_example :
    validate_cmd field_of_two (parse_command tables "attack") ≡ some false
unfolding parse_command lookup named_tiles
validate_cmd-parse_command_example =
    validate_cmd-parse_command tables "attack" field_of_two (plain 7) (plain 8) refl (omega arith)

game_command_text :
    create_game_command_json 52 (bytes_of "[1]") ≡ bytes_of "{\"cmd_type\":52,\"cmd_data\":[1]}"
unfolding create_game_command_json bytes_of
game_command_text = refl
