-- ===== src/JsonTranslator/Commands.antt =====
-- Which commands ParseCommand of protocol/JsonTranslator.cpp can give, and what ValidateCmd of the match
-- says of them.
use own_game_server.Prelude.{
  ℕ, ◌≡◌, ◌≢◌, refl, ap, ◌∙◌, Bool, false, Option, none, some, String, arith,
}
use own_game_server.RuntimeData.{
  BattleCmd, BattleCmdType, TileData, RuntimeData, move, attack, grow,
}
use own_game_server.Battle.{validate_cmd, named_tiles, check_cmd}
use own_game_server.JsonTranslator.{
  JsonLibrary, cmd_of, move_of, attack_of, grow_of, cmd_from, cmd_type_of, command_of,
  parse_command, if_read, typed_command,
}

cmd_of-anonymous : (type : BattleCmdType) (a b : Option ℕ) → (cmd_of type a b).player_id ≡ 0
unfolding cmd_of
cmd_of-anonymous type none b = refl
cmd_of-anonymous type (some a) none = refl
cmd_of-anonymous type (some a) (some b) = refl

if_read-anonymous :
    (v : Option ℕ) (cmd : BattleCmd) → cmd.player_id ≡ 0 → (if_read v cmd).player_id ≡ 0
unfolding if_read
if_read-anonymous none cmd e = refl
if_read-anonymous (some v) cmd e = e

module _ {J : Type 0} (lib : JsonLibrary J) where
  cmd_from-anonymous : (cmd_type : ℕ) (d : Option J) → (cmd_from lib cmd_type d).player_id ≡ 0
  unfolding cmd_from move_of attack_of grow_of
  cmd_from-anonymous cmd_type none = refl
  cmd_from-anonymous cmd_type (some d) = ground (arith, moves, attacks, grows)
    where
      moves : (move_of lib d).player_id ≡ 0
      moves =
          unfold move_of in
          if_read-anonymous (lib.value_u32 "value" d) _ (cmd_of-anonymous move _ _)

      attacks : (attack_of lib d).player_id ≡ 0
      attacks =
          unfold attack_of in
          if_read-anonymous (lib.value_u32 "source_value" d) _
            (if_read-anonymous (lib.value_u32 "dest_value" d) _ (cmd_of-anonymous attack _ _))

      grows : (grow_of lib d).player_id ≡ 0
      grows = unfold grow_of in cmd_of-anonymous grow _ _

  typed_command-anonymous :
      (cmd_type : Option ℕ) (root : J) → (typed_command lib cmd_type root).player_id ≡ 0
  unfolding typed_command
  typed_command-anonymous none root = refl
  typed_command-anonymous (some t) root = cmd_from-anonymous t _

  command_of-anonymous : (root : Option J) → (command_of lib root).player_id ≡ 0
  unfolding command_of
  command_of-anonymous none = refl
  command_of-anonymous (some root) =
      ground (arith, typed_command-anonymous (cmd_type_of lib (lib.at "cmd_type" root)) root)

  -- Every text is read as a command of player 0.
  pub parse_command-anonymous : (json_str : String) → (parse_command lib json_str).player_id ≡ 0
  unfolding parse_command
  parse_command-anonymous json_str = command_of-anonymous (lib.parse json_str)

  check_cmd-owner :
      (type : BattleCmdType) (cmd : BattleCmd) (src dst : TileData)
      → cmd.player_id ≡ 0
      → src.owner ≢ 0
      → check_cmd type cmd src dst ≡ false
  unfolding check_cmd
  check_cmd-owner move cmd src dst e ne = ground arith
  check_cmd-owner attack cmd src dst e ne = ground arith
  check_cmd-owner grow cmd src dst e ne = ground arith

  -- Whatever text is read, ValidateCmd refuses the command where the tile that it starts from has an
  -- owner: no player can move, attack or grow by a command that ParseCommand has read.
  pub validate_cmd-parse_command :
      (json_str : String) (rt : RuntimeData) (src dst : TileData)
      → named_tiles (parse_command lib json_str).type rt.map.tiles (parse_command lib json_str)
        ≡ some (src, dst)
      → src.owner ≢ 0
      → validate_cmd rt (parse_command lib json_str) ≡ some false
  unfolding validate_cmd
  validate_cmd-parse_command json_str rt src dst found owned =
      ap
        (λ (f : Option (TileData × TileData)). elim f [
          | none ↦ none
          | some (s, d) ↦ some (check_cmd cmd.type cmd s d)
        ])
        found
      ∙ ap (λ (b : Bool). some b)
          (check_cmd-owner cmd.type cmd src dst (parse_command-anonymous json_str) owned)
    where
      cmd : BattleCmd
      cmd = parse_command lib json_str
