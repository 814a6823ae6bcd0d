-- ===== src/Battle/Tests.antt =====
-- Matches of two players, 7 and 8, on a row of tiles.
use own_game_server.Prelude.{ℕ, ◌≡◌, refl, true, false, List, [], ◌∷◌, arith}
use own_game_server.Assoc.{lookup, insert, nat_eq}
use own_game_server.RuntimeData.{blank_state, TileData, ground_tile, base, BattleCmd, attack, grow}
use own_game_server.Battle.{
  Battle, no_tile, apply_move, apply_attack, process_command, validate_cmd, named_tiles, check_cmd,
  apply_cmd, fight, touch_player, put_player, player_at, attack_won, won_base, won_owner, won_units,
  lose_resource, gain_resource, gain_base, lose_base, game_end_check, check_players, check_player,
  apply_grow,
}
use own_game_server.Battle.EndCheck.{IsQuiet}
use own_game_server.Battle.Reports.{run_commands, run_commands-IsQuiet}
use own_game_server.Battle.Commands.{Writes, apply_move-Writes}
use own_game_server.Battle.Outcomes.{apply_attack-won, apply_attack-countered}
use own_game_server.Battle.Handler.{GameCmdHandler, start_ticking, schedule_next_tick}

abbrev plain : ℕ → ℕ → TileData
plain owner value = record no_tile { owner = owner; value = value; type = ground_tile }

abbrev camp : TileData
camp = record no_tile { owner = 8; value = 4; type = base }

abbrev field : Battle
field = record {
  runtime = record {
    map_name = "field";
    map = record { width = 4; height = 1; tiles = plain 7 9 ∷ plain 7 5 ∷ plain 8 6 ∷ camp ∷ [] };
    players =
        (7, record blank_state { player_id = 7 })
        ∷ (8, record blank_state { player_id = 8; base_count = 1 })
        ∷ [];
    tick = 0;
    current_player_id = 7;
  };
  winners = [];
}

field-IsQuiet : IsQuiet field
field-IsQuiet = record { none_failed = (refl, (refl, tt)); reports = tt }

abbrev orders : List BattleCmd
orders =
    record { player_id = 7; type = attack; param1 = 0; param2 = 3 }
    ∷ record { player_id = 7; type = grow; param1 = 1; param2 = 2 }
    ∷ []

-- The attack on player 8's only base is reported as a victory of player 0.
orders_report : (run_commands field orders).winners ≡ 0 ∷ []
unfolding run_commands process_command validate_cmd named_tiles check_cmd apply_cmd apply_attack
    fight touch_player put_player player_at attack_won won_base won_owner won_units lose_resource
    gain_resource gain_base lose_base game_end_check check_players check_player apply_grow lookup
    insert
orders_report = refl

run_commands-IsQuiet_example : IsQuiet (run_commands field orders)
run_commands-IsQuiet_example = run_commands-IsQuiet field orders field-IsQuiet

apply_move-Writes_example :
    Writes field (apply_move field 7 0 1) 0 1 (record (plain 7 1) { acted = true }) (plain 7 5)
apply_move-Writes_example =
    apply_move-Writes field 7 0 1
      (record { first = omega arith; second = omega arith; differ = omega arith })

apply_attack-won_example : Writes field (apply_attack field 0 2) 0 2 (plain 7 1) (plain 7 4)
apply_attack-won_example =
    apply_attack-won field 0 2
      (record { first = omega arith; second = omega arith; differ = omega arith }) (omega arith)
      refl

apply_attack-countered_example :
    Writes field (apply_attack field 1 2) 1 2 (plain 0 0) (record (plain 8 6) { countered = true })
apply_attack-countered_example =
    apply_attack-countered field 1 2
      (record { first = omega arith; second = omega arith; differ = omega arith }) (omega arith)
      (omega arith) (omega arith) refl refl

abbrev running : GameCmdHandler
running = record {
  room_id = 1;
  ticking = true;
  tick_interval = 50;
  armed = true;
  runtime = field.runtime;
}

starts_running : start_ticking 50 (record running { ticking = false; armed = false }) ≡ running
unfolding start_ticking schedule_next_tick
starts_running = refl
