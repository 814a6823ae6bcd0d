-- ===== src/Battle/Reports.antt =====
-- What a match reports through the end-of-game callback of business/GameLogic/GameCmdHandler.cpp.
use own_game_server.Prelude.{ℕ, List, [], ◌∷◌, arith}
use own_game_server.RuntimeData.{BattleCmd, BattleCmdType, move, attack, grow}
use own_game_server.Battle.{
  Battle, apply_move, attack_won, won_base, won_owner, won_units, attack_lost, lost_owner,
  lost_units, counter_attack, counter_units, counter_base, fight, apply_attack, apply_grow,
  apply_cmd, process_command, Applied, applied, threw,
}
use own_game_server.Battle.EndCheck.{IsQuiet, quiet_rules}

module _ (b : Battle) (q : IsQuiet b) where
  apply_move-IsQuiet : (player p1 p2 : ℕ) → IsQuiet (apply_move b player p1 p2)
  unfolding apply_move
  apply_move-IsQuiet player p1 p2 = search quiet_rules depth 12

  attack_won-IsQuiet : (k1 k2 p1 p2 : ℕ) → IsQuiet (attack_won b k1 k2 p1 p2)
  unfolding attack_won won_base won_owner won_units
  attack_won-IsQuiet k1 k2 p1 p2 = search quiet_rules depth 14

  counter_attack-IsQuiet : (k1 p1 p2 : ℕ) → IsQuiet (counter_attack b k1 p1 p2)
  unfolding counter_attack counter_units counter_base
  counter_attack-IsQuiet k1 p1 p2 = search quiet_rules depth 14

  attack_lost-IsQuiet : (k1 k2 p1 p2 : ℕ) → IsQuiet (attack_lost b k1 k2 p1 p2)
  unfolding attack_lost lost_owner lost_units
  attack_lost-IsQuiet k1 k2 p1 p2 = search (quiet_rules, counter_attack-IsQuiet) depth 14

apply_attack-IsQuiet : (b : Battle) → IsQuiet b → (p1 p2 : ℕ) → IsQuiet (apply_attack b p1 p2)
unfolding apply_attack fight
apply_attack-IsQuiet b q p1 p2 =
    search (quiet_rules, attack_won-IsQuiet, attack_lost-IsQuiet) depth 8

apply_cmd-IsQuiet :
    (t : BattleCmdType) (b : Battle) (cmd : BattleCmd) → IsQuiet b → IsQuiet (apply_cmd t b cmd)
unfolding apply_cmd
apply_cmd-IsQuiet move b cmd q = apply_move-IsQuiet b q _ _ _
apply_cmd-IsQuiet attack b cmd q = apply_attack-IsQuiet b q _ _
apply_cmd-IsQuiet grow b cmd q = unfold apply_grow in search quiet_rules

-- A command that throws has changed nothing: the exception leaves `ValidateCmd`.
abbrev pub state_after : Battle → Applied → Battle
state_after b (applied b') = b'
state_after b (threw e) = b

unfoldable pub run_commands : Battle → List BattleCmd → Battle
run_commands b [] = b
run_commands b (cmd ∷ cmds) = run_commands (state_after b (process_command b cmd)) cmds

process_command-IsQuiet :
    (b : Battle) (cmd : BattleCmd) → IsQuiet b → IsQuiet (state_after b (process_command b cmd))
unfolding process_command
process_command-IsQuiet b cmd q = ground (arith, apply_cmd-IsQuiet cmd.type b cmd q)

-- In a match that starts with no failed player and no report, no sequence of commands ever marks a
-- player as failed, and every winner that is reported is player 0.
pub run_commands-IsQuiet :
    (b : Battle) (cmds : List BattleCmd) → IsQuiet b → IsQuiet (run_commands b cmds)
unfolding run_commands
run_commands-IsQuiet b [] q = q
run_commands-IsQuiet b (cmd ∷ cmds) q =
    run_commands-IsQuiet (state_after b (process_command b cmd)) cmds
      (process_command-IsQuiet b cmd q)
