-- ===== src/Battle.antt =====
-- business/GameLogic/GameCmdHandler: the commands of a match. A statement of the source that
-- writes a tile or a player is one function of the state; `winners` lists the calls of the
-- end-of-game callback. `runtime_` is never null after the constructor, and the callback is set.
pub mod EndCheck
pub mod Reports
pub mod Commands
pub mod Attacks
pub mod Outcomes
pub mod Handler
mod Tests
use own_game_server.Prelude.{
  ℕ, zero, suc, ◌+◌, ◌-◌, ◌^◌, ◌%◌, Bool, true, false, not, ◌&&◌, Option, none, some, List, [], ◌∷◌,
  ◌++◌, add32, sub32, u32_mod, u64_mod, nat_beq, ltb, if◌then◌else◌, length, get_elem?, get_or, set,
  map,
}
use own_game_server.Assoc.{Assoc, lookup, insert, nat_eq}
use own_game_server.RuntimeData.{
  PlayerRuntimeState, blank_state, TileType, black_bg, is_base, TileData, MapData, RuntimeData,
  BattleCmdType, move, attack, grow, BattleCmd,
}

pub record Battle : Type 0 where
  pub runtime : RuntimeData
  pub winners : List ℕ

-- An `int32_t` used as an index: it is sign-extended to `size_t`.
abbrev pub index_of : ℕ → ℕ
index_of p = if ltb p (2 ^ 31) then p else p + (u64_mod - u32_mod)

abbrev pub no_tile : TileData
no_tile = record {
  tile_id = 0;
  owner = 0;
  value = 0;
  type = black_bg;
  round_type = 0;
  countered = false;
  acted = false;
  is_disconnected = false;
}

abbrev pub tiles_of : Battle → List TileData
tiles_of b = b.runtime.map.tiles

abbrev pub tile_at : Battle → ℕ → TileData
tile_at b i = get_or (tiles_of b) i no_tile

abbrev pub with_tiles : Battle → List TileData → Battle
with_tiles b tiles = record b {
  runtime = record b.runtime { map = record b.runtime.map { tiles = tiles } };
}

abbrev pub put_tile : ℕ → TileData → Battle → Battle
put_tile i t b = with_tiles b (set (tiles_of b) i t)

-- `players[id]` as a value.
unfoldable pub player_at : Battle → ℕ → PlayerRuntimeState
player_at b id = elim (lookup id b.runtime.players) [ none ↦ blank_state | some p ↦ p ]

abbrev pub with_players : Battle → Assoc ℕ PlayerRuntimeState → Battle
with_players b players = record b { runtime = record b.runtime { players = players } }

unfoldable pub put_player : ℕ → PlayerRuntimeState → Battle → Battle
put_player id p b = with_players b (insert id p b.runtime.players)

-- `players[id]` makes an entry where there is none.
unfoldable pub touch_player : ℕ → Battle → Battle
touch_player id b = put_player id (player_at b id) b

unfoldable pub gain_resource : ℕ → Battle → Battle
gain_resource id b =
    put_player id (record (player_at b id) { resources = add32 (player_at b id).resources 1 }) b

unfoldable pub lose_resource : ℕ → Battle → Battle
lose_resource id b =
    put_player id (record (player_at b id) { resources = sub32 (player_at b id).resources 1 }) b

unfoldable pub gain_base : ℕ → Battle → Battle
gain_base id b =
    put_player id (record (player_at b id) { base_count = add32 (player_at b id).base_count 1 }) b

unfoldable pub lose_base : ℕ → Battle → Battle
lose_base id b =
    put_player id (record (player_at b id) { base_count = sub32 (player_at b id).base_count 1 }) b

-- ClearTilesOfPlayer
unfoldable pub clear_tiles : ℕ → List TileData → List TileData
clear_tiles id [] = []
clear_tiles id (t ∷ ts) =
    (if nat_beq t.owner id
      then record t { owner = 0; value = 0; countered = false; acted = false }
      else t)
    ∷ clear_tiles id ts

-- The variables of the loop of GameEndCheck.
pub record Check : Type 0 where
  pub done : Assoc ℕ PlayerRuntimeState
  pub tiles : List TileData
  pub single : Bool
  pub last : ℕ

-- One round of the loop.
unfoldable pub check_player : ℕ → PlayerRuntimeState → Check → Check
unfolding clear_tiles
check_player id p c =
    if p.failure
    then (let single : Bool =
          if not (nat_beq c.last 0) && not (nat_beq c.last id) then false else c.single in
        if nat_beq p.base_count 0
        then record {
          done = c.done ++ (id, record p { failure = true }) ∷ [];
          tiles = clear_tiles id c.tiles;
          single = single;
          last = id;
        }
        else record { done = c.done ++ (id, p) ∷ []; tiles = c.tiles; single = single; last = id })
    else record c { done = c.done ++ (id, p) ∷ [] }

unfoldable pub check_players : Assoc ℕ PlayerRuntimeState → Check → Check
check_players [] c = c
check_players ((id, p) ∷ rest) c = check_players rest (check_player id p c)

unfoldable pub game_end_check : Battle → Battle
game_end_check b =
    let c : Check =
      check_players b.runtime.players
        (record { done = []; tiles = tiles_of b; single = true; last = 0 }) in
    let b' : Battle = with_players (with_tiles b c.tiles) c.done in
    if c.single then record b' { winners = b'.winners ++ c.last ∷ [] } else b'

-- ValidateCmd on the tiles that `at` finds; `none` is the exception of `at`.
unfoldable pub check_cmd : BattleCmdType → BattleCmd → TileData → TileData → Bool
check_cmd move cmd src dst =
    not (nat_beq cmd.param1 cmd.param2)
    && nat_beq src.owner cmd.player_id
    && nat_beq dst.owner cmd.player_id
    && ltb 1 src.value
check_cmd attack cmd src dst =
    not (nat_beq cmd.param1 cmd.param2)
    && nat_beq src.owner cmd.player_id
    && not (nat_beq dst.owner cmd.player_id)
    && ltb 1 src.value
check_cmd grow cmd src dst = nat_beq cmd.player_id src.owner && ltb 0 src.value

abbrev pub both : Option TileData → Option TileData → Option (TileData × TileData)
both (some s) (some d) = some (s, d)
both _ _ = none

-- The tiles that a command names: one for Grow, two for the others.
unfoldable pub named_tiles :
    BattleCmdType → List TileData → BattleCmd → Option (TileData × TileData)
named_tiles grow tiles cmd =
    both (get_elem? tiles (index_of cmd.param1)) (get_elem? tiles (index_of cmd.param1))
named_tiles _ tiles cmd =
    both (get_elem? tiles (index_of cmd.param1)) (get_elem? tiles (index_of cmd.param2))

unfoldable pub validate_cmd : RuntimeData → BattleCmd → Option Bool
unfolding named_tiles check_cmd
validate_cmd rt cmd = elim (named_tiles cmd.type rt.map.tiles cmd) [
  | none ↦ none
  | some (s, d) ↦ some (check_cmd cmd.type cmd s d)
]

-- The branch Move.
unfoldable pub apply_move : Battle → ℕ → ℕ → ℕ → Battle
apply_move b player p1 p2 =
    let src : TileData = record (tile_at b p1) { value = 1; acted = true } in
    let b1 : Battle = put_tile p1 src b in
    let dst : TileData = record (tile_at b1 p2) {
      owner = src.owner;
      value = add32 (tile_at b1 p2).value (sub32 src.value 1);
    } in
    let b2 : Battle = gain_resource player (put_tile p2 dst b1) in
    if is_base dst.type then gain_base player b2 else b2

-- The branch Attack where the attacker is stronger; `k1` and `k2` are the owners at its start.
-- First the units of the two tiles: the attacker's are reset before they are subtracted.
unfoldable pub won_units : Battle → ℕ → ℕ → Battle
won_units b p1 p2 =
    let b1 : Battle = put_tile p1 (record (tile_at b p1) { value = 1 }) b in
    put_tile p2
      (record (tile_at b1 p2) {
        value = sub32 (sub32 (tile_at b1 p2).value (tile_at b1 p1).value) 1;
      })
      b1

-- Then the owner of the tile and the resources.
unfoldable pub won_owner : Battle → ℕ → ℕ → ℕ → ℕ → Battle
won_owner b k1 k2 p1 p2 =
    if ltb 0 (tile_at b p2).value
    then lose_resource k2
        (gain_resource k1 (put_tile p2 (record (tile_at b p2) { owner = (tile_at b p1).owner }) b))
    else lose_resource k2 (put_tile p2 (record (tile_at b p2) { owner = 0 }) b)

-- Then the bases.
unfoldable pub won_base : Battle → ℕ → ℕ → ℕ → ℕ → Battle
won_base b k1 k2 p1 p2 =
    if is_base (tile_at b p2).type
    then game_end_check (
        lose_base k2
          (if nat_beq (tile_at b p2).owner (tile_at b p1).owner then gain_base k1 b else b))
    else b

unfoldable pub attack_won : Battle → ℕ → ℕ → ℕ → ℕ → Battle
attack_won b k1 k2 p1 p2 = won_base (won_owner (won_units b p1 p2) k1 k2 p1 p2) k1 k2 p1 p2

-- The branch Attack otherwise: first the counter-attack, then the damage.
unfoldable pub counter_units : Battle → ℕ → ℕ → ℕ → Battle
counter_units b k1 p1 p2 =
    let b1 : Battle = put_tile p2 (record (tile_at b p2) { countered = true }) b in
    lose_resource k1 (put_tile p1 (record (tile_at b1 p1) { value = 0; owner = 0 }) b1)

unfoldable pub counter_base : Battle → ℕ → ℕ → Battle
counter_base b k1 p1 = if is_base (tile_at b p1).type then game_end_check (lose_base k1 b) else b

unfoldable pub counter_attack : Battle → ℕ → ℕ → ℕ → Battle
counter_attack b k1 p1 p2 =
    if not (tile_at b p2).countered
    then counter_base (counter_units b k1 p1 p2) k1 p1
    else put_tile p1 (record (tile_at b p1) { acted = true }) b

-- The damage: what is left of the attacker's units is subtracted.
unfoldable pub lost_units : Battle → ℕ → ℕ → Battle
lost_units b p1 p2 =
    put_tile p2 (record (tile_at b p2) { value = sub32 (tile_at b p2).value (tile_at b p1).value })
      b

unfoldable pub lost_owner : Battle → ℕ → ℕ → ℕ → Battle
lost_owner b k1 k2 p2 =
    if nat_beq (tile_at b p2).value 0
    then (let b' : Battle =
          lose_resource k2
            (lose_resource k1 (put_tile p2 (record (tile_at b p2) { owner = 0 }) b)) in
        if is_base (tile_at b' p2).type then game_end_check (lose_base k2 b') else b')
    else b

unfoldable pub attack_lost : Battle → ℕ → ℕ → ℕ → ℕ → Battle
attack_lost b k1 k2 p1 p2 = lost_owner (lost_units (counter_attack b k1 p1 p2) p1 p2) k1 k2 p2

-- The test of the two strengths.
unfoldable pub fight : Battle → ℕ → ℕ → ℕ → ℕ → Battle
fight b k1 k2 p1 p2 =
    if ltb (tile_at b p2).value (tile_at b p1).value
    then attack_won b k1 k2 p1 p2
    else attack_lost b k1 k2 p1 p2

unfoldable pub apply_attack : Battle → ℕ → ℕ → Battle
apply_attack b p1 p2 =
    let k1 : ℕ = (tile_at b p1).owner in
    let k2 : ℕ = (tile_at b p2).owner in fight (touch_player k2 (touch_player k1 b)) k1 k2 p1 p2

-- The branch Grow.
unfoldable pub apply_grow : Battle → ℕ → ℕ → Battle
apply_grow b p1 amount =
    put_tile p1 (record (tile_at b p1) { value = add32 (tile_at b p1).value amount }) b

pub data CmdError : Type 0 where
  out_of_range invalid_command : CmdError

pub data Applied : Type 0 where
  applied : Battle → Applied
  threw : CmdError → Applied

unfoldable pub apply_cmd : BattleCmdType → Battle → BattleCmd → Battle
apply_cmd move b cmd =
    apply_move b (cmd.player_id % u32_mod) (index_of cmd.param1) (index_of cmd.param2)
apply_cmd attack b cmd = apply_attack b (index_of cmd.param1) (index_of cmd.param2)
apply_cmd grow b cmd = apply_grow b (index_of cmd.param1) cmd.param2

unfoldable pub process_command : Battle → BattleCmd → Applied
process_command b cmd = elim (validate_cmd b.runtime cmd) [
  | none ↦ threw out_of_range
  | some false ↦ threw invalid_command
  | some true ↦ applied (apply_cmd cmd.type b cmd)
]
