-- ===== src/GameMap/Print.antt =====
-- business/GameLogic/GameMapIO.cpp: testPrintMap, as the codes of the characters that it writes. A tile
-- outside of the list of tiles is `none`.
use own_game_server.Prelude.{
  ℕ, zero, suc, ◌+◌, ◌*◌, ◌%◌, Option, some, List, [], ◌∷◌, ◌++◌, get_elem?, u32_mod,
}
use own_game_server.RuntimeData.{
  TileData, TileType, mountain, water, forest, ground_tile, q_mark, e_mark, black_bg, base, MapData,
}
use own_game_server.GameMap.{and_then}

unfoldable pub tile_char : TileType → ℕ
tile_char mountain = b'M'
tile_char water = b'W'
tile_char forest = b'F'
tile_char ground_tile = b'G'
tile_char q_mark = b'?'
tile_char e_mark = b'!'
tile_char black_bg = b' '
tile_char base = b'B'

-- The loop over a row, with the rounds that are left. The index has 32 bits.
unfoldable pub print_row : MapData → ℕ → ℕ → ℕ → Option (List ℕ)
unfolding tile_char
print_row m y zero x = some (10 ∷ [])
print_row m y (suc rounds) x =
    and_then (get_elem? m.tiles ((y * m.width + x) % u32_mod)) (λ (tile : TileData).
      and_then (print_row m y rounds (suc x))
        (λ (text : List ℕ). some (tile_char tile.type ∷ b' ' ∷ text)))

unfoldable pub print_rows : MapData → ℕ → ℕ → Option (List ℕ)
unfolding print_row
print_rows m zero y = some []
print_rows m (suc rounds) y = and_then (print_row m y m.width 0) (λ (row : List ℕ).
    and_then (print_rows m rounds (suc y)) (λ (text : List ℕ). some (row ++ text)))

unfoldable pub test_print_map : MapData → Option (List ℕ)
unfolding print_rows
test_print_map m = print_rows m m.height 0
