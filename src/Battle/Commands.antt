-- ===== src/Battle/Commands.antt =====
-- What Move, Attack and Grow of business/GameLogic/GameCmdHandler.cpp do to the tiles.
use own_game_server.Prelude.{
  ℕ, ◌%◌, ◌≡◌, ◌≢◌, ◌<◌, refl, sym, ap, ◌∙◌, true, Option, none, some, List, arith, u32_mod, add32,
  length, length-set, get_elem?, get_or, set, get_or-set_self, get_or-set_ne,
}
use own_game_server.RuntimeData.{TileData, BattleCmd, BattleCmdType, move, attack, grow}
use own_game_server.Battle.{
  Battle, put_tile, put_player, gain_resource, both, named_tiles, gain_base, apply_move, index_of,
  tile_at, tiles_of, no_tile,
}

-- The two tiles that a command names are there, and are two.
pub record AreTiles (b : Battle) (i j : ℕ) : Type 0 where
  pub first : i < length (tiles_of b)
  pub second : j < length (tiles_of b)
  pub differ : i ≢ j

both_lem :
    (p q : Option TileData) (s d : TileData) → both p q ≡ some (s, d) → (p ≡ some s) × (q ≡ some d)
both_lem none q s d e = cc
both_lem (some a) none s d e = cc
both_lem (some a) (some c) s d e = ground arith

index_of-injective : (p q : ℕ) → index_of p ≡ index_of q → p ≡ q
index_of-injective p q e = ground arith

-- What a validated command says of its tiles.
pub named_lem :
    (b : Battle) (cmd : BattleCmd) (s d : TileData)
    → cmd.type ≢ grow
    → named_tiles cmd.type (tiles_of b) cmd ≡ some (s, d)
    → (get_elem? (tiles_of b) (index_of cmd.param1) ≡ some s)
      × (get_elem? (tiles_of b) (index_of cmd.param2) ≡ some d)
unfolding named_tiles
named_lem b cmd s d n e = go cmd.type n e
  where
    go :
        (t : BattleCmdType)
        → t ≢ grow
        → named_tiles t (tiles_of b) cmd ≡ some (s, d)
        → (get_elem? (tiles_of b) (index_of cmd.param1) ≡ some s)
          × (get_elem? (tiles_of b) (index_of cmd.param2) ≡ some d)
    go grow n e = absurd (n refl)
    go move n e = both_lem _ _ s d e
    go attack n e = both_lem _ _ s d e

-- Reading after two writes at different places.
two_writes :
    (xs : List TileData) (i j : ℕ) (s d : TileData)
    → i < length xs
    → j < length xs
    → i ≢ j
    → (get_or (set (set xs i s) j d) i no_tile ≡ s)
      × (get_or (set (set xs i s) j d) j no_tile ≡ d)
      × ((k : ℕ) → i ≢ k → j ≢ k → get_or (set (set xs i s) j d) k no_tile ≡ get_or xs k no_tile)
two_writes xs i j s d hi hj n = (
  get_or-set_ne (set xs i s) j i d no_tile (λ e. n (sym e)) ∙ get_or-set_self xs i s no_tile hi,
  get_or-set_self (set xs i s) j d no_tile (omega (arith, length-set xs i s)),
  λ k hik hjk. get_or-set_ne (set xs i s) j k d no_tile hjk ∙ get_or-set_ne xs i k s no_tile hik,
)

-- The tiles of `b'` are those of `b` with the tiles `i` and `j` written.
pub record Writes (b b' : Battle) (i j : ℕ) (s d : TileData) : Type 0 where
  pub at_first : tile_at b' i ≡ s
  pub at_second : tile_at b' j ≡ d
  pub elsewhere : (k : ℕ) → i ≢ k → j ≢ k → tile_at b' k ≡ tile_at b k

Writes-of :
    (b b' : Battle) (i j : ℕ) (s d : TileData)
    → AreTiles b i j
    → tiles_of b' ≡ set (set (tiles_of b) i s) j d
    → Writes b b' i j s d
Writes-of b b' i j s d t e =
    let (p, q, r) = two_writes (tiles_of b) i j s d t.first t.second t.differ in
    record { at_first = rw e p; at_second = rw e q; elsewhere = λ k hi hj. rw e (r k hi hj) }

-- The second tile is read before it is written, and the first write is elsewhere.
read_second :
    (b : Battle) (i j : ℕ) (s : TileData)
    → AreTiles b i j
    → tile_at (put_tile i s b) j ≡ tile_at b j
read_second b i j s t = get_or-set_ne (tiles_of b) i j s no_tile t.differ

tiles-apply_move :
    (b : Battle) (player i j : ℕ)
    → tiles_of (apply_move b player i j) ≡ (
        let b1 : Battle = put_tile i (record (tile_at b i) { value = 1; acted = true }) b in
        set (tiles_of b1) j (record (tile_at b1 j) {
          owner = (tile_at b i).owner;
          value = add32 (tile_at b1 j).value 0;
        }))
unfolding apply_move gain_resource gain_base put_player
tiles-apply_move b player i j = ground arith

-- Move leaves one unit on the tile it starts from and gives the other tile its owner but none of
-- the units that left; no other tile changes.
pub apply_move-Writes :
    (b : Battle) (player i j : ℕ)
    → AreTiles b i j
    → Writes b
        (apply_move b player i j)
        i
        j
        (record (tile_at b i) { value = 1; acted = true })
        (record (tile_at b j) {
          owner = (tile_at b i).owner;
          value = (tile_at b j).value % u32_mod;
        })
apply_move-Writes b player i j t = Writes-of b _ i j _ _ t (
    tiles-apply_move b player i j
    ∙ rw (read_second b i j (record (tile_at b i) { value = 1; acted = true }) t) (
        ap
          (λ (v : ℕ).
            set (set (tiles_of b) i (record (tile_at b i) { value = 1; acted = true })) j
              (record (tile_at b j) { owner = (tile_at b i).owner; value = v }))
          (plus_zero (tile_at b j).value)))
  where
    plus_zero : (v : ℕ) → add32 v 0 ≡ v % u32_mod
    plus_zero v = omega arith
