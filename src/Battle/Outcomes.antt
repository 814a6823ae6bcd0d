-- ===== src/Battle/Outcomes.antt =====
-- What Attack of business/GameLogic/GameCmdHandler.cpp leaves where no base is at stake.
use own_game_server.Prelude.{
  ℕ, ◌≡◌, ◌≤◌, ◌<◌, refl, ap, true, false, arith, u32_mod, sub32, lt→ltb, le→ltb,
}
use own_game_server.RuntimeData.{TileData, is_base}
use own_game_server.Battle.{
  Battle, touch_player, attack_won, attack_lost, fight, apply_attack, tile_at,
}
use own_game_server.Battle.Commands.{AreTiles, Writes}
use own_game_server.Battle.Attacks.{
  Holds, Holds-start, touch_player-Holds, left_over, Holds-eq, taken, won_units-Holds,
  won_owner-Holds, won_base-Holds, lost_units-Holds, lost_owner-kept, counter_attack-Holds,
}

attack_won-Holds :
    (b0 b : Battle) (i j : ℕ) (s d : TileData)
    → Holds b0 b i j s d
    → (k1 k2 : ℕ) → is_base d.type ≡ false
    → Holds b0
        (attack_won b k1 k2 i j)
        i
        j
        (record s { value = 1 })
        (taken s (record d { value = left_over d.value }))
unfolding attack_won
attack_won-Holds b0 b i j s d h k1 k2 plain =
    won_base-Holds b0 _ i j _ _
      (won_owner-Holds b0 _ i j _ _ (won_units-Holds b0 b i j s d h) k1 k2) k1 k2 plain

attack_lost-Holds :
    (b0 b : Battle) (i j : ℕ) (s d : TileData)
    → Holds b0 b i j s d
    → (k1 k2 : ℕ) → 0 < d.value
    → d.value < u32_mod
    → d.countered ≡ false
    → is_base s.type ≡ false
    → Holds b0
        (attack_lost b k1 k2 i j)
        i
        j
        (record s { value = 0; owner = 0 })
        (record d { countered = true })
unfolding attack_lost
attack_lost-Holds b0 b i j s d h k1 k2 units word fresh plain =
    lost_owner-kept b0 _ i j _ _
      (Holds-eq refl (ap (λ n. record d { countered = true; value = n }) whole)
        (lost_units-Holds b0 _ i j _ _ (counter_attack-Holds b0 b i j s d h k1 fresh plain)))
      k1 k2 units
  where
    whole : sub32 d.value 0 ≡ d.value
    whole = omega arith

fight-won :
    (b0 b : Battle) (i j : ℕ) (s d : TileData)
    → Holds b0 b i j s d
    → (k1 k2 : ℕ) → d.value < s.value
    → is_base d.type ≡ false
    → Holds b0
        (fight b k1 k2 i j)
        i
        j
        (record s { value = 1 })
        (taken s (record d { value = left_over d.value }))
unfolding fight
fight-won b0 b i j s d h k1 k2 more plain =
    rw (h.writes.at_first, h.writes.at_second, lt→ltb d.value s.value more, fight)
      (attack_won-Holds b0 b i j s d h k1 k2 plain)

fight-countered :
    (b0 b : Battle) (i j : ℕ) (s d : TileData)
    → Holds b0 b i j s d
    → (k1 k2 : ℕ) → s.value ≤ d.value
    → 0 < d.value
    → d.value < u32_mod
    → d.countered ≡ false
    → is_base s.type ≡ false
    → Holds b0
        (fight b k1 k2 i j)
        i
        j
        (record s { value = 0; owner = 0 })
        (record d { countered = true })
unfolding fight
fight-countered b0 b i j s d h k1 k2 less units word fresh plain =
    rw (h.writes.at_first, h.writes.at_second, le→ltb d.value s.value less, fight)
      (attack_lost-Holds b0 b i j s d h k1 k2 units word fresh plain)

module _ (b : Battle) (i j : ℕ) (there : AreTiles b i j) where
  touched :
      (k1 k2 : ℕ) → Holds b (touch_player k2 (touch_player k1 b)) i j (tile_at b i) (tile_at b j)
  touched k1 k2 = touch_player-Holds k2 (touch_player-Holds k1 (Holds-start b i j there))

  -- An attack of more units than the target has, on a tile that is no base: the attacker keeps
  -- 1 unit, and the target's units fall by 2, wrapping below 2, however many units attack.
  -- The target passes to the attacker's owner if its units are then not 0, and is nobody's
  -- otherwise. No other tile changes.
  pub apply_attack-won :
      (tile_at b j).value < (tile_at b i).value
      → is_base (tile_at b j).type ≡ false
      → Writes b
          (apply_attack b i j)
          i
          j
          (record (tile_at b i) { value = 1 })
          (taken (tile_at b i) (record (tile_at b j) { value = left_over (tile_at b j).value }))
  unfolding apply_attack
  apply_attack-won more plain =
      (fight-won b _ i j _ _ (touched (tile_at b i).owner (tile_at b j).owner) _ _ more
        plain).writes

  -- An attack of no more units than the target has, from a tile that is no base, on a tile with
  -- units (a 32-bit number of them) that has not countered yet: the attacker's tile loses all
  -- its units and its owner, the target is marked as having countered and loses no unit, and no
  -- other tile changes.
  pub apply_attack-countered :
      (tile_at b i).value ≤ (tile_at b j).value
      → 0 < (tile_at b j).value
      → (tile_at b j).value < u32_mod
      → (tile_at b j).countered ≡ false
      → is_base (tile_at b i).type ≡ false
      → Writes b
          (apply_attack b i j)
          i
          j
          (record (tile_at b i) { value = 0; owner = 0 })
          (record (tile_at b j) { countered = true })
  unfolding apply_attack
  apply_attack-countered less units word fresh plain =
      (fight-countered b _ i j _ _ (touched (tile_at b i).owner (tile_at b j).owner) _ _ less units
        word fresh plain).writes
