-- ===== src/Battle/Attacks.antt =====
-- What the branches of Attack in business/GameLogic/GameCmdHandler.cpp do to the two tiles.
use own_game_server.Prelude.{
  ℕ, ◌≡◌, ◌<◌, refl, sym, ap, ◌∙◌, true, false, arith, nat_beq, ltb, if◌then◌else◌, Bool-cases, inl,
  inr, sub32, length-set, get_or-set_self, get_or-set_ne,
}
use mathlib.Core.Path.{ap₂, subst₂}
use own_game_server.RuntimeData.{TileData, is_base}
use own_game_server.Battle.{
  Battle, put_tile, put_player, touch_player, gain_resource, lose_resource, won_base, won_owner,
  won_units, lost_owner, lost_units, counter_attack, counter_units, counter_base, tile_at, tiles_of,
  no_tile,
}
use own_game_server.Battle.Commands.{AreTiles, Writes}

-- `b` has grown out of `b0` by writes to the tiles `i` and `j`, which now are `s` and `d`.
pub record Holds (b0 b : Battle) (i j : ℕ) (s d : TileData) : Type 0 where
  pub writes : Writes b0 b i j s d
  pub there : AreTiles b i j

pub Holds-start :
    (b : Battle) (i j : ℕ) → AreTiles b i j → Holds b b i j (tile_at b i) (tile_at b j)
Holds-start b i j t = record {
  writes = record { at_first = refl; at_second = refl; elsewhere = λ k hi hj. refl };
  there = t;
}

module _ {b0 b : Battle} {i j : ℕ} {s d : TileData} (h : Holds b0 b i j s d) where
  put_first : (t : TileData) → Holds b0 (put_tile i t b) i j t d
  put_first t = record {
    writes = record {
      at_first = get_or-set_self (tiles_of b) i t no_tile h.there.first;
      at_second = get_or-set_ne (tiles_of b) i j t no_tile h.there.differ ∙ h.writes.at_second;
      elsewhere =
          λ k hi hj. get_or-set_ne (tiles_of b) i k t no_tile hi ∙ h.writes.elsewhere k hi hj;
    };
    there = record {
      first = omega (arith, length-set (tiles_of b) i t, h.there.first);
      second = omega (arith, length-set (tiles_of b) i t, h.there.second);
      differ = h.there.differ;
    };
  }

  put_second : (t : TileData) → Holds b0 (put_tile j t b) i j s t
  put_second t = record {
    writes = record {
      at_first =
          get_or-set_ne (tiles_of b) j i t no_tile (λ e. h.there.differ (sym e))
          ∙ h.writes.at_first;
      at_second = get_or-set_self (tiles_of b) j t no_tile h.there.second;
      elsewhere =
          λ k hi hj. get_or-set_ne (tiles_of b) j k t no_tile hj ∙ h.writes.elsewhere k hi hj;
    };
    there = record {
      first = omega (arith, length-set (tiles_of b) j t, h.there.first);
      second = omega (arith, length-set (tiles_of b) j t, h.there.second);
      differ = h.there.differ;
    };
  }

  -- The players are kept apart from the tiles.
  gain_resource-Holds : (k : ℕ) → Holds b0 (gain_resource k b) i j s d
  unfolding gain_resource put_player
  gain_resource-Holds k = record {
    writes = record {
      at_first = h.writes.at_first;
      at_second = h.writes.at_second;
      elsewhere = h.writes.elsewhere;
    };
    there = record { first = h.there.first; second = h.there.second; differ = h.there.differ };
  }

  lose_resource-Holds : (k : ℕ) → Holds b0 (lose_resource k b) i j s d
  unfolding lose_resource put_player
  lose_resource-Holds k = record {
    writes = record {
      at_first = h.writes.at_first;
      at_second = h.writes.at_second;
      elsewhere = h.writes.elsewhere;
    };
    there = record { first = h.there.first; second = h.there.second; differ = h.there.differ };
  }

pub touch_player-Holds :
    {b0 b : Battle} {i j : ℕ} {s d : TileData} (k : ℕ)
    → Holds b0 b i j s d
    → Holds b0 (touch_player k b) i j s d
unfolding touch_player put_player
touch_player-Holds k h = record {
  writes = record {
    at_first = h.writes.at_first;
    at_second = h.writes.at_second;
    elsewhere = h.writes.elsewhere;
  };
  there = record { first = h.there.first; second = h.there.second; differ = h.there.differ };
}

-- The units that a won attack leaves on a tile of `v` units.
abbrev pub left_over : ℕ → ℕ
left_over v = sub32 (sub32 v 1) 1

pub Holds-eq :
    {b0 b : Battle} {i j : ℕ} {s d s' d' : TileData}
    → s ≡ s'
    → d ≡ d'
    → Holds b0 b i j s d
    → Holds b0 b i j s' d'
Holds-eq {b0} {b} {i} {j} p q h = subst₂ (λ s d. Holds b0 b i j s d) p q h

-- The tile `d` after an attack from the tile `s`.
abbrev struck : TileData → TileData → TileData
struck s d = record d { value = sub32 (sub32 d.value s.value) 1 }

abbrev pub taken : TileData → TileData → TileData
taken s d = record d { owner = if ltb 0 d.value then s.owner else 0 }

taken-some : (s d : TileData) → ltb 0 d.value ≡ true → record d { owner = s.owner } ≡ taken s d
taken-some s d e = ground arith

taken-none : (s d : TileData) → ltb 0 d.value ≡ false → record d { owner = 0 } ≡ taken s d
taken-none s d e = ground arith

module _ (b0 b : Battle) (i j : ℕ) (s d : TileData) (h : Holds b0 b i j s d) where
  pub won_units-Holds :
      Holds b0
        (won_units b i j)
        i
        j
        (record s { value = 1 })
        (record d { value = left_over d.value })
  unfolding won_units
  won_units-Holds =
      Holds-eq (ap (λ (t : TileData). record t { value = 1 }) h.writes.at_first)
        (ap₂ (λ (s d : TileData). struck s d) h1.writes.at_first h1.writes.at_second)
        (put_second h1 _)
    where
      h1 :
          Holds b0
            (put_tile i (record (tile_at b i) { value = 1 }) b)
            i
            j
            (record (tile_at b i) { value = 1 })
            d
      h1 = put_first h (record (tile_at b i) { value = 1 })

  pub won_owner-Holds : (k1 k2 : ℕ) → Holds b0 (won_owner b k1 k2 i j) i j s (taken s d)
  unfolding won_owner
  won_owner-Holds k1 k2 = elim (Bool-cases (ltb 0 (tile_at b j).value)) [
    | inl left ↦
        rw (left, won_owner)
          (Holds-eq refl
            (ap₂ (λ (s d : TileData). record d { owner = s.owner }) h.writes.at_first
                h.writes.at_second
              ∙ taken-some s d (rw h.writes.at_second at left))
            (lose_resource-Holds
              (gain_resource-Holds
                (put_second h (record (tile_at b j) { owner = (tile_at b i).owner })) k1)
              k2))
    | inr none_left ↦
        rw (none_left, won_owner)
          (Holds-eq refl
            (ap (λ (d : TileData). record d { owner = 0 }) h.writes.at_second
              ∙ taken-none s d (rw h.writes.at_second at none_left))
            (lose_resource-Holds (put_second h (record (tile_at b j) { owner = 0 })) k2))
  ]

  pub won_base-Holds :
      (k1 k2 : ℕ) → is_base d.type ≡ false → Holds b0 (won_base b k1 k2 i j) i j s d
  unfolding won_base
  won_base-Holds k1 k2 plain = rw (h.writes.at_second, plain, won_base) h

  counter_units-Holds :
      (k1 : ℕ)
      → Holds b0
          (counter_units b k1 i j)
          i
          j
          (record s { value = 0; owner = 0 })
          (record d { countered = true })
  unfolding counter_units
  counter_units-Holds k1 =
      lose_resource-Holds
        (Holds-eq (ap (λ (t : TileData). record t { value = 0; owner = 0 }) h1.writes.at_first)
          (ap (λ (t : TileData). record t { countered = true }) h.writes.at_second)
          (put_first h1 _))
        k1
    where
      h1 :
          Holds b0
            (put_tile j (record (tile_at b j) { countered = true }) b)
            i
            j
            s
            (record (tile_at b j) { countered = true })
      h1 = put_second h (record (tile_at b j) { countered = true })

  counter_base-Holds : (k1 : ℕ) → is_base s.type ≡ false → Holds b0 (counter_base b k1 i) i j s d
  unfolding counter_base
  counter_base-Holds k1 plain = rw (h.writes.at_first, plain, counter_base) h

  pub lost_units-Holds :
      Holds b0 (lost_units b i j) i j s (record d { value = sub32 d.value s.value })
  unfolding lost_units
  lost_units-Holds =
      Holds-eq refl
        (ap₂ (λ (s d : TileData). record d { value = sub32 d.value s.value }) h.writes.at_first
          h.writes.at_second)
        (put_second h _)

  pub lost_owner-kept : (k1 k2 : ℕ) → 0 < d.value → Holds b0 (lost_owner b k1 k2 j) i j s d
  unfolding lost_owner
  lost_owner-kept k1 k2 pos = rw (h.writes.at_second, nonzero d.value pos, lost_owner) h
    where
      nonzero : (v : ℕ) → 0 < v → nat_beq v 0 ≡ false
      nonzero v h = ground arith

-- The attack after the counter-attack, in the state that it leaves.
pub counter_attack-Holds :
    (b0 b : Battle) (i j : ℕ) (s d : TileData)
    → Holds b0 b i j s d
    → (k1 : ℕ) → d.countered ≡ false
    → is_base s.type ≡ false
    → Holds b0
        (counter_attack b k1 i j)
        i
        j
        (record s { value = 0; owner = 0 })
        (record d { countered = true })
unfolding counter_attack
counter_attack-Holds b0 b i j s d h k1 fresh plain =
    rw (open_first, counter_attack)
      (counter_base-Holds b0 (counter_units b k1 i j) i j (record s { value = 0; owner = 0 })
        (record d { countered = true }) (counter_units-Holds b0 b i j s d h k1) k1 plain)
  where
    open_first : (tile_at b j).countered ≡ false
    open_first = ap (λ (t : TileData). t.countered) h.writes.at_second ∙ fresh
