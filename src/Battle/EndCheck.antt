-- ===== src/Battle/EndCheck.antt =====
-- GameEndCheck of business/GameLogic/GameCmdHandler.cpp: the failure flags that it reads and sets.
use own_game_server.Prelude.{
  ℕ, ◌≡◌, refl, ◌∙◌, Bool, true, false, some, List, [], ◌∷◌, ◌++◌, arith, All, All-append,
  if◌then◌else◌, Option-cases, inl, inr,
}
use mathlib.Core.List.{append_assoc, append-nil}
use own_game_server.Assoc.{Assoc, lookup, insert, nat_eq}
use own_game_server.RuntimeData.{PlayerRuntimeState, TileData}
use own_game_server.Battle.{
  Battle, Check, check_player, check_players, game_end_check, player_at, put_player, touch_player,
  gain_resource, lose_resource, gain_base, lose_base, with_tiles,
}

abbrev pub NoneFailed : Assoc ℕ PlayerRuntimeState → Type 0
NoneFailed [] = Unit {0}
NoneFailed ((id, p) ∷ rest) = (p.failure ≡ false) × NoneFailed rest

check_player-NoneFailed :
    (id : ℕ) (p : PlayerRuntimeState) (c : Check)
    → p.failure ≡ false
    → check_player id p c ≡ record c { done = c.done ++ (id, p) ∷ [] }
unfolding check_player
check_player-NoneFailed id p c ok = ground arith

check_players-NoneFailed :
    (players : Assoc ℕ PlayerRuntimeState) (c : Check)
    → NoneFailed players
    → check_players players c ≡ record c { done = c.done ++ players }
unfolding check_players
check_players-NoneFailed [] c h = rw (append-nil c.done)
check_players-NoneFailed ((id, p) ∷ rest) c (ok, h) = rw (check_player-NoneFailed id p c ok) (
    check_players-NoneFailed rest (record c { done = c.done ++ (id, p) ∷ [] }) h
    ∙ rw (append_assoc c.done ((id, p) ∷ []) rest))

-- While no player is marked as failed, the check changes neither the players nor the tiles, and
-- calls the end-of-game callback with player 0.
pub game_end_check-NoneFailed :
    (b : Battle)
    → NoneFailed b.runtime.players
    → game_end_check b ≡ record b { winners = b.winners ++ 0 ∷ [] }
unfolding game_end_check
game_end_check-NoneFailed b h = rw (check_players-NoneFailed b.runtime.players _ h, game_end_check)

NoneFailed-lookup :
    (players : Assoc ℕ PlayerRuntimeState) (id : ℕ) (p : PlayerRuntimeState)
    → NoneFailed players
    → lookup id players ≡ some p
    → p.failure ≡ false
unfolding lookup
NoneFailed-lookup [] id p h e = cc
NoneFailed-lookup ((j, q) ∷ rest) id p (ok, h) e = ground (arith, NoneFailed-lookup rest id p h)

pub NoneFailed-insert :
    (players : Assoc ℕ PlayerRuntimeState) (id : ℕ) (p : PlayerRuntimeState)
    → p.failure ≡ false
    → NoneFailed players
    → NoneFailed (insert id p players)
unfolding insert
NoneFailed-insert [] id p ok h = (ok, tt)
NoneFailed-insert ((j, q) ∷ rest) id p ok h = ground (arith, NoneFailed-insert rest id p ok h.1)

-- No player is marked as failed, and only player 0 was reported.
pub record IsQuiet (b : Battle) : Type 0 where
  pub none_failed : NoneFailed b.runtime.players
  pub reports : All (λ w. w ≡ 0) b.winners

player_at-failure : (b : Battle) (id : ℕ) → IsQuiet b → (player_at b id).failure ≡ false
unfolding player_at
player_at-failure b id q = elim (Option-cases (lookup id b.runtime.players)) [
  | inl e ↦ rw (e, player_at)
  | inr (p, e) ↦ rw (e, player_at) (NoneFailed-lookup b.runtime.players id p q.none_failed e)
]

put_player-IsQuiet :
    (b : Battle) (id : ℕ) (p : PlayerRuntimeState)
    → p.failure ≡ false
    → IsQuiet b
    → IsQuiet (put_player id p b)
unfolding put_player
put_player-IsQuiet b id p ok q = record {
  none_failed = NoneFailed-insert b.runtime.players id p ok q.none_failed;
  reports = q.reports;
}

module _ (b : Battle) (id : ℕ) (q : IsQuiet b) where
  pub touch_player-IsQuiet : IsQuiet (touch_player id b)
  unfolding touch_player
  touch_player-IsQuiet = put_player-IsQuiet b id _ (player_at-failure b id q) q

  pub gain_resource-IsQuiet : IsQuiet (gain_resource id b)
  unfolding gain_resource
  gain_resource-IsQuiet = put_player-IsQuiet b id _ (player_at-failure b id q) q

  pub lose_resource-IsQuiet : IsQuiet (lose_resource id b)
  unfolding lose_resource
  lose_resource-IsQuiet = put_player-IsQuiet b id _ (player_at-failure b id q) q

  pub gain_base-IsQuiet : IsQuiet (gain_base id b)
  unfolding gain_base
  gain_base-IsQuiet = put_player-IsQuiet b id _ (player_at-failure b id q) q

  pub lose_base-IsQuiet : IsQuiet (lose_base id b)
  unfolding lose_base
  lose_base-IsQuiet = put_player-IsQuiet b id _ (player_at-failure b id q) q

pub game_end_check-IsQuiet : (b : Battle) → IsQuiet b → IsQuiet (game_end_check b)
game_end_check-IsQuiet b q = rw (game_end_check-NoneFailed b q.none_failed) (record {
  none_failed = q.none_failed;
  reports = All-append (λ w. w ≡ 0) b.winners (0 ∷ []) q.reports (refl, tt);
})

pub with_tiles-IsQuiet :
    (b : Battle) (tiles : List TileData) → IsQuiet b → IsQuiet (with_tiles b tiles)
with_tiles-IsQuiet b tiles q = record { none_failed = q.none_failed; reports = q.reports }

pub if-IsQuiet : (c : Bool) (b d : Battle) → IsQuiet b → IsQuiet d → IsQuiet (if c then b else d)
if-IsQuiet true b d p q = p
if-IsQuiet false b d p q = q

pub ruleset quiet_rules = (
  touch_player-IsQuiet, gain_resource-IsQuiet, lose_resource-IsQuiet, gain_base-IsQuiet,
  lose_base-IsQuiet, game_end_check-IsQuiet, with_tiles-IsQuiet, if-IsQuiet,
)
