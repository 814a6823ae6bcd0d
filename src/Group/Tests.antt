-- ===== src/Group/Tests.antt =====
-- Concrete groups of numbers, each its own key.
use own_game_server.Prelude.{ℕ, ◌≡◌, refl, [], ◌∷◌}
use own_game_server.Assoc.{nat_eq}
use own_game_server.Group.{Group, GroupResult, add_member, remove_member}

abbrev self : ℕ → ℕ
self n = n

abbrev pair : Group ℕ
pair = record { group_id = 1; capacity = 2; members = 7 ∷ 8 ∷ [] }

ninth_refused : add_member self pair 9 ≡ (pair, GroupResult.full)
unfolding add_member
ninth_refused = refl

seven_leaves : remove_member self pair 7 ≡ (record pair { members = 8 ∷ [] }, GroupResult.ok)
unfolding remove_member
seven_leaves = refl
