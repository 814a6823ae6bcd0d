-- ===== src/Group.antt =====
-- business/Group/Group.hpp: the bounded group of members, found by a key that is extracted from
-- each member. `std::find_if` returns the first member whose key fits.
pub mod Members
pub mod Contract
mod Tests
use own_game_server.Prelude.{
  ℕ, Bool, true, false, Option, none, some, List, [], ◌∷◌, ◌++◌, arith, ltb, leb, if◌then◌else◌,
  length,
}
use own_game_server.Assoc.{Eq, ◌==◌}

pub data GroupResult : Type 0 where
  ok full already_in_group not_in_group invalid_capacity : GroupResult

pub record Group {ℓ} (M : Type ℓ) : Type ℓ where
  pub group_id : ℕ
  pub capacity : ℕ
  pub members : List M

module _ {ℓ κ} {M : Type ℓ} {K : Type κ} ⦃e : Eq K⦄ (key : M → K) where
  unfoldable pub find_in : K → List M → Option M
  find_in k [] = none
  find_in k (m ∷ ms) = if key m == k then some m else find_in k ms

  -- FindMember: `nullptr` is `none`.
  unfoldable pub find_member : Group M → K → Option M
  unfolding find_in
  find_member g k = find_in k g.members

  unfoldable pub contains : Group M → K → Bool
  unfolding find_member
  contains g k = elim (find_member g k) [ none ↦ false | some m ↦ true ]

  unfoldable pub add_member : Group M → M → Group M × GroupResult
  unfolding contains
  add_member g m =
      if contains g (key m)
      then (g, GroupResult.already_in_group)
      else if leb g.capacity (length g.members)
      then (g, GroupResult.full)
      else (record g { members = g.members ++ (m ∷ []) }, GroupResult.ok)

  -- `members.erase(it)` at the first member whose key fits.
  unfoldable pub erase_first : K → List M → List M
  erase_first k [] = []
  erase_first k (m ∷ ms) = if key m == k then ms else m ∷ erase_first k ms

  unfoldable pub remove_member : Group M → K → Group M × GroupResult
  unfolding find_in erase_first
  remove_member g k = elim (find_in k g.members) [
    | none ↦ (g, GroupResult.not_in_group)
    | some m ↦ (record g { members = erase_first k g.members }, GroupResult.ok)
  ]

unfoldable pub set_capacity {ℓ} : {M : Type ℓ} → Group M → ℕ → Group M × GroupResult
set_capacity g new_capacity =
    if ltb new_capacity (length g.members)
    then (g, GroupResult.invalid_capacity)
    else (record g { capacity = new_capacity }, GroupResult.ok)

unfoldable pub clear_members {ℓ} : {M : Type ℓ} → Group M → Group M
clear_members g = record g { members = [] }

abbrev pub get_member_count {ℓ} : {M : Type ℓ} → Group M → ℕ
get_member_count g = length g.members
