-- ===== src/Group/Contract.antt =====
-- The contract of business/Group/Group.hpp: its well-formedness, and the answers of its operations.
use own_game_server.Prelude.{
  ℕ, suc, ◌≤◌, ◌<◌, ◌≡◌, ◌≢◌, ◌⊎◌, inl, inr, none, some, List, [], ◌∷◌, ◌++◌, arith, length,
  length-append, Option-cases, dec_lt,
}
use own_game_server.Assoc.{Eq}
use own_game_server.Group.{
  Group, GroupResult, find_in, find_member, add_member, remove_member, set_capacity, clear_members,
}
use own_game_server.Group.Members.{
  Distinct, find_in-append_self, find_in-append_ne, find_in-erase_ne, find_in-erase_self,
  Distinct-append, Distinct-erase, length-erase_first-le, length-erase_first,
}

module _ {ℓ κ} {M : Type ℓ} {K : Type κ} ⦃e : Eq K⦄ (key : M → K) where
  pub record IsWellFormed (g : Group M) : Type ℓ where
    pub distinct : Distinct key g.members
    pub bounded : length g.members ≤ g.capacity

  -- The operations that change a group.
  pub data Op : Type (ℓ ⊔ κ) where
    add : M → Op
    remove : K → Op
    resize : ℕ → Op
    clear : Op

  unfoldable pub step : Group M → Op → Group M
  unfolding add_member remove_member set_capacity clear_members
  step g (add m) = (add_member key g m).0
  step g (remove k) = (remove_member key g k).0
  step g (resize n) = (set_capacity g n).0
  step g clear = clear_members g

  unfoldable pub run : Group M → List Op → Group M
  unfolding step
  run g [] = g
  run g (o ∷ os) = run (step g o) os

  pub add_member-IsWellFormed :
      (g : Group M) (m : M) → IsWellFormed g → IsWellFormed (add_member key g m).0
  unfolding add_member
  add_member-IsWellFormed g m v =
      ground (arith, Distinct-append key m g.members, length-append g.members (m ∷ []))

  pub remove_member-IsWellFormed :
      (g : Group M) (k : K) → IsWellFormed g → IsWellFormed (remove_member key g k).0
  unfolding remove_member
  remove_member-IsWellFormed g k v =
      ground (arith, Distinct-erase key k g.members, length-erase_first-le key k g.members)

  pub set_capacity-IsWellFormed :
      (g : Group M) (n : ℕ) → IsWellFormed g → IsWellFormed (set_capacity g n).0
  unfolding set_capacity
  set_capacity-IsWellFormed g n v = ground arith

  pub step-IsWellFormed : (g : Group M) (o : Op) → IsWellFormed g → IsWellFormed (step g o)
  unfolding step
  step-IsWellFormed g (add m) v = add_member-IsWellFormed g m v
  step-IsWellFormed g (remove k) v = remove_member-IsWellFormed g k v
  step-IsWellFormed g (resize n) v = set_capacity-IsWellFormed g n v
  step-IsWellFormed g clear v =
      unfold clear_members in record { distinct = tt; bounded = omega arith }

  -- From a group whose members have distinct keys and fit its capacity, every sequence of
  -- AddMember, RemoveMember, SetCapacity and ClearMembers leads to such a group.
  pub run-IsWellFormed : (g : Group M) (os : List Op) → IsWellFormed g → IsWellFormed (run g os)
  unfolding run
  run-IsWellFormed g [] v = v
  run-IsWellFormed g (o ∷ os) v = run-IsWellFormed (step g o) os (step-IsWellFormed g o v)

  add_member_taken :
      (g : Group M) (m x : M)
      → find_in key (key m) g.members ≡ some x
      → add_member key g m ≡ (g, GroupResult.already_in_group)
  unfolding add_member
  add_member_taken g m x h = ground arith

  add_member_full :
      (g : Group M) (m : M)
      → find_in key (key m) g.members ≡ none
      → g.capacity ≤ length g.members
      → add_member key g m ≡ (g, GroupResult.full)
  unfolding add_member
  add_member_full g m h full = ground arith

  add_member_room :
      (g : Group M) (m : M)
      → find_in key (key m) g.members ≡ none
      → length g.members < g.capacity
      → add_member key g m ≡ (record g { members = g.members ++ m ∷ [] }, GroupResult.ok)
  unfolding add_member
  add_member_room g m h room = ground arith

  -- AddMember answers ALREADY_IN_GROUP when a member with the key is there, FULL when there is none
  -- and the capacity is reached, both without a change; else it answers OK, keeps the capacity,
  -- and appends the member, which FindMember then finds under its key, with every other key's
  -- answer as before.
  pub add_member_cases :
      (g : Group M) (m : M)
      → ((x : M) × (find_member key g (key m) ≡ some x)
          × (add_member key g m ≡ (g, GroupResult.already_in_group)))
        ⊎ ((find_member key g (key m) ≡ none)
            × (g.capacity ≤ length g.members)
            × (add_member key g m ≡ (g, GroupResult.full)))
        ⊎ ((find_member key g (key m) ≡ none)
            × (length g.members < g.capacity)
            × ((add_member key g m).1 ≡ GroupResult.ok)
            × ((add_member key g m).0.members ≡ g.members ++ m ∷ [])
            × ((add_member key g m).0.capacity ≡ g.capacity)
            × (find_member key (add_member key g m).0 (key m) ≡ some m)
            × ((k : K)
                → key m ≢ k
                → find_member key (add_member key g m).0 k ≡ find_member key g k))
  unfolding find_member
  add_member_cases g m = elim (Option-cases (find_in key (key m) g.members)) [
    | inr (x, h) ↦ inl (x, h, add_member_taken g m x h)
    | inl h ↦ elim (dec_lt (length g.members) g.capacity) [
      | no full ↦ inr (inl (h, omega arith, add_member_full g m h (omega arith)))
      | yes room ↦ inr (
          inr (
            h,
            room,
            rw (add_member_room g m h room),
            rw (add_member_room g m h room),
            rw (add_member_room g m h room),
            rw (add_member_room g m h room) (find_in-append_self key m g.members h),
            λ k n. rw (add_member_room g m h room) (find_in-append_ne key k m g.members n),
          ))
    ]
  ]

  -- RemoveMember, on members with distinct keys, answers NOT_IN_GROUP without a change when no
  -- member has the key; else it answers OK, the count falls by one, the key is found no more, and
  -- every other key is found as before.
  pub remove_member_cases :
      (g : Group M) (k : K)
      → Distinct key g.members
      → ((find_member key g k ≡ none) × (remove_member key g k ≡ (g, GroupResult.not_in_group)))
        ⊎ ((m : M) × (find_member key g k ≡ some m)
            × ((remove_member key g k).1 ≡ GroupResult.ok)
            × (suc (length (remove_member key g k).0.members) ≡ length g.members)
            × (find_member key (remove_member key g k).0 k ≡ none)
            × ((j : K) → k ≢ j → find_member key (remove_member key g k).0 j ≡ find_member key g j))
  unfolding find_member remove_member
  remove_member_cases g k d = elim (Option-cases (find_in key k g.members)) [
    | inl h ↦ inl (h, rw (h, remove_member))
    | inr (m, h) ↦ inr (
      m,
      h,
      rw (h, remove_member),
      rw (h, remove_member) (length-erase_first key k g.members m h),
      rw (h, remove_member) (find_in-erase_self key k g.members d),
      λ j n. rw (h, remove_member) (find_in-erase_ne key k j g.members n),
    )
  ]
