-- ===== src/Group/Members.antt =====
-- Lemmas on the member vector of business/Group/Group.hpp.
use own_game_server.Prelude.{
  suc, ◌≤◌, ◌≡◌, ◌≢◌, refl, none, some, List, [], ◌∷◌, ◌++◌, arith, length,
}
use own_game_server.Assoc.{Eq}
use own_game_server.Group.{find_in, erase_first}

module _ {ℓ κ} {M : Type ℓ} {K : Type κ} ⦃e : Eq K⦄ (key : M → K) where
  -- No two members have the same key.
  abbrev pub Distinct : List M → Type ℓ
  Distinct [] = Unit {ℓ}
  Distinct (m ∷ ms) = (find_in key (key m) ms ≡ none) × Distinct ms

  pub find_in-append_self :
      (m : M) (ms : List M)
      → find_in key (key m) ms ≡ none
      → find_in key (key m) (ms ++ m ∷ []) ≡ some m
  unfolding find_in
  find_in-append_self m [] h = ground (arith, e.beq_iff (key m) (key m))
  find_in-append_self m (x ∷ ms) h =
      ground (arith, e.beq_iff (key x) (key m), find_in-append_self m ms)

  pub find_in-append_ne :
      (k : K) (m : M) (ms : List M) → key m ≢ k → find_in key k (ms ++ m ∷ []) ≡ find_in key k ms
  unfolding find_in
  find_in-append_ne k m [] h = ground (arith, e.beq_iff (key m) k)
  find_in-append_ne k m (x ∷ ms) h = ground (arith, find_in-append_ne k m ms h)

  -- What is found has the key that was asked for.
  pub key-find_in : (k : K) (ms : List M) (m : M) → find_in key k ms ≡ some m → key m ≡ k
  unfolding find_in
  key-find_in k [] m h = cc
  key-find_in k (x ∷ ms) m h = ground (arith, e.beq_iff (key x) k, key-find_in k ms m)

  pub find_in-erase_ne :
      (k j : K) (ms : List M) → k ≢ j → find_in key j (erase_first key k ms) ≡ find_in key j ms
  unfolding find_in erase_first
  find_in-erase_ne k j [] h = refl
  find_in-erase_ne k j (x ∷ ms) h =
      ground (arith, e.beq_iff (key x) k, e.beq_iff (key x) j, find_in-erase_ne k j ms h)

  pub find_in-erase_none :
      (k j : K) (ms : List M)
      → find_in key j ms ≡ none
      → find_in key j (erase_first key k ms) ≡ none
  unfolding find_in erase_first
  find_in-erase_none k j [] h = refl
  find_in-erase_none k j (x ∷ ms) h = ground (arith, find_in-erase_none k j ms)

  pub find_in-erase_self :
      (k : K) (ms : List M) → Distinct ms → find_in key k (erase_first key k ms) ≡ none
  unfolding find_in erase_first
  find_in-erase_self k [] d = refl
  find_in-erase_self k (x ∷ ms) d = ground (arith, e.beq_iff (key x) k, find_in-erase_self k ms d.1)

  pub Distinct-append :
      (m : M) (ms : List M) → Distinct ms → find_in key (key m) ms ≡ none → Distinct (ms ++ m ∷ [])
  unfolding find_in
  Distinct-append m [] d h = (refl, tt)
  Distinct-append m (x ∷ ms) d h = (
    ground (arith, e.beq_iff (key x) (key m), find_in-append_ne (key x) m ms),
    Distinct-append m ms d.1 (ground arith),
  )

  pub Distinct-erase : (k : K) (ms : List M) → Distinct ms → Distinct (erase_first key k ms)
  unfolding erase_first
  Distinct-erase k [] d = tt
  Distinct-erase k (x ∷ ms) d =
      ground (arith, Distinct-erase k ms d.1, find_in-erase_none k (key x) ms)

  pub length-erase_first-le : (k : K) (ms : List M) → length (erase_first key k ms) ≤ length ms
  unfolding erase_first
  length-erase_first-le k [] = omega arith
  length-erase_first-le k (x ∷ ms) = ground (arith, length-erase_first-le k ms)

  -- A removal that finds its key takes exactly one member out.
  pub length-erase_first :
      (k : K) (ms : List M) (m : M)
      → find_in key k ms ≡ some m
      → suc (length (erase_first key k ms)) ≡ length ms
  unfolding find_in erase_first
  length-erase_first k [] m h = cc
  length-erase_first k (x ∷ ms) m h = ground (arith, length-erase_first k ms m)
