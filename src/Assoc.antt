-- ===== src/Assoc.antt =====
-- `std::unordered_map` as an association list. The order of the entries stands for the table's
-- unspecified order; keys are compared by an `Eq` instance.
use own_game_server.Prelude.{
  ℕ, suc, ◌≤◌, ◌≡◌, ◌↔◌, refl, Bool, true, Option, none, some, List, [], ◌∷◌, arith, String,
  nat_beq, nat_beq_iff, str_eq, eq_iff, if◌then◌else◌, length,
}

pub record Eq {ℓ} (K : Type ℓ) : Type ℓ where
  pub beq : K → K → Bool
  pub beq_iff : (a b : K) → (beq a b ≡ true) ↔ (a ≡ b)

infix 50 ◌==◌
abbrev pub ◌==◌ {ℓ} : {K : Type ℓ} ⦃e : Eq K⦄ → K → K → Bool
◌==◌ ⦃e⦄ = e.beq

instance abbrev pub nat_eq : Eq ℕ
nat_eq = record { beq = nat_beq; beq_iff = nat_beq_iff }

instance abbrev pub string_eq : Eq String
string_eq = record { beq = str_eq; beq_iff = eq_iff }

abbrev pub Assoc {ℓ κ} : Type ℓ → Type κ → Type (ℓ ⊔ κ)
Assoc K V = List (K × V)

module _ {ℓ κ} {K : Type ℓ} {V : Type κ} ⦃e : Eq K⦄ where
  -- m.find(k)
  unfoldable pub lookup : K → Assoc K V → Option V
  lookup asked [] = none
  lookup asked ((key, value) ∷ table) = if key == asked then some value else lookup asked table

  -- m[k] = v
  unfoldable pub insert : K → V → Assoc K V → Assoc K V
  insert key value [] = (key, value) ∷ []
  insert key value ((other, old) ∷ table) =
      if other == key then (other, value) ∷ table else (other, old) ∷ insert key value table

  -- m.erase(k)
  unfoldable pub erase : K → Assoc K V → Assoc K V
  erase k [] = []
  erase k ((j, v) ∷ m) = let rest = erase k m in if j == k then rest else (j, v) ∷ rest

  -- m.emplace(k, v), m.insert({k, v}): an entry that is there stays.
  unfoldable pub emplace : K → V → Assoc K V → Assoc K V
  unfolding lookup
  emplace k v m = elim (lookup k m) [ none ↦ (k, v) ∷ m | some w ↦ m ]

  pub lookup-insert :
      (key asked : K) (value : V) (table : Assoc K V)
      → lookup asked (insert key value table)
        ≡ (if key == asked then some value else lookup asked table)
  unfolding lookup insert
  lookup-insert key asked value [] = refl
  lookup-insert key asked value ((other, old) ∷ table) = ground (
    arith,
    e.beq_iff key asked,
    e.beq_iff other key,
    e.beq_iff other asked,
    lookup-insert key asked value table,
  )

  pub lookup-erase :
      (k j : K) (m : Assoc K V) → lookup j (erase k m) ≡ (if k == j then none else lookup j m)
  unfolding lookup erase
  lookup-erase k j [] = ground arith
  lookup-erase k j ((i, w) ∷ m) =
      ground (arith, e.beq_iff k j, e.beq_iff i k, e.beq_iff i j, lookup-erase k j m)

  pub lookup-emplace :
      (k j : K) (v : V) (m : Assoc K V)
      → lookup j (emplace k v m)
        ≡ (elim (lookup k m) [ none ↦ if k == j then some v else lookup j m | some w ↦ lookup j m ])
  unfolding emplace lookup
  lookup-emplace k j v m = ground arith

  pub length-erase-le : (k : K) (m : Assoc K V) → length (erase k m) ≤ length m
  unfolding erase
  length-erase-le k [] = omega arith
  length-erase-le k ((i, w) ∷ m) = ground (arith, length-erase-le k m)

  -- `m[k] = v` adds one entry, or none where the key is there.
  pub length-insert :
      (k : K) (v : V) (m : Assoc K V)
      → length (insert k v m) ≡ (elim (lookup k m) [ none ↦ suc (length m) | some w ↦ length m ])
  unfolding insert lookup
  length-insert k v [] = refl
  length-insert k v ((i, w) ∷ m) = ground (arith, length-insert k v m)
