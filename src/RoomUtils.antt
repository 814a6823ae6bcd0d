-- ===== src/RoomUtils.antt =====
-- business/GameRoom/GameRoomUtils: the codes of rooms, as lists of bytes. `draw i` is what the random
-- distribution gives for the position `i`: a number below 36.
mod Tests
use own_game_server.Prelude.{
  ℕ, zero, suc, ◌+◌, ◌≤◌, ◌<◌, ◌≡◌, ◌↔◌, refl, Bool, true, false, not, ◌&&◌, List, [], ◌∷◌, arith,
  length, get_or, leb, ltb, nat_beq, nat_beq_iff, dec_lt, lt→ltb, subst, ap, sym, ◌∙◌,
  if◌then◌else◌, bytes_of,
}

abbrev pub code_chars : List ℕ
code_chars = bytes_of "0123456789ABCDEFGHIJKLMNOPQRSTUVWXYZ"

unfoldable pub gen_from : (ℕ → ℕ) → ℕ → ℕ → List ℕ
unfolding bytes_of
gen_from draw zero i = []
gen_from draw (suc rounds) i = get_or code_chars (draw i) 0 ∷ gen_from draw rounds (suc i)

unfoldable pub gen_room_code : (ℕ → ℕ) → List ℕ
unfolding gen_from
gen_room_code draw = gen_from draw 6 0

-- std::isdigit
abbrev pub is_digit : ℕ → Bool
is_digit c = leb 48 c && leb c 57

unfoldable pub all_digits : List ℕ → Bool
all_digits [] = true
all_digits (c ∷ cs) = if not (is_digit c) then false else all_digits cs

unfoldable pub is_valid_room_code : List ℕ → Bool
unfolding all_digits
is_valid_room_code code = if not (nat_beq (length code) 6) then false else all_digits code

abbrev same_bool : Bool → Bool → Bool
same_bool true b = b
same_bool false b = not b

abbrev all_below : ℕ → (ℕ → Bool) → Bool
all_below zero f = true
all_below (suc n) f = f n && all_below n f

all_below_lem : (n k : ℕ) (f : ℕ → Bool) → all_below n f ≡ true → k < n → f k ≡ true
all_below_lem zero k f h b = absurd (omega arith)
all_below_lem (suc n) k f h b = elim (dec_lt k n) [
  | yes lt ↦ all_below_lem n k f (and_right (f n) (all_below n f) h) lt
  | no nlt ↦ ap f (omega arith) ∙ and_left (f n) (all_below n f) h
]
  where
    and_left : (a b : Bool) → (a && b) ≡ true → a ≡ true
    and_left true b e = refl
    and_left false b e = cc

    and_right : (a b : Bool) → (a && b) ≡ true → b ≡ true
    and_right true b e = e
    and_right false b e = cc

-- The character of a draw is a digit exactly when the draw is below 10.
digit_drawn : (n : ℕ) → n < 36 → is_digit (get_or code_chars n 0) ≡ ltb n 10
digit_drawn n h =
    same (is_digit (get_or code_chars n 0)) (ltb n 10)
      (all_below_lem 36 n (λ k. same_bool (is_digit (get_or code_chars k 0)) (ltb k 10)) checked h)
  where
    same : (a b : Bool) → same_bool a b ≡ true → a ≡ b
    same true b e = sym e
    same false true e = cc
    same false false e = refl

    checked : all_below 36 (λ k. same_bool (is_digit (get_or code_chars k 0)) (ltb k 10)) ≡ true
    checked = unfold bytes_of in refl

-- One draw before others.
next_drawn :
    (draw : ℕ → ℕ) (rounds i : ℕ)
    → draw i < 36
    → ((all_digits (gen_from draw rounds (suc i)) ≡ true)
        ↔ ((k : ℕ) → k < rounds → draw (suc i + k) < 10))
    → (all_digits (gen_from draw (suc rounds) i) ≡ true)
      ↔ ((k : ℕ) → k < suc rounds → draw (i + k) < 10)
unfolding all_digits gen_from
next_drawn draw rounds i small rest = (
  λ e k b.
      let (first, others) = both_hold digit (all_digits (gen_from draw rounds (suc i))) e in
      below k b (ground (arith, digit_drawn (draw i) small, first)) (λ j c. rest.0 others j c),
  λ f.
      hold_both digit (all_digits (gen_from draw rounds (suc i)))
        (digit_drawn (draw i) small ∙ lt→ltb (draw i) 10 (start f))
        (rest.1 (λ k b. subst (λ (n : ℕ). draw n < 10) (shift k) (f (suc k) (omega arith)))),
)
  where
    digit : Bool
    digit = is_digit (get_or code_chars (draw i) 0)

    shift : (k : ℕ) → i + suc k ≡ suc i + k
    shift k = omega arith

    start : ((k : ℕ) → k < suc rounds → draw (i + k) < 10) → draw i < 10
    start f = subst (λ (n : ℕ). draw n < 10) (nothing i) (f 0 (omega arith))
      where
        nothing : (n : ℕ) → n + 0 ≡ n
        nothing n = omega arith

    both_hold : (a b : Bool) → (if not a then false else b) ≡ true → (a ≡ true) × (b ≡ true)
    both_hold a b e = ground arith

    hold_both : (a b : Bool) → a ≡ true → b ≡ true → (if not a then false else b) ≡ true
    hold_both a b x y = ground arith

    below :
        (k : ℕ)
        → k < suc rounds
        → draw i < 10
        → ((j : ℕ) → j < rounds → draw (suc i + j) < 10)
        → draw (i + k) < 10
    below zero b first others = subst (λ (n : ℕ). draw n < 10) (nothing i) first
      where
        nothing : (n : ℕ) → n ≡ n + 0
        nothing n = omega arith
    below (suc k) b first others =
        subst (λ (n : ℕ). draw n < 10) (sym (shift k)) (others k (omega arith))

all_digits_drawn :
    (draw : ℕ → ℕ) (rounds i : ℕ)
    → ((k : ℕ) → draw k < 36)
    → (all_digits (gen_from draw rounds i) ≡ true) ↔ ((k : ℕ) → k < rounds → draw (i + k) < 10)
all_digits_drawn draw zero i h =
    unfold all_digits gen_from in (λ e k b. absurd (omega arith), λ f. refl)
all_digits_drawn draw (suc rounds) i h =
    next_drawn draw rounds i (h i) (all_digits_drawn draw rounds (suc i) h)

-- Of the codes that GenRoomCode makes, IsValidRoomCode accepts exactly those for which six numbers
-- below 10 have been drawn.
is_valid_room_code-gen_room_code :
    (draw : ℕ → ℕ)
    → ((k : ℕ) → draw k < 36)
    → (is_valid_room_code (gen_room_code draw) ≡ true) ↔ ((k : ℕ) → k < 6 → draw k < 10)
unfolding is_valid_room_code gen_room_code
is_valid_room_code-gen_room_code draw h = (
  λ e k b. subst (λ (n : ℕ). draw n < 10) (from_zero k) (drawn.0 e k b),
  λ f. drawn.1 (λ k b. subst (λ (n : ℕ). draw n < 10) (sym (from_zero k)) (f k b)),
)
  where
    drawn : (all_digits (gen_from draw 6 0) ≡ true) ↔ ((k : ℕ) → k < 6 → draw (0 + k) < 10)
    drawn = all_digits_drawn draw 6 0 h

    from_zero : (n : ℕ) → 0 + n ≡ n
    from_zero n = omega arith
