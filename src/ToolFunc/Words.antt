-- ===== src/ToolFunc/Words.antt =====
-- The registers of Crc32C in core/ToolFunc.hpp fit 32 bits.
use Prim.Native.Nat.{digits, differ, bit_xor-bitwise, bit_and-bitwise}
use own_game_server.Prelude.{
  ℕ, zero, suc, ◌*◌, ◌/◌, ◌%◌, ◌≤◌, ◌<◌, List, [], ◌∷◌, arith, min, bit_and, bit_xor, u32_mod, All,
}
use own_game_server.ToolFunc.{crc_bit, crc_bits, crc_loop, crc_poly}

-- 2 ^ k
abbrev pow2 : ℕ → ℕ
pow2 zero = 1
pow2 (suc k) = pow2 k * 2

differ_le : (x y : ℕ) → x < 2 → y < 2 → differ x y ≤ 1
differ_le zero y a b = omega arith
differ_le (suc x) zero a b = omega arith
differ_le (suc zero) (suc zero) a b = omega arith
differ_le (suc zero) (suc (suc y)) a b = absurd (omega arith)
differ_le (suc (suc x)) (suc y) a b = absurd (omega arith)

xor_digits_lt : (k n a b : ℕ) → a < pow2 k → b < pow2 k → digits (λ b. b) differ n a b < pow2 k
xor_digits_lt k zero a b p q = q
xor_digits_lt k (suc n) zero b p q = q
xor_digits_lt zero (suc n) (suc a) b p q = absurd (omega arith)
xor_digits_lt (suc k) (suc n) (suc a) b p q = omega (
  arith,
  xor_digits_lt k n (suc a / 2) (b / 2) (omega arith) (omega arith),
  differ_le (suc a % 2) (b % 2) (omega arith) (omega arith),
)

pub bit_xor-lt : (a b : ℕ) → a < u32_mod → b < u32_mod → bit_xor a b < u32_mod
bit_xor-lt a b p q = omega (arith, bit_xor-bitwise a b, xor_digits_lt 32 a a b p q)

and_digits_le : (n a b : ℕ) → digits (λ b. zero) min n a b ≤ a
and_digits_le zero a b = omega arith
and_digits_le (suc n) zero b = omega arith
and_digits_le (suc n) (suc a) b = omega (arith, and_digits_le n (suc a / 2) (b / 2))

bit_and-le : (a b : ℕ) → bit_and a b ≤ a
bit_and-le a b = omega (arith, bit_and-bitwise a b, and_digits_le a a b)

crc_bit-lt : (crc : ℕ) → crc < u32_mod → crc_bit crc < u32_mod
unfolding crc_bit
crc_bit-lt crc h = bit_xor-lt (crc / 2) _ (omega arith) (omega (arith, bit_and-le crc_poly _))

crc_bits-lt : (n crc : ℕ) → crc < u32_mod → crc_bits n crc < u32_mod
unfolding crc_bits
crc_bits-lt zero crc h = h
crc_bits-lt (suc n) crc h = crc_bits-lt n (crc_bit crc) (crc_bit-lt crc h)

-- A register of 32 bits stays one.
pub crc_loop-lt :
    (bytes : List ℕ) (crc : ℕ)
    → All (λ b. b < 256) bytes
    → crc < u32_mod
    → crc_loop bytes crc < u32_mod
unfolding crc_loop
crc_loop-lt [] crc bs h = h
crc_loop-lt (b ∷ bytes) crc (s, bs) h =
    crc_loop-lt bytes (crc_bits 8 (bit_xor crc b)) bs
      (crc_bits-lt 8 (bit_xor crc b) (bit_xor-lt crc b h (omega arith)))
