-- ===== src/ToolFunc.antt =====
-- core/ToolFunc.hpp: the table-free CRC-32C (the branch compiled without SSE4.2 or ARM CRC
-- instructions) and the hex dump of a byte span, as the codes of its characters.
mod Tests
pub mod Streams
pub mod Words
pub mod Instructions
use own_game_server.Prelude.{
  ℕ, zero, suc, ◌+◌, ◌-◌, ◌*◌, ◌/◌, ◌%◌, Bool, true, false, List, [], ◌∷◌, ◌++◌, bit_and, bit_xor,
  u32_mod, nat_beq, ltb, if◌then◌else◌, sub32,
}

abbrev crc_poly : ℕ
crc_poly = 0x82F6_3B78

abbrev crc_ones : ℕ
crc_ones = 0xFFFF_FFFF

-- One round of the inner loop.
unfoldable pub crc_bit : ℕ → ℕ
crc_bit crc = let mask : ℕ = sub32 0 (bit_and crc 1) in bit_xor (crc / 2) (bit_and crc_poly mask)

unfoldable pub crc_bits : ℕ → ℕ → ℕ
unfolding crc_bit
crc_bits zero crc = crc
crc_bits (suc n) crc = crc_bits n (crc_bit crc)

-- The outer loop.
unfoldable pub crc_loop : List ℕ → ℕ → ℕ
unfolding crc_bits
crc_loop [] crc = crc
crc_loop (b ∷ bytes) crc = crc_loop bytes (crc_bits 8 (bit_xor crc b))

unfoldable pub crc32c : List ℕ → ℕ
unfolding crc_loop
crc32c bytes = bit_xor (crc_loop bytes crc_ones) crc_ones

-- An uppercase hexadecimal digit.
unfoldable pub hex_digit : ℕ → ℕ
hex_digit n = if ltb n 10 then b'0' + n else b'A' + (n - 10)

-- `count` is the number of bytes printed before.
unfoldable pub hex_loop : List ℕ → ℕ → List ℕ
unfolding hex_digit
hex_loop [] count = []
hex_loop (b ∷ bytes) count =
    hex_digit (b / 16)
    ∷ hex_digit (b % 16)
    ∷ b' '
    ∷ ((if nat_beq ((count + 1) % 20) 0 then b'\n' ∷ [] else []) ++ hex_loop bytes (count + 1))

unfoldable pub to_hex : List ℕ → List ℕ
unfolding hex_loop
to_hex bytes = hex_loop bytes 0
