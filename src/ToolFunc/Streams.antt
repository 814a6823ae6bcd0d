-- ===== src/ToolFunc/Streams.antt =====
-- The checksum loop over a stream that arrives in parts, and the size of a hex dump.
use own_game_server.Prelude.{ℕ, ◌+◌, ◌*◌, ◌/◌, ◌≡◌, refl, List, [], ◌∷◌, ◌++◌, arith, length}
use own_game_server.ToolFunc.{crc_loop, hex_loop, to_hex}

-- The checksum register after two parts is that of the second part started from the first's.
pub crc_loop-append :
    (xs ys : List ℕ) (crc : ℕ) → crc_loop (xs ++ ys) crc ≡ crc_loop ys (crc_loop xs crc)
unfolding crc_loop
crc_loop-append [] ys crc = refl
crc_loop-append (x ∷ xs) ys crc = crc_loop-append xs ys _

length-hex_loop :
    (bytes : List ℕ) (count : ℕ)
    → length (hex_loop bytes count) + count / 20 ≡ 3 * length bytes + (count + length bytes) / 20
unfolding hex_loop
length-hex_loop [] count = omega arith
length-hex_loop (b ∷ bytes) count = ground (arith, length-hex_loop bytes (count + 1))

-- A dump of n bytes has three characters a byte and a line break after every twentieth.
pub length-to_hex : (bytes : List ℕ) → length (to_hex bytes) ≡ 3 * length bytes + length bytes / 20
unfolding to_hex
length-to_hex bytes = omega (arith, length-hex_loop bytes 0)
