-- ===== src/Prelude/Words.antt =====
-- Unsigned machine words: the moduli, and big-endian (network order) bytes.
use Prim.Native.Nat.{ℕ, ◌+◌, ◌*◌, ◌/◌, ◌%◌, ◌^◌, ◌-◌}
use mathlib.Core.List.{List, ◌∷◌}
use own_game_server.Prelude.Lists.{get_or}

abbrev pub u8_mod : ℕ
u8_mod = 2 ^ 8

abbrev pub u16_mod : ℕ
u16_mod = 2 ^ 16

abbrev pub u32_mod : ℕ
u32_mod = 2 ^ 32

abbrev pub u64_mod : ℕ
u64_mod = 2 ^ 64

-- uint32_t a + b and a - b.
abbrev pub add32 : ℕ → ℕ → ℕ
add32 a b = (a + b) % u32_mod

abbrev pub sub32 : ℕ → ℕ → ℕ
sub32 a b = (a + u32_mod - b) % u32_mod

-- htons and htonl of a value, written before the bytes that follow it.
abbrev pub put16 : ℕ → List ℕ → List ℕ
put16 n rest = (n / 256 % 256) ∷ (n % 256) ∷ rest

abbrev pub put32 : ℕ → List ℕ → List ℕ
put32 n rest = (n / 16777216 % 256) ∷ (n / 65536 % 256) ∷ (n / 256 % 256) ∷ (n % 256) ∷ rest

-- ntohs and ntohl of the bytes at an index.
abbrev pub get16 : List ℕ → ℕ → ℕ
get16 bytes i = get_or bytes i 0 * 256 + get_or bytes (i + 1) 0

abbrev pub get32 : List ℕ → ℕ → ℕ
get32 bytes i = get16 bytes i * 65536 + get16 bytes (i + 2)
