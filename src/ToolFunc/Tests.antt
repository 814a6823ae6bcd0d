-- ===== src/ToolFunc/Tests.antt =====
-- The check value of CRC-32C, a short dump, and the branch over instructions at thirteen bytes.
use own_game_server.Prelude.{
  ℕ, zero, suc, ◌+◌, ◌*◌, ◌/◌, ◌%◌, ◌≡◌, ◌∙◌, refl, sym, ap, List, [], ◌∷◌, arith, length,
}
use own_game_server.ToolFunc.{crc32c, to_hex, crc_loop}
use own_game_server.ToolFunc.Instructions.{
  le_word, IsBytes, Accumulates, crc32c_sse, crc32c_arm, same_checksum,
}

crc32c_check :
    crc32c (b'1' ∷ b'2' ∷ b'3' ∷ b'4' ∷ b'5' ∷ b'6' ∷ b'7' ∷ b'8' ∷ b'9' ∷ []) ≡ 0xE306_9283
unfolding crc32c
crc32c_check = refl

to_hex_check : to_hex (0x5 ∷ 0xAF ∷ []) ≡ b'0' ∷ b'5' ∷ b' ' ∷ b'A' ∷ b'F' ∷ b' ' ∷ []
unfolding to_hex
to_hex_check = refl

-- The bytes of a word, lowest first, and instructions made of the loop over bytes.
abbrev split : ℕ → ℕ → List ℕ
split zero w = []
split (suc n) w = w % 256 ∷ split n (w / 256)

split-le_word : (bytes : List ℕ) → IsBytes bytes → split (length bytes) (le_word bytes) ≡ bytes
unfolding le_word
split-le_word [] h = refl
split-le_word (b ∷ bytes) (s, h) =
    ap (λ (n : ℕ). n ∷ split (length bytes) ((b + 256 * le_word bytes) / 256)) (omega arith)
    ∙ ap (λ (w : ℕ). b ∷ split (length bytes) w) (omega arith)
    ∙ ap (λ (bs : List ℕ). b ∷ bs) (split-le_word bytes h)

abbrev accumulate : ℕ → ℕ → ℕ → ℕ
accumulate n crc w = crc_loop (split n w) crc

accumulate-Accumulates : (n : ℕ) → Accumulates n (accumulate n)
accumulate-Accumulates n crc bytes h bs e =
    ap (λ (k : ℕ). crc_loop (split k (le_word bytes)) crc) (sym e)
    ∙ ap (λ (xs : List ℕ). crc_loop xs crc) (split-le_word bytes bs)

abbrev thirteen : List ℕ
thirteen = 72 ∷ 101 ∷ 108 ∷ 108 ∷ 111 ∷ 44 ∷ 32 ∷ 119 ∷ 111 ∷ 114 ∷ 108 ∷ 100 ∷ 33 ∷ []

thirteen-IsBytes : IsBytes thirteen
thirteen-IsBytes = (
  omega arith,
  (
    omega arith,
    (
      omega arith,
      (
        omega arith,
        (
          omega arith,
          (
            omega arith,
            (
              omega arith,
              (
                omega arith,
                (omega arith, (omega arith, (omega arith, (omega arith, (omega arith, tt))))),
              ),
            ),
          ),
        ),
      ),
    ),
  ),
)

same_checksum_example :
    (crc32c_sse (accumulate 1) (accumulate 4) (accumulate 8) thirteen ≡ crc32c thirteen)
    × (crc32c_arm (accumulate 1) (accumulate 4) thirteen ≡ crc32c thirteen)
same_checksum_example =
    same_checksum (accumulate 1) (accumulate 4) (accumulate 8) (accumulate-Accumulates 1)
      (accumulate-Accumulates 4) (accumulate-Accumulates 8) thirteen thirteen-IsBytes
