-- ===== src/ToolFunc/Instructions.antt =====
-- core/ToolFunc.hpp: the branches of Crc32C for x86-64 with SSE4.2, and for ARM. The instructions are arguments: `u8`,
-- `u32` and `u64` are _mm_crc32_u8, _mm_crc32_u32 and _mm_crc32_u64.
use own_game_server.Prelude.{
  ℕ, zero, suc, ◌+◌, ◌*◌, ◌%◌, ◌<◌, ◌≡◌, ◌∙◌, refl, sym, ap, List, [], ◌∷◌, arith, bit_xor, u32_mod,
  ltb, if◌then◌else◌, length, take, drop, take-append-drop, length-take, All, false, Bool-cases,
  inl, inr,
}
use own_game_server.ToolFunc.{crc_loop, crc_ones, crc32c}
use own_game_server.ToolFunc.Streams.{crc_loop-append}
use own_game_server.ToolFunc.Words.{bit_xor-lt, crc_loop-lt}

-- memcpy of bytes into a word of a little-endian machine.
unfoldable pub le_word : List ℕ → ℕ
le_word [] = 0
le_word (b ∷ bytes) = b + 256 * le_word bytes

module _ (u8 u32 u64 : ℕ → ℕ → ℕ) where
  -- while (len--)
  unfoldable pub bytes_loop : List ℕ → ℕ → ℕ
  bytes_loop [] crc = crc
  bytes_loop (b ∷ bytes) crc = bytes_loop bytes (u8 (crc % u32_mod) b)

  -- while (len >= sizeof(uint32_t)), and what follows
  unfoldable pub words_loop : ℕ → List ℕ → ℕ → ℕ
  unfolding le_word bytes_loop
  words_loop zero bytes crc = bytes_loop bytes crc
  words_loop (suc fuel) bytes crc =
      let rest : ℕ =
        words_loop fuel (drop 4 bytes) (u32 (crc % u32_mod) (le_word (take 4 bytes))) in
      if ltb (length bytes) 4 then bytes_loop bytes crc else rest

  -- while (len >= sizeof(uint64_t)), and what follows
  unfoldable pub quads_loop : ℕ → List ℕ → ℕ → ℕ
  unfolding le_word words_loop
  quads_loop zero bytes crc = words_loop (length bytes) bytes crc
  quads_loop (suc fuel) bytes crc =
      let rest : ℕ = quads_loop fuel (drop 8 bytes) (u64 crc (le_word (take 8 bytes))) in
      if ltb (length bytes) 8 then words_loop (length bytes) bytes crc else rest

  unfoldable pub crc32c_sse : List ℕ → ℕ
  unfolding quads_loop
  crc32c_sse bytes = bit_xor (quads_loop (length bytes) bytes crc_ones) crc_ones % u32_mod

-- The branch for ARM: __crc32cw and __crc32cb are `w` and `b`.
unfoldable pub crc32c_arm : (ℕ → ℕ → ℕ) → (ℕ → ℕ → ℕ) → List ℕ → ℕ
unfolding words_loop
crc32c_arm b w bytes = bit_xor (words_loop b w b (length bytes) bytes crc_ones) crc_ones

abbrev pub IsBytes : List ℕ → Type 0
IsBytes bytes = All (λ b. b < 256) bytes

-- What an instruction for words of `n` bytes does: `n` rounds of the loop over bytes.
abbrev pub Accumulates : ℕ → (ℕ → ℕ → ℕ) → Type 0
Accumulates n u =
    (crc : ℕ) (bytes : List ℕ)
    → crc < u32_mod
    → IsBytes bytes
    → length bytes ≡ n
    → u crc (le_word bytes) ≡ crc_loop bytes crc

take-IsBytes : (n : ℕ) (bytes : List ℕ) → IsBytes bytes → IsBytes (take n bytes)
take-IsBytes zero bytes h = tt
take-IsBytes (suc n) [] h = tt
take-IsBytes (suc n) (b ∷ bytes) (s, h) = (s, take-IsBytes n bytes h)

drop-IsBytes : (n : ℕ) (bytes : List ℕ) → IsBytes bytes → IsBytes (drop n bytes)
drop-IsBytes zero bytes h = h
drop-IsBytes (suc n) [] h = tt
drop-IsBytes (suc n) (b ∷ bytes) (s, h) = drop-IsBytes n bytes h

cut_loop :
    (n : ℕ) (bytes : List ℕ) (crc : ℕ)
    → crc_loop (drop n bytes) (crc_loop (take n bytes) crc) ≡ crc_loop bytes crc
cut_loop n bytes crc =
    sym (crc_loop-append (take n bytes) (drop n bytes) crc)
    ∙ ap (λ (bs : List ℕ). crc_loop bs crc) (take-append-drop n bytes)

same_word : (crc : ℕ) → crc < u32_mod → crc % u32_mod ≡ crc
same_word crc h = omega arith

-- The loop over words does not use the instruction for 8 bytes.
bytes_without :
    (u8 u32 u64 other : ℕ → ℕ → ℕ) (bytes : List ℕ) (crc : ℕ)
    → bytes_loop u8 u32 other bytes crc ≡ bytes_loop u8 u32 u64 bytes crc
unfolding bytes_loop
bytes_without u8 u32 u64 other [] crc = refl
bytes_without u8 u32 u64 other (b ∷ bytes) crc =
    bytes_without u8 u32 u64 other bytes (u8 (crc % u32_mod) b)

words_without :
    (u8 u32 u64 other : ℕ → ℕ → ℕ) (fuel : ℕ) (bytes : List ℕ) (crc : ℕ)
    → words_loop u8 u32 other fuel bytes crc ≡ words_loop u8 u32 u64 fuel bytes crc
unfolding words_loop
words_without u8 u32 u64 other zero bytes crc = bytes_without u8 u32 u64 other bytes crc
words_without u8 u32 u64 other (suc fuel) bytes crc = elim (Bool-cases (ltb (length bytes) 4)) [
  | inl few ↦ rw few (bytes_without u8 u32 u64 other bytes crc)
  | inr more ↦ rw more (
      words_without u8 u32 u64 other fuel (drop 4 bytes)
        (u32 (crc % u32_mod) (le_word (take 4 bytes))))
]

module _ (u8 u32 u64 : ℕ → ℕ → ℕ) (h8 : Accumulates 1 u8) (h32 : Accumulates 4 u32)
    (h64 : Accumulates 8 u64) where
  bytes_loop_lem :
      (bytes : List ℕ) (crc : ℕ)
      → IsBytes bytes
      → crc < u32_mod
      → bytes_loop u8 u32 u64 bytes crc ≡ crc_loop bytes crc
  unfolding bytes_loop crc_loop
  bytes_loop_lem [] crc bs h = refl
  bytes_loop_lem (b ∷ bytes) crc (s, bs) h =
      ap (bytes_loop u8 u32 u64 bytes) one
      ∙ bytes_loop_lem bytes (crc_loop (b ∷ []) crc) bs (crc_loop-lt (b ∷ []) crc (s, tt) h)
    where
      byte : b ≡ le_word (b ∷ [])
      byte = unfold le_word in omega arith

      one : u8 (crc % u32_mod) b ≡ crc_loop (b ∷ []) crc
      one =
          ap (λ (c : ℕ). u8 c b) (same_word crc h)
          ∙ ap (u8 crc) byte
          ∙ h8 crc (b ∷ []) h (s, tt) refl

  length-front : (n : ℕ) (bytes : List ℕ) → ltb (length bytes) n ≡ false → length (take n bytes) ≡ n
  length-front n bytes e = ground (arith, length-take n bytes)

  words_loop_lem :
      (fuel : ℕ) (bytes : List ℕ) (crc : ℕ)
      → IsBytes bytes
      → crc < u32_mod
      → words_loop u8 u32 u64 fuel bytes crc ≡ crc_loop bytes crc
  unfolding words_loop
  words_loop_lem zero bytes crc bs h = bytes_loop_lem bytes crc bs h
  words_loop_lem (suc fuel) bytes crc bs h = elim (Bool-cases (ltb (length bytes) 4)) [
    | inl few ↦ rw few (bytes_loop_lem bytes crc bs h)
    | inr more ↦ rw more (
        ap (words_loop u8 u32 u64 fuel (drop 4 bytes)) (
          ap (λ (c : ℕ). u32 c (le_word (take 4 bytes))) (same_word crc h)
          ∙ h32 crc (take 4 bytes) h (take-IsBytes 4 bytes bs) (length-front 4 bytes more))
        ∙ words_loop_lem fuel (drop 4 bytes) (crc_loop (take 4 bytes) crc) (drop-IsBytes 4 bytes bs)
            (crc_loop-lt (take 4 bytes) crc (take-IsBytes 4 bytes bs) h)
        ∙ cut_loop 4 bytes crc)
  ]

  quads_loop_lem :
      (fuel : ℕ) (bytes : List ℕ) (crc : ℕ)
      → IsBytes bytes
      → crc < u32_mod
      → quads_loop u8 u32 u64 fuel bytes crc ≡ crc_loop bytes crc
  unfolding quads_loop
  quads_loop_lem zero bytes crc bs h = words_loop_lem (length bytes) bytes crc bs h
  quads_loop_lem (suc fuel) bytes crc bs h = elim (Bool-cases (ltb (length bytes) 8)) [
    | inl few ↦ rw few (words_loop_lem (length bytes) bytes crc bs h)
    | inr more ↦ rw more (
        ap (quads_loop u8 u32 u64 fuel (drop 8 bytes))
          (h64 crc (take 8 bytes) h (take-IsBytes 8 bytes bs) (length-front 8 bytes more))
        ∙ quads_loop_lem fuel (drop 8 bytes) (crc_loop (take 8 bytes) crc) (drop-IsBytes 8 bytes bs)
            (crc_loop-lt (take 8 bytes) crc (take-IsBytes 8 bytes bs) h)
        ∙ cut_loop 8 bytes crc)
  ]

  -- Where the three instructions accumulate 1, 4 and 8 bytes as the loop over bytes does, the branch
  -- that uses them computes the checksum of the portable branch, on every list of bytes.
  crc32c_sse-crc32c : (bytes : List ℕ) → IsBytes bytes → crc32c_sse u8 u32 u64 bytes ≡ crc32c bytes
  unfolding crc32c_sse crc32c
  crc32c_sse-crc32c bytes bs =
      ap (λ (c : ℕ). bit_xor c crc_ones % u32_mod)
        (quads_loop_lem (length bytes) bytes crc_ones bs (omega arith))
      ∙ same_word (bit_xor (crc_loop bytes crc_ones) crc_ones) (
          bit_xor-lt (crc_loop bytes crc_ones) crc_ones
            (crc_loop-lt bytes crc_ones bs (omega arith)) (omega arith))

  -- Where the instructions accumulate 1, 4 and 8 bytes as the loop over bytes does, the branch for
  -- x86-64, which uses all of them, and the branch for ARM, which uses those for 1 and 4 bytes, compute
  -- the checksum of the portable branch, on every list of bytes.
  pub same_checksum :
      (bytes : List ℕ)
      → IsBytes bytes
      → (crc32c_sse u8 u32 u64 bytes ≡ crc32c bytes) × (crc32c_arm u8 u32 bytes ≡ crc32c bytes)
  unfolding crc32c_arm crc32c
  same_checksum bytes bs = (
    crc32c_sse-crc32c bytes bs,
    ap (λ (c : ℕ). bit_xor c crc_ones)
        (words_without u8 u32 u64 u8 (length bytes) bytes crc_ones
          ∙ words_loop_lem (length bytes) bytes crc_ones bs (omega arith)),
  )
