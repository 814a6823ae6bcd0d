-- ===== src/Codec/Progress.antt =====
-- DecodeSync of network/codec/mTcpCodec.hpp on any input: its rounds, and where they read.
use own_game_server.Prelude.{
  ℕ, zero, suc, ◌+◌, ◌≤◌, ◌<◌, ◌≡◌, ◌≢◌, ◌⊎◌, inl, inr, refl, sym, ap, ◌∙◌, Option, none, some,
  List, [], ◌∷◌, ◌++◌, arith, length, length-drop, drop, drop-drop, get32, get_elem?, ltb, nat_beq,
  Option-cases, Bool-cases, get_elem?-none,
}
use own_game_server.Codec.Header.{
  ProtoHeader, get_header, proto_header_size, proto_magic, type_heartbeat,
}
use own_game_server.Codec.Decoder.{
  DecodedMessage, DecodeResult, Outcome, done, fault, FrameStep, bad_magic, short, outside, frame,
  find_magic, read_frame, frame_at, data_frame, read_behind, within, next_frame, decode_loop,
  decode_sync,
}

find_magic-le : (bytes : List ℕ) → find_magic bytes ≤ length bytes
unfolding find_magic
find_magic-le [] = omega arith
find_magic-le (b ∷ bs) = ground (arith, find_magic-le bs)

-- Where the search stops before the end of the input, the magic stands.
find_magic_lem :
    (bytes : List ℕ)
    → (find_magic bytes ≡ length bytes) ⊎ (get32 (drop (find_magic bytes) bytes) 0 ≡ proto_magic)
unfolding find_magic
find_magic_lem [] = inl refl
find_magic_lem (b ∷ bs) = elim (Bool-cases (ltb (length (b ∷ bs)) 4)) [
  | inl few ↦ inl (rw (few, find_magic))
  | inr more ↦ elim (Bool-cases (nat_beq (get32 (b ∷ bs) 0) proto_magic)) [
    | inl here ↦ inr (rw (more, here, find_magic) (ground arith))
    | inr later ↦ elim (find_magic_lem bs) [
      | inl all ↦ inl (rw (more, later, find_magic) (ap suc all))
      | inr found ↦ inr (rw (more, later, find_magic) found)
    ]
  ]
]

-- A frame that the decoder takes has a header at least and lies inside the input.
data_frame_len :
    (h : ProtoHeader) (rest : List ℕ) (main sub : Option ℕ) (len : ℕ) (msg : DecodedMessage)
    → data_frame h rest main sub ≡ frame len msg
    → len ≡ proto_header_size + h.payload_len
unfolding data_frame
data_frame_len h rest none sub len msg e = cc
data_frame_len h rest (some main) none len msg e = cc
data_frame_len h rest (some main) (some sub) len msg e = ground arith

frame_at_len :
    (h : ProtoHeader) (rest : List ℕ) (len : ℕ) (msg : DecodedMessage)
    → frame_at h rest ≡ frame len msg
    → (proto_header_size ≤ len) × (len ≤ length rest)
unfolding frame_at
frame_at_len h rest len msg e =
    ground (arith, data_frame_len h rest (get_elem? rest 26) (get_elem? rest 27) len msg)

pub read_frame_len :
    (rest : List ℕ) (len : ℕ) (msg : DecodedMessage)
    → read_frame rest ≡ frame len msg
    → (proto_header_size ≤ len) × (len ≤ length rest)
unfolding read_frame
read_frame_len rest len msg e = frame_at_len (get_header rest) rest len msg e

frame_at_skip :
    (h : ProtoHeader) (rest : List ℕ) (n : ℕ)
    → frame_at h rest ≡ bad_magic n
    → n ≡ 1 + find_magic (drop 1 rest)
unfolding frame_at data_frame
frame_at_skip h rest n e = ground arith

drop-suc : (n : ℕ) (rest : List ℕ) → drop (1 + n) rest ≡ drop n (drop 1 rest)
drop-suc n rest = sym (drop-drop n 1 rest)

-- A round that meets no magic at the front skips one byte at least and no more than there are; it
-- skips to the end of the input, or to the next place where the magic stands.
pub read_frame_skip :
    (rest : List ℕ) (n : ℕ)
    → proto_header_size ≤ length rest
    → read_frame rest ≡ bad_magic n
    → (1 ≤ n) × (n ≤ length rest) × ((n ≡ length rest) ⊎ (get32 (drop n rest) 0 ≡ proto_magic))
unfolding read_frame
read_frame_skip rest n h e = rw (frame_at_skip (get_header rest) rest n e) (
  omega arith,
  omega (arith, find_magic-le (drop 1 rest), length-drop 1 rest),
  elim (find_magic_lem (drop 1 rest)) [
    | inl all ↦ inl (omega (arith, all, length-drop 1 rest))
    | inr found ↦ inr (rw (drop-suc (find_magic (drop 1 rest)) rest) found)
  ],
)

pub FrameStep-cases :
    (s : FrameStep)
    → ((n : ℕ) × (s ≡ bad_magic n))
      ⊎ ((s ≡ short) ⊎ ((s ≡ outside) ⊎ ((len : ℕ) × (msg : DecodedMessage) × (s ≡ frame len msg))))
FrameStep-cases (bad_magic n) = inl (n, refl)
FrameStep-cases short = inr (inl refl)
FrameStep-cases outside = inr (inr (inl refl))
FrameStep-cases (frame len msg) = inr (inr (inr (len, msg, refl)))

frame_at-outside_len :
    (h : ProtoHeader) (rest : List ℕ)
    → frame_at h rest ≡ outside
    → proto_header_size + h.payload_len ≤ length rest
unfolding frame_at
frame_at-outside_len h rest e = ground arith

data_frame-ne-bad_magic :
    (h : ProtoHeader) (rest : List ℕ) (main sub : Option ℕ) (n : ℕ)
    → data_frame h rest main sub ≢ bad_magic n
unfolding data_frame
data_frame-ne-bad_magic h rest none sub n e = cc
data_frame-ne-bad_magic h rest (some main) none n e = cc
data_frame-ne-bad_magic h rest (some main) (some sub) n e = cc

module _ (behind rest : List ℕ) where
  next_frame_len :
      (len : ℕ) (msg : DecodedMessage)
      → next_frame behind rest ≡ frame len msg
      → (proto_header_size ≤ len) × (len ≤ length rest)
  unfolding next_frame
  next_frame_len len msg e = elim (FrameStep-cases (read_frame rest)) [
    | inl (n, f) ↦ absurd (skips n (sym (ap (within (read_behind behind rest)) f) ∙ e))
    | inr (inl f) ↦ absurd (cuts (sym (ap (within (read_behind behind rest)) f) ∙ e))
    | inr (inr (inl f)) ↦
        let past : len ≡ proto_header_size + (get_header rest).payload_len =
          data_frame_len (get_header rest) rest _ _ len msg
            (unfold read_behind in (sym (ap (within (read_behind behind rest)) f) ∙ e)) in
        (
          omega (arith, past),
          omega (arith, past, frame_at-outside_len (get_header rest) rest (unfold read_frame in f)),
        )
    | inr (inr (inr (l, m, f))) ↦
        read_frame_len rest len msg (f ∙ (sym (ap (within (read_behind behind rest)) f) ∙ e))
  ]
    where
      skips : (n : ℕ) → bad_magic n ≢ frame len msg
      skips n f = cc

      cuts : short ≢ frame len msg
      cuts f = cc

  next_frame_skip : (n : ℕ) → next_frame behind rest ≡ bad_magic n → read_frame rest ≡ bad_magic n
  unfolding next_frame
  next_frame_skip n e = elim (FrameStep-cases (read_frame rest)) [
    | inl (k, f) ↦ f ∙ (sym (ap (within (read_behind behind rest)) f) ∙ e)
    | inr (inl f) ↦ absurd (cuts (sym (ap (within (read_behind behind rest)) f) ∙ e))
    | inr (inr (inl f)) ↦ absurd (
        data_frame-ne-bad_magic (get_header rest) rest _ _ n
          (unfold read_behind in (sym (ap (within (read_behind behind rest)) f) ∙ e)))
    | inr (inr (inr (l, m, f))) ↦
        absurd (takes l m (sym (ap (within (read_behind behind rest)) f) ∙ e))
  ]
    where
      cuts : short ≢ bad_magic n
      cuts f = cc

      takes : (l : ℕ) (m : DecodedMessage) → frame l m ≢ bad_magic n
      takes l m f = cc

-- The loop has ended, with a result that consumes no more than the input, or with a bad read.
abbrev pub Ends : ℕ → ℕ → Outcome → Type 0
Ends low high o =
    (o ≡ fault)
    ⊎ ((r : DecodeResult) × (o ≡ done r) × (low ≤ r.cost_offset) × (r.cost_offset ≤ high))

Ends-mono :
    (low low' high high' : ℕ) (o : Outcome)
    → low ≤ low'
    → high' ≤ high
    → Ends low' high' o
    → Ends low high o
Ends-mono low low' high high' o p q (inl e) = inl e
Ends-mono low low' high high' o p q (inr (r, e, a, b)) = inr (r, e, omega arith, omega arith)

decode_loop-Ends :
    (behind : List ℕ) (fuel : ℕ) (rest : List ℕ) (offset : ℕ) (messages : List DecodedMessage)
    → length rest < fuel
    → Ends offset (offset + length rest) (decode_loop behind fuel rest offset messages)
unfolding decode_loop
decode_loop-Ends behind zero rest offset messages h = absurd (omega arith)
decode_loop-Ends behind (suc fuel) rest offset messages h =
    elim (Bool-cases (ltb (length rest) proto_header_size)) [
      | inl small ↦ rw small (inr (_, refl, omega arith, omega arith))
      | inr large ↦ elim (FrameStep-cases (next_frame behind rest)) [
        | inl (n, e) ↦
            rw (large, e)
              (inr (
                _,
                refl,
                omega arith,
                omega (
                  arith,
                  read_frame_skip rest n (ground arith) (next_frame_skip behind rest n e),
                ),
              ))
        | inr (inl e) ↦ rw (large, e) (inr (_, refl, omega arith, omega arith))
        | inr (inr (inl e)) ↦ rw (large, e) (inl refl)
        | inr (inr (inr (len, msg, e))) ↦
            rw (large, e)
              (Ends-mono offset (offset + len) (offset + length rest)
                (offset + len + length (drop len rest)) _ (omega arith)
                (omega (arith, next_frame_len behind rest len msg e, length-drop len rest))
                (decode_loop-Ends behind fuel (drop len rest) (offset + len) (messages ++ msg ∷ [])
                  (omega (arith, next_frame_len behind rest len msg e, length-drop len rest))))
      ]
    ]

-- On every input, whatever stands behind it, DecodeSync ends: with a result that counts at most the
-- whole input as consumed, or with a read behind the end of the memory.
pub decode_sync-Ends : (behind input : List ℕ) → Ends 0 (length input) (decode_sync behind input)
unfolding decode_sync
decode_sync-Ends behind input = elim (Bool-cases (ltb (length input) proto_header_size)) [
  | inl small ↦ rw small (inr (_, refl, omega arith, omega arith))
  | inr large ↦ rw large (
      Ends-mono 0 0 (length input) (0 + length input) _ (omega arith) (omega arith)
        (decode_loop-Ends behind (suc (length input)) input 0 [] (omega arith)))
]

pub data_frame-past :
    (h : ProtoHeader) (bytes rest : List ℕ)
    → data_frame h rest (get_elem? bytes 26) (get_elem? bytes 27) ≡ outside
    → length bytes < 28
unfolding data_frame
data_frame-past h bytes rest e = elim (Option-cases (get_elem? bytes 26)) [
  | inl none26 ↦ omega (arith, get_elem?-none bytes 26 none26)
  | inr (main, some26) ↦ elim (Option-cases (get_elem? bytes 27)) [
    | inl none27 ↦ omega (arith, get_elem?-none bytes 27 none27)
    | inr (sub, some27) ↦ ground arith
  ]
]

data_frame-outside :
    (h : ProtoHeader) (rest : List ℕ)
    → data_frame h rest (get_elem? rest 26) (get_elem? rest 27) ≡ outside
    → length rest < 28
data_frame-outside h rest e = data_frame-past h rest rest e

frame_at-outside :
    (h : ProtoHeader) (rest : List ℕ)
    → frame_at h rest ≡ outside
    → (h.proto_type ≢ type_heartbeat) × (h.payload_len < 2)
unfolding frame_at
frame_at-outside h rest e = ground (arith, data_frame-outside h rest)

-- A round reads outside the input only at a frame that is no heartbeat and whose declared payload
-- is shorter than the two type bytes.
pub read_frame-outside :
    (rest : List ℕ)
    → read_frame rest ≡ outside
    → ((get_header rest).proto_type ≢ type_heartbeat) × ((get_header rest).payload_len < 2)
unfolding read_frame
read_frame-outside rest e = frame_at-outside (get_header rest) rest e
