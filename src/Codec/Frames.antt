-- ===== src/Codec/Frames.antt =====
-- One frame, and a run of frames, through the decoder's loop.
use own_game_server.Prelude.{
  ℕ, zero, suc, ◌+◌, ◌-◌, ◌*◌, ◌%◌, ◌≤◌, ◌<◌, ◌≡◌, ◌≢◌, refl, sym, ap, ◌∙◌, some, List, [], ◌∷◌,
  ◌++◌, arith, length, length-append, take, drop, min, get_elem?, u32_mod, u64_mod, ltb,
  if◌then◌else◌, lt→ltb, take-append, length-drop, length-take,
}
use mathlib.Core.List.{append_assoc}
use own_game_server.Codec.Header.{
  ProtoHeader, IsWord, get_header, put_header, get_header-put_header, length-put_header,
  proto_header_size, proto_magic, type_heartbeat,
}
use own_game_server.Codec.Encoder.{
  EncodeMessage, chunk, chunk_size, frame_flags, frame_header, put_frame,
}
use own_game_server.Codec.Decoder.{
  DecodedMessage, frame, read_frame, frame_at, data_frame, header_msg_id,
}

-- The fields of a message that fit the types they have in the source.
pub record FitsWire (msg : EncodeMessage) : Type 0 where
  pub msg_id_bound : msg.msg_id < u64_mod

-- The message that the decoder makes of the frame `seq`.
unfoldable pub fragment : EncodeMessage → ℕ → DecodedMessage
fragment msg seq = record {
  msg_id = msg.msg_id;
  proto_type = 0;
  main_type = msg.main_type;
  sub_type = msg.sub_type;
  payload = chunk msg.payload seq;
}

unfoldable pub fragments : EncodeMessage → ℕ → ℕ → List DecodedMessage
fragments msg zero seq = []
fragments msg (suc rounds) seq = fragment msg seq ∷ fragments msg rounds (seq + 1)

take-min : (n : ℕ) (xs : List ℕ) → take (min n (length xs)) xs ≡ take n xs
take-min zero xs = ap (λ (k : ℕ). take k xs) (zero_min (length xs))
  where
    zero_min : (a : ℕ) → min 0 a ≡ 0
    zero_min a = omega arith
take-min (suc n) [] = ap (λ (k : ℕ). take k (let e : List ℕ = [] in e)) (min_zero (suc n))
  where
    min_zero : (a : ℕ) → min a 0 ≡ 0
    min_zero a = omega arith
take-min (suc n) (x ∷ xs) =
    ap (λ (k : ℕ). take k (x ∷ xs)) (min_suc n (length xs))
    ∙ ap (λ (t : List ℕ). x ∷ t) (take-min n xs)
  where
    min_suc : (a b : ℕ) → min (suc a) (suc b) ≡ suc (min a b)
    min_suc a b = omega arith

pub chunk_lem :
    (payload : List ℕ) (seq : ℕ)
    → chunk payload seq ≡ take chunk_size (drop (seq * chunk_size) payload)
unfolding chunk
chunk_lem payload seq =
    ap (λ (k : ℕ). take (min chunk_size k) (drop (seq * chunk_size) payload))
      (sym (length-drop (seq * chunk_size) payload))
    ∙ take-min chunk_size (drop (seq * chunk_size) payload)

pub length-chunk-le : (payload : List ℕ) (seq : ℕ) → length (chunk payload seq) ≤ chunk_size
length-chunk-le payload seq =
    rw chunk_lem (omega (arith, length-take chunk_size (drop (seq * chunk_size) payload)))

frame_flags-lt : (seq total : ℕ) → frame_flags seq total < 8
unfolding frame_flags
frame_flags-lt seq total = ground arith

frame_header-IsWord : (msg : EncodeMessage) (seq total : ℕ) → IsWord (frame_header msg seq total)
unfolding frame_header
frame_header-IsWord msg seq total = record {
  header_bound = omega arith;
  payload_len_bound = omega arith;
  flags_bound = omega (arith, frame_flags-lt seq total);
  msg_id_high_bound = omega arith;
  msg_id_low_bound = omega arith;
  seq_bound = omega arith;
  total_bound = omega arith;
}

module _ (msg : EncodeMessage) (seq total : ℕ) (rest : List ℕ) where
  pub put_frame-append :
      (more : List ℕ)
      → put_frame msg seq total rest ++ more ≡ put_frame msg seq total (rest ++ more)
  unfolding put_frame put_header
  put_frame-append more = simp append_assoc

  pub length-put_frame :
      length (put_frame msg seq total rest) ≡ 28 + length (chunk msg.payload seq) + length rest
  unfolding put_frame
  length-put_frame = omega (
    arith,
    length-put_header (frame_header msg seq total)
        (msg.main_type ∷ msg.sub_type ∷ (chunk msg.payload seq ++ rest)),
    length-append (chunk msg.payload seq) rest,
  )

  get_header-put_frame :
      get_header (put_frame msg seq total rest) ≡ record (frame_header msg seq total) {
        checksum = (frame_header msg seq total).checksum % u32_mod;
      }
  unfolding put_frame
  get_header-put_frame =
      get_header-put_header (frame_header msg seq total) _ (frame_header-IsWord msg seq total)

-- A whole frame that is no heartbeat is read by `data_frame`.
pub frame_at-data :
    (h : ProtoHeader) (rest : List ℕ)
    → h.header ≡ proto_magic
    → h.proto_type ≢ type_heartbeat
    → proto_header_size + h.payload_len ≤ length rest
    → frame_at h rest ≡ data_frame h rest (get_elem? rest 26) (get_elem? rest 27)
unfolding frame_at
frame_at-data h rest eh et el = ground arith

-- The payload behind the two type bytes.
payload_lem :
    (n : ℕ) (body more : List ℕ)
    → n ≡ 2 + length body
    → (if ltb 2 n then take (n - 2) (body ++ more) else []) ≡ body
payload_lem n [] more e = ground arith
payload_lem n (x ∷ body) more e =
    rw (lt→ltb 2 n (omega arith)) (take-append (n - 2) (x ∷ body) more (omega arith))

module _ (msg : EncodeMessage) (seq total : ℕ) where
  -- The header of the frame as the decoder reads it.
  abbrev wire_header : ProtoHeader
  wire_header = record (frame_header msg seq total) {
    checksum = (frame_header msg seq total).checksum % u32_mod;
  }

  wire_header_magic : wire_header.header ≡ proto_magic
  unfolding frame_header
  wire_header_magic = refl

  wire_header_type : wire_header.proto_type ≢ type_heartbeat
  unfolding frame_header
  wire_header_type = omega arith

  pub wire_header_len : wire_header.payload_len ≡ 2 + length (chunk msg.payload seq)
  unfolding frame_header
  wire_header_len = omega (arith, length-chunk-le msg.payload seq)

  wire_header_msg_id : FitsWire msg → header_msg_id wire_header ≡ msg.msg_id
  unfolding frame_header
  wire_header_msg_id w = omega (arith, w.msg_id_bound)

  data_frame-put_frame :
      (rest : List ℕ)
      → FitsWire msg
      → data_frame wire_header
          (put_frame msg seq total rest)
          (some msg.main_type)
          (some msg.sub_type)
        ≡ frame (28 + length (chunk msg.payload seq)) (fragment msg seq)
  unfolding data_frame put_frame put_header fragment
  data_frame-put_frame rest w = ground (
    arith,
    wire_header_msg_id w,
    wire_header_len,
    payload_lem wire_header.payload_len (chunk msg.payload seq) rest,
  )

  -- The decoder finds in a frame what the encoder put there.
  pub read_frame-put_frame :
      (rest : List ℕ)
      → FitsWire msg
      → read_frame (put_frame msg seq total rest)
        ≡ frame (28 + length (chunk msg.payload seq)) (fragment msg seq)
  unfolding read_frame
  read_frame-put_frame rest w =
      rw (get_header-put_frame, read_frame)
        (frame_at-data wire_header (put_frame msg seq total rest) wire_header_magic wire_header_type
            (omega (arith, wire_header_len, length-put_frame msg seq total rest))
          ∙ type_bytes)
    where
      type_bytes :
          data_frame wire_header
            (put_frame msg seq total rest)
            (get_elem? (put_frame msg seq total rest) 26)
            (get_elem? (put_frame msg seq total rest) 27)
          ≡ frame (28 + length (chunk msg.payload seq)) (fragment msg seq)
      type_bytes = unfold put_frame put_header in data_frame-put_frame rest w
