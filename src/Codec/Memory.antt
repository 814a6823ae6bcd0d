-- ===== src/Codec/Memory.antt =====
-- DecodeSync of network/codec/mTcpCodec.hpp at frames without type bytes: where it reads behind its
-- input, and behind the end of the memory.
use own_game_server.Prelude.{
  ℕ, zero, suc, true, false, ◌+◌, ◌%◌, ◌≤◌, ◌<◌, ◌≡◌, ◌≢◌, inl, inr, refl, sym, ap, ◌∙◌, some, List,
  [], ◌∷◌, ◌++◌, arith, length, length-append, drop, get_elem?, ltb, u32_mod, le→ltb, Bool-cases,
}
use own_game_server.Codec.Header.{
  ProtoHeader, IsWord, get_header, put_header, get_header-put_header, proto_header_size,
  proto_magic, type_heartbeat, length-put_header,
}
use own_game_server.Codec.Progress.{FrameStep-cases, data_frame-past}
use own_game_server.Codec.Frames.{frame_at-data}
use own_game_server.Codec.Decoder.{
  DecodedMessage, done, fault, bad_magic, short, outside, frame, read_frame, data_frame,
  read_behind, within, next_frame, header_msg_id, DecodeError, decode_loop, decode_sync,
}

next_frame-outside :
    (behind rest : List ℕ)
    → proto_header_size ≤ length rest
    → next_frame behind rest ≡ outside
    → length behind < 2
unfolding next_frame
next_frame-outside behind rest long e = elim (FrameStep-cases (read_frame rest)) [
  | inl (n, f) ↦ absurd (skips n (sym (ap (within (read_behind behind rest)) f) ∙ e))
  | inr (inl f) ↦ absurd (cuts (sym (ap (within (read_behind behind rest)) f) ∙ e))
  | inr (inr (inl f)) ↦ omega (
    arith,
    length-append rest behind,
    data_frame-past (get_header rest) (rest ++ behind) rest
        (unfold read_behind in (sym (ap (within (read_behind behind rest)) f) ∙ e)),
  )
  | inr (inr (inr (l, m, f))) ↦
      absurd (takes l m (sym (ap (within (read_behind behind rest)) f) ∙ e))
]
  where
    skips : (n : ℕ) → bad_magic n ≢ outside
    skips n f = cc

    cuts : short ≢ outside
    cuts f = cc

    takes : (l : ℕ) (m : DecodedMessage) → frame l m ≢ outside
    takes l m f = cc

decode_loop-faulty :
    (behind : List ℕ) (fuel : ℕ) (rest : List ℕ) (offset : ℕ) (messages : List DecodedMessage)
    → decode_loop behind fuel rest offset messages ≡ fault
    → length behind < 2
unfolding decode_loop
decode_loop-faulty behind zero rest offset messages e = cc
decode_loop-faulty behind (suc fuel) rest offset messages e =
    elim (Bool-cases (ltb (length rest) proto_header_size)) [
      | inl small ↦ ground (arith, small)
      | inr large ↦ elim (FrameStep-cases (next_frame behind rest)) [
        | inl (n, f) ↦ ground (arith, large, f)
        | inr (inl f) ↦ ground (arith, large, f)
        | inr (inr (inl f)) ↦ next_frame-outside behind rest (ground arith) f
        | inr (inr (inr (len, msg, f))) ↦
            decode_loop-faulty behind fuel (drop len rest) (offset + len) (messages ++ msg ∷ [])
              (rw (large, f, decode_loop) at e)
      ]
    ]

-- DecodeSync reads out of bounds only where less than two bytes stand behind its input.
pub decode_sync-faulty :
    (behind input : List ℕ) → decode_sync behind input ≡ fault → length behind < 2
unfolding decode_sync
decode_sync-faulty behind input e = elim (Bool-cases (ltb (length input) proto_header_size)) [
  | inl small ↦ ground (arith, small)
  | inr large ↦ decode_loop-faulty behind (suc (length input)) input 0 [] (rw (large) at e)
]

past_header :
    (k h : ProtoHeader) (behind : List ℕ)
    → data_frame k
        (put_header h [])
        (get_elem? (put_header h [] ++ behind) 26)
        (get_elem? (put_header h [] ++ behind) 27)
      ≡ data_frame k (put_header h []) (get_elem? behind 0) (get_elem? behind 1)
unfolding put_header
past_header k h behind = refl

abbrev as_read : ProtoHeader → ProtoHeader
as_read h = record h { checksum = h.checksum % u32_mod }

-- An input that is just a header with the magic, of a frame that is no heartbeat and declares a
-- payload of no bytes.
module _ (h : ProtoHeader) (w : IsWord h) (magic : h.header ≡ proto_magic)
    (no_beat : h.proto_type ≢ type_heartbeat) (bare : h.payload_len ≡ 0) where
  at_end : read_frame (put_header h []) ≡ outside
  unfolding read_frame data_frame put_header
  at_end = rw (get_header-put_header h [] w) (
      frame_at-data (as_read h) (put_header h []) magic no_beat
        (omega (arith, length-put_header h [])))

  next_frame-past :
      (behind : List ℕ)
      → next_frame behind (put_header h [])
        ≡ data_frame (as_read h) (put_header h []) (get_elem? behind 0) (get_elem? behind 1)
  unfolding next_frame read_behind
  next_frame-past behind =
      ap (within (read_behind behind (put_header h []))) at_end
      ∙ rw (get_header-put_header h [] w) (past_header (as_read h) h behind)

  long : ltb (length (put_header h [])) proto_header_size ≡ false
  long = le→ltb (length (put_header h [])) proto_header_size (omega (arith, length-put_header h []))

  decode_sync-short_memory :
      (behind : List ℕ)
      → data_frame (as_read h) (put_header h []) (get_elem? behind 0) (get_elem? behind 1) ≡ outside
      → decode_sync behind (put_header h []) ≡ fault
  unfolding decode_sync decode_loop
  decode_sync-short_memory behind e = rw long (rw (next_frame-past behind ∙ e))

  -- The message that has the type bytes from behind the input.
  abbrev pub stale_message : ℕ → ℕ → DecodedMessage
  stale_message main sub = record {
    msg_id = header_msg_id h;
    proto_type = 0;
    main_type = main;
    sub_type = sub;
    payload = [];
  }

  data_frame-stale :
      (main sub : ℕ)
      → data_frame (as_read h) (put_header h []) (some main) (some sub)
        ≡ frame proto_header_size (stale_message main sub)
  unfolding data_frame
  data_frame-stale main sub = rw bare refl

  decode_sync-stale :
      (main sub : ℕ) (more : List ℕ)
      → decode_sync (main ∷ sub ∷ more) (put_header h [])
        ≡ done (record {
          success = true;
          error_msg = DecodeError.no_error;
          messages = stale_message main sub ∷ [];
          cost_offset = proto_header_size;
        })
  unfolding decode_sync decode_loop
  decode_sync-stale main sub more = rw long (
      rw (next_frame-past (main ∷ sub ∷ more) ∙ data_frame-stale main sub)
        (unfold put_header in refl))

  -- On an input that is just a header with the magic, of a frame that is no heartbeat and declares a
  -- payload of no bytes, DecodeSync reads the two type bytes behind the input's end: where they stand
  -- in memory there it succeeds with a message of these types, and where the memory ends before them
  -- the read is out of bounds.
  pub decode_sync-fault :
      (main sub : ℕ) (more : List ℕ)
      → (decode_sync [] (put_header h []) ≡ fault)
        × (decode_sync (main ∷ []) (put_header h []) ≡ fault)
        × (decode_sync (main ∷ sub ∷ more) (put_header h [])
            ≡ done (record {
              success = true;
              error_msg = DecodeError.no_error;
              messages = stale_message main sub ∷ [];
              cost_offset = proto_header_size;
            }))
  decode_sync-fault main sub more = (
    decode_sync-short_memory [] (unfold data_frame in refl),
    decode_sync-short_memory (main ∷ []) (unfold data_frame in refl),
    decode_sync-stale main sub more,
  )
