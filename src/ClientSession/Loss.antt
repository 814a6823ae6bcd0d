-- ===== src/ClientSession/Loss.antt =====
-- A frame that can never be completed: its declared length is more than the read buffer holds.
use own_game_server.Prelude.{
  ℕ, ◌+◌, ◌<◌, ◌≡◌, ◌⊎◌, inl, inr, refl, sym, ap, drop-drop, ◌∙◌, false, List, [], ◌∷◌, ◌++◌, arith,
  length, length-append, u32_mod, le→ltb, ◌%◌, dec_lt,
}
use mathlib.Core.List.{append-nil, append_assoc, flatten}
use own_game_server.Codec.Header.{
  ProtoHeader, IsWord, put_header, get_header-put_header, length-put_header, proto_header_size,
  proto_magic,
}
use own_game_server.Codec.Decoder.{
  DecodeError, done, short, read_frame, frame_at, within, read_behind, next_frame, decode_loop,
  decode_sync,
}
use own_game_server.ClientSession.{
  ClientSession, MsgPack, copied, Received, received, overflow, bad_read, stuck, deliver,
  on_socket_recv, read_buffer_size,
}
use own_game_server.ClientSession.Receive.{on_socket_recv_fits, on_socket_recv-overflow}

-- A session that is fed the reads of a socket, one after the other.
abbrev after : List MsgPack → Received → Received
after packs (received t more) = received t (packs ++ more)
after packs overflow = overflow
after packs bad_read = bad_read
after packs stuck = stuck

unfoldable pub receive_all : ClientSession → List (List ℕ) → Received
receive_all s [] = received s []
receive_all s (bytes ∷ reads) = elim (on_socket_recv s bytes) [
  | received t packs ↦ after packs (receive_all t reads)
  | overflow ↦ overflow
  | bad_read ↦ bad_read
  | stuck ↦ stuck
]

module _ (h : ProtoHeader) (w : IsWord h) (magic : h.header ≡ proto_magic) where
  frame_at-short :
      (k : ProtoHeader) (rest : List ℕ)
      → k.header ≡ proto_magic
      → length rest < proto_header_size + k.payload_len
      → frame_at k rest ≡ short
  unfolding frame_at
  frame_at-short k rest e lt = ground arith

  -- A frame that the input does not hold in full is not taken.
  pub read_frame-short :
      (body : List ℕ) → length body < h.payload_len → read_frame (put_header h body) ≡ short
  unfolding read_frame
  read_frame-short body lt =
      rw (get_header-put_header h body w, read_frame)
        (frame_at-short (record h { checksum = h.checksum % u32_mod }) (put_header h body) magic
          (omega (arith, length-put_header h body)))

  decode_sync-short :
      (behind body : List ℕ)
      → length body < h.payload_len
      → decode_sync behind (put_header h body)
        ≡ done (record {
          success = false;
          error_msg = DecodeError.short_payload;
          messages = [];
          cost_offset = 0;
        })
  unfolding decode_sync decode_loop next_frame
  decode_sync-short behind body lt = rw (
    le→ltb (length (put_header h body)) proto_header_size (omega (arith, length-put_header h body)),
    ap (within (read_behind behind (put_header h body))) (read_frame-short body lt),
  )

  -- A session whose buffer begins with the header.
  abbrev pub holding : ClientSession → List ℕ → ClientSession
  holding s body = record s { buffer = put_header h body }

  append-put_header :
      (body bytes : List ℕ) → put_header h body ++ bytes ≡ put_header h (body ++ bytes)
  unfolding put_header
  append-put_header body bytes = refl

  module _ (large : read_buffer_size < proto_header_size + h.payload_len) where
    deliver-stalled :
        (s : ClientSession) (body : List ℕ)
        → length body < h.payload_len
        → deliver (holding s body) (decode_sync s.behind (put_header h body))
          ≡ received (holding s body) []
    unfolding deliver
    deliver-stalled s body lt = rw (decode_sync-short s.behind body lt) refl

    on_socket_recv-stalled :
        (s : ClientSession) (body bytes : List ℕ)
        → ((on_socket_recv (holding s body) bytes ≡ overflow)
            × (read_buffer_size < length (put_header h body) + length bytes))
          ⊎ (on_socket_recv (holding s body) bytes
              ≡ received (holding (copied bytes s) (body ++ bytes)) [])
    unfolding put_header
    on_socket_recv-stalled s body [] = inr (rw (append-nil body) (unfold on_socket_recv in refl))
    on_socket_recv-stalled s body (b ∷ bytes) =
        elim (dec_lt read_buffer_size (length (put_header h body) + length (b ∷ bytes))) [
          | yes over ↦
              inl
                ((on_socket_recv-overflow (holding s body) (b ∷ bytes)).1 (omega arith, over), over)
          | no fits ↦ inr (
              on_socket_recv_fits (holding s body) (b ∷ bytes) (omega arith) (omega arith)
              ∙ deliver-stalled (copied (b ∷ bytes) s) (body ++ b ∷ bytes)
                  (omega (arith, length-put_header h body, length-append body (b ∷ bytes))))
        ]

    copied-copied :
        (s : ClientSession) (body bytes more : List ℕ)
        → copied more (holding (copied bytes s) (body ++ bytes))
          ≡ copied (bytes ++ more) (holding s body)
    copied-copied s body bytes more =
        rw
          (
            ← append-put_header body bytes,
            append_assoc (put_header h body) bytes more,
            drop-drop (length more) (length bytes) s.behind,
            length-append bytes more,
          )
          refl

    -- Once the front of the buffer is a frame header whose frame is longer than the read buffer, no
    -- sequence of reads delivers anything: all their bytes pile up behind the header in the order in
    -- which they came, unless a read runs past the buffer, which happens only where the header and
    -- all the bytes are more than it holds.
    pub receive_all-stalled :
        (s : ClientSession) (body : List ℕ) (reads : List (List ℕ))
        → ((receive_all (holding s body) reads ≡ overflow)
            × (read_buffer_size < length (put_header h body) + length (flatten reads)))
          ⊎ (receive_all (holding s body) reads
              ≡ received (copied (flatten reads) (holding s body)) [])
    unfolding receive_all flatten
    receive_all-stalled s body [] = inr (
        ap (λ (b : List ℕ). received (record (holding s body) { buffer = b }) [])
          (sym (append-nil (put_header h body))))
    receive_all-stalled s body (bytes ∷ reads) = elim (on_socket_recv-stalled s body bytes) [
      | inl (over, much) ↦
          inl (rw (over, receive_all), omega (arith, much, length-append bytes (flatten reads)))
      | inr kept ↦ elim (receive_all-stalled (copied bytes s) (body ++ bytes) reads) [
        | inl (later, much) ↦ inl (
          rw (kept, later, receive_all),
          omega (
            arith,
            much,
            length-append bytes (flatten reads),
            length-put_header h body,
            length-put_header h (body ++ bytes),
            length-append body bytes,
          ),
        )
        | inr later ↦
            inr (rw (kept, later, receive_all, copied-copied s body bytes (flatten reads)) refl)
      ]
    ]
