-- ===== src/Codec/Refusals.antt =====
-- Which messages EncodeSync accepts, and the size of what it writes.
use own_game_server.Prelude.{
  ℕ, zero, suc, ◌+◌, ◌*◌, ◌≤◌, ◌<◌, ◌≡◌, ◌≢◌, ◌↔◌, ◌⊎◌, ap, true, arith, length, length-append,
}
use own_game_server.Codec.Header.{type_heartbeat}
use own_game_server.Codec.Encoder.{
  EncodeMessage, EncodeError, encode_failed, encode_sync, chunk, max_data_size, put_frames,
  total_frames,
}
use own_game_server.Codec.Frames.{fragments, length-put_frame, fragment}
use own_game_server.Codec.RoundTrip.{IsEncoded, success-IsEncoded, payloads, payloads-total}

-- EncodeSync succeeds exactly on a payload of 1 byte to 10 MiB whose protocol type is not
-- HeartBeat.
pub encode_sync_success :
    (msg : EncodeMessage)
    → ((encode_sync msg).success ≡ true) ↔ (
        (0 < length msg.payload)
        × (length msg.payload ≤ max_data_size)
        × (msg.proto_type ≢ type_heartbeat))
unfolding encode_sync total_frames
encode_sync_success msg = (
  λ h.
      let e : IsEncoded msg = success-IsEncoded msg h in
      (e.some_payload, e.bounded, e.no_heartbeat),
  λ h. ground arith,
)

-- No heartbeat message is ever encoded: an empty payload is refused for its size, and any other
-- payload of at most 10 MiB is refused because a heartbeat should have none.
pub encode_sync-heartbeat :
    (msg : EncodeMessage)
    → msg.proto_type ≡ type_heartbeat
    → ((length msg.payload ≡ 0) × (encode_sync msg ≡ encode_failed (EncodeError.input_size 0)))
      ⊎ ((max_data_size < length msg.payload)
          × (encode_sync msg ≡ encode_failed (EncodeError.input_size (length msg.payload))))
      ⊎ ((0 < length msg.payload)
          × (length msg.payload ≤ max_data_size)
          × (encode_sync msg ≡ encode_failed EncodeError.heartbeat_payload))
unfolding encode_sync total_frames
encode_sync-heartbeat msg h = ground arith

length-put_frames :
    (msg : EncodeMessage) (rounds seq total : ℕ)
    → length (put_frames msg rounds seq total)
      ≡ 28 * rounds + length (payloads (fragments msg rounds seq))
unfolding put_frames fragments fragment
length-put_frames msg zero seq total = omega arith
length-put_frames msg (suc rounds) seq total = omega (
  arith,
  length-put_frame msg seq total (put_frames msg rounds (seq + 1) total),
  length-put_frames msg rounds (seq + 1) total,
  length-append (chunk msg.payload seq) (payloads (fragments msg rounds (seq + 1))),
)

-- An encoded message is its payload and 28 bytes for each frame of up to 4096 payload bytes.
pub length-encode_sync :
    (msg : EncodeMessage)
    → (encode_sync msg).success ≡ true
    → length (encode_sync msg).encoded_message ≡ length msg.payload + 28 * total_frames msg.payload
length-encode_sync msg h = rw ((success-IsEncoded msg h).bytes) (
    omega (
      arith,
      length-put_frames msg (total_frames msg.payload) 0 (total_frames msg.payload),
      ap length (payloads-total msg),
    ))
