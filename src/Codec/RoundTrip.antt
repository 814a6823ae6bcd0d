-- ===== src/Codec/RoundTrip.antt =====
-- DecodeSync after EncodeSync: one message, and a stream of messages.
use own_game_server.Prelude.{
  ℕ, zero, suc, ◌+◌, ◌*◌, ◌≤◌, ◌<◌, ◌≡◌, ◌≢◌, refl, sym, ap, ◌∙◌, true, List, [], ◌∷◌, ◌++◌, arith,
  length, take, drop, take-append-drop, drop-drop, length-drop,
}
use own_game_server.Codec.Header.{type_heartbeat}
use own_game_server.Codec.Encoder.{
  EncodeMessage, encode_sync, chunk_size, max_data_size, put_frames, total_frames,
}
use own_game_server.Codec.Decoder.{DecodedMessage}
use own_game_server.Codec.Frames.{FitsWire, fragment, fragments, chunk_lem, length-put_frame}

abbrev pub payloads : List DecodedMessage → List ℕ
payloads [] = []
payloads (m ∷ ms) = m.payload ++ payloads ms

-- What a successful encoding says of its message.
pub record IsEncoded (msg : EncodeMessage) : Type 0 where
  pub bytes :
      (encode_sync msg).encoded_message
      ≡ put_frames msg (total_frames msg.payload) 0 (total_frames msg.payload)
  pub some_payload : 0 < length msg.payload
  pub bounded : length msg.payload ≤ max_data_size
  pub no_heartbeat : msg.proto_type ≢ type_heartbeat

pub success-IsEncoded : (msg : EncodeMessage) → (encode_sync msg).success ≡ true → IsEncoded msg
unfolding encode_sync
success-IsEncoded msg h = ground arith

pub length-put_frames :
    (msg : EncodeMessage) (rounds seq total : ℕ)
    → 28 * rounds ≤ length (put_frames msg rounds seq total)
unfolding put_frames
length-put_frames msg zero seq total = omega arith
length-put_frames msg (suc rounds) seq total = omega (
  arith,
  length-put_frame msg seq total (put_frames msg rounds (seq + 1) total),
  length-put_frames msg rounds (seq + 1) total,
)

-- The chunks of the frames from `seq` on are the payload from there on.
payloads-fragments :
    (msg : EncodeMessage) (rounds seq : ℕ)
    → length msg.payload ≤ (seq + rounds) * chunk_size
    → payloads (fragments msg rounds seq) ≡ drop (seq * chunk_size) msg.payload
unfolding fragments fragment
payloads-fragments msg zero seq h =
    sym (nil_of_length _ (omega (arith, length-drop (seq * chunk_size) msg.payload)))
  where
    nil_of_length : (xs : List ℕ) → length xs ≡ 0 → xs ≡ []
    nil_of_length [] e = refl
    nil_of_length (x ∷ xs) e = absurd (omega arith)
payloads-fragments msg (suc rounds) seq h =
    rw (payloads-fragments msg rounds (seq + 1) (omega arith), chunk_lem msg.payload seq)
      (ap (λ (t : List ℕ). take chunk_size (drop (seq * chunk_size) msg.payload) ++ t)
          (ap (λ (k : ℕ). drop k msg.payload) next_offset
            ∙ sym (drop-drop chunk_size (seq * chunk_size) msg.payload))
        ∙ take-append-drop chunk_size (drop (seq * chunk_size) msg.payload))
  where
    next_offset : (seq + 1) * chunk_size ≡ seq * chunk_size + chunk_size
    next_offset = omega arith

-- All frames of one message, put together again.
pub payloads-total :
    (msg : EncodeMessage) → payloads (fragments msg (total_frames msg.payload) 0) ≡ msg.payload
unfolding total_frames
payloads-total msg = payloads-fragments msg _ 0 (omega arith)

-- The bytes that a sender writes for its messages, one after the other.
unfoldable pub encode_all : List EncodeMessage → List ℕ
encode_all [] = []
encode_all (m ∷ ms) = (encode_sync m).encoded_message ++ encode_all ms

unfoldable pub all_fragments : List EncodeMessage → List DecodedMessage
all_fragments [] = []
all_fragments (m ∷ ms) = fragments m (total_frames m.payload) 0 ++ all_fragments ms

unfoldable pub all_rounds : List EncodeMessage → ℕ
all_rounds [] = 0
all_rounds (m ∷ ms) = total_frames m.payload + all_rounds ms

abbrev pub AllEncode : List EncodeMessage → Type 0
AllEncode [] = Unit {0}
AllEncode (m ∷ ms) = FitsWire m × ((encode_sync m).success ≡ true) × AllEncode ms
