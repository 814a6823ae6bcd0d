-- ===== src/Codec/Passthrough.antt =====
-- PassthroughCodec of network/codec/IMessageCodec.hpp, the codec without frames. An asynchronous
-- operation calls its callback before it returns; `shared` is what the shared vector holds.
use own_game_server.Prelude.{ℕ, ◌≡◌, refl, true, List, [], ◌∷◌, length}
use own_game_server.Codec.Encoder.{EncodeMessage}
use own_game_server.Codec.Decoder.{DecodeResult, DecodeError}

unfoldable pub encode_sync : EncodeMessage → List ℕ
encode_sync msg = msg.payload

unfoldable pub decode_sync : List ℕ → DecodeResult
decode_sync input = record {
  success = true;
  error_msg = DecodeError.no_error;
  messages =
      record { msg_id = 0; proto_type = 0; main_type = 0; sub_type = 0; payload = input } ∷ [];
  cost_offset = length input;
}

module _ {ℓ} {World : Type ℓ} where
  -- The callback changes the world.
  unfoldable pub encode_async : EncodeMessage → (List ℕ → World → World) → World → World
  unfolding encode_sync
  encode_async msg callback world = callback (encode_sync msg) world

  unfoldable pub decode_async : List ℕ → (DecodeResult → World → World) → World → World
  unfolding decode_sync
  decode_async shared callback world = callback (decode_sync shared) world

  -- What is encoded and decoded reaches the callback as one message with the whole payload, but with
  -- neither the id nor the types of the original.
  pub decode_async-encode_async :
      (msg : EncodeMessage) (callback : DecodeResult → World → World) (world : World)
      → encode_async msg (λ bytes. decode_async bytes callback) world
        ≡ callback
            (record {
              success = true;
              error_msg = DecodeError.no_error;
              messages =
                  record {
                    msg_id = 0;
                    proto_type = 0;
                    main_type = 0;
                    sub_type = 0;
                    payload = msg.payload;
                  }
                  ∷ [];
              cost_offset = length msg.payload;
            })
            world
  unfolding encode_async decode_async
  decode_async-encode_async msg callback world = refl
