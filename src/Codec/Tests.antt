-- ===== src/Codec/Tests.antt =====
-- The codec at concrete messages: a short one, a heartbeat, and streams of them.
use own_game_server.Prelude.{ℕ, All, ◌≡◌, ◌≢◌, refl, true, List, [], ◌∷◌, ◌++◌, arith, length}
use own_game_server.Codec.Header.{
  ProtoHeader, IsWord, get_header, put_header, proto_magic, type_data,
}
use own_game_server.Codec.Encoder.{EncodeMessage, encode_sync, total_frames}
use own_game_server.Codec.Decoder.{
  DecodeResult, DecodeError, done, fault, bad_magic, decode_sync, read_frame, frame_at,
}
use own_game_server.Codec.RoundTrip.{payloads, encode_all, AllEncode}
use own_game_server.Codec.Stream.{decode_sync-encode_sync, SameIds}
use own_game_server.Codec.Progress.{Ends, decode_sync-Ends}
use own_game_server.Codec.Memory.{decode_sync-fault}

abbrev pub hello : EncodeMessage
hello = record { msg_id = 7; proto_type = 2; main_type = 4; sub_type = 1; payload = 72 ∷ 105 ∷ [] }

abbrev beat : EncodeMessage
beat = record { msg_id = 7; proto_type = 0; main_type = 0; sub_type = 0; payload = [] }

hello_success : (encode_sync hello).success ≡ true
unfolding encode_sync
hello_success = refl

hello_fits : AllEncode (hello ∷ hello ∷ [])
hello_fits = (
  record { msg_id_bound = omega arith },
  hello_success,
  (record { msg_id_bound = omega arith }, hello_success, tt),
)

two_bytes : length (encode_all (hello ∷ hello ∷ []) ++ 72 ∷ []) ≡ 61
unfolding encode_all encode_sync put_header
two_bytes = refl

-- 26 bytes that do not begin with the magic, and that hold it behind the second byte.
abbrev noise : List ℕ
noise = 1 ∷ 2 ∷ put_header empty_data []
  where
    empty_data : ProtoHeader
    empty_data = record {
      header = proto_magic;
      version = 1;
      proto_type = type_data;
      payload_len = 0;
      flags = 2;
      msg_id_high = 0;
      msg_id_low = 1;
      seq = 0;
      total = 1;
      checksum = 0;
    }

decode_sync-Ends_example : Ends 0 (length noise) (decode_sync [] noise)
decode_sync-Ends_example = decode_sync-Ends [] noise

noise_step : read_frame noise ≡ bad_magic 2
unfolding read_frame frame_at get_header put_header
noise_step = refl

decode_sync-encode_sync_example :
    (r : DecodeResult) × ((behind : List ℕ)
      → decode_sync behind (encode_sync hello).encoded_message ≡ done r)
    × (r.success ≡ true)
    × (r.cost_offset ≡ length (encode_sync hello).encoded_message)
    × (length r.messages ≡ total_frames hello.payload)
    × All (SameIds hello) r.messages
    × (payloads r.messages ≡ 72 ∷ 105 ∷ [])
decode_sync-encode_sync_example =
    decode_sync-encode_sync hello (record { msg_id_bound = omega arith }) hello_success

-- The header of a data frame with a declared payload of no bytes.
abbrev bare : ProtoHeader
bare = record {
  header = proto_magic;
  version = 1;
  proto_type = type_data;
  payload_len = 0;
  flags = 2;
  msg_id_high = 0;
  msg_id_low = 1;
  seq = 0;
  total = 1;
  checksum = 0;
}

bare_fits : IsWord bare
bare_fits = record {
  header_bound = omega arith;
  payload_len_bound = omega arith;
  flags_bound = omega arith;
  msg_id_high_bound = omega arith;
  msg_id_low_bound = omega arith;
  seq_bound = omega arith;
  total_bound = omega arith;
}

bare_data : bare.proto_type ≢ 0
bare_data = omega arith

-- The bytes behind the header are those of an older login request.
decode_sync-fault_example :
    (decode_sync [] (put_header bare []) ≡ fault)
    × (decode_sync (6 ∷ []) (put_header bare []) ≡ fault)
    × (decode_sync (6 ∷ 0 ∷ 9 ∷ []) (put_header bare [])
        ≡ done (record {
          success = true;
          error_msg = DecodeError.no_error;
          messages =
              record { msg_id = 1; proto_type = 0; main_type = 6; sub_type = 0; payload = [] } ∷ [];
          cost_offset = 26;
        }))
decode_sync-fault_example = decode_sync-fault bare bare_fits refl bare_data refl 6 0 (9 ∷ [])
