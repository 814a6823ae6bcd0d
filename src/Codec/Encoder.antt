-- ===== src/Codec/Encoder.antt =====
-- EncodeSync and createHeartbeatFrame of network/codec/mTcpCodec.hpp. `payload_owner` only keeps
-- memory alive; the error texts are the constructors of `EncodeError`.
use own_game_server.Prelude.{
  ℕ, zero, suc, ◌+◌, ◌-◌, ◌*◌, ◌/◌, ◌%◌, Bool, true, false, not, ◌||◌, List, [], ◌∷◌, ◌++◌, min,
  bit_or, u16_mod, u32_mod, nat_beq, ltb, if◌then◌else◌, length, take, drop,
}
use own_game_server.ToolFunc.{crc32c}
use own_game_server.Codec.Header.{
  ProtoHeader, put_header, proto_magic, proto_version, flag_fullmsg, flag_fragmented, flag_checksum,
  flag_endpart, type_heartbeat, type_data,
}

abbrev pub chunk_size : ℕ
chunk_size = 4 * 1024

abbrev pub max_data_size : ℕ
max_data_size = 10 * 1024 * 1024

pub record EncodeMessage : Type 0 where
  pub msg_id : ℕ
  pub proto_type : ℕ
  pub main_type : ℕ
  pub sub_type : ℕ
  pub payload : List ℕ

pub data EncodeError : Type 0 where
  no_error too_many_fragments heartbeat_payload : EncodeError
  input_size : ℕ → EncodeError

pub record EncodeResult : Type 0 where
  pub success : Bool
  pub error_msg : EncodeError
  pub encoded_message : List ℕ

abbrev pub encode_failed : EncodeError → EncodeResult
encode_failed e = record { success = false; error_msg = e; encoded_message = [] }

unfoldable pub create_heartbeat_frame : ℕ → List ℕ
create_heartbeat_frame msg_id =
    put_header
      (record {
        header = proto_magic;
        version = proto_version;
        proto_type = type_heartbeat;
        payload_len = 0;
        flags = 0;
        msg_id_high = msg_id / u32_mod % u32_mod;
        msg_id_low = msg_id % u32_mod;
        seq = 0;
        total = 0;
        checksum = 0;
      })
      []

unfoldable pub frame_flags : ℕ → ℕ → ℕ
frame_flags seq total =
    if nat_beq total 1
    then bit_or flag_checksum flag_fullmsg
    else if nat_beq (seq + 1) total
    then bit_or (bit_or flag_checksum flag_fragmented) flag_endpart
    else bit_or flag_checksum flag_fragmented

-- The bytes of the payload that the frame `seq` carries.
unfoldable pub chunk : List ℕ → ℕ → List ℕ
chunk payload seq =
    let offset : ℕ = seq * chunk_size in
    let remain : ℕ = length payload - offset in take (min chunk_size remain) (drop offset payload)

unfoldable pub frame_header : EncodeMessage → ℕ → ℕ → ProtoHeader
unfolding chunk frame_flags
frame_header msg seq total = record {
  header = proto_magic;
  version = proto_version;
  proto_type = type_data;
  payload_len = (2 + length (chunk msg.payload seq)) % u16_mod;
  flags = frame_flags seq total;
  msg_id_high = msg.msg_id / u32_mod % u32_mod;
  msg_id_low = msg.msg_id % u32_mod;
  seq = seq % u16_mod;
  total = total % u16_mod;
  checksum = crc32c (msg.main_type ∷ msg.sub_type ∷ chunk msg.payload seq);
}

-- One round of the loop: the frame `seq`, before the bytes of the frames after it.
unfoldable pub put_frame : EncodeMessage → ℕ → ℕ → List ℕ → List ℕ
unfolding frame_header chunk
put_frame msg seq total rest =
    put_header (frame_header msg seq total)
      (msg.main_type ∷ msg.sub_type ∷ (chunk msg.payload seq ++ rest))

-- The rounds that are left, from the frame `seq` on.
unfoldable pub put_frames : EncodeMessage → ℕ → ℕ → ℕ → List ℕ
unfolding put_frame
put_frames msg zero seq total = []
put_frames msg (suc rounds) seq total =
    put_frame msg seq total (put_frames msg rounds (seq + 1) total)

unfoldable pub total_frames : List ℕ → ℕ
total_frames payload = (length payload + chunk_size - 1) / chunk_size

unfoldable pub encode_sync : EncodeMessage → EncodeResult
unfolding total_frames create_heartbeat_frame put_frames
encode_sync msg =
    let size : ℕ = length msg.payload in
    let total : ℕ = total_frames msg.payload in
    if nat_beq size 0 || ltb max_data_size size
    then encode_failed (EncodeError.input_size size)
    else if ltb 65535 total
    then encode_failed EncodeError.too_many_fragments
    else if nat_beq msg.proto_type type_heartbeat
    then if not (nat_beq size 0) then encode_failed EncodeError.heartbeat_payload else record {
      success = true;
      error_msg = EncodeError.no_error;
      encoded_message = create_heartbeat_frame msg.msg_id;
    }
    else record {
      success = ltb 0 total;
      error_msg = EncodeError.no_error;
      encoded_message = put_frames msg total 0 total;
    }
