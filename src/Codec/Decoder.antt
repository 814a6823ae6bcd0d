-- ===== src/Codec/Decoder.antt =====
-- DecodeSync of network/codec/mTcpCodec.hpp. `rest` is the input from `offset` on, and `behind` the
-- bytes that stand in memory behind the input's end; a read behind these is a `fault`, and
-- `out_of_fuel` stands for a loop that has not ended.
use own_game_server.Prelude.{
  ℕ, zero, suc, ◌+◌, ◌-◌, ◌*◌, Bool, true, false, not, Option, none, some, List, [], ◌∷◌, ◌++◌,
  u32_mod, nat_beq, ltb, if◌then◌else◌, length, take, drop, get_elem?, get32,
}
use own_game_server.Codec.Header.{
  ProtoHeader, get_header, proto_header_size, proto_magic, type_heartbeat,
}

pub record DecodedMessage : Type 0 where
  pub msg_id : ℕ
  pub proto_type : ℕ
  pub main_type : ℕ
  pub sub_type : ℕ
  pub payload : List ℕ

pub data DecodeError : Type 0 where
  no_error input_too_short invalid_magic short_payload : DecodeError

pub record DecodeResult : Type 0 where
  pub success : Bool
  pub error_msg : DecodeError
  pub messages : List DecodedMessage
  pub cost_offset : ℕ

pub data Outcome : Type 0 where
  done : DecodeResult → Outcome
  fault out_of_fuel : Outcome

-- find_next_magic_offset, as the number of bytes before the next magic in a suffix of the input:
-- all of them where there is none.
unfoldable pub find_magic : List ℕ → ℕ
find_magic [] = 0
find_magic (b ∷ bs) =
    if ltb (length (b ∷ bs)) 4
    then length (b ∷ bs)
    else if nat_beq (get32 (b ∷ bs) 0) proto_magic
    then 0
    else suc (find_magic bs)

abbrev pub header_msg_id : ProtoHeader → ℕ
header_msg_id h = h.msg_id_high * u32_mod + h.msg_id_low

-- What one round of the loop finds at the front of `rest`, which has a whole header.
pub data FrameStep : Type 0 where
  bad_magic : ℕ → FrameStep
  short outside : FrameStep
  frame : ℕ → DecodedMessage → FrameStep

-- A frame that is no heartbeat: the two type bytes are read behind the header, whatever the
-- payload's length.
unfoldable pub data_frame : ProtoHeader → List ℕ → Option ℕ → Option ℕ → FrameStep
data_frame h rest none sub = outside
data_frame h rest (some main) none = outside
data_frame h rest (some main) (some sub) = frame (proto_header_size + h.payload_len) (record {
  msg_id = header_msg_id h;
  proto_type = 0;
  main_type = main;
  sub_type = sub;
  payload = if ltb 2 h.payload_len then take (h.payload_len - 2) (drop 28 rest) else [];
})

unfoldable pub frame_at : ProtoHeader → List ℕ → FrameStep
unfolding find_magic data_frame
frame_at h rest =
    if not (nat_beq h.header proto_magic)
    then bad_magic (1 + find_magic (drop 1 rest))
    else if ltb (length rest) (proto_header_size + h.payload_len)
    then short
    else if nat_beq h.proto_type type_heartbeat
    then frame (proto_header_size + h.payload_len) (record {
      msg_id = header_msg_id h;
      proto_type = type_heartbeat;
      main_type = 0;
      sub_type = 0;
      payload = [];
    })
    else data_frame h rest (get_elem? rest 26) (get_elem? rest 27)

unfoldable pub read_frame : List ℕ → FrameStep
read_frame rest = frame_at (get_header rest) rest

-- A frame whose type bytes stand behind the input's end: they are read there.
unfoldable pub read_behind : List ℕ → List ℕ → FrameStep
unfolding data_frame
read_behind behind rest =
    data_frame (get_header rest) rest (get_elem? (rest ++ behind) 26)
      (get_elem? (rest ++ behind) 27)

abbrev pub within : FrameStep → FrameStep → FrameStep
within past outside = past
within past step = step

-- One round of the loop: `outside` is left where the memory ends before the type bytes.
unfoldable pub next_frame : List ℕ → List ℕ → FrameStep
unfolding read_frame read_behind
next_frame behind rest = within (read_behind behind rest) (read_frame rest)

unfoldable pub decode_loop : List ℕ → ℕ → List ℕ → ℕ → List DecodedMessage → Outcome
unfolding next_frame
decode_loop behind zero rest offset messages = out_of_fuel
decode_loop behind (suc fuel) rest offset messages =
    if ltb (length rest) proto_header_size
    then done (record {
      success = true;
      error_msg = DecodeError.no_error;
      messages = messages;
      cost_offset = offset;
    })
    else elim (next_frame behind rest) [
      | bad_magic skip ↦ done (record {
        success = false;
        error_msg = DecodeError.invalid_magic;
        messages = messages;
        cost_offset = offset + skip;
      })
      | short ↦ done (record {
        success = false;
        error_msg = DecodeError.short_payload;
        messages = messages;
        cost_offset = offset;
      })
      | outside ↦ fault
      | frame len msg ↦
          decode_loop behind fuel (drop len rest) (offset + len) (messages ++ msg ∷ [])
    ]

-- Each round but the last takes 26 bytes at least.
unfoldable pub decode_sync : List ℕ → List ℕ → Outcome
decode_sync behind input =
    if ltb (length input) proto_header_size
    then done (record {
      success = false;
      error_msg = DecodeError.input_too_short;
      messages = [];
      cost_offset = 0;
    })
    else decode_loop behind (suc (length input)) input 0 []
