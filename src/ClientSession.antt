-- ===== src/ClientSession.antt =====
-- network/session/ClientSession: the receive buffer of a connection, and sending. `buffer` is the
-- used front of the 64 KiB read buffer, and `behind` the bytes that stand behind it up to the buffer's
-- end; the gateway's calls are returned as the list of packs.
pub mod Receive
pub mod Loss
pub mod Setup
mod Tests
use own_game_server.Prelude.{
  ℕ, zero, suc, ◌+◌, ◌*◌, ◌%◌, Bool, true, false, Option, none, some, ◌||◌, not, List, [], ◌∷◌,
  ◌++◌, map, length, drop, ltb, nat_beq, if◌then◌else◌, u64_mod,
}
use own_game_server.Codec.Encoder.{EncodeMessage, EncodeResult, encode_sync}
use own_game_server.Codec.Decoder.{
  DecodedMessage, DecodeResult, Outcome, done, fault, out_of_fuel, decode_sync,
}

abbrev pub read_buffer_size : ℕ
read_buffer_size = 64 * 1024

unfoldable pub zeros : ℕ → List ℕ
zeros zero = []
zeros (suc n) = 0 ∷ zeros n

-- The read buffer as it is resized.
abbrev pub fresh_buffer : List ℕ
fresh_buffer = zeros read_buffer_size

-- MsgPack. The router fills `sender_id` in.
pub record MsgPack : Type 0 where
  pub sender_id : ℕ
  pub sender_session_id : ℕ
  pub room_id : ℕ
  pub msg : DecodedMessage

pub record ClientSession : Type 0 where
  pub session_id : ℕ
  pub buffer : List ℕ
  pub behind : List ℕ
  pub has_connection : Bool

-- `overflow`: the copy runs past the read buffer. `bad_read`: the decoder reads past it.
pub data Received : Type 0 where
  received : ClientSession → List MsgPack → Received
  overflow bad_read stuck : Received

abbrev pub pack_from : ℕ → DecodedMessage → MsgPack
pack_from session_id msg = record {
  sender_id = 0;
  sender_session_id = session_id;
  room_id = 0;
  msg = msg;
}

-- The copy of the received bytes behind the used ones.
abbrev pub copied : List ℕ → ClientSession → ClientSession
copied bytes s = record s { buffer = s.buffer ++ bytes; behind = drop (length bytes) s.behind }

-- The move of the last used bytes to the front: the bytes behind them keep their places.
abbrev pub moved : List ℕ → ClientSession → ClientSession
moved rest s = record s { buffer = rest; behind = drop (length rest) s.buffer ++ s.behind }

-- What follows the decoder's answer: drop the consumed bytes, then deliver or return.
unfoldable pub deliver : ClientSession → Outcome → Received
deliver s fault = bad_read
deliver s out_of_fuel = stuck
deliver s (done r) =
    let kept : ClientSession =
      if ltb 0 r.cost_offset then moved (drop r.cost_offset s.buffer) s else s in
    if not r.success
    then received kept []
    else received kept (map (pack_from s.session_id) r.messages)

-- The test is not the code's: where it holds, the copy runs past the read buffer.
unfoldable pub on_socket_recv : ClientSession → List ℕ → Received
unfolding deliver
on_socket_recv s bytes =
    if nat_beq (length bytes) 0
    then received s []
    else if ltb read_buffer_size (length s.buffer + length bytes)
    then overflow
    else deliver (copied bytes s) (decode_sync (copied bytes s).behind (s.buffer ++ bytes))

-- WriteEncodedPayload: the bytes handed to the connection, or `none` where it returns false.
unfoldable pub write_encoded_payload : ClientSession → List ℕ → Option (List ℕ)
write_encoded_payload s encoded =
    if not s.has_connection || nat_beq (length encoded) 0 then none else some encoded

-- The result of SendMessage: the process-wide counter of outbound ids, the message (which is
-- passed by reference), and what was handed to the connection.
pub record Sent : Type 0 where
  pub next_id : ℕ
  pub msg : EncodeMessage
  pub written : Option (List ℕ)

unfoldable pub send_message : ClientSession → ℕ → EncodeMessage → Sent
unfolding write_encoded_payload
send_message s next_id msg =
    let fresh : Bool = nat_beq msg.msg_id 0 in
    let msg' : EncodeMessage = if fresh then record msg { msg_id = next_id } else msg in
    let result : EncodeResult = encode_sync msg' in
    record {
      next_id = if fresh then (next_id + 1) % u64_mod else next_id;
      msg = msg';
      written = if not result.success then none else write_encoded_payload s result.encoded_message;
    }
