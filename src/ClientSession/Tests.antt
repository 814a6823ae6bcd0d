-- ===== src/ClientSession/Tests.antt =====
-- Reads that end between frames, inside a frame, and behind an oversized header.
use own_game_server.Prelude.{
  ℕ, List, ◌+◌, ◌<◌, ◌≡◌, ◌⊎◌, refl, true, false, none, some, [], ◌∷◌, ◌++◌, map, arith, length,
  length-append,
}
use mathlib.Core.List.{flatten}
use own_game_server.Codec.Header.{ProtoHeader, IsWord, get_header, put_header, proto_magic}
use own_game_server.Codec.Encoder.{EncodeMessage, encode_sync}
use own_game_server.Codec.Decoder.{short, read_frame, frame_at}
use own_game_server.Codec.RoundTrip.{encode_all, all_fragments, AllEncode}
use own_game_server.ClientSession.{
  ClientSession, received, overflow, pack_from, on_socket_recv, read_buffer_size, copied, moved,
  fresh_buffer,
}
use own_game_server.ClientSession.Setup.{new_session, set_connection}
use own_game_server.GameMap.{and_then}
use own_game_server.ClientSession.Receive.{on_socket_recv-whole, on_socket_recv-cut}
use own_game_server.ClientSession.Loss.{holding, receive_all, receive_all-stalled}

abbrev session : ClientSession
session = record { session_id = 5; buffer = []; behind = fresh_buffer; has_connection = true }

abbrev join : EncodeMessage
join = record {
  msg_id = 9;
  proto_type = 2;
  main_type = 4;
  sub_type = 2;
  payload = 65 ∷ 66 ∷ 67 ∷ 68 ∷ 69 ∷ 70 ∷ [];
}

join_encodes : AllEncode (join ∷ [])
unfolding encode_sync
join_encodes = (record { msg_id_bound = omega arith }, refl, tt)

length-encode_all : length (encode_all (join ∷ [])) ≡ 34
unfolding encode_all encode_sync put_header
length-encode_all = refl

on_socket_recv-whole_example :
    on_socket_recv session (encode_all (join ∷ []) ++ [])
    ≡ received
        (moved [] (copied (encode_all (join ∷ []) ++ []) session))
        (map (pack_from 5) (all_fragments (join ∷ [])))
on_socket_recv-whole_example =
    on_socket_recv-whole session (encode_all (join ∷ []) ++ []) [] (join ∷ [])
      (omega (arith, length-append (encode_all (join ∷ [])) [], length-encode_all))
      (omega (arith, length-append (encode_all (join ∷ [])) [], length-encode_all)) join_encodes
      refl (omega (arith, length-append (encode_all (join ∷ [])) [], length-encode_all))
      (omega arith)

abbrev cut_header : ProtoHeader
cut_header = record {
  header = proto_magic;
  version = 1;
  proto_type = 2;
  payload_len = 8;
  flags = 2;
  msg_id_high = 0;
  msg_id_low = 10;
  seq = 0;
  total = 1;
  checksum = 0;
}

cut_short : read_frame (put_header cut_header (4 ∷ [])) ≡ short
unfolding read_frame frame_at get_header put_header
cut_short = refl

-- One whole request and the first 27 bytes of the next: the request is lost.
on_socket_recv-cut_example :
    on_socket_recv session (encode_all (join ∷ []) ++ put_header cut_header (4 ∷ []))
    ≡ received
        (moved
          (put_header cut_header (4 ∷ []))
          (copied (encode_all (join ∷ []) ++ put_header cut_header (4 ∷ [])) session))
        []
on_socket_recv-cut_example =
    on_socket_recv-cut session (encode_all (join ∷ []) ++ put_header cut_header (4 ∷ []))
      (put_header cut_header (4 ∷ [])) (join ∷ []) (omega (arith, read_length))
      (omega (arith, read_length)) join_encodes refl (unfold put_header in (omega arith)) cut_short
  where
    read_length : length (encode_all (join ∷ []) ++ put_header cut_header (4 ∷ [])) ≡ 61
    read_length = unfold encode_all encode_sync put_header in refl

abbrev huge_header : ProtoHeader
huge_header = record cut_header { payload_len = 65535 }

huge_header_fits : IsWord huge_header
huge_header_fits = omega arith

receive_all-stalled_example :
    let full : ClientSession = holding huge_header huge_header_fits refl session [] in
    let reads : List (List ℕ) = (1 ∷ []) ∷ (2 ∷ 3 ∷ []) ∷ [] in
    ((receive_all full reads ≡ overflow)
      × (read_buffer_size < length (put_header huge_header []) + length (flatten reads)))
    ⊎ (receive_all full reads ≡ received (copied (flatten reads) full) [])
receive_all-stalled_example =
    receive_all-stalled huge_header huge_header_fits refl (omega arith) session []
      ((1 ∷ []) ∷ (2 ∷ 3 ∷ []) ∷ [])

-- A session that is set up as CreateSession does it, and one without a codec.
set_up :
    and_then (new_session 3 true true) (set_connection true)
    ≡ some (record { session_id = 3; buffer = []; behind = fresh_buffer; has_connection = true })
unfolding new_session set_connection
set_up = refl

no_codec : new_session 3 false true ≡ none
unfolding new_session
no_codec = refl
