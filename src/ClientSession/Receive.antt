-- ===== src/ClientSession/Receive.antt =====
-- What a session delivers from complete input, and the bounds of its buffer.
use own_game_server.Prelude.{
  ℕ, ◌+◌, ◌≤◌, ◌<◌, ◌≡◌, ◌≢◌, ◌↔◌, refl, sym, ap, ◌∙◌, not, List, [], ◌∷◌, ◌++◌, map, arith, length,
  drop, drop-append, if◌then◌else◌, lt→ltb,
}
use mathlib.Core.List.{append-nil}
use own_game_server.Codec.Header.{proto_header_size}
use own_game_server.Codec.Encoder.{EncodeMessage}
use own_game_server.Codec.Decoder.{
  DecodeResult, Outcome, done, fault, out_of_fuel, decode_sync, short, read_frame,
}
use own_game_server.Codec.RoundTrip.{encode_all, all_fragments, AllEncode}
use own_game_server.Codec.Stream.{decode_sync-encode_all, decode_sync-cut}
use own_game_server.ClientSession.{
  ClientSession, received, overflow, pack_from, deliver, on_socket_recv, read_buffer_size, copied,
  moved,
}

-- Within the buffer's capacity the decoder's answer decides.
pub on_socket_recv_fits :
    (s : ClientSession) (bytes : List ℕ)
    → 0 < length bytes
    → length s.buffer + length bytes ≤ read_buffer_size
    → on_socket_recv s bytes
      ≡ deliver (copied bytes s) (decode_sync (copied bytes s).behind (s.buffer ++ bytes))
unfolding on_socket_recv
on_socket_recv_fits s bytes filled fits = ground arith

drop-all : (bytes : List ℕ) → drop (length bytes) bytes ≡ []
drop-all bytes =
    ap (drop (length bytes)) (sym (append-nil bytes)) ∙ drop-append (length bytes) bytes [] refl

moved_all : (rest : List ℕ) (s : ClientSession) → s.buffer ≡ rest → moved rest s ≡ s
moved_all rest s e = rw (sym e, drop-all s.buffer) refl

deliver_at :
    (s : ClientSession) (front rest : List ℕ) (r : DecodeResult)
    → s.buffer ≡ front ++ rest
    → r.cost_offset ≡ length front
    → deliver s (done r) ≡ (
        if not r.success
        then received (moved rest s) []
        else received (moved rest s) (map (pack_from s.session_id) r.messages))
unfolding deliver
deliver_at s [] rest r held e = rw (moved_all rest s held) (ground arith)
deliver_at s (x ∷ front) rest r held e =
    rw (
      lt→ltb 0 r.cost_offset (omega arith),
      held,
      drop-append r.cost_offset (x ∷ front) rest (sym e),
    )

-- When the buffered bytes and the new ones are whole encoded messages followed by less than a
-- frame header, the session delivers every frame of those messages in order, tagged with its own
-- id, and keeps just the bytes behind them; the rest of the read buffer is as the copy and the move to
-- the front leave it.
pub on_socket_recv-whole :
    (s : ClientSession) (bytes rest : List ℕ) (msgs : List EncodeMessage)
    → 0 < length bytes
    → length s.buffer + length bytes ≤ read_buffer_size
    → AllEncode msgs
    → s.buffer ++ bytes ≡ encode_all msgs ++ rest
    → proto_header_size ≤ length (encode_all msgs ++ rest)
    → length rest < proto_header_size
    → on_socket_recv s bytes
      ≡ received (moved rest (copied bytes s)) (map (pack_from s.session_id) (all_fragments msgs))
on_socket_recv-whole s bytes rest msgs filled fits w e h small =
    on_socket_recv_fits s bytes filled fits
    ∙ ap (deliver (copied bytes s)) (
        ap (decode_sync (copied bytes s).behind) e
        ∙ decode_sync-encode_all (copied bytes s).behind msgs rest w h small)
    ∙ deliver_at (copied bytes s) (encode_all msgs) rest _ e refl

-- When a frame that is cut behind its header follows the whole messages, the session drops the
-- messages' bytes and delivers none of them; the rest of the read buffer is as the copy and the move to
-- the front leave it.
pub on_socket_recv-cut :
    (s : ClientSession) (bytes rest : List ℕ) (msgs : List EncodeMessage)
    → 0 < length bytes
    → length s.buffer + length bytes ≤ read_buffer_size
    → AllEncode msgs
    → s.buffer ++ bytes ≡ encode_all msgs ++ rest
    → proto_header_size ≤ length rest
    → read_frame rest ≡ short
    → on_socket_recv s bytes ≡ received (moved rest (copied bytes s)) []
on_socket_recv-cut s bytes rest msgs filled fits w e h cut =
    on_socket_recv_fits s bytes filled fits
    ∙ ap (deliver (copied bytes s)) (
        ap (decode_sync (copied bytes s).behind) e
        ∙ decode_sync-cut (copied bytes s).behind msgs rest w h cut)
    ∙ deliver_at (copied bytes s) (encode_all msgs) rest _ e refl

deliver-ne-overflow : (s : ClientSession) (o : Outcome) → deliver s o ≢ overflow
unfolding deliver
deliver-ne-overflow s fault e = cc
deliver-ne-overflow s out_of_fuel e = cc
deliver-ne-overflow s (done r) e = ground arith

-- A receive call copies past the read buffer exactly when the bytes are not empty and do not fit
-- behind those that are kept.
pub on_socket_recv-overflow :
    (s : ClientSession) (bytes : List ℕ)
    → (on_socket_recv s bytes ≡ overflow)
      ↔ ((0 < length bytes) × (read_buffer_size < length s.buffer + length bytes))
unfolding on_socket_recv
on_socket_recv-overflow s bytes = (
  λ e. ground (
    arith,
    deliver-ne-overflow (copied bytes s) (decode_sync (copied bytes s).behind (s.buffer ++ bytes)),
  ),
  λ h. ground arith,
)

-- The used bytes and those behind them are the whole read buffer.
abbrev pub IsWhole : ClientSession → Type 0
IsWhole s = length s.buffer + length s.behind ≡ read_buffer_size
