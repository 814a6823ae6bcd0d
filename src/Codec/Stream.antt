-- ===== src/Codec/Stream.antt =====
-- A stream of encoded messages through DecodeSync, with what follows them in the input.
use own_game_server.Prelude.{
  ℕ, zero, suc, ◌+◌, ◌-◌, ◌*◌, ◌≤◌, ◌<◌, ◌≡◌, refl, ap, ◌∙◌, true, false, List, [], ◌∷◌, ◌++◌,
  arith, length, length-append, le→ltb, lt→ltb, All,
}
use mathlib.Core.List.{append_assoc, append-nil}
use own_game_server.Codec.Header.{proto_header_size}
use own_game_server.Codec.Encoder.{EncodeMessage, encode_sync, put_frames, total_frames}
use own_game_server.Codec.Decoder.{
  DecodedMessage, DecodeResult, DecodeError, done, short, read_frame, within, read_behind,
  next_frame, decode_loop, decode_sync,
}
use own_game_server.Codec.Frames.{FitsWire, fragment, fragments}
use own_game_server.Codec.Runs.{more_fuel, more_fuel_lem, decode_loop-put_frames}
use own_game_server.Codec.RoundTrip.{
  success-IsEncoded, length-put_frames, payloads, payloads-total, encode_all, all_fragments,
  all_rounds, AllEncode,
}

more_fuel-add : (m n fuel : ℕ) → more_fuel (m + n) fuel ≡ more_fuel m (more_fuel n fuel)
more_fuel-add m n fuel =
    omega
      (arith, more_fuel_lem (m + n) fuel, more_fuel_lem m (more_fuel n fuel), more_fuel_lem n fuel)

all_rounds-le :
    (msgs : List EncodeMessage) → AllEncode msgs → 28 * all_rounds msgs ≤ length (encode_all msgs)
unfolding encode_all all_rounds
all_rounds-le [] w = omega arith
all_rounds-le (m ∷ ms) (fits, ok, w) = rw ((success-IsEncoded m ok).bytes) (
    omega (
      arith,
      length-append (put_frames m (total_frames m.payload) 0 (total_frames m.payload))
          (encode_all ms),
      length-put_frames m (total_frames m.payload) 0 (total_frames m.payload),
      all_rounds-le ms w,
    ))

abbrev pub SameIds : EncodeMessage → DecodedMessage → Type 0
SameIds msg m =
    (m.msg_id ≡ msg.msg_id) × (m.main_type ≡ msg.main_type) × (m.sub_type ≡ msg.sub_type)

fragments-SameIds :
    (msg : EncodeMessage) (rounds seq : ℕ)
    → All (SameIds msg) (fragments msg rounds seq) × (length (fragments msg rounds seq) ≡ rounds)
unfolding fragments fragment
fragments-SameIds msg zero seq = (tt, refl)
fragments-SameIds msg (suc rounds) seq =
    let (ids, len) = fragments-SameIds msg rounds (seq + 1) in
    (((refl, refl, refl), ids), ap suc len)

module _ (behind : List ℕ) where
  decode_loop-encode_all :
      (msgs : List EncodeMessage) (rest : List ℕ) (fuel offset : ℕ) (messages : List DecodedMessage)
      → AllEncode msgs
      → decode_loop behind
          (more_fuel (all_rounds msgs) fuel)
          (encode_all msgs ++ rest)
          offset
          messages
        ≡ decode_loop behind fuel rest
            (offset + length (encode_all msgs))
            (messages ++ all_fragments msgs)
  unfolding encode_all all_fragments all_rounds
  decode_loop-encode_all [] rest fuel offset messages w =
      rw (append-nil messages)
        (ap (λ (k : ℕ). decode_loop behind fuel rest k messages) (add_nil offset))
    where
      add_nil : (k : ℕ) → k ≡ k + 0
      add_nil k = omega arith
  decode_loop-encode_all (m ∷ ms) rest fuel offset messages (fits, ok, w) =
      rw
        (
          (success-IsEncoded m ok).bytes,
          append_assoc (put_frames m total 0 total) (encode_all ms) rest,
          more_fuel-add total (all_rounds ms) fuel,
        )
        (decode_loop-put_frames behind m total 0 total (encode_all ms ++ rest)
            (more_fuel (all_rounds ms) fuel) offset messages fits
          ∙ decode_loop-encode_all ms rest fuel (offset + length (put_frames m total 0 total))
              (messages ++ fragments m total 0) w
          ∙ rw (append_assoc messages (fragments m total 0) (all_fragments ms)) (
              ap
                (λ (k : ℕ).
                  decode_loop behind fuel rest k
                    (messages ++ (fragments m total 0 ++ all_fragments ms)))
                (lengths (put_frames m total 0 total) (encode_all ms))))
    where
      total : ℕ
      total = total_frames m.payload

      lengths : (xs ys : List ℕ) → offset + length xs + length ys ≡ offset + length (xs ++ ys)
      lengths xs ys = omega (arith, length-append xs ys)

  -- The decoder works through the messages, and goes on with what follows them.
  pub decode_sync-encode_all_then :
      (msgs : List EncodeMessage) (rest : List ℕ)
      → AllEncode msgs
      → proto_header_size ≤ length (encode_all msgs ++ rest)
      → (k : ℕ) × (decode_sync behind (encode_all msgs ++ rest)
          ≡ decode_loop behind (suc k) rest (length (encode_all msgs)) (all_fragments msgs))
  unfolding decode_sync
  decode_sync-encode_all_then msgs rest w h = (
    spare,
    rw (le→ltb (length input) proto_header_size h) (
        ap (λ (f : ℕ). decode_loop behind f input 0 []) enough
        ∙ decode_loop-encode_all msgs rest (suc spare) 0 [] w
        ∙ ap (λ (k : ℕ). decode_loop behind (suc spare) rest k (all_fragments msgs)) (zero_plus _)),
  )
    where
      input : List ℕ
      input = encode_all msgs ++ rest

      spare : ℕ
      spare = length input - all_rounds msgs

      enough : suc (length input) ≡ more_fuel (all_rounds msgs) (suc spare)
      enough = omega (
        arith,
        more_fuel_lem (all_rounds msgs) (suc spare),
        all_rounds-le msgs w,
        length-append (encode_all msgs) rest,
      )

      zero_plus : (n : ℕ) → 0 + n ≡ n
      zero_plus n = omega arith

  -- Where the messages are followed by less than a header, the decoder succeeds, returns one message
  -- for each frame in order, and consumes exactly the messages' bytes.
  pub decode_sync-encode_all :
      (msgs : List EncodeMessage) (rest : List ℕ)
      → AllEncode msgs
      → proto_header_size ≤ length (encode_all msgs ++ rest)
      → length rest < proto_header_size
      → decode_sync behind (encode_all msgs ++ rest)
        ≡ done (record {
          success = true;
          error_msg = DecodeError.no_error;
          messages = all_fragments msgs;
          cost_offset = length (encode_all msgs);
        })
  decode_sync-encode_all msgs rest w h small =
      let (k, e) = decode_sync-encode_all_then msgs rest w h in
      e ∙ unfold decode_loop in rw (lt→ltb (length rest) proto_header_size small)

  -- Where they are followed by a frame that is cut behind its header, the decoder fails; it still
  -- lists the whole messages, and counts their bytes as consumed.
  pub decode_sync-cut :
      (msgs : List EncodeMessage) (rest : List ℕ)
      → AllEncode msgs
      → proto_header_size ≤ length rest
      → read_frame rest ≡ short
      → decode_sync behind (encode_all msgs ++ rest)
        ≡ done (record {
          success = false;
          error_msg = DecodeError.short_payload;
          messages = all_fragments msgs;
          cost_offset = length (encode_all msgs);
        })
  decode_sync-cut msgs rest w h cut =
      let (k, e) =
        decode_sync-encode_all_then msgs rest w
          (omega (arith, length-append (encode_all msgs) rest)) in
      e
      ∙ unfold decode_loop next_frame in
        rw (le→ltb (length rest) proto_header_size h)
          (rw (ap (within (read_behind behind rest)) cut))

-- Decoding an encoded message succeeds and consumes all its bytes, whatever stands behind them; the messages it returns are one
-- for each frame, have the id and the two types of the original, and hold its payload in order.
pub decode_sync-encode_sync :
    (msg : EncodeMessage)
    → FitsWire msg
    → (encode_sync msg).success ≡ true
    → (r : DecodeResult) × ((behind : List ℕ)
        → decode_sync behind (encode_sync msg).encoded_message ≡ done r)
      × (r.success ≡ true)
      × (r.cost_offset ≡ length (encode_sync msg).encoded_message)
      × (length r.messages ≡ total_frames msg.payload)
      × All (SameIds msg) r.messages
      × (payloads r.messages ≡ msg.payload)
decode_sync-encode_sync msg w ok = (
  record {
    success = true;
    error_msg = DecodeError.no_error;
    messages = fragments msg (total_frames msg.payload) 0;
    cost_offset = length (encode_sync msg).encoded_message;
  },
  λ behind.
      unfold encode_all all_fragments in
      simp append-nil at
        (decode_sync-encode_all behind (msg ∷ []) [] (w, ok, tt) long (omega arith)),
  refl,
  refl,
  (fragments-SameIds msg (total_frames msg.payload) 0).1,
  (fragments-SameIds msg (total_frames msg.payload) 0).0,
  payloads-total msg,
)
  where
    long : proto_header_size ≤ length (encode_all (msg ∷ []) ++ [])
    long =
        unfold all_rounds total_frames in
        (omega (
          arith,
          all_rounds-le (msg ∷ []) (w, ok, tt),
          length-append (encode_all (msg ∷ [])) [],
          (success-IsEncoded msg ok).some_payload,
        ))
