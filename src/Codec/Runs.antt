-- ===== src/Codec/Runs.antt =====
-- Runs of frames: the decoder's loop over all frames of a message, with the input that follows.
use own_game_server.Prelude.{
  ℕ, zero, suc, ◌+◌, ◌≤◌, ◌≡◌, ap, ◌∙◌, List, [], ◌∷◌, ◌++◌, arith, length, drop, le→ltb,
  drop-append,
}
use mathlib.Core.List.{append_assoc, append-nil}
use own_game_server.Codec.Header.{proto_header_size}
use own_game_server.Codec.Encoder.{EncodeMessage, chunk, put_frame, put_frames}
use own_game_server.Codec.Decoder.{
  DecodedMessage, frame, read_frame, next_frame, within, read_behind, decode_loop,
}
use own_game_server.Codec.Frames.{
  FitsWire, fragment, fragments, put_frame-append, length-put_frame, read_frame-put_frame,
}

-- The rounds that the decoder's fuel is spent on, on top of what is left.
abbrev pub more_fuel : ℕ → ℕ → ℕ
more_fuel zero fuel = fuel
more_fuel (suc n) fuel = suc (more_fuel n fuel)

pub more_fuel_lem : (n fuel : ℕ) → more_fuel n fuel ≡ n + fuel
more_fuel_lem zero fuel = omega arith
more_fuel_lem (suc n) fuel = omega (arith, more_fuel_lem n fuel)

pub next_frame-frame :
    (behind rest : List ℕ) (len : ℕ) (msg : DecodedMessage)
    → read_frame rest ≡ frame len msg
    → next_frame behind rest ≡ frame len msg
unfolding next_frame
next_frame-frame behind rest len msg e = ap (within (read_behind behind rest)) e

module _ (behind : List ℕ) where
  -- One round of the loop at a whole frame.
  pub decode_loop-frame :
      (fuel : ℕ) (rest : List ℕ) (offset : ℕ) (messages : List DecodedMessage) (len : ℕ)
      (msg : DecodedMessage)
      → proto_header_size ≤ length rest
      → read_frame rest ≡ frame len msg
      → decode_loop behind (suc fuel) rest offset messages
        ≡ decode_loop behind fuel (drop len rest) (offset + len) (messages ++ msg ∷ [])
  unfolding decode_loop
  decode_loop-frame fuel rest offset messages len msg h e =
      rw (le→ltb (length rest) proto_header_size h, next_frame-frame behind rest len msg e)

  module _ (msg : EncodeMessage) where
    drop-put_frame :
        (seq total : ℕ) (rest : List ℕ)
        → drop (28 + length (chunk msg.payload seq)) (put_frame msg seq total rest) ≡ rest
    drop-put_frame seq total rest = rw (← put_frame-append msg seq total [] rest) (
        drop-append _ (put_frame msg seq total []) rest
          (omega (arith, length-put_frame msg seq total [])))

    decode_loop-put_frame :
        (seq total : ℕ) (rest : List ℕ) (fuel offset : ℕ) (messages : List DecodedMessage)
        → FitsWire msg
        → decode_loop behind (suc fuel) (put_frame msg seq total rest) offset messages
          ≡ decode_loop behind fuel rest
              (offset + (28 + length (chunk msg.payload seq)))
              (messages ++ fragment msg seq ∷ [])
    decode_loop-put_frame seq total rest fuel offset messages w =
        decode_loop-frame fuel (put_frame msg seq total rest) offset messages
          (28 + length (chunk msg.payload seq)) (fragment msg seq)
          (omega (arith, length-put_frame msg seq total rest))
          (read_frame-put_frame msg seq total rest w)
        ∙ rw (drop-put_frame seq total rest)

    pub decode_loop-put_frames :
        (rounds seq total : ℕ) (rest : List ℕ) (fuel offset : ℕ) (messages : List DecodedMessage)
        → FitsWire msg
        → decode_loop behind
            (more_fuel rounds fuel)
            (put_frames msg rounds seq total ++ rest)
            offset
            messages
          ≡ decode_loop behind fuel rest
              (offset + length (put_frames msg rounds seq total))
              (messages ++ fragments msg rounds seq)
    unfolding put_frames fragments
    decode_loop-put_frames zero seq total rest fuel offset messages w =
        rw (append-nil messages)
          (ap (λ (k : ℕ). decode_loop behind fuel rest k messages) (add_nil offset))
      where
        add_nil : (k : ℕ) → k ≡ k + 0
        add_nil k = omega arith
    decode_loop-put_frames (suc rounds) seq total rest fuel offset messages w =
        let tail : List ℕ = put_frames msg rounds (seq + 1) total in
        rw (put_frame-append msg seq total tail rest) (
          decode_loop-put_frame seq total (tail ++ rest) (more_fuel rounds fuel) offset messages w
          ∙ decode_loop-put_frames rounds (seq + 1) total rest fuel
              (offset + (28 + length (chunk msg.payload seq))) (messages ++ fragment msg seq ∷ []) w
          ∙ rw (append_assoc messages (fragment msg seq ∷ []) (fragments msg rounds (seq + 1))) (
              ap
                (λ (k : ℕ).
                  decode_loop behind fuel rest k
                    (messages ++ fragment msg seq ∷ fragments msg rounds (seq + 1)))
                (omega_len tail)))
      where
        omega_len :
            (tail : List ℕ)
            → offset + (28 + length (chunk msg.payload seq)) + length tail
              ≡ offset + length (put_frame msg seq total tail)
        omega_len tail = omega (arith, length-put_frame msg seq total tail)
