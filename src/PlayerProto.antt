-- ===== src/PlayerProto.antt =====
-- business/GamePlayer/GamePlayerProtoImpl: the fields of a player that only the game has, as four bytes.
-- They are of type uint8_t in the source.
use own_game_server.Prelude.{
  ℕ, ◌%◌, ◌<◌, ◌≡◌, Bool, true, false, not, Option, none, some, List, [], ◌∷◌, ◌++◌, arith, length,
  get_or, ltb, nat_beq, if◌then◌else◌,
}
use own_game_server.Player.{GamePlayerInfo}

abbrev pub byte_of : Bool → ℕ
byte_of true = 1
byte_of false = 0

unfoldable pub serialize_game_info : GamePlayerInfo → List ℕ → List ℕ
serialize_game_info p out =
    out ++ p.seat_index % 256 ∷ p.color % 256 ∷ p.position % 256 ∷ byte_of p.ready ∷ []

-- `none` where it returns false.
unfoldable pub deserialize_game_info : List ℕ → GamePlayerInfo → Option GamePlayerInfo
deserialize_game_info bytes p =
    if ltb (length bytes) 4
    then none
    else some (record p {
      seat_index = get_or bytes 0 0;
      color = get_or bytes 1 0;
      position = get_or bytes 2 0;
      ready = not (nat_beq (get_or bytes 3 0) 0);
    })

-- Reading what has been written, before whatever follows, gives any player the written player's game
-- fields, where these fit a byte; it keeps what the player has besides.
pub deserialize_game_info-serialize_game_info :
    (p q : GamePlayerInfo) (more : List ℕ)
    → p.seat_index < 256
    → p.color < 256
    → p.position < 256
    → deserialize_game_info (serialize_game_info p [] ++ more) q
      ≡ some (record p { b_info = q.b_info })
unfolding deserialize_game_info serialize_game_info
deserialize_game_info-serialize_game_info p q more s c t = ground arith
