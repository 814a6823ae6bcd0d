-- ===== src/RoomUtils/Tests.antt =====
-- The draws of a code that has the letter A in it, and that IsValidRoomCode refuses it.
use own_game_server.Prelude.{ℕ, ◌+◌, ◌%◌, ◌≡◌, refl, false, bytes_of}
use own_game_server.RoomUtils.{gen_room_code, is_valid_room_code}

abbrev drawn : ℕ → ℕ
drawn k = k % 36

with_letter : gen_room_code (λ k. 8 + drawn k) ≡ bytes_of "89ABCD"
unfolding gen_room_code bytes_of
with_letter = refl

refused : is_valid_room_code (bytes_of "89ABCD") ≡ false
unfolding is_valid_room_code bytes_of
refused = refl
