-- ===== src/PlayerManager/Tests.antt =====
-- A registry that a user enters and leaves.
use own_game_server.Prelude.{ℕ, ◌≡◌, refl, some, [], ◌∷◌, String, arith, nat_beq, if◌then◌else◌}
use own_game_server.Assoc.{lookup, erase, nat_eq}
use own_game_server.Messages.{UserLoginInfo, LoginResult}
use own_game_server.Player.{new_player, write}
use own_game_server.PlayerManager.{
  GamePlayerManager, get_player_info, on_user_logout, remove_player,
}
use own_game_server.PlayerManager.Registry.{IsSound, logout, history, handle}

abbrev plain_name : ℕ → String
plain_name n = "player"

abbrev two : GamePlayerManager
two = record {
  players = (8, 4) ∷ (7, 3) ∷ [];
  heap = record { at = λ (a : ℕ). new_player plain_name (if nat_beq a 3 then 7 else 8); next = 5 };
}

two-IsSound : IsSound two
unfolding lookup new_player
two-IsSound = record { named = λ id a e. ground arith; made = λ id a e. ground arith }

abbrev seven : UserLoginInfo
seven = record { result = LoginResult.success; user_id = 7; session_id = 2; error_msg = "" }

eight_stays :
    get_player_info (history plain_name two (logout seven ∷ [])) 8 ≡ some (new_player plain_name 8)
unfolding get_player_info history handle on_user_logout remove_player lookup erase new_player write
eight_stays = refl
