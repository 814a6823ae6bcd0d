-- ===== src/UserSessionMap/Tests.antt =====
-- The session map at concrete logins.
use own_game_server.Prelude.{◌≡◌, ◌≢◌, List, [], ◌∷◌, arith}
use own_game_server.Assoc.{lookup, insert, erase}
use own_game_server.Messages.{LoginResult, UserLoginInfo}
use own_game_server.UserSessionMap.{empty_map, get_session_id, get_user_id}
use own_game_server.UserSessionMap.Login.{
  Event, login, register, unregister_user, history, get_session_id-get_user_id,
}

abbrev alice : UserLoginInfo
alice = record { result = LoginResult.success; user_id = 128; session_id = 1; error_msg = "" }

abbrev bob : UserLoginInfo
bob = record { result = LoginResult.success; user_id = 126; session_id = 2; error_msg = "" }

abbrev events : List Event
events = login alice ∷ login bob ∷ register 128 3 ∷ unregister_user 126 ∷ []

get_user_id_3 : get_user_id (history empty_map events) 3 ≢ 0
unfolding history get_user_id lookup insert erase
get_user_id_3 h = omega (arith, h)

get_session_id-get_user_id_example :
    get_session_id (history empty_map events) (get_user_id (history empty_map events) 3) ≡ 3
get_session_id-get_user_id_example = get_session_id-get_user_id events 3 get_user_id_3
