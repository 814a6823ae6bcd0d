-- ===== src/ReqHandler/Tests.antt =====
-- The requests of two users whose names have the same length.
use own_game_server.Prelude.{
  ℕ, ◌+◌, ◌<◌, ◌≡◌, ◌↔◌, none, some, List, [], ◌∷◌, ◌++◌, arith, length, get_or,
}
use own_game_server.ReqHandler.{read_login}
use own_game_server.ReqHandler.Wire.{sized, read_login-sized, read_login-none}

read_login-sized_example :
    read_login (sized (97 ∷ 98 ∷ []) ++ (sized (49 ∷ []) ++ (7 ∷ [])))
    ≡ some (record { user_name = 97 ∷ 98 ∷ []; password = 49 ∷ [] })
read_login-sized_example =
    read_login-sized (97 ∷ 98 ∷ []) (49 ∷ []) (7 ∷ []) (omega arith) (omega arith)

-- The password's size is 3, but one byte follows.
read_login-none_example : (read_login (2 ∷ 97 ∷ 98 ∷ 3 ∷ 49 ∷ []) ≡ none) ↔ (
    length (let bytes : List ℕ = 97 ∷ 98 ∷ 3 ∷ 49 ∷ [] in bytes)
    < 2 + 1 + get_or (let bytes : List ℕ = 97 ∷ 98 ∷ 3 ∷ 49 ∷ [] in bytes) 2 0)
read_login-none_example = read_login-none 2 (97 ∷ 98 ∷ 3 ∷ 49 ∷ [])
