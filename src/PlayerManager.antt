-- ===== src/PlayerManager.antt =====
-- business/GamePlayer/GamePlayerManager: the players that are logged in, by user id. `players` holds
-- the addresses of the objects in the heap. A lock orders the operations, each of which is one step.
pub mod Registry
mod Tests
use own_game_server.Prelude.{
  ℕ, suc, Bool, true, false, not, ◌&&◌, Option, none, some, [], nat_beq, if◌then◌else◌, String,
}
use own_game_server.Assoc.{Assoc, lookup, emplace, erase, nat_eq}
use own_game_server.Messages.{UserLoginInfo, is_success}
use own_game_server.Player.{
  GamePlayerInfo, new_player, set_session, set_online, enter_room, Heap, write, modify,
}

pub record GamePlayerManager : Type 0 where
  pub players : Assoc ℕ ℕ
  pub heap : Heap

-- GetPlayer: `none` is `nullptr`.
abbrev pub get_player : GamePlayerManager → ℕ → Option ℕ
get_player m id = lookup id m.players

-- GetPlayerInfo
unfoldable pub get_player_info : GamePlayerManager → ℕ → Option GamePlayerInfo
get_player_info m id = elim (lookup id m.players) [ none ↦ none | some a ↦ some (m.heap.at a) ]

module _ (name_of : ℕ → String) where
  -- CreatePlayer, with the address that it returns.
  unfoldable pub create_player : ℕ → GamePlayerManager → GamePlayerManager × ℕ
  create_player id m = elim (lookup id m.players) [
    | some a ↦ (m, a)
    | none ↦
        let a : ℕ = m.heap.next in
        (
          record {
            players = emplace id a m.players;
            heap = record (write a (new_player name_of id) m.heap) { next = suc a };
          },
          a,
        )
  ]

  unfoldable pub on_user_login : UserLoginInfo → GamePlayerManager → GamePlayerManager
  on_user_login info m =
      if not (is_success info.result)
      then m
      else if nat_beq info.user_id 0
      then m
      else (let (m1, a) = create_player info.user_id m in
          record m1 {
            heap = modify a (set_online true) (modify a (set_session info.session_id) m1.heap);
          })

unfoldable pub remove_player : ℕ → GamePlayerManager → GamePlayerManager
remove_player id m = record m { players = erase id m.players }

unfoldable pub on_user_logout : UserLoginInfo → GamePlayerManager → GamePlayerManager
unfolding remove_player
on_user_logout info m =
    if nat_beq info.user_id 0
    then m
    else remove_player info.user_id (elim (get_player m info.user_id) [
      | none ↦ m
      | some a ↦ record m { heap = modify a (set_online false) m.heap }
    ])

unfoldable pub set_player_room : ℕ → ℕ → GamePlayerManager → GamePlayerManager
set_player_room id room_id m = elim (get_player m id) [
  | none ↦ m
  | some a ↦ record m { heap = modify a (enter_room room_id) m.heap }
]
