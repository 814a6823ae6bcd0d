-- ===== src/Player.antt =====
-- core/User/UserBaseInfo.hpp, business/GamePlayer/GamePlayerInfo.hpp and GamePlayer.hpp: a player
-- object and its setters. `name_of` is the text "player_" followed by the decimal id.
use own_game_server.Prelude.{
  ℕ, ◌≡◌, Bool, false, String, nat_beq, nat_beq_iff, if◌then◌else◌, arith,
}

pub record UserBaseInfo : Type 0 where
  pub user_id : ℕ
  pub current_group_id : ℕ
  pub user_name : String
  pub session_id : ℕ
  pub is_online : Bool

pub record GamePlayerInfo : Type 0 where
  pub b_info : UserBaseInfo
  pub seat_index : ℕ
  pub color : ℕ
  pub position : ℕ
  pub ready : Bool

-- GamePlayer(user_id)
unfoldable pub new_player : (ℕ → String) → ℕ → GamePlayerInfo
new_player name_of user_id = record {
  b_info = record {
    user_id = user_id;
    current_group_id = 0;
    user_name = name_of user_id;
    session_id = 0;
    is_online = false;
  };
  seat_index = 0;
  color = 0;
  position = 0;
  ready = false;
}

abbrev pub set_session : ℕ → GamePlayerInfo → GamePlayerInfo
set_session session_id p = record p { b_info = record p.b_info { session_id = session_id } }

abbrev pub set_online : Bool → GamePlayerInfo → GamePlayerInfo
set_online online p = record p { b_info = record p.b_info { is_online = online } }

abbrev pub set_ready : Bool → GamePlayerInfo → GamePlayerInfo
set_ready ready p = record p { ready = ready }

abbrev pub enter_room : ℕ → GamePlayerInfo → GamePlayerInfo
enter_room room_id p = record p { b_info = record p.b_info { current_group_id = room_id } }

abbrev pub leave_room : GamePlayerInfo → GamePlayerInfo
leave_room p = record p { b_info = record p.b_info { current_group_id = 0 } }

abbrev pub set_user_name : String → GamePlayerInfo → GamePlayerInfo
set_user_name name p = record p { b_info = record p.b_info { user_name = name } }

abbrev pub update_info : GamePlayerInfo → GamePlayerInfo → GamePlayerInfo
update_info new_info p = new_info

abbrev pub get_group_id : GamePlayerInfo → ℕ
get_group_id p = p.b_info.current_group_id

-- The player objects: an address is what a `shared_ptr` holds, and all its copies see a change.
pub record Heap : Type 0 where
  pub at : ℕ → GamePlayerInfo
  pub next : ℕ

unfoldable pub write : ℕ → GamePlayerInfo → Heap → Heap
write a p h = record h { at = λ b. if nat_beq a b then p else h.at b }

-- player->SetX(…)
abbrev pub modify : ℕ → (GamePlayerInfo → GamePlayerInfo) → Heap → Heap
modify a f h = write a (f (h.at a)) h

-- GetPlayerId
abbrev pub player_id_at : Heap → ℕ → ℕ
player_id_at h a = (h.at a).b_info.user_id

-- A write that keeps the player's id keeps every player's id.
pub player_id_at-write :
    (h : Heap) (a b : ℕ) (p : GamePlayerInfo)
    → p.b_info.user_id ≡ player_id_at h a
    → player_id_at (write a p h) b ≡ player_id_at h b
unfolding write
player_id_at-write h a b p e = ground (arith, nat_beq_iff a b)
