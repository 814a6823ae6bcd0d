-- ===== src/UserState.antt =====
-- core/User/UserStateManager: the state of each user that has logged in. A lock orders the
-- operations. `name_of` is the text "player_" followed by the decimal id.
pub mod Store
use own_game_server.Prelude.{
  ℕ, Bool, true, false, not, Option, none, some, String, nat_beq, if◌then◌else◌,
}
use own_game_server.Assoc.{Assoc, lookup, insert, nat_eq}
use own_game_server.Messages.{UserLoginInfo, is_success}
use own_game_server.Player.{UserBaseInfo}

abbrev pub UserStates : Type 0
UserStates = Assoc ℕ UserBaseInfo

abbrev pub get_user_state : ℕ → UserStates → Option UserBaseInfo
get_user_state id m = lookup id m

-- The write of a field through the iterator that `find` gives.
unfoldable pub update_field : ℕ → (UserBaseInfo → UserBaseInfo) → UserStates → UserStates × Bool
update_field id f m = elim (lookup id m) [ none ↦ (m, false) | some u ↦ (insert id (f u) m, true) ]

unfoldable pub update_user_group : ℕ → ℕ → UserStates → UserStates × Bool
unfolding update_field
update_user_group id group = update_field id (λ u. record u { current_group_id = group })

unfoldable pub update_user_online_status : ℕ → Bool → UserStates → UserStates × Bool
unfolding update_field
update_user_online_status id online = update_field id (λ u. record u { is_online = online })

unfoldable pub update_user_name : ℕ → String → UserStates → UserStates × Bool
unfolding update_field
update_user_name id name = update_field id (λ u. record u { user_name = name })

unfoldable pub update_user_session : ℕ → ℕ → UserStates → UserStates × Bool
unfolding update_field
update_user_session id session = update_field id (λ u. record u { session_id = session })

unfoldable pub update_user_state : UserBaseInfo → UserStates → UserStates × Bool
update_user_state info m = (insert info.user_id info m, true)

unfoldable pub on_user_login : (ℕ → String) → UserLoginInfo → UserStates → UserStates
unfolding update_user_state
on_user_login name_of info m =
    if not (is_success info.result)
    then m
    else if nat_beq info.user_id 0
    then m
    else (update_user_state
        (record {
          user_id = info.user_id;
          current_group_id = 0;
          user_name = name_of info.user_id;
          session_id = info.session_id;
          is_online = true;
        })
        m).0

unfoldable pub on_user_logout : UserLoginInfo → UserStates → UserStates
unfolding update_user_online_status
on_user_logout info m =
    if nat_beq info.user_id 0 then m else (update_user_online_status info.user_id false m).0
