-- ===== src/UserSessionMap.antt =====
-- protocol/Router/UserSessionMap: the two tables that join users to network sessions. Each method
-- holds the lock from its first line to its last, so a call is one step; id 0 means "none".
pub mod Consistency
pub mod Login
mod Tests
use own_game_server.Prelude.{
  ℕ, Bool, true, false, Option, none, some, ◌||◌, not, if◌then◌else◌, length, List, [],
}
use own_game_server.Assoc.{Assoc, ◌==◌, nat_eq, lookup, insert, erase}
use own_game_server.Messages.{LoginResult, UserLoginInfo, is_success}

pub record UserSessionMap : Type 0 where
  pub user_to_session : Assoc ℕ ℕ
  pub session_to_user : Assoc ℕ ℕ

abbrev pub empty_map : UserSessionMap
empty_map = record { user_to_session = []; session_to_user = [] }

-- Bind: the user's old session loses its user; nothing is done about the session's old user.
unfoldable pub bind : UserSessionMap → ℕ → ℕ → UserSessionMap
bind m user_id session_id = record {
  user_to_session = insert user_id session_id m.user_to_session;
  session_to_user = insert session_id user_id (elim (lookup user_id m.user_to_session) [
    | none ↦ m.session_to_user
    | some old ↦ erase old m.session_to_user
  ]);
}

unfoldable pub unbind : UserSessionMap → ℕ → UserSessionMap × Bool
unbind m user_id = elim (lookup user_id m.user_to_session) [
  | none ↦ (m, false)
  | some session_id ↦ (
    record {
      user_to_session = erase user_id m.user_to_session;
      session_to_user = erase session_id m.session_to_user;
    },
    true,
  )
]

unfoldable pub unbind_by_session_id : UserSessionMap → ℕ → UserSessionMap × Bool
unbind_by_session_id m session_id = elim (lookup session_id m.session_to_user) [
  | none ↦ (m, false)
  | some uid ↦ (
    record {
      user_to_session = erase uid m.user_to_session;
      session_to_user = erase session_id m.session_to_user;
    },
    true,
  )
]

abbrev pub or_zero : Option ℕ → ℕ
or_zero none = 0
or_zero (some n) = n

unfoldable pub get_session_id : UserSessionMap → ℕ → ℕ
get_session_id m user_id = or_zero (lookup user_id m.user_to_session)

unfoldable pub get_user_id : UserSessionMap → ℕ → ℕ
get_user_id m session_id = or_zero (lookup session_id m.session_to_user)

unfoldable pub size : UserSessionMap → ℕ
size m = length m.user_to_session

unfoldable pub on_user_login : UserSessionMap → UserLoginInfo → UserSessionMap
unfolding bind
on_user_login m info =
    if not (is_success info.result) || (info.user_id == 0 || info.session_id == 0)
    then m
    else bind m info.user_id info.session_id

unfoldable pub on_user_logout : UserSessionMap → UserLoginInfo → UserSessionMap
unfolding unbind unbind_by_session_id
on_user_logout m info =
    if not (info.user_id == 0)
    then (unbind m info.user_id).0
    else if not (info.session_id == 0)
    then (unbind_by_session_id m info.session_id).0
    else m
