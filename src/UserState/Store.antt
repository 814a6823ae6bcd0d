-- ===== src/UserState/Store.antt =====
-- The store of core/User/UserStateManager as one map of users.
use own_game_server.Prelude.{
  ℕ, ◌≡◌, ◌≢◌, Bool, true, false, none, some, String, nat_beq, nat_beq_iff, if◌then◌else◌, arith,
  Option-cases, inl, inr,
}
use own_game_server.Assoc.{lookup, nat_eq, lookup-insert}
use own_game_server.Messages.{UserLoginInfo, is_success}
use own_game_server.Player.{UserBaseInfo}
use own_game_server.UserState.{
  UserStates, get_user_state, update_field, update_user_group, update_user_online_status,
  update_user_name, update_user_session, update_user_state, on_user_login, on_user_logout,
}

-- The updates of a single field, as the interface IUserStateStore has them.
pub data Update : Type 0 where
  to_group : ℕ → Update
  to_online : Bool → Update
  to_name : String → Update
  to_session : ℕ → Update

abbrev pub applied_to : Update → UserBaseInfo → UserBaseInfo
applied_to (to_group g) u = record u { current_group_id = g }
applied_to (to_online b) u = record u { is_online = b }
applied_to (to_name n) u = record u { user_name = n }
applied_to (to_session s) u = record u { session_id = s }

unfoldable pub update : ℕ → Update → UserStates → UserStates × Bool
update id (to_group g) m = update_user_group id g m
update id (to_online b) m = update_user_online_status id b m
update id (to_name n) m = update_user_name id n m
update id (to_session s) m = update_user_session id s m

update_field_lem :
    (id j : ℕ) (f : UserBaseInfo → UserBaseInfo) (m : UserStates)
    → (get_user_state j (update_field id f m).0 ≡ (
        if nat_beq id j
        then elim (get_user_state id m) [ none ↦ none | some u ↦ some (f u) ]
        else get_user_state j m))
      × ((update_field id f m).1 ≡ (elim (get_user_state id m) [ none ↦ false | some u ↦ true ]))
unfolding update_field
update_field_lem id j f m = elim (Option-cases (lookup id m)) [
  | inl e ↦ (ground (arith, nat_beq_iff id j), ground arith)
  | inr (u, e) ↦ (ground (arith, lookup-insert id j (f u) m), ground arith)
]

-- An update of a field changes that field of that user and no other user, and it answers true
-- exactly where the user is there; where the user is not, nothing changes.
pub update_lem :
    (id j : ℕ) (u : Update) (m : UserStates)
    → (get_user_state j (update id u m).0 ≡ (
        if nat_beq id j
        then elim (get_user_state id m) [ none ↦ none | some v ↦ some (applied_to u v) ]
        else get_user_state j m))
      × ((update id u m).1 ≡ (elim (get_user_state id m) [ none ↦ false | some v ↦ true ]))
unfolding update update_user_group update_user_online_status update_user_name update_user_session
update_lem id j (to_group g) m = update_field_lem id j (applied_to (to_group g)) m
update_lem id j (to_online b) m = update_field_lem id j (applied_to (to_online b)) m
update_lem id j (to_name n) m = update_field_lem id j (applied_to (to_name n)) m
update_lem id j (to_session t) m = update_field_lem id j (applied_to (to_session t)) m

logged_in :
    (name_of : ℕ → String) (info : UserLoginInfo) (m : UserStates)
    → is_success info.result ≡ true
    → info.user_id ≢ 0
    → get_user_state info.user_id (on_user_login name_of info m)
      ≡ some (record {
        user_id = info.user_id;
        current_group_id = 0;
        user_name = name_of info.user_id;
        session_id = info.session_id;
        is_online = true;
      })
unfolding on_user_login update_user_state
logged_in name_of info m good nz = ground (
  arith,
  lookup-insert info.user_id info.user_id
      (record {
        user_id = info.user_id;
        current_group_id = 0;
        user_name = name_of info.user_id;
        session_id = info.session_id;
        is_online = true;
      })
      m,
  nat_beq_iff info.user_id info.user_id,
)

logged_out :
    (info : UserLoginInfo) (m : UserStates) (u : UserBaseInfo)
    → get_user_state info.user_id m ≡ some u
    → info.user_id ≢ 0
    → get_user_state info.user_id (on_user_logout info m) ≡ some (record u { is_online = false })
unfolding on_user_logout update_user_online_status update_field
logged_out info m u there nz = ground (
  arith,
  lookup-insert info.user_id info.user_id (record u { is_online = false }) m,
  nat_beq_iff info.user_id info.user_id,
)

-- After a successful login with an id other than 0 and a logout, the user is still known: in the
-- session of the login, in no group, and not online.
pub on_user_logout-on_user_login :
    (name_of : ℕ → String) (info : UserLoginInfo) (m : UserStates)
    → is_success info.result ≡ true
    → info.user_id ≢ 0
    → get_user_state info.user_id (on_user_logout info (on_user_login name_of info m))
      ≡ some (record {
        user_id = info.user_id;
        current_group_id = 0;
        user_name = name_of info.user_id;
        session_id = info.session_id;
        is_online = false;
      })
on_user_logout-on_user_login name_of info m good nz =
    logged_out info (on_user_login name_of info m) _ (logged_in name_of info m good nz) nz
