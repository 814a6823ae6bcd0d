-- ===== src/UserSessionMap/Login.antt =====
-- The login and logout callbacks of protocol/Router/UserSessionMap, and histories of them.
use own_game_server.Prelude.{
  ℕ, ◌≡◌, ◌≢◌, ◌⊎◌, inl, inr, true, false, some, List, [], ◌∷◌, arith, Option-cases, ap,
}
use own_game_server.Assoc.{lookup, lookup-erase, nat_eq}
use own_game_server.Messages.{UserLoginInfo, is_success}
use own_game_server.UserSessionMap.{
  UserSessionMap, empty_map, bind, unbind, unbind_by_session_id, get_session_id, get_user_id,
  on_user_login, on_user_logout, or_zero,
}
use own_game_server.UserSessionMap.Consistency.{
  IsConsistent, IsConsistent-empty_map, bind_users, bind_sessions, bind-IsConsistent,
  unbind-IsConsistent, unbind_by_session_id-IsConsistent,
}

pub on_user_login-IsConsistent :
    (m : UserSessionMap) (info : UserLoginInfo)
    → IsConsistent m
    → IsConsistent (on_user_login m info)
unfolding on_user_login
on_user_login-IsConsistent m info v =
    ground (arith, bind-IsConsistent m info.user_id info.session_id v)

pub on_user_logout-IsConsistent :
    (m : UserSessionMap) (info : UserLoginInfo)
    → IsConsistent m
    → IsConsistent (on_user_logout m info)
unfolding on_user_logout
on_user_logout-IsConsistent m info v = ground (
  arith,
  unbind-IsConsistent m info.user_id v,
  unbind_by_session_id-IsConsistent m info.session_id v,
)

-- What reaches the map: the callbacks, and the router's three registration calls.
pub data Event : Type 0 where
  login logout : UserLoginInfo → Event
  register : ℕ → ℕ → Event
  unregister_user unregister_session : ℕ → Event

unfoldable pub handle : UserSessionMap → Event → UserSessionMap
unfolding on_user_login on_user_logout bind unbind unbind_by_session_id
handle m (login info) = on_user_login m info
handle m (logout info) = on_user_logout m info
handle m (register user_id session_id) = bind m user_id session_id
handle m (unregister_user user_id) = (unbind m user_id).0
handle m (unregister_session session_id) = (unbind_by_session_id m session_id).0

unfoldable pub history : UserSessionMap → List Event → UserSessionMap
unfolding handle
history m [] = m
history m (e ∷ es) = history (handle m e) es

handle-IsConsistent : (m : UserSessionMap) (e : Event) → IsConsistent m → IsConsistent (handle m e)
unfolding handle
handle-IsConsistent m (login info) v = on_user_login-IsConsistent m info v
handle-IsConsistent m (logout info) v = on_user_logout-IsConsistent m info v
handle-IsConsistent m (register user_id session_id) v = bind-IsConsistent m user_id session_id v
handle-IsConsistent m (unregister_user user_id) v = unbind-IsConsistent m user_id v
handle-IsConsistent m (unregister_session s) v = unbind_by_session_id-IsConsistent m s v

history-IsConsistent :
    (m : UserSessionMap) (es : List Event) → IsConsistent m → IsConsistent (history m es)
unfolding history
history-IsConsistent m [] v = v
history-IsConsistent m (e ∷ es) v = history-IsConsistent (handle m e) es (handle-IsConsistent m e v)

-- After any sequence of logins, logouts, registrations and removals that starts from empty tables,
-- a session that GetUserId gives a non-zero user is the session that GetSessionId gives that user.
pub get_session_id-get_user_id :
    (es : List Event) (s : ℕ)
    → get_user_id (history empty_map es) s ≢ 0
    → get_session_id (history empty_map es) (get_user_id (history empty_map es) s) ≡ s
unfolding get_session_id get_user_id
get_session_id-get_user_id es s h = elim (Option-cases (lookup s m.session_to_user)) [
  | inl e ↦ absurd (h (ap or_zero e))
  | inr (u, e) ↦
      rw e (ap or_zero ((history-IsConsistent empty_map es IsConsistent-empty_map).back s u e))
]
  where
    m : UserSessionMap
    m = history empty_map es

-- A successful login with non-zero ids makes the two look-ups answer each other, and leaves the
-- session of every other user as it was.
pub on_user_login_lem :
    (m : UserSessionMap) (info : UserLoginInfo)
    → is_success info.result ≡ true
    → info.user_id ≢ 0
    → info.session_id ≢ 0
    → (get_session_id (on_user_login m info) info.user_id ≡ info.session_id)
      × (get_user_id (on_user_login m info) info.session_id ≡ info.user_id)
      × ((u : ℕ) → u ≢ info.user_id → get_session_id (on_user_login m info) u ≡ get_session_id m u)
unfolding on_user_login get_session_id get_user_id
on_user_login_lem m info ok hu hs = (
  ground (arith, bind_users m info.user_id info.session_id info.user_id),
  ground (arith, bind_sessions m info.user_id info.session_id info.session_id),
  λ u n. ground (arith, bind_users m info.user_id info.session_id u),
)

-- A login that failed, or that has a zero id, changes nothing.
pub on_user_login_refused :
    (m : UserSessionMap) (info : UserLoginInfo)
    → (is_success info.result ≡ false) ⊎ ((info.user_id ≡ 0) ⊎ (info.session_id ≡ 0))
    → on_user_login m info ≡ m
unfolding on_user_login
on_user_login_refused m info h = ground arith

-- When a second user is bound to a session, the first keeps it in the user table; unbinding the
-- first then takes the session's user away, though the second is still sent to that session.
pub unbind_stale :
    (m : UserSessionMap) (u v s : ℕ)
    → u ≢ v
    → (get_session_id (bind (bind m u s) v s) u ≡ s)
      × (get_user_id (unbind (bind (bind m u s) v s) u).0 s ≡ 0)
      × (get_session_id (unbind (bind (bind m u s) v s) u).0 v ≡ s)
unfolding get_session_id get_user_id unbind
unbind_stale m u v s n =
    let first : lookup u (bind (bind m u s) v s).user_to_session ≡ some s =
      ground (arith, bind_users (bind m u s) v s u, bind_users m u s u) in
    let second : lookup v (bind (bind m u s) v s).user_to_session ≡ some s =
      ground (arith, bind_users (bind m u s) v s v) in
    (
      rw first,
      rw (first, unbind, lookup-erase) (ground arith),
      rw (first, unbind, lookup-erase) (ground (arith, second)),
    )
