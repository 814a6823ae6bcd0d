-- ===== src/PlayerManager/Registry.antt =====
-- The registry of business/GamePlayer/GamePlayerManager.cpp and the objects that it holds.
use own_game_server.Prelude.{
  ℕ, ◌≡◌, ◌≢◌, ◌<◌, refl, true, false, not, none, some, List, [], ◌∷◌, Bool-cases, ◌≢◌, nat_beq,
  nat_beq_iff, String, arith, Option-cases, inl, inr,
}
use own_game_server.Assoc.{lookup, nat_eq, lookup-emplace, lookup-erase}
use own_game_server.Messages.{UserLoginInfo, is_success}
use own_game_server.Player.{
  GamePlayerInfo, new_player, set_session, set_online, enter_room, write, modify,
}
use own_game_server.PlayerManager.{
  GamePlayerManager, get_player, get_player_info, create_player, on_user_login, remove_player,
  on_user_logout, set_player_room,
}

-- A registered object was made for the id that it is registered under.
pub record IsSound (m : GamePlayerManager) : Type 0 where
  pub named : (id a : ℕ) → lookup id m.players ≡ some a → (m.heap.at a).b_info.user_id ≡ id
  pub made : (id a : ℕ) → lookup id m.players ≡ some a → a < m.heap.next

module _ (name_of : ℕ → String) where
  create_player-IsSound :
      (id : ℕ) (m : GamePlayerManager) → IsSound m → IsSound (create_player name_of id m).0
  unfolding create_player write new_player
  create_player-IsSound id m s = record {
    named =
        λ j a e. ground (arith, s.named j a, s.made j a, lookup-emplace id j m.heap.next m.players);
    made = λ j a e. ground (arith, s.made j a, lookup-emplace id j m.heap.next m.players);
  }

modify-IsSound :
    (a : ℕ) (f : GamePlayerInfo → GamePlayerInfo) (m : GamePlayerManager)
    → ((p : GamePlayerInfo) → (f p).b_info.user_id ≡ p.b_info.user_id)
    → IsSound m
    → IsSound (record m { heap = modify a f m.heap })
unfolding write
modify-IsSound a f m keeps s = record {
  named = λ j b e. ground (arith, s.named j b, keeps (m.heap.at a), nat_beq_iff a b);
  made = s.made;
}

found :
    (m : GamePlayerManager) (id : ℕ) (p : GamePlayerInfo)
    → IsSound m
    → get_player_info m id ≡ some p
    → p.b_info.user_id ≡ id
unfolding get_player_info
found m id p s e = elim (Option-cases (lookup id m.players)) [
  | inl n ↦ ground arith
  | inr (a, n) ↦ ground (arith, s.named id a n)
]

remove_player-IsSound : (id : ℕ) (m : GamePlayerManager) → IsSound m → IsSound (remove_player id m)
unfolding remove_player
remove_player-IsSound id m s = record {
  named = λ j a e. ground (arith, s.named j a, lookup-erase id j m.players);
  made = λ j a e. ground (arith, s.made j a, lookup-erase id j m.players);
}

set_player_room-IsSound :
    (id room : ℕ) (m : GamePlayerManager) → IsSound m → IsSound (set_player_room id room m)
unfolding set_player_room
set_player_room-IsSound id room m s = elim (Option-cases (lookup id m.players)) [
  | inl e ↦ rw (e, set_player_room) s
  | inr (a, e) ↦ rw (e, set_player_room) (modify-IsSound a (enter_room room) m (λ p. refl) s)
]

on_user_logout-IsSound :
    (info : UserLoginInfo) (m : GamePlayerManager) → IsSound m → IsSound (on_user_logout info m)
unfolding on_user_logout
on_user_logout-IsSound info m s = elim (Bool-cases (nat_beq info.user_id 0)) [
  | inl e ↦ rw (e, on_user_logout) s
  | inr e ↦ elim (Option-cases (lookup info.user_id m.players)) [
    | inl n ↦ rw (e, n, on_user_logout) (remove_player-IsSound info.user_id m s)
    | inr (a, n) ↦
        rw (e, n, on_user_logout)
          (remove_player-IsSound info.user_id _
            (modify-IsSound a (set_online false) m (λ p. refl) s))
  ]
]

module _ (name_of : ℕ → String) where
  pub on_user_login-IsSound :
      (info : UserLoginInfo) (m : GamePlayerManager)
      → IsSound m
      → IsSound (on_user_login name_of info m)
  unfolding on_user_login
  on_user_login-IsSound info m s = elim (Bool-cases (not (is_success info.result))) [
    | inl e ↦ rw (e, on_user_login) s
    | inr e ↦ elim (Bool-cases (nat_beq info.user_id 0)) [
      | inl z ↦ rw (e, z, on_user_login) s
      | inr z ↦
          rw (e, z, on_user_login)
            (modify-IsSound _ (set_online true) _ (λ p. refl)
              (modify-IsSound _ (set_session info.session_id) _ (λ p. refl)
                (create_player-IsSound name_of info.user_id m s)))
    ]
  ]

  -- What reaches the manager.
  pub data Event : Type 0 where
    login logout : UserLoginInfo → Event
    enter : ℕ → ℕ → Event

  unfoldable pub handle : GamePlayerManager → Event → GamePlayerManager
  handle m (login info) = on_user_login name_of info m
  handle m (logout info) = on_user_logout info m
  handle m (enter id room) = set_player_room id room m

  unfoldable pub history : GamePlayerManager → List Event → GamePlayerManager
  history m [] = m
  history m (e ∷ es) = history (handle m e) es

  handle-IsSound : (m : GamePlayerManager) (e : Event) → IsSound m → IsSound (handle m e)
  unfolding handle
  handle-IsSound m (login info) s = on_user_login-IsSound info m s
  handle-IsSound m (logout info) s = on_user_logout-IsSound info m s
  handle-IsSound m (enter id room) s = set_player_room-IsSound id room m s

  history-IsSound : (m : GamePlayerManager) (es : List Event) → IsSound m → IsSound (history m es)
  unfolding history
  history-IsSound m [] s = s
  history-IsSound m (e ∷ es) s = history-IsSound (handle m e) es (handle-IsSound m e s)

  -- From any sound registry, after any history of logins, logouts and room entries, a player that
  -- is found under an id is one made for that id.
  pub get_player_info-history :
      (m : GamePlayerManager) (es : List Event) (id : ℕ) (p : GamePlayerInfo)
      → IsSound m
      → get_player_info (history m es) id ≡ some p
      → p.b_info.user_id ≡ id
  get_player_info-history m es id p s e = found (history m es) id p (history-IsSound m es s) e

  -- A successful login with an id other than 0 leaves the player registered under the id, online,
  -- in the login's session.
  pub get_player-on_user_login :
      (info : UserLoginInfo) (m : GamePlayerManager)
      → is_success info.result ≡ true
      → info.user_id ≢ 0
      → (a : ℕ) × (get_player (on_user_login name_of info m) info.user_id ≡ some a)
        × (((on_user_login name_of info m).heap.at a).b_info.session_id ≡ info.session_id)
        × (((on_user_login name_of info m).heap.at a).b_info.is_online ≡ true)
  unfolding on_user_login create_player write
  get_player-on_user_login info m ok some_id = elim (Option-cases (lookup info.user_id m.players)) [
    | inl e ↦ (
      m.heap.next,
      ground (arith, lookup-emplace info.user_id info.user_id m.heap.next m.players),
      ground (arith),
      ground (arith),
    )
    | inr (a, e) ↦ (a, ground arith, ground arith, ground arith)
  ]

-- After a logout with an id other than 0 the id is not registered.
pub get_player-on_user_logout :
    (info : UserLoginInfo) (m : GamePlayerManager)
    → info.user_id ≢ 0
    → get_player (on_user_logout info m) info.user_id ≡ none
unfolding on_user_logout remove_player
get_player-on_user_logout info m some_id = elim (Option-cases (lookup info.user_id m.players)) [
  | inl e ↦ ground (arith, lookup-erase info.user_id info.user_id m.players)
  | inr (a, e) ↦ ground (arith, lookup-erase info.user_id info.user_id m.players)
]
