-- ===== src/SessionManager/Sweep.antt =====
-- What a heartbeat sweep of network/session/SessionManager closes.
use own_game_server.Prelude.{
  ℕ, ◌+◌, ◌≡◌, ◌≢◌, ◌≤◌, ◌<◌, refl, false, none, some, List, [], ◌∷◌, nat_beq, nat_beq_iff, ltb,
  arith, Option-cases, Bool-cases, inl, inr, ◌⊎◌, ◌∙◌,
}
use own_game_server.Assoc.{Assoc, lookup, nat_eq, lookup-erase}
use own_game_server.SessionManager.{
  SessionManager, heartbeat_timeout, close_session, expired, close_sessions, finish_sweep,
  handle_heartbeat_sweep, get_session,
}

abbrev Among : ℕ → List ℕ → Type 0
Among id [] = ⊥
Among id (x ∷ xs) = (x ≡ id) ⊎ Among id xs

-- Whatever the id's heartbeats in the table, they are no older than the limit.
abbrev pub IsFresh : ℕ → ℕ → Assoc ℕ ℕ → Type 0
IsFresh now j [] = Unit {0}
IsFresh now j ((sid, at) ∷ rest) = (sid ≡ j → now ≤ at + heartbeat_timeout) × IsFresh now j rest

module _ {ℓ} {S : Type ℓ} where
  close_session_self :
      (id : ℕ) (m : SessionManager S) → get_session id (close_session id m).0 ≡ none
  unfolding close_session
  close_session_self id m = elim (Option-cases (lookup id m.sessions)) [
    | inl e ↦ rw (e, close_session) e
    | inr (s, e) ↦
        rw (e, close_session) (ground (arith, lookup-erase id id m.sessions, nat_beq_iff id id))
  ]

  close_session_ne :
      (id j : ℕ) (m : SessionManager S)
      → id ≢ j
      → get_session j (close_session id m).0 ≡ get_session j m
  unfolding close_session
  close_session_ne id j m n = elim (Option-cases (lookup id m.sessions)) [
    | inl e ↦ rw (e, close_session) refl
    | inr (s, e) ↦
        rw (e, close_session) (ground (arith, lookup-erase id j m.sessions, nat_beq_iff id j))
  ]

  close_sessions_gone :
      (ids : List ℕ) (j : ℕ) (m : SessionManager S)
      → get_session j m ≡ none
      → get_session j (close_sessions ids m) ≡ none
  unfolding close_sessions
  close_sessions_gone [] j m e = e
  close_sessions_gone (id ∷ ids) j m e = elim (Bool-cases (nat_beq id j)) [
    | inl same ↦
        close_sessions_gone ids j (close_session id m).0
          (ground (arith, close_session_self id m, nat_beq_iff id j))
    | inr other ↦
        close_sessions_gone ids j (close_session id m).0
          (close_session_ne id j m (ground (arith, nat_beq_iff id j)) ∙ e)
  ]

  close_sessions-Among :
      (ids : List ℕ) (j : ℕ) (m : SessionManager S)
      → Among j ids
      → get_session j (close_sessions ids m) ≡ none
  unfolding close_sessions
  close_sessions-Among [] j m a = absurd a
  close_sessions-Among (id ∷ ids) j m (inl same) =
      close_sessions_gone ids j (close_session id m).0 (ground (arith, close_session_self id m))
  close_sessions-Among (id ∷ ids) j m (inr a) = close_sessions-Among ids j (close_session id m).0 a

  close_sessions_kept :
      (ids : List ℕ) (j : ℕ) (m : SessionManager S)
      → (Among j ids → ⊥)
      → get_session j (close_sessions ids m) ≡ get_session j m
  unfolding close_sessions
  close_sessions_kept [] j m n = refl
  close_sessions_kept (id ∷ ids) j m n =
      close_sessions_kept ids j (close_session id m).0 (λ a. n (inr a))
      ∙ close_session_ne id j m (λ e. n (inl e))

  -- One more entry of the table.
  expired_cases :
      (now sid at : ℕ) (sessions : Assoc ℕ S) (times : Assoc ℕ ℕ)
      → (expired now sessions ((sid, at) ∷ times) ≡ expired now sessions times)
          × ((lookup sid sessions ≡ none) ⊎ (now ≤ at + heartbeat_timeout))
        ⊎ (expired now sessions ((sid, at) ∷ times) ≡ sid ∷ expired now sessions times)
          × (at + heartbeat_timeout < now)
  unfolding expired
  expired_cases now sid at sessions times = elim (Option-cases (lookup sid sessions)) [
    | inl e ↦ inl (rw (e, expired) refl, inl e)
    | inr (s, e) ↦ elim (Bool-cases (ltb (at + heartbeat_timeout) now)) [
      | inl old ↦ inr (rw (e, old, expired) refl, ground arith)
      | inr new ↦ inl (rw (e, new, expired) refl, inr (ground arith))
    ]
  ]

  expired-Among :
      (now j t : ℕ) (sessions : Assoc ℕ S) (s : S) (times : Assoc ℕ ℕ)
      → lookup j sessions ≡ some s
      → lookup j times ≡ some t
      → t + heartbeat_timeout < now
      → Among j (expired now sessions times)
  expired-Among now j t sessions s [] there e old = unfold lookup in cc
  expired-Among now j t sessions s ((sid, at) ∷ times) there e old =
      elim (Bool-cases (nat_beq sid j)) [
        | inl same ↦ elim (expired_cases now sid at sessions times) [
          | inl (_, kept) ↦ absurd (unfold lookup in ground (arith, nat_beq_iff sid j))
          | inr (now_first, _) ↦ rw now_first (inl (ground (arith, nat_beq_iff sid j)))
        ]
        | inr other ↦
            let later : Among j (expired now sessions times) =
              expired-Among now j t sessions s times there (unfold lookup in ground arith) old in
            elim (expired_cases now sid at sessions times) [
              | inl (same, _) ↦ rw same later
              | inr (now_first, _) ↦ rw now_first (inr later)
            ]
      ]

  expired_nil : (now : ℕ) (sessions : Assoc ℕ S) → expired now sessions [] ≡ []
  unfolding expired
  expired_nil now sessions = refl

  expired-IsFresh :
      (now j : ℕ) (sessions : Assoc ℕ S) (times : Assoc ℕ ℕ)
      → IsFresh now j times
      → Among j (expired now sessions times)
      → ⊥
  expired-IsFresh now j sessions [] f a = rw (expired_nil now sessions) at a
  expired-IsFresh now j sessions ((sid, at) ∷ times) (f, fs) a =
      elim (expired_cases now sid at sessions times) [
        | inl (same, _) ↦ expired-IsFresh now j sessions times fs (rw same at a)
        | inr (now_first, old) ↦ elim (rw now_first at a) [
          | inl e ↦ omega (arith, f e, old)
          | inr a' ↦ expired-IsFresh now j sessions times fs a'
        ]
      ]

  get_session-finish_sweep :
      (j : ℕ) (m : SessionManager S) → get_session j (finish_sweep m) ≡ get_session j m
  unfolding finish_sweep
  get_session-finish_sweep j m = ground arith

  -- A sweep that is not cancelled closes every session whose last heartbeat is more than 30 seconds
  -- old.
  pub handle_heartbeat_sweep_closed :
      (now j t : ℕ) (m : SessionManager S) (s : S)
      → get_session j m ≡ some s
      → lookup j m.last_heartbeat_at ≡ some t
      → t + heartbeat_timeout < now
      → get_session j (handle_heartbeat_sweep false now m) ≡ none
  unfolding handle_heartbeat_sweep
  handle_heartbeat_sweep_closed now j t m s there e old =
      get_session-finish_sweep j _
      ∙ close_sessions-Among (expired now m.sessions m.last_heartbeat_at) j _
          (expired-Among now j t m.sessions s m.last_heartbeat_at there e old)

  -- A sweep keeps, as it is, every session whose entries in the heartbeat table are at most 30
  -- seconds old.
  pub handle_heartbeat_sweep_kept :
      (now j : ℕ) (m : SessionManager S)
      → IsFresh now j m.last_heartbeat_at
      → get_session j (handle_heartbeat_sweep false now m) ≡ get_session j m
  unfolding handle_heartbeat_sweep
  handle_heartbeat_sweep_kept now j m fresh =
      get_session-finish_sweep j _
      ∙ close_sessions_kept (expired now m.sessions m.last_heartbeat_at) j _
          (expired-IsFresh now j m.sessions m.last_heartbeat_at fresh)
