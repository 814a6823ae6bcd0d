-- ===== src/SessionManager/Upkeep.antt =====
-- The two maps of network/session/SessionManager under its events.
use own_game_server.Prelude.{
  ℕ, ◌+◌, ◌%◌, ◌≡◌, ◌≢◌, ◌≤◌, ◌<◌, Bool, true, false, not, none, some, List, [], ◌∷◌, nat_beq,
  nat_beq_iff, leb, length, u32_mod, arith, Option-cases, Bool-cases, inl, inr,
}
use own_game_server.Assoc.{
  lookup, insert, emplace, nat_eq, lookup-insert, lookup-erase, lookup-emplace, length-erase-le,
}
use own_game_server.SessionManager.{
  SessionManager, max_connection_num, allocate_session_id, insert_session, forget, create_session,
  close_session, on_session_heartbeat, expired, close_sessions, finish_sweep, is_empty,
  handle_heartbeat_sweep,
}

-- What changes the manager: a connection, a closed socket, a heartbeat, a sweep.
pub data Event : Type 0 where
  connected : Bool → Bool → ℕ → Event
  disconnected : ℕ → Event
  heartbeat : ℕ → ℕ → Event
  swept : Bool → ℕ → Event

module _ {ℓ} {S : Type ℓ} where
  -- Exactly the sessions have a heartbeat, there are at most 1,000, and none has the id 0.
  pub record IsInStep (m : SessionManager S) : Type ℓ where
    pub timed :
        (id : ℕ) (s : S)
        → lookup id m.sessions ≡ some s
        → (t : ℕ) × (lookup id m.last_heartbeat_at ≡ some t)
    pub live :
        (id t : ℕ)
        → lookup id m.last_heartbeat_at ≡ some t
        → (s : S) × (lookup id m.sessions ≡ some s)
    pub bounded : length m.sessions ≤ max_connection_num
    pub no_zero : lookup 0 m.sessions ≡ none

  forget-IsInStep : (id : ℕ) (m : SessionManager S) → IsInStep m → IsInStep (forget id m)
  forget-IsInStep id m v = record {
    timed = λ j s e.
        let (t, h) = v.timed j s (ground (arith, lookup-erase id j m.sessions)) in
        (t, ground (arith, lookup-erase id j m.last_heartbeat_at, lookup-erase id j m.sessions));
    live = λ j t e.
        let (s, h) = v.live j t (ground (arith, lookup-erase id j m.last_heartbeat_at)) in
        (s, ground (arith, lookup-erase id j m.last_heartbeat_at, lookup-erase id j m.sessions));
    bounded = omega (arith, length-erase-le id m.sessions, v.bounded);
    no_zero = ground (arith, lookup-erase id 0 m.sessions, v.no_zero);
  }

  close_session-IsInStep :
      (id : ℕ) (m : SessionManager S) → IsInStep m → IsInStep (close_session id m).0
  unfolding close_session
  close_session-IsInStep id m v = elim (Option-cases (lookup id m.sessions)) [
    | inl e ↦ rw (e, close_session) v
    | inr (s, e) ↦
        let w : IsInStep (forget id m) = forget-IsInStep id m v in
        rw (e, close_session)
          (record { timed = w.timed; live = w.live; bounded = w.bounded; no_zero = w.no_zero })
  ]

  -- Both maps get an entry of a new id.
  added-IsInStep :
      (id : ℕ) (s : S) (now : ℕ) (m : SessionManager S)
      → id ≢ 0
      → lookup id m.sessions ≡ none
      → length m.sessions < max_connection_num
      → IsInStep m
      → IsInStep (record m {
        sessions = emplace id s m.sessions;
        last_heartbeat_at = insert id now m.last_heartbeat_at;
      })
  added-IsInStep id s now m nz new room v = record {
    timed = λ j x h. elim (Bool-cases (nat_beq id j)) [
      | inl same ↦ (now, ground (arith, lookup-insert id j now m.last_heartbeat_at))
      | inr other ↦
          let (t, k) = v.timed j x (ground (arith, lookup-emplace id j s m.sessions)) in
          (t, ground (arith, lookup-insert id j now m.last_heartbeat_at))
    ];
    live = λ j t h. elim (Bool-cases (nat_beq id j)) [
      | inl same ↦ (s, ground (arith, lookup-emplace id j s m.sessions))
      | inr other ↦
          let (x, k) = v.live j t (ground (arith, lookup-insert id j now m.last_heartbeat_at)) in
          (x, ground (arith, lookup-emplace id j s m.sessions))
    ];
    bounded = unfold emplace in ground arith;
    no_zero = ground (arith, lookup-emplace id 0 s m.sessions, v.no_zero, nat_beq_iff id 0);
  }

  insert_session-IsInStep :
      (id : ℕ) (s : S) (now : ℕ) (m : SessionManager S)
      → id ≢ 0
      → IsInStep m
      → IsInStep (insert_session id s now m).0
  unfolding insert_session
  insert_session-IsInStep id s now m nz v =
      elim (Bool-cases (leb max_connection_num (length m.sessions))) [
        | inl full ↦ rw (full, insert_session) v
        | inr room ↦ elim (Option-cases (lookup id m.sessions)) [
          | inr (x, e) ↦ rw (room, e, insert_session) v
          | inl e ↦ rw (room, e, insert_session) (added-IsInStep id s now m nz e (ground arith) v)
        ]
      ]

  on_session_heartbeat-IsInStep :
      (id now : ℕ) (m : SessionManager S) → IsInStep m → IsInStep (on_session_heartbeat id now m)
  unfolding on_session_heartbeat
  on_session_heartbeat-IsInStep id now m v = elim (Option-cases (lookup id m.sessions)) [
    | inl e ↦ rw (e, on_session_heartbeat) v
    | inr (s, e) ↦
        rw (e, on_session_heartbeat)
          (record {
            timed = λ j x h. elim (Bool-cases (nat_beq id j)) [
              | inl same ↦ (now, ground (arith, lookup-insert id j now m.last_heartbeat_at))
              | inr other ↦
                  let (t, k) = v.timed j x h in
                  (t, ground (arith, lookup-insert id j now m.last_heartbeat_at))
            ];
            live = λ j t h. elim (Bool-cases (nat_beq id j)) [
              | inl same ↦ (s, ground (arith, nat_beq_iff id j))
              | inr other ↦ v.live j t (ground (arith, lookup-insert id j now m.last_heartbeat_at))
            ];
            bounded = v.bounded;
            no_zero = v.no_zero;
          })
  ]

  -- The counter and the sweep's flags do not matter.
  with_next-IsInStep :
      (n : ℕ) (m : SessionManager S) → IsInStep m → IsInStep (record m { next_session_id = n })
  with_next-IsInStep n m v = record {
    timed = v.timed;
    live = v.live;
    bounded = v.bounded;
    no_zero = v.no_zero;
  }

  with_sweep-IsInStep :
      (b c : Bool) (m : SessionManager S)
      → IsInStep m
      → IsInStep (record m { heartbeat_sweep_running = b; sweep_armed = c })
  with_sweep-IsInStep b c m v = record {
    timed = v.timed;
    live = v.live;
    bounded = v.bounded;
    no_zero = v.no_zero;
  }

  create_session-IsInStep :
      (make : ℕ → S) (usable starts : Bool) (now : ℕ) (m : SessionManager S)
      → IsInStep m
      → IsInStep (create_session make usable starts now m).0
  unfolding create_session allocate_session_id
  create_session-IsInStep make usable starts now m v = elim (Bool-cases usable) [
    | inr u ↦ rw (u, create_session) v
    | inl u ↦ elim (Bool-cases (nat_beq m.next_session_id 0)) [
      | inl z ↦ rw (u, z, create_session) w
      | inr z ↦
          let k : IsInStep (insert_session m.next_session_id (make m.next_session_id) now m1).0 =
            insert_session-IsInStep m.next_session_id (make m.next_session_id) now m1 (ground arith)
              w in
          elim (Bool-cases
            (not (insert_session m.next_session_id (make m.next_session_id) now m1).1)) [
              | inl failed ↦ rw (u, z, failed, create_session) k
              | inr done ↦ elim (Bool-cases starts) [
                | inl st ↦ rw (u, z, done, st, create_session) k
                | inr st ↦
                    rw (u, z, done, st, create_session) (forget-IsInStep m.next_session_id _ k)
              ]
            ]
    ]
  ]
    where
      m1 : SessionManager S
      m1 = record m { next_session_id = (m.next_session_id + 1) % u32_mod }

      w : IsInStep m1
      w = with_next-IsInStep _ m v

  close_sessions-IsInStep :
      (ids : List ℕ) (m : SessionManager S) → IsInStep m → IsInStep (close_sessions ids m)
  unfolding close_sessions
  close_sessions-IsInStep [] m v = v
  close_sessions-IsInStep (id ∷ ids) m v =
      close_sessions-IsInStep ids (close_session id m).0 (close_session-IsInStep id m v)

  finish_sweep-IsInStep : (m : SessionManager S) → IsInStep m → IsInStep (finish_sweep m)
  unfolding finish_sweep
  finish_sweep-IsInStep m v = elim (Bool-cases (is_empty m.sessions)) [
    | inl e ↦ rw (e, finish_sweep) (with_sweep-IsInStep false m.sweep_armed m v)
    | inr e ↦ rw (e, finish_sweep) (with_sweep-IsInStep m.heartbeat_sweep_running true m v)
  ]

  handle_heartbeat_sweep-IsInStep :
      (aborted : Bool) (now : ℕ) (m : SessionManager S)
      → IsInStep m
      → IsInStep (handle_heartbeat_sweep aborted now m)
  unfolding handle_heartbeat_sweep
  handle_heartbeat_sweep-IsInStep true now m v =
      with_sweep-IsInStep m.heartbeat_sweep_running false m v
  handle_heartbeat_sweep-IsInStep false now m v = finish_sweep-IsInStep _ (
      close_sessions-IsInStep (expired now m.sessions m.last_heartbeat_at) _
        (with_sweep-IsInStep m.heartbeat_sweep_running false m v))

  module _ (make : ℕ → S) where
    unfoldable pub handle : SessionManager S → Event → SessionManager S
    handle m (connected usable starts now) = (create_session make usable starts now m).0
    handle m (disconnected id) = (close_session id m).0
    handle m (heartbeat id now) = on_session_heartbeat id now m
    handle m (swept aborted now) = handle_heartbeat_sweep aborted now m

    unfoldable pub history : SessionManager S → List Event → SessionManager S
    history m [] = m
    history m (e ∷ es) = history (handle m e) es

    handle-IsInStep : (m : SessionManager S) (e : Event) → IsInStep m → IsInStep (handle m e)
    unfolding handle
    handle-IsInStep m (connected usable starts now) v =
        create_session-IsInStep make usable starts now m v
    handle-IsInStep m (disconnected id) v = close_session-IsInStep id m v
    handle-IsInStep m (heartbeat id now) v = on_session_heartbeat-IsInStep id now m v
    handle-IsInStep m (swept aborted now) v = handle_heartbeat_sweep-IsInStep aborted now m v

    -- From a state where exactly the sessions have a heartbeat, where there are at most 1,000 of
    -- them and where none has the id 0, every sequence of connections, closed sockets, heartbeats
    -- and sweeps leads to such a state.
    pub history-IsInStep :
        (m : SessionManager S) (es : List Event) → IsInStep m → IsInStep (history m es)
    unfolding history
    history-IsInStep m [] v = v
    history-IsInStep m (e ∷ es) v = history-IsInStep (handle m e) es (handle-IsInStep m e v)
