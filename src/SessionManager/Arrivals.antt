-- ===== src/SessionManager/Arrivals.antt =====
-- What CreateSession and CloseSession of network/session/SessionManager do to a session's entry.
use own_game_server.Prelude.{
  ℕ, ◌+◌, ◌%◌, ◌≡◌, ◌⊎◌, refl, sym, Bool, true, false, not, none, some, nat_beq, nat_beq_iff, leb,
  length, if◌then◌else◌, u32_mod, arith, Option-cases, Bool-cases, inl, inr,
}
use own_game_server.Assoc.{lookup, insert, emplace, nat_eq, lookup-erase, lookup-emplace}
use own_game_server.SessionManager.{
  SessionManager, max_connection_num, allocate_session_id, insert_session, forget, create_session,
  get_session, close_session,
}

module _ {ℓ} {S : Type ℓ} where
  -- The next id may have been given out, and the sessions are those of before, without some, or with
  -- one of that id.
  pub record Opened (make : ℕ → S) (m q : SessionManager S) : Type ℓ where
    pub next :
        (q.next_session_id ≡ m.next_session_id)
        ⊎ (q.next_session_id ≡ (m.next_session_id + 1) % u32_mod)
    pub sessions :
        (id : ℕ) (s : S)
        → get_session id q ≡ some s
        → (get_session id m ≡ some s)
          ⊎ ((id ≡ m.next_session_id)
              × (s ≡ make id)
              × (q.next_session_id ≡ (m.next_session_id + 1) % u32_mod))

  same-Opened :
      (make : ℕ → S) (m q : SessionManager S)
      → (q.next_session_id ≡ m.next_session_id)
        ⊎ (q.next_session_id ≡ (m.next_session_id + 1) % u32_mod)
      → q.sessions ≡ m.sessions
      → Opened make m q
  same-Opened make m q n e = record { next = n; sessions = λ id s h. inl (ground arith) }

  -- A session that is there after another has been closed was there before.
  pub close_session-lookup :
      (id other : ℕ) (s : S) (m : SessionManager S)
      → get_session other (close_session id m).0 ≡ some s
      → get_session other m ≡ some s
  unfolding close_session
  close_session-lookup id other s m e = elim (Option-cases (lookup id m.sessions)) [
    | inl n ↦ (rw (n, close_session) at e)
    | inr (p, n) ↦ ground (arith, lookup-erase id other m.sessions, rw (n, close_session) at e)
  ]

  pub close_session-next :
      (id : ℕ) (m : SessionManager S) → (close_session id m).0.next_session_id ≡ m.next_session_id
  unfolding close_session
  close_session-next id m = ground arith

  abbrev numbered : SessionManager S → SessionManager S
  numbered m = record m { next_session_id = (m.next_session_id + 1) % u32_mod }

  -- The end of CreateSession, after the block that inserts.
  abbrev ended : ℕ → Bool → SessionManager S × Bool → SessionManager S × ℕ
  ended id starts a = if not a.1 then (a.0, 0) else if starts then (a.0, id) else (forget id a.0, 0)

  -- The block that inserts: what it leaves, whether or not the connection then starts.
  insert_session-Opened :
      (make : ℕ → S) (now : ℕ) (starts : Bool) (m : SessionManager S)
      → let a = insert_session m.next_session_id (make m.next_session_id) now (numbered m) in
        Opened make m (ended m.next_session_id starts a).0
  unfolding insert_session
  insert_session-Opened make now starts m =
      elim (Bool-cases (leb max_connection_num (length m.sessions))) [
        | inl full ↦ rw (full) (same-Opened make m (numbered m) (inr refl) refl)
        | inr space ↦ elim (Option-cases (lookup m.next_session_id m.sessions)) [
          | inr (s, taken) ↦
              rw (space, taken, insert_session) (same-Opened make m (numbered m) (inr refl) refl)
          | inl free ↦ rw (space, free, insert_session) (go starts free)
        ]
      ]
    where
      grown : SessionManager S
      grown = record (numbered m) {
        sessions = emplace m.next_session_id (make m.next_session_id) m.sessions;
        last_heartbeat_at = insert m.next_session_id now m.last_heartbeat_at;
      }

      go :
          (b : Bool)
          → lookup m.next_session_id m.sessions ≡ none
          → Opened make m (ended m.next_session_id b (grown, true)).0
      go true free = record {
        next = inr refl;
        sessions = λ id s h. elim (Bool-cases (nat_beq m.next_session_id id)) [
          | inl this ↦ inr (
            sym ((nat_beq_iff m.next_session_id id).0 this),
            ground (
              arith,
              lookup-emplace m.next_session_id id (make m.next_session_id) m.sessions,
              nat_beq_iff m.next_session_id id,
            ),
            refl,
          )
          | inr other ↦ inl (
              ground
                (arith, lookup-emplace m.next_session_id id (make m.next_session_id) m.sessions))
        ];
      }
      go false free = record {
        next = inr refl;
        sessions = λ id s h. inl (
            ground (
              arith,
              lookup-erase m.next_session_id id grown.sessions,
              lookup-emplace m.next_session_id id (make m.next_session_id) m.sessions,
            ));
      }

  pub create_session-Opened :
      (make : ℕ → S) (usable starts : Bool) (now : ℕ) (m : SessionManager S)
      → Opened make m (create_session make usable starts now m).0
  unfolding create_session allocate_session_id
  create_session-Opened make false starts now m = same-Opened make m m (inl refl) refl
  create_session-Opened make true starts now m = elim (Bool-cases (nat_beq m.next_session_id 0)) [
    | inl zeroth ↦ rw (zeroth) (same-Opened make m (numbered m) (inr refl) refl)
    | inr fine ↦ rw (fine) (insert_session-Opened make now starts m)
  ]
