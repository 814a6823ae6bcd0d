-- ===== src/Server/Sessions.antt =====
-- The life of a session at the server of main.cpp: accepted with no user, and closed for good.
use own_game_server.Prelude.{
  ℕ, ◌+◌, ◌≡◌, ◌≢◌, ◌<◌, refl, true, false, none, some, String, arith, u32_mod, length, nat_beq_iff,
  Option-cases, inl, inr,
}
use own_game_server.Assoc.{lookup, nat_eq, lookup-emplace}
use own_game_server.SessionManager.{
  SessionManager, max_connection_num, get_session, create_session, allocate_session_id,
  insert_session,
}
use own_game_server.UserSessionMap.{get_user_id, get_session_id}
use own_game_server.MsgRouter.{Peer}
use own_game_server.Player.{Heap}
use own_game_server.JsonTranslator.{JsonLibrary}
use own_game_server.Server.{Server, new_server, new_peer, accept_connection}
use own_game_server.Server.Actions.{accepted, act, Reach}
use own_game_server.Server.Posts.{Senders}
use own_game_server.Server.Allocated.{IsAllocated, next_of, Senders-map}
use own_game_server.Server.Reachable.{Reach-IsAllocated}

new_entry :
    (m : SessionManager Peer) (now : ℕ)
    → 0 < m.next_session_id
    → m.next_session_id + 1 < u32_mod
    → length m.sessions < max_connection_num
    → lookup m.next_session_id m.sessions ≡ none
    → (get_session m.next_session_id (create_session new_peer true true now m).0
        ≡ some (new_peer m.next_session_id))
      × ((create_session new_peer true true now m).0.next_session_id ≡ m.next_session_id + 1)
unfolding create_session allocate_session_id insert_session
new_entry m now pos small space free = (
  ground (
    arith,
    lookup-emplace m.next_session_id m.next_session_id (new_peer m.next_session_id) m.sessions,
    nat_beq_iff m.next_session_id m.next_session_id,
  ),
  ground arith,
)

-- An id that no session has had is not in use.
unused :
    (n : ℕ) (s : Server)
    → IsAllocated n s
    → (get_session (next_of s) s.router.session_manager ≡ none)
      × (get_user_id s.router.user_session_map (next_of s) ≡ 0)
      × ((u : ℕ) → get_session_id s.router.user_session_map u ≢ next_of s)
unfolding get_user_id get_session_id
unused n s v = (
  elim (Option-cases (get_session (next_of s) s.router.session_manager)) [
    | inl e ↦ e
    | inr (p, e) ↦ absurd (omega (arith, (v.named (next_of s) p e).0))
  ],
  elim (Option-cases (lookup (next_of s) s.router.user_session_map.session_to_user)) [
    | inl e ↦ rw (e, get_user_id) refl
    | inr (u, e) ↦
        absurd (omega (arith, v.seated u (next_of s) (v.consistent.back (next_of s) u e)))
  ],
  λ u e. elim (Option-cases (lookup u s.router.user_session_map.user_to_session)) [
    | inl h ↦ absurd (omega (arith, v.positive, rw (h, get_session_id) at e))
    | inr (sid, h) ↦ absurd (omega (arith, v.seated u sid h, rw (h, get_session_id) at e))
  ],
)

module _ {J : Type 0} (lib : JsonLibrary J) (name_of : ℕ → String) where
  -- A connection that a server accepts which has taken fewer than 2^32 - 3 actions since its start, and
  -- which has fewer than 1,000 sessions, gets a session that has no user, that no user is sent to, and
  -- that no waiting request is from.
  pub accepted-unbound :
      (heap : Heap) (n now : ℕ) (s : Server)
      → Reach lib name_of (new_server heap) n s
      → n + 3 < u32_mod
      → length s.router.session_manager.sessions < max_connection_num
      → let id : ℕ = next_of s in
        (t : Server) × (act lib name_of (accepted false true true now) s ≡ some t)
        × (get_session id t.router.session_manager ≡ some (new_peer id))
        × (get_user_id t.router.user_session_map id ≡ 0)
        × ((u : ℕ) → get_session_id t.router.user_session_map u ≢ id)
        × Senders (λ i. i ≢ id) t
  unfolding act accept_connection
  accepted-unbound heap n now s r small space =
      let v : IsAllocated n s = Reach-IsAllocated lib name_of heap r (omega arith) in
      let (free, no_user, no_seat) = unused n s v in
      (
        accept_connection false true true now s,
        refl,
        (new_entry s.router.session_manager now v.positive (omega (arith, v.counted)) space free).0,
        no_user,
        no_seat,
        Senders-map (λ i. i < next_of s) (λ i. i ≢ next_of s) _
            (λ i h e. absurd (omega (arith, h, e)))
            (record { reqs = v.waiting.reqs; rooms = v.waiting.rooms }),
      )
