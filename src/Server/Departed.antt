-- ===== src/Server/Departed.antt =====
-- What remains at the server of main.cpp when the connection of a session has failed.
use own_game_server.Prelude.{
  ℕ, suc, ◌+◌, ◌≡◌, ◌<◌, refl, subst, true, false, not, none, some, String, arith, u32_mod, nat_beq,
  nat_beq_iff, Bool-cases, inl, inr,
}
use own_game_server.Assoc.{insert, nat_eq, lookup-insert, lookup-erase}
use own_game_server.Codec.Encoder.{EncodeMessage}
use own_game_server.TcpConnection.{TcpConnection, do_close}
use own_game_server.SessionManager.{get_session, close_session}
use own_game_server.UserSessionMap.{get_session_id}
use own_game_server.MsgRouter.{
  MsgRouter, Peer, send_message_to_session, send_message_to_user, send_if_found,
}
use own_game_server.Player.{Heap}
use own_game_server.JsonTranslator.{JsonLibrary}
use own_game_server.Server.{Server, new_server}
use own_game_server.Server.Actions.{
  read_failed, act, Reach, drop_connection, after_failed_read, with_connection,
}
use own_game_server.Server.Posts.{Yields}
use own_game_server.Server.Sockets.{after_failed_read-Posts}
use own_game_server.Server.Allocated.{IsAllocated}
use own_game_server.Server.Reachable.{act-IsAllocated, Reach-IsAllocated}
use own_game_server.Server.Gone.{IsGone, Reach-IsGone}

closing_closes :
    (id : ℕ) (peer : Peer) (c : TcpConnection) (r : MsgRouter)
    → c.closed ≡ false
    → c.has_close_callback ≡ true
    → get_session id (drop_connection id peer c r).session_manager ≡ none
unfolding drop_connection close_session
closing_closes id peer c r up calls =
    rw (up, calls)
      (ground (
        arith,
        lookup-insert id id (with_connection (do_close true c) peer) r.session_manager.sessions,
        lookup-erase id id
            (insert id (with_connection (do_close true c) peer) r.session_manager.sessions),
        nat_beq_iff id id,
      ))

refused_session :
    (id : ℕ) (msg : EncodeMessage) (r : MsgRouter)
    → get_session id r.session_manager ≡ none
    → send_message_to_session id msg r ≡ (r, msg, false)
unfolding send_message_to_session send_if_found
refused_session id msg r e = elim (Bool-cases (not r.has_session_manager)) [
  | inl gone ↦ rw (gone) refl
  | inr there ↦ rw (there, e) refl
]

refused_user :
    (u id : ℕ) (msg : EncodeMessage) (r : MsgRouter)
    → get_session id r.session_manager ≡ none
    → get_session_id r.user_session_map u ≡ id
    → send_message_to_user u msg r ≡ (r, msg, false)
unfolding send_message_to_user
refused_user u id msg r e bound = elim (Bool-cases (nat_beq id 0)) [
  | inl zeroth ↦ rw (bound, zeroth) refl
  | inr real ↦ rw (bound, real) (refused_session id msg r e)
]

module _ {J : Type 0} (lib : JsonLibrary J) (name_of : ℕ → String) where
  -- When a read of an open session fails, the session is removed and the user table stays as it was. From
  -- then on, for as long as the server takes fewer than 2^32 actions, the session does not come back, and
  -- what is sent to a user whose session it is in the table is refused and changes nothing.
  pub read_failed-refused :
      (heap : Heap) (n m id others : ℕ) (s : Server) (peer : Peer)
      → Reach lib name_of (new_server heap) n s
      → get_session id s.router.session_manager ≡ some peer
      → peer.connection.pending_reads ≡ suc others
      → peer.connection.closed ≡ false
      → peer.connection.has_close_callback ≡ true
      → m + n + 2 < u32_mod
      → (t : Server) × (act lib name_of (read_failed id) s ≡ some t)
        × (t.router.user_session_map ≡ s.router.user_session_map)
        × ((v : Server)
            → Reach lib name_of t m v
            → (get_session id v.router.session_manager ≡ none)
              × ((u : ℕ) (msg : EncodeMessage)
                  → get_session_id v.router.user_session_map u ≡ id
                  → send_message_to_user u msg v.router ≡ (v.router, msg, false)))
  unfolding act
  read_failed-refused heap n m id others s peer r there reads up calls small = (
    t,
    failed,
    (after_failed_read-Posts (λ i. Unit {0}) id peer s there
        peer.connection.pending_reads).quiet.map,
    λ v run.
        let (w, gone) = Reach-IsGone lib name_of id (suc n) t run (omega arith) allocated left in
        (gone.absent, λ u msg bound. refused_user u id msg v.router gone.absent bound),
  )
    where
      t : Server
      t = after_failed_read id peer peer.connection.pending_reads s

      failed : act lib name_of (read_failed id) s ≡ some t
      failed = rw (there, act) refl

      before : IsAllocated n s
      before = Reach-IsAllocated lib name_of heap r (omega arith)

      allocated : IsAllocated (suc n) t
      allocated =
          subst (Yields (IsAllocated (suc n))) failed
            (act-IsAllocated lib name_of n (read_failed id) s (omega arith) before)

      closes :
          (k : ℕ)
          → k ≡ suc others
          → get_session id (after_failed_read id peer k s).router.session_manager ≡ none
      closes k e = rw (e, after_failed_read) (closing_closes id peer _ s.router up calls)

      left : IsGone id t
      left = record {
        old = omega (
          arith,
          (before.named id peer there).0,
          (after_failed_read-Posts (λ i. Unit {0}) id peer s there
              peer.connection.pending_reads).quiet.keeps.next,
        );
        absent = closes peer.connection.pending_reads reads;
      }
