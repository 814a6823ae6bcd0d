-- ===== src/Server/Reachable.antt =====
-- The states that the server of main.cpp comes to from its start.
use own_game_server.Prelude.{
  ℕ, suc, ◌+◌, ◌%◌, ◌≡◌, ◌<◌, ◌≤◌, ◌⊎◌, refl, ap, subst, Bool, true, false, Option, none, some,
  List, [], ◌∷◌, String, arith, u32_mod, Option-cases, inl, inr,
}
use own_game_server.Assoc.{lookup, nat_eq}
use own_game_server.SessionManager.{SessionManager, get_session}
use own_game_server.SessionManager.Arrivals.{Opened, create_session-Opened}
use own_game_server.UserSessionMap.Consistency.{IsConsistent-empty_map}
use own_game_server.MsgRouter.{MsgRouter, Peer}
use own_game_server.Player.{Heap}
use own_game_server.ReqHandler.{ReqTask}
use own_game_server.RoomReqHandler.{RoomTask}
use own_game_server.JsonTranslator.{JsonLibrary}
use own_game_server.Server.{
  Server, new_server, new_managers, initialize, new_peer, accept_connection,
}
use own_game_server.Server.Actions.{
  Action, accepted, read_done, read_failed, write_done, req_turn, room_turn, finish_req,
  finish_room, run_req, run_room, act, Reach, here, next,
}
use own_game_server.Server.Effects.{
  RoomEffect, LoginEffect, Ensures, run_room_task-RoomEffect, run_task-LoginEffect,
}
use own_game_server.Server.Posts.{sender, Posts, Posts-refl, Yields}
use own_game_server.Server.Sockets.{after_read-Posts, after_failed_read-Posts, after_write-Posts}
use own_game_server.Server.Allocated.{
  IsAllocated, next_of, Senders-map, kept-Posts, after_login, after_room,
}

new_server-IsAllocated : (heap : Heap) → IsAllocated 0 (new_server heap)
unfolding new_server initialize new_managers lookup
new_server-IsAllocated heap = record {
  positive = omega arith;
  counted = omega arith;
  named = λ id p e. cc;
  consistent = IsConsistent-empty_map;
  seated = λ u sid e. cc;
  waiting = record { reqs = tt; rooms = tt };
}

-- A connection is accepted.
with_sessions : SessionManager Peer → Server → Server
with_sessions m s = record s { router = record s.router { session_manager = m } }

Opened-IsAllocated :
    (n : ℕ) (s : Server) (m : SessionManager Peer)
    → n + 2 < u32_mod
    → Opened new_peer s.router.session_manager m
    → IsAllocated n s
    → IsAllocated (suc n) (with_sessions m s)
unfolding with_sessions new_peer
Opened-IsAllocated n s m small o v = record {
  positive = omega (arith, grown.0, v.positive);
  counted = omega (arith, grown.1, v.counted);
  named = λ id p e. named id p (o.sessions id p e);
  consistent = v.consistent;
  seated = λ u sid e. omega (arith, grown.0, v.seated u sid e);
  waiting =
      Senders-map (λ id. id < next_of s) (λ id. id < m.next_session_id) _
        (λ id h. omega (arith, grown.0, h))
        (record { reqs = v.waiting.reqs; rooms = v.waiting.rooms });
}
  where
    grown : (next_of s ≤ m.next_session_id) × (m.next_session_id ≤ next_of s + 1)
    grown = elim o.next [
      | inl same ↦ omega (arith, same)
      | inr one ↦ omega (arith, one, v.counted, small)
    ]

    named :
        (id : ℕ) (p : Peer)
        → (get_session id s.router.session_manager ≡ some p)
          ⊎ ((id ≡ next_of s) × (p ≡ new_peer id) × (m.next_session_id ≡ (next_of s + 1) % u32_mod))
        → (id < m.next_session_id) × (p.client.session_id ≡ id) × (p.client.has_connection ≡ true)
    named id p (inl before) =
        let (old, ident, linked) = v.named id p before in
        (omega (arith, grown.0, old), ident, linked)
    named id p (inr (this, fresh, one)) = (
      omega (arith, this, one, v.counted, small),
      ap (λ (x : Peer). x.client.session_id) fresh,
      ap (λ (x : Peer). x.client.has_connection) fresh,
    )

accept-IsAllocated :
    (n : ℕ) (s : Server) (failed usable starts : Bool) (now : ℕ)
    → n + 2 < u32_mod
    → IsAllocated n s
    → IsAllocated (suc n) (accept_connection failed usable starts now s)
unfolding accept_connection with_sessions
accept-IsAllocated n s true usable starts now small v =
    kept-Posts n s s v (Posts-refl (λ id. id < next_of s) s)
accept-IsAllocated n s false usable starts now small v =
    Opened-IsAllocated n s _ small
      (create_session-Opened new_peer usable starts now s.router.session_manager) v

yielded :
    (n : ℕ) (s : Server) (o : Option Server)
    → IsAllocated n s
    → Yields (Posts (λ id. id < next_of s) s) o
    → Yields (IsAllocated (suc n)) o
yielded n s none v h = tt
yielded n s (some t) v h = kept-Posts n s t v h

module _ {J : Type 0} (lib : JsonLibrary J) (name_of : ℕ → String) where
  run_req-IsAllocated :
      (n : ℕ) (s : Server) (tasks : List ReqTask)
      → s.req_tasks ≡ tasks
      → IsAllocated n s
      → Yields (IsAllocated (suc n)) (run_req lib name_of tasks s)
  unfolding run_req
  run_req-IsAllocated n s [] e v = kept-Posts n s s v (Posts-refl (λ id. id < next_of s) s)
  run_req-IsAllocated n s (task ∷ rest) e v = go _ (run_task-LoginEffect name_of task s.router)
    where
      go :
          (o : Option (MsgRouter × Bool))
          → Ensures (LoginEffect name_of (sender task) s.router) o
          → Yields (IsAllocated (suc n)) (finish_req rest o s)
      go none h = tt
      go (some (r, answer)) h = after_login lib name_of n s task rest r v e h

  run_room-IsAllocated :
      (n : ℕ) (s : Server) (code : String) (tasks : List RoomTask)
      → s.room_tasks ≡ tasks
      → IsAllocated n s
      → Yields (IsAllocated (suc n)) (run_room lib name_of code tasks s)
  unfolding run_room
  run_room-IsAllocated n s code [] e v = kept-Posts n s s v (Posts-refl (λ id. id < next_of s) s)
  run_room-IsAllocated n s code (task ∷ rest) e v =
      go _ (run_room_task-RoomEffect lib code task s.router)
    where
      go :
          (o : Option (MsgRouter × Bool))
          → Ensures (RoomEffect s.router) o
          → Yields (IsAllocated (suc n)) (finish_room rest o s)
      go none h = tt
      go (some (r, answer)) h = after_room lib name_of n s task rest r v e h

  pub act-IsAllocated :
      (n : ℕ) (a : Action) (s : Server)
      → n + 2 < u32_mod
      → IsAllocated n s
      → Yields (IsAllocated (suc n)) (act lib name_of a s)
  unfolding act
  act-IsAllocated n (accepted failed usable starts now) s small v =
      accept-IsAllocated n s failed usable starts now small v
  act-IsAllocated n (read_done now id bytes) s small v =
      elim (Option-cases (get_session id s.router.session_manager)) [
        | inl gone ↦ rw (gone, act) (kept-Posts n s s v (Posts-refl (λ id. id < next_of s) s))
        | inr (peer, there) ↦
            rw (there, act)
              (yielded n s _ v (
                after_read-Posts (λ id. id < next_of s) id peer s there now bytes _
                  (v.named id peer there).1 (v.named id peer there).0))
      ]
  act-IsAllocated n (read_failed id) s small v =
      elim (Option-cases (get_session id s.router.session_manager)) [
        | inl gone ↦ rw (gone, act) (kept-Posts n s s v (Posts-refl (λ id. id < next_of s) s))
        | inr (peer, there) ↦
            rw (there, act)
              (kept-Posts n s _ v
                (after_failed_read-Posts (λ id. id < next_of s) id peer s there _))
      ]
  act-IsAllocated n (write_done id failed) s small v =
      elim (Option-cases (get_session id s.router.session_manager)) [
        | inl gone ↦ rw (gone, act) (kept-Posts n s s v (Posts-refl (λ id. id < next_of s) s))
        | inr (peer, there) ↦
            rw (there, act)
              (yielded n s _ v (after_write-Posts (λ id. id < next_of s) id peer s there failed _))
      ]
  act-IsAllocated n req_turn s small v = run_req-IsAllocated n s s.req_tasks refl v
  act-IsAllocated n (room_turn code) s small v = run_room-IsAllocated n s code s.room_tasks refl v

  pub Reach-IsAllocated :
      (heap : Heap) {n : ℕ} {s : Server}
      → Reach lib name_of (new_server heap) n s
      → n + 1 < u32_mod
      → IsAllocated n s
  Reach-IsAllocated heap here small = new_server-IsAllocated heap
  Reach-IsAllocated heap (next {n} {t} {u} a r e) small =
      subst (Yields (IsAllocated (suc n))) e
        (act-IsAllocated n a t (omega arith) (Reach-IsAllocated heap r (omega arith)))
