-- ===== src/Server/Gone.antt =====
-- A session that the server of main.cpp has closed does not come back.
use own_game_server.Prelude.{
  ℕ, suc, ◌+◌, ◌≡◌, ◌<◌, subst, Bool, true, false, Option, none, some, List, [], ◌∷◌, String, arith,
  u32_mod, Option-cases, inl, inr,
}
use own_game_server.Assoc.{nat_eq}
use own_game_server.SessionManager.{SessionManager, get_session}
use own_game_server.SessionManager.Arrivals.{Opened, create_session-Opened}
use own_game_server.MsgRouter.{MsgRouter, Peer}
use own_game_server.MsgRouter.Quiet.{KeepsPeers, KeepsPeers-none}
use own_game_server.ReqHandler.{ReqTask}
use own_game_server.RoomReqHandler.{RoomTask}
use own_game_server.JsonTranslator.{JsonLibrary}
use own_game_server.Server.{Server, new_peer, accept_connection}
use own_game_server.Server.Actions.{
  Action, accepted, read_done, read_failed, write_done, req_turn, room_turn, finish_req,
  finish_room, run_req, run_room, act, Reach, here, next,
}
use own_game_server.Server.Effects.{
  RoomEffect, LoginEffect, Ensures, run_room_task-RoomEffect, run_task-LoginEffect,
}
use own_game_server.Server.Posts.{sender, Posts, Yields}
use own_game_server.Server.Sockets.{after_read-Posts, after_failed_read-Posts, after_write-Posts}
use own_game_server.Server.Allocated.{IsAllocated, next_of}
use own_game_server.Server.Reachable.{act-IsAllocated}

-- A session that has been, and is no more.
pub record IsGone (id : ℕ) (s : Server) : Type 0 where
  pub old : id < next_of s
  pub absent : get_session id s.router.session_manager ≡ none

keeps-IsGone : (id : ℕ) (s t : Server) → KeepsPeers s.router t.router → IsGone id s → IsGone id t
keeps-IsGone id s t k g = record {
  old = omega (arith, k.next, g.old);
  absent = KeepsPeers-none s.router t.router id k g.absent;
}

Posts-IsGone :
    (P : ℕ → Type 0) (id : ℕ) (s : Server) (o : Option Server)
    → IsGone id s
    → Yields (Posts P s) o
    → Yields (IsGone id) o
Posts-IsGone P id s none g h = tt
Posts-IsGone P id s (some t) g h = keeps-IsGone id s t h.quiet.keeps g

Opened-IsGone :
    (id n : ℕ) (s : Server) (m : SessionManager Peer)
    → n + 2 < u32_mod
    → IsAllocated n s
    → Opened new_peer s.router.session_manager m
    → IsGone id s
    → IsGone id (record s { router = record s.router { session_manager = m } })
Opened-IsGone id n s m small v o g = record {
  old = elim o.next [
    | inl same ↦ omega (arith, same, g.old)
    | inr one ↦ omega (arith, one, g.old, v.counted, small)
  ];
  absent = elim (Option-cases (get_session id m)) [
    | inl e ↦ e
    | inr (p, e) ↦ elim (o.sessions id p e) [
      | inl before ↦ absurd (some_none p before g.absent)
      | inr (this, fresh, one) ↦ absurd (omega (arith, this, g.old))
    ]
  ];
}
  where
    some_none :
        (p : Peer)
        → get_session id s.router.session_manager ≡ some p
        → get_session id s.router.session_manager ≡ none
        → ⊥
    some_none p e f = ground (arith, e, f)

accept-IsGone :
    (id n : ℕ) (s : Server) (failed usable starts : Bool) (now : ℕ)
    → n + 2 < u32_mod
    → IsAllocated n s
    → IsGone id s
    → IsGone id (accept_connection failed usable starts now s)
unfolding accept_connection
accept-IsGone id n s true usable starts now small v g = g
accept-IsGone id n s false usable starts now small v g =
    Opened-IsGone id n s _ small v
      (create_session-Opened new_peer usable starts now s.router.session_manager) g

module _ {J : Type 0} (lib : JsonLibrary J) (name_of : ℕ → String) where
  run_req-IsGone :
      (id : ℕ) (s : Server) (tasks : List ReqTask)
      → IsGone id s
      → Yields (IsGone id) (run_req lib name_of tasks s)
  unfolding run_req
  run_req-IsGone id s [] g = g
  run_req-IsGone id s (task ∷ rest) g = go _ (run_task-LoginEffect name_of task s.router)
    where
      go :
          (o : Option (MsgRouter × Bool))
          → Ensures (LoginEffect name_of (sender task) s.router) o
          → Yields (IsGone id) (finish_req rest o s)
      go none h = tt
      go (some (r, answer)) h =
          keeps-IsGone id s (record s { router = r; req_tasks = rest }) h.keeps g

  run_room-IsGone :
      (id : ℕ) (s : Server) (code : String) (tasks : List RoomTask)
      → IsGone id s
      → Yields (IsGone id) (run_room lib name_of code tasks s)
  unfolding run_room
  run_room-IsGone id s code [] g = g
  run_room-IsGone id s code (task ∷ rest) g = go _ (run_room_task-RoomEffect lib code task s.router)
    where
      go :
          (o : Option (MsgRouter × Bool))
          → Ensures (RoomEffect s.router) o
          → Yields (IsGone id) (finish_room rest o s)
      go none h = tt
      go (some (r, answer)) h =
          keeps-IsGone id s (record s { router = r; room_tasks = rest }) h.keeps g

  act-IsGone :
      (id n : ℕ) (a : Action) (s : Server)
      → n + 2 < u32_mod
      → IsAllocated n s
      → IsGone id s
      → Yields (IsGone id) (act lib name_of a s)
  unfolding act
  act-IsGone id n (accepted failed usable starts now) s small v g =
      accept-IsGone id n s failed usable starts now small v g
  act-IsGone id n (read_done now other bytes) s small v g =
      elim (Option-cases (get_session other s.router.session_manager)) [
        | inl gone ↦ rw (gone, act) g
        | inr (peer, there) ↦
            rw (there, act)
              (Posts-IsGone (λ i. Unit {0}) id s _ g
                (after_read-Posts (λ i. Unit {0}) other peer s there now bytes _
                  (v.named other peer there).1 tt))
      ]
  act-IsGone id n (read_failed other) s small v g =
      elim (Option-cases (get_session other s.router.session_manager)) [
        | inl gone ↦ rw (gone, act) g
        | inr (peer, there) ↦
            rw (there, act)
              (keeps-IsGone id s _
                (after_failed_read-Posts (λ i. Unit {0}) other peer s there _).quiet.keeps g)
      ]
  act-IsGone id n (write_done other failed) s small v g =
      elim (Option-cases (get_session other s.router.session_manager)) [
        | inl gone ↦ rw (gone, act) g
        | inr (peer, there) ↦
            rw (there, act)
              (Posts-IsGone (λ i. Unit {0}) id s _ g
                (after_write-Posts (λ i. Unit {0}) other peer s there failed _))
      ]
  act-IsGone id n req_turn s small v g = run_req-IsGone id s s.req_tasks g
  act-IsGone id n (room_turn code) s small v g = run_room-IsGone id s code s.room_tasks g

  -- Both what is allocated and what is gone, along a run.
  pub Reach-IsGone :
      (id n : ℕ) (s : Server) {m : ℕ} {t : Server}
      → Reach lib name_of s m t
      → m + n + 1 < u32_mod
      → IsAllocated n s
      → IsGone id s
      → IsAllocated (m + n) t × IsGone id t
  Reach-IsGone id n s here small v g = (subst (λ (k : ℕ). IsAllocated k s) (omega arith) v, g)
  Reach-IsGone id n s (next {n = m} {t = t} {u = u} a r e) small v g =
      let (w, f) = Reach-IsGone id n s r (omega arith) v g in
      (
        subst (λ (k : ℕ). IsAllocated k u) (shift m)
            (subst (Yields (IsAllocated (suc (m + n)))) e
              (act-IsAllocated lib name_of (m + n) a t (omega arith) w)),
        subst (Yields (IsGone id)) e (act-IsGone id (m + n) a t (omega arith) w f),
      )
    where
      shift : (k : ℕ) → suc (k + n) ≡ suc k + n
      shift k = omega arith
