-- ===== src/Server/Rooms.antt =====
-- The rooms of the server of main.cpp along a run: which requests reach the room manager, and what
-- therefore never happens to a room.
use own_game_server.Prelude.{
  ℕ, suc, ◌+◌, ◌<◌, ◌⊎◌, refl, sym, subst, Bool, true, false, Option, none, some, List, [], ◌∷◌,
  String, arith, u32_mod, Option-cases, inl, inr,
}
use own_game_server.Assoc.{nat_eq, string_eq}
use own_game_server.SessionManager.{get_session}
use own_game_server.Player.{Heap}
use own_game_server.Messages.{UserLoginInfo}
use own_game_server.PlayerManager.{on_user_login}
use own_game_server.RoomManager.{GameRoomManager}
use own_game_server.RoomManager.Steps.{Command, serve}
use own_game_server.MsgRouter.{MsgRouter}
use own_game_server.ReqHandler.{ReqTask}
use own_game_server.RoomReqHandler.{RoomTask}
use own_game_server.JsonTranslator.{JsonLibrary}
use own_game_server.Server.{Server, new_server, accept_connection}
use own_game_server.Server.Actions.{
  Action, accepted, read_done, read_failed, write_done, req_turn, room_turn, finish_req,
  finish_room, run_req, run_room, act, Reach, here, next,
}
use own_game_server.Server.Effects.{
  RoomEffect, LoginEffect, Ensures, FromClient, Served, PlayersOnly, run_room_task-RoomEffect,
  run_task-LoginEffect,
}
use own_game_server.Server.Posts.{sender, Posts, Yields}
use own_game_server.Server.Sockets.{after_read-Posts, after_failed_read-Posts, after_write-Posts}
use own_game_server.Server.Allocated.{IsAllocated}
use own_game_server.Server.Reachable.{Reach-IsAllocated}

abbrev rooms_of : Server → GameRoomManager
rooms_of s = s.router.room_manager

-- What an action does to the room manager.
abbrev RoomsStep : (ℕ → String) → GameRoomManager → GameRoomManager → Type 0
RoomsStep name_of m m' = PlayersOnly name_of m m' ⊎ Served m m'

Posts-rooms :
    (P : ℕ → Type 0) (name_of : ℕ → String) (s : Server) (o : Option Server)
    → Yields (Posts P s) o
    → Yields (λ t. RoomsStep name_of (rooms_of s) (rooms_of t)) o
Posts-rooms P name_of s none h = tt
Posts-rooms P name_of s (some t) h = inl (inl h.quiet.rooms)

module _ {J : Type 0} (lib : JsonLibrary J) (name_of : ℕ → String) where
  abbrev Next : Server → Server → Type 0
  Next s t = RoomsStep name_of (rooms_of s) (rooms_of t)

  run_req-rooms :
      (s : Server) (tasks : List ReqTask) → Yields (Next s) (run_req lib name_of tasks s)
  unfolding run_req
  run_req-rooms s [] = inl (inl refl)
  run_req-rooms s (task ∷ rest) = go _ (run_task-LoginEffect name_of task s.router)
    where
      go :
          (o : Option (MsgRouter × Bool))
          → Ensures (LoginEffect name_of (sender task) s.router) o
          → Yields
              (λ t. RoomsStep name_of s.router.room_manager t.router.room_manager)
              (finish_req rest o s)
      go none h = tt
      go (some (r, answer)) h = inl h.rooms

  run_room-rooms :
      (s : Server) (code : String) (tasks : List RoomTask)
      → Yields (Next s) (run_room lib name_of code tasks s)
  unfolding run_room
  run_room-rooms s code [] = inl (inl refl)
  run_room-rooms s code (task ∷ rest) = go _ (run_room_task-RoomEffect lib code task s.router)
    where
      go :
          (o : Option (MsgRouter × Bool))
          → Ensures (RoomEffect s.router) o
          → Yields
              (λ t. RoomsStep name_of s.router.room_manager t.router.room_manager)
              (finish_room rest o s)
      go none h = tt
      go (some (r, answer)) h = inr h.rooms

  accept-rooms :
      (s : Server) (failed usable starts : Bool) (now : ℕ)
      → Next s (accept_connection failed usable starts now s)
  unfolding accept_connection
  accept-rooms s true usable starts now = inl (inl refl)
  accept-rooms s false usable starts now = inl (inl refl)

  act-rooms :
      (n : ℕ) (a : Action) (s : Server) → IsAllocated n s → Yields (Next s) (act lib name_of a s)
  unfolding act
  act-rooms n (accepted failed usable starts now) s v = accept-rooms s failed usable starts now
  act-rooms n (read_done now id bytes) s v =
      elim (Option-cases (get_session id s.router.session_manager)) [
        | inl gone ↦ rw (gone, act) (inl (inl refl))
        | inr (peer, there) ↦
            rw (there, act)
              (Posts-rooms (λ i. Unit {0}) name_of s _
                (after_read-Posts (λ i. Unit {0}) id peer s there now bytes _
                  (v.named id peer there).1 tt))
      ]
  act-rooms n (read_failed id) s v = elim (Option-cases (get_session id s.router.session_manager)) [
    | inl gone ↦ rw (gone, act) (inl (inl refl))
    | inr (peer, there) ↦
        rw (there, act)
          (inl (inl (after_failed_read-Posts (λ i. Unit {0}) id peer s there _).quiet.rooms))
  ]
  act-rooms n (write_done id failed) s v =
      elim (Option-cases (get_session id s.router.session_manager)) [
        | inl gone ↦ rw (gone, act) (inl (inl refl))
        | inr (peer, there) ↦
            rw (there, act)
              (Posts-rooms (λ i. Unit {0}) name_of s _
                (after_write-Posts (λ i. Unit {0}) id peer s there failed _))
      ]
  act-rooms n req_turn s v = run_req-rooms s s.req_tasks
  act-rooms n (room_turn code) s v = run_room-rooms s code s.room_tasks

  -- A property of the room manager that the start has, and that logins and the requests of clients
  -- keep, holds after every run. Its number bounds the requests.
  pub rooms_induction :
      (Q : ℕ → GameRoomManager → Type 0) (heap : Heap)
      → Q 0 (rooms_of (new_server heap))
      → ((n : ℕ) (m : GameRoomManager) → Q n m → Q (suc n) m)
      → ((n : ℕ) (m : GameRoomManager) (info : UserLoginInfo)
          → Q n m
          → Q (suc n) (record m { players = on_user_login name_of info m.players }))
      → ((n : ℕ) (m : GameRoomManager) (c : Command)
          → n + 2 < u32_mod
          → FromClient c
          → Q n m
          → Q (suc n) (serve (λ s. none) c m))
      → {n : ℕ} {s : Server} → Reach lib name_of (new_server heap) n s
      → n + 1 < u32_mod
      → Q n (rooms_of s)
  rooms_induction Q heap begun idle login served here small = begun
  rooms_induction Q heap begun idle login served (next {n = n} {t = t} {u = u} a r e) small =
      step
        (subst (Yields (Next t)) e
          (act-rooms n a t (Reach-IsAllocated lib name_of heap r (omega arith))))
        (rooms_induction Q heap begun idle login served r (omega arith))
    where
      step :
          RoomsStep name_of t.router.room_manager u.router.room_manager
          → Q n t.router.room_manager
          → Q (suc n) u.router.room_manager
      step (inl (inl same)) q = subst (Q (suc n)) (sym same) (idle n _ q)
      step (inl (inr (info, logged))) q = subst (Q (suc n)) (sym logged) (login n _ info q)
      step (inr (inl same)) q = subst (Q (suc n)) (sym same) (idle n _ q)
      step (inr (inr (c, client, done))) q =
          subst (Q (suc n)) (sym done) (served n _ c (omega arith) client q)
