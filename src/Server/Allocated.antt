-- ===== src/Server/Allocated.antt =====
-- What holds in every state of the server of main.cpp about sessions, users and waiting tasks.
use own_game_server.Prelude.{
  ℕ, suc, ◌+◌, ◌≡◌, ◌<◌, ◌≤◌, ◌∙◌, sym, ap, subst, true, some, List, [], ◌∷◌, String, arith, All,
  inl, inr,
}
use own_game_server.Assoc.{lookup, nat_eq}
use own_game_server.SessionManager.{get_session}
use own_game_server.UserSessionMap.{UserSessionMap, on_user_login}
use own_game_server.UserSessionMap.Consistency.{IsConsistent, bind_users}
use own_game_server.UserSessionMap.Login.{on_user_login-IsConsistent}
use own_game_server.Messages.{UserLoginInfo}
use own_game_server.MsgRouter.{MsgRouter, Peer}
use own_game_server.MsgRouter.Quiet.{KeepsPeers}
use own_game_server.ReqHandler.{ReqTask}
use own_game_server.RoomReqHandler.{RoomTask}
use own_game_server.JsonTranslator.{JsonLibrary}
use own_game_server.Server.{Server}
use own_game_server.Server.Effects.{RoomEffect, LoginEffect, LoggedIn}
use own_game_server.Server.Posts.{sender, room_sender, Senders, Posts}

abbrev pub next_of : Server → ℕ
next_of s = s.router.session_manager.next_session_id

-- After `n` actions: the session ids below the next one are those that have been given out, and no
-- others are in use, by sessions, by users, or by tasks. A session has its own id and a connection.
pub record IsAllocated (n : ℕ) (s : Server) : Type 0 where
  pub positive : 0 < next_of s
  pub counted : next_of s ≤ n + 1
  pub named :
      (id : ℕ) (p : Peer)
      → get_session id s.router.session_manager ≡ some p
      → (id < next_of s) × (p.client.session_id ≡ id) × (p.client.has_connection ≡ true)
  pub consistent : IsConsistent s.router.user_session_map
  pub seated :
      (u sid : ℕ) → lookup u s.router.user_session_map.user_to_session ≡ some sid → sid < next_of s
  pub waiting : Senders (λ id. id < next_of s) s

pub Senders-map :
    (P Q : ℕ → Type 0) (s : Server) → ((id : ℕ) → P id → Q id) → Senders P s → Senders Q s
Senders-map P Q s f w = record {
  reqs = reqs s.req_tasks w.reqs;
  rooms = rooms s.room_tasks w.rooms;
}
  where
    reqs : (ts : List ReqTask) → All (λ t. P (sender t)) ts → All (λ t. Q (sender t)) ts
    reqs [] h = tt
    reqs (t ∷ ts) (h, hs) = (f (sender t) h, reqs ts hs)

    rooms : (ts : List RoomTask) → All (λ t. P (room_sender t)) ts → All (λ t. Q (room_sender t)) ts
    rooms [] h = tt
    rooms (t ∷ ts) (h, hs) = (f (room_sender t) h, rooms ts hs)

-- The sessions are among those of before, and the users' sessions and the tasks are all old.
pub kept :
    (n : ℕ) (s t : Server)
    → IsAllocated n s
    → KeepsPeers s.router t.router
    → IsConsistent t.router.user_session_map
    → ((u sid : ℕ)
        → lookup u t.router.user_session_map.user_to_session ≡ some sid
        → sid < next_of s)
    → Senders (λ id. id < next_of s) t
    → IsAllocated (suc n) t
kept n s t v k consistent seated waiting = record {
  positive = omega (arith, k.next, v.positive);
  counted = omega (arith, k.next, v.counted);
  named = λ id p e.
      let (o, there, same) = k.peers id p e in
      let (old, ident, linked) = v.named id o there in
      (omega (arith, k.next, old), same.id ∙ ident, same.linked ∙ linked);
  consistent = consistent;
  seated = λ u sid e. omega (arith, k.next, seated u sid e);
  waiting = subst (λ (m : ℕ). Senders (λ id. id < m) t) (sym k.next) waiting;
}

pub kept-Posts :
    (n : ℕ) (s t : Server)
    → IsAllocated n s
    → Posts (λ id. id < next_of s) s t
    → IsAllocated (suc n) t
kept-Posts n s t v p =
    kept n s t v p.quiet.keeps (subst IsConsistent (sym p.quiet.map) v.consistent)
      (λ u sid e.
        v.seated u sid
          (ap (λ (m : UserSessionMap). lookup u m.user_to_session) (sym p.quiet.map) ∙ e))
      (p.tasks v.waiting)

-- A login binds a user to the session that it comes from.
seated_by :
    (m : UserSessionMap) (info : UserLoginInfo) (bound u sid : ℕ)
    → info.session_id < bound
    → ((w id : ℕ) → lookup w m.user_to_session ≡ some id → id < bound)
    → lookup u (on_user_login m info).user_to_session ≡ some sid
    → sid < bound
unfolding on_user_login
seated_by m info bound u sid small old e =
    ground (arith, bind_users m info.user_id info.session_id u, old u sid)

module _ {J : Type 0} (lib : JsonLibrary J) (name_of : ℕ → String) where
  pub after_login :
      (n : ℕ) (s : Server) (task : ReqTask) (rest : List ReqTask) (r : MsgRouter)
      → IsAllocated n s
      → s.req_tasks ≡ task ∷ rest
      → LoginEffect name_of (sender task) s.router r
      → IsAllocated (suc n) (record s { router = r; req_tasks = rest })
  after_login n s task rest r v e effect = go effect.map
    where
      senders : All (λ t. sender t < next_of s) (task ∷ rest)
      senders = subst (All (λ t. sender t < next_of s)) e v.waiting.reqs

      t : Server
      t = record s { router = r; req_tasks = rest }

      waiting : Senders (λ id. id < next_of s) t
      waiting = record { reqs = senders.1; rooms = v.waiting.rooms }

      go :
          LoggedIn (sender task) s.router.user_session_map r.user_session_map
          → IsAllocated (suc n) t
      go (inl same) =
          kept n s t v effect.keeps (subst IsConsistent (sym same) v.consistent)
            (λ u sid h.
              v.seated u sid
                (ap (λ (m : UserSessionMap). lookup u m.user_to_session) (sym same) ∙ h))
            waiting
      go (inr (info, from, bound)) =
          kept n s t v effect.keeps
            (subst IsConsistent (sym bound) (on_user_login-IsConsistent _ info v.consistent))
            (λ u sid h.
              seated_by s.router.user_session_map info (next_of s) u sid
                (omega (arith, from, senders.0)) v.seated
                (ap (λ (m : UserSessionMap). lookup u m.user_to_session) (sym bound) ∙ h))
            waiting

  pub after_room :
      (n : ℕ) (s : Server) (task : RoomTask) (rest : List RoomTask) (r : MsgRouter)
      → IsAllocated n s
      → s.room_tasks ≡ task ∷ rest
      → RoomEffect s.router r
      → IsAllocated (suc n) (record s { router = r; room_tasks = rest })
  after_room n s task rest r v e effect =
      kept n s _ v effect.keeps (subst IsConsistent (sym effect.map) v.consistent)
        (λ u sid h.
          v.seated u sid
            (ap (λ (m : UserSessionMap). lookup u m.user_to_session) (sym effect.map) ∙ h))
        (record {
          reqs = v.waiting.reqs;
          rooms = (subst (All (λ t. room_sender t < next_of s)) e v.waiting.rooms).1;
        })
