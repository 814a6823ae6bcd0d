-- ===== src/Server/Posts.antt =====
-- What the bytes that a session receives leave in the server of main.cpp: tasks from that session.
use own_game_server.Prelude.{
  ℕ, ◌+◌, ◌≡◌, ◌∙◌, refl, sym, subst, Bool, true, false, not, Option, none, some, List, [], ◌∷◌,
  map, length, ltb, nat_beq, All, All-append, Bool-cases, inl, inr, if◌then◌else◌, arith,
}
use own_game_server.Codec.Decoder.{DecodedMessage, Outcome, done, fault, out_of_fuel}
use own_game_server.ClientSession.{
  ClientSession, MsgPack, Received, received, overflow, bad_read, stuck, pack_from, copied, deliver,
  on_socket_recv, read_buffer_size,
}
use own_game_server.SessionManager.{get_session}
use own_game_server.MsgRouter.{
  MsgRouter, Peer, put_peer, Handler, heartbeat_handler, req_handler, room_req_handler, dispatch,
  on_msg_receive,
}
use own_game_server.MsgRouter.Quiet.{
  IsSamePeer, IsQuiet, KeepsPeers-refl, IsQuiet-refl, IsQuiet-trans, put_peer-IsQuiet,
}
use own_game_server.ReqHandler.{ReqTask, login_task, logout_task}
use own_game_server.ReqHandler as Q
use own_game_server.RoomReqHandler.{RoomTask, create_task, join_task, leave_task, list_task}
use own_game_server.RoomReqHandler as O
use own_game_server.Server.{
  Server, posted, hand, hand_if_found, receive_packs, received_by, receive_at,
}
use own_game_server.Server.Effects.{pack_of, heartbeat-IsQuiet}

-- The session that a task was posted for.
abbrev pub sender : ReqTask → ℕ
sender task = (pack_of task).sender_session_id

abbrev pub room_sender : RoomTask → ℕ
room_sender (create_task pack) = pack.sender_session_id
room_sender (join_task pack) = pack.sender_session_id
room_sender (leave_task pack) = pack.sender_session_id
room_sender (list_task pack) = pack.sender_session_id

-- Every task that waits is for a session with the property.
pub record Senders (P : ℕ → Type 0) (s : Server) : Type 0 where
  pub reqs : All (λ t. P (sender t)) s.req_tasks
  pub rooms : All (λ t. P (room_sender t)) s.room_tasks

pub record Posts (P : ℕ → Type 0) (s t : Server) : Type 0 where
  pub quiet : IsQuiet s.router t.router
  pub tasks : Senders P s → Senders P t

abbrev pub AllFrom : ℕ → List MsgPack → Type 0
AllFrom id packs = All (λ p. p.sender_session_id ≡ id) packs

if_All :
    {A : Type 0} (P : A → Type 0) (b : Bool) (x y : Option A)
    → All P (posted x)
    → All P (posted y)
    → All P (posted (if b then x else y))
if_All P true x y h k = h
if_All P false x y h k = k

module _ (P : ℕ → Type 0) where
  pub Posts-refl : (s : Server) → Posts P s s
  Posts-refl s = record { quiet = IsQuiet-refl s.router; tasks = λ h. h }

  pub Posts-trans : (s t u : Server) → Posts P s t → Posts P t u → Posts P s u
  Posts-trans s t u a b = record {
    quiet = IsQuiet-trans s.router t.router u.router a.quiet b.quiet;
    tasks = λ h. b.tasks (a.tasks h);
  }

  posted_req :
      (pack : MsgPack)
      → P pack.sender_session_id
      → All (λ t. P (sender t)) (posted (Q.handle_decoded_msg pack))
  unfolding Q.handle_decoded_msg
  posted_req pack h =
      let Good = λ (t : ReqTask). P (sender t) in
      if_All Good (not (nat_beq pack.msg.main_type _)) none _ tt (
        if_All Good (nat_beq pack.msg.sub_type 0) (some (login_task pack)) _ (h, tt)
          (if_All Good (nat_beq pack.msg.sub_type 1) (some (logout_task pack)) none (h, tt) tt))

  posted_room :
      (pack : MsgPack)
      → P pack.sender_session_id
      → All (λ t. P (room_sender t)) (posted (O.handle_decoded_msg pack))
  unfolding O.handle_decoded_msg
  posted_room pack h =
      let Good = λ (t : RoomTask). P (room_sender t) in
      if_All Good (not (nat_beq pack.msg.main_type _)) none _ tt (
        if_All Good (nat_beq pack.msg.sub_type 1) (some (create_task pack)) _ (h, tt)
          (if_All Good (nat_beq pack.msg.sub_type 2) (some (join_task pack)) _ (h, tt)
            (if_All Good (nat_beq pack.msg.sub_type 3) (some (leave_task pack)) _ (h, tt)
              (if_All Good (nat_beq pack.msg.sub_type 4) (some (list_task pack)) none (h, tt) tt))))

  hand-Posts :
      (now : ℕ) (h : Handler) (pack : MsgPack) (s : Server)
      → P pack.sender_session_id
      → Posts P s (hand now h pack s)
  unfolding hand
  hand-Posts now heartbeat_handler pack s good = record {
    quiet = heartbeat-IsQuiet now pack s.router;
    tasks = λ w. record { reqs = w.reqs; rooms = w.rooms };
  }
  hand-Posts now req_handler pack s good = record {
    quiet = IsQuiet-refl s.router;
    tasks = λ w. record {
      reqs = All-append (λ t. P (sender t)) s.req_tasks _ w.reqs (posted_req pack good);
      rooms = w.rooms;
    };
  }
  hand-Posts now room_req_handler pack s good = record {
    quiet = IsQuiet-refl s.router;
    tasks = λ w. record {
      reqs = w.reqs;
      rooms = All-append (λ t. P (room_sender t)) s.room_tasks _ w.rooms (posted_room pack good);
    };
  }

  hand_if_found-Posts :
      (now : ℕ) (found : Option (Option Handler)) (pack : MsgPack) (s : Server)
      → P pack.sender_session_id
      → Posts P s (hand_if_found now (dispatch found pack s.router) s)
  unfolding dispatch hand_if_found
  hand_if_found-Posts now none pack s good = Posts-refl s
  hand_if_found-Posts now (some none) pack s good = record {
    quiet = record {
      keeps = record { next = refl; managed = refl; peers = (KeepsPeers-refl s.router).peers };
      map = refl;
      rooms = refl;
    };
    tasks = λ w. record { reqs = w.reqs; rooms = w.rooms };
  }
  hand_if_found-Posts now (some (some h)) pack s good = hand-Posts now h _ s good

  receive_packs-Posts :
      (now id : ℕ) (packs : List MsgPack) (s : Server)
      → P id
      → AllFrom id packs
      → Posts P s (receive_packs now packs s)
  unfolding receive_packs on_msg_receive
  receive_packs-Posts now id [] s good from = Posts-refl s
  receive_packs-Posts now id (pack ∷ packs) s good (this, others) =
      Posts-trans s (hand_if_found now (on_msg_receive pack s.router) s) _
        (hand_if_found-Posts now _ pack s (subst P (sym this) good))
        (receive_packs-Posts now id packs _ good others)

-- What a session has received: it is the same session, and the packs are from it.
abbrev FromClient : ClientSession → Received → Type 0
FromClient client (received c packs) =
    (c.session_id ≡ client.session_id)
    × (c.has_connection ≡ client.has_connection)
    × AllFrom client.session_id packs
FromClient client overflow = Unit
FromClient client bad_read = Unit
FromClient client stuck = Unit

pack_from-AllFrom : (id : ℕ) (msgs : List DecodedMessage) → AllFrom id (map (pack_from id) msgs)
pack_from-AllFrom id [] = tt
pack_from-AllFrom id (m ∷ msgs) = (refl, pack_from-AllFrom id msgs)

deliver-FromClient : (client : ClientSession) (o : Outcome) → FromClient client (deliver client o)
unfolding deliver
deliver-FromClient client fault = tt
deliver-FromClient client out_of_fuel = tt
deliver-FromClient client (done r) = elim (Bool-cases (not r.success)) [
  | inl bad ↦ rw (bad) (ground arith, ground arith, tt)
  | inr fine ↦
      rw (fine) (ground arith, ground arith, pack_from-AllFrom client.session_id r.messages)
]

on_socket_recv-FromClient :
    (client : ClientSession) (bytes : List ℕ) → FromClient client (on_socket_recv client bytes)
unfolding on_socket_recv
on_socket_recv-FromClient client bytes = elim (Bool-cases (nat_beq (length bytes) 0)) [
  | inl nothing ↦ rw (nothing) (refl, refl, tt)
  | inr some_bytes ↦
      elim (Bool-cases (ltb read_buffer_size (length client.buffer + length bytes))) [
        | inl much ↦ rw (some_bytes, much) tt
        | inr fits ↦ rw (some_bytes, fits) (deliver-FromClient (copied bytes client) _)
      ]
]

abbrev pub Yields : (Server → Type 0) → Option Server → Type 0
Yields Good none = Unit
Yields Good (some t) = Good t

module _ (P : ℕ → Type 0) (now id : ℕ) (p0 peer : Peer) (s : Server)
    (there : get_session id s.router.session_manager ≡ some p0) (same : IsSamePeer p0 peer)
    (named : p0.client.session_id ≡ id) (good : P id) where
  received_by-Posts :
      (x : Received) → FromClient peer.client x → Yields (Posts P s) (received_by now id peer x s)
  unfolding received_by
  received_by-Posts overflow from = tt
  received_by-Posts bad_read from = tt
  received_by-Posts stuck from = tt
  received_by-Posts (received c packs) (ident, linked, from) =
      let r1 : MsgRouter = put_peer id (record peer { client = c }) s.router in
      let s1 : Server = record s { router = r1 } in
      Posts-trans P s s1 _
        (record {
          quiet =
              put_peer-IsQuiet id p0 (record peer { client = c }) s.router there
                (record { id = ident ∙ same.id; linked = linked ∙ same.linked });
          tasks = λ w. record { reqs = w.reqs; rooms = w.rooms };
        })
        (receive_packs-Posts P now id packs s1 good
          (subst (λ (n : ℕ). AllFrom n packs) (same.id ∙ named) from))

  -- A session that receives bytes posts tasks for itself only, and leaves users, rooms and the other
  -- sessions alone.
  pub receive_at-Posts :
      (bytes : List ℕ) → Yields (Posts P s) (receive_at now id (some peer) bytes s)
  unfolding receive_at
  receive_at-Posts bytes = received_by-Posts _ (on_socket_recv-FromClient peer.client bytes)
