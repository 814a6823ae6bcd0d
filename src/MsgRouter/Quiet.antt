-- ===== src/MsgRouter/Quiet.antt =====
-- What protocol/Router/MsgRouter.cpp leaves as it is when it sends: sessions come and go only in the
-- session manager, and users only in the user-session map.
use own_game_server.Prelude.{
  ℕ, ◌≡◌, refl, sym, ap, ◌∙◌, true, not, Option, none, some, List, [], ◌∷◌, map, arith, nat_beq,
  nat_beq_iff, Bool-cases, Option-cases, inl, inr,
}
use own_game_server.Assoc.{lookup, insert, nat_eq, lookup-insert}
use own_game_server.Codec.Encoder.{EncodeMessage}
use own_game_server.ClientSession.{send_message}
use own_game_server.SessionManager.{get_session, on_session_heartbeat}
use own_game_server.UserSessionMap.{get_session_id}
use own_game_server.RoomManager.{room_broad_cast}
use own_game_server.MsgRouter.{
  MsgRouter, Peer, put_peer, hand_over, send_to_peer, send_if_found, send_message_to_session,
  send_message_to_user, send_each, room_manager_broadcast,
}

-- A session that is the same one, with what it has read and is to write left open.
pub record IsSamePeer (p q : Peer) : Type 0 where
  pub id : q.client.session_id ≡ p.client.session_id
  pub linked : q.client.has_connection ≡ p.client.has_connection

-- No session is added, and no id allocated.
pub record KeepsPeers (r q : MsgRouter) : Type 0 where
  pub next : q.session_manager.next_session_id ≡ r.session_manager.next_session_id
  pub managed : q.has_session_manager ≡ r.has_session_manager
  pub peers :
      (id : ℕ) (p' : Peer)
      → get_session id q.session_manager ≡ some p'
      → (p : Peer) × (get_session id r.session_manager ≡ some p) × IsSamePeer p p'

-- Nor is a user bound or a room changed.
pub record IsQuiet (r q : MsgRouter) : Type 0 where
  pub keeps : KeepsPeers r q
  pub map : q.user_session_map ≡ r.user_session_map
  pub rooms : q.room_manager ≡ r.room_manager

pub KeepsPeers-refl : (r : MsgRouter) → KeepsPeers r r
KeepsPeers-refl r = record {
  next = refl;
  managed = refl;
  peers = λ id p e. (p, e, record { id = refl; linked = refl });
}

pub KeepsPeers-trans : (r q t : MsgRouter) → KeepsPeers r q → KeepsPeers q t → KeepsPeers r t
KeepsPeers-trans r q t k l = record {
  next = l.next ∙ k.next;
  managed = l.managed ∙ k.managed;
  peers = λ id p' e.
      let (p, there, same) = l.peers id p' e in
      let (o, first, also) = k.peers id p there in
      (o, first, record { id = same.id ∙ also.id; linked = same.linked ∙ also.linked });
}

pub IsQuiet-refl : (r : MsgRouter) → IsQuiet r r
IsQuiet-refl r = record { keeps = KeepsPeers-refl r; map = refl; rooms = refl }

pub IsQuiet-trans : (r q t : MsgRouter) → IsQuiet r q → IsQuiet q t → IsQuiet r t
IsQuiet-trans r q t k l = record {
  keeps = KeepsPeers-trans r q t k.keeps l.keeps;
  map = l.map ∙ k.map;
  rooms = l.rooms ∙ k.rooms;
}

-- A session that is not there does not come back.
pub KeepsPeers-none :
    (r q : MsgRouter) (id : ℕ)
    → KeepsPeers r q
    → get_session id r.session_manager ≡ none
    → get_session id q.session_manager ≡ none
KeepsPeers-none r q id k gone = elim (Option-cases (get_session id q.session_manager)) [
  | inl e ↦ e
  | inr (p', e) ↦ let (p, there, same) = k.peers id p' e in cc
]

-- The write to a session that is there.
pub put_peer-IsQuiet :
    (id : ℕ) (p q : Peer) (r : MsgRouter)
    → get_session id r.session_manager ≡ some p
    → IsSamePeer p q
    → IsQuiet r (put_peer id q r)
put_peer-IsQuiet id p q r there same = record {
  keeps = record {
    next = refl;
    managed = refl;
    peers = λ other p' e. elim (Bool-cases (nat_beq id other)) [
      | inl this ↦ at_id other p' this e
      | inr apart ↦ (
        p',
        ground (arith, lookup-insert id other q r.session_manager.sessions),
        record { id = refl; linked = refl },
      )
    ];
  };
  map = refl;
  rooms = refl;
}
  where
    at_id :
        (other : ℕ) (p' : Peer)
        → nat_beq id other ≡ true
        → lookup other (insert id q r.session_manager.sessions) ≡ some p'
        → (o : Peer) × (get_session other r.session_manager ≡ some o) × IsSamePeer o p'
    at_id other p' this e = (
      p,
      ap (λ (n : ℕ). get_session n r.session_manager) (sym ((nat_beq_iff id other).0 this)) ∙ there,
      record {
        id = ap (λ (x : Peer). x.client.session_id) (sym same_one) ∙ same.id;
        linked = ap (λ (x : Peer). x.client.has_connection) (sym same_one) ∙ same.linked;
      },
    )
      where
        same_one : q ≡ p'
        same_one = ground (arith, lookup-insert id other q r.session_manager.sessions)

hand_over-IsSamePeer : (bytes : Option (List ℕ)) (p : Peer) → IsSamePeer p (hand_over bytes p)
unfolding hand_over
hand_over-IsSamePeer none p = record { id = refl; linked = refl }
hand_over-IsSamePeer (some bytes) p = record { id = refl; linked = refl }

set_next_msg_id-IsQuiet : (n : ℕ) (r : MsgRouter) → IsQuiet r (record r { next_msg_id = n })
set_next_msg_id-IsQuiet n r = record {
  keeps = record {
    next = refl;
    managed = refl;
    peers = λ id p e. (p, e, record { id = refl; linked = refl });
  };
  map = refl;
  rooms = refl;
}

send_if_found-IsQuiet :
    (id : ℕ) (found : Option Peer) (msg : EncodeMessage) (r : MsgRouter)
    → get_session id r.session_manager ≡ found
    → IsQuiet r (send_if_found id found msg r).0
unfolding send_if_found send_to_peer
send_if_found-IsQuiet id none msg r e = IsQuiet-refl r
send_if_found-IsQuiet id (some peer) msg r e =
    IsQuiet-trans r
      (record r { next_msg_id = (send_message peer.client r.next_msg_id msg).next_id }) _
      (set_next_msg_id-IsQuiet _ r) (put_peer-IsQuiet id peer _ _ e (hand_over-IsSamePeer _ peer))

pub send_message_to_session-IsQuiet :
    (id : ℕ) (msg : EncodeMessage) (r : MsgRouter) → IsQuiet r (send_message_to_session id msg r).0
unfolding send_message_to_session
send_message_to_session-IsQuiet id msg r = elim (Bool-cases (not r.has_session_manager)) [
  | inl gone ↦ rw (gone) (IsQuiet-refl r)
  | inr there ↦ rw (there) (send_if_found-IsQuiet id _ msg r refl)
]

pub send_message_to_user-IsQuiet :
    (id : ℕ) (msg : EncodeMessage) (r : MsgRouter) → IsQuiet r (send_message_to_user id msg r).0
unfolding send_message_to_user
send_message_to_user-IsQuiet id msg r =
    elim (Bool-cases (nat_beq (get_session_id r.user_session_map id) 0)) [
      | inl unbound ↦ rw (unbound) (IsQuiet-refl r)
      | inr bound ↦ rw (bound) (send_message_to_session-IsQuiet _ msg r)
    ]

send_each-IsQuiet :
    (ids : List ℕ) (msg : EncodeMessage) (r : MsgRouter) → IsQuiet r (send_each ids msg r).0
unfolding send_each
send_each-IsQuiet [] msg r = IsQuiet-refl r
send_each-IsQuiet (id ∷ ids) msg r =
    IsQuiet-trans r (send_message_to_user id msg r).0 _ (send_message_to_user-IsQuiet id msg r)
      (send_each-IsQuiet ids _ _)

pub room_manager_broadcast-IsQuiet :
    (id : ℕ) (msg : EncodeMessage) (r : MsgRouter) → IsQuiet r (room_manager_broadcast id msg r).0
unfolding room_manager_broadcast
room_manager_broadcast-IsQuiet id msg r =
    send_each-IsQuiet
      (map (λ (c : ℕ × EncodeMessage). c.0) (room_broad_cast id msg r.room_manager).0) msg r

pub on_session_heartbeat-IsQuiet :
    (id now : ℕ) (r : MsgRouter)
    → IsQuiet r (record r { session_manager = on_session_heartbeat id now r.session_manager })
unfolding on_session_heartbeat
on_session_heartbeat-IsQuiet id now r = elim (Option-cases (lookup id r.session_manager.sessions)) [
  | inl e ↦ rw (e, on_session_heartbeat) (IsQuiet-refl r)
  | inr (p, e) ↦
      rw (e, on_session_heartbeat)
        (record {
          keeps = record { next = refl; managed = refl; peers = (KeepsPeers-refl r).peers };
          map = refl;
          rooms = refl;
        })
]
