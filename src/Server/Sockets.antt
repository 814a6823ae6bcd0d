-- ===== src/Server/Sockets.antt =====
-- What the completion of a socket's operation does to the server of main.cpp: it adds no session, and
-- leaves the users and the rooms alone.
use own_game_server.Prelude.{
  ℕ, zero, suc, ◌≡◌, refl, Bool, true, false, not, ◌&&◌, Option, none, some, List, Bool-cases, inl,
  inr,
}
use own_game_server.TcpConnection.{TcpConnection, Next, going, bad_pop, not_pending, do_close}
use own_game_server.SessionManager.{get_session, close_session}
use own_game_server.SessionManager.Arrivals.{close_session-lookup, close_session-next}
use own_game_server.MsgRouter.{MsgRouter, Peer, put_peer}
use own_game_server.MsgRouter.Quiet.{
  IsSamePeer, IsQuiet, IsQuiet-refl, IsQuiet-trans, put_peer-IsQuiet,
}
use own_game_server.Server.{Server}
use own_game_server.Server.Actions.{
  with_router, with_connection, drop_connection, taken, read_on, then_read_on, after_read,
  after_failed_read, put_next, after_write,
}
use own_game_server.Server.Posts.{Posts, Posts-refl, Posts-trans, Yields, receive_at-Posts}

same_connection : (c : TcpConnection) (peer : Peer) → IsSamePeer peer (with_connection c peer)
same_connection c peer = record { id = refl; linked = refl }

close_session-IsQuiet :
    (id : ℕ) (r : MsgRouter)
    → IsQuiet r (record r { session_manager = (close_session id r.session_manager).0 })
close_session-IsQuiet id r = record {
  keeps = record {
    next = close_session-next id r.session_manager;
    managed = refl;
    peers = λ other p e. (
      p,
      close_session-lookup id other p r.session_manager e,
      record { id = refl; linked = refl },
    );
  };
  map = refl;
  rooms = refl;
}

drop_connection-IsQuiet :
    (id : ℕ) (peer : Peer) (c : TcpConnection) (r : MsgRouter)
    → get_session id r.session_manager ≡ some peer
    → IsQuiet r (drop_connection id peer c r)
unfolding drop_connection
drop_connection-IsQuiet id peer c r there =
    elim (Bool-cases (not c.closed && c.has_close_callback)) [
      | inl calls ↦ rw (calls) (IsQuiet-trans r closing _ put (close_session-IsQuiet id closing))
      | inr silent ↦ rw (silent) put
    ]
  where
    closing : MsgRouter
    closing = put_peer id (with_connection (do_close true c) peer) r

    put : IsQuiet r closing
    put = put_peer-IsQuiet id peer _ r there (same_connection _ peer)

quiet-Posts :
    (P : ℕ → Type 0) (f : MsgRouter → MsgRouter) (s : Server)
    → IsQuiet s.router (f s.router)
    → Posts P s (with_router f s)
quiet-Posts P f s quiet = record {
  quiet = quiet;
  tasks = λ w. record { reqs = w.reqs; rooms = w.rooms };
}

read_on-IsQuiet :
    (id : ℕ) (found : Option Peer) (r : MsgRouter)
    → get_session id r.session_manager ≡ found
    → IsQuiet r (read_on id found r)
unfolding read_on
read_on-IsQuiet id none r e = IsQuiet-refl r
read_on-IsQuiet id (some peer) r e = put_peer-IsQuiet id peer _ r e (same_connection _ peer)

then_read_on-Posts :
    (P : ℕ → Type 0) (id : ℕ) (s : Server) (o : Option Server)
    → Yields (Posts P s) o
    → Yields (Posts P s) (then_read_on id o)
then_read_on-Posts P id s none h = tt
then_read_on-Posts P id s (some t) h = Posts-trans P s t _ h (
    quiet-Posts P (read_on id (get_session id t.router.session_manager)) t
      (read_on-IsQuiet id _ t.router refl))

module _ (P : ℕ → Type 0) (id : ℕ) (peer : Peer) (s : Server)
    (there : get_session id s.router.session_manager ≡ some peer) where
  pub after_read-Posts :
      (now : ℕ) (bytes : List ℕ) (reads : ℕ)
      → peer.client.session_id ≡ id
      → P id
      → Yields (Posts P s) (after_read now id peer bytes reads s)
  unfolding after_read
  after_read-Posts now bytes zero named good = Posts-refl P s
  after_read-Posts now bytes (suc others) named good = then_read_on-Posts P id s _ (
      receive_at-Posts P now id peer (taken others bytes peer) s there
        (record { id = refl; linked = refl }) named good bytes)

  drop-Posts : (c : TcpConnection) → Posts P s (with_router (drop_connection id peer c) s)
  drop-Posts c =
      quiet-Posts P (drop_connection id peer c) s (drop_connection-IsQuiet id peer c s.router there)

  pub after_failed_read-Posts : (reads : ℕ) → Posts P s (after_failed_read id peer reads s)
  unfolding after_failed_read
  after_failed_read-Posts zero = Posts-refl P s
  after_failed_read-Posts (suc others) =
      drop-Posts (record peer.connection { pending_reads = others })

  put_next-Posts : (n : Next) → Yields (Posts P s) (put_next id peer n s)
  put_next-Posts (going c) =
      quiet-Posts P (put_peer id (with_connection c peer)) s
        (put_peer-IsQuiet id peer _ s.router there (same_connection c peer))
  put_next-Posts bad_pop = tt
  put_next-Posts not_pending = Posts-refl P s

  pub after_write-Posts :
      (failed : Bool) (writes : ℕ) → Yields (Posts P s) (after_write id peer failed writes s)
  unfolding after_write
  after_write-Posts failed zero = Posts-refl P s
  after_write-Posts true (suc others) =
      drop-Posts (record peer.connection { pending_writes = others })
  after_write-Posts false (suc others) = put_next-Posts _
