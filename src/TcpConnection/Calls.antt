-- ===== src/TcpConnection/Calls.antt =====
-- The calls and the read handler of network/session/TcpConnection.cpp keep the outbox.
use own_game_server.Prelude.{
  ℕ, Bool, true, false, Option, none, some, List, [], ◌∷◌, ◌++◌, arith, if◌then◌else◌,
  length-append, subst, sym,
}
use own_game_server.TcpConnection.{
  TcpConnection, Call, start_it, close_it, send_it, read, do_read, do_write, do_close, start, send,
  close, run_call, run_calls, on_read,
}
use own_game_server.TcpConnection.Outbox.{
  Outbox, given, shut, accept, accept_all, observe, Holds, take-append-end, take-append-inner,
  drop-append-le,
}

module _ (listens : Bool) where
  pub shut-Holds :
      (notify : Bool) (c : TcpConnection) (o : Outbox)
      → Holds listens c o
      → Holds listens (do_close notify c) (shut o)
  unfolding do_close shut given
  shut-Holds notify c o h = record {
    listening = ground (arith, h.listening);
    same_end = ground (arith, h.same_end);
    in_order = ground (arith, h.in_order);
    waiting = λ e. ground (arith, h.same_end);
    dropped = λ e. ground (arith, h.dropped);
    counted = h.counted;
  }

  send-Holds :
      (bytes : List ℕ) (c : TcpConnection) (o : Outbox)
      → Holds listens c o
      → Holds listens (send bytes c) (accept (send_it bytes) o)
  unfolding send do_write accept given
  send-Holds bytes c o h = record {
    listening = ground (arith, h.listening);
    same_end = ground (arith, h.same_end);
    in_order = ground (
      arith,
      h.same_end,
      h.in_order,
      h.waiting,
      h.counted,
      take-append-end o.finished o.accepted bytes,
      take-append-inner o.finished o.accepted bytes,
    );
    waiting = λ e. ground (
      arith,
      h.same_end,
      h.waiting,
      h.counted,
      drop-append-le o.finished o.accepted (bytes ∷ []),
    );
    dropped = λ e. ground (arith, h.same_end, h.dropped);
    counted = ground (arith, h.counted, length-append o.accepted (bytes ∷ []));
  }

  start-Holds : (c : TcpConnection) (o : Outbox) → Holds listens c o → Holds listens (start c) o
  unfolding start do_read
  start-Holds c o h = record {
    listening = ground (arith, h.listening);
    same_end = ground (arith, h.same_end);
    in_order = ground (arith, h.in_order);
    waiting = λ e. ground (arith, h.waiting);
    dropped = λ e. ground (arith, h.dropped);
    counted = h.counted;
  }

  pub run_call-Holds :
      (k : Call) (c : TcpConnection) (o : Outbox)
      → Holds listens c o
      → Holds listens (run_call k c) (accept k o)
  unfolding run_call close accept
  run_call-Holds start_it c o h = start-Holds c o h
  run_call-Holds close_it c o h = shut-Holds true c o h
  run_call-Holds (send_it bytes) c o h = send-Holds bytes c o h

  run_calls-Holds :
      (ks : List Call) (c : TcpConnection) (o : Outbox)
      → Holds listens c o
      → Holds listens (run_calls ks c) (accept_all ks o)
  unfolding run_calls accept_all
  run_calls-Holds [] c o h = h
  run_calls-Holds (k ∷ ks) c o h =
      run_calls-Holds ks (run_call k c) (accept k o) (run_call-Holds k c o h)

  read_again-Holds :
      (c : TcpConnection) (o : Outbox) → Holds listens c o → Holds listens (do_read c) o
  unfolding do_read
  read_again-Holds c o h = record {
    listening = ground (arith, h.listening);
    same_end = ground (arith, h.same_end);
    in_order = ground (arith, h.in_order);
    waiting = λ e. ground (arith, h.waiting);
    dropped = λ e. ground (arith, h.dropped);
    counted = h.counted;
  }

  -- The counters of what is under way, and what has been received, do not matter.
  pub noted-Holds :
      (reads writes : ℕ) (got : List (List ℕ)) (c : TcpConnection) (o : Outbox)
      → Holds listens c o
      → Holds listens
          (record c { pending_reads = reads; pending_writes = writes; received = got })
          o
  noted-Holds reads writes got c o h = record {
    listening = h.listening;
    same_end = h.same_end;
    in_order = h.in_order;
    waiting = h.waiting;
    dropped = h.dropped;
    counted = h.counted;
  }

  pub on_read-Holds :
      (outcome : Option (List ℕ)) (ks : List Call) (c : TcpConnection) (o : Outbox)
      → Holds listens c o
      → Holds listens (on_read outcome ks c) (observe listens (read outcome ks) o)
  unfolding on_read observe
  on_read-Holds none ks c o h = shut-Holds true c o h
  on_read-Holds (some bytes) ks c o h =
      subst
        (λ (b : Bool).
          Holds listens (do_read (if b then heard else c)) (if listens then accept_all ks o else o))
        (sym h.listening) (read_again-Holds _ _ (chosen listens))
    where
      heard : TcpConnection
      heard = run_calls ks (record c { received = c.received ++ bytes ∷ [] })

      chosen :
          (b : Bool) → Holds listens (if b then heard else c) (if b then accept_all ks o else o)
      chosen true = run_calls-Holds ks _ o (noted-Holds _ _ _ c o h)
      chosen false = h
