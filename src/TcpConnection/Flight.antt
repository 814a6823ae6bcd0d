-- ===== src/TcpConnection/Flight.antt =====
-- The operations of network/session/TcpConnection.cpp that are under way, and the close callback.
use own_game_server.Prelude.{
  ℕ, zero, suc, ◌-◌, ◌≤◌, ◌≡◌, ◌≢◌, ◌↔◌, refl, subst, Bool, true, false, Option, none, some, List,
  [], ◌∷◌, ◌++◌, arith, if◌then◌else◌,
}
use own_game_server.TcpConnection.{
  TcpConnection, Call, start_it, close_it, send_it, Event, call, wrote, read, Next, going, bad_pop,
  do_read, do_write, do_close, start, send, close, run_call, run_calls, on_read, on_write, step,
  run, new_connection, is_empty, pop_front, completes,
}
use own_game_server.TcpConnection.Refine.{going_inj, completes_going, and_then_going}

pub record IsSteady (c : TcpConnection) : Type 0 where
  pub reads : c.pending_reads ≤ (if c.started then 1 else 0)
  pub busy : c.closed ≡ false → c.pending_writes ≡ (if is_empty c.write_queue then 0 else 1)
  pub one_write : c.pending_writes ≤ 1
  pub emptied : c.closed ≡ true → c.write_queue ≡ []
  pub notified : c.close_calls ≡ (if c.closed then 1 else 0)
  pub callback : c.closed ≡ false → c.has_close_callback ≡ true

do_close-IsSteady : (c : TcpConnection) → IsSteady c → IsSteady (do_close true c)
unfolding do_close
do_close-IsSteady c v = record {
  reads = ground (arith, v.reads);
  busy = λ e. ground (arith, v.busy);
  one_write = ground (arith, v.one_write);
  emptied = λ e. ground (arith, v.emptied);
  notified = ground (arith, v.notified, v.callback);
  callback = λ e. ground (arith, v.callback);
}

send-IsSteady : (bytes : List ℕ) (c : TcpConnection) → IsSteady c → IsSteady (send bytes c)
unfolding send do_write
send-IsSteady bytes c v = record {
  reads = ground (arith, v.reads);
  busy = λ e. ground (arith, v.busy);
  one_write = ground (arith, v.one_write, v.busy);
  emptied = λ e. ground (arith, v.emptied);
  notified = ground (arith, v.notified);
  callback = λ e. ground (arith, v.callback);
}

start-IsSteady : (c : TcpConnection) → IsSteady c → IsSteady (start c)
unfolding start do_read
start-IsSteady c v = record {
  reads = ground (arith, v.reads);
  busy = λ e. ground (arith, v.busy);
  one_write = ground (arith, v.one_write);
  emptied = λ e. ground (arith, v.emptied);
  notified = ground (arith, v.notified);
  callback = λ e. ground (arith, v.callback);
}

run_call-IsSteady : (k : Call) (c : TcpConnection) → IsSteady c → IsSteady (run_call k c)
unfolding run_call close
run_call-IsSteady start_it c v = start-IsSteady c v
run_call-IsSteady close_it c v = do_close-IsSteady c v
run_call-IsSteady (send_it bytes) c v = send-IsSteady bytes c v

-- A call on a started connection begins no read.
run_call-started :
    (k : Call) (c : TcpConnection)
    → c.started ≡ true
    → ((run_call k c).started ≡ true) × ((run_call k c).pending_reads ≡ c.pending_reads)
unfolding run_call start close send do_close do_write
run_call-started start_it c e = ground (arith, e)
run_call-started close_it c e = ground (arith, e)
run_call-started (send_it bytes) c e = ground (arith, e)

-- A started connection that waits for no read.
record IsIdle (c : TcpConnection) : Type 0 where
  steady : IsSteady c
  running : c.started ≡ true
  unread : c.pending_reads ≡ 0

run_calls-IsIdle : (ks : List Call) (c : TcpConnection) → IsIdle c → IsIdle (run_calls ks c)
unfolding run_calls
run_calls-IsIdle [] c v = v
run_calls-IsIdle (k ∷ ks) c v = run_calls-IsIdle ks (run_call k c) (record {
  steady = run_call-IsSteady k c v.steady;
  running = (run_call-started k c v.running).0;
  unread = ground (arith, v.unread, run_call-started k c v.running);
})

do_read-IsSteady : (c : TcpConnection) → IsIdle c → IsSteady (do_read c)
unfolding do_read
do_read-IsSteady c v = record {
  reads = ground (arith, v.running, v.unread);
  busy = λ e. ground (arith, v.steady.busy);
  one_write = ground (arith, v.steady.one_write);
  emptied = λ e. ground (arith, v.steady.emptied);
  notified = ground (arith, v.steady.notified);
  callback = λ e. ground (arith, v.steady.callback);
}

-- What is noted when a read completes.
read_done-IsIdle :
    (got : List (List ℕ)) (c : TcpConnection)
    → c.pending_reads ≢ 0
    → IsSteady c
    → IsIdle (record c { pending_reads = c.pending_reads - 1; received = got })
read_done-IsIdle got c waits v = record {
  steady = record {
    reads = ground (arith, v.reads);
    busy = v.busy;
    one_write = v.one_write;
    emptied = v.emptied;
    notified = v.notified;
    callback = v.callback;
  };
  running = ground (arith, v.reads);
  unread = ground (arith, v.reads);
}

on_read-IsSteady :
    (outcome : Option (List ℕ)) (ks : List Call) (c : TcpConnection)
    → c.pending_reads ≢ 0
    → IsSteady c
    → IsSteady (on_read outcome ks (record c { pending_reads = c.pending_reads - 1 }))
unfolding on_read
on_read-IsSteady none ks c waits v =
    do_close-IsSteady _ (read_done-IsIdle c.received c waits v).steady
on_read-IsSteady (some bytes) ks c waits v = do_read-IsSteady _ (chosen c.has_message_callback)
  where
    chosen :
        (b : Bool)
        → IsIdle (
            if b
            then run_calls ks (record c {
              pending_reads = c.pending_reads - 1;
              received = c.received ++ bytes ∷ [];
            })
            else record c { pending_reads = c.pending_reads - 1 })
    chosen true = run_calls-IsIdle ks _ (read_done-IsIdle (c.received ++ bytes ∷ []) c waits v)
    chosen false = read_done-IsIdle c.received c waits v

pop_front-IsSteady :
    (queue : List (List ℕ)) (c d : TcpConnection)
    → c.write_queue ≡ queue
    → c.pending_writes ≢ 0
    → IsSteady c
    → pop_front queue (record c { pending_writes = c.pending_writes - 1 }) ≡ going d
    → IsSteady d
unfolding pop_front do_write
pop_front-IsSteady [] c d q waits v e = cc
pop_front-IsSteady (x ∷ []) c d q waits v e = subst IsSteady (going_inj _ d e) (record {
  reads = v.reads;
  busy = λ e. ground (arith, v.one_write);
  one_write = ground (arith, v.one_write);
  emptied = λ e. refl;
  notified = v.notified;
  callback = v.callback;
})
pop_front-IsSteady (x ∷ y ∷ zs) c d q waits v e = subst IsSteady (going_inj _ d e) (record {
  reads = ground (arith, v.reads);
  busy = λ e. ground (arith, v.one_write);
  one_write = ground (arith, v.one_write);
  emptied = λ e. ground (arith, q, v.emptied);
  notified = ground (arith, v.notified);
  callback = λ e. ground (arith, v.callback);
})

wrote-IsSteady :
    (failed : Bool) (c d : TcpConnection)
    → c.pending_writes ≢ 0
    → IsSteady c
    → on_write failed (record c { pending_writes = c.pending_writes - 1 }) ≡ going d
    → IsSteady d
unfolding on_write do_close
wrote-IsSteady true c d waits v e = subst IsSteady (going_inj _ d e) (record {
  reads = ground (arith, v.reads);
  busy = λ e. ground (arith, e);
  one_write = ground (arith, v.one_write);
  emptied = λ e. ground (arith, v.emptied);
  notified = ground (arith, v.notified, v.callback);
  callback = λ e. ground (arith, v.callback);
})
wrote-IsSteady false c d waits v e = pop_front-IsSteady c.write_queue c d refl waits v e

completes_pending : (n : ℕ) (x : Next) (d : TcpConnection) → completes n x ≡ going d → n ≢ 0
unfolding completes
completes_pending zero x d e = cc
completes_pending (suc n) x d e = omega arith

step-IsSteady : (e : Event) (c d : TcpConnection) → IsSteady c → step e c ≡ going d → IsSteady d
unfolding step
step-IsSteady (call k) c d v e = subst IsSteady (going_inj _ d e) (run_call-IsSteady k c v)
step-IsSteady (wrote failed) c d v e =
    wrote-IsSteady failed c d (completes_pending c.pending_writes _ d e) v
      (completes_going c.pending_writes _ d e)
step-IsSteady (read outcome ks) c d v e =
    subst IsSteady (going_inj _ d (completes_going c.pending_reads _ d e))
      (on_read-IsSteady outcome ks c (completes_pending c.pending_reads _ d e) v)

pub run-IsSteady :
    (es : List Event) (c d : TcpConnection) → IsSteady c → run es c ≡ going d → IsSteady d
unfolding run
run-IsSteady [] c d v e = subst IsSteady (going_inj c d e) v
run-IsSteady (x ∷ es) c d v e =
    let (m, first, rest) = and_then_going (run es) (step x c) d e in
    run-IsSteady es m d (step-IsSteady x c m v first) rest

new_connection-IsSteady : (listens : Bool) → IsSteady (new_connection true listens)
unfolding new_connection
new_connection-IsSteady listens = record {
  reads = omega arith;
  busy = λ e. refl;
  one_write = omega arith;
  emptied = λ e. refl;
  notified = refl;
  callback = λ e. refl;
}

bad_pop_cases :
    (n : ℕ) (queue : List (List ℕ)) (c : TcpConnection)
    → (completes n (pop_front queue c) ≡ bad_pop) ↔ ((n ≢ 0) × (is_empty queue ≡ true))
unfolding completes pop_front
bad_pop_cases zero queue c = ((λ e. cc), λ p. absurd (p.0 refl))
bad_pop_cases (suc n) [] c = ((λ e. (omega arith, refl)), λ p. refl)
bad_pop_cases (suc n) (x ∷ xs) c = ((λ e. cc), λ p. cc)

-- A steady connection whose write is done has nothing left to take from the queue when it is closed.
steady_bad_pop :
    (c : TcpConnection)
    → IsSteady c
    → ((c.pending_writes ≢ 0) × (is_empty c.write_queue ≡ true))
      ↔ ((c.closed ≡ true) × (c.pending_writes ≡ 1))
steady_bad_pop c v = ground (arith, v.busy, v.one_write, v.emptied)

module _ (listens : Bool) (es : List Event) (c : TcpConnection)
    (reached : run es (new_connection true listens) ≡ going c) where
  steady : IsSteady c
  steady = run-IsSteady es _ c (new_connection-IsSteady listens) reached

  -- In every state that a new connection with a close callback reaches, at most one read and at most
  -- one write are under way, and until it is closed a write is exactly where the queue is not empty;
  -- the close callback has run once if the connection is closed, and not at all otherwise.
  pub run-flight :
      (c.pending_reads ≤ 1)
      × (c.pending_writes ≤ 1)
      × (c.closed ≡ false → c.pending_writes ≡ (if is_empty c.write_queue then 0 else 1))
      × (c.close_calls ≡ (if c.closed then 1 else 0))
  run-flight = (ground (arith, steady.reads), steady.one_write, steady.busy, steady.notified)

  -- In every such state, the handler of a write that has not failed removes the first element of an
  -- empty queue exactly where the connection has been closed while the write was under way.
  pub bad_pop_iff : (step (wrote false) c ≡ bad_pop) ↔ ((c.closed ≡ true) × (c.pending_writes ≡ 1))
  unfolding step on_write
  bad_pop_iff =
      let (there, back) =
        bad_pop_cases c.pending_writes c.write_queue
          (record c { pending_writes = c.pending_writes - 1 }) in
      let (to, from) = steady_bad_pop c steady in ((λ e. to (there e)), λ p. back (from p))
