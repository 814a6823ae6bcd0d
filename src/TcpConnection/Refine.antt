-- ===== src/TcpConnection/Refine.antt =====
-- The write handler of network/session/TcpConnection.cpp, and runs of a connection, against the outbox.
use own_game_server.Prelude.{
  ℕ, zero, suc, ◌≡◌, refl, ap, Bool, true, false, not, List, [], ◌∷◌, arith, drop, subst, sym, ◌∙◌,
}
use own_game_server.TcpConnection.{
  TcpConnection, Event, call, wrote, read, Next, going, bad_pop, not_pending, do_write, on_write,
  step, run, and_then, new_connection, pop_front, completes,
}
use own_game_server.TcpConnection.Outbox.{
  Outbox, empty_outbox, given, shut, accept, observe, observe_all, Holds, drop_next, take_next,
  take_end,
}
use own_game_server.TcpConnection.Calls.{shut-Holds, run_call-Holds, on_read-Holds, noted-Holds}

pub going_inj : (c d : TcpConnection) → going c ≡ going d → c ≡ d
going_inj c d e = ap (λ (n : Next). elim n [ going x ↦ x | bad_pop ↦ c | not_pending ↦ c ]) e

pub completes_going : (n : ℕ) (x : Next) (d : TcpConnection) → completes n x ≡ going d → x ≡ going d
unfolding completes
completes_going zero x d e = cc
completes_going (suc n) x d e = e

pub and_then_going :
    (f : TcpConnection → Next) (x : Next) (d : TcpConnection)
    → and_then f x ≡ going d
    → (m : TcpConnection) × (x ≡ going m) × (f m ≡ going d)
unfolding and_then
and_then_going f (going m) d e = (m, refl, e)
and_then_going f bad_pop d e = cc
and_then_going f not_pending d e = cc

module _ (listens : Bool) where
  busy_is_open :
      (x : List ℕ) (rest : List (List ℕ)) (c : TcpConnection) (o : Outbox)
      → Holds listens c o
      → c.write_queue ≡ x ∷ rest
      → (c.closed ≡ false) × (drop o.finished o.accepted ≡ x ∷ rest)
  busy_is_open x rest c o h q = ground (arith, h.dropped, h.waiting)

  last-Holds :
      (x : List ℕ) (c : TcpConnection) (o : Outbox)
      → Holds listens c o
      → c.write_queue ≡ x ∷ []
      → Holds listens (record c { write_queue = [] }) (record o { finished = suc o.finished })
  unfolding given
  last-Holds x c o h q =
      let (open_now, front) = busy_is_open x [] c o h q in
      let (behind, count) = drop_next o.finished o.accepted x [] front in
      record {
        listening = h.listening;
        same_end = h.same_end;
        in_order = h.in_order ∙ sym (take_end (suc o.finished) o.accepted behind);
        waiting = λ e. sym behind;
        dropped = λ e. refl;
        counted = count;
      }

  next-Holds :
      (x y : List ℕ) (zs : List (List ℕ)) (c : TcpConnection) (o : Outbox)
      → Holds listens c o
      → c.write_queue ≡ x ∷ y ∷ zs
      → Holds listens
          (do_write (record c { write_queue = y ∷ zs }))
          (record o { finished = suc o.finished })
  unfolding given do_write
  next-Holds x y zs c o h q =
      let (open_now, front) = busy_is_open x (y ∷ zs) c o h q in
      let (behind, count) = drop_next o.finished o.accepted x (y ∷ zs) front in
      record {
        listening = ground (arith, h.listening);
        same_end = ground (arith, h.same_end);
        in_order =
            ground (arith, open_now, h.in_order, take_next (suc o.finished) o.accepted y zs behind);
        waiting = λ e. ground (arith, behind);
        dropped = λ e. ground (arith, open_now);
        counted = count;
      }

  pop_front-Holds :
      (queue : List (List ℕ)) (c d : TcpConnection) (o : Outbox)
      → Holds listens c o
      → c.write_queue ≡ queue
      → pop_front queue c ≡ going d
      → Holds listens d (record o { finished = suc o.finished })
  unfolding pop_front
  pop_front-Holds [] c d o h q e = cc
  pop_front-Holds (x ∷ []) c d o h q e =
      subst (λ (t : TcpConnection). Holds listens t (record o { finished = suc o.finished }))
        (going_inj _ d e) (last-Holds x c o h q)
  pop_front-Holds (x ∷ y ∷ zs) c d o h q e =
      subst (λ (t : TcpConnection). Holds listens t (record o { finished = suc o.finished }))
        (going_inj _ d e) (next-Holds x y zs c o h q)

  on_write-Holds :
      (failed : Bool) (c d : TcpConnection) (o : Outbox)
      → Holds listens c o
      → on_write failed c ≡ going d
      → Holds listens d (observe listens (wrote failed) o)
  unfolding on_write observe
  on_write-Holds true c d o h e =
      subst (λ (t : TcpConnection). Holds listens t (shut o)) (going_inj _ d e)
        (shut-Holds listens true c o h)
  on_write-Holds false c d o h e = pop_front-Holds c.write_queue c d o h refl e

  step-Holds :
      (e : Event) (c d : TcpConnection) (o : Outbox)
      → Holds listens c o
      → step e c ≡ going d
      → Holds listens d (observe listens e o)
  unfolding step observe
  step-Holds (call k) c d o h e =
      subst (λ (t : TcpConnection). Holds listens t (accept k o)) (going_inj _ d e)
        (run_call-Holds listens k c o h)
  step-Holds (wrote failed) c d o h e =
      on_write-Holds failed _ d o (noted-Holds listens _ _ _ c o h)
        (completes_going c.pending_writes _ d e)
  step-Holds (read outcome ks) c d o h e =
      subst (λ (t : TcpConnection). Holds listens t (observe listens (read outcome ks) o))
        (going_inj _ d (completes_going c.pending_reads _ d e))
        (on_read-Holds listens outcome ks _ o (noted-Holds listens _ _ _ c o h))

  run-Holds :
      (es : List Event) (c d : TcpConnection) (o : Outbox)
      → Holds listens c o
      → run es c ≡ going d
      → Holds listens d (observe_all listens es o)
  unfolding run observe_all
  run-Holds [] c d o h e = subst (λ (t : TcpConnection). Holds listens t o) (going_inj c d e) h
  run-Holds (x ∷ es) c d o h e =
      let (m, first, rest) = and_then_going (run es) (step x c) d e in
      run-Holds es m d (observe listens x o) (step-Holds x c m o h first) rest

  new_connection-Holds :
      (notifies : Bool) → Holds listens (new_connection notifies listens) empty_outbox
  unfolding new_connection given
  new_connection-Holds notifies = record {
    listening = refl;
    same_end = refl;
    in_order = refl;
    waiting = λ e. refl;
    dropped = λ e. refl;
    counted = omega arith;
  }

-- However calls, reads and writes follow each other from a new connection on, the buffers that the
-- socket has been given to write are those that the outbox gives: the messages accepted by Send
-- before the connection was closed, in order and each once, up to the one behind those written. The
-- connection is closed exactly when the outbox is, and until then the queue holds the messages that
-- are not written yet.
pub run_refines :
    (notifies listens : Bool) (es : List Event) (c : TcpConnection)
    → run es (new_connection notifies listens) ≡ going c
    → (c.writes ≡ given (observe_all listens es empty_outbox))
      × (c.closed ≡ not (observe_all listens es empty_outbox).is_open)
      × (c.closed ≡ false
          → c.write_queue
            ≡ drop
                (observe_all listens es empty_outbox).finished
                (observe_all listens es empty_outbox).accepted)
run_refines notifies listens es c e =
    let h : Holds listens c (observe_all listens es empty_outbox) =
      run-Holds listens es _ c empty_outbox (new_connection-Holds listens notifies) e in
    (h.in_order, h.same_end, h.waiting)
