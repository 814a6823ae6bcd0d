-- ===== src/TcpConnection.antt =====
-- network/session/TcpConnection: the reads and the write queue of a socket. The strand orders the
-- handlers, each of which is one step. `writes` lists the buffers given to async_write and `received`
-- those given to the message callback, in order; `pending_…` counts the operations of the socket
-- that have not completed. Closing the socket lets a pending operation complete in either way.
pub mod Outbox
pub mod Calls
pub mod Refine
pub mod Flight
mod Tests
use own_game_server.Prelude.{
  ℕ, zero, suc, ◌+◌, ◌-◌, Bool, true, false, not, ◌&&◌, ◌||◌, Option, none, some, List, [], ◌∷◌,
  ◌++◌, if◌then◌else◌,
}

pub record TcpConnection : Type 0 where
  pub started : Bool
  pub closed : Bool
  pub write_queue : List (List ℕ)
  pub has_close_callback : Bool
  pub has_message_callback : Bool
  pub pending_reads : ℕ
  pub pending_writes : ℕ
  pub writes : List (List ℕ)
  pub received : List (List ℕ)
  pub close_calls : ℕ

-- TcpConnection(socket, session_id), after SetCloseCallback and SetMessageCallback.
unfoldable pub new_connection : Bool → Bool → TcpConnection
new_connection has_close_callback has_message_callback = record {
  started = false;
  closed = false;
  write_queue = [];
  has_close_callback = has_close_callback;
  has_message_callback = has_message_callback;
  pending_reads = 0;
  pending_writes = 0;
  writes = [];
  received = [];
  close_calls = 0;
}

-- DoRead
unfoldable pub do_read : TcpConnection → TcpConnection
do_read c = if c.closed then c else record c { pending_reads = suc c.pending_reads }

-- DoWrite
unfoldable pub do_write : TcpConnection → TcpConnection
do_write c = if c.closed then c else elim c.write_queue [
  | [] ↦ c
  | bytes ∷ rest ↦ record c {
    pending_writes = suc c.pending_writes;
    writes = c.writes ++ bytes ∷ [];
  }
]

-- DoClose. What the close callback calls on the connection finds it closed.
unfoldable pub do_close : Bool → TcpConnection → TcpConnection
do_close notify c =
    let calls : Bool = notify && c.has_close_callback in
    if c.closed then c else record c {
      closed = true;
      write_queue = [];
      has_close_callback = if calls then false else c.has_close_callback;
      close_calls = if calls then suc c.close_calls else c.close_calls;
    }

abbrev pub is_empty {ℓ} : {A : Type ℓ} → List A → Bool
is_empty [] = true
is_empty (x ∷ xs) = false

-- Start
unfoldable pub start : TcpConnection → TcpConnection
unfolding do_read
start c = if c.started || c.closed then c else do_read (record c { started = true })

-- Send
unfoldable pub send : List ℕ → TcpConnection → TcpConnection
unfolding do_write
send bytes c =
    let pushed : TcpConnection = record c { write_queue = c.write_queue ++ bytes ∷ [] } in
    if c.closed then c else if is_empty c.write_queue then do_write pushed else pushed

-- Close
unfoldable pub close : TcpConnection → TcpConnection
unfolding do_close
close c = do_close true c

-- The calls that the connection's owner makes.
pub data Call : Type 0 where
  start_it close_it : Call
  send_it : List ℕ → Call

unfoldable pub run_call : Call → TcpConnection → TcpConnection
unfolding start send close
run_call start_it c = start c
run_call close_it c = close c
run_call (send_it bytes) c = send bytes c

unfoldable pub run_calls : List Call → TcpConnection → TcpConnection
unfolding run_call
run_calls [] c = c
run_calls (k ∷ ks) c = run_calls ks (run_call k c)

-- The handler of a read: an error, or the bytes that have been read. `calls` are those that the
-- message callback makes on the connection; the strand runs them at once.
unfoldable pub on_read : Option (List ℕ) → List Call → TcpConnection → TcpConnection
unfolding do_close do_read run_calls
on_read none calls c = do_close true c
on_read (some bytes) calls c = do_read (
    if c.has_message_callback
    then run_calls calls (record c { received = c.received ++ bytes ∷ [] })
    else c)

-- A step's outcome. `bad_pop`: the first element of an empty queue is removed. `not_pending`: no
-- such operation of the socket is under way.
pub data Next : Type 0 where
  going : TcpConnection → Next
  bad_pop not_pending : Next

-- The end of a write: its buffer leaves the queue, and the next one is written.
unfoldable pub pop_front : List (List ℕ) → TcpConnection → Next
unfolding do_write
pop_front [] c = bad_pop
pop_front (bytes ∷ rest) c =
    let popped : TcpConnection = record c { write_queue = rest } in
    going (if not (is_empty rest) then do_write popped else popped)

-- The handler of a write, with whether it has failed.
unfoldable pub on_write : Bool → TcpConnection → Next
unfolding do_close pop_front
on_write true c = going (do_close true c)
on_write false c = pop_front c.write_queue c

pub data Event : Type 0 where
  call : Call → Event
  wrote : Bool → Event
  read : Option (List ℕ) → List Call → Event

-- The socket calls the handler of an operation that is under way, once.
unfoldable pub completes : ℕ → Next → Next
completes zero n = not_pending
completes (suc others) n = n

unfoldable pub step : Event → TcpConnection → Next
unfolding run_call on_write on_read completes
step (call k) c = going (run_call k c)
step (wrote failed) c =
    completes c.pending_writes
      (on_write failed (record c { pending_writes = c.pending_writes - 1 }))
step (read outcome calls) c =
    completes c.pending_reads
      (going (on_read outcome calls (record c { pending_reads = c.pending_reads - 1 })))

unfoldable pub and_then : (TcpConnection → Next) → Next → Next
and_then f (going c) = f c
and_then f bad_pop = bad_pop
and_then f not_pending = not_pending

unfoldable pub run : List Event → TcpConnection → Next
unfolding step and_then
run [] c = going c
run (e ∷ es) c = and_then (λ d. run es d) (step e c)
