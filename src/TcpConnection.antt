-- ===== src/TcpConnection.antt =====
-- tcp_connection.hpp (rsp-libs/include/rsplib/server): the strand of a connection, its write queue
-- and its close. A handler returns what it makes happen outside, in order, and the connection. The
-- strand is the list of the tasks that are posted to it; `on_strand` tells whether a call comes from
-- a handler of the strand, where `dispatch` runs its task at once. Locks, logging and the link are
-- left out.
pub mod Closing
pub mod Accounting
pub mod Budget
pub mod Close
pub mod Owed
pub mod Writing
pub mod Order
use rsp.Base.{
  ℕ, ◌+◌, ◌-◌, ◌%◌, ◌^◌, Bool, true, false, Option, none, some, List, [], ◌∷◌, ◌++◌, ◌||◌, ◌&&◌,
  not, ltb, leb, if◌then◌else◌, Bytes, length,
}
use rsp.Wire.Interpreter.{Interpreter, Dispatch, Handled, handle_buffer, init as fresh_interpreter}

pub record PendingWrite : Type 0 where
  pub buffer : Bytes
  pub reserved_bytes : ℕ

pub data Task : Type 0 where
  start_impl : Task
  send_impl : Bytes → ℕ → Task
  active_stop_impl : Bool → Task

pub record Connection : Type 0 where
  pub max_pending_send_bytes : ℕ
  pub pending_send_bytes : ℕ
  pub send_overflowed : Bool
  pub graceful_close_requested : Bool
  pub sent_shutdown : Bool
  pub closed : Bool
  pub is_open : Bool
  pub write_queue : List PendingWrite
  pub on_closed : Bool
  pub interpreter : Interpreter
  pub strand : List Task

-- What a handler makes happen: async_read_some, async_write of a buffer, socket_.shutdown of the
-- sending side, socket_.close, the call of `on_closed_` and the dispatched messages.
pub data Effect : Type 0 where
  reads : Effect
  writes : Bytes → Effect
  shuts_send : Effect
  closes : Effect
  notifies : Effect
  dispatches : List Dispatch → Effect

abbrev pub Step : Type 0
Step = List Effect × Connection

-- Two handlers, one after the other.
abbrev pub after : List Effect → Step → Step
after es (fs, c) = (es ++ fs, c)

-- `handler` is whether there is a close handler: the default of `create` is none. The socket is made
-- unopened.
unfoldable pub create : ℕ → (handler : Bool) → Connection
create max handler = record {
  max_pending_send_bytes = max;
  pending_send_bytes = 0;
  send_overflowed = false;
  graceful_close_requested = false;
  sent_shutdown = false;
  closed = false;
  is_open = false;
  write_queue = [];
  on_closed = handler;
  interpreter = fresh_interpreter;
  strand = [];
}

-- What an accept or a connect does to `socket()`, if there is one.
unfoldable pub open_socket : Bool → Connection → Connection
open_socket opened c = record c { is_open = opened }

unfoldable pub post : Task → Connection → Connection
post t c = record c { strand = c.strand ++ t ∷ [] }

-- The loop on compare_exchange_weak ends once nothing else changes the counter.
unfoldable pub reserve_send_bytes : ℕ → Connection → Bool × Connection
reserve_send_bytes size c =
    if c.send_overflowed
    then (false, c)
    else (if leb size c.max_pending_send_bytes
          && leb c.pending_send_bytes (c.max_pending_send_bytes - size)
        then (true, record c { pending_send_bytes = c.pending_send_bytes + size })
        else (false, c))

-- fetch_sub on a 64-bit counter.
unfoldable pub sub64 : ℕ → ℕ → ℕ
sub64 a b = (a + 2 ^ 64 - b) % 2 ^ 64

unfoldable pub release_send_bytes : ℕ → Connection → Connection
release_send_bytes size c = record c { pending_send_bytes = sub64 c.pending_send_bytes size }

-- The loop of `finish_close`.
unfoldable pub release_all : List PendingWrite → Connection → Connection
unfolding release_send_bytes
release_all [] c = c
release_all (w ∷ ws) c = release_all ws (release_send_bytes w.reserved_bytes c)

unfoldable pub finish_close : Connection → Step
finish_close c =
    if c.closed
    then ([], c)
    else (let released = release_all c.write_queue c in
        (
          (if c.is_open then closes ∷ [] else []) ++ (if c.on_closed then notifies ∷ [] else []),
          record released { closed = true; is_open = false; write_queue = []; on_closed = false },
        ))

-- `failed` is the error of socket_.shutdown.
unfoldable pub shutdown_send_impl : Bool → Connection → Step
shutdown_send_impl failed c =
    let sent = record c { sent_shutdown = true } in
    if failed then after (shuts_send ∷ []) (finish_close sent) else (shuts_send ∷ [], sent)

unfoldable pub run_active_stop : Bool → Bool → Connection → Step
run_active_stop failed force c =
    if c.closed || (not force && c.graceful_close_requested)
    then ([], c)
    else (if not c.is_open || force
        then finish_close c
        else (let asked = record c { graceful_close_requested = true } in
            elim c.write_queue [ w ∷ ws ↦ ([], asked) | [] ↦ shutdown_send_impl failed asked ]))

-- write_queue_.front() is written.
unfoldable pub write_next : List PendingWrite → Connection → Step
write_next [] c = ([], c)
write_next (w ∷ ws) c = (writes w.buffer ∷ [], c)

unfoldable pub run_send : Bytes → ℕ → Connection → Step
unfolding write_next
run_send buffer reserved c =
    if c.closed || (c.graceful_close_requested || (c.send_overflowed || not c.is_open))
    then ([], release_send_bytes reserved c)
    else (let write : PendingWrite = record { buffer = buffer; reserved_bytes = reserved } in
        let queued = record c { write_queue = c.write_queue ++ write ∷ [] } in
        elim c.write_queue [ w ∷ ws ↦ ([], queued) | [] ↦ write_next (write ∷ []) queued ])

-- The queue behind its front, once the front is written.
unfoldable pub write_rest : Bool → List PendingWrite → Connection → Step
unfolding write_next
write_rest failed [] c = if c.graceful_close_requested then shutdown_send_impl failed c else ([], c)
write_rest failed (w ∷ ws) c = write_next (w ∷ ws) c

-- `error` is the error of async_write: broken_pipe or any other.
unfoldable pub handle_write : Bool → Bool → Connection → Step
handle_write failed error c =
    if c.closed
    then ([], c)
    else (if error then finish_close c else elim c.write_queue [
      | [] ↦ ([], c)
      | w ∷ ws ↦
          write_rest failed ws (record (release_send_bytes w.reserved_bytes c) { write_queue = ws })
    ])

unfoldable pub run_start : Connection → Step
run_start c = if c.is_open then (reads ∷ [], c) else ([], c)

pub data ReadResult : Type 0 where
  eof operation_aborted read_error : ReadResult
  bytes_read : Bytes → ℕ → ReadResult

-- The interpreter's loop has fuel for every buffer, so its `none` is never met.
unfoldable pub handle_frame : Bool → Option Handled → Connection → Step
handle_frame failed none c = ([], c)
handle_frame failed (some h) c =
    let c' = record c { interpreter = h.state } in
    after (dispatches h.dispatched ∷ [])
      (if h.accepted then ([], post start_impl c') else run_active_stop failed true c')

unfoldable pub handle_read : Bool → ReadResult → Connection → Step
unfolding handle_frame
handle_read failed eof c = finish_close c
handle_read failed operation_aborted c = if not c.closed then finish_close c else ([], c)
handle_read failed read_error c = finish_close c
handle_read failed (bytes_read arr n) c = handle_frame failed (handle_buffer c.interpreter arr n) c

unfoldable pub start : Connection → Connection
start c = post start_impl c

-- stop(true) dispatches, stop(false) posts.
unfoldable pub stop : Bool → Bool → Bool → Connection → Step
stop failed on_strand force c =
    if force && on_strand
    then run_active_stop failed true c
    else ([], post (active_stop_impl force) c)

unfoldable pub send : Bool → Bool → Bytes → Connection → Step
send failed on_strand msg c =
    let (reserved, c') = reserve_send_bytes (length msg) c in
    if reserved
    then ([], post (send_impl msg (length msg)) c')
    else (if c.send_overflowed
        then ([], c')
        else stop failed on_strand true (record c' { send_overflowed = true }))

unfoldable pub run_task : Bool → Task → Connection → Step
run_task failed start_impl c = run_start c
run_task failed (send_impl buffer reserved) c = run_send buffer reserved c
run_task failed (active_stop_impl force) c = run_active_stop failed force c

-- The first task of the strand runs.
unfoldable pub run_strand : Bool → List Task → Connection → Step
run_strand failed [] c = ([], c)
run_strand failed (t ∷ ts) c = run_task failed t (record c { strand = ts })
