-- ===== src/TcpConnection/Close.antt =====
-- The socket is closed once, and `on_closed_` is called once.
use rsp.Base.{
  bit, count, count-append, ℕ, ◌+◌, ◌≡◌, refl, Bool, true, false, Option, none, some, List, [], ◌∷◌,
  ◌&&◌, not, Bytes, arith,
}
use rsp.TcpConnection.{
  PendingWrite, Task, start_impl, send_impl, active_stop_impl, Connection, Effect, Step, create,
  post, reserve_send_bytes, release_send_bytes, open_socket, finish_close, shutdown_send_impl,
  run_active_stop, run_send, write_rest, handle_write, run_start, ReadResult, eof,
  operation_aborted, read_error, bytes_read, handle_frame, handle_read, start, stop, send, run_task,
  run_strand,
}
use rsp.TcpConnection.Budget.{Event, starts, stops, sends, runs, wrote, read, step, run}
use rsp.Wire.Interpreter.{Handled, handle_buffer}

abbrev pub is_notify : Effect → Bool
is_notify Effect.notifies = true
is_notify e = false

abbrev pub is_close : Effect → Bool
is_close Effect.closes = true
is_close e = false

module _ (opened handler : Bool) where
  -- The socket is open, if it was opened, and `on_closed_` is set, if it was given, exactly until the
  -- connection is closed.
  abbrev Coherent : Connection → Type 0
  Coherent c = (c.is_open ≡ (opened && not c.closed)) × (c.on_closed ≡ (handler && not c.closed))

  abbrev Told : Connection → Step → Type 0
  Told c (es, c') =
      (count is_notify es + bit (handler && c.closed) ≡ bit (handler && c'.closed))
      × (count is_close es + bit (opened && c.closed) ≡ bit (opened && c'.closed))
      × Coherent c'

  finish_close-Told : (c : Connection) → Coherent c → Told c (finish_close c)
  unfolding finish_close
  finish_close-Told c h = ground arith

  shutdown_send_impl-Told :
      (failed : Bool) (c : Connection) → Coherent c → Told c (shutdown_send_impl failed c)
  unfolding shutdown_send_impl
  shutdown_send_impl-Told failed c h =
      ground (arith, finish_close-Told (record c { sent_shutdown = true }) h)

  run_active_stop-Told :
      (failed force : Bool) (c : Connection) → Coherent c → Told c (run_active_stop failed force c)
  unfolding run_active_stop
  run_active_stop-Told failed force c h = ground (
    arith,
    finish_close-Told c h,
    shutdown_send_impl-Told failed (record c { graceful_close_requested = true }) h,
  )

  run_send-Told : (msg : Bytes) (n : ℕ) (c : Connection) → Coherent c → Told c (run_send msg n c)
  unfolding run_send release_send_bytes
  run_send-Told msg n c h = ground arith

  write_rest-Told :
      (failed : Bool) (ws : List PendingWrite) (c : Connection)
      → Coherent c
      → Told c (write_rest failed ws c)
  unfolding write_rest
  write_rest-Told failed [] c h = ground (arith, shutdown_send_impl-Told failed c h)
  write_rest-Told failed (w ∷ ws) c h = (omega arith, omega arith, h)

  handle_write-Told :
      (failed error : Bool) (q : List PendingWrite) (c : Connection)
      → q ≡ c.write_queue
      → Coherent c
      → Told c (handle_write failed error c)
  unfolding handle_write release_send_bytes
  handle_write-Told failed error [] c e h = ground (arith, finish_close-Told c h)
  handle_write-Told failed error (w ∷ ws) c e h =
      let popped = record (release_send_bytes w.reserved_bytes c) { write_queue = ws } in
      ground (arith, finish_close-Told c h, write_rest-Told failed ws popped h)

  stop-Told :
      (failed on_strand force : Bool) (c : Connection)
      → Coherent c
      → Told c (stop failed on_strand force c)
  unfolding stop post
  stop-Told failed on_strand force c h = ground (arith, run_active_stop-Told failed true c h)

  send-Told :
      (failed on_strand : Bool) (msg : Bytes) (c : Connection)
      → Coherent c
      → Told c (send failed on_strand msg c)
  unfolding send post reserve_send_bytes
  send-Told failed on_strand msg c h =
      ground (arith, stop-Told failed on_strand true (record c { send_overflowed = true }) h)

  run_task-Told :
      (failed : Bool) (t : Task) (c : Connection) → Coherent c → Told c (run_task failed t c)
  unfolding run_task run_start
  run_task-Told failed start_impl c h = ground arith
  run_task-Told failed (send_impl msg n) c h = run_send-Told msg n c h
  run_task-Told failed (active_stop_impl force) c h = run_active_stop-Told failed force c h

  handle_frame-Told :
      (failed : Bool) (h : Option Handled) (c : Connection)
      → Coherent c
      → Told c (handle_frame failed h c)
  unfolding handle_frame post
  handle_frame-Told failed none c h = (omega arith, omega arith, h)
  handle_frame-Told failed (some f) c h =
      ground (arith, run_active_stop-Told failed true (record c { interpreter = f.state }) h)

  handle_read-Told :
      (failed : Bool) (r : ReadResult) (c : Connection)
      → Coherent c
      → Told c (handle_read failed r c)
  unfolding handle_read
  handle_read-Told failed eof c h = finish_close-Told c h
  handle_read-Told failed operation_aborted c h = ground (arith, finish_close-Told c h)
  handle_read-Told failed read_error c h = finish_close-Told c h
  handle_read-Told failed (bytes_read arr n) c h =
      handle_frame-Told failed (handle_buffer c.interpreter arr n) c h

  run_strand-Told :
      (failed : Bool) (ts : List Task) (c : Connection)
      → Coherent c
      → Told c (run_strand failed ts c)
  unfolding run_strand
  run_strand-Told failed [] c h = (omega arith, omega arith, h)
  run_strand-Told failed (t ∷ ts) c h = run_task-Told failed t (record c { strand = ts }) h

  step-Told : (c : Connection) (e : Event) → Coherent c → Told c (step c e)
  unfolding step start post
  step-Told c starts h = (omega arith, omega arith, h)
  step-Told c (stops failed on_strand force) h = stop-Told failed on_strand force c h
  step-Told c (sends failed on_strand msg) h = send-Told failed on_strand msg c h
  step-Told c (runs failed) h = run_strand-Told failed c.strand c h
  step-Told c (wrote failed error) h = handle_write-Told failed error c.write_queue c refl h
  step-Told c (read failed result) h = handle_read-Told failed result c h

  run-Told : (c : Connection) (es : List Event) → Coherent c → Told c (run c es)
  unfolding run
  run-Told c [] h = (omega arith, omega arith, h)
  run-Told c (e ∷ es) h =
      let now = step-Told c e h in
      let later = run-Told (step c e).1 es now.2 in
      let split = λ (p : Effect → Bool). count-append p (step c e).0 (run (step c e).1 es).0 in
      (
        omega (arith, now.0, later.0, split is_notify),
        omega (arith, now.1, later.1, split is_close),
        later.2,
      )

-- After any calls and completions on a new connection, whose socket was opened or was not, and which
-- has a close handler or has none: if it is closed, then `on_closed_` was called once if there is one,
-- and the socket was closed once if it was open; and if it is not closed, neither happened.
pub run-create-closes :
    (max : ℕ) (opened handler : Bool) (es : List Event)
    → let (effects, c) = run (open_socket opened (create max handler)) es in
      (count is_notify effects ≡ bit (handler && c.closed))
      × (count is_close effects ≡ bit (opened && c.closed))
unfolding create open_socket
run-create-closes max opened handler es =
    let first : Coherent opened handler (open_socket opened (create max handler)) = ground arith in
    let t = run-Told opened handler (open_socket opened (create max handler)) es first in
    (ground (arith, t.0), ground (arith, t.1))
