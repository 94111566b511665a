-- ===== src/TcpConnection/Budget.antt =====
-- The byte counter over any sequence of calls and completions.
use rsp.Base.{
  ℕ, ◌+◌, ◌≤◌, ◌<◌, ◌^◌, ◌≡◌, refl, Bool, false, List, [], ◌∷◌, ◌++◌, Bytes, arith, ◌&&◌, not,
  is_empty,
}
use rsp.TcpConnection.{
  Connection, Step, create, open_socket, start, start_impl, stop, send, run_strand, handle_write,
  ReadResult, handle_read,
}
use rsp.TcpConnection.Closing.{IsValid, reserved_queue, reserved_tasks}
use rsp.TcpConnection.Accounting.{
  post-Accounted, stop-Accounted, send-Accounted, run_strand-IsValid, handle_write-Accounted,
  handle_read-Accounted,
}

-- A call from outside or the completion of an asynchronous operation; `failed` is whether a
-- shutdown of the socket's sending side fails.
pub data Event : Type 0 where
  starts : Event
  stops : (failed on_strand force : Bool) → Event
  sends : (failed on_strand : Bool) → Bytes → Event
  runs : (failed : Bool) → Event
  wrote : (failed error : Bool) → Event
  read : (failed : Bool) → ReadResult → Event

unfoldable pub step : Connection → Event → Step
unfolding start
step c starts = ([], start c)
step c (stops failed on_strand force) = stop failed on_strand force c
step c (sends failed on_strand msg) = send failed on_strand msg c
step c (runs failed) = run_strand failed c.strand c
step c (wrote failed error) = handle_write failed error c
step c (read failed result) = handle_read failed result c

unfoldable pub run : Connection → List Event → Step
unfolding step
run c [] = ([], c)
run c (e ∷ es) = let (now, c') = step c e in let (later, c'') = run c' es in (now ++ later, c'')

step-IsValid : (c : Connection) (e : Event) → IsValid c → IsValid (step c e).1
unfolding step
step-IsValid c starts v = post-Accounted false 0 start_impl 0 c (omega arith) v
step-IsValid c (stops failed on_strand force) v = stop-Accounted failed 0 on_strand force c v
step-IsValid c (sends failed on_strand msg) v = send-Accounted failed 0 on_strand msg c v
step-IsValid c (runs failed) v = run_strand-IsValid failed c.strand c refl v
step-IsValid c (wrote failed error) v = handle_write-Accounted failed 0 error c v
step-IsValid c (read failed result) v = handle_read-Accounted failed 0 result c v

run-IsValid : (c : Connection) (es : List Event) → IsValid c → IsValid (run c es).1
unfolding run
run-IsValid c [] v = v
run-IsValid c (e ∷ es) v = run-IsValid (step c e).1 es (step-IsValid c e v)

create-IsValid :
    (max : ℕ) (opened handler : Bool)
    → max < 2 ^ 64
    → IsValid (open_socket opened (create max handler))
unfolding create open_socket
create-IsValid max opened handler h = record {
  width = h;
  limit = omega arith;
  sum = omega arith;
  drained = λ h. cc;
}

closed_idle : (c : Connection) → IsValid c → (c.closed && not (is_empty c.write_queue)) ≡ false
closed_idle c v = ground (arith, v.drained)

-- After any calls and completions on a new connection, with its socket opened or not, the counter of pending bytes is exactly what
-- the queued writes and the posted sends have reserved: it never wraps around and never passes the
-- connection's limit, and a closed connection queues no write.
pub run-create-IsValid :
    (max : ℕ) (opened handler : Bool) (es : List Event)
    → max < 2 ^ 64
    → let c = (run (open_socket opened (create max handler)) es).1 in
      (c.pending_send_bytes ≡ reserved_queue c.write_queue + reserved_tasks c.strand)
      × (c.pending_send_bytes ≤ c.max_pending_send_bytes)
      × ((c.closed && not (is_empty c.write_queue)) ≡ false)
run-create-IsValid max opened handler es h =
    let first = open_socket opened (create max handler) in
    let v = run-IsValid first es (create-IsValid max opened handler h) in
    (omega (arith, v.sum), v.limit, closed_idle (run first es).1 v)
