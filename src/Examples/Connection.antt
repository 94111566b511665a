-- ===== src/Examples/Connection.antt =====
-- A connection that may have ten bytes pending.
use rsp.Base.{
  ◌+◌, ◌≤◌, ◌≡◌, refl, true, false, List, [], ◌∷◌, not, ◌&&◌, arith, is_empty, bit, count,
}
use rsp.TcpConnection.{
  Connection, ReadResult, run_strand, stop, post, run_active_stop, handle_read, finish_close, send,
  reserve_send_bytes, open_socket, create, run_task, run_start, release_all, run_send,
}
use rsp.TcpConnection.Closing.{reserved_queue, reserved_tasks}
use rsp.TcpConnection.Budget.{
  Event, starts, sends, runs, wrote, stops, read, run, run-create-IsValid,
}
use rsp.TcpConnection.Close.{is_notify, is_close, run-create-closes}

abbrev events : List Event
events =
    starts
    ∷ sends false false (1 ∷ 2 ∷ 3 ∷ [])
    ∷ sends false false (4 ∷ [])
    ∷ runs false
    ∷ runs false
    ∷ stops false false false
    ∷ runs false
    ∷ wrote false false
    ∷ []

abbrev new_connection : Connection
new_connection = open_socket true (create 10 true)

run-create-IsValid_example :
    let c = (run new_connection events).1 in
    (c.pending_send_bytes ≡ reserved_queue c.write_queue + reserved_tasks c.strand)
    × (c.pending_send_bytes ≤ c.max_pending_send_bytes)
    × ((c.closed && not (is_empty c.write_queue)) ≡ false)
run-create-IsValid_example = run-create-IsValid 10 true true events (omega arith)

-- The peer ends the connection, and then there is a forced stop, twice.
abbrev closing : List Event
closing =
    starts
    ∷ runs false
    ∷ sends false false (1 ∷ [])
    ∷ read false ReadResult.eof
    ∷ stops false true true
    ∷ stops false false true
    ∷ runs false
    ∷ runs false
    ∷ []

run-create-closes_example :
    let (effects, c) = run new_connection closing in
    (count is_notify effects ≡ bit (true && c.closed))
    × (count is_close effects ≡ bit (true && c.closed))
run-create-closes_example = run-create-closes 10 true true closing

is_closed : (run new_connection closing).1.closed ≡ true
unfolding run run_strand stop post run_active_stop handle_read finish_close send reserve_send_bytes
    open_socket create run_task run_start release_all run_send
is_closed = refl
