-- ===== src/TcpConnection/Accounting.antt =====
-- Each handler keeps the byte counter equal to the sum of what is reserved.
use rsp.Base.{
  ℕ, ◌+◌, ◌≡◌, refl, sym, subst, Bool, true, false, Option, none, some, List, [], ◌∷◌, ◌++◌, ◌||◌,
  ◌&&◌, not, if◌then◌else◌, Bytes, length, arith, ap,
}
use rsp.TcpConnection.{
  PendingWrite, Task, start_impl, send_impl, active_stop_impl, Connection, dispatches, Step, post,
  reserve_send_bytes, release_send_bytes, run_active_stop, write_next, run_send, write_rest,
  handle_write, run_start, ReadResult, eof, operation_aborted, read_error, bytes_read, handle_frame,
  handle_read, stop, send, run_task, run_strand,
}
use rsp.Wire.Interpreter.{Handled, handle_buffer}
use rsp.TcpConnection.Closing.{
  Accounted, IsValid, active_stop-Accounted, after-Accounted, finish_close-Accounted, if-Accounted,
  release-Accounted, reserved_queue, reserved_queue-append, reserved_tasks, reserved_tasks-append,
  shutdown_send-Accounted, sub64_lem,
}

module _ (failed : Bool) (owed : ℕ) where
  write_next-Accounted :
      (ws : List PendingWrite) (c : Connection)
      → Accounted owed c
      → Accounted owed (write_next ws c).1
  unfolding write_next
  write_next-Accounted [] c v = v
  write_next-Accounted (w ∷ ws) c v = v

  enqueued-Accounted :
      (buffer : Bytes) (n : ℕ) (c : Connection)
      → c.closed ≡ false
      → Accounted (n + owed) c
      → Accounted owed (record c {
        write_queue = c.write_queue ++ (record { buffer = buffer; reserved_bytes = n }) ∷ [];
      })
  enqueued-Accounted buffer n c open' v = record {
    width = v.width;
    limit = v.limit;
    sum = omega (
      arith,
      reserved_queue-append c.write_queue ((record { buffer = buffer; reserved_bytes = n }) ∷ []),
    );
    drained = λ h. cc;
  }

  elim_queue-Accounted :
      (q : List PendingWrite) (x y : Step)
      → Accounted owed x.1
      → Accounted owed y.1
      → Accounted owed (elim q as (λ q. Step) [ w ∷ ws ↦ x | [] ↦ y ]).1
  elim_queue-Accounted [] x y h k = k
  elim_queue-Accounted (w ∷ ws) x y h k = h

  run_send-Accounted :
      (buffer : Bytes) (n : ℕ) (c : Connection)
      → Accounted (n + owed) c
      → Accounted owed (run_send buffer n c).1
  unfolding run_send
  run_send-Accounted buffer n c v =
      if-Accounted owed
        (c.closed || (c.graceful_close_requested || (c.send_overflowed || not c.is_open))) _ _
        (λ h. release-Accounted n owed c v)
        λ h.
          let open' : c.closed ≡ false = ground arith in
          let w = enqueued-Accounted buffer n c open' v in
          let write : PendingWrite = record { buffer = buffer; reserved_bytes = n } in
          let queued : Connection = record c { write_queue = c.write_queue ++ write ∷ [] } in
          elim_queue-Accounted c.write_queue ([], queued) (write_next (write ∷ []) queued) w
            (write_next-Accounted (write ∷ []) queued w)

  write_rest-Accounted :
      (ws : List PendingWrite) (c : Connection)
      → Accounted owed c
      → Accounted owed (write_rest failed ws c).1
  unfolding write_rest
  write_rest-Accounted [] c v =
      if-Accounted owed c.graceful_close_requested _ _
        (λ h. shutdown_send-Accounted failed owed c v) (λ h. v)
  write_rest-Accounted (w ∷ ws) c v = v

  written-Accounted :
      (q : List PendingWrite) (c : Connection)
      → c.write_queue ≡ q
      → c.closed ≡ false
      → Accounted owed c
      → Accounted owed
          (elim q as (λ q. Step) [
            | [] ↦ ([], c)
            | w ∷ ws ↦
                write_rest failed ws
                  (record (release_send_bytes w.reserved_bytes c) { write_queue = ws })
          ]).1
  written-Accounted [] c e open' v = v
  written-Accounted (w ∷ ws) c e open' v =
      let sum : reserved_queue c.write_queue ≡ w.reserved_bytes + reserved_queue ws =
        ap reserved_queue e in
      let less = sub64_lem c.pending_send_bytes w.reserved_bytes (omega arith) (omega arith) in
      write_rest-Accounted ws _ (
        unfold release_send_bytes in
        record {
          width = v.width;
          limit = omega (arith, less);
          sum = omega (arith, less);
          drained = λ h. cc;
        })

  pub handle_write-Accounted :
      (error : Bool) (c : Connection)
      → Accounted owed c
      → Accounted owed (handle_write failed error c).1
  unfolding handle_write
  handle_write-Accounted error c v =
      if-Accounted owed c.closed _ _ (λ h. v)
        λ open'.
          if-Accounted owed error _ _ (λ h. finish_close-Accounted owed c v)
            λ h. written-Accounted c.write_queue c refl open' v

  pub post-Accounted :
      (t : Task) (paid : ℕ) (c : Connection)
      → reserved_tasks (t ∷ []) + owed ≡ paid
      → Accounted paid c
      → Accounted owed (post t c)
  unfolding post
  post-Accounted t paid c e v = record {
    width = v.width;
    limit = v.limit;
    sum = omega (arith, reserved_tasks-append c.strand (t ∷ []));
    drained = v.drained;
  }

  pub stop-Accounted :
      (on_strand force : Bool) (c : Connection)
      → Accounted owed c
      → Accounted owed (stop failed on_strand force c).1
  unfolding stop
  stop-Accounted on_strand force c v =
      if-Accounted owed (force && on_strand) _ _ (λ h. active_stop-Accounted failed owed true c v)
        (λ h. post-Accounted (active_stop_impl force) owed c (omega arith) v)

  handle_frame-Accounted :
      (r : Option Handled) (c : Connection)
      → Accounted owed c
      → Accounted owed (handle_frame failed r c).1
  unfolding handle_frame
  handle_frame-Accounted none c v = v
  handle_frame-Accounted (some h) c v =
      let c' : Connection = record c { interpreter = h.state } in
      let w : Accounted owed c' = record {
        width = v.width;
        limit = v.limit;
        sum = v.sum;
        drained = v.drained;
      } in
      let next : Step =
        if h.accepted then ([], post start_impl c') else run_active_stop failed true c' in
      after-Accounted owed (dispatches h.dispatched ∷ []) next (
        if-Accounted owed h.accepted _ _ (λ e. post-Accounted start_impl owed c' (omega arith) w)
          (λ e. active_stop-Accounted failed owed true c' w))

  pub handle_read-Accounted :
      (r : ReadResult) (c : Connection)
      → Accounted owed c
      → Accounted owed (handle_read failed r c).1
  unfolding handle_read
  handle_read-Accounted eof c v = finish_close-Accounted owed c v
  handle_read-Accounted operation_aborted c v =
      if-Accounted owed (not c.closed) _ _ (λ h. finish_close-Accounted owed c v) (λ h. v)
  handle_read-Accounted read_error c v = finish_close-Accounted owed c v
  handle_read-Accounted (bytes_read arr n) c v =
      handle_frame-Accounted (handle_buffer c.interpreter arr n) c v

  reserve-Accounted :
      (n : ℕ) (c : Connection)
      → Accounted owed c
      → (reserve_send_bytes n c).0 ≡ true
      → Accounted (n + owed) (reserve_send_bytes n c).1
  unfolding reserve_send_bytes
  reserve-Accounted n c v h = record {
    width = ground (arith, v.width);
    limit = ground (arith, v.limit);
    sum = ground (arith, v.sum);
    drained = ground (arith, v.drained);
  }

  pub reserve_refused :
      (n : ℕ) (c : Connection) → (reserve_send_bytes n c).0 ≡ false → (reserve_send_bytes n c).1 ≡ c
  unfolding reserve_send_bytes
  reserve_refused n c h = ground arith

  pub send-Accounted :
      (on_strand : Bool) (msg : Bytes) (c : Connection)
      → Accounted owed c
      → Accounted owed (send failed on_strand msg c).1
  unfolding send
  send-Accounted on_strand msg c v =
      let n = length msg in
      let r = (reserve_send_bytes n c).1 in
      if-Accounted owed (reserve_send_bytes n c).0 _ _
        (λ won.
          post-Accounted (send_impl msg n) (n + owed) r (omega arith) (reserve-Accounted n c v won))
        (λ lost.
          let same = sym (reserve_refused n c lost) in
          if-Accounted owed c.send_overflowed _ _ (λ h. subst (Accounted owed) same v)
            (λ h.
              stop-Accounted on_strand true (record r { send_overflowed = true })
                (overflow (subst (Accounted owed) same v))))
    where
      overflow :
          {c : Connection} → Accounted owed c → Accounted owed (record c { send_overflowed = true })
      overflow v = record { width = v.width; limit = v.limit; sum = v.sum; drained = v.drained }

  run_task-Accounted :
      (t : Task) (c : Connection)
      → Accounted (reserved_tasks (t ∷ []) + owed) c
      → Accounted owed (run_task failed t c).1
  unfolding run_task run_start
  run_task-Accounted start_impl c v =
      if-Accounted owed c.is_open _ _ (λ h. settle v) (λ h. settle v)
    where
      settle : Accounted (0 + owed) c → Accounted owed c
      settle v = record { width = v.width; limit = v.limit; sum = omega arith; drained = v.drained }
  run_task-Accounted (send_impl buffer n) c v =
      run_send-Accounted buffer n c
        (record { width = v.width; limit = v.limit; sum = omega arith; drained = v.drained })
  run_task-Accounted (active_stop_impl force) c v =
      active_stop-Accounted failed owed force c
        (record { width = v.width; limit = v.limit; sum = omega arith; drained = v.drained })

pub run_strand-IsValid :
    (failed : Bool) (ts : List Task) (c : Connection)
    → c.strand ≡ ts
    → IsValid c
    → IsValid (run_strand failed ts c).1
unfolding run_strand
run_strand-IsValid failed [] c e v = v
run_strand-IsValid failed (t ∷ ts) c e v =
    run_task-Accounted failed 0 t (record c { strand = ts })
      (record {
        width = v.width;
        limit = v.limit;
        sum = omega (arith, ap reserved_tasks e, reserved_tasks-append (t ∷ []) ts);
        drained = v.drained;
      })
