-- ===== src/TcpConnection/Owed.antt =====
-- What a connection still owes of what was sent, and the handlers that begin no write.
use rsp.Base.{
  ◌≡◌, refl, sym, ap, ◌∙◌, Bool, true, false, Option, none, some, List, [], ◌∷◌, ◌++◌, ◌||◌, ◌&&◌,
  not, if◌then◌else◌, Bytes, arith, append-nil, append_assoc, subst,
}
use rsp.TcpConnection.{
  PendingWrite, Task, start_impl, send_impl, active_stop_impl, Connection, Effect, Step, post,
  finish_close, shutdown_send_impl, run_active_stop, ReadResult, eof, operation_aborted, read_error,
  bytes_read, handle_frame, handle_read, stop,
}
use rsp.Wire.Interpreter.{Handled, handle_buffer}

-- The buffers whose write begins.
abbrev pub written : List Effect → List Bytes
written [] = []
written (Effect.writes m ∷ es) = m ∷ written es
written (e ∷ es) = written es

-- The queue behind the write in progress.
abbrev pub buffers : List PendingWrite → List Bytes
buffers [] = []
buffers (w ∷ ws) = w.buffer ∷ buffers ws

abbrev pub waiting : List PendingWrite → List Bytes
waiting [] = []
waiting (w ∷ ws) = buffers ws

-- The sends that the strand still has.
abbrev pub posted : List Task → List Bytes
posted [] = []
posted (send_impl m n ∷ ts) = m ∷ posted ts
posted (t ∷ ts) = posted ts

-- Whether a send is dropped when the strand runs it.
abbrev pub drops : Connection → Bool
drops c = c.closed || (c.graceful_close_requested || (c.send_overflowed || not c.is_open))

-- What is still to be written behind the front: the queue, and the posted sends, all of them unless
-- the connection drops them.
pub record Owes (owed : List Bytes) (c : Connection) : Type 0 where
  pub rest : List Bytes
  pub same : owed ≡ waiting c.write_queue ++ rest
  pub kept : drops c ≡ false → rest ≡ posted c.strand

-- A handler that begins no write.
abbrev pub Quiet : List Bytes → Step → Type 0
Quiet owed s = (written s.0 ≡ []) × Owes owed s.1

posted-append : (ts us : List Task) → posted (ts ++ us) ≡ posted ts ++ posted us
posted-append [] us = refl
posted-append (send_impl m n ∷ ts) us = ap (◌∷◌ m) (posted-append ts us)
posted-append (start_impl ∷ ts) us = posted-append ts us
posted-append (active_stop_impl f ∷ ts) us = posted-append ts us

pub buffers-append : (a b : List PendingWrite) → buffers (a ++ b) ≡ buffers a ++ buffers b
buffers-append [] b = refl
buffers-append (w ∷ a) b = ap (◌∷◌ w.buffer) (buffers-append a b)

pub written-append : (a b : List Effect) → written (a ++ b) ≡ written a ++ written b
written-append [] b = refl
written-append (Effect.writes m ∷ a) b = ap (◌∷◌ m) (written-append a b)
written-append (Effect.reads ∷ a) b = written-append a b
written-append (Effect.shuts_send ∷ a) b = written-append a b
written-append (Effect.closes ∷ a) b = written-append a b
written-append (Effect.notifies ∷ a) b = written-append a b
written-append (Effect.dispatches ds ∷ a) b = written-append a b

module _ (owed : List Bytes) where
  if-Quiet :
      (b : Bool) (x y : Step)
      → (b ≡ true → Quiet owed x)
      → (b ≡ false → Quiet owed y)
      → Quiet owed (if b then x else y)
  if-Quiet true x y h k = h refl
  if-Quiet false x y h k = k refl

  pub finish_close-Quiet : (c : Connection) → Owes owed c → Quiet owed (finish_close c)
  unfolding finish_close
  finish_close-Quiet c o =
      if-Quiet c.closed _ _ (λ h. (refl, o))
        λ h. (
          ground arith,
          record { rest = waiting c.write_queue ++ o.rest; same = o.same; kept = λ k. cc },
        )

  pub shutdown_send_impl-Quiet :
      (failed : Bool) (c : Connection) → Owes owed c → Quiet owed (shutdown_send_impl failed c)
  unfolding shutdown_send_impl
  shutdown_send_impl-Quiet failed c o =
      let sent : Owes owed (record c { sent_shutdown = true }) = record {
        rest = o.rest;
        same = o.same;
        kept = o.kept;
      } in
      if-Quiet failed _ _ (λ h. finish_close-Quiet (record c { sent_shutdown = true }) sent)
        (λ h. (refl, sent))

  elim_queue-Quiet :
      (q : List PendingWrite) (x y : Step)
      → Quiet owed x
      → Quiet owed y
      → Quiet owed (elim q as (λ q. Step) [ w ∷ ws ↦ x | [] ↦ y ])
  elim_queue-Quiet [] x y h k = k
  elim_queue-Quiet (w ∷ ws) x y h k = h

  pub run_active_stop-Quiet :
      (failed force : Bool) (c : Connection)
      → Owes owed c
      → Quiet owed (run_active_stop failed force c)
  unfolding run_active_stop
  run_active_stop-Quiet failed force c o =
      let asked : Owes owed (record c { graceful_close_requested = true }) = record {
        rest = o.rest;
        same = o.same;
        kept = λ h. ground (arith, h);
      } in
      if-Quiet (c.closed || (not force && c.graceful_close_requested)) _ _ (λ h. (refl, o))
        λ h.
          if-Quiet (not c.is_open || force) _ _ (λ k. finish_close-Quiet c o)
            λ k.
              elim_queue-Quiet c.write_queue _ _ (refl, asked)
                (shutdown_send_impl-Quiet failed (record c { graceful_close_requested = true })
                  asked)

  pub post-Owes :
      (t : Task) (c : Connection) → Owes owed c → Owes (owed ++ posted (t ∷ [])) (post t c)
  unfolding post
  post-Owes t c o = record {
    rest = o.rest ++ posted (t ∷ []);
    same =
        ap (λ l. l ++ posted (t ∷ [])) o.same
        ∙ append_assoc (waiting c.write_queue) o.rest (posted (t ∷ []));
    kept = λ h. ap (λ l. l ++ posted (t ∷ [])) (o.kept h) ∙ sym (posted-append c.strand (t ∷ []));
  }

  pub stop-Quiet :
      (failed on_strand force : Bool) (c : Connection)
      → Owes owed c
      → Quiet owed (stop failed on_strand force c)
  unfolding stop
  stop-Quiet failed on_strand force c o =
      if-Quiet (force && on_strand) _ _ (λ h. run_active_stop-Quiet failed true c o)
        λ h. (
          refl,
          subst (λ l. Owes l (post (active_stop_impl force) c)) (append-nil owed)
              (post-Owes (active_stop_impl force) c o),
        )

  handle_frame-Quiet :
      (failed : Bool) (r : Option Handled) (c : Connection)
      → Owes owed c
      → Quiet owed (handle_frame failed r c)
  unfolding handle_frame
  handle_frame-Quiet failed none c o = (refl, o)
  handle_frame-Quiet failed (some h) c o =
      let c' : Connection = record c { interpreter = h.state } in
      let o' : Owes owed c' = record { rest = o.rest; same = o.same; kept = o.kept } in
      if-Quiet h.accepted ([], post start_impl c') (run_active_stop failed true c')
        (λ k. (
          refl,
          subst (λ l. Owes l (post start_impl c')) (append-nil owed) (post-Owes start_impl c' o'),
        ))
        (λ k. run_active_stop-Quiet failed true c' o')

  pub handle_read-Quiet :
      (failed : Bool) (r : ReadResult) (c : Connection)
      → Owes owed c
      → Quiet owed (handle_read failed r c)
  unfolding handle_read
  handle_read-Quiet failed eof c o = finish_close-Quiet c o
  handle_read-Quiet failed operation_aborted c o =
      if-Quiet (not c.closed) _ _ (λ h. finish_close-Quiet c o) (λ h. (refl, o))
  handle_read-Quiet failed read_error c o = finish_close-Quiet c o
  handle_read-Quiet failed (bytes_read arr n) c o =
      handle_frame-Quiet failed (handle_buffer c.interpreter arr n) c o
