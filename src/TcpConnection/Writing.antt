-- ===== src/TcpConnection/Writing.antt =====
-- The handlers of a connection that begin a write.
use rsp.Base.{
  ℕ, ◌≡◌, refl, sym, ap, ◌∙◌, Bool, true, false, List, [], ◌∷◌, ◌++◌, if◌then◌else◌, Bytes,
  append_assoc,
}
use rsp.TcpConnection.{
  PendingWrite, Task, start_impl, send_impl, active_stop_impl, Connection, Step, release_send_bytes,
  finish_close, shutdown_send_impl, run_active_stop, write_next, run_send, write_rest, handle_write,
  run_start, run_task, run_strand,
}
use rsp.TcpConnection.Owed.{
  written, waiting, buffers, posted, drops, Owes, Quiet, buffers-append, finish_close-Quiet,
  shutdown_send_impl-Quiet, run_active_stop-Quiet,
}

-- A handler that may begin a write, of the first of what is owed.
abbrev pub Begins : List Bytes → Step → Type 0
Begins owed s = (left : List Bytes) × (owed ≡ written s.0 ++ left) × Owes left s.1

module _ (owed : List Bytes) where
  pub Quiet-Begins : (s : Step) → Quiet owed s → Begins owed s
  Quiet-Begins s q = (owed, sym (ap (λ w. w ++ owed) q.0), q.1)

  pub if-Begins :
      (b : Bool) (x y : Step)
      → (b ≡ true → Begins owed x)
      → (b ≡ false → Begins owed y)
      → Begins owed (if b then x else y)
  if-Begins true x y h k = h refl
  if-Begins false x y h k = k refl

  -- The write of the front has ended: `rest` is what is owed behind the queue.
  write_rest-Begins :
      (failed : Bool) (ws : List PendingWrite) (c : Connection) (rest : List Bytes)
      → c.write_queue ≡ ws
      → owed ≡ buffers ws ++ rest
      → (drops c ≡ false → rest ≡ posted c.strand)
      → Begins owed (write_rest failed ws c)
  unfolding write_rest write_next
  write_rest-Begins failed [] c rest e same kept =
      let o : Owes owed c = record {
        rest = rest;
        same = same ∙ ap (λ q. waiting q ++ rest) (sym e);
        kept = kept;
      } in
      if-Begins c.graceful_close_requested _ _
        (λ h. Quiet-Begins (shutdown_send_impl failed c) (shutdown_send_impl-Quiet owed failed c o))
        (λ h. Quiet-Begins ([], c) (refl, o))
  write_rest-Begins failed (w ∷ ws) c rest e same kept = (
    buffers ws ++ rest,
    same,
    record { rest = rest; same = ap (λ q. waiting q ++ rest) (sym e); kept = kept },
  )

  popped-Begins :
      (failed : Bool) (q : List PendingWrite) (c : Connection)
      → q ≡ c.write_queue
      → Owes owed c
      → Begins owed (elim q as (λ q. Step) [
        | [] ↦ ([], c)
        | w ∷ ws ↦
            write_rest failed ws
              (record (release_send_bytes w.reserved_bytes c) { write_queue = ws })
      ])
  unfolding release_send_bytes
  popped-Begins failed [] c e o = Quiet-Begins ([], c) (refl, o)
  popped-Begins failed (w ∷ ws) c e o =
      write_rest-Begins failed ws
        (record (release_send_bytes w.reserved_bytes c) { write_queue = ws }) o.rest refl
        (o.same ∙ ap (λ q. waiting q ++ o.rest) (sym e)) o.kept

  pub handle_write-Begins :
      (failed error : Bool) (c : Connection)
      → Owes owed c
      → Begins owed (handle_write failed error c)
  unfolding handle_write
  handle_write-Begins failed error c o =
      if-Begins c.closed _ _ (λ h. Quiet-Begins ([], c) (refl, o))
        λ h.
          if-Begins error _ _ (λ k. Quiet-Begins (finish_close c) (finish_close-Quiet owed c o))
            λ k. popped-Begins failed c.write_queue c refl o

  enqueued-Begins :
      (m : Bytes) (n : ℕ) (q : List PendingWrite) (c : Connection)
      → q ≡ c.write_queue
      → owed ≡ waiting c.write_queue ++ (m ∷ posted c.strand)
      → let write : PendingWrite = record { buffer = m; reserved_bytes = n } in
        let queued : Connection = record c { write_queue = c.write_queue ++ write ∷ [] } in
        Begins owed
          (elim q as (λ q. Step) [ w ∷ ws ↦ ([], queued) | [] ↦ write_next (write ∷ []) queued ])
  unfolding write_next
  enqueued-Begins m n [] c e same = (
    posted c.strand,
    same ∙ ap (λ q. waiting q ++ (m ∷ posted c.strand)) (sym e),
    record {
      rest = posted c.strand;
      same =
          ap
            (λ q.
              waiting (q ++ (record { buffer = m; reserved_bytes = n }) ∷ []) ++ posted c.strand)
            e;
      kept = λ h. refl;
    },
  )
  enqueued-Begins m n (w ∷ ws) c e same = (
    owed,
    refl,
    record {
      rest = posted c.strand;
      same =
          same
          ∙ ap (λ q. waiting q ++ (m ∷ posted c.strand)) (sym e)
          ∙ sym (append_assoc (buffers ws) (m ∷ []) (posted c.strand))
          ∙ ap (λ l. l ++ posted c.strand)
              (sym (buffers-append ws ((record { buffer = m; reserved_bytes = n }) ∷ [])))
          ∙ ap
              (λ q.
                waiting (q ++ (record { buffer = m; reserved_bytes = n }) ∷ []) ++ posted c.strand)
              e;
      kept = λ h. refl;
    },
  )

  run_send-Begins :
      (m : Bytes) (n : ℕ) (c : Connection) (rest : List Bytes)
      → owed ≡ waiting c.write_queue ++ rest
      → (drops c ≡ false → rest ≡ m ∷ posted c.strand)
      → Begins owed (run_send m n c)
  unfolding run_send release_send_bytes
  run_send-Begins m n c rest same kept =
      if-Begins (drops c) _ _
        (λ h.
          Quiet-Begins ([], release_send_bytes n c)
            (refl, record { rest = rest; same = same; kept = λ k. cc }))
        λ h.
          enqueued-Begins m n c.write_queue c refl
            (same ∙ ap (λ r. waiting c.write_queue ++ r) (kept h))

  pub run_strand-Begins :
      (failed : Bool) (ts : List Task) (c : Connection)
      → ts ≡ c.strand
      → Owes owed c
      → Begins owed (run_strand failed ts c)
  unfolding run_strand run_task run_start
  run_strand-Begins failed [] c e o = Quiet-Begins ([], c) (refl, o)
  run_strand-Begins failed (start_impl ∷ ts) c e o =
      let o' : Owes owed (record c { strand = ts }) = record {
        rest = o.rest;
        same = o.same;
        kept = λ h. o.kept h ∙ ap posted (sym e);
      } in
      if-Begins c.is_open _ _ (λ h. (owed, refl, o')) (λ h. (owed, refl, o'))
  run_strand-Begins failed (send_impl m n ∷ ts) c e o =
      run_send-Begins m n (record c { strand = ts }) o.rest o.same
        (λ h. o.kept h ∙ ap posted (sym e))
  run_strand-Begins failed (active_stop_impl force ∷ ts) c e o =
      let o' : Owes owed (record c { strand = ts }) = record {
        rest = o.rest;
        same = o.same;
        kept = λ h. o.kept h ∙ ap posted (sym e);
      } in
      Quiet-Begins (run_active_stop failed force (record c { strand = ts }))
        (run_active_stop-Quiet owed failed force (record c { strand = ts }) o')
