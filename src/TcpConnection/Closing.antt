-- ===== src/TcpConnection/Closing.antt =====
-- The reserved bytes over a shutdown, a stop and a close.
use rsp.Base.{
  ℕ, ◌+◌, ◌-◌, ◌^◌, ◌≤◌, ◌<◌, ◌≡◌, refl, ◌∙◌, Bool, true, false, List, [], ◌∷◌, ◌++◌, ◌||◌, ◌&&◌,
  not, if◌then◌else◌, arith, ap,
}
use rsp.TcpConnection.{
  PendingWrite, Task, start_impl, send_impl, active_stop_impl, Connection, Effect, shuts_send, Step,
  after, sub64, release_send_bytes, release_all, finish_close, shutdown_send_impl, run_active_stop,
}

abbrev pub reserved_queue : List PendingWrite → ℕ
reserved_queue [] = 0
reserved_queue (w ∷ ws) = w.reserved_bytes + reserved_queue ws

abbrev pub reserved_tasks : List Task → ℕ
reserved_tasks [] = 0
reserved_tasks (send_impl buffer n ∷ ts) = n + reserved_tasks ts
reserved_tasks (start_impl ∷ ts) = reserved_tasks ts
reserved_tasks (active_stop_impl force ∷ ts) = reserved_tasks ts

pub reserved_queue-append :
    (a b : List PendingWrite) → reserved_queue (a ++ b) ≡ reserved_queue a + reserved_queue b
reserved_queue-append [] b = omega arith
reserved_queue-append (w ∷ a) b = omega (arith, reserved_queue-append a b)

pub reserved_tasks-append :
    (a b : List Task) → reserved_tasks (a ++ b) ≡ reserved_tasks a + reserved_tasks b
reserved_tasks-append [] b = omega arith
reserved_tasks-append (send_impl buffer n ∷ a) b = omega (arith, reserved_tasks-append a b)
reserved_tasks-append (start_impl ∷ a) b = omega (arith, reserved_tasks-append a b)
reserved_tasks-append (active_stop_impl force ∷ a) b = omega (arith, reserved_tasks-append a b)

-- `owed` is reserved for a task that has left the strand and has not run yet.
pub record Accounted (owed : ℕ) (c : Connection) : Type 0 where
  pub width : c.max_pending_send_bytes < 2 ^ 64
  pub limit : c.pending_send_bytes ≤ c.max_pending_send_bytes
  pub sum : c.pending_send_bytes ≡ owed + reserved_queue c.write_queue + reserved_tasks c.strand
  pub drained : c.closed ≡ true → c.write_queue ≡ []

abbrev pub IsValid : Connection → Type 0
IsValid = Accounted 0

pub sub64_lem : (a b : ℕ) → b ≤ a → a < 2 ^ 64 → sub64 a b ≡ a - b
unfolding sub64
sub64_lem a b h w = omega arith

pub release-Accounted :
    (n owed : ℕ) (c : Connection) → Accounted (n + owed) c → Accounted owed (release_send_bytes n c)
unfolding release_send_bytes
release-Accounted n owed c v =
    let e = sub64_lem c.pending_send_bytes n (omega arith) (omega arith) in
    record {
      width = v.width;
      limit = omega (arith, e);
      sum = omega (arith, e);
      drained = v.drained;
    }

pub release_all_lem :
    (ws : List PendingWrite) (c : Connection)
    → reserved_queue ws ≤ c.pending_send_bytes
    → c.pending_send_bytes < 2 ^ 64
    → release_all ws c ≡ record c { pending_send_bytes = c.pending_send_bytes - reserved_queue ws }
unfolding release_all release_send_bytes
release_all_lem [] c h w = ap (λ n. record c { pending_send_bytes = n }) (omega arith)
release_all_lem (x ∷ ws) c h w =
    let e = sub64_lem c.pending_send_bytes x.reserved_bytes (omega arith) w in
    release_all_lem ws
      (record c { pending_send_bytes = sub64 c.pending_send_bytes x.reserved_bytes })
      (omega (arith, e)) (omega (arith, e))
    ∙ ap (λ n. record c { pending_send_bytes = n }) (omega (arith, e))

-- A branch is accounted for where each of its sides is.
pub if-Accounted :
    (owed : ℕ) (b : Bool) (x y : Step)
    → (b ≡ true → Accounted owed x.1)
    → (b ≡ false → Accounted owed y.1)
    → Accounted owed (if b then x else y).1
if-Accounted owed true x y h k = h refl
if-Accounted owed false x y h k = k refl

pub after-Accounted :
    (owed : ℕ) (es : List Effect) (x : Step) → Accounted owed x.1 → Accounted owed (after es x).1
after-Accounted owed es (fs, c) h = h

closing-Accounted :
    (owed : ℕ) (c : Connection)
    → Accounted owed c
    → Accounted owed (record (release_all c.write_queue c) {
      closed = true;
      is_open = false;
      write_queue = [];
      on_closed = false;
    })
closing-Accounted owed c v =
    let e = release_all_lem c.write_queue c (omega arith) (omega arith) in
    rw e (record { width = v.width; limit = omega arith; sum = omega arith; drained = λ h. refl })

pub finish_close-Accounted :
    (owed : ℕ) (c : Connection) → Accounted owed c → Accounted owed (finish_close c).1
unfolding finish_close
finish_close-Accounted owed c v =
    if-Accounted owed c.closed _ _ (λ h. v) (λ h. closing-Accounted owed c v)

module _ (failed : Bool) (owed : ℕ) where
  pub shutdown_send-Accounted :
      (c : Connection) → Accounted owed c → Accounted owed (shutdown_send_impl failed c).1
  unfolding shutdown_send_impl
  shutdown_send-Accounted c v =
      let sent : Connection = record c { sent_shutdown = true } in
      let w : Accounted owed sent = record {
        width = v.width;
        limit = v.limit;
        sum = v.sum;
        drained = v.drained;
      } in
      if-Accounted owed failed _ _
        (λ h.
          after-Accounted owed (shuts_send ∷ []) (finish_close sent)
            (finish_close-Accounted owed sent w))
        (λ h. w)

  asked-Accounted :
      (asked : Connection) (q : List PendingWrite)
      → Accounted owed asked
      → Accounted owed
          (elim q as (λ q. Step) [ w ∷ ws ↦ ([], asked) | [] ↦ shutdown_send_impl failed asked ]).1
  asked-Accounted asked [] v = shutdown_send-Accounted asked v
  asked-Accounted asked (w ∷ ws) v = v

  pub active_stop-Accounted :
      (force : Bool) (c : Connection)
      → Accounted owed c
      → Accounted owed (run_active_stop failed force c).1
  unfolding run_active_stop
  active_stop-Accounted force c v =
      if-Accounted owed (c.closed || (not force && c.graceful_close_requested)) _ _ (λ h. v)
        λ h.
          if-Accounted owed (not c.is_open || force) _ _ (λ h. finish_close-Accounted owed c v)
            λ h.
              asked-Accounted (record c { graceful_close_requested = true }) c.write_queue
                (record { width = v.width; limit = v.limit; sum = v.sum; drained = v.drained })
