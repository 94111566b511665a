-- ===== src/TcpServer/Told.antt =====
-- Every session is held until it is told on_disconnected.
use rsp.Base.{
  ℕ, ◌+◌, ◌<◌, ◌≡◌, refl, sym, subst, Bool, true, false, not, ◌&&◌, List, [], ◌∷◌, ◌==◌, Bytes,
  arith, ltb, bit, count, count-append, nat_key, bytes_key, ==_iff, Option-cases, inl, inr,
}
use rsp.Base.Map.{find, insert}
use rsp.SessionManager.{SessionManager, find_session}
use rsp.TcpServer.{start_accept, subscribe, handle_accept, notify_on_created, notify_on_closed}
use rsp.TcpServer.Sessions.{UserServer, Event, accepted, closed, logged_in, started, step, run}
use rsp.TcpServer.Held.{is_at, has_uid, held, IsCoherent}
use rsp.TcpServer.Acceptor.{
  Moves, created_all, closed_all, later-IsCoherent, Effective, created-Effective, closed-Effective,
  logged_in-Effective,
}

record IsRunning (u : UserServer) : Type 0 where
  subscribed : u.server.event_subscribers ≡ (0, tt) ∷ []
  next : u.accepting < u.server.next_connection
  coherent : IsCoherent u.accepting u.manager

-- A login is timely while the session is held.
abbrev pub is_timely : Event → UserServer → Bool
is_timely (logged_in a uid) u = held a u.manager
is_timely e u = true

abbrev pub are_timely : List Event → UserServer → Bool
are_timely [] u = true
are_timely (e ∷ es) u = is_timely e u && are_timely es (step e u).1

step-Effective :
    (e : Event) (u : UserServer)
    → IsRunning u
    → is_timely e u ≡ true
    → Effective u.manager (step e u).1.accepting ((step e u).0, (step e u).1.manager)
unfolding step handle_accept notify_on_created notify_on_closed start_accept
step-Effective (accepted true) u r h = record {
  moves = λ b. omega arith;
  kept =
      later-IsCoherent u.accepting u.server.next_connection u.manager r.coherent
        (omega (arith, r.next));
}
step-Effective (accepted false) u r h =
    subst (Effective u.manager u.server.next_connection)
      (sym (
        created_all u.server.event_subscribers u.accepting u.server.next_connection u.manager
          r.subscribed))
      (created-Effective u.manager u.accepting r.coherent u.server.next_connection r.next)
step-Effective (closed conn) u r h =
    subst (Effective u.manager u.accepting)
      (sym (closed_all u.server.event_subscribers conn u.manager r.subscribed))
      (closed-Effective u.manager u.accepting r.coherent conn)
step-Effective (logged_in a uid) u r h =
    logged_in-Effective u.manager u.accepting r.coherent a uid h

step-IsRunning :
    (e : Event) (u : UserServer) → IsRunning u → is_timely e u ≡ true → IsRunning (step e u).1
unfolding step handle_accept start_accept
step-IsRunning (accepted error) u r h = record {
  subscribed = r.subscribed;
  next = omega arith;
  coherent = (step-Effective (accepted error) u r h).kept;
}
step-IsRunning (closed conn) u r h = record {
  subscribed = r.subscribed;
  next = r.next;
  coherent = (step-Effective (closed conn) u r h).kept;
}
step-IsRunning (logged_in a uid) u r h = record {
  subscribed = r.subscribed;
  next = r.next;
  coherent = (step-Effective (logged_in a uid) u r h).kept;
}

started-IsRunning : IsRunning started
unfolding start_accept subscribe insert find
started-IsRunning = record {
  subscribed = refl;
  next = omega arith;
  coherent = record {
    stored = λ a. ground arith;
    below = λ conn p. cc;
    own = λ conn a s p q. cc;
    addressed = λ conn a p. cc;
    connected = λ a s p. cc;
    named = λ uid a s p q e. cc;
    reached = λ uid a p. cc;
    full = λ uid a p. cc;
  };
}

run-Effective :
    (es : List Event) (u : UserServer)
    → IsRunning u
    → are_timely es u ≡ true
    → IsRunning (run es u).1 × ((b : ℕ) → Moves b (run es u).0 u.manager (run es u).1.manager)
unfolding run
run-Effective [] u r h = (r, λ b. omega arith)
run-Effective (e ∷ es) u r h =
    let now : is_timely e u ≡ true = ground (arith, h) in
    let k = run-Effective es (step e u).1 (step-IsRunning e u r now) (ground (arith, h)) in
    (
      k.0,
      λ b. omega (
        arith,
        k.1 b,
        (step-Effective e u r now).moves b,
        count-append (◌==◌ b) (step e u).0 (run es (step e u).1).0,
      ),
    )

-- A session found under the id that it has now.
abbrev pub finds : Bytes → ℕ → SessionManager → Bool
finds uid a m = is_at a (find_session uid m) && has_uid uid (find a m.store)

finds-held :
    (bound a : ℕ) (uid : Bytes) (m : SessionManager)
    → IsCoherent bound m
    → (finds uid a m && not (held a m)) ≡ false
unfolding find_session
finds-held bound a uid m v = elim (Option-cases (find a m.store)) [
  | inl e ↦ ground (arith, e)
  | inr (s, e) ↦ elim (Option-cases (find uid m.uid_sessions)) [
    | inl n ↦ ground (arith, e, n)
    | inr (b, f) ↦
        ground (arith, e, f, v.named uid a s, ==_iff b a, ==_iff a a, bytes_key.beq_iff s.uid uid)
  ]
]

unheld : (a : ℕ) → held a started.manager ≡ false
unfolding find
unheld a = refl

-- Connections are accepted, or fail, and are closed, in any order, and sessions log in while they
-- are held. Then a session that was made is either held or was told on_disconnected, once; and a
-- session that is found under the id that it has now is held.
pub run-started :
    (es : List Event) (a : ℕ) (uid : Bytes)
    → are_timely es started ≡ true
    → let (told, u) = run es started in
      (count (◌==◌ a) told + bit (held a u.manager) ≡ bit (ltb a u.manager.next_address))
      × ((finds uid a u.manager && not (held a u.manager)) ≡ false)
run-started es a uid h =
    let k = run-Effective es started started-IsRunning h in
    let m = (run es started).1.manager in
    (ground (arith, k.1 a, unheld a), finds-held (run es started).1.accepting a uid m k.0.coherent)
