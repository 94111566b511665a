-- ===== src/TcpServer/Acceptor.antt =====
-- What the acceptor does to the sessions.
use rsp.Base.{
  ℕ, ◌+◌, ◌<◌, ◌≤◌, ◌≡◌, refl, sym, ap, ◌∙◌, subst, true, none, some, List, [], ◌∷◌, ◌++◌, ◌==◌,
  Bytes, arith, ltb, bit, count, map, nat_key, bytes_key, ==_iff, Option-cases, inl, inr,
}
use rsp.Base.Map.{Map, find, find-insert, find-erase}
use rsp.SessionManager.{
  Entry, SessionManager, add_connection, set_user, add_session, login, remove_session,
}
use rsp.TcpServer.{
  on_conn_created, on_conn_closed, starts, accepts, buf_bytes, acceptor, acceptor_all,
}
use rsp.TcpServer.Held.{
  held, IsCoherent, added, add_connection-added, unused, added-IsCoherent, dropped,
  remove_session-dropped, dropped-IsCoherent, renamed, renamed-IsCoherent,
}

-- What is told of `b` between two managers, the sessions being those of the addresses given.
abbrev pub Moves : ℕ → List ℕ → SessionManager → SessionManager → Type 0
Moves b told m m' =
    count (◌==◌ b) told + bit (held b m') + bit (ltb b m.next_address)
    ≡ bit (held b m) + bit (ltb b m'.next_address)

added-Moves : (b bound : ℕ) (m : SessionManager) → IsCoherent bound m → Moves b [] m (added bound m)
added-Moves b bound m v = elim (Option-cases (find b m.store)) [
  | inl e ↦ ground (
    arith,
    e,
    v.stored b,
    ==_iff b m.next_address,
    ==_iff bound bound,
    ==_iff m.next_address m.next_address,
    find-insert bound bound m.next_address m.sessions,
    find-insert b m.next_address (record { conn = bound; uid = [] }) m.store,
  )
  | inr (t, e) ↦ ground (
    arith,
    e,
    v.stored b,
    v.connected b t e,
    ==_iff b m.next_address,
    ==_iff t.conn bound,
    find-insert t.conn bound m.next_address m.sessions,
    find-insert b m.next_address (record { conn = bound; uid = [] }) m.store,
  )
]

module _ (b bound a : ℕ) (s : Entry) (m : SessionManager) (v : IsCoherent bound m)
    (p : find s.conn m.sessions ≡ some a) (q : find a m.store ≡ some s) where
  dropped-Moves : Moves b (a ∷ []) m (dropped a s m)
  dropped-Moves = elim (Option-cases (find b m.store)) [
    | inl e ↦ ground (arith, e, p, q, ==_iff b a)
    | inr (t, e) ↦ ground (
      arith,
      e,
      p,
      q,
      v.own t.conn b t,
      ==_iff b a,
      ==_iff a b,
      ==_iff a a,
      ==_iff t.conn s.conn,
      find-erase t.conn s.conn m.sessions,
    )
  ]

  renamed-Moves : (uid : Bytes) → Moves b [] m (renamed a s uid m)
  unfolding add_session set_user
  renamed-Moves uid =
      let s' : Entry = record s { uid = uid } in
      elim (Option-cases (find b m.store)) [
        | inl e ↦ ground (arith, e, p, q, ==_iff b a, find-insert b a s' m.store)
        | inr (t, e) ↦ ground (
          arith,
          e,
          p,
          q,
          ==_iff b a,
          ==_iff a b,
          ==_iff t.conn s.conn,
          find-insert t.conn s.conn a m.sessions,
          find-insert b a s' m.store,
        )
      ]

pub created_all :
    (subs : Map ℕ (Unit {0})) (conn n : ℕ) (m : SessionManager)
    → subs ≡ (0, tt) ∷ []
    → acceptor_all
        ((map (λ e. on_conn_created e.0 conn) subs ++ starts conn buf_bytes ∷ []) ++ accepts n ∷ [])
        m
      ≡ ([], add_connection conn m)
unfolding acceptor_all acceptor
created_all subs conn n m h =
    subst
      (λ subs.
        acceptor_all
          ((map (λ e. on_conn_created e.0 conn) subs ++ starts conn buf_bytes ∷ [])
            ++ accepts n ∷ [])
          m
        ≡ ([], add_connection conn m))
      (sym h) refl

pub closed_all :
    (subs : Map ℕ (Unit {0})) (conn : ℕ) (m : SessionManager)
    → subs ≡ (0, tt) ∷ []
    → acceptor_all (map (λ e. on_conn_closed e.0 conn) subs) m ≡ acceptor (on_conn_closed 0 conn) m
unfolding acceptor_all acceptor
closed_all subs conn m h =
    subst
      (λ subs.
        acceptor_all (map (λ e. on_conn_closed e.0 conn) subs) m
        ≡ acceptor (on_conn_closed 0 conn) m)
      (sym h)
      (elim (Option-cases (remove_session conn m).0) [
        | inl e ↦ ground (arith, e)
        | inr (a, e) ↦ ground (arith, e)
      ])

closed_unknown :
    (conn : ℕ) (m : SessionManager)
    → find conn m.sessions ≡ none
    → acceptor (on_conn_closed 0 conn) m ≡ ([], m)
unfolding acceptor remove_session
closed_unknown conn m h = ground (arith, h)

closed_held :
    (a : ℕ) (s : Entry) (m : SessionManager)
    → find s.conn m.sessions ≡ some a
    → find a m.store ≡ some s
    → acceptor (on_conn_closed 0 s.conn) m ≡ (a ∷ [], dropped a s m)
unfolding acceptor
closed_held a s m p q = ground (arith, remove_session-dropped a s m p q)

pub login-renamed :
    (a : ℕ) (s : Entry) (uid : Bytes) (m : SessionManager)
    → find a m.store ≡ some s
    → login a uid m ≡ renamed a s uid m
unfolding login
login-renamed a s uid m q = ground (arith, q)

held-found :
    (a : ℕ) (s : Entry) (m : SessionManager)
    → held a m ≡ true
    → find a m.store ≡ some s
    → find s.conn m.sessions ≡ some a
held-found a s m h q = elim (Option-cases (find s.conn m.sessions)) [
  | inl e ↦ ground (arith, e, h, q)
  | inr (b, e) ↦ ground (arith, e, h, q, ==_iff b a)
]

pub later-IsCoherent :
    (bound next : ℕ) (m : SessionManager) → IsCoherent bound m → bound ≤ next → IsCoherent next m
later-IsCoherent bound next m v h = record {
  stored = v.stored;
  below = λ conn p. omega (arith, v.below conn p);
  own = v.own;
  addressed = v.addressed;
  connected = λ a s p. omega (arith, v.connected a s p);
  named = v.named;
  reached = v.reached;
  full = v.full;
}

-- What is told in a step, and the manager after it.
pub record Effective (m : SessionManager) (next : ℕ) (r : List ℕ × SessionManager) : Type 0 where
  pub moves : (b : ℕ) → Moves b r.0 m r.1
  pub kept : IsCoherent next r.1

module _ (m : SessionManager) (bound : ℕ) (v : IsCoherent bound m) where
  pub created-Effective : (next : ℕ) → bound < next → Effective m next ([], add_connection bound m)
  created-Effective next h =
      subst (λ n. Effective m next ([], n)) (sym (add_connection-added bound m (unused bound m v)))
        (record { moves = λ b. added-Moves b bound m v; kept = added-IsCoherent bound next m v h })

  dropped-Effective :
      (a : ℕ) (s : Entry)
      → find s.conn m.sessions ≡ some a
      → find a m.store ≡ some s
      → Effective m bound (acceptor (on_conn_closed 0 s.conn) m)
  dropped-Effective a s p q = subst (Effective m bound) (sym (closed_held a s m p q)) (record {
    moves = λ b. dropped-Moves b bound a s m v p q;
    kept = dropped-IsCoherent bound a s m v p q;
  })

  pub closed-Effective : (conn : ℕ) → Effective m bound (acceptor (on_conn_closed 0 conn) m)
  closed-Effective conn = elim (Option-cases (find conn m.sessions)) [
    | inl e ↦
        subst (Effective m bound) (sym (closed_unknown conn m e))
          (record { moves = λ b. omega arith; kept = v })
    | inr (a, e) ↦ elim (Option-cases (find a m.store)) [
      | inl n ↦ absurd (ground (arith, n, v.stored a, v.addressed conn a e))
      | inr (s, f) ↦
          let at = v.own conn a s e f in
          subst (λ c. Effective m bound (acceptor (on_conn_closed 0 c) m)) at
            (dropped-Effective a s (ap (λ c. find c m.sessions) at ∙ e) f)
    ]
  ]

  pub logged_in-Effective :
      (a : ℕ) (uid : Bytes) → held a m ≡ true → Effective m bound ([], login a uid m)
  logged_in-Effective a uid h = elim (Option-cases (find a m.store)) [
    | inl n ↦ ground (arith, n, h)
    | inr (s, q) ↦
        let p = held-found a s m h q in
        subst (λ n. Effective m bound ([], n)) (sym (login-renamed a s uid m q))
          (record {
            moves = λ b. renamed-Moves b bound a s m v p q uid;
            kept = renamed-IsCoherent bound a s uid m v p q;
          })
  ]
