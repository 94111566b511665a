-- ===== src/TcpServer/Held.antt =====
-- The sessions that the manager holds, and those that are told on_disconnected.
use rsp.Base.{
  ℕ, suc, ◌<◌, ◌≡◌, Bool, true, false, ◌&&◌, Option, none, some, [], ◌==◌, if◌then◌else◌, Bytes,
  arith, ltb, is_empty, nat_key, bytes_key, ==_iff, Bool-cases, inl, inr,
}
use rsp.Base.Map.{Map, find, insert, erase, contains, find-insert, find-erase}
use rsp.SessionManager.{
  Entry, SessionManager, add_connection, set_user, add_session, forget_user, remove_session,
}

abbrev pub is_at : ℕ → Option ℕ → Bool
is_at a none = false
is_at a (some b) = b == a

abbrev pub has_uid : Bytes → Option Entry → Bool
has_uid uid none = false
has_uid uid (some s) = bytes_key.beq s.uid uid

-- Whether a session stands under its connection.
abbrev pub held : ℕ → SessionManager → Bool
held a m = elim (find a m.store) [ none ↦ false | some s ↦ is_at a (find s.conn m.sessions) ]

-- The connections lie below a bound; a session is in the store if its address was given, and stands
-- under its own connection only; and what is found under its own id is held.
pub record IsCoherent (bound : ℕ) (m : SessionManager) : Type 0 where
  pub stored : (a : ℕ) → contains a m.store ≡ ltb a m.next_address
  pub below : (conn : ℕ) → contains conn m.sessions ≡ true → conn < bound
  pub own :
      (conn a : ℕ) (s : Entry)
      → find conn m.sessions ≡ some a
      → find a m.store ≡ some s
      → s.conn ≡ conn
  pub addressed : (conn a : ℕ) → find conn m.sessions ≡ some a → a < m.next_address
  pub connected : (a : ℕ) (s : Entry) → find a m.store ≡ some s → s.conn < bound
  pub named :
      (uid : Bytes) (a : ℕ) (s : Entry)
      → find uid m.uid_sessions ≡ some a
      → find a m.store ≡ some s
      → s.uid ≡ uid
      → find s.conn m.sessions ≡ some a
  pub reached : (uid : Bytes) (a : ℕ) → find uid m.uid_sessions ≡ some a → a < m.next_address
  pub full : (uid : Bytes) (a : ℕ) → find uid m.uid_sessions ≡ some a → is_empty uid ≡ false

-- A new connection: the manager with its session.
abbrev pub added : ℕ → SessionManager → SessionManager
added conn m = record m {
  sessions = insert conn m.next_address m.sessions;
  store = insert m.next_address (record { conn = conn; uid = [] }) m.store;
  next_address = suc m.next_address;
}

pub add_connection-added :
    (conn : ℕ) (m : SessionManager)
    → contains conn m.sessions ≡ false
    → add_connection conn m ≡ added conn m
unfolding add_connection
add_connection-added conn m h = ground (arith, h)

pub unused :
    (bound : ℕ) (m : SessionManager) → IsCoherent bound m → contains bound m.sessions ≡ false
unused bound m v = elim (Bool-cases (contains bound m.sessions)) [
  | inl p ↦ absurd (omega (arith, v.below bound p))
  | inr p ↦ p
]

module _ (bound next : ℕ) (m : SessionManager) (v : IsCoherent bound m) (up : bound < next) where
  pub added-IsCoherent : IsCoherent next (added bound m)
  added-IsCoherent = record {
    stored = λ a. ground (
      arith,
      v.stored a,
      ==_iff a m.next_address,
      find-insert a m.next_address (record { conn = bound; uid = [] }) m.store,
    );
    below = λ conn p.
        ground (
          arith,
          v.below conn,
          ==_iff conn bound,
          find-insert conn bound m.next_address m.sessions,
        );
    own = λ conn a s p q. ground (
      arith,
      v.own conn a s,
      v.addressed conn a,
      ==_iff conn bound,
      ==_iff a m.next_address,
      find-insert conn bound m.next_address m.sessions,
      find-insert a m.next_address (record { conn = bound; uid = [] }) m.store,
    );
    addressed = λ conn a p.
        ground (arith, v.addressed conn a, find-insert conn bound m.next_address m.sessions);
    connected = λ a s p. ground (
      arith,
      v.connected a s,
      find-insert a m.next_address (record { conn = bound; uid = [] }) m.store,
    );
    named = λ uid a s p q r. ground (
      arith,
      v.named uid a s,
      v.reached uid a,
      v.connected a s,
      ==_iff s.conn bound,
      ==_iff a m.next_address,
      find-insert s.conn bound m.next_address m.sessions,
      find-insert a m.next_address (record { conn = bound; uid = [] }) m.store,
    );
    reached = λ uid a p. ground (arith, v.reached uid a p);
    full = λ uid a p. v.full uid a p;
  }

pub find-forget_user :
    (a : ℕ) (uid u : Bytes) (users : Map Bytes ℕ)
    → find u (forget_user a uid users)
      ≡ (if bytes_key.beq u uid && is_at a (find uid users) then none else find u users)
unfolding forget_user
find-forget_user a uid u users = ground (arith, find-erase u uid users, bytes_key.beq_iff u uid)

-- The manager without a session `a` that stands in it.
abbrev pub dropped : ℕ → Entry → SessionManager → SessionManager
dropped a s m = record m {
  sessions = erase s.conn m.sessions;
  uid_sessions = if is_empty s.uid then m.uid_sessions else forget_user a s.uid m.uid_sessions;
}

pub remove_session-dropped :
    (a : ℕ) (s : Entry) (m : SessionManager)
    → find s.conn m.sessions ≡ some a
    → find a m.store ≡ some s
    → remove_session s.conn m ≡ (some a, dropped a s m)
unfolding remove_session
remove_session-dropped a s m p q = ground (arith, p, q)

module _ (bound a : ℕ) (s : Entry) (m : SessionManager) (v : IsCoherent bound m)
    (p : find s.conn m.sessions ≡ some a) (q : find a m.store ≡ some s) where
  pub dropped-IsCoherent : IsCoherent bound (dropped a s m)
  dropped-IsCoherent = record {
    stored = v.stored;
    below = λ conn h. ground (arith, v.below conn, find-erase conn s.conn m.sessions);
    own = λ conn b t h k. ground (arith, v.own conn b t, find-erase conn s.conn m.sessions);
    addressed = λ conn b h. ground (arith, v.addressed conn b, find-erase conn s.conn m.sessions);
    connected = v.connected;
    named = λ uid b t h k e. ground (
      arith,
      p,
      q,
      v.named uid b t,
      v.full uid b,
      ==_iff t.conn s.conn,
      ==_iff b a,
      bytes_key.beq_iff uid s.uid,
      find-erase t.conn s.conn m.sessions,
      find-forget_user a s.uid uid m.uid_sessions,
    );
    reached =
        λ uid b h. ground (arith, v.reached uid b, find-forget_user a s.uid uid m.uid_sessions);
    full = λ uid b h. ground (arith, v.full uid b, find-forget_user a s.uid uid m.uid_sessions);
  }

-- The manager after the login of a session that stands in it.
abbrev pub renamed : ℕ → Entry → Bytes → SessionManager → SessionManager
renamed a s uid m = add_session a (record s { uid = uid }) (set_user a s uid m)

module _ (bound a : ℕ) (s : Entry) (uid : Bytes) (m : SessionManager) (v : IsCoherent bound m)
    (p : find s.conn m.sessions ≡ some a) (q : find a m.store ≡ some s) where
  pub renamed-IsCoherent : IsCoherent bound (renamed a s uid m)
  unfolding add_session set_user
  renamed-IsCoherent =
      let s' : Entry = record s { uid = uid } in
      record {
        stored = λ b. ground (arith, q, v.stored b, ==_iff b a, find-insert b a s' m.store);
        below = λ conn h. ground (
          arith,
          v.below conn,
          v.connected a s q,
          ==_iff conn s.conn,
          find-insert conn s.conn a m.sessions,
        );
        own = λ conn b t h k. ground (
          arith,
          q,
          p,
          v.own conn b t,
          v.own conn b s,
          ==_iff conn s.conn,
          ==_iff b a,
          find-insert conn s.conn a m.sessions,
          find-insert b a s' m.store,
        );
        addressed = λ conn b h. ground (
          arith,
          p,
          v.addressed conn b,
          v.addressed s.conn a p,
          find-insert conn s.conn a m.sessions,
        );
        connected =
            λ b t h. ground (arith, v.connected b t, v.connected a s q, find-insert b a s' m.store);
        named = λ u b t h k e. ground (
          arith,
          p,
          q,
          v.named u b t,
          v.full u b,
          bytes_key.beq_iff u uid,
          ==_iff b a,
          ==_iff t.conn s.conn,
          find-insert u uid a m.uid_sessions,
          find-insert t.conn s.conn a m.sessions,
          find-insert b a s' m.store,
        );
        reached = λ u b h.
            ground
              (arith, v.reached u b, v.addressed s.conn a p, find-insert u uid a m.uid_sessions);
        full = λ u b h.
            ground (arith, v.full u b, bytes_key.beq_iff u uid, find-insert u uid a m.uid_sessions);
      }
