-- ===== src/SessionManager/Login.antt =====
-- A user who logs in again on another connection keeps the new session.
use rsp.Base.{ℕ, ◌≡◌, ◌≢◌, false, none, some, Bytes, nat_key, bytes_key, is_empty, arith, ==_iff}
use rsp.Base.Map.{find, insert, find-insert, find-erase}
use rsp.SessionManager.{
  Entry, SessionManager, set_user, add_session, login, forget_user, remove_session, find_session,
}

login-found :
    (a : ℕ) (s : Entry) (uid : Bytes) (m : SessionManager)
    → find a m.store ≡ some s
    → login a uid m ≡ add_session a (record s { uid = uid }) (set_user a s uid m)
unfolding login
login-found a s uid m h = ground arith

remove_other :
    (conn a b : ℕ) (s : Entry) (m : SessionManager)
    → find conn m.sessions ≡ some a
    → find a m.store ≡ some s
    → find s.uid m.uid_sessions ≡ some b
    → a ≢ b
    → find_session s.uid (remove_session conn m).1 ≡ some b
unfolding find_session remove_session forget_user
remove_other conn a b s m hc ha hu ab = ground (arith, ==_iff b a)

relogged :
    (a b : ℕ) (s t : Entry) (uid : Bytes) (m : SessionManager)
    → find a m.store ≡ some s
    → find b m.store ≡ some t
    → a ≢ b
    → s.conn ≢ t.conn
    → is_empty uid ≡ false
    → find_session uid (remove_session s.conn (login b uid (login a uid m))).1 ≡ some b
unfolding set_user add_session
relogged a b s t uid m ha hb ab st full =
    let s' : Entry = record s { uid = uid } in
    let t' : Entry = record t { uid = uid } in
    let m₁ : SessionManager = add_session a s' (set_user a s uid m) in
    let m₂ : SessionManager = add_session b t' (set_user b t uid m₁) in
    let hb₁ : find b m₁.store ≡ some t = ground (arith, find-insert b a s' m.store, ==_iff b a) in
    let conn : find s.conn m₂.sessions ≡ some a = ground (
      arith,
      find-insert s.conn t.conn b m₁.sessions,
      find-insert s.conn s.conn a m.sessions,
      ==_iff s.conn t.conn,
      ==_iff s.conn s.conn,
    ) in
    let held : find a m₂.store ≡ some s' =
      ground
        (arith, find-insert a b t' m₁.store, find-insert a a s' m.store, ==_iff a b, ==_iff a a) in
    let user : find uid m₂.uid_sessions ≡ some b =
      ground (arith, find-insert uid uid b m₁.uid_sessions, bytes_key.beq_iff uid uid) in
    rw (login-found a s uid m ha, login-found b t uid m₁ hb₁)
      (remove_other s.conn a b s' m₂ conn held user ab)

-- A session logs in under an id that is not empty, and its connection is removed: the id is then
-- found under no session; or, if another session on another connection has logged in under it in
-- between, under that one. Both sessions are in the store before.
pub find_session-remove_session :
    (a b : ℕ) (s t : Entry) (uid : Bytes) (m : SessionManager)
    → find a m.store ≡ some s
    → find b m.store ≡ some t
    → a ≢ b
    → s.conn ≢ t.conn
    → is_empty uid ≡ false
    → (find_session uid (remove_session s.conn (login a uid m)).1 ≡ none)
      × (find_session uid (remove_session s.conn (login b uid (login a uid m))).1 ≡ some b)
unfolding find_session remove_session login set_user add_session forget_user
find_session-remove_session a b s t uid m ha hb ab st full = (
  ground (
    arith,
    find-insert s.conn s.conn a m.sessions,
    ==_iff s.conn s.conn,
    find-insert a a (record s { uid = uid }) m.store,
    ==_iff a a,
    find-insert uid uid a m.uid_sessions,
    find-erase uid uid (insert uid a m.uid_sessions),
    bytes_key.beq_iff uid uid,
  ),
  relogged a b s t uid m ha hb ab st full,
)
