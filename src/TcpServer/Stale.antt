-- ===== src/TcpServer/Stale.antt =====
-- What a session manager can keep of a session after its connection has been closed.
use rsp.Base.{
  ℕ, ◌≡◌, ◌≢◌, ap, ◌∙◌, if◌then◌else◌, false, none, some, Bytes, nat_key, bytes_key, is_empty,
  arith, ==_iff,
}
use rsp.Base.Map.{find, find-insert, find-erase}
use rsp.SessionManager.{
  Entry, SessionManager, set_user, add_session, login, remove_session, find_session,
}
use rsp.TcpServer.Held.{dropped, remove_session-dropped, renamed, find-forget_user}
use rsp.TcpServer.Acceptor.{login-renamed}

module _ (a : ℕ) (s : Entry) (uid : Bytes) (m : SessionManager) where
  find-renamed_store : find a (renamed a s uid m).store ≡ some (record s { uid = uid })
  unfolding add_session set_user
  find-renamed_store = ground (arith, ==_iff a a, find-insert a a (record s { uid = uid }) m.store)

  find-renamed_sessions : find s.conn (renamed a s uid m).sessions ≡ some a
  unfolding add_session set_user
  find-renamed_sessions =
      ground (arith, ==_iff s.conn s.conn, find-insert s.conn s.conn a m.sessions)

  find-renamed_uid :
      (u : Bytes)
      → is_empty uid ≡ false
      → find u (renamed a s uid m).uid_sessions
        ≡ (if bytes_key.beq u uid then some a else find u m.uid_sessions)
  unfolding add_session set_user
  find-renamed_uid u full = ground (arith, find-insert u uid a m.uid_sessions)

late_again :
    (a : ℕ) (s : Entry) (uid : Bytes) (m : SessionManager)
    → find a m.store ≡ some s
    → find s.conn m.sessions ≡ some a
    → login a uid (remove_session s.conn m).1 ≡ renamed a s uid (dropped a s m)
late_again a s uid m p q =
    ap (λ r. login a uid r.1) (remove_session-dropped a s m q p)
    ∙ login-renamed a s uid (dropped a s m) p

left_over :
    (a : ℕ) (s : Entry) (uid other : Bytes) (m : SessionManager)
    → find a m.store ≡ some s
    → remove_session s.conn (login a other (login a uid m)) ≡ (
      some a,
      dropped a
          (record s { uid = other })
          (renamed a (record s { uid = uid }) other (renamed a s uid m)),
    )
left_over a s uid other m p =
    let first : Entry = record s { uid = uid } in
    let once = renamed a s uid m in
    ap (λ n. remove_session s.conn (login a other n)) (login-renamed a s uid m p)
    ∙ ap (remove_session s.conn) (login-renamed a first other once (find-renamed_store a s uid m))
    ∙ remove_session-dropped a (record s { uid = other }) (renamed a first other once)
        (find-renamed_sessions a first other once) (find-renamed_store a first other once)

-- The connection of a session that the manager holds is closed. A login that the session's strand
-- runs after that puts the session back, under its connection and under the id. And if the session
-- had logged in under two ids, it is still found under the first one.
pub login-remove_session :
    (a : ℕ) (s : Entry) (uid other : Bytes) (m : SessionManager)
    → find a m.store ≡ some s
    → find s.conn m.sessions ≡ some a
    → is_empty uid ≡ false
    → is_empty other ≡ false
    → uid ≢ other
    → let late = login a uid (remove_session s.conn m).1 in
      let left = (remove_session s.conn (login a other (login a uid m))).1 in
      (find_session uid late ≡ some a)
      × (find s.conn late.sessions ≡ some a)
      × (find_session uid left ≡ some a)
      × (find s.conn left.sessions ≡ none)
unfolding find_session
login-remove_session a s uid other m p q full full' apart =
    let once = renamed a s uid m in
    let first : Entry = record s { uid = uid } in
    let twice = renamed a first other once in
    let late = late_again a s uid m p q in
    let left = ap (λ r. r.1) (left_over a s uid other m p) in
    (
      ap (find_session uid) late
          ∙ ground
              (arith, find-renamed_uid a s uid (dropped a s m) uid full, bytes_key.beq_iff uid uid),
      ap (λ n. find s.conn n.sessions) late ∙ find-renamed_sessions a s uid (dropped a s m),
      ap (find_session uid) left
          ∙ ground (
            arith,
            find-forget_user a other uid twice.uid_sessions,
            find-renamed_uid a first other once uid full',
            find-renamed_uid a s uid m uid full,
            bytes_key.beq_iff uid other,
            bytes_key.beq_iff uid uid,
          ),
      ap (λ n. find s.conn n.sessions) left
          ∙ ground (arith, find-erase s.conn s.conn twice.sessions, ==_iff s.conn s.conn),
    )
