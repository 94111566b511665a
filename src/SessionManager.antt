-- ===== src/SessionManager.antt =====
-- session_manager.hpp (rsp-svr/user) and the login of a session (job_login.hpp): the sessions by
-- connection and by user id. A connection and a session are shared by pointer: a connection is its
-- address, and the sessions stand in a store under theirs.
pub mod Login
use rsp.Base.{
  ℕ, suc, Bool, true, false, Option, none, some, List, [], ◌∷◌, ◌==◌, if◌then◌else◌, Bytes, nat_key,
  bytes_key, is_empty,
}
use rsp.Base.Map.{Map, find, insert, erase, contains}

pub record Entry : Type 0 where
  pub conn : ℕ
  pub uid : Bytes

pub record SessionManager : Type 0 where
  pub sessions : Map ℕ ℕ
  pub uid_sessions : Map Bytes ℕ
  pub store : Map ℕ Entry
  pub next_address : ℕ

unfoldable pub add_connection : ℕ → SessionManager → SessionManager
add_connection conn m = if contains conn m.sessions then m else (record m {
  sessions = insert conn m.next_address m.sessions;
  store = insert m.next_address (record { conn = conn; uid = [] }) m.store;
  next_address = suc m.next_address;
})

-- set_user, on a session that is there.
unfoldable pub set_user : ℕ → Entry → Bytes → SessionManager → SessionManager
set_user a s uid m = record m { store = insert a (record s { uid = uid }) m.store }

unfoldable pub add_session : ℕ → Entry → SessionManager → SessionManager
add_session a s m = record m {
  sessions = insert s.conn a m.sessions;
  uid_sessions = if is_empty s.uid then m.uid_sessions else insert s.uid a m.uid_sessions;
}

-- What the job of a login does to the manager.
unfoldable pub login : ℕ → Bytes → SessionManager → SessionManager
unfolding set_user add_session
login a uid m = elim (find a m.store) [
  | none ↦ m
  | some s ↦ add_session a (record s { uid = uid }) (set_user a s uid m)
]

-- The user's entry is erased only while it names this session.
unfoldable pub forget_user : ℕ → Bytes → Map Bytes ℕ → Map Bytes ℕ
forget_user a uid users = elim (find uid users) [
  | none ↦ users
  | some b ↦ if b == a then erase uid users else users
]

unfoldable pub remove_session : ℕ → SessionManager → Option ℕ × SessionManager
unfolding forget_user
remove_session conn m = elim (find conn m.sessions) [
  | none ↦ (none, m)
  | some a ↦ elim (find a m.store) [
    | none ↦ (some a, record m { sessions = erase conn m.sessions })
    | some s ↦ (
      some a,
      record m {
        sessions = erase conn m.sessions;
        uid_sessions =
            if is_empty s.uid then m.uid_sessions else forget_user a s.uid m.uid_sessions;
      },
    )
  ]
]

unfoldable pub find_session : Bytes → SessionManager → Option ℕ
find_session uid m = find uid m.uid_sessions
