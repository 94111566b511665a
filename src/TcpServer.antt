-- ===== src/TcpServer.antt =====
-- tcp_server.hpp (rsp-libs) and acceptor.hpp (rsp-svr/user): who is told of the connections. A
-- connection and a subscriber are their addresses. A handler returns its calls, in order, and the
-- server. The acceptor of the User server is what main.cpp subscribes.
pub mod Sessions
pub mod Held
pub mod Acceptor
pub mod Told
pub mod Stale
use rsp.Base.{ℕ, suc, Bool, Option, none, some, List, [], ◌∷◌, ◌++◌, if◌then◌else◌, map, nat_key}
use rsp.Base.Map.{Map, insert, erase}
use rsp.SessionManager.{SessionManager, add_connection, remove_session}

pub record TcpServer : Type 0 where
  pub event_subscribers : Map ℕ (Unit {0})
  pub next_connection : ℕ

-- on_conn_created and on_conn_closed of a subscriber, `start` of a connection with the buffer size,
-- and async_accept into the socket of a connection.
pub data Effect : Type 0 where
  on_conn_created : (subscriber conn : ℕ) → Effect
  on_conn_closed : (subscriber conn : ℕ) → Effect
  starts : (conn bytes : ℕ) → Effect
  accepts : (conn : ℕ) → Effect

abbrev pub buf_bytes : ℕ
buf_bytes = 128

abbrev pub new_server : TcpServer
new_server = record { event_subscribers = []; next_connection = 0 }

unfoldable pub subscribe : ℕ → TcpServer → TcpServer
subscribe event s = record s { event_subscribers = insert event tt s.event_subscribers }

unfoldable pub unsubscribe : ℕ → TcpServer → TcpServer
unsubscribe event s = record s { event_subscribers = erase event s.event_subscribers }

unfoldable pub notify_on_created : ℕ → TcpServer → List Effect
notify_on_created conn s = map (λ e. on_conn_created e.0 conn) s.event_subscribers

unfoldable pub notify_on_closed : ℕ → TcpServer → List Effect
notify_on_closed conn s = map (λ e. on_conn_closed e.0 conn) s.event_subscribers

-- The new connection is next_connection.
unfoldable pub start_accept : TcpServer → List Effect × TcpServer
start_accept s =
    (accepts s.next_connection ∷ [], record s { next_connection = suc s.next_connection })

unfoldable pub handle_accept : ℕ → Bool → TcpServer → List Effect × TcpServer
unfolding notify_on_created start_accept
handle_accept new_connection error s =
    let (accepting, s') = start_accept s in
    (
      (if error
            then []
            else notify_on_created new_connection s ++ starts new_connection buf_bytes ∷ [])
          ++ accepting,
      s',
    )

-- What the acceptor does when it is called: the session that is told on_disconnected, and the
-- session manager.
unfoldable pub acceptor : Effect → SessionManager → List ℕ × SessionManager
unfolding add_connection remove_session
acceptor (on_conn_created subscriber conn) m = ([], add_connection conn m)
acceptor (on_conn_closed subscriber conn) m =
    let (removed, m') = remove_session conn m in
    elim removed [ none ↦ ([], m') | some a ↦ (a ∷ [], m') ]
acceptor e m = ([], m)

unfoldable pub acceptor_all : List Effect → SessionManager → List ℕ × SessionManager
unfolding acceptor
acceptor_all [] m = ([], m)
acceptor_all (e ∷ es) m =
    let (now, m') = acceptor e m in let (later, m'') = acceptor_all es m' in (now ++ later, m'')
