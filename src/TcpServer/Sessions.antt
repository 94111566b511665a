-- ===== src/TcpServer/Sessions.antt =====
-- The User server as main.cpp puts it together: connections are accepted and closed, and sessions
-- log in.
use rsp.Base.{ℕ, Bool, List, [], ◌∷◌, ◌++◌, Bytes}
use rsp.SessionManager.{SessionManager, login}
use rsp.TcpServer.{
  TcpServer, new_server, subscribe, start_accept, handle_accept, notify_on_closed, acceptor_all,
}

-- `accepting` is the connection that the pending async_accept is for.
pub record UserServer : Type 0 where
  pub server : TcpServer
  pub accepting : ℕ
  pub manager : SessionManager

-- The end of the async_accept, with its error; the close callback of a connection; the login of a
-- session.
pub data Event : Type 0 where
  accepted : (error : Bool) → Event
  closed : (conn : ℕ) → Event
  logged_in : (session : ℕ) (uid : Bytes) → Event

abbrev pub new_manager : SessionManager
new_manager = record { sessions = []; uid_sessions = []; store = []; next_address = 0 }

-- The acceptor is subscribed under the address 0 and the server accepts its first connection.
abbrev pub started : UserServer
started = record {
  server = (start_accept (subscribe 0 new_server)).1;
  accepting = 0;
  manager = new_manager;
}

unfoldable pub step : Event → UserServer → List ℕ × UserServer
unfolding handle_accept notify_on_closed acceptor_all login
step (accepted error) u =
    let (effects, server) = handle_accept u.accepting error u.server in
    let (told, manager) = acceptor_all effects u.manager in
    (told, record { server = server; accepting = u.server.next_connection; manager = manager })
step (closed conn) u =
    let (told, manager) = acceptor_all (notify_on_closed conn u.server) u.manager in
    (told, record u { manager = manager })
step (logged_in session uid) u = ([], record u { manager = login session uid u.manager })

unfoldable pub run : List Event → UserServer → List ℕ × UserServer
unfolding step
run [] u = ([], u)
run (e ∷ es) u = let (now, u') = step e u in let (later, u'') = run es u' in (now ++ later, u'')
