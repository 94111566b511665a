-- ===== src/Examples/Server.antt =====
-- Connections that come and go, a session that logs in, and the requests of its client.
use rsp.Base.{
  ℕ, ◌+◌, ◌≡◌, ◌≢◌, refl, true, false, not, ◌&&◌, ◌||◌, leb, Option, none, some, List, [], ◌∷◌,
  ◌==◌, Bytes, map, count, bit, ltb, arith, if◌then◌else◌, nat_key,
}
use rsp.Base.Map.{find, insert}
use rsp.SessionManager.{Entry, SessionManager, login, remove_session, find_session}
use rsp.TcpServer.Held.{held}
use rsp.TcpServer.Sessions.{Event, accepted, closed, logged_in, started, step, run}
use rsp.TcpServer.Told.{are_timely, finds, run-started}
use rsp.TcpServer.Stale.{login-remove_session}
use rsp.MessageType
use rsp.Wire.Helper.{mset_be, mset_loop}
use rsp.Wire.Serializer.{frame}
use rsp.Wire.Interpreter.{Handled}
use rsp.Wire.Reads.{feed, encode, concat}
use rsp.Client.States.{
  Outgoing, pong, req_login, req_logout, req_create_room, req_join_room, fwd_room, req_leave_room,
}
use rsp.Heartbeats.{Round, send_heartbeats, beats_of, missed_in, any_stopped, send_heartbeats_lem}
use rsp.EndToEnd.{message_type, Requests, with_type, received, feed-requests}
use rsp.TcpServer.{subscribe}

-- The first connection is made, logs in and is closed; the second fails.
abbrev events : List Event
events =
    accepted false
    ∷ logged_in 0 (5 ∷ [])
    ∷ accepted true
    ∷ accepted false
    ∷ closed 0
    ∷ closed 7
    ∷ []

timely : are_timely events started ≡ true
unfolding find step subscribe insert
timely = refl

run-started_example :
    let (told, u) = run events started in
    (count (◌==◌ 0) told + bit (held 0 u.manager) ≡ bit (ltb 0 u.manager.next_address))
    × ((finds (5 ∷ []) 0 u.manager && not (held 0 u.manager)) ≡ false)
run-started_example = run-started events 0 (5 ∷ []) timely

abbrev guest : Entry
guest = record { conn = 3; uid = [] }

abbrev manager : SessionManager
manager = record {
  sessions = insert 3 9 [];
  uid_sessions = [];
  store = insert 9 guest [];
  next_address = 10;
}

stored : find 9 manager.store ≡ some guest
unfolding find insert
stored = refl

stands : find 3 manager.sessions ≡ some 9
unfolding find insert
stands = refl

abbrev first_id : Bytes
first_id = 1 ∷ []

abbrev second_id : Bytes
second_id = 2 ∷ []

apart : first_id ≢ second_id
apart = λ e. ground (arith, e)

login-remove_session_example :
    let late = login 9 first_id (remove_session 3 manager).1 in
    let left = (remove_session 3 (login 9 second_id (login 9 first_id manager))).1 in
    (find_session first_id late ≡ some 9)
    × (find 3 late.sessions ≡ some 9)
    × (find_session first_id left ≡ some 9)
    × (find 3 left.sessions ≡ none)
login-remove_session_example =
    login-remove_session 9 guest first_id second_id manager stored stands refl refl apart

-- A format of the requests: the numbers as bytes, and a text behind them.
abbrev written : Outgoing → Bytes
written pong = []
written (req_login id uid) = id ∷ uid
written (req_logout id) = id ∷ []
written (req_create_room id) = id ∷ []
written (req_join_room id room) = id ∷ room ∷ []
written (fwd_room message) = message
written (req_leave_room id) = id ∷ []

abbrev one_number : (ℕ → Outgoing) → Bytes → Option Outgoing
one_number make (id ∷ []) = some (make id)
one_number make s = none

abbrev two_numbers : Bytes → Option Outgoing
two_numbers (id ∷ room ∷ []) = some (req_join_room id room)
two_numbers s = none

abbrev login_of : Bytes → Option Outgoing
login_of (id ∷ uid) = some (req_login id uid)
login_of s = none

abbrev parsed : ℕ → Bytes → Option Outgoing
parsed type s =
    if type == MessageType.pong
    then some pong
    else (if type == MessageType.req_login
        then login_of s
        else (if type == MessageType.req_logout
            then one_number req_logout s
            else (if type == MessageType.req_create_room
                then one_number req_create_room s
                else (if type == MessageType.req_join_room
                    then two_numbers s
                    else (if type == MessageType.fwd_room
                        then some (fwd_room s)
                        else one_number req_leave_room s)))))

parsed-written : (m : Outgoing) → parsed (message_type m) (written m) ≡ some m
unfolding message_type
parsed-written pong = refl
parsed-written (req_login id uid) = refl
parsed-written (req_logout id) = refl
parsed-written (req_create_room id) = refl
parsed-written (req_join_room id room) = refl
parsed-written (fwd_room message) = refl
parsed-written (req_leave_room id) = refl

abbrev requests : Requests
requests = record {
  serialize_as_string = written;
  parse_from_istream = parsed;
  parse_serialize = parsed-written;
}

abbrev asked : List Outgoing
asked = req_login 0 (b'a' ∷ []) ∷ req_create_room 0 ∷ []

-- The two frames, cut within the header of the second.
abbrev pieces : List Bytes
pieces =
    (0 ∷ 0 ∷ 0 ∷ 0 ∷ 0 ∷ 0 ∷ 0 ∷ 2 ∷ 0 ∷ 0 ∷ 0 ∷ 2 ∷ 0 ∷ b'a' ∷ 0 ∷ 0 ∷ 0 ∷ [])
    ∷ (0 ∷ 0 ∷ 0 ∷ 0 ∷ 1 ∷ 0 ∷ 0 ∷ 0 ∷ 6 ∷ 0 ∷ [])
    ∷ []

pieces_lem : concat pieces ≡ encode (map (with_type requests) asked)
unfolding encode frame mset_be mset_loop message_type
pieces_lem = refl

feed-requests_example :
    (h : Handled) × (feed (record { link = some 4; buffer = [] }) pieces ≡ some h)
    × (map (received requests) h.dispatched ≡ map (λ m. some (4, m)) asked)
feed-requests_example =
    feed-requests requests 4 asked pieces (omega arith, (omega arith, tt))
      (omega arith, (omega arith, tt)) pieces_lem

-- The second round hears of the client, and the client is stopped after the fourth.
abbrev rounds : List Round
rounds =
    record { stop_before = false; stop_after = false; last_received = 0; now = 5 }
    ∷ record { stop_before = false; stop_after = false; last_received = 8; now = 10 }
    ∷ record { stop_before = false; stop_after = false; last_received = 8; now = 15 }
    ∷ record { stop_before = false; stop_after = false; last_received = 8; now = 20 }
    ∷ []

send_heartbeats_lem_example :
    send_heartbeats rounds
    ≡ (beats_of (missed_in rounds), any_stopped rounds || leb 3 (missed_in rounds))
send_heartbeats_lem_example = send_heartbeats_lem rounds
