-- ===== src/Dispatcher/UserServer.antt =====
-- user/src/main.cpp, user/message/message_dispatcher.hpp and user/intranet/message_dispatcher.hpp: the
-- User server's two users of the one dispatcher. The room channel registers first, as part of
-- intranet::instance(), and the sessions' dispatcher after it. A message from a client comes with
-- its session as link, and one from the room server with nullptr.
use rsp.Base.{
  ℕ, ◌≡◌, Bool, not, ◌||◌, Option, none, some, List, [], ◌∷◌, ◌==◌, if◌then◌else◌, Bytes, nat_key,
  arith,
}
use rsp.Base.Map.{find, insert}
use rsp.MessageType
use rsp.Dispatcher.{
  MessageDispatcher, Call, handles, fails, bad_function_call, new_dispatcher, register_handler,
  register_unknown_message_handler, dispatch,
}

pub data Owner : Type 0 where
  room_channel sessions : Owner

-- handle_buffer<T> of a dispatcher, T being the message of the type, and its handle_unknown.
pub data Handler : Type 0 where
  handle_buffer : Owner → (type : ℕ) → Handler
  handle_unknown : Owner → Handler

unfoldable pub register_all : Owner → List ℕ → MessageDispatcher Handler → MessageDispatcher Handler
unfolding register_handler register_unknown_message_handler
register_all owner [] d = register_unknown_message_handler (handle_unknown owner) d
register_all owner (type ∷ types) d =
    register_all owner types (register_handler type (handle_buffer owner type) d)

-- message_dispatcher<room_channel>
abbrev pub room_types : List ℕ
room_types =
    MessageType.ping ∷ MessageType.pong ∷ MessageType.user2room_res_create_room
    ∷ MessageType.user2room_res_join_room ∷ MessageType.user2room_res_leave_room
    ∷ MessageType.user2room_fwd_client ∷ MessageType.user2room_ntf_leave_room ∷ []

-- The sessions' message_dispatcher
abbrev pub session_types : List ℕ
session_types =
    MessageType.ping ∷ MessageType.pong ∷ MessageType.req_login ∷ MessageType.req_logout
    ∷ MessageType.req_create_room ∷ MessageType.req_join_room ∷ MessageType.fwd_room
    ∷ MessageType.req_leave_room ∷ []

-- The dispatcher once `main` has set both up.
abbrev pub user_server : MessageDispatcher Handler
user_server =
    register_all sessions session_types (register_all room_channel room_types new_dispatcher)

-- What a call comes to: a message of a type for the room channel, whatever its link; one for the
-- session that the link is; a call through a null session; or a line in the log and nothing else.
pub data Delivery : Type 0 where
  to_room_channel : (type : ℕ) → Bytes → Delivery
  to_session : ℕ → (type : ℕ) → Bytes → Delivery
  unknown_to_session : ℕ → Delivery
  logged : Delivery
  null_session : Delivery
  throws : Delivery

abbrev pub pass_to_session : ℕ → Bytes → Option ℕ → Delivery
pass_to_session type buffer (some s) = to_session s type buffer
pass_to_session type buffer none = null_session

-- handle_unknown
abbrev pub unknown : Owner → Option ℕ → Delivery
unknown room_channel link = logged
unknown sessions (some s) = unknown_to_session s
unknown sessions none = null_session

-- `parses` is the result of deserialize for the message of a type, which the room channel's
-- dispatcher does not look at.
unfoldable pub deliver : (parses : ℕ → Bytes → Bool) → Call Handler → Delivery
deliver parses (handles (handle_buffer room_channel type) buffer link) = to_room_channel type buffer
deliver parses (handles (handle_buffer sessions type) buffer link) =
    if not (parses type buffer) then logged else pass_to_session type buffer link
deliver parses (handles (handle_unknown owner) buffer link) = unknown owner link
deliver parses (fails (handle_unknown owner) link) = unknown owner link
deliver parses (fails (handle_buffer owner type) link) = unknown owner link
deliver parses bad_function_call = throws

-- The messages of a client, with those that keep a connection alive, and those that the room server
-- alone sends.
abbrev pub from_client : ℕ → Bool
from_client type =
    (type == MessageType.ping)
    || ((type == MessageType.pong)
        || ((type == MessageType.req_login)
            || ((type == MessageType.req_logout)
                || ((type == MessageType.req_create_room)
                    || ((type == MessageType.req_join_room)
                        || ((type == MessageType.fwd_room)
                            || (type == MessageType.req_leave_room)))))))

abbrev pub from_room_server : ℕ → Bool
from_room_server type =
    (type == MessageType.user2room_res_create_room)
    || ((type == MessageType.user2room_res_join_room)
        || ((type == MessageType.user2room_res_leave_room)
            || ((type == MessageType.user2room_fwd_client)
                || (type == MessageType.user2room_ntf_leave_room))))

-- What becomes of a message, whether or not it comes with a session.
abbrev pub expected : (parses : Bool) → (type : ℕ) → Bytes → Option ℕ → Delivery
expected parses type buffer link =
    if from_client type
    then (if parses then pass_to_session type buffer link else logged)
    else if from_room_server type
    then to_room_channel type buffer
    else unknown sessions link

-- The one dispatcher does not look at where a message comes from. Whoever sends them, a message of a
-- client that parses goes to the session, one that does not parse is logged, the responses and
-- notifications of the room server go to the room channel, parsed or not, and any other type is
-- unknown to the session. So a client can send what the room server sends; and what comes without a
-- session is a call through a null session, but for what the room channel gets and what does not
-- parse.
pub deliver-user_server :
    (parses : ℕ → Bytes → Bool) (type session : ℕ) (buffer : Bytes)
    → (deliver parses (dispatch type buffer (some session) user_server)
        ≡ expected (parses type buffer) type buffer (some session))
      × (deliver parses (dispatch type buffer none user_server)
          ≡ expected (parses type buffer) type buffer none)
unfolding deliver dispatch register_all find insert
deliver-user_server parses type session buffer = (ground arith, ground arith)
