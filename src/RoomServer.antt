-- ===== src/RoomServer.antt =====
-- intranet/message_dispatcher.hpp and the handler of user_channel.hpp (rsp-svr/room): what the Room
-- server does with a buffer from the broker. A response is a value of an abstract type.
pub mod Frames
pub mod Asked
pub mod Trip
use rsp.Base.{ℕ, Bool, Option, none, some, [], Bytes, nat_key}
use rsp.MessageType
use rsp.Wire.Serializer.{destruct_buffer}
use rsp.Dispatcher.{
  MessageDispatcher, Call, handles, fails, bad_function_call, new_dispatcher, register_handler,
  register_unknown_message_handler, dispatch,
}
use rsp.UserChannel.{UserChannel, receive, respond_at_once, cancel_request, handle_request}

-- A message of a User server, with its request id and what else it holds.
pub data Inbound (B : Type 0) : Type 0 where
  ping : Inbound B
  req_create_room : (request_id : ℕ) → B → Inbound B
  req_join_room : (request_id : ℕ) → B → Inbound B
  req_leave_room : (request_id : ℕ) → B → Inbound B
  fwd_room : B → Inbound B
  cancels : (request_id : ℕ) → Inbound B

-- handle_buffer<T> for the type of a message, and handle_unknown.
pub data Handler : Type 0 where
  handle_ping handle_create_room handle_join_room handle_leave_room handle_fwd_room
        handle_cancel_request handle_unknown :
      Handler

abbrev pub room_server : MessageDispatcher Handler
room_server = register_unknown_message_handler handle_unknown (
    register_handler MessageType.user2room_cancel_request handle_cancel_request (
      register_handler MessageType.user2room_req_leave_room handle_leave_room (
        register_handler MessageType.user2room_fwd_room handle_fwd_room (
          register_handler MessageType.user2room_req_join_room handle_join_room (
            register_handler MessageType.user2room_req_create_room handle_create_room
              (register_handler MessageType.ping handle_ping new_dispatcher))))))

-- What an object of the generated class for the handler holds once it has parsed a payload, whether
-- or not that succeeds: the request id and the rest.
pub record Fields (B : Type 0) : Type 0 where
  pub request_id : Handler → Bytes → ℕ
  pub body : Handler → Bytes → B

-- What on_recv does: the response of a ping is sent, the message handler is called with the message,
-- for a request with its ticket unless it is refused; or a request is cancelled.
pub data Handling (B : Type 0) : Type 0 where
  responds : Handling B
  handles_request : (ticket : Option ℕ) → Inbound B → Handling B
  handles_forward : (route : Bytes) → B → Handling B
  cancels_request : (request_id : ℕ) → Handling B
  logs_unknown : Handling B
  throws : Handling B

module _ {B M : Type 0} where
  -- `pong` is the response of a ping, and `failing` whether the message handler throws.
  unfoldable pub on_recv :
      (pong : M) (failing : Bool)
      → Inbound B
      → (now : ℕ) → UserChannel M
      → Handling B × UserChannel M
  unfolding respond_at_once cancel_request handle_request
  on_recv pong failing ping now c = (responds, respond_at_once pong c)
  on_recv pong failing (req_create_room id b) now c =
      let (ticket, c') = handle_request failing id now c in
      (handles_request ticket (req_create_room id b), c')
  on_recv pong failing (req_join_room id b) now c =
      let (ticket, c') = handle_request failing id now c in
      (handles_request ticket (req_join_room id b), c')
  on_recv pong failing (req_leave_room id b) now c =
      let (ticket, c') = handle_request failing id now c in
      (handles_request ticket (req_leave_room id b), c')
  on_recv pong failing (fwd_room b) now c = (handles_forward c.current_route b, c)
  on_recv pong failing (cancels id) now c = (cancels_request id, cancel_request id now c)

module _ {B : Type 0} (p : Fields B) where
  abbrev pub deserialized : Handler → Bytes → Option (Inbound B)
  deserialized handle_ping payload = some ping
  deserialized handle_create_room payload = some (
      req_create_room (p.request_id handle_create_room payload) (p.body handle_create_room payload))
  deserialized handle_join_room payload =
      some (req_join_room (p.request_id handle_join_room payload) (p.body handle_join_room payload))
  deserialized handle_leave_room payload =
      some
        (req_leave_room (p.request_id handle_leave_room payload) (p.body handle_leave_room payload))
  deserialized handle_fwd_room payload = some (fwd_room (p.body handle_fwd_room payload))
  deserialized handle_cancel_request payload =
      some (cancels (p.request_id handle_cancel_request payload))
  deserialized handle_unknown payload = none

module _ {B M : Type 0} (p : Fields B) where
  unfoldable pub handle_buffer :
      (pong : M) (failing : Bool)
      → Call Handler
      → (now : ℕ) → UserChannel M
      → Handling B × UserChannel M
  unfolding on_recv
  handle_buffer pong failing (handles h payload link) now c = elim (deserialized p h payload) [
    | none ↦ (logs_unknown, c)
    | some m ↦ on_recv pong failing m now c
  ]
  handle_buffer pong failing (fails h link) now c = (logs_unknown, c)
  handle_buffer pong failing bad_function_call now c = (throws, c)

  -- The status of the frame is not looked at.
  unfoldable pub receive_buffer :
      (pong : M) (failing : Bool)
      → (source buffer : Bytes) → (now : ℕ) → UserChannel M
      → Handling B × UserChannel M
  unfolding receive destruct_buffer dispatch handle_buffer
  receive_buffer pong failing source buffer now c =
      let destructed = destruct_buffer buffer in
      handle_buffer pong failing (dispatch destructed.type destructed.payload none room_server) now
        (receive source c)
