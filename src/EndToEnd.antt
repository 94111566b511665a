-- ===== src/EndToEnd.antt =====
-- The way of a request: state.hpp (rsp-cli) sends it as a frame, the connection of the User server
-- reads the bytes in pieces, and message_dispatcher.hpp (rsp-svr/user) hands it to the session.
use rsp.Base.{
  ℕ, ◌≤◌, ◌<◌, ◌^◌, ◌≡◌, refl, sym, ap, ◌∙◌, Bool, true, is_some, Option, none, some, List, [], ◌∷◌,
  Bytes, All, length, map, arith, nat_key, append-nil,
}
use rsp.MessageType
use rsp.Wire.Serializer.{max_payload_size, destruct_buffer}
use rsp.Wire.Helper.{mget_be}
use rsp.Wire.Interpreter.{Dispatch, Handled}
use rsp.Wire.Reads.{feed, encode, Valid, dispatches, Fits, concat, feed-encode}
use rsp.Client.States.{
  Outgoing, pong, req_login, req_logout, req_create_room, req_join_room, fwd_room, req_leave_room,
}
use rsp.Dispatcher.{dispatch}
use rsp.Dispatcher.UserServer.{
  Delivery, to_session, deliver, from_client, user_server, deliver-user_server,
}

-- The type that the client gives a message.
unfoldable pub message_type : Outgoing → ℕ
message_type pong = MessageType.pong
message_type (req_login id uid) = MessageType.req_login
message_type (req_logout id) = MessageType.req_logout
message_type (req_create_room id) = MessageType.req_create_room
message_type (req_join_room id room) = MessageType.req_join_room
message_type (fwd_room message) = MessageType.fwd_room
message_type (req_leave_room id) = MessageType.req_leave_room

-- The generated classes of the messages, which are not in the source: what they write, and what the
-- class of a type reads.
pub record Requests : Type 0 where
  pub serialize_as_string : Outgoing → Bytes
  pub parse_from_istream : ℕ → Bytes → Option Outgoing
  pub parse_serialize :
      (m : Outgoing) → parse_from_istream (message_type m) (serialize_as_string m) ≡ some m

message_type_bound : (m : Outgoing) → message_type m < 2 ^ 32
unfolding message_type
message_type_bound pong = omega arith
message_type_bound (req_login id uid) = omega arith
message_type_bound (req_logout id) = omega arith
message_type_bound (req_create_room id) = omega arith
message_type_bound (req_join_room id room) = omega arith
message_type_bound (fwd_room message) = omega arith
message_type_bound (req_leave_room id) = omega arith

-- Each of them is a message for the sessions.
from_client-message_type : (m : Outgoing) → from_client (message_type m) ≡ true
unfolding message_type
from_client-message_type pong = refl
from_client-message_type (req_login id uid) = refl
from_client-message_type (req_logout id) = refl
from_client-message_type (req_create_room id) = refl
from_client-message_type (req_join_room id room) = refl
from_client-message_type (fwd_room message) = refl
from_client-message_type (req_leave_room id) = refl

reached :
    (parses : ℕ → Bytes → Bool) (session type : ℕ) (buffer : Bytes)
    → from_client type ≡ true
    → parses type buffer ≡ true
    → deliver parses (dispatch type buffer (some session) user_server)
      ≡ to_session session type buffer
reached parses session type buffer h k =
    (deliver-user_server parses type session buffer).0 ∙ ground (arith, h, k)

module _ (p : Requests) where
  abbrev pub with_type : Outgoing → ℕ × Bytes
  with_type m = (message_type m, p.serialize_as_string m)

  -- The result of deserialize.
  abbrev parses : ℕ → Bytes → Bool
  parses type buffer = is_some (p.parse_from_istream type buffer)

  -- The session and the message that its on_recv is given.
  abbrev pub passed : Delivery → Option (ℕ × Outgoing)
  passed (to_session session type buffer) = elim (p.parse_from_istream type buffer) [
    | none ↦ none
    | some m ↦ some (session, m)
  ]
  passed d = none

  abbrev pub received : Dispatch → Option (ℕ × Outgoing)
  received d = passed (deliver parses (dispatch d.type d.payload d.link user_server))

  read :
      (session : ℕ) (m : Outgoing)
      → passed (to_session session (message_type m) (p.serialize_as_string m)) ≡ some (session, m)
  read session m = rw (p.parse_serialize m, passed)

  delivered :
      (session : ℕ) (m : Outgoing)
      → received
          (record { type = message_type m; payload = p.serialize_as_string m; link = some session })
        ≡ some (session, m)
  delivered session m =
      ap passed (
        reached parses session (message_type m) (p.serialize_as_string m)
          (from_client-message_type m) (ap is_some (p.parse_serialize m)))
      ∙ read session m

  all_delivered :
      (session : ℕ) (ms : List Outgoing)
      → map received (dispatches (some session) (map with_type ms))
        ≡ map (λ m. some (session, m)) ms
  all_delivered session [] = refl
  all_delivered session (m ∷ ms) =
      ap
        (◌∷◌ (
          received (record {
            type = message_type m;
            payload = p.serialize_as_string m;
            link = some session;
          })))
        (all_delivered session ms)
      ∙ ap (λ r. r ∷ map (λ m. some (session, m)) ms) (delivered session m)

  with_type-Valid :
      (ms : List Outgoing)
      → All (λ m. length (p.serialize_as_string m) ≤ max_payload_size) ms
      → Valid (map with_type ms)
  with_type-Valid [] small = tt
  with_type-Valid (m ∷ ms) small = ((message_type_bound m, small.0), with_type-Valid ms small.1)

  -- The requests of a client, of at most 64 KiB each, reach the session that its connection is linked
  -- to: whatever pieces their bytes are read in, on_recv of that session is given each request as it
  -- was sent, in the order of the sends, and nothing else is dispatched.
  pub feed-requests :
      (session : ℕ) (ms : List Outgoing) (chunks : List Bytes)
      → All (λ m. length (p.serialize_as_string m) ≤ max_payload_size) ms
      → Fits chunks
      → concat chunks ≡ encode (map with_type ms)
      → (h : Handled) × (feed (record { link = some session; buffer = [] }) chunks ≡ some h)
        × (map received h.dispatched ≡ map (λ m. some (session, m)) ms)
  feed-requests session ms chunks small fits same = (
    record {
      accepted = true;
      state = record { link = some session; buffer = [] };
      dispatched = dispatches (some session) (map with_type ms);
    },
    feed-encode (some session) (map with_type ms) [] chunks (with_type-Valid ms small)
        (unfold destruct_buffer mget_be in refl) fits
        (same ∙ sym (append-nil (encode (map with_type ms)))),
    all_delivered session ms,
  )
