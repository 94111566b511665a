-- ===== src/RoomServer/Frames.antt =====
-- Frames that the Room server receives, complete and not.
use rsp.Base.{
  ℕ, ◌≡◌, ◌≢◌, ◌≤◌, ◌^◌, ◌<◌, refl, sym, ap, ◌∙◌, Bool, true, none, some, [], Bytes, arith, length,
  append-nil,
}
use rsp.MessageType
use rsp.Base.Map.{find, insert}
use rsp.Wire.Serializer.{complete, destruct_buffer, frame, max_payload_size, Meta}
use rsp.Wire.Framing.{
  destruct_buffer-frame, destruct_buffer-Cut, Cut, wait, reject, frame_at, frame_meta,
}
use rsp.Dispatcher.{handles, dispatch, register_handler, register_unknown_message_handler}
use rsp.Dispatcher.UserServer.{user_server, null_session, deliver, deliver-user_server}
use rsp.UserChannel.{UserChannel, receive, respond_at_once, send_to}
use rsp.RoomServer.{
  Inbound, ping, req_create_room, req_join_room, req_leave_room, fwd_room, cancels, Handler,
  handle_ping, handle_create_room, handle_join_room, handle_leave_room, handle_fwd_room,
  handle_cancel_request, room_server, Fields, responds, on_recv, deserialized, handle_buffer,
  receive_buffer,
}

-- The type that a message is sent under, and its handler.
abbrev pub type_of : {B : Type 0} → Inbound B → ℕ
type_of ping = MessageType.ping
type_of (req_create_room id b) = MessageType.user2room_req_create_room
type_of (req_join_room id b) = MessageType.user2room_req_join_room
type_of (req_leave_room id b) = MessageType.user2room_req_leave_room
type_of (fwd_room b) = MessageType.user2room_fwd_room
type_of (cancels id) = MessageType.user2room_cancel_request

abbrev pub handler_of : {B : Type 0} → Inbound B → Handler
handler_of ping = handle_ping
handler_of (req_create_room id b) = handle_create_room
handler_of (req_join_room id b) = handle_join_room
handler_of (req_leave_room id b) = handle_leave_room
handler_of (fwd_room b) = handle_fwd_room
handler_of (cancels id) = handle_cancel_request

-- The generated classes write a message as bytes that their objects parse to it.
pub record Writes {B : Type 0} (p : Fields B) : Type 0 where
  pub serialize_as_string : Inbound B → Bytes
  pub parse_serialize :
      (m : Inbound B) → deserialized p (handler_of m) (serialize_as_string m) ≡ some m

type_of_bound : {B : Type 0} (m : Inbound B) → type_of m < 2 ^ 32
type_of_bound ping = omega arith
type_of_bound (req_create_room id b) = omega arith
type_of_bound (req_join_room id b) = omega arith
type_of_bound (req_leave_room id b) = omega arith
type_of_bound (fwd_room b) = omega arith
type_of_bound (cancels id) = omega arith

dispatch-type_of :
    {B : Type 0} (m : Inbound B) (payload : Bytes)
    → dispatch (type_of m) payload none room_server ≡ handles (handler_of m) payload none
unfolding dispatch register_handler register_unknown_message_handler find insert
dispatch-type_of ping payload = refl
dispatch-type_of (req_create_room id b) payload = refl
dispatch-type_of (req_join_room id b) payload = refl
dispatch-type_of (req_leave_room id b) payload = refl
dispatch-type_of (fwd_room b) payload = refl
dispatch-type_of (cancels id) payload = refl

module _ {B M : Type 0} (p : Fields B) (w : Writes p) (pong : M) (failing : Bool) where
  handled :
      (m : Inbound B) (now : ℕ) (c : UserChannel M)
      → handle_buffer p pong failing (handles (handler_of m) (w.serialize_as_string m) none) now c
        ≡ on_recv pong failing m now c
  unfolding handle_buffer
  handled m now c = rw (w.parse_serialize m, handle_buffer) refl

  -- A message of at most 64 KiB that a User server sends is handled as it was sent, with the route
  -- that it came from.
  pub receive_buffer-frame :
      (source : Bytes) (m : Inbound B) (now : ℕ) (c : UserChannel M)
      → length (w.serialize_as_string m) ≤ max_payload_size
      → receive_buffer p pong failing source (frame (type_of m) (w.serialize_as_string m)) now c
        ≡ on_recv pong failing m now (receive source c)
  unfolding receive_buffer
  receive_buffer-frame source m now c small =
      let payload = w.serialize_as_string m in
      let cut : destruct_buffer (frame (type_of m) payload) ≡ frame_meta (type_of m) payload =
        ap destruct_buffer (sym (append-nil (frame (type_of m) payload)))
        ∙ destruct_buffer-frame (type_of m) payload [] (type_of_bound m) small in
      ap
        (λ (d : Meta).
          handle_buffer p pong failing (dispatch d.type d.payload none room_server) now
            (receive source c))
        cut
      ∙ ap (λ k. handle_buffer p pong failing k now (receive source c)) (dispatch-type_of m payload)
      ∙ handled m now (receive source c)

broken_meta :
    (buffer : Bytes)
    → (destruct_buffer buffer).status ≢ complete
    → let meta = destruct_buffer buffer in (meta.type ≡ MessageType.ping) × (meta.payload ≡ [])
broken_meta buffer broken = go (destruct_buffer-Cut buffer)
  where
    go :
        Cut buffer (destruct_buffer buffer)
        → let meta = destruct_buffer buffer in (meta.type ≡ MessageType.ping) × (meta.payload ≡ [])
    go (wait e) = (ap (λ (m : Meta). m.type) e, ap (λ (m : Meta). m.payload) e)
    go (reject n e big m) = (ap (λ (m : Meta). m.type) m, ap (λ (m : Meta). m.payload) m)
    go (frame_at n type e small long t m) = absurd (broken (ap (λ (m : Meta). m.status) m))

module _ {B M : Type 0} (p : Fields B) (pong : M) (failing : Bool) where
  pinged :
      (payload : Bytes) (now : ℕ) (c : UserChannel M)
      → handle_buffer p pong failing (dispatch MessageType.ping payload none room_server) now c
        ≡ (responds, respond_at_once pong c)
  unfolding handle_buffer on_recv dispatch register_handler register_unknown_message_handler find
      insert
  pinged payload now c = refl

  -- A buffer that is not one complete frame is taken for a ping at both ends: the Room server sends a
  -- pong to where it came from and does nothing else, and the User server, where no bytes parse to a
  -- ping, calls through a null session.
  pub receive_buffer-broken :
      (parses : ℕ → Bytes → Bool) (source buffer : Bytes) (now : ℕ) (c : UserChannel M)
      → (destruct_buffer buffer).status ≢ complete
      → parses MessageType.ping [] ≡ true
      → let meta = destruct_buffer buffer in
        (receive_buffer p pong failing source buffer now c
          ≡ (responds, send_to source pong (receive source c)))
        × (deliver parses (dispatch meta.type meta.payload none user_server) ≡ null_session)
  unfolding receive_buffer respond_at_once receive
  receive_buffer-broken parses source buffer now c broken empty =
      let meta = destruct_buffer buffer in
      let (typed, bare) = broken_meta buffer broken in
      (
        ap
              (λ t.
                handle_buffer p pong failing (dispatch t meta.payload none room_server) now
                  (receive source c))
              typed
            ∙ pinged meta.payload now (receive source c),
        ap (λ t. deliver parses (dispatch t meta.payload none user_server)) typed
            ∙ ap (λ b. deliver parses (dispatch MessageType.ping b none user_server)) bare
            ∙ (deliver-user_server parses MessageType.ping 0 []).1
            ∙ ground (arith, empty),
      )
