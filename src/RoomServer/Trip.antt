-- ===== src/RoomServer/Trip.antt =====
-- A request of the User server on its way: room_channel.hpp sends it, user_channel.hpp admits it and
-- sends the response, and room_channel.hpp calls the handler.
use rsp.Base.{
  ℕ, ◌+◌, ◌<◌, ◌≡◌, ◌≤◌, sym, ap, ◌∙◌, true, false, some, [], ◌∷◌, ◌++◌, Bytes, length, nat_key,
  bytes_key, pair_key,
}
use rsp.Base.Map.{contains}
use rsp.Wire.Serializer.{frame, max_payload_size}
use rsp.RoomChannel.{
  request, cancel_request_of, RoomChannel, calls_handler, timeout_after, send_request,
  cancel_request as cancel_sent, on_response,
}
use rsp.UserChannel.{UserChannel, receive, handle_request, is_active, complete, cancel_request}
use rsp.UserChannel.Outcomes.{complete-handle_request}
use rsp.RoomServer.{Inbound, cancels, Fields, Handling, handles_request, on_recv, receive_buffer}
use rsp.RoomServer.Frames.{type_of, Writes, receive_buffer-frame}
use rsp.RoomServer.Asked.{
  Ask, with_id, on_recv-with_id, route-handle_request, sent_lem, answered_lem, cancelled_lem,
}

module _ {B M : Type 0} (p : Fields B) (w : Writes p) (pong : M) (route : Bytes) (q : Ask B)
    (id arrived t : ℕ) (c : UserChannel M)
    (small : length (w.serialize_as_string (with_id q id)) ≤ max_payload_size)
    (admitted : (handle_request false id arrived (receive route c)).0 ≡ some t) where
  -- The Room server when it has received the request, and when it has received its cancellation.
  abbrev arrives : Handling B × UserChannel M
  arrives =
      receive_buffer p pong false route
        (frame (type_of (with_id q id)) (w.serialize_as_string (with_id q id))) arrived c

  arrives_lem : arrives ≡ (
    handles_request (some t) (with_id q id),
    (handle_request false id arrived (receive route c)).1,
  )
  arrives_lem =
      receive_buffer-frame p w pong false route (with_id q id) arrived c small
      ∙ on_recv-with_id pong q id arrived (receive route c)
      ∙ ap
          (λ k. (
            handles_request k (with_id q id),
            (handle_request false id arrived (receive route c)).1,
          ))
          admitted

  received_again : (d : UserChannel M) → d.current_route ≡ route → receive route d ≡ d
  unfolding receive
  received_again d e = ap (λ r. record d { current_route = r }) (sym e)

  cancels-arrives :
      (between : ℕ)
      → length (w.serialize_as_string (cancels id)) ≤ max_payload_size
      → let d = (handle_request false id arrived (receive route c)).1 in
        (receive_buffer p pong false route
          (frame (type_of {B = B} (cancels id)) (w.serialize_as_string (cancels id)))
          between
          d).1
        ≡ cancel_request id between d
  unfolding on_recv receive
  cancels-arrives between short =
      let d = (handle_request false id arrived (receive route c)).1 in
      ap (λ r. r.1) (receive_buffer-frame p w pong false route (cancels id) between d short)
      ∙ ap (cancel_request id between)
          (received_again d (route-handle_request id arrived (receive route c)))

-- A User server sends a request under a fresh id, and the Room server admits it. Then its task is told
-- to run when it asks, its completion sends the response to the User server, and the response calls
-- the handler if it is there before the timeout. If the User server cancels the request, and the
-- cancellation is there before the task asks, then the task is told not to run, its completion sends
-- nothing, and no response calls anything.
pub answered-cancelled :
    {B M H T R : Type 0} (p : Fields B) (w : Writes p) (pong : M) (route : Bytes) (q : Ask B)
    (h : H) (on_timeout : T) (u : RoomChannel (Ask B) H T) (c : UserChannel M) (m : M) (r : R)
    (sent arrived between done now t : ℕ)
    → length (w.serialize_as_string (with_id q u.next_request_id)) ≤ max_payload_size
    → length (w.serialize_as_string (cancels u.next_request_id)) ≤ max_payload_size
    → contains u.next_request_id u.requests.requests ≡ false
    → (handle_request false u.next_request_id arrived (receive route c)).0 ≡ some t
    → now < sent + timeout_after
    → let id = u.next_request_id in
      let asked = (send_request q h on_timeout sent u).1 in
      let cancelled = cancel_sent id asked in
      let buffer = λ (x : Inbound B). frame (type_of x) (w.serialize_as_string x) in
      let (handling, server) =
        receive_buffer p pong false route (buffer (with_id q id)) arrived c in
      let told = (receive_buffer p pong false route (buffer (cancels id)) between server).1 in
      ((asked.channel.outgoing ≡ u.channel.outgoing ++ request q id ∷ [])
        × (handling ≡ handles_request (some t) (with_id q id))
        × ((is_active t server).0 ≡ true)
        × ((complete (route, id) t m done (is_active t server).1).channel.outgoing
            ≡ c.channel.outgoing ++ (route, m) ∷ [])
        × ((on_response id r now asked).0 ≡ calls_handler h r ∷ []))
      × ((cancelled.channel.outgoing ≡ asked.channel.outgoing ++ cancel_request_of id ∷ [])
          × ((is_active t told).0 ≡ false)
          × ((complete (route, id) t m done (is_active t told).1).channel.outgoing
              ≡ c.channel.outgoing)
          × ((on_response {R = R} id r now cancelled).0 ≡ []))
unfolding receive
answered-cancelled {B} {M} {H} {T} {R} p w pong route q h on_timeout u c m r sent arrived between
      done now t small short fresh admitted early =
    let id = u.next_request_id in
    let d = (handle_request false id arrived (receive route c)).1 in
    let e = arrives_lem p w pong route q id arrived t c small admitted in
    let k = complete-handle_request id arrived between done t m (receive route c) admitted in
    let cancelled = cancelled_lem {R = R} q h on_timeout sent u r now fresh in
    let told =
      ap
        (λ (s : Handling B × UserChannel M).
          (receive_buffer p pong false route
            (frame (type_of {B = B} (cancels id)) (w.serialize_as_string (cancels id))) between
            s.1).1)
        e
      ∙ cancels-arrives p w pong route q id arrived t c small admitted between short in
    (
      (
        sent_lem q h on_timeout sent u,
        ap (λ s. s.0) e,
        ap (λ s. (is_active t s.1).0) e ∙ k.0,
        ap (λ s. (complete (route, id) t m done (is_active t s.1).1).channel.outgoing) e ∙ k.1,
        answered_lem q h on_timeout sent u r now fresh early,
      ),
      (
        cancelled.0
            ∙ ap (λ l. l ++ cancel_request_of id ∷ []) (sym (sent_lem q h on_timeout sent u)),
        ap (λ s. (is_active t s).0) told ∙ k.2,
        ap (λ s. (complete (route, id) t m done (is_active t s).1).channel.outgoing) told ∙ k.3,
        cancelled.1,
      ),
    )
