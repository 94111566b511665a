-- ===== src/UserChannel.antt =====
-- user_channel.hpp (rsp-svr/room): the Room server's end of the broker. A message, on its way to a
-- User server, is a value of an abstract type that stands for its frame. What
-- room_message_handler::handle is given with a request is the ticket: `is_active` is a try_start of
-- it, and the completion is `complete` with the key and the ticket.
pub mod Tickets
pub mod Responses
pub mod Outcomes
use rsp.Base.{
  ℕ, ◌&&◌, Bool, true, false, Option, none, some, [], if◌then◌else◌, Bytes, bytes_key, nat_key,
  pair_key,
}
use rsp.QueuedRequests.{
  QueuedRequests, RequestKey, init as no_requests, admit, cancel, finish, try_start, started?,
}
use rsp.Broker.Worker.{Started}
use rsp.Broker.Channels.{Channel, new_channel, send, start_channel, stop_channel}

pub record UserChannel (M : Type 0) : Type 0 where
  pub channel : Channel (Bytes × M)
  pub current_route : Bytes
  pub requests : QueuedRequests RequestKey

module _ {M : Type 0} where
  -- The defaults of queued_requests: 4096 requests, and 30 seconds in the units of the clock.
  abbrev pub new_user_channel : UserChannel M
  new_user_channel = record {
    channel = new_channel;
    current_route = [];
    requests = no_requests 4096 30;
  }

  unfoldable pub start_async : Bool → UserChannel M → Started × UserChannel M
  unfolding start_channel
  start_async ready c =
      let (result, channel) = start_channel ready c.channel in
      (result, record c { channel = channel })

  unfoldable pub stop : UserChannel M → UserChannel M
  unfolding stop_channel
  stop c = record c { channel = stop_channel c.channel }

  -- The channel's handler of a message, before the dispatch.
  unfoldable pub receive : Bytes → UserChannel M → UserChannel M
  receive source c = record c { current_route = source }

  -- send_notification and send_response
  unfoldable pub send_to : Bytes → M → UserChannel M → UserChannel M
  unfolding send
  send_to destination message c = record c { channel = send (destination, message) c.channel }

  -- on_recv of a message whose response is there at once: a ping's.
  unfoldable pub respond_at_once : M → UserChannel M → UserChannel M
  unfolding send_to
  respond_at_once response c = send_to c.current_route response c

  -- User2RoomCancelRequest
  unfoldable pub cancel_request : ℕ → ℕ → UserChannel M → UserChannel M
  unfolding cancel
  cancel_request request_id now c = record c {
    requests = cancel (c.current_route, request_id) now c.requests;
  }

  -- The ticket that the message handler is called with, unless the request is refused. `throws` is
  -- whether that call throws.
  unfoldable pub handle_request : Bool → ℕ → ℕ → UserChannel M → Option ℕ × UserChannel M
  unfolding admit finish
  handle_request throws request_id now c =
      let key : RequestKey = (c.current_route, request_id) in
      let (ticket, requests) = admit key now c.requests in
      elim ticket [
        | none ↦ (none, record c { requests = requests })
        | some t ↦
            if throws
            then (some t, record c { requests = (finish key t now requests).1 })
            else (some t, record c { requests = requests })
      ]

  -- `is_active`, by which a task of a room asks whether it is still to run.
  unfoldable pub is_active : ℕ → UserChannel M → Bool × UserChannel M
  unfolding try_start
  is_active ticket c =
      let (won, requests) = try_start c.requests ticket in (won, record c { requests = requests })

  -- The completion of a request.
  unfoldable pub complete : RequestKey → ℕ → M → ℕ → UserChannel M → UserChannel M
  unfolding started? finish send_to
  complete key ticket response now c =
      let started = started? c.requests ticket in
      let (removed, requests) = finish key ticket now c.requests in
      let left = record c { requests = requests } in
      if removed && started then send_to key.0 response left else left
