-- ===== src/RoomChannel.antt =====
-- room_channel.hpp (rsp-svr/user): the User server's end of the broker. A message to the room server
-- stands for its frame. A handler of a response and one of a timeout are values of abstract types;
-- each call of one is returned. `now` is steady_clock::now().
pub mod Requests
pub mod Leaves
pub mod Settles
pub mod Balance
use rsp.Base.{
  ℕ, suc, ◌+◌, ◌%◌, ◌^◌, Bool, true, false, Option, none, some, List, [], ◌∷◌, ◌++◌, if◌then◌else◌,
  Bytes,
}
use rsp.PendingRequests.{
  Request, PendingRequests, Call, responded, timed_out, init as no_requests, add, cancel, complete,
  expire, clear, start as start_requests, stop as stop_requests,
}
use rsp.Broker.Worker.{Started}
use rsp.Broker.Channels.{Channel, new_channel, send, start_channel, stop_channel}
use rsp.SessionManager.{SessionManager, find_session}

-- A request with the id that it is sent under, a cancellation, or a notification.
pub data ToRoom (Q : Type 0) : Type 0 where
  request : Q → (request_id : ℕ) → ToRoom Q
  cancel_request_of : (request_id : ℕ) → ToRoom Q
  notification : Q → ToRoom Q

-- The timeout that is registered with a request: its id, for the cancellation, and `on_timeout`.
pub record OnTimeout (T : Type 0) : Type 0 where
  pub request_id : ℕ
  pub on_timeout : T

pub record RoomChannel (Q H T : Type 0) : Type 0 where
  pub channel : Channel (ToRoom Q)
  pub requests : PendingRequests H (OnTimeout T)
  pub next_request_id : ℕ

-- What the channel calls outside: a response handler, `on_timeout`, or the session that a forwarded
-- message is for.
pub data Effect (H T R : Type 0) : Type 0 where
  calls_handler : H → R → Effect H T R
  calls_timeout : T → Effect H T R
  passes_to_session : ℕ → R → Effect H T R

-- Seconds, in the units of the clock.
abbrev pub timeout_after : ℕ
timeout_after = 5

module _ {Q H T : Type 0} where
  abbrev pub new_room_channel : RoomChannel Q H T
  new_room_channel = record { channel = new_channel; requests = no_requests; next_request_id = 1 }

  -- `ready` and `spawned` are whether the two threads could be set up; an exception of the first
  -- leaves the second.
  unfoldable pub start : Bool → Bool → RoomChannel Q H T → RoomChannel Q H T
  unfolding start_channel start_requests
  start ready spawned c =
      let (result, channel) = start_channel ready c.channel in
      elim result [
        | Started.failed ↦ record c { channel = channel }
        | Started.terminated ↦ record c { channel = channel }
        | _ ↦ record c { channel = channel; requests = (start_requests spawned c.requests).0 }
      ]

  unfoldable pub stop : RoomChannel Q H T → RoomChannel Q H T
  unfolding stop_channel stop_requests clear
  stop c = record c {
    channel = stop_channel c.channel;
    requests = clear (stop_requests c.requests);
  }

  -- next_request_id_.fetch_add(1), on a uint64_t.
  unfoldable pub send_request : Q → H → T → ℕ → RoomChannel Q H T → ℕ × RoomChannel Q H T
  unfolding add send
  send_request q handler on_timeout now c =
      let id = c.next_request_id in
      (
        id,
        record {
          channel = send (request q id) c.channel;
          requests =
              add id handler (record { request_id = id; on_timeout = on_timeout })
                (now + timeout_after) c.requests;
          next_request_id = suc id % 2 ^ 64;
        },
      )

  unfoldable pub send_cancel : ℕ → RoomChannel Q H T → RoomChannel Q H T
  unfolding send
  send_cancel id c = record c { channel = send (cancel_request_of id) c.channel }

  unfoldable pub cancel_request : ℕ → RoomChannel Q H T → RoomChannel Q H T
  unfolding cancel send_cancel
  cancel_request id c =
      let (removed, requests) = cancel id c.requests in
      let left = record c { requests = requests } in if removed then send_cancel id left else left

  unfoldable pub send_notification : Q → RoomChannel Q H T → RoomChannel Q H T
  unfolding send
  send_notification q c = record c { channel = send (notification q) c.channel }

module _ {Q H T R : Type 0} where
  -- What the registry calls: a timeout sends a cancellation before it calls `on_timeout`.
  unfoldable pub call_all :
      List (Call H (OnTimeout T) R) → RoomChannel Q H T → List (Effect H T R) × RoomChannel Q H T
  unfolding send_cancel
  call_all [] c = ([], c)
  call_all (responded r response ∷ calls) c =
      let (effects, c') = call_all calls c in (calls_handler r.on_response response ∷ effects, c')
  call_all (timed_out r ∷ calls) c =
      let (effects, c') = call_all calls (send_cancel r.on_timeout.request_id c) in
      (calls_timeout r.on_timeout.on_timeout ∷ effects, c')

  -- send_to_waiter
  unfoldable pub on_response :
      ℕ → R → ℕ → RoomChannel Q H T → List (Effect H T R) × RoomChannel Q H T
  unfolding complete call_all
  on_response id response now c =
      let (calls, requests) = complete id response now c.requests in
      call_all calls (record c { requests = requests })

  -- A round of the timer of the registry.
  unfoldable pub on_expire : ℕ → RoomChannel Q H T → List (Effect H T R) × RoomChannel Q H T
  unfolding expire call_all
  on_expire now c =
      let (calls, requests) = expire now c.requests in
      call_all calls (record c { requests = requests })

-- pass_to_session, for User2RoomFwdClient and User2RoomNtfLeaveRoom.
unfoldable pub pass_to_session : {H T R : Type 0} → Bytes → R → SessionManager → List (Effect H T R)
pass_to_session uid message sessions = elim (find_session uid sessions) [
  | none ↦ []
  | some s ↦ passes_to_session s message ∷ []
]
