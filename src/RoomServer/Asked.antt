-- ===== src/RoomServer/Asked.antt =====
-- What a User server asks of the Room server, and its own part of the way.
use rsp.Base.{
  ℕ, ◌+◌, ◌<◌, ◌≡◌, refl, false, [], ◌∷◌, ◌++◌, arith, nat_key, bytes_key, pair_key, ==_iff,
  Option-cases, inl, inr,
}
use rsp.Base.Map.{contains, insert, find-insert, find-erase}
use rsp.PendingRequests.{add, take, complete as complete_pending, cancel as cancel_pending}
use rsp.QueuedRequests.{admit}
use rsp.Broker.Channels.{send}
use rsp.RoomChannel.{
  request, cancel_request_of, RoomChannel, calls_handler, timeout_after, send_request,
  cancel_request as cancel_sent, send_cancel, on_response, call_all,
}
use rsp.UserChannel.{UserChannel, handle_request}
use rsp.RoomServer.{
  Inbound, req_create_room, req_join_room, req_leave_room, handles_request, on_recv,
}

-- What the User server asks of the Room server, and the message that asks it under an id.
pub data Ask (B : Type 0) : Type 0 where
  asks_create asks_join asks_leave : B → Ask B

abbrev pub with_id : {B : Type 0} → Ask B → ℕ → Inbound B
with_id (asks_create b) id = req_create_room id b
with_id (asks_join b) id = req_join_room id b
with_id (asks_leave b) id = req_leave_room id b

pub on_recv-with_id :
    {B M : Type 0} (pong : M) (q : Ask B) (id now : ℕ) (c : UserChannel M)
    → on_recv pong false (with_id q id) now c ≡ (
      handles_request (handle_request false id now c).0 (with_id q id),
      (handle_request false id now c).1,
    )
unfolding on_recv
on_recv-with_id pong (asks_create b) id now c = refl
on_recv-with_id pong (asks_join b) id now c = refl
on_recv-with_id pong (asks_leave b) id now c = refl

pub route-handle_request :
    {M : Type 0} (id now : ℕ) (c : UserChannel M)
    → (handle_request false id now c).1.current_route ≡ c.current_route
unfolding handle_request
route-handle_request id now c = elim (Option-cases (admit (c.current_route, id) now c.requests).0) [
  | inl e ↦ ground (arith, e)
  | inr (t, e) ↦ ground (arith, e)
]

pub sent_lem :
    {Q H T : Type 0} (q : Q) (h : H) (on_timeout : T) (sent : ℕ) (u : RoomChannel Q H T)
    → (send_request q h on_timeout sent u).1.channel.outgoing
      ≡ u.channel.outgoing ++ request q u.next_request_id ∷ []
unfolding send_request send
sent_lem q h on_timeout sent u = refl

module _ {Q H T R : Type 0} (q : Q) (h : H) (on_timeout : T) (sent : ℕ)
    (u : RoomChannel Q H T) where
  pub answered_lem :
      (r : R) (now : ℕ)
      → contains u.next_request_id u.requests.requests ≡ false
      → now < sent + timeout_after
      → (on_response u.next_request_id r now (send_request q h on_timeout sent u).1).0
        ≡ calls_handler h r ∷ []
  unfolding on_response send_request complete_pending take add call_all
  answered_lem r now fresh early = ground (
    arith,
    fresh,
    ==_iff u.next_request_id u.next_request_id,
    find-insert u.next_request_id u.next_request_id
        (record {
          deadline = sent + timeout_after;
          on_response = h;
          on_timeout = record { request_id = u.next_request_id; on_timeout = on_timeout };
        })
        u.requests.requests,
  )

  pub cancelled_lem :
      (r : R) (now : ℕ)
      → contains u.next_request_id u.requests.requests ≡ false
      → let cancelled = cancel_sent u.next_request_id (send_request q h on_timeout sent u).1 in
        (cancelled.channel.outgoing
          ≡ (u.channel.outgoing ++ request q u.next_request_id ∷ [])
            ++ cancel_request_of u.next_request_id ∷ [])
        × ((on_response {R = R} u.next_request_id r now cancelled).0 ≡ [])
  unfolding on_response send_request complete_pending take add call_all cancel_sent cancel_pending
      send_cancel send
  cancelled_lem r now fresh =
      let id = u.next_request_id in
      let inserted =
        find-insert id id
          (record {
            deadline = sent + timeout_after;
            on_response = h;
            on_timeout = record { request_id = id; on_timeout = on_timeout };
          })
          u.requests.requests in
      (
        ground (arith, fresh, ==_iff id id, inserted),
        ground (
          arith,
          fresh,
          ==_iff id id,
          inserted,
          find-erase id id (
              insert id
                (record {
                  deadline = sent + timeout_after;
                  on_response = h;
                  on_timeout = record { request_id = id; on_timeout = on_timeout };
                })
                u.requests.requests),
        ),
      )
