-- ===== src/RoomChannel/Balance.antt =====
-- What the Room server is told of the requests of a room channel.
use rsp.Base.{
  ℕ, suc, ◌+◌, ◌≤◌, ◌<◌, ◌^◌, ◌≡◌, refl, subst, List, [], ◌∷◌, ◌++◌, length, count, count-append,
  arith, nat_key,
}
use rsp.PendingRequests.{complete, expire, init as no_requests}
use rsp.Broker.Channels.{new_channel}
use rsp.RoomChannel.{
  RoomChannel, new_room_channel, send_request, cancel_request, send_notification, on_response,
  on_expire,
}
use rsp.RoomChannel.Requests.{
  requests-cancel_request, Event, requests, cancels, responses, expires, notifies, step, run,
}
use rsp.RoomChannel.Leaves.{
  is_request, is_cancellation, asks_under, cancels_under, is_answer, is_timeout, call_all_lem,
  expire-Leaves, complete-Leaves,
}
use rsp.RoomChannel.Settles.{
  Settles, call_all-Settles, send_notification-Settles, cancel_request-Settles,
  send_request-Settles,
}

new-Settles : {Q H T : Type 0} → Settles {Q = Q} {H = H} {T = T} 0 0 new_room_channel
unfolding no_requests new_channel
new-Settles = record {
  sorted = tt;
  fitting = tt;
  balance = refl;
  timely = omega arith;
  owed = λ i. omega arith;
}

module _ {Q H T : Type 0} (answers timeouts : ℕ) where
  silent-Settles :
      (c : RoomChannel Q H T) → Settles answers timeouts c → Settles (0 + answers) (0 + timeouts) c
  silent-Settles c v =
      subst (λ a. Settles a (0 + timeouts) c) (omega arith)
        (subst (λ t. Settles answers t c) (omega arith) v)

module _ {Q H T R : Type 0} where
  step-Settles :
      (answers timeouts : ℕ) (e : Event Q H T R) (c : RoomChannel Q H T)
      → suc c.next_request_id < 2 ^ 64
      → Settles answers timeouts c
      → let (effects, c') = step e c in
        Settles (count is_answer effects + answers) (count is_timeout effects + timeouts) c'
        × (c'.next_request_id ≤ suc c.next_request_id)
  unfolding step on_response on_expire expire
  step-Settles answers timeouts (requests q h on_timeout now) c small v = (
    silent-Settles answers timeouts (send_request q h on_timeout now c).1
        (send_request-Settles answers timeouts q h on_timeout now c small v),
    (unfold send_request in omega arith),
  )
  step-Settles answers timeouts (cancels id) c small v = (
    silent-Settles answers timeouts (cancel_request id c)
        (cancel_request-Settles answers timeouts id c v),
    omega (arith, (requests-cancel_request id c).1),
  )
  step-Settles answers timeouts (responses id response now) c small v =
      let l = complete-Leaves Q c.next_request_id id now response c.requests v.sorted v.fitting in
      let calls = (complete id response now c.requests).0 in
      let p = (complete id response now c.requests).1 in
      (
        call_all-Settles answers timeouts calls c p v l,
        omega (arith, (call_all_lem calls (record c { requests = p })).2),
      )
  step-Settles answers timeouts (expires now) c small v =
      let l =
        expire-Leaves {R = R} Q c.next_request_id now c.requests.requests v.sorted v.fitting in
      let calls = (expire {R = R} now c.requests).0 in
      let p = (expire {R = R} now c.requests).1 in
      (
        call_all-Settles answers timeouts calls c p v l,
        omega (arith, (call_all_lem calls (record c { requests = p })).2),
      )
  step-Settles answers timeouts (notifies q) c small v = (
    silent-Settles answers timeouts (send_notification q c)
        (send_notification-Settles answers timeouts q c v),
    (unfold send_notification in omega arith),
  )

  run-Settles :
      (answers timeouts : ℕ) (es : List (Event Q H T R)) (c : RoomChannel Q H T)
      → c.next_request_id + length es < 2 ^ 64
      → Settles answers timeouts c
      → let (effects, c') = run es c in
        Settles (count is_answer effects + answers) (count is_timeout effects + timeouts) c'
  unfolding run
  run-Settles answers timeouts [] c small v = silent-Settles answers timeouts c v
  run-Settles answers timeouts (e ∷ es) c small v =
      let (now, c') = step e c in
      let (kept, next) = step-Settles answers timeouts e c (omega (arith, small)) v in
      let (later, last) = run es c' in
      let w =
        run-Settles (count is_answer now + answers) (count is_timeout now + timeouts) es c'
          (omega (arith, small, next)) kept in
      subst (λ a. Settles a (count is_timeout (now ++ later) + timeouts) last)
        (omega (arith, count-append is_answer now later))
        (subst (λ t. Settles (count is_answer later + (count is_answer now + answers)) t last)
          (omega (arith, count-append is_timeout now later)) w)

  -- Whatever a new room channel sends, cancels, receives and lets expire, short of using up the
  -- ids: the requests that the Room server is sent are as many as the responses that are handed to
  -- a handler, the cancellations that it is sent and the requests that still wait, together; no
  -- more timeouts are called than cancellations are sent; and under no id is a cancellation sent
  -- more often than a request.
  pub run-new_room_channel :
      (es : List (Event Q H T R)) (i : ℕ)
      → suc (length es) < 2 ^ 64
      → let (effects, c) = run es new_room_channel in
        let out = c.channel.outgoing in
        (count is_request out
          ≡ count is_answer effects + count is_cancellation out + length c.requests.requests)
        × (count is_timeout effects ≤ count is_cancellation out)
        × (count (cancels_under i) out ≤ count (asks_under i) out)
  run-new_room_channel es i small =
      let v = run-Settles 0 0 es new_room_channel (omega (arith, small)) new-Settles in
      (omega (arith, v.balance), omega (arith, v.timely), omega (arith, v.owed i))
