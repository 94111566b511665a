-- ===== src/RoomChannel/Requests.antt =====
-- What can happen to a room channel, in any order.
use rsp.Base.{ℕ, ◌≡◌, List, [], ◌∷◌, ◌++◌, arith, nat_key, Bool-cases, inl, inr}
use rsp.PendingRequests.{cancel}
use rsp.RoomChannel.{
  RoomChannel, Effect, send_request, send_cancel, cancel_request, send_notification, on_response,
  on_expire,
}

pub data Event (Q H T R : Type 0) : Type 0 where
  requests : Q → H → T → ℕ → Event Q H T R
  cancels : ℕ → Event Q H T R
  responses : ℕ → R → ℕ → Event Q H T R
  expires : ℕ → Event Q H T R
  notifies : Q → Event Q H T R

module _ {Q H T R : Type 0} where
  unfoldable pub step : Event Q H T R → RoomChannel Q H T → List (Effect H T R) × RoomChannel Q H T
  unfolding send_request cancel_request on_response on_expire send_notification
  step (requests q handler on_timeout now) c = ([], (send_request q handler on_timeout now c).1)
  step (cancels id) c = ([], cancel_request id c)
  step (responses id response now) c = on_response id response now c
  step (expires now) c = on_expire now c
  step (notifies q) c = ([], send_notification q c)

  unfoldable pub run :
      List (Event Q H T R) → RoomChannel Q H T → List (Effect H T R) × RoomChannel Q H T
  unfolding step
  run [] c = ([], c)
  run (e ∷ es) c = let (now, c') = step e c in let (later, c'') = run es c' in (now ++ later, c'')

module _ {Q H T : Type 0} where
  pub requests-cancel_request :
      (id : ℕ) (c : RoomChannel Q H T)
      → ((cancel_request id c).requests ≡ (cancel id c.requests).1)
        × ((cancel_request id c).next_request_id ≡ c.next_request_id)
  unfolding cancel_request send_cancel
  requests-cancel_request id c = elim (Bool-cases (cancel id c.requests).0) [
    | inl p ↦ (ground (arith, p), ground (arith, p))
    | inr p ↦ (ground (arith, p), ground (arith, p))
  ]
