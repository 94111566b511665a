-- ===== src/PendingRequests.antt =====
-- pending_requests.hpp (rsp-libs/include/rsplib/message): the requests of a channel that wait for
-- a response, and their deadlines. Times are numbers; a handler is a value of an abstract type,
-- and each call of one is returned, beside the request that it belongs to.
pub mod Outcomes
pub mod Run
use rsp.Base.{
  nat_key, inl, inr, ℕ, Bool, true, false, Option, none, some, List, [], ◌∷◌, ◌++◌, ltb, leb,
  if◌then◌else◌, is_some,
}
use rsp.Base.Map.{Map, find, insert, erase, contains}

pub record Request (H T : Type 0) : Type 0 where
  pub deadline : ℕ
  pub on_response : H
  pub on_timeout : T

-- `timer` tells whether the timer thread is there to be joined.
pub record PendingRequests (H T : Type 0) : Type 0 where
  pub requests : Map ℕ (Request H T)
  pub running : Bool
  pub timer : Bool

-- A handler that is called: `on_response` with a response, or `on_timeout`.
pub data Call (H T R : Type 0) : Type 0 where
  responded : Request H T → R → Call H T R
  timed_out : Request H T → Call H T R

module _ {H T : Type 0} where
  unfoldable pub init : PendingRequests H T
  init = record { requests = []; running = false; timer = false }

  -- `spawned` is whether std::thread could be constructed; the flag is what `start` does not throw.
  unfoldable pub start : Bool → PendingRequests H T → PendingRequests H T × Bool
  start spawned p =
      if p.running
      then (p, true)
      else (if spawned
          then (record p { running = true; timer = true }, true)
          else (record p { running = false }, false))

  unfoldable pub clear : PendingRequests H T → PendingRequests H T
  clear p = record p { requests = [] }

  unfoldable pub stop : PendingRequests H T → PendingRequests H T
  unfolding clear
  stop p = clear (record p { running = false; timer = false })

  -- `emplace` does nothing where the id is taken.
  unfoldable pub add : ℕ → H → T → ℕ → PendingRequests H T → PendingRequests H T
  add id response timeout deadline p = if contains id p.requests then p else (record p {
    requests =
        insert id (record { deadline = deadline; on_response = response; on_timeout = timeout })
          p.requests;
  })

  unfoldable pub take : ℕ → PendingRequests H T → Option (Request H T) × PendingRequests H T
  take id p = elim (find id p.requests) [
    | none ↦ (none, p)
    | some r ↦ (some r, record p { requests = erase id p.requests })
  ]

  unfoldable pub cancel : ℕ → PendingRequests H T → Bool × PendingRequests H T
  unfolding take
  cancel id p = let (removed, p') = take id p in (is_some removed, p')

module _ {H T R : Type 0} where
  -- A response at the deadline, or later, is a timeout.
  unfoldable pub complete :
      ℕ → R → ℕ → PendingRequests H T → List (Call H T R) × PendingRequests H T
  unfolding take
  complete id response now p =
      let (pending, p') = take id p in
      elim pending [
        | none ↦ ([], p')
        | some r ↦
            if leb r.deadline now then (timed_out r ∷ [], p') else (responded r response ∷ [], p')
      ]

  -- The loop of `expire`: the requests that stay, and the calls for those that are due.
  unfoldable pub expire_loop : ℕ → Map ℕ (Request H T) → List (Call H T R) × Map ℕ (Request H T)
  expire_loop now [] = ([], [])
  expire_loop now ((id, r) ∷ m) =
      let (calls, kept) = expire_loop now m in
      if ltb now r.deadline then (calls, (id, r) ∷ kept) else (timed_out r ∷ calls, kept)

  unfoldable pub expire : ℕ → PendingRequests H T → List (Call H T R) × PendingRequests H T
  unfolding expire_loop
  expire now p =
      let (calls, kept) = expire_loop now p.requests in (calls, record p { requests = kept })

  -- A wake-up of the timer thread, after `interval_`.
  unfoldable pub tick : ℕ → PendingRequests H T → List (Call H T R) × PendingRequests H T
  unfolding expire
  tick now p = if p.running then expire now p else ([], p)
