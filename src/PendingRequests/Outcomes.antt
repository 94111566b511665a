-- ===== src/PendingRequests/Outcomes.antt =====
-- What each operation of the registry does, on every branch.
use rsp.Base.{
  nat_key, ℕ, Option, none, some, List, [], ◌∷◌, ltb, if◌then◌else◌, ◌≡◌, refl, arith, ◌==◌, ==_iff,
}
use rsp.Base.Map.{Map, find, find-erase, find-Above, IsSorted}
use rsp.PendingRequests.{
  Request, PendingRequests, Call, responded, timed_out, complete, expire, expire_loop,
}

abbrev pub pending : {H T : Type 0} → PendingRequests H T → ℕ → Option (Request H T)
pending p id = find id p.requests

module _ {H T R : Type 0} where
  -- The calls that a response brings, given the request that waits for it.
  abbrev pub outcome : ℕ → R → Option (Request H T) → List (Call H T R)
  outcome now response none = []
  outcome now response (some r) =
      (if ltb now r.deadline then responded r response else timed_out r) ∷ []

  -- A response to a request that waits calls one handler of it, the response's before the deadline
  -- and the timeout's from then on; a response to any other id calls none. Either way the request
  -- is gone, and every other one is left as it was.
  pub complete_lem :
      (id now : ℕ) (response : R) (p : PendingRequests H T)
      → ((complete id response now p).0 ≡ outcome now response (pending p id))
        × ((j : ℕ)
            → pending (complete id response now p).1 j ≡ (if j == id then none else pending p j))
  unfolding complete
  complete_lem id now response p =
      (ground arith, λ j. ground (arith, find-erase j id p.requests, ==_iff j id))

-- What a request's deadline leaves of it.
abbrev pub still_due : {H T : Type 0} → ℕ → Option (Request H T) → Option (Request H T)
still_due now none = none
still_due now (some r) = if ltb now r.deadline then some r else none

module _ {H T : Type 0} (R : Type 0) where
  find-expire_loop :
      (now id : ℕ) (m : Map ℕ (Request H T))
      → IsSorted m
      → find id (expire_loop {R = R} now m).1 ≡ still_due now (find id m)
  unfolding find expire_loop
  find-expire_loop now id [] s = refl
  find-expire_loop now id ((j, r) ∷ m) s =
      ground (arith, find-expire_loop now id m s.1, find-Above id m, ==_iff id j)

  -- `expire` keeps exactly the requests whose deadline is still to come, each as it was.
  pub pending-expire :
      (now id : ℕ) (p : PendingRequests H T)
      → IsSorted p.requests
      → pending (expire {R = R} now p).1 id ≡ still_due now (pending p id)
  unfolding expire
  pending-expire now id p s = find-expire_loop now id p.requests s
