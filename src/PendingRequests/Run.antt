-- ===== src/PendingRequests/Run.antt =====
-- Any sequence of the registry's operations: nothing is lost, called twice or called at a wrong
-- time.
use rsp.Base.{nat_key, ℕ, List, [], ◌∷◌, ◌++◌, if◌then◌else◌, ◌≡◌, ◌+◌, refl, arith, ◌<◌, ◌≤◌, All}
use rsp.Base.Map.{
  Map, find, contains, IsSorted, insert-IsSorted, erase-IsSorted, total, weigh, total-insert_new,
  total-erase, Above,
}
use rsp.PendingRequests.{
  Request, PendingRequests, Call, responded, timed_out, add, take, cancel, complete, expire,
  expire_loop, clear,
}

pub data Event (H T R : Type 0) : Type 0 where
  adds : ℕ → H → T → ℕ → Event H T R
  cancels : ℕ → Event H T R
  completes : ℕ → R → ℕ → Event H T R
  expires : ℕ → Event H T R
  clears : Event H T R

module _ {H T R : Type 0} where
  -- A response's handler before the deadline only, a timeout's handler from the deadline on only.
  abbrev pub Timely : ℕ → Call H T R → Type 0
  Timely now (responded r response) = now < r.deadline
  Timely now (timed_out r) = r.deadline ≤ now

  -- The weights of the requests whose handlers are called.
  abbrev pub called : (Request H T → ℕ) → List (Call H T R) → ℕ
  called w [] = 0
  called w (responded r response ∷ cs) = w r + called w cs
  called w (timed_out r ∷ cs) = w r + called w cs

module _ {H T : Type 0} (R : Type 0) where
  expire_loop-Timely :
      (now : ℕ) (m : Map ℕ (Request H T)) → All (Timely now) (expire_loop {R = R} now m).0
  unfolding expire_loop
  expire_loop-Timely now [] = tt
  expire_loop-Timely now ((id, r) ∷ m) = ground (arith, expire_loop-Timely now m)

  -- The keys stay in order.
  Above-expire_loop :
      (k now : ℕ) (m : Map ℕ (Request H T)) → Above k m → Above k (expire_loop {R = R} now m).1
  unfolding expire_loop
  Above-expire_loop k now [] a = tt
  Above-expire_loop k now ((id, r) ∷ m) a = ground (arith, Above-expire_loop k now m a.1)

  pub expire_loop-IsSorted :
      (now : ℕ) (m : Map ℕ (Request H T)) → IsSorted m → IsSorted (expire_loop {R = R} now m).1
  unfolding expire_loop
  expire_loop-IsSorted now [] s = tt
  expire_loop-IsSorted now ((id, r) ∷ m) s =
      ground (arith, expire_loop-IsSorted now m s.1, Above-expire_loop id now m s.0)

  pub expire_loop-total :
      (w : Request H T → ℕ) (now : ℕ) (m : Map ℕ (Request H T))
      → total w m ≡ called w (expire_loop {R = R} now m).0 + total w (expire_loop {R = R} now m).1
  unfolding expire_loop
  expire_loop-total w now [] = omega arith
  expire_loop-total w now ((id, r) ∷ m) = ground (arith, expire_loop-total w now m)

module _ {H T R : Type 0} where
  unfoldable pub step : PendingRequests H T → Event H T R → List (Call H T R) × PendingRequests H T
  unfolding add cancel complete expire clear
  step p (adds id h t deadline) = ([], add id h t deadline p)
  step p (cancels id) = ([], (cancel id p).1)
  step p (completes id response now) = complete id response now p
  step p (expires now) = expire now p
  step p clears = ([], clear p)

  -- Operations that take no time call nothing.
  abbrev pub TimelyAt : Event H T R → List (Call H T R) → Type 0
  TimelyAt (completes id response now) calls = All (Timely now) calls
  TimelyAt (expires now) calls = All (Timely now) calls
  TimelyAt e calls = calls ≡ []

  -- Every step calls handlers at their time only: a response before its deadline, a timeout at its
  -- deadline or later.
  pub step-TimelyAt : (p : PendingRequests H T) (e : Event H T R) → TimelyAt e (step p e).0
  unfolding step
  step-TimelyAt p (adds id h t deadline) = refl
  step-TimelyAt p (cancels id) = refl
  step-TimelyAt p (completes id response now) = ground arith
  step-TimelyAt p (expires now) = expire_loop-Timely R now p.requests
  step-TimelyAt p clears = refl

  pub step-IsSorted :
      (p : PendingRequests H T) (e : Event H T R)
      → IsSorted p.requests
      → IsSorted (step p e).1.requests
  unfolding step take
  step-IsSorted p (adds id h t deadline) s = ground (
    arith,
    insert-IsSorted id (record { deadline = deadline; on_response = h; on_timeout = t }) p.requests
        s,
  )
  step-IsSorted p (cancels id) s = ground (arith, erase-IsSorted id p.requests s)
  step-IsSorted p (completes id response now) s = ground (arith, erase-IsSorted id p.requests s)
  step-IsSorted p (expires now) s = expire_loop-IsSorted R now p.requests s
  step-IsSorted p clears s = tt

  module _ (w : Request H T → ℕ) where
    -- What an event brings in, and what it takes away with no handler called.
    abbrev pub accepted : PendingRequests H T → Event H T R → ℕ
    accepted p (adds id h t deadline) =
        if contains id p.requests
        then 0
        else w (record { deadline = deadline; on_response = h; on_timeout = t })
    accepted p e = 0

    abbrev pub dropped : PendingRequests H T → Event H T R → ℕ
    dropped p (cancels id) = weigh w (find id p.requests)
    dropped p clears = total w p.requests
    dropped p e = 0

    step-total :
        (p : PendingRequests H T) (e : Event H T R)
        → IsSorted p.requests
        → total w p.requests + accepted p e
          ≡ total w (step p e).1.requests + called w (step p e).0 + dropped p e
    unfolding step take
    step-total p (adds id h t deadline) s = ground (
      arith,
      total-insert_new w id (record { deadline = deadline; on_response = h; on_timeout = t })
          p.requests,
    )
    step-total p (cancels id) s = ground (arith, total-erase w id p.requests s)
    step-total p (completes id response now) s = ground (arith, total-erase w id p.requests s)
    step-total p (expires now) s = omega (arith, expire_loop-total R w now p.requests)
    step-total p clears s = omega arith

module _ {H T R : Type 0} where
  unfoldable pub run :
      PendingRequests H T → List (Event H T R) → List (Call H T R) × PendingRequests H T
  unfolding step
  run p [] = ([], p)
  run p (e ∷ es) =
      let (calls, p') = step p e in let (later, p'') = run p' es in (calls ++ later, p'')

  module _ (w : Request H T → ℕ) where
    -- The weights that come in and that are dropped, over a run.
    pub accepted_all : PendingRequests H T → List (Event H T R) → ℕ
    accepted_all p [] = 0
    accepted_all p (e ∷ es) = accepted w p e + accepted_all (step p e).1 es

    pub dropped_all : PendingRequests H T → List (Event H T R) → ℕ
    dropped_all p [] = 0
    dropped_all p (e ∷ es) = dropped w p e + dropped_all (step p e).1 es

    called-append : (a b : List (Call H T R)) → called w (a ++ b) ≡ called w a + called w b
    called-append [] b = omega arith
    called-append (responded r response ∷ a) b = omega (arith, called-append a b)
    called-append (timed_out r ∷ a) b = omega (arith, called-append a b)

    -- Over any run each request that was accepted is, counted by any weight, in exactly one place:
    -- still pending, answered by one handler, or dropped by `cancel` or `clear`.
    pub run-total :
        (p : PendingRequests H T) (es : List (Event H T R))
        → IsSorted p.requests
        → total w p.requests + accepted_all p es
          ≡ total w (run p es).1.requests + called w (run p es).0 + dropped_all p es
    unfolding run accepted_all dropped_all
    run-total p [] s = omega arith
    run-total p (e ∷ es) s =
        unfold accepted_all dropped_all in
        omega (
          arith,
          step-total w p e s,
          run-total (step p e).1 es (step-IsSorted p e s),
          called-append (step p e).0 (run (step p e).1 es).0,
        )
