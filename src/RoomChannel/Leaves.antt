-- ===== src/RoomChannel/Leaves.antt =====
-- The messages to the Room server, and what a call of the registry leaves of its requests.
use rsp.Base.{
  ℕ, suc, ◌+◌, ◌≤◌, ◌<◌, ◌≡◌, refl, sym, ◌∙◌, Bool, true, false, none, some, List, [], ◌∷◌, ◌++◌,
  ◌==◌, All, length, count, bit, append_assoc, append-nil, arith, nat_key, ==_iff, Option-cases,
  inl, inr,
}
use rsp.Base.Map.{
  Map, find, insert, erase, IsSorted, erase-IsSorted, length-erase, total, total-erase,
}
use rsp.PendingRequests.{
  Request, PendingRequests, Call, responded, timed_out, take, complete, expire_loop,
}
use rsp.PendingRequests.Run.{expire_loop-IsSorted}
use rsp.Broker.Channels.{send}
use rsp.RoomChannel.{
  ToRoom, request, cancel_request_of, OnTimeout, RoomChannel, Effect, calls_handler, calls_timeout,
  send_cancel, call_all,
}

module _ {Q : Type 0} where
  abbrev pub is_request : ToRoom Q → Bool
  is_request (request q id) = true
  is_request m = false

  abbrev pub is_cancellation : ToRoom Q → Bool
  is_cancellation (cancel_request_of id) = true
  is_cancellation m = false

  abbrev pub asks_under : ℕ → ToRoom Q → Bool
  asks_under i (request q id) = id == i
  asks_under i m = false

  abbrev pub cancels_under : ℕ → ToRoom Q → Bool
  cancels_under i (cancel_request_of id) = id == i
  cancels_under i m = false

module _ {H T R : Type 0} where
  abbrev pub is_answer : Effect H T R → Bool
  is_answer (calls_handler h r) = true
  is_answer e = false

  abbrev pub is_timeout : Effect H T R → Bool
  is_timeout (calls_timeout t) = true
  is_timeout e = false

  -- The cancellations that the calls of the registry bring.
  abbrev pub given_up : (Q : Type 0) → List (Call H (OnTimeout T) R) → List (ToRoom Q)
  given_up Q [] = []
  given_up Q (responded r response ∷ cs) = given_up Q cs
  given_up Q (timed_out r ∷ cs) = cancel_request_of r.on_timeout.request_id ∷ given_up Q cs

  abbrev pub answers_in : List (Call H (OnTimeout T) R) → ℕ
  answers_in [] = 0
  answers_in (responded r response ∷ cs) = suc (answers_in cs)
  answers_in (timed_out r ∷ cs) = answers_in cs

module _ {Q H T R : Type 0} where
  pub call_all_lem :
      (calls : List (Call H (OnTimeout T) R)) (c : RoomChannel Q H T)
      → ((call_all calls c).1.channel.outgoing ≡ c.channel.outgoing ++ given_up Q calls)
        × ((call_all calls c).1.requests ≡ c.requests)
        × ((call_all calls c).1.next_request_id ≡ c.next_request_id)
        × (count is_answer (call_all calls c).0 ≡ answers_in calls)
        × (count is_timeout (call_all calls c).0 ≡ length (given_up Q calls))
  unfolding call_all send_cancel send
  call_all_lem [] c = (sym (append-nil c.channel.outgoing), refl, refl, refl, refl)
  call_all_lem (responded r response ∷ calls) c =
      let k = call_all_lem calls c in (k.0, k.1, k.2, omega (arith, k.3), omega (arith, k.4))
  call_all_lem (timed_out r ∷ calls) c =
      let k = call_all_lem calls (send_cancel r.on_timeout.request_id c) in
      (
        k.0
            ∙ append_assoc c.channel.outgoing (cancel_request_of r.on_timeout.request_id ∷ [])
                (given_up Q calls),
        k.1,
        k.2,
        omega (arith, k.3),
        omega (arith, k.4),
      )

module _ {H T : Type 0} where
  -- An entry stands under the id that its timeout cancels, which was given before `n`.
  abbrev pub Fits : ℕ → ℕ × Request H (OnTimeout T) → Type 0
  Fits n e = (e.0 < n) × (e.1.on_timeout.request_id ≡ e.0)

  abbrev pub named : ℕ → Request H (OnTimeout T) → ℕ
  named i r = bit (r.on_timeout.request_id == i)

  module _ (n : ℕ) where
    pub Fits-later : (m : Map ℕ (Request H (OnTimeout T))) → All (Fits n) m → All (Fits (suc n)) m
    Fits-later [] a = tt
    Fits-later (e ∷ m) a = ((omega (arith, a.0.0), a.0.1), Fits-later m a.1)

    pub Fits-insert :
        (k : ℕ) (r : Request H (OnTimeout T)) (m : Map ℕ (Request H (OnTimeout T)))
        → Fits n (k, r)
        → All (Fits n) m
        → All (Fits n) (insert k r m)
    unfolding insert
    Fits-insert k r [] f a = (f, tt)
    Fits-insert k r (e ∷ m) f a = ground (arith, Fits-insert k r m f a.1)

    pub Fits-erase :
        (k : ℕ) (m : Map ℕ (Request H (OnTimeout T))) → All (Fits n) m → All (Fits n) (erase k m)
    unfolding erase
    Fits-erase k [] a = tt
    Fits-erase k (e ∷ m) a = ground (arith, Fits-erase k m a.1)

    pub Fits-expire :
        (R : Type 0) (now : ℕ) (m : Map ℕ (Request H (OnTimeout T)))
        → All (Fits n) m
        → All (Fits n) (expire_loop {R = R} now m).1
    unfolding expire_loop
    Fits-expire R now [] a = tt
    Fits-expire R now (e ∷ m) a = ground (arith, Fits-expire R now m a.1)

    pub Fits-fresh :
        (k : ℕ) (m : Map ℕ (Request H (OnTimeout T))) → n ≤ k → All (Fits n) m → find k m ≡ none
    unfolding find
    Fits-fresh k [] h a = refl
    Fits-fresh k (e ∷ m) h a = ground (arith, Fits-fresh k m h a.1, ==_iff k e.0)

    pub Fits-find :
        (k : ℕ) (r : Request H (OnTimeout T)) (m : Map ℕ (Request H (OnTimeout T)))
        → All (Fits n) m
        → find k m ≡ some r
        → r.on_timeout.request_id ≡ k
    unfolding find
    Fits-find k r [] a h = cc
    Fits-find k r (e ∷ m) a h = ground (arith, Fits-find k r m a.1, ==_iff k e.0)

-- What the calls of the registry leave of its requests.
pub record Leaves {H T R : Type 0} (Q : Type 0) (n : ℕ) (calls : List (Call H (OnTimeout T) R))
    (m kept : Map ℕ (Request H (OnTimeout T))) : Type 0 where
  pub sized : length m ≡ answers_in calls + length (given_up Q calls) + length kept
  pub owing :
      (i : ℕ)
      → count (cancels_under i) (given_up Q calls) + total (named i) kept ≤ total (named i) m
  pub sorted : IsSorted kept
  pub fitting : All (Fits n) kept

module _ {H T R : Type 0} (Q : Type 0) (n : ℕ) where
  pub expire-Leaves :
      (now : ℕ) (m : Map ℕ (Request H (OnTimeout T)))
      → IsSorted m
      → All (Fits n) m
      → Leaves {R = R} Q n (expire_loop now m).0 m (expire_loop {R = R} now m).1
  unfolding expire_loop
  expire-Leaves now [] s a = record {
    sized = refl;
    owing = λ i. omega arith;
    sorted = tt;
    fitting = tt;
  }
  expire-Leaves now ((id, r) ∷ m) s a =
      let k = expire-Leaves now m s.1 a.1 in
      record {
        sized = ground (arith, k.sized);
        owing = λ i. ground (arith, k.owing i);
        sorted = expire_loop-IsSorted R now ((id, r) ∷ m) s;
        fitting = Fits-expire n R now ((id, r) ∷ m) a;
      }

  pub complete-Leaves :
      (id now : ℕ) (response : R) (p : PendingRequests H (OnTimeout T))
      → IsSorted p.requests
      → All (Fits n) p.requests
      → Leaves Q n (complete id response now p).0 p.requests (complete id response now p).1.requests
  unfolding complete take
  complete-Leaves id now response p s a = elim (Option-cases (find id p.requests)) [
    | inl e ↦ record {
      sized = ground (arith, e);
      owing = λ i. ground (arith, e);
      sorted = ground (arith, e, s);
      fitting = ground (arith, e, a);
    }
    | inr (r, e) ↦ record {
      sized = ground (arith, e, length-erase id p.requests s);
      owing = λ i. ground (arith, e, total-erase (named i) id p.requests s);
      sorted = ground (arith, e, erase-IsSorted id p.requests s);
      fitting = ground (arith, e, Fits-erase n id p.requests a);
    }
  ]

module _ {H T R : Type 0} (Q : Type 0) where
  pub count-given_up :
      (calls : List (Call H (OnTimeout T) R)) (i : ℕ)
      → (count is_request (given_up Q calls) ≡ 0)
        × (count is_cancellation (given_up Q calls) ≡ length (given_up Q calls))
        × (count (asks_under i) (given_up Q calls) ≡ 0)
  count-given_up [] i = (refl, refl, refl)
  count-given_up (responded r response ∷ calls) i = count-given_up calls i
  count-given_up (timed_out r ∷ calls) i =
      let k = count-given_up calls i in (omega (arith, k.0), omega (arith, k.1), omega (arith, k.2))
