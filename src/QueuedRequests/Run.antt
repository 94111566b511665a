-- ===== src/QueuedRequests/Run.antt =====
-- Any sequence of operations on the registry.
use rsp.Base.{ℕ, ◌≡◌, refl, ◌∙◌, List, [], ◌∷◌, Key, nat_key, arith}
use rsp.Base.Map.{find}
use rsp.QueuedRequests.{
  QueuedRequests, init, admit, cancel, finish, try_start, prune, remember, cancel_ticket,
}
use rsp.QueuedRequests.Invariant.{
  IsValid, admit-IsValid, cancel-IsValid, finish-IsValid, try_start-IsValid,
}

pub data Event (K : Type 0) : Type 0 where
  admits : K → ℕ → Event K
  cancels : K → ℕ → Event K
  finishes : K → ℕ → ℕ → Event K
  starts : ℕ → Event K

module _ {K : Type 0} ⦃o : Key K⦄ where
  unfoldable pub step : QueuedRequests K → Event K → QueuedRequests K
  unfolding admit cancel finish try_start
  step q (admits id now) = (admit id now q).1
  step q (cancels id now) = cancel id now q
  step q (finishes id request now) = (finish id request now q).1
  step q (starts t) = (try_start q t).1

  unfoldable pub run : QueuedRequests K → List (Event K) → QueuedRequests K
  unfolding step
  run q [] = q
  run q (e ∷ es) = run (step q e) es

  pub step-IsValid : (q : QueuedRequests K) (e : Event K) → IsValid q → IsValid (step q e)
  unfolding step
  step-IsValid q (admits id now) v = admit-IsValid id now q v
  step-IsValid q (cancels id now) v = cancel-IsValid id now q v
  step-IsValid q (finishes id request now) v = finish-IsValid id request now q v
  step-IsValid q (starts t) v = try_start-IsValid t q v

  run-IsValid : (q : QueuedRequests K) (es : List (Event K)) → IsValid q → IsValid (run q es)
  unfolding run
  run-IsValid q [] v = v
  run-IsValid q (e ∷ es) v = run-IsValid (step q e) es (step-IsValid q e v)

  pub init-IsValid : (capacity retention : ℕ) → IsValid (init {K = K} capacity retention)
  unfolding init find
  init-IsValid capacity retention = record {
    active_sorted = tt;
    terminal_sorted = tt;
    active_bound = omega arith;
    terminal_bound = omega arith;
    apart = λ k. refl;
    fresh = λ k t h. cc;
    distinct = λ j k t h. cc;
    issued = λ t h. cc;
  }

  step-capacity : (q : QueuedRequests K) (e : Event K) → (step q e).capacity ≡ q.capacity
  unfolding step remember prune cancel_ticket
  step-capacity q (admits id now) = ground arith
  step-capacity q (cancels id now) = ground arith
  step-capacity q (finishes id request now) = ground arith
  step-capacity q (starts t) = ground arith

  run-capacity : (q : QueuedRequests K) (es : List (Event K)) → (run q es).capacity ≡ q.capacity
  unfolding run
  run-capacity q [] = refl
  run-capacity q (e ∷ es) = run-capacity (step q e) es ∙ step-capacity q e

  -- After any sequence of operations on a new registry, at any times, the active requests and the
  -- remembered keys each stay within the capacity that it was given, no key is both active and remembered, and no two
  -- active keys share a ticket.
  pub run-init-IsValid :
      (capacity retention : ℕ) (es : List (Event K))
      → IsValid (run (init capacity retention) es)
        × ((run (init capacity retention) es).capacity ≡ capacity)
  unfolding init
  run-init-IsValid capacity retention es = (
    run-IsValid (init capacity retention) es (init-IsValid capacity retention),
    run-capacity (init capacity retention) es,
  )
