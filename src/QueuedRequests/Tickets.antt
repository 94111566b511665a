-- ===== src/QueuedRequests/Tickets.antt =====
-- A ticket is started once at most, and a cancellation that comes first excludes the start.
use rsp.Base.{
  inl, inr, ℕ, ◌≡◌, List, [], ◌∷◌, Key, nat_key, arith, ◌+◌, ◌≤◌, some, none, Option, ◌==◌,
  if◌then◌else◌, ==_iff, Option-cases,
}
use rsp.Base.Map.{find, find-insert, erase}
use rsp.QueuedRequests.{
  QueuedRequests, TicketState, queued, started, cancelled, admit, cancel, finish, try_start, prune,
  remember, cancel_ticket, cancel_state, try_start_state,
}
use rsp.QueuedRequests.Invariant.{IsValid}
use rsp.QueuedRequests.Run.{Event, admits, cancels, finishes, starts, step, run, step-IsValid}

-- 1 while a ticket can still be started: it is not issued yet, or it is queued.
abbrev pub open_state : Option TicketState → ℕ
open_state none = 1
open_state (some queued) = 1
open_state (some started) = 0
open_state (some cancelled) = 0

module _ {K : Type 0} ⦃o : Key K⦄ (t : ℕ) where
  abbrev pub chance : QueuedRequests K → ℕ
  chance q = open_state (find t q.tickets)

  -- 1 where the step is a `try_start` of the ticket that succeeds.
  abbrev pub win : QueuedRequests K → Event K → ℕ
  win q (starts u) = if u == t then (if (try_start q u).0 then 1 else 0) else 0
  win q e = 0

  pub wins : QueuedRequests K → List (Event K) → ℕ
  wins q [] = 0
  wins q (e ∷ es) = win q e + wins (step q e) es

  try_start-chance :
      (q : QueuedRequests K) (u : ℕ) → win q (starts u) + chance (try_start q u).1 ≤ chance q
  unfolding try_start try_start_state
  try_start-chance q u = ground (
    arith,
    ==_iff u t,
    ==_iff t u,
    find-insert t u started q.tickets,
    find-insert t u cancelled q.tickets,
  )

  cancel_ticket-chance : (q : QueuedRequests K) (u : ℕ) → chance (cancel_ticket u q) ≤ chance q
  unfolding cancel_ticket cancel_state
  cancel_ticket-chance q u =
      ground
        (arith, ==_iff t u, find-insert t u started q.tickets, find-insert t u cancelled q.tickets)

  remember-tickets :
      (id : K) (now : ℕ) (q : QueuedRequests K) → (remember id now q).tickets ≡ q.tickets
  unfolding remember
  remember-tickets id now q = ground arith

  step-chance :
      (q : QueuedRequests K) (e : Event K) → IsValid q → win q e + chance (step q e) ≤ chance q
  unfolding step admit cancel finish prune
  step-chance q (admits id now) v =
      ground
        (arith, ==_iff t q.next_ticket, v.issued t, find-insert t q.next_ticket queued q.tickets)
  step-chance q (cancels id now) v = elim (Option-cases (find id q.active)) [
    | inr (u, e) ↦ ground (arith, cancel_ticket-chance (prune now q) u)
    | inl e ↦ ground (arith, remember-tickets id now (prune now q))
  ]
  step-chance q (finishes id request now) v =
      ground (arith, remember-tickets id now (prune now (record q { active = erase id q.active })))
  step-chance q (starts u) v = try_start-chance q u

  -- Over any sequence of operations on a valid registry, `try_start` succeeds for a ticket at most
  -- once, and never for a ticket that is started or cancelled already.
  pub wins-le-chance :
      (q : QueuedRequests K) (es : List (Event K))
      → IsValid q
      → wins q es ≤ open_state (find t q.tickets)
  unfolding wins run
  wins-le-chance q [] v = omega arith
  wins-le-chance q (e ∷ es) v =
      omega (arith, step-chance q e v, wins-le-chance (step q e) es (step-IsValid q e v))
