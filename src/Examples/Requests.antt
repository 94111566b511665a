-- ===== src/Examples/Requests.antt =====
-- Requests that wait, and requests that are queued.
use rsp.Base.{
  ℕ, ◌+◌, ◌≡◌, ◌≢◌, ◌≤◌, ◌<◌, refl, true, none, some, List, [], ◌∷◌, nat_key, arith, length,
  if◌then◌else◌, is_some, leb, bytes_key, pair_key,
}
use rsp.Base.Map.{find, insert, IsSorted, total}
use rsp.PendingRequests.{PendingRequests}
use rsp.PendingRequests.Run.{
  Event, adds, completes, expires, cancels, step, run, TimelyAt, called, accepted_all, dropped_all,
  run-total, step-TimelyAt,
}
use rsp.QueuedRequests.{QueuedRequests, RequestKey, admit, prune, init as no_tickets}
use rsp.QueuedRequests.Memory.{kept_until}
use rsp.QueuedRequests.Invariant.{IsValid}
use rsp.QueuedRequests.Run as Queue
use rsp.QueuedRequests.Tickets.{wins, open_state, wins-le-chance}
use rsp.QueuedRequests.Admission.{admit_lem}

abbrev waiting : PendingRequests ℕ ℕ
waiting = record {
  requests =
      (1, record { deadline = 10; on_response = 100; on_timeout = 101 })
      ∷ (2, record { deadline = 20; on_response = 200; on_timeout = 201 })
      ∷ [];
  running = true;
  timer = true;
}

waiting-IsSorted : IsSorted waiting.requests
waiting-IsSorted = ((refl, tt), (tt, tt))

abbrev events : List (Event ℕ ℕ ℕ)
events = adds 3 300 301 15 ∷ completes 1 7 9 ∷ cancels 3 ∷ expires 20 ∷ []

run-total_example :
    total (λ r. r.deadline) waiting.requests + accepted_all (λ r. r.deadline) waiting events
    ≡ total (λ r. r.deadline) (run waiting events).1.requests
      + called (λ r. r.deadline) (run waiting events).0
      + dropped_all (λ r. r.deadline) waiting events
run-total_example = run-total (λ r. r.deadline) waiting events waiting-IsSorted

step-TimelyAt_example : TimelyAt {R = ℕ} (expires 20) (step waiting (expires 20)).0
step-TimelyAt_example = step-TimelyAt waiting (expires 20)

abbrev one_active : QueuedRequests ℕ
one_active = Queue.run (no_tickets 2 30) (Queue.admits 5 0 ∷ [])

one_active-IsValid : IsValid one_active
one_active-IsValid = (Queue.run-init-IsValid 2 30 (Queue.admits 5 0 ∷ [])).0

held : find 5 one_active.active ≡ some 0
unfolding no_tickets Queue.run Queue.step admit prune find insert
held = refl

positive : one_active.capacity ≢ 0
unfolding no_tickets Queue.run Queue.step admit prune find insert
positive = λ e. omega (arith, e)

idle : find 6 one_active.active ≡ none
unfolding no_tickets Queue.run Queue.step admit prune find insert
idle = refl

unknown : find 6 one_active.terminal ≡ none
unfolding no_tickets Queue.run Queue.step admit prune find insert
unknown = refl

soon : 9 < 1 + one_active.retention
unfolding no_tickets Queue.run Queue.step admit prune find insert
soon = omega arith

abbrev keys : List (Queue.Event RequestKey)
keys =
    Queue.admits (1 ∷ [], 5) 0
    ∷ Queue.cancels (1 ∷ [], 6) 1
    ∷ Queue.admits (1 ∷ [], 6) 2
    ∷ Queue.finishes (1 ∷ [], 5) 0 3
    ∷ []

run-init-IsValid_example :
    IsValid (Queue.run (no_tickets 2 30) keys) × ((Queue.run (no_tickets 2 30) keys).capacity ≡ 2)
run-init-IsValid_example = Queue.run-init-IsValid 2 30 keys

wins-le-chance_example :
    wins 0 one_active (Queue.starts 0 ∷ Queue.starts 0 ∷ [])
    ≤ open_state (find 0 one_active.tickets)
wins-le-chance_example =
    wins-le-chance 0 one_active (Queue.starts 0 ∷ Queue.starts 0 ∷ []) one_active-IsValid

admit_lem_example : (admit 6 1 one_active).0 ≡ (
    if is_some (find 6 one_active.active)
    then none
    else (if is_some (kept_until 1 (find 6 one_active.terminal))
        then none
        else (if leb one_active.capacity (length one_active.active)
            then none
            else some one_active.next_ticket)))
admit_lem_example = admit_lem 6 1 one_active one_active-IsValid
