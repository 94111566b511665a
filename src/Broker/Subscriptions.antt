-- ===== src/Broker/Subscriptions.antt =====
-- What the socket of a subscriber has been told.
use rsp.Base.{
  ◌+◌, ◌≡◌, refl, ap, Bool, true, false, Option, List, [], ◌∷◌, ◌++◌, Bytes, bytes_key, bit, count,
  count-append, arith,
}
use rsp.Base.Map.{find, contains, find-insert, find-erase}
use rsp.Broker.Worker.{start, stop}
use rsp.Broker.Subscriber.{
  Operation, subscribes, unsubscribes, Subscriber, new_subscriber, subscribe, unsubscribe,
  start_subscriber, stop_subscriber, round,
}

pub data Event : Type 0 where
  subscribe_to : Bytes → Event
  unsubscribe_from : Bytes → Event
  rounds : Option (List Bytes) → Event

unfoldable pub step : Event → Subscriber → Subscriber
unfolding subscribe unsubscribe round
step (subscribe_to prefix) s = subscribe prefix s
step (unsubscribe_from prefix) s = unsubscribe prefix s
step (rounds incoming) s = (round incoming s).1

unfoldable pub run : List Event → Subscriber → Subscriber
unfolding step
run [] s = s
run (e ∷ es) s = run es (step e s)

-- Whether an operation is a subscription, or a cancellation, of a prefix.
abbrev pub adds : Bytes → Operation × Bytes → Bool
adds prefix (subscribes, p) = bytes_key.beq prefix p
adds prefix (unsubscribes, p) = false

abbrev pub drops : Bytes → Operation × Bytes → Bool
drops prefix (subscribes, p) = false
drops prefix (unsubscribes, p) = bytes_key.beq prefix p

-- The operations on the socket and those to come, in order.
abbrev pub told : Subscriber → List (Operation × Bytes)
told s = s.applied ++ s.changes

abbrev Balanced : Bytes → Subscriber → Type 0
Balanced prefix s =
    count (adds prefix) s.applied + count (adds prefix) s.changes
    ≡ count (drops prefix) s.applied
      + count (drops prefix) s.changes
      + bit (contains prefix s.subscriptions)

step-Balanced :
    (prefix : Bytes) (e : Event) (s : Subscriber) → Balanced prefix s → Balanced prefix (step e s)
unfolding step
step-Balanced prefix (subscribe_to p) s b = ground (
  arith,
  b,
  count-append (adds prefix) s.changes ((subscribes, p) ∷ []),
  count-append (drops prefix) s.changes ((subscribes, p) ∷ []),
  find-insert prefix p tt s.subscriptions,
  bytes_key.beq_iff prefix p,
)
step-Balanced prefix (unsubscribe_from p) s b = ground (
  arith,
  b,
  count-append (adds prefix) s.changes ((unsubscribes, p) ∷ []),
  count-append (drops prefix) s.changes ((unsubscribes, p) ∷ []),
  find-erase prefix p s.subscriptions,
  bytes_key.beq_iff prefix p,
)
step-Balanced prefix (rounds incoming) s b = ground (
  arith,
  b,
  count-append (adds prefix) s.applied s.changes,
  count-append (drops prefix) s.applied s.changes,
)

run-Balanced :
    (prefix : Bytes) (es : List Event) (s : Subscriber)
    → Balanced prefix s
    → Balanced prefix (run es s)
unfolding run
run-Balanced prefix [] s b = b
run-Balanced prefix (e ∷ es) s b = run-Balanced prefix es (step e s) (step-Balanced prefix e s b)

-- Before a start nothing is applied.
abbrev IsUnstarted : Subscriber → Type 0
IsUnstarted s = (s.applied ≡ []) × (s.worker.running ≡ false) × (s.worker.joinable ≡ false)

step-IsUnstarted : (e : Event) (s : Subscriber) → IsUnstarted s → IsUnstarted (step e s)
unfolding step
step-IsUnstarted (subscribe_to p) s u = ground (arith, u)
step-IsUnstarted (unsubscribe_from p) s u = ground (arith, u)
step-IsUnstarted (rounds incoming) s u = ground (arith, u)

run-IsUnstarted : (es : List Event) (s : Subscriber) → IsUnstarted s → IsUnstarted (run es s)
unfolding run
run-IsUnstarted [] s u = u
run-IsUnstarted (e ∷ es) s u = run-IsUnstarted es (step e s) (step-IsUnstarted e s u)

start-Balanced :
    (prefix : Bytes) (s : Subscriber)
    → IsUnstarted s
    → Balanced prefix s
    → Balanced prefix (start_subscriber true s).1
unfolding start_subscriber start
start-Balanced prefix s u b =
    ground (arith, u, b, ap (count (adds prefix)) u.0, ap (count (drops prefix)) u.0)

-- A subscriber is used in any way, started once and used again in any way. Then the operations that
-- its socket has been told, with those still to come, subscribe each prefix once more often than
-- they cancel it if the prefix is subscribed, and as often if it is not.
pub run-start_subscriber :
    (prefix : Bytes) (before after : List Event)
    → let s = run after (start_subscriber true (run before new_subscriber)).1 in
      count (adds prefix) s.applied + count (adds prefix) s.changes
      ≡ count (drops prefix) s.applied
        + count (drops prefix) s.changes
        + bit (contains prefix s.subscriptions)
run-start_subscriber prefix before after =
    run-Balanced prefix after (start_subscriber true (run before new_subscriber)).1 (
      start-Balanced prefix (run before new_subscriber)
        (run-IsUnstarted before new_subscriber (refl, refl, refl))
        (run-Balanced prefix before new_subscriber (unfold find in refl)))

-- A subscriber that is stopped after a round and started again has a socket that was told nothing,
-- while its prefixes are all still recorded: to subscribe one of them again changes nothing.
pub start-stop_subscriber :
    (prefix : Bytes) (incoming : Option (List Bytes)) (s : Subscriber)
    → s.worker.running ≡ true
    → contains prefix s.subscriptions ≡ true
    → let t = (start_subscriber true (stop_subscriber (round incoming s).1)).1 in
      (t.applied ≡ []) × (t.worker.running ≡ true) × (subscribe prefix t ≡ t)
unfolding start_subscriber start stop_subscriber stop round subscribe
start-stop_subscriber prefix incoming s live known = (ground arith, ground arith, ground arith)
