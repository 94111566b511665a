-- ===== src/Examples/Broker.antt =====
-- Channels with an unreachable route, and a subscriber that is started twice.
use rsp.Base.{◌+◌, ◌≡◌, Bool, true, Option, none, List, [], ◌∷◌, ◌++◌, Bytes, bytes_key, count, bit}
use rsp.Base.Map.{contains}
use rsp.Broker.Worker.{Worker}
use rsp.Broker.Channels.{Channel, router_round}
use rsp.Broker.Delivery.{filter, Event, sends, rounds, sent, run, run-router_round}
use rsp.Broker.Subscriber.{new_subscriber, start_subscriber}
use rsp.Broker.Subscriptions.{
  subscribe_to, unsubscribe_from, adds, drops, run-start_subscriber, start-stop_subscriber,
}
use rsp.Broker.Subscriptions as Subscriptions
use rsp.Broker.Proxy.{message}

abbrev at_work : Worker
at_work = record { running = true; joinable = true }

-- Only the route 7 is known.
abbrev known : Bytes × Bytes → Bool
known (route, message) = bytes_key.beq route (7 ∷ [])

abbrev router : Channel (Bytes × Bytes)
router = record { worker = at_work; outgoing = [] }

abbrev routed : List (Event (Bytes × Bytes) (Option (List Bytes)))
routed = sends (8 ∷ [], 1 ∷ []) ∷ sends (7 ∷ [], 2 ∷ []) ∷ rounds none ∷ sends (7 ∷ [], 3 ∷ []) ∷ []

run-router_round_example :
    let (out, gone, last) = run (router_round known) routed router in
    filter known (router.outgoing ++ sent routed) ≡ out ++ filter known last.outgoing
run-router_round_example = run-router_round known routed router

abbrev before : List Subscriptions.Event
before = subscribe_to (1 ∷ []) ∷ unsubscribe_from (1 ∷ []) ∷ []

run-start_subscriber_example :
    let s =
      Subscriptions.run
        (subscribe_to (2 ∷ []) ∷ [])
        (start_subscriber true (Subscriptions.run before new_subscriber)).1 in
    count (adds (1 ∷ [])) s.applied + count (adds (1 ∷ [])) s.changes
    ≡ count (drops (1 ∷ [])) s.applied
      + count (drops (1 ∷ [])) s.changes
      + bit (contains (1 ∷ []) s.subscriptions)
run-start_subscriber_example = run-start_subscriber (1 ∷ []) before (subscribe_to (2 ∷ []) ∷ [])
