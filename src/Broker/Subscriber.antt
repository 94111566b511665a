-- ===== src/Broker/Subscriber.antt =====
-- event_subscriber: the topics that are subscribed, and the changes that the thread has still to make
-- at its socket. `applied` is what has been set at the socket that the thread holds now.
use rsp.Base.{Bool, true, false, Option, List, [], ◌∷◌, ◌++◌, if◌then◌else◌, Bytes, bytes_key}
use rsp.Base.Map.{Map, insert, erase, contains}
use rsp.Broker.Worker.{Worker, new_worker, Started, started, start, stop}
use rsp.Broker.Channels.{pair_receives}

pub data Operation : Type 0 where
  subscribes unsubscribes : Operation

pub record Subscriber : Type 0 where
  pub worker : Worker
  pub subscriptions : Map Bytes (Unit {0})
  pub changes : List (Operation × Bytes)
  pub applied : List (Operation × Bytes)

abbrev pub new_subscriber : Subscriber
new_subscriber = record { worker = new_worker; subscriptions = []; changes = []; applied = [] }

unfoldable pub subscribe : Bytes → Subscriber → Subscriber
subscribe prefix s = if contains prefix s.subscriptions then s else (record s {
  subscriptions = insert prefix tt s.subscriptions;
  changes = s.changes ++ (subscribes, prefix) ∷ [];
})

unfoldable pub unsubscribe : Bytes → Subscriber → Subscriber
unsubscribe prefix s =
    if contains prefix s.subscriptions
    then (record s {
      subscriptions = erase prefix s.subscriptions;
      changes = s.changes ++ (unsubscribes, prefix) ∷ [];
    })
    else s

unfoldable pub apply_subscription_changes : Subscriber → Subscriber
apply_subscription_changes s = record s { changes = []; applied = s.applied ++ s.changes }

abbrev is_started : Started → Bool
is_started started = true
is_started r = false

-- A thread that starts makes a new socket, and applies the changes before `start` returns.
unfoldable pub start_subscriber : Bool → Subscriber → Started × Subscriber
unfolding start apply_subscription_changes
start_subscriber ready s =
    let (result, w) = start ready s.worker in
    let thread = record s { worker = w } in
    (
      result,
      (if is_started result
          then apply_subscription_changes (record thread { applied = [] })
          else thread),
    )

unfoldable pub stop_subscriber : Subscriber → Subscriber
unfolding stop
stop_subscriber s = record s { worker = stop s.worker }

-- One round of `run`: the changes are applied, and a message of two frames goes to the handler.
unfoldable pub round : Option (List Bytes) → Subscriber → List (List Bytes) × Subscriber
unfolding apply_subscription_changes pair_receives
round incoming s =
    if s.worker.running then (pair_receives incoming, apply_subscription_changes s) else ([], s)
