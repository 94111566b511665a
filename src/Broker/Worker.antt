-- ===== src/Broker/Worker.antt =====
-- The thread of a channel, as `start`, `stop` and the end of `run` leave it. The five classes
-- dealer_channel, router_channel, event_publisher, event_subscriber and event_broker share it.
use rsp.Base.{◌≡◌, Bool, true, false, if◌then◌else◌, arith}

-- `joinable` is thread_.joinable().
pub record Worker : Type 0 where
  pub running : Bool
  pub joinable : Bool

-- What `start` does: nothing, since the flag is set; a start; the exception of the thread's set-up;
-- or std::terminate, by the assignment to a joinable std::thread.
pub data Started : Type 0 where
  already started failed terminated : Started

abbrev pub new_worker : Worker
new_worker = record { running = false; joinable = false }

-- `ready` is whether the thread could make, set up and bind or connect its socket.
unfoldable pub start : Bool → Worker → Started × Worker
start ready w =
    if w.running
    then (already, w)
    else (if w.joinable
        then (terminated, record w { running = true })
        else (if ready
            then (started, record { running = true; joinable = true })
            else (failed, record { running = false; joinable = false })))

unfoldable pub stop : Worker → Worker
stop w = record { running = false; joinable = false }

-- An exception leaves the loop: the thread ends, and is still to be joined.
unfoldable pub die : Worker → Worker
die w = record w { running = false }

-- A thread whose loop has ended by an exception cannot be started again: `start` ends the program,
-- unless `stop` is called before it.
pub start-die :
    (w : Worker) (ready : Bool)
    → w.joinable ≡ true
    → ((start ready (die w)).0 ≡ terminated)
      × ((start ready (stop (die w))).0 ≡ (if ready then started else failed))
unfolding start stop die
start-die w ready j = (ground arith, ground arith)
